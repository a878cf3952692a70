-- ===== src/Api/Submissions.antt =====
-- The statuses of a submitted approval.
use ops_pilot_ai.Prelude.{
  ℕ, String, ◌≡◌, refl, sym, ◌∙◌, ◌⊎◌, inl, inr, Bool, true, false, Option, none, some, arith,
  if◌then◌else◌, ℕ_eq, String_eq, Bool-cases, Option-cases,
}
use ops_pilot_ai.Prelude.Assoc.{lookup}
use ops_pilot_ai.Domain.{IncidentState, RemediationPlan, RemediationAction}
use ops_pilot_ai.Safety.Policy.{authorize_approval}
use ops_pilot_ai.Incidents.Service.{
  Service, Dumps, ApprovalDecisionRequest, existing_decision, find_target, decide_action,
  submit_approval,
}
use ops_pilot_ai.Api.{submit, Server, serve, submission_response}
use ops_pilot_ai.Api.Statuses.{status_of}

-- The id names an undecided action of the incident's plan.
pub record IsOpen (i id : String) (svc : Service) : Type 0 where
  pub state : IncidentState
  pub plan : RemediationPlan
  pub action : RemediationAction
  pub found : lookup i svc.incidents ≡ some state
  pub planned : state.remediation_plan ≡ some plan
  pub target : find_target id plan.actions ≡ some action
  pub undecided : existing_decision action.action_id state.approval_decisions ≡ none

abbrev pub may_decide :
    {i id : String} {svc : Service} → ApprovalDecisionRequest → IsOpen i id svc → Bool
may_decide request open_action = (authorize_approval open_action.action request.approver_role).0

-- The status of a submission, by what it names.
abbrev pub expected_status : Option Bool → ℕ
expected_status none = 404
expected_status (some true) = 200
expected_status (some false) = 403

decide_action-open :
    (dumps : Dumps) (i id : String) (r : ApprovalDecisionRequest) (now : ℕ) (s : IncidentState)
    (a : RemediationAction) (svc : Service)
    → existing_decision a.action_id s.approval_decisions ≡ none
    → status_of (submission_response (decide_action dumps i id r now s a svc).0)
      ≡ expected_status (some (authorize_approval a r.approver_role).0)
unfolding decide_action submission_response
decide_action-open dumps i id r now s a svc u =
    elim (Bool-cases (authorize_approval a r.approver_role).0) [
      | inl e ↦ rw (u, decide_action) (rw e refl)
      | inr e ↦ rw (u, decide_action) (rw e refl)
    ]

submit_status-open :
    (dumps : Dumps) (i id : String) (r : ApprovalDecisionRequest) (now : ℕ) (svc : Service)
    (o : IsOpen i id svc)
    → status_of (submission_response (submit_approval dumps i id r now svc).0)
      ≡ expected_status (some (may_decide r o))
unfolding submit_approval
submit_status-open dumps i id r now svc o =
    rw (o.found, submit_approval)
      (rw o.planned
        (rw o.target (decide_action-open dumps i id r now o.state o.action svc o.undecided)))

submit_status-cases :
    (dumps : Dumps) (i id : String) (r : ApprovalDecisionRequest) (now : ℕ) (svc : Service)
    → IsOpen i id svc
      ⊎ (status_of (submission_response (submit_approval dumps i id r now svc).0) ≡ 404)
unfolding submit_approval submission_response decide_action
submit_status-cases dumps i id r now svc = elim (Option-cases (lookup i svc.incidents)) [
  | inl e ↦ inr (rw (e, submit_approval) refl)
  | inr (s, e) ↦ elim (Option-cases s.remediation_plan) [
    | inl p ↦ inr (rw (e, submit_approval) (rw p refl))
    | inr (plan, p) ↦ elim (Option-cases (find_target id plan.actions)) [
      | inl t ↦ inr (rw (e, submit_approval) (rw p (rw t refl)))
      | inr (a, t) ↦ elim (Option-cases (existing_decision a.action_id s.approval_decisions)) [
        | inl u ↦ inl (record {
          state = s;
          plan = plan;
          action = a;
          found = e;
          planned = p;
          target = t;
          undecided = u;
        })
        | inr (d, u) ↦ inr (rw (e, submit_approval) (rw p (rw t (rw (u, decide_action) refl))))
      ]
    ]
  ]
]

-- A submission is answered 404 where its id names no undecided action of the incident's plan, and
-- otherwise 200 or 403 as the role of the approver may decide the action or not; so a second decision
-- on an action is answered 404, whoever sends it.
pub submit_status :
    {E : Type 0} (embed : String → E) (dumps : Dumps) (strftime : ℕ → String) (i id : String)
    (r : ApprovalDecisionRequest) (now : ℕ) (server : Server E)
    → let status = status_of (serve embed dumps strftime (submit i id r now) server).0 in
      ((o : IsOpen i id server.service) × (status ≡ (if may_decide r o then 200 else 403)))
      ⊎ ((¬ IsOpen i id server.service) × (status ≡ 404))
unfolding serve
submit_status embed dumps strftime i id r now server =
    let answered_open = λ (o : IsOpen i id server.service).
      submit_status-open dumps i id r now server.service o ∙ expected (may_decide r o) in
    elim (submit_status-cases dumps i id r now server.service) [
      | inl o ↦ inl (o, answered_open o)
      | inr e ↦ inr (λ o. not_404 (may_decide r o) (sym (answered_open o) ∙ e), e)
    ]
  where
    expected : (b : Bool) → expected_status (some b) ≡ (if b then 200 else 403)
    expected true = refl
    expected false = refl

    not_404 : (b : Bool) → ¬ (◌≡◌ {A = ℕ} (if b then 200 else 403) 404)
    not_404 true h = omega (arith, h)
    not_404 false h = omega (arith, h)
