-- ===== src/Incidents/Service/Approvals.antt =====
-- What becomes of an approval decision.
use ops_pilot_ai.Prelude.{
  ap, ◌∙◌, ℕ, String, ◌≡◌, refl, ◌≢◌, ◌⊎◌, inl, inr, true, none, some, [], ◌∷◌, ◌++◌, arith, ℕ_eq,
  String_eq, Bool-cases, Option-cases,
}
use ops_pilot_ai.Prelude.Assoc.{lookup, insert}
use ops_pilot_ai.Domain.{IncidentState, RemediationPlan, ApprovalDecision, RemediationAction}
use ops_pilot_ai.Safety.Policy.{authorize_approval}
use ops_pilot_ai.Events.Broker.{published}
use ops_pilot_ai.Incidents.Service.{
  Service, Dumps, Submission, accepted, ApprovalDecisionRequest, ApprovalRequestResponse,
  existing_decision, find_target, decide, decided_response, decide_action, submit_approval,
}

-- The service after the decision `d` on an action of the incident `i`.
abbrev pub with_decision : Dumps → String → IncidentState → ApprovalDecision → Service → Service
with_decision dumps i s d svc = record svc {
  incidents =
      insert i (record s { approval_decisions = s.approval_decisions ++ d ∷ [] }) svc.incidents;
  broadcasts = svc.broadcasts ++ published i "approval_decision" (dumps.decision_dump d) ∷ [];
}

-- The action is open, the role may decide it, and the decision is appended and published.
pub record IsAccepted (dumps : Dumps) (i id : String) (r : ApprovalDecisionRequest) (now : ℕ)
    (svc : Service) (result : Submission × Service) : Type 0 where
  pub state : IncidentState
  pub plan : RemediationPlan
  pub action : RemediationAction
  pub found : lookup i svc.incidents ≡ some state
  pub planned : state.remediation_plan ≡ some plan
  pub target : find_target id plan.actions ≡ some action
  pub undecided : existing_decision action.action_id state.approval_decisions ≡ none
  pub authorized : (authorize_approval action r.approver_role).0 ≡ true
  pub answer :
      result.0 ≡ accepted (decided_response state i id action (decide action.action_id r now))
  pub change : result.1 ≡ with_decision dumps i state (decide action.action_id r now) svc

-- An error, which leaves the service as it was.
abbrev pub IsRefused : Service → Submission × Service → Type 0
IsRefused svc result =
    ((resp : ApprovalRequestResponse) → result.0 ≢ accepted resp) × (result.1 ≡ svc)

decide_action-cases :
    (dumps : Dumps) (i id : String) (r : ApprovalDecisionRequest) (now : ℕ) (s : IncidentState)
    (a : RemediationAction) (svc : Service)
    → IsRefused svc (decide_action dumps i id r now s a svc)
      ⊎ ((existing_decision a.action_id s.approval_decisions ≡ none)
          × ((authorize_approval a r.approver_role).0 ≡ true)
          × (decide_action dumps i id r now s a svc ≡ (
            accepted (decided_response s i id a (decide a.action_id r now)),
            with_decision dumps i s (decide a.action_id r now) svc,
          )))
unfolding decide_action
decide_action-cases dumps i id r now s a svc =
    elim (Option-cases (existing_decision a.action_id s.approval_decisions)) [
      | inl e ↦ elim (Bool-cases (authorize_approval a r.approver_role).0) [
        | inl o ↦ inr (e, o, rw (e, decide_action) (rw o refl))
        | inr o ↦ inl (rw (e, decide_action) (rw o (λ resp h. ground arith, refl)))
      ]
      | inr (d, e) ↦ inl (rw (e, decide_action) (λ resp h. ground arith, refl))
    ]

pub reaches :
    (dumps : Dumps) (i id : String) (r : ApprovalDecisionRequest) (now : ℕ) (svc : Service)
    (s : IncidentState) (plan : RemediationPlan) (a : RemediationAction)
    → lookup i svc.incidents ≡ some s
    → s.remediation_plan ≡ some plan
    → find_target id plan.actions ≡ some a
    → submit_approval dumps i id r now svc ≡ decide_action dumps i id r now s a svc
unfolding submit_approval
reaches dumps i id r now svc s plan a e p t = rw (e, submit_approval) (simp p (rw t refl))

-- A submission is refused, with the service unchanged, or else accepted: then the incident
-- has a plan, the id names an action of it on which nobody has decided, the approver's role is
-- authorized for the action's tier, and exactly this decision is appended and published.
pub submit_approval-cases :
    (dumps : Dumps) (i id : String) (r : ApprovalDecisionRequest) (now : ℕ) (svc : Service)
    → IsRefused svc (submit_approval dumps i id r now svc)
      ⊎ IsAccepted dumps i id r now svc (submit_approval dumps i id r now svc)
unfolding submit_approval
submit_approval-cases dumps i id r now svc = elim (Option-cases (lookup i svc.incidents)) [
  | inl e ↦ inl (rw (e, submit_approval) (λ resp h. ground arith, refl))
  | inr (s, e) ↦ elim (Option-cases s.remediation_plan) [
    | inl n ↦ inl (rw (e, submit_approval) (simp n (λ resp h. ground arith, refl)))
    | inr (plan, p) ↦ elim (Option-cases (find_target id plan.actions)) [
      | inl n ↦ inl (rw (e, submit_approval) (simp p (simp n (λ resp h. ground arith, refl))))
      | inr (a, t) ↦ elim (decide_action-cases dumps i id r now s a svc) [
        | inl refused ↦ inl (rw (e, submit_approval) (simp p (rw t refused)))
        | inr (n, o, done) ↦ inr (record {
          state = s;
          plan = plan;
          action = a;
          found = e;
          planned = p;
          target = t;
          undecided = n;
          authorized = o;
          answer = ap (λ x. x.0) (reaches dumps i id r now svc s plan a e p t ∙ done);
          change = ap (λ x. x.1) (reaches dumps i id r now svc s plan a e p t ∙ done);
        })
      ]
    ]
  ]
]
