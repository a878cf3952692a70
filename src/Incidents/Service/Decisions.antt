-- ===== src/Incidents/Service/Decisions.antt =====
-- An accepted decision, seen by later calls.
use ops_pilot_ai.Prelude.{
  sym, ◌∙◌, ℕ, String, ◌≡◌, refl, sym, ◌∙◌, inl, inr, true, none, some, List, [], ◌∷◌, ◌++◌, arith,
  eq_refl, ◌==◌, ℕ_eq, String_eq, any_of, All,
}
use Prim.Native.String.{◌++◌ as ◌⧺◌}
use ops_pilot_ai.Prelude.Assoc.{Assoc, lookup, insert, lookup-insert}
use ops_pilot_ai.Domain.{IncidentState, RemediationPlan, ApprovalDecision, RemediationAction}
use ops_pilot_ai.Domain.Names.{decision_name}
use ops_pilot_ai.Incidents.Service.{
  Service, Dumps, accepted, value_error, ApprovalDecisionRequest, ApprovalRequestResponse,
  existing_decision, find_target, decide, decide_action, submit_approval, decisions_by_action,
  approvals_of, get_approvals,
}
use ops_pilot_ai.Incidents.Service.Approvals.{
  IsAccepted, submit_approval-cases, with_decision, reaches,
}

last_decision :
    (d : ApprovalDecision) (ds : List ApprovalDecision) (known : Assoc ApprovalDecision)
    → lookup d.action_id (decisions_by_action (ds ++ d ∷ []) known) ≡ some d
unfolding decisions_by_action
last_decision d [] known =
    ground (arith, lookup-insert d.action_id d.action_id d known, eq_refl d.action_id)
last_decision d (c ∷ cs) known = last_decision d cs (insert c.action_id c known)

first_decision :
    (d : ApprovalDecision) (ds : List ApprovalDecision)
    → existing_decision d.action_id ds ≡ none
    → existing_decision d.action_id (ds ++ d ∷ []) ≡ some d
first_decision d [] h = ground (arith, eq_refl d.action_id)
first_decision d (c ∷ cs) h = ground (arith, first_decision d cs)

-- What the approvals say of the action that `d` decides.
abbrev pub Tells : ApprovalDecision → ApprovalRequestResponse → Type 0
Tells d g =
    g.action_id ≡ d.action_id
    → (g.status ≡ decision_name d.decision)
      × (g.approver_id ≡ some d.decided_by)
      × (g.comment ≡ some d.reason)

approvals-Tells :
    (s : IncidentState) (i : String) (d : ApprovalDecision) (by_action : Assoc ApprovalDecision)
    (actions : List RemediationAction)
    → lookup d.action_id by_action ≡ some d
    → All (Tells d) (approvals_of s i by_action actions)
approvals-Tells s i d by_action [] h = tt
approvals-Tells s i d by_action (a ∷ as') h =
    (λ e. rw (e, h) (refl, refl, refl), approvals-Tells s i d by_action as' h)

abbrev pub Listed : String → List ApprovalRequestResponse → Type 0
Listed action_id gs = any_of (λ g. g.action_id == action_id) gs ≡ true

target-Listed :
    (s : IncidentState) (i id : String) (by_action : Assoc ApprovalDecision) (a : RemediationAction)
    (actions : List RemediationAction)
    → find_target id actions ≡ some a
    → Listed a.action_id (approvals_of s i by_action actions)
target-Listed s i id by_action a [] h = ground arith
target-Listed s i id by_action a (b ∷ bs) h =
    ground (arith, target-Listed s i id by_action a bs, eq_refl a.action_id)

accepted_result :
    (dumps : Dumps) (i id : String) (r : ApprovalDecisionRequest) (now : ℕ) (svc : Service)
    (resp : ApprovalRequestResponse)
    → (submit_approval dumps i id r now svc).0 ≡ accepted resp
    → IsAccepted dumps i id r now svc (submit_approval dumps i id r now svc)
accepted_result dumps i id r now svc resp h = elim (submit_approval-cases dumps i id r now svc) [
  | inl refused ↦ absurd (refused.0 resp h)
  | inr acc ↦ acc
]

same_action :
    (dumps : Dumps) (i id : String) (r : ApprovalDecisionRequest) (now : ℕ) (svc : Service)
    (resp : ApprovalRequestResponse)
    → (submit_approval dumps i id r now svc).0 ≡ accepted resp
    → (acc : IsAccepted dumps i id r now svc (submit_approval dumps i id r now svc))
    → resp.action_id ≡ acc.action.action_id
same_action dumps i id r now svc resp h acc = same _ (sym h ∙ acc.answer)
  where
    same : (q : ApprovalRequestResponse) → accepted resp ≡ accepted q → resp.action_id ≡ q.action_id
    same q e = ground arith

-- The incident with one more decision.
abbrev decided : IncidentState → ApprovalDecision → IncidentState
decided s d = record s { approval_decisions = s.approval_decisions ++ d ∷ [] }

lookup-decided :
    (dumps : Dumps) (i : String) (s : IncidentState) (d : ApprovalDecision) (svc : Service)
    → lookup i (with_decision dumps i s d svc).incidents ≡ some (decided s d)
lookup-decided dumps i s d svc =
    ground (arith, lookup-insert i i (decided s d) svc.incidents, eq_refl i)

shown_after :
    (dumps : Dumps) (i : String) (s : IncidentState) (plan : RemediationPlan) (d : ApprovalDecision)
    (svc : Service)
    → s.remediation_plan ≡ some plan
    → get_approvals i (with_decision dumps i s d svc)
      ≡ approvals_of
          (decided s d)
          i
          (decisions_by_action (s.approval_decisions ++ d ∷ []) [])
          plan.actions
unfolding get_approvals
shown_after dumps i s plan d svc p =
    rw (lookup-decided dumps i s d svc, get_approvals) (planned_after (decided s d) p)
  where
    planned_after :
        (t : IncidentState)
        → t.remediation_plan ≡ some plan
        → elim t.remediation_plan [
          | none ↦ []
          | some plan ↦ approvals_of t i (decisions_by_action t.approval_decisions []) plan.actions
        ]
          ≡ approvals_of t i (decisions_by_action t.approval_decisions []) plan.actions
    planned_after t p = rw p refl

already_decided :
    (dumps : Dumps) (i id : String) (r : ApprovalDecisionRequest) (now : ℕ) (s : IncidentState)
    (a : RemediationAction) (svc : Service) (d : ApprovalDecision)
    → existing_decision a.action_id s.approval_decisions ≡ some d
    → decide_action dumps i id r now s a svc ≡ (
      value_error (
          "Action ["
          ⧺ a.action_id
          ⧺ "] was already "
          ⧺ decision_name d.decision
          ⧺ " by ["
          ⧺ d.decided_by
          ⧺ "]"),
      svc,
    )
unfolding decide_action
already_decided dumps i id r now s a svc d e = rw (e, decide_action) refl

-- After an accepted submission, the approvals of the incident list its action, and each entry for
-- the action shows the decision, the approver and the reason of the request.
pub submit-get_approvals :
    (dumps : Dumps) (i id : String) (r : ApprovalDecisionRequest) (now : ℕ) (svc : Service)
    (resp : ApprovalRequestResponse)
    → (submit_approval dumps i id r now svc).0 ≡ accepted resp
    → let shown = get_approvals i (submit_approval dumps i id r now svc).1 in
      Listed resp.action_id shown × All (Tells (decide resp.action_id r now)) shown
submit-get_approvals dumps i id r now svc resp h =
    let acc = accepted_result dumps i id r now svc resp h in
    let d = decide acc.action.action_id r now in
    rw (same_action dumps i id r now svc resp h acc, acc.change)
      (rw (shown_after dumps i acc.state acc.plan d svc acc.planned) (
        target-Listed (decided acc.state d) i id
            (decisions_by_action (acc.state.approval_decisions ++ d ∷ []) []) acc.action
            acc.plan.actions acc.target,
        approvals-Tells (decided acc.state d) i d
            (decisions_by_action (acc.state.approval_decisions ++ d ∷ []) []) acc.plan.actions
            (last_decision d acc.state.approval_decisions []),
      ))

-- After an accepted submission, another one for the same approval is an error that names the first
-- decision and its approver, whatever the request and the approver's role, and changes nothing.
pub submit_once :
    (dumps : Dumps) (i id : String) (r r' : ApprovalDecisionRequest) (now later : ℕ) (svc : Service)
    (resp : ApprovalRequestResponse)
    → (submit_approval dumps i id r now svc).0 ≡ accepted resp
    → let svc' = (submit_approval dumps i id r now svc).1 in
      submit_approval dumps i id r' later svc' ≡ (
        value_error (
            "Action ["
            ⧺ resp.action_id
            ⧺ "] was already "
            ⧺ decision_name r.decision
            ⧺ " by ["
            ⧺ r.approver_id
            ⧺ "]"),
        svc',
      )
submit_once dumps i id r r' now later svc resp h =
    let acc = accepted_result dumps i id r now svc resp h in
    let d = decide acc.action.action_id r now in
    let svc' = with_decision dumps i acc.state d svc in
    rw (same_action dumps i id r now svc resp h acc, acc.change)
      (reaches dumps i id r' later svc' (decided acc.state d) acc.plan acc.action
          (lookup-decided dumps i acc.state d svc) acc.planned acc.target
        ∙ already_decided dumps i id r' later (decided acc.state d) acc.action svc' d
            (first_decision d acc.state.approval_decisions acc.undecided))
