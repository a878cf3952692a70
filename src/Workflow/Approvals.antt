-- ===== src/Workflow/Approvals.antt =====
-- What the execution and the verification nodes do with a plan, and what they do not ask for.
use ops_pilot_ai.Workflow.Update.{Update}
use ops_pilot_ai.Prelude.{
  refl, last?, none, ◌⊎◌, false, false, ◌≢◌, ◌↔◌, some, inr, inl, String, ◌≡◌, List, [], ◌∷◌, arith,
  ℕ_eq, String_eq,
}
use ops_pilot_ai.Result.{Result-cases, ok}
use ops_pilot_ai.Domain.{
  RecoveryStatus, IncidentStage, ApprovalDecision, VerificationAssessment, IncidentState,
  TimelineEvent, RemediationAction, ActionExecutionResult,
}
use ops_pilot_ai.Safety.Runner.{
  Runner, execute_action, execute_with, dispatch, conclude, skipped, no_tool,
}
use ops_pilot_ai.Tools.Base.{ToolResult}
use ops_pilot_ai.Tools.Registry.{Registry}
use ops_pilot_ai.Workflow.Nodes.{actions_of, execution_node, verification_node, execute_plan}

-- The ids that results are about, and those of actions.
abbrev pub result_ids : List ActionExecutionResult → List String
result_ids [] = []
result_ids (r ∷ rs) = r.action_id ∷ result_ids rs

abbrev pub action_ids : List RemediationAction → List String
action_ids [] = []
action_ids (a ∷ as') = a.action_id ∷ action_ids as'

no_last : (xs : List RemediationAction) → last? xs ≡ none → xs ≡ []
no_last [] h = refl
no_last (x ∷ []) h = cc
no_last (x ∷ y ∷ xs) h = absurd (ground (arith, no_last (y ∷ xs) h))

module _ {W : Type 0} (registry : Registry W) where
  conclude-id :
      (a : RemediationAction) (t : ToolResult) (s : Runner W) (r : ActionExecutionResult)
      → (conclude a t s).0 ≡ ok r
      → r.action_id ≡ a.action_id
  unfolding conclude
  conclude-id a t s r h = ground arith

  dispatch-id :
      (a : RemediationAction) (role : String) (s : Runner W) (r : ActionExecutionResult)
      → (dispatch registry a a.parameters role s).0 ≡ ok r
      → r.action_id ≡ a.action_id
  unfolding dispatch
  dispatch-id a role s r h = conclude-id a _ _ r h

  execute_action-id :
      (a : RemediationAction) (role : String) (s : Runner W) (r : ActionExecutionResult)
      → (execute_action registry a role s).0 ≡ ok r
      → r.action_id ≡ a.action_id
  unfolding execute_action execute_with no_tool skipped
  execute_action-id a role s r h = ground (arith, dispatch-id a role s r)

  execute_plan-ids :
      (actions : List RemediationAction) (s : Runner W) (rs : List ActionExecutionResult)
      (es : List TimelineEvent)
      → (execute_plan registry actions s).0 ≡ ok (rs, es)
      → result_ids rs ≡ action_ids actions
  unfolding execute_plan
  execute_plan-ids [] s rs es h = ground arith
  execute_plan-ids (a ∷ as') s rs es h =
      let (res, s') = execute_action registry a "OPERATOR" s in
      elim (Result-cases (execute_action registry a "OPERATOR" s).0) [
        | inl (r, er) ↦
            elim (Result-cases
              (execute_plan registry as' (execute_action registry a "OPERATOR" s).1).0) [
                | inl ((qs, fs), eq) ↦ ground (
                  arith,
                  execute_action-id a "OPERATOR" s r er,
                  execute_plan-ids as' (execute_action registry a "OPERATOR" s).1 qs fs eq,
                )
                | inr (e, eq) ↦ absurd (ground arith)
              ]
        | inr (e, er) ↦ absurd (ground arith)
      ]

  covered :
      (s : IncidentState) (r : Runner W) (u : Update)
      → (execution_node registry s r).0 ≡ ok u
      → actions_of s ≢ []
      → (rs : List ActionExecutionResult) × (u.execution_results ≡ some rs)
        × (result_ids rs ≡ action_ids (actions_of s))
  unfolding execution_node
  covered s r u h n = elim (Result-cases (execute_plan registry (actions_of s) r).0) [
    | inl ((rs, es), e) ↦ (rs, ground arith, execute_plan-ids (actions_of s) r rs es e)
    | inr (x, e) ↦ absurd (ground arith)
  ]

  same_node :
      (s : IncidentState) (r : Runner W) (pending : List RemediationAction)
      (decisions : List ApprovalDecision)
      → execution_node registry
          (record s { pending_approvals = pending; approval_decisions = decisions })
          r
        ≡ execution_node registry s r
  unfolding execution_node
  same_node s r pending decisions = refl

  -- Where the plan has actions and the execution node returns, its results are about the plan's
  -- actions, every one of them, in order. The approvals have no part in it: with other pending
  -- approvals and other decisions, rejections included, the node does the same.
  pub execution_ignores_approvals :
      (s : IncidentState) (r : Runner W) (u : Update) (pending : List RemediationAction)
      (decisions : List ApprovalDecision)
      → (execution_node registry s r).0 ≡ ok u
      → actions_of s ≢ []
      → ((rs : List ActionExecutionResult) × (u.execution_results ≡ some rs)
          × (result_ids rs ≡ action_ids (actions_of s)))
        × (execution_node registry
              (record s { pending_approvals = pending; approval_decisions = decisions })
              r
            ≡ execution_node registry s r)
  execution_ignores_approvals s r u pending decisions h n =
      (covered s r u h n, same_node s r pending decisions)

  -- When the verification node returns, it sets RESOLVED exactly if the assessment says RECOVERED and
  -- no compensation was due: no rollback was recommended, or the plan has no action. A run that
  -- executed nothing is no exception.
  pub resolved_iff :
      (a : VerificationAssessment) (s : IncidentState) (r : Runner W) (u : Update)
      → (verification_node registry a s r).0 ≡ ok u
      → u.current_stage ≡ some IncidentStage.resolved ↔ (
          (a.status ≡ RecoveryStatus.recovered)
          × ((a.rollback_recommended ≡ false) ⊎ (actions_of s ≡ [])))
  unfolding verification_node
  resolved_iff a s r u h = ground (arith, no_last (actions_of s))
