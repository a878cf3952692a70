-- ===== src/Safety/Runner/Rollback.antt =====
-- Compensation: what `execute_rollback` does after an action was executed.
use ops_pilot_ai.Prelude.{refl, String, ◌≡◌, ◌≢◌, ◌⊎◌, true, none, some, arith, ℕ_eq, String_eq}
use ops_pilot_ai.Result.{ok}
use ops_pilot_ai.Value.{Value, end, Fields}
use ops_pilot_ai.Domain.{
  ActionType, rollback_deployment, modify_configuration, RemediationAction, ActionExecutionResult,
  rolled_back,
}
use ops_pilot_ai.Tools.Registry.{Registry, get_tool}
use ops_pilot_ai.Safety.Runner.{
  Runner, is_executed, skipped, execute_with, execute_rollback, restart_action, rollback_parameters,
  dispatch, as_rolled_back,
}

redone :
    (t : ActionType) (parameters : Fields)
    → (t ≡ rollback_deployment) ⊎ (t ≡ modify_configuration)
    → (v : Value) × (rollback_parameters t parameters ≡ some v)
unfolding rollback_parameters
redone rollback_deployment parameters e = (_, refl)
redone modify_configuration parameters e = (_, refl)
redone _ parameters e = absurd (ground arith)

module _ {W : Type 0} (registry : Registry W) where
  -- `execute_with` on an action whose key was executed.
  skips_with :
      (a : RemediationAction) (v : Value) (role : String) (s : Runner W)
      → is_executed a s.executed_keys ≡ true
      → execute_with registry a v role s ≡ (ok (skipped a.action_id), s)
  unfolding execute_with
  skips_with a v role s h = rw h

  rollback-same_tool :
      (a : RemediationAction) (v : Value) (role : String) (s : Runner W)
      → rollback_parameters a.action_type a.parameters ≡ some v
      → execute_rollback registry a role s ≡ (
        as_rolled_back (execute_with registry a v role s).0,
        (execute_with registry a v role s).1,
      )
  unfolding execute_rollback
  rollback-same_tool a v role s e = rw (e, execute_rollback)

  -- Where the type of an action is rollback_deployment or modify_configuration and its key was
  -- executed, the compensation runs no tool: the world and the keys stay as they are, and yet the
  -- result reports ROLLED_BACK.
  pub compensation-IsSkipped :
      (a : RemediationAction) (role : String) (s : Runner W)
      → (a.action_type ≡ rollback_deployment) ⊎ (a.action_type ≡ modify_configuration)
      → is_executed a s.executed_keys ≡ true
      → execute_rollback registry a role s
        ≡ (ok (record (skipped a.action_id) { status = rolled_back }), s)
  compensation-IsSkipped a role s t h =
      let (v, e) = redone a.action_type a.parameters t in
      rw (rollback-same_tool a v role s e) (rw (skips_with a v role s h))

  -- Where the type is another one, the compensation dispatches a restart of the target
  -- if the registry has that tool, whatever keys were executed, and changes nothing else.
  compensation-restarts :
      (a : RemediationAction) (role : String) (s : Runner W)
      → a.action_type ≢ rollback_deployment
      → a.action_type ≢ modify_configuration
      → (execute_rollback registry a role s).1 ≡ elim (get_tool "restart_service" registry) [
        | none ↦ s
        | some tool ↦ (dispatch registry (restart_action a) end role s).1
      ]
  unfolding execute_rollback rollback_parameters execute_with restart_action
  compensation-restarts a role s n m = ground arith

  -- A compensation that returns reports ROLLED_BACK, whatever became of it.
  rollback_reports :
      (a : RemediationAction) (role : String) (s : Runner W) (r : ActionExecutionResult)
      → (execute_rollback registry a role s).0 ≡ ok r
      → r.status ≡ rolled_back
  unfolding execute_rollback
  rollback_reports a role s r h = ground arith
