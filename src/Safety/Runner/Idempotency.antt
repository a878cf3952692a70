-- ===== src/Safety/Runner/Idempotency.antt =====
-- Double execution: what the set of executed idempotency keys prevents.
use ops_pilot_ai.Prelude.{
  String, ◌≡◌, sym, ◌∙◌, ◌≢◌, true, List, arith, eq_iff, eq_refl, ℕ_eq, String_eq, elem,
}
use ops_pilot_ai.Result.{ok}
use ops_pilot_ai.Domain.{RemediationAction, ActionExecutionResult, success, failed}
use ops_pilot_ai.Domain.Names.{action_name}
use ops_pilot_ai.Tools.Base.{ToolResult}
use ops_pilot_ai.Tools.Registry.{Registry, invoke}
use ops_pilot_ai.Safety.Runner.{
  Runner, add_key, skipped, no_tool, conclude, dispatch, execute_with, execute_action, tool_args,
}

elem-add_key : (k : String) (keys : List String) → k ≢ "" → elem k (add_key k keys) ≡ true
elem-add_key k keys h = ground (arith, eq_refl k, eq_iff k "")

elem-add_key_mono :
    (k j : String) (keys : List String) → elem j keys ≡ true → elem j (add_key k keys) ≡ true
elem-add_key_mono k j keys h = ground arith

module _ {W : Type 0} (registry : Registry W) where
  conclude-success :
      (a : RemediationAction) (t : ToolResult) (s : Runner W) (r : ActionExecutionResult)
      → a.idempotency_key ≢ ""
      → (conclude a t s).0 ≡ ok r
      → r.status ≡ success
      → elem a.idempotency_key (conclude a t s).1.executed_keys ≡ true
  unfolding conclude
  conclude-success a t s r n h e = ground (arith, elem-add_key a.idempotency_key s.executed_keys n)

  conclude-failed :
      (a : RemediationAction) (t : ToolResult) (s : Runner W) (r : ActionExecutionResult)
      → (conclude a t s).0 ≡ ok r
      → r.status ≡ failed
      → (conclude a t s).1.executed_keys ≡ s.executed_keys
  unfolding conclude
  conclude-failed a t s r h e = ground arith

  -- What the registry answers to the action.
  abbrev invoked : RemediationAction → String → Runner W → ToolResult × W
  invoked a role s =
      invoke registry (action_name a.action_type) (tool_args a.target_service a.parameters) role
        s.world

  -- A successful execution leaves its key among the executed ones.
  records_key :
      (a : RemediationAction) (role : String) (s : Runner W) (r : ActionExecutionResult)
      → a.idempotency_key ≢ ""
      → (execute_action registry a role s).0 ≡ ok r
      → r.status ≡ success
      → elem a.idempotency_key (execute_action registry a role s).1.executed_keys ≡ true
  unfolding execute_action execute_with dispatch no_tool
  records_key a role s r n h e = ground (
    arith,
    conclude-success a (invoked a role s).0 (record s { world = (invoked a role s).1 }) r n,
  )

  skips :
      (b : RemediationAction) (role : String) (s : Runner W)
      → b.idempotency_key ≢ ""
      → elem b.idempotency_key s.executed_keys ≡ true
      → execute_action registry b role s ≡ (ok (skipped b.action_id), s)
  unfolding execute_action execute_with
  skips b role s n h = ground (arith, eq_iff b.idempotency_key "")

  -- Once an action with a key has been executed with success, an action with the same key is skipped,
  -- for every role: its tool does not run, the world and the keys stay, and SUCCESS is reported.
  pub executed_once :
      (a b : RemediationAction) (role role' : String) (s : Runner W) (r : ActionExecutionResult)
      → a.idempotency_key ≢ ""
      → b.idempotency_key ≡ a.idempotency_key
      → (execute_action registry a role s).0 ≡ ok r
      → r.status ≡ success
      → let s' = (execute_action registry a role s).1 in
        execute_action registry b role' s' ≡ (ok (skipped b.action_id), s')
  executed_once a b role role' s r n same h e =
      skips b role' (execute_action registry a role s).1 (λ z. n (sym same ∙ z))
        (rw same (records_key a role s r n h e))

  -- An execution that reports FAILED adds no key, so that it can be tried again.
  failure_keeps_keys :
      (a : RemediationAction) (role : String) (s : Runner W) (r : ActionExecutionResult)
      → (execute_action registry a role s).0 ≡ ok r
      → r.status ≡ failed
      → (execute_action registry a role s).1.executed_keys ≡ s.executed_keys
  unfolding execute_action execute_with dispatch no_tool skipped
  failure_keeps_keys a role s r h e =
      ground (
        arith,
        conclude-failed a (invoked a role s).0 (record s { world = (invoked a role s).1 }) r,
      )
