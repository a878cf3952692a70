-- ===== src/Tests/Safety.antt =====
-- The risk policy and the execution runner at concrete inputs.
use ops_pilot_ai.Tools.Registry.{required_weight, caller_weight, invoke, get_tool}
use ops_pilot_ai.Prelude.{
  arith, ◌≤◌, false, eq_iff, ℕ, ◌≤◌, String, ◌≡◌, refl, ◌≢◌, ◌↔◌, ◌⊎◌, inl, true, false, ◌||◌, none,
  some, [], ◌∷◌, arith, ◌==◌, ℕ_eq, String_eq, length, elem, nodup,
}
use ops_pilot_ai.Prelude.Text.{upper}
use ops_pilot_ai.Result.{ok}
use ops_pilot_ai.Value.{distinct, end, field, str, get, get_or}
use ops_pilot_ai.Domain.{
  clear_cache, rollback_deployment, RemediationAction, ActionExecutionResult, success, rolled_back,
  critical,
}
use ops_pilot_ai.Topology.{default_topology}
use ops_pilot_ai.Safety.Destructive.{detect_destructive_payload}
use ops_pilot_ai.Safety.Policy.{calculate_blast_radius, assess_action_risk, authorize_approval}
use ops_pilot_ai.Safety.Policy.BlastRadius.{calls, blast_radius_exact}
use ops_pilot_ai.Safety.Policy.Tiers.{IsHeavy, operator_barred_iff, destructive-IsGated, exempt_iff}
use ops_pilot_ai.Safety.Policy.Roles.{authorize_iff}
use ops_pilot_ai.Safety.Runner.{
  Runner, skipped, execute_action, execute_with, execute_rollback, dispatch, conclude, tool_args,
}
use ops_pilot_ai.Safety.Runner.Idempotency.{executed_once}
use ops_pilot_ai.Safety.Runner.Rollback.{compensation-IsSkipped}
use ops_pilot_ai.Safety.Runner.Target.{tool_args-target}
use ops_pilot_ai.Tests.Fixtures.{tools, idle, action_on, clearing}

has_key : clearing.idempotency_key ≢ ""
has_key e = ground (arith, (eq_iff "k1" "").1 e)

abbrev done_once : ActionExecutionResult
done_once = record {
  action_id = "a1";
  status = success;
  output = "Remediation action completed successfully";
  error_message = none;
}

executed_once_example :
    let s' = (execute_action tools clearing "OPERATOR" idle).1 in
    execute_action tools clearing "ADMIN" s' ≡ (ok (skipped "a1"), s')
unfolding execute_action execute_with dispatch conclude tool_args get_tool invoke caller_weight
    required_weight get_or
executed_once_example =
    executed_once tools clearing clearing "OPERATOR" "ADMIN" idle done_once has_key refl refl refl

abbrev rolled_out : RemediationAction
rolled_out = action_on rollback_deployment end

abbrev after_rollout : Runner ℕ
after_rollout = record { executed_keys = "k1" ∷ []; world = 1 }

compensation-IsSkipped_example :
    execute_rollback tools rolled_out "OPERATOR" after_rollout
    ≡ (ok (record (skipped "a1") { status = rolled_back }), after_rollout)
compensation-IsSkipped_example =
    compensation-IsSkipped tools rolled_out "OPERATOR" after_rollout (inl refl) refl

tool_args-target_example :
    get "target_service"
      (tool_args "auth-service" (field "target_service" (str "payment-service") end))
    ≡ some (str "payment-service")
unfolding get get_or distinct
tool_args-target_example =
    tool_args-target "auth-service" (field "target_service" (str "payment-service") end) refl

abbrev dropping : RemediationAction
dropping = action_on clear_cache (field "query" (str "drop table users") end)

destructive-IsGated_example :
    let a = assess_action_risk (λ s. s) true default_topology dropping "inc-1" in
    (a.risk_score ≡ 1000) × (a.risk_tier ≡ critical) × (a.requires_approval ≡ true)
unfolding detect_destructive_payload
destructive-IsGated_example =
    destructive-IsGated (λ s. s) true default_topology dropping "inc-1" refl

exempt_iff_example :
    ((assess_action_risk (λ s. s) true default_topology clearing "inc-1").requires_approval ≡ false)
    ↔ ((true ≡ true)
        × (detect_destructive_payload end ≡ false)
        × (clear_cache ≡ clear_cache)
        × (length (calculate_blast_radius "auth-service" default_topology) ≤ 2))
exempt_iff_example = exempt_iff (λ s. s) true default_topology clearing "inc-1"

blast_radius_exact_example :
    (nodup (calculate_blast_radius "order-service" default_topology) ≡ true)
    × ((s : String)
        → elem s (calculate_blast_radius "order-service" default_topology) ≡ (
            s == "order-service"
            || calls default_topology s "order-service"
            || calls default_topology "order-service" s))
unfolding default_topology
blast_radius_exact_example = blast_radius_exact "order-service" default_topology refl

authorize_iff_example : ((authorize_approval clearing "operator").0 ≡ true) ↔ (
    (upper "operator" ≡ "ADMIN")
    ⊎ ((upper "operator" ≡ "OPERATOR") × (clearing.risk_tier ≢ critical)))
authorize_iff_example = authorize_iff clearing "operator"

abbrev rolling : RemediationAction
rolling = record (action_on rollback_deployment end) { target_service = "payment-service" }

operator_barred_iff_example :
    ((authorize_approval
        (assess_action_risk (λ s. s) false default_topology rolling "inc-1")
        "Operator").0
      ≡ false)
    ↔ ((detect_destructive_payload end ≡ true)
        ⊎ IsHeavy rollback_deployment
            (length (calculate_blast_radius "payment-service" default_topology)))
unfolding upper
operator_barred_iff_example =
    operator_barred_iff (λ s. s) false default_topology rolling "inc-1" "Operator" refl
