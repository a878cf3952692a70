-- ===== src/Simulator/Scenario.antt =====
-- simulator/scenarios: the ten failure scenarios, their affected services, and what each
-- `apply_remediation` does. The times at which a scenario started and was remediated are left out.
use ops_pilot_ai.Prelude.{
  String, Bool, true, false, ◌&&◌, ◌||◌, Option, none, some, List, [], ◌∷◌, leb, if◌then◌else◌,
  ◌==◌, ℕ_eq, String_eq, elem,
}
use ops_pilot_ai.Result.{Result, ok, err}
use ops_pilot_ai.Prelude.Text.{contains, lower}
use ops_pilot_ai.Value.{
  pos, negsuc, Value, null, bool, num, str, arr, obj, Fields, get, get_or, truthy, is_text,
}
use Prim.Native.String.{◌++◌ as ◌⧺◌}

pub data ScenarioId : Type 0 where
  redis_pool_exhaustion db_connection_exhaustion slow_query memory_leak : ScenarioId
  cpu_saturation downstream_failure bad_deployment invalid_config : ScenarioId
  api_timeout queue_backlog : ScenarioId

pub record Scenario : Type 0 where
  pub id : ScenarioId
  pub is_active : Bool
  pub is_remediated : Bool

-- `ground_truth.affected_services`
unfoldable pub affected_services : ScenarioId → List String
affected_services redis_pool_exhaustion = "payment-service" ∷ "api-gateway" ∷ []
affected_services db_connection_exhaustion = "order-service" ∷ []
affected_services slow_query = "order-service" ∷ []
affected_services memory_leak = "auth-service" ∷ []
affected_services cpu_saturation = "notification-service" ∷ []
affected_services downstream_failure = "payment-service" ∷ "order-service" ∷ []
affected_services bad_deployment = "api-gateway" ∷ []
affected_services invalid_config = "auth-service" ∷ "api-gateway" ∷ []
affected_services api_timeout = "payment-service" ∷ []
affected_services queue_backlog = "notification-service" ∷ []

-- `ground_truth.recommended_remediation`
unfoldable pub recommended_remediation : ScenarioId → String
recommended_remediation redis_pool_exhaustion = "rollback_deployment"
recommended_remediation db_connection_exhaustion = "restart_service"
recommended_remediation slow_query = "modify_configuration"
recommended_remediation memory_leak = "restart_service"
recommended_remediation cpu_saturation = "restart_service"
recommended_remediation downstream_failure = "restart_service"
recommended_remediation bad_deployment = "rollback_deployment"
recommended_remediation invalid_config = "rollback_deployment"
recommended_remediation api_timeout = "modify_configuration"
recommended_remediation queue_backlog = "restart_service"

-- `SCENARIO_REGISTRY`, by the texts of its keys
unfoldable pub scenario_of : String → Option ScenarioId
scenario_of name =
    if name == "redis_pool_exhaustion"
    then some redis_pool_exhaustion
    else if name == "db_connection_exhaustion"
    then some db_connection_exhaustion
    else if name == "slow_query"
    then some slow_query
    else if name == "memory_leak"
    then some memory_leak
    else if name == "cpu_saturation"
    then some cpu_saturation
    else if name == "downstream_failure"
    then some downstream_failure
    else if name == "bad_deployment"
    then some bad_deployment
    else if name == "invalid_config"
    then some invalid_config
    else if name == "api_timeout"
    then some api_timeout
    else if name == "queue_backlog"
    then some queue_backlog
    else none

abbrev pub type_name : Value → String
type_name null = "NoneType"
type_name (bool b) = "bool"
type_name (num n) = "int"
type_name (str s) = "str"
type_name (arr xs) = "list"
type_name (obj d) = "dict"

-- `v >= 50`; the Booleans are the numbers 0 and 1
unfoldable pub at_least_50 : Value → Result Bool
at_least_50 (num (pos n)) = ok (leb 50 n)
at_least_50 (num (negsuc n)) = ok false
at_least_50 (bool b) = ok false
at_least_50 v = err ("'>=' not supported between instances of '" ⧺ type_name v ⧺ "' and 'int'")

-- `"index" in v.lower()`
unfoldable pub mentions_index : Value → Result Bool
unfolding contains lower
mentions_index (str s) = ok (contains "index" (lower s))
mentions_index v = err ("'" ⧺ type_name v ⧺ "' object has no attribute 'lower'")

abbrev pub targets : String → Fields → Bool
targets service parameters = elim (get "target_service" parameters) [
  | none ↦ false
  | some v ↦ is_text service v
]

-- What a remediation says: whether it succeeded, its message, and whether the fault is gone.
abbrev fixed : String → Result (Bool × String × Bool)
fixed message = ok (true, message, true)

abbrev refused : String → Result (Bool × String × Bool)
refused message = ok (false, message, false)

abbrev fix_if : Result Bool → String → String → Result (Bool × String × Bool)
fix_if (ok true) message other = fixed message
fix_if (ok false) message other = refused other
fix_if (err e) message other = err e

-- The body of each scenario's `apply_remediation`.
unfoldable pub remediate_redis_pool_exhaustion : String → Fields → Result (Bool × String × Bool)
remediate_redis_pool_exhaustion action_type parameters =
    let otherwise : Result (Bool × String × Bool) =
      refused ("Remediation action " ⧺ action_type ⧺ " failed or target service invalid") in
    if action_type == "rollback_deployment" && targets "payment-service" parameters
    then fixed "payment-service successfully rolled back from v2.4.1 to v2.4.0"
    else if action_type == "modify_configuration"
    then fix_if (at_least_50 (get_or "max_connections" (num (pos 0)) parameters))
        "payment-service redis max_connections scaled back to 100"
        ("Remediation action " ⧺ action_type ⧺ " failed or target service invalid")
    else if action_type == "restart_service" && targets "payment-service" parameters
    then ok (true, "payment-service restarted, but configuration max_connections=10 remains", false)
    else otherwise

unfoldable pub remediate_db_connection_exhaustion : String → Fields → Result (Bool × String × Bool)
remediate_db_connection_exhaustion action_type parameters =
    if action_type == "restart_service" && targets "order-service" parameters
    then fixed "order-service successfully restarted; leaked connection pool purged"
    else refused ("Action " ⧺ action_type ⧺ " did not resolve database connection leak")

unfoldable pub remediate_slow_query : String → Fields → Result (Bool × String × Bool)
remediate_slow_query action_type parameters =
    if action_type == "modify_configuration"
    then fix_if (mentions_index (get_or "action" (str "") parameters))
        "Index idx_orders_customer_uuid created successfully; query planner normalized"
        ("Action " ⧺ action_type ⧺ " did not resolve slow query")
    else refused ("Action " ⧺ action_type ⧺ " did not resolve slow query")

unfoldable pub remediate_memory_leak : String → Fields → Result (Bool × String × Bool)
remediate_memory_leak action_type parameters =
    if action_type == "restart_service" && targets "auth-service" parameters
    then fixed "auth-service restarted successfully; resident heap cleared to 25%"
    else refused ("Action " ⧺ action_type ⧺ " failed to remediate memory leak")

unfoldable pub remediate_cpu_saturation : String → Fields → Result (Bool × String × Bool)
remediate_cpu_saturation action_type parameters =
    if action_type == "restart_service" && targets "notification-service" parameters
    then fixed "notification-service restarted; CPU utilization dropped to 14%"
    else refused ("Action " ⧺ action_type ⧺ " failed to remediate CPU saturation")

unfoldable pub remediate_downstream_failure : String → Fields → Result (Bool × String × Bool)
remediate_downstream_failure action_type parameters =
    if action_type == "restart_service" && targets "payment-service" parameters
    then fixed "payment-service restarted; downstream connectivity restored"
    else refused ("Action " ⧺ action_type ⧺ " failed to restore payment-service")

unfoldable pub remediate_bad_deployment : String → Fields → Result (Bool × String × Bool)
remediate_bad_deployment action_type parameters =
    if action_type == "rollback_deployment" && targets "api-gateway" parameters
    then fixed "api-gateway rolled back to v2.1.0; route parsing normalized"
    else refused ("Action " ⧺ action_type ⧺ " failed to remediate bad deployment")

unfoldable pub remediate_invalid_config : String → Fields → Result (Bool × String × Bool)
remediate_invalid_config action_type parameters =
    if elem action_type ("rollback_deployment" ∷ "modify_configuration" ∷ [])
    then fixed "JWT signing keys synchronized between auth-service and api-gateway"
    else refused ("Action " ⧺ action_type ⧺ " failed to synchronize JWT configuration")

unfoldable pub remediate_api_timeout : String → Fields → Result (Bool × String × Bool)
remediate_api_timeout action_type parameters =
    if action_type == "modify_configuration" && truthy (get_or "provider_failover" null parameters)
    then fixed "payment-service routed traffic to secondary backup payment provider"
    else refused ("Action " ⧺ action_type ⧺ " failed to switch payment provider route")

unfoldable pub remediate_queue_backlog : String → Fields → Result (Bool × String × Bool)
remediate_queue_backlog action_type parameters =
    if elem action_type ("restart_service" ∷ "clear_cache" ∷ [])
      && targets "notification-service" parameters
    then fixed "notification-service consumers restarted with dead-letter queue routing"
    else refused ("Action " ⧺ action_type ⧺ " failed to resume queue consumption")

unfoldable pub remediate : ScenarioId → String → Fields → Result (Bool × String × Bool)
remediate redis_pool_exhaustion action_type parameters =
    remediate_redis_pool_exhaustion action_type parameters
remediate db_connection_exhaustion action_type parameters =
    remediate_db_connection_exhaustion action_type parameters
remediate slow_query action_type parameters = remediate_slow_query action_type parameters
remediate memory_leak action_type parameters = remediate_memory_leak action_type parameters
remediate cpu_saturation action_type parameters = remediate_cpu_saturation action_type parameters
remediate downstream_failure action_type parameters =
    remediate_downstream_failure action_type parameters
remediate bad_deployment action_type parameters = remediate_bad_deployment action_type parameters
remediate invalid_config action_type parameters = remediate_invalid_config action_type parameters
remediate api_timeout action_type parameters = remediate_api_timeout action_type parameters
remediate queue_backlog action_type parameters = remediate_queue_backlog action_type parameters

-- The method: the flag is set by a remediation that works, and never cleared.
unfoldable pub apply_remediation : Scenario → String → Fields → Result (Bool × String) × Scenario
apply_remediation scenario action_type parameters =
    elim (remediate scenario.id action_type parameters) [
      | ok (success, message, works) ↦ (
        ok (success, message),
        record scenario { is_remediated = works || scenario.is_remediated },
      )
      | err e ↦ (err e, scenario)
    ]
