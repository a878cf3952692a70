-- ===== src/Simulator/Engine/Recovery.antt =====
-- What remediation actions do to the simulated services.
use ops_pilot_ai.Prelude.{
  String, ◌≡◌, refl, ap, ◌⊎◌, inl, inr, Bool, true, false, ◌||◌, Option, none, some, List, [], ◌∷◌,
  arith, eq_iff, if◌then◌else◌, ◌==◌, ℕ_eq, String_eq, Bool-cases, Option-cases,
}
use ops_pilot_ai.Prelude.Assoc.{lookup}
use ops_pilot_ai.Result.{ok}
use ops_pilot_ai.Value.{get, get_or, truthy, is_text, str, bool, Fields, end, field}
use ops_pilot_ai.Topology.{
  ServiceStatus, healthy, Services, ServiceNode, get_service, set_service_status,
}
use ops_pilot_ai.Simulator.Scenario.{
  remediate_redis_pool_exhaustion, remediate_db_connection_exhaustion, remediate_slow_query,
  remediate_memory_leak, remediate_cpu_saturation, remediate_downstream_failure,
  remediate_bad_deployment, remediate_invalid_config, remediate_api_timeout,
  remediate_queue_backlog, at_least_50, mentions_index, ScenarioId, redis_pool_exhaustion,
  db_connection_exhaustion, slow_query, memory_leak, cpu_saturation, downstream_failure,
  bad_deployment, invalid_config, api_timeout, queue_backlog, Scenario, affected_services,
  recommended_remediation, remediate, apply_remediation,
}
use ops_pilot_ai.Simulator.Engine.{set_statuses, operational, settle, finish, execute_action}

-- Whether a service of the topology, if it is there, has the status.
abbrev pub HasStatus : ServiceStatus → Option ServiceNode → Type 0
HasStatus status none = Unit
HasStatus status (some node) = node.status ≡ status

get-set_service_status :
    (s name : String) (status : ServiceStatus) (t : Services)
    → get_service s (set_service_status name status t) ≡ (
        if name == s
        then elim (get_service s t) [
          | none ↦ none
          | some node ↦ some (record node { status = status })
        ]
        else get_service s t)
unfolding get_service lookup set_service_status
get-set_service_status s name status [] = ground arith
get-set_service_status s name status ((j, node) ∷ rest) =
    ground
      (arith, get-set_service_status s name status rest, eq_iff j name, eq_iff j s, eq_iff name s)

-- Setting one service's status: the service has it then, and no other service loses it.
set-HasStatus :
    (s name : String) (status : ServiceStatus) (t : Services)
    → (name ≡ s) ⊎ HasStatus status (get_service s t)
    → HasStatus status (get_service s (set_service_status name status t))
set-HasStatus s name status t h = rw get-set_service_status (elim (Option-cases (get_service s t)) [
  | inl e ↦ rw e (elim (Bool-cases (name == s)) [ inl y ↦ rw y tt | inr n ↦ rw n tt ])
  | inr (node, e) ↦ elim (Bool-cases (name == s)) [
    | inl y ↦ rw (y, e) refl
    | inr n ↦ rw n (elim h [ inl same ↦ absurd (ground (arith, eq_iff name s)) | inr k ↦ k ])
  ]
])

keeps_statuses :
    (names : List String) (s : String) (status : ServiceStatus) (t : Services)
    → HasStatus status (get_service s t)
    → HasStatus status (get_service s (set_statuses names status t))
unfolding set_statuses
keeps_statuses [] s status t h = h
keeps_statuses (n ∷ ns) s status t h =
    keeps_statuses ns s status (set_service_status n status t) (set-HasStatus s n status t (inr h))

abbrev pub AllHave : ServiceStatus → List String → Services → Type 0
AllHave status [] t = Unit
AllHave status (n ∷ ns) t = HasStatus status (get_service n t) × AllHave status ns t

set_statuses-AllHave :
    (names : List String) (status : ServiceStatus) (t : Services)
    → AllHave status names (set_statuses names status t)
unfolding set_statuses
set_statuses-AllHave [] status t = tt
set_statuses-AllHave (n ∷ ns) status t = (
  keeps_statuses ns n status (set_service_status n status t)
      (set-HasStatus n n status t (inl refl)),
  set_statuses-AllHave ns status (set_service_status n status t),
)

-- Parameters with which the recommended remediation works.
abbrev pub remedy : ScenarioId → Fields
remedy redis_pool_exhaustion = field "target_service" (str "payment-service") end
remedy db_connection_exhaustion = field "target_service" (str "order-service") end
remedy slow_query = field "action" (str "CREATE INDEX") end
remedy memory_leak = field "target_service" (str "auth-service") end
remedy cpu_saturation = field "target_service" (str "notification-service") end
remedy downstream_failure = field "target_service" (str "payment-service") end
remedy bad_deployment = field "target_service" (str "api-gateway") end
remedy invalid_config = end
remedy api_timeout = field "provider_failover" (bool true) end
remedy queue_backlog = field "target_service" (str "notification-service") end

remedy_works :
    (id : ScenarioId)
    → (m : String) × (remediate id (recommended_remediation id) (remedy id) ≡ ok (true, m, true))
unfolding remediate recommended_remediation remediate_redis_pool_exhaustion
    remediate_db_connection_exhaustion remediate_slow_query remediate_memory_leak
    remediate_cpu_saturation remediate_downstream_failure remediate_bad_deployment
    remediate_invalid_config remediate_api_timeout remediate_queue_backlog at_least_50
    mentions_index get get_or truthy is_text
remedy_works redis_pool_exhaustion =
    ("payment-service successfully rolled back from v2.4.1 to v2.4.0", refl)
remedy_works db_connection_exhaustion =
    ("order-service successfully restarted; leaked connection pool purged", refl)
remedy_works slow_query =
    ("Index idx_orders_customer_uuid created successfully; query planner normalized", refl)
remedy_works memory_leak =
    ("auth-service restarted successfully; resident heap cleared to 25%", refl)
remedy_works cpu_saturation =
    ("notification-service restarted; CPU utilization dropped to 14%", refl)
remedy_works downstream_failure =
    ("payment-service restarted; downstream connectivity restored", refl)
remedy_works bad_deployment = ("api-gateway rolled back to v2.1.0; route parsing normalized", refl)
remedy_works invalid_config =
    ("JWT signing keys synchronized between auth-service and api-gateway", refl)
remedy_works api_timeout =
    ("payment-service routed traffic to secondary backup payment provider", refl)
remedy_works queue_backlog =
    ("notification-service consumers restarted with dead-letter queue routing", refl)

applied :
    (scenario : Scenario) (action_type m : String) (parameters : Fields) (success works : Bool)
    → remediate scenario.id action_type parameters ≡ ok (success, m, works)
    → apply_remediation scenario action_type parameters
      ≡ (ok (success, m), record scenario { is_remediated = works || scenario.is_remediated })
unfolding apply_remediation
applied scenario action_type m parameters success works h = rw (h, apply_remediation)

-- A remediation that works makes the affected services healthy.
heals :
    (scenario : Scenario) (t : Services) (action_type m : String) (parameters : Fields)
    → remediate scenario.id action_type parameters ≡ ok (true, m, true)
    → execute_action action_type parameters
        (record { topology = t; active_scenario = some scenario })
      ≡ (
        ok (true, m),
        record {
          topology = set_statuses (affected_services scenario.id) healthy t;
          active_scenario = some (record scenario { is_remediated = true });
        },
      )
unfolding execute_action finish operational settle
heals scenario t action_type m parameters h =
    ap (finish action_type parameters (record { topology = t; active_scenario = some scenario }))
      (applied scenario action_type m parameters true true h)

-- For each of the ten scenarios and any topology, the recommended remediation with suitable
-- parameters succeeds, and leaves every affected service that the topology has HEALTHY.
pub recommended_heals :
    (scenario : Scenario) (t : Services)
    → let (answer, engine') =
        execute_action
          (recommended_remediation scenario.id)
          (remedy scenario.id)
          (record { topology = t; active_scenario = some scenario }) in
      ((m : String) × (answer ≡ ok (true, m)))
      × AllHave healthy (affected_services scenario.id) engine'.topology
recommended_heals scenario t =
    let (m, works) = remedy_works scenario.id in
    rw (heals scenario t (recommended_remediation scenario.id) m (remedy scenario.id) works)
      ((m, refl), set_statuses-AllHave (affected_services scenario.id) healthy t)

abbrev pub remediated_of : Option Scenario → Bool
remediated_of none = false
remediated_of (some scenario) = scenario.is_remediated

scale_refused :
    (id : ScenarioId) (parameters : Fields)
    → (m : String) × (remediate id "scale_replicas" parameters ≡ ok (false, m, false))
unfolding remediate remediate_redis_pool_exhaustion remediate_db_connection_exhaustion
    remediate_slow_query remediate_memory_leak remediate_cpu_saturation remediate_downstream_failure
    remediate_bad_deployment remediate_invalid_config remediate_api_timeout remediate_queue_backlog
scale_refused redis_pool_exhaustion p =
    ("Remediation action scale_replicas failed or target service invalid", refl)
scale_refused db_connection_exhaustion p =
    ("Action scale_replicas did not resolve database connection leak", refl)
scale_refused slow_query p = ("Action scale_replicas did not resolve slow query", refl)
scale_refused memory_leak p = ("Action scale_replicas failed to remediate memory leak", refl)
scale_refused cpu_saturation p = ("Action scale_replicas failed to remediate CPU saturation", refl)
scale_refused downstream_failure p =
    ("Action scale_replicas failed to restore payment-service", refl)
scale_refused bad_deployment p = ("Action scale_replicas failed to remediate bad deployment", refl)
scale_refused invalid_config p =
    ("Action scale_replicas failed to synchronize JWT configuration", refl)
scale_refused api_timeout p =
    ("Action scale_replicas failed to switch payment provider route", refl)
scale_refused queue_backlog p = ("Action scale_replicas failed to resume queue consumption", refl)

-- While a scenario is active that is not remediated, scaling replicas succeeds with any parameters,
-- does not remediate the scenario, and leaves the services as they are.
scaling_only_pretends :
    (scenario : Scenario) (t : Services) (parameters : Fields)
    → scenario.is_remediated ≡ false
    → let (answer, engine') =
        execute_action "scale_replicas" parameters
          (record { topology = t; active_scenario = some scenario }) in
      ((m : String) × (answer ≡ ok (true, m)))
      × (engine'.topology ≡ t)
      × (remediated_of engine'.active_scenario ≡ false)
unfolding execute_action finish operational settle
scaling_only_pretends scenario t parameters h =
    let (m, refused) = scale_refused scenario.id parameters in
    rw (applied scenario "scale_replicas" m parameters false false refused) ((_, refl), rw h, h)
