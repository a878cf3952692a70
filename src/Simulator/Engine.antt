-- ===== src/Simulator/Engine.antt =====
-- simulator/engine.py: the orchestrator. The commits, deployments and telemetry that it generates
-- when a scenario is loaded or remediated are left out: no remediation reads them.
pub mod Recovery
use ops_pilot_ai.Prelude.{
  ℕ, zero, suc, ◌+◌, ◌-◌, ◌*◌, ◌/◌, ◌%◌, ◌≤◌, ◌<◌, min, max, String, ◌≡◌, refl, sym, ap, ◌∙◌, ◌≢◌,
  ◌↔◌, ◌⊎◌, inl, inr, Bool, true, false, not, ◌&&◌, ◌||◌, Option, none, some, List, [], ◌∷◌, ◌++◌,
  map, arith, eq_iff, eq_refl, ltb, leb, nat_eqb, nat_eqb_iff, if◌then◌else◌, Eq, ◌==◌, ℕ_eq,
  String_eq, Bool-cases, Option-cases, length, take, drop, head?, last?, keep_if, find_if, any_of,
  All, length-append, length-drop, All-append, All-keep_if, elem, elem-append, nodup,
}
use Prim.Native.String.{◌++◌ as ◌⧺◌}
use ops_pilot_ai.Result.{Result, ok, err}
use ops_pilot_ai.Value.{num, str, pos, Fields, get_or}
use ops_pilot_ai.Value.Text.{to_text}
use ops_pilot_ai.Topology.{
  ServiceStatus, healthy, degraded, Services, default_topology, set_service_status,
}
use ops_pilot_ai.Simulator.Scenario.{
  ScenarioId, Scenario, affected_services, scenario_of, apply_remediation,
}

pub record Engine : Type 0 where
  pub topology : Services
  pub active_scenario : Option Scenario

unfoldable pub reset : Engine → Engine
reset engine = record { topology = default_topology; active_scenario = none }

-- `for svc in services: topology.set_service_status(svc, status)`
unfoldable pub set_statuses : List String → ServiceStatus → Services → Services
unfolding set_service_status
set_statuses [] status topology = topology
set_statuses (svc ∷ rest) status topology =
    set_statuses rest status (set_service_status svc status topology)

-- `list_scenario_ids`, as the exception shows it
abbrev pub available : String
available =
    "['redis_pool_exhaustion', 'db_connection_exhaustion', 'slow_query', 'memory_leak', 'cpu_saturation', "
    ⧺ "'downstream_failure', 'bad_deployment', 'invalid_config', 'api_timeout', 'queue_backlog']"

-- An unknown scenario raises after the reset.
unfoldable pub load_scenario : String → Engine → Result (Unit {0}) × Engine
load_scenario scenario_id engine =
    let fresh = reset engine in
    elim (scenario_of scenario_id) [
      | none ↦ (err ("Unknown scenario_id '" ⧺ scenario_id ⧺ "'. Available: " ⧺ available), fresh)
      | some id ↦ (
        ok tt,
        record {
          topology = set_statuses (affected_services id) degraded fresh.topology;
          active_scenario = some (record { id = id; is_active = true; is_remediated = false });
        },
      )
    ]

-- An infrastructure action that the scenario refused counts as an operational success.
unfoldable pub operational : String → Fields → Bool × String → Bool × String
operational action_type parameters (true, message) = (true, message)
operational action_type parameters (false, message) =
    let target = to_text (get_or "target_service" (str "service") parameters) in
    if action_type == "scale_replicas"
    then (
      true,
      target
          ⧺ " replica count adjusted to "
          ⧺ to_text (get_or "replicas" (num (pos 1)) parameters)
          ⧺ " (did not remediate root cause)",
    )
    else if action_type == "clear_cache"
    then (true, "Transient cache cleared for " ⧺ target ⧺ " (did not remediate root cause)")
    else (false, message)

-- The services are healthy again once an action succeeds on a scenario that is remediated.
unfoldable pub settle : Scenario → Bool × String → Services → Services
settle scenario (success, message) topology =
    if success && scenario.is_remediated
    then set_statuses (affected_services scenario.id) healthy topology
    else topology

unfoldable pub finish :
    String → Fields → Engine → Result (Bool × String) × Scenario → Result (Bool × String) × Engine
finish action_type parameters engine (ok outcome, scenario) = (
  ok (operational action_type parameters outcome),
  record {
    topology = settle scenario (operational action_type parameters outcome) engine.topology;
    active_scenario = some scenario;
  },
)
finish action_type parameters engine (err e, scenario) =
    (err e, record engine { active_scenario = some scenario })

unfoldable pub execute_action : String → Fields → Engine → Result (Bool × String) × Engine
execute_action action_type parameters engine = elim engine.active_scenario [
  | none ↦ (ok (false, "No active scenario loaded in simulator"), engine)
  | some scenario ↦
      finish action_type parameters engine (apply_remediation scenario action_type parameters)
]
