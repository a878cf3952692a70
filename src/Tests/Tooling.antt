-- ===== src/Tests/Tooling.antt =====
-- The tool registry and the simulator at concrete inputs.
use ops_pilot_ai.Prelude.{
  ◌≤◌, ◌<◌, String, ◌≡◌, refl, ◌↔◌, true, false, none, some, [], ◌∷◌, if◌then◌else◌, ℕ_eq,
  String_eq,
}
use ops_pilot_ai.Result.{ok}
use ops_pilot_ai.Value.{Fields, end, field, str, get}
use ops_pilot_ai.Tools.Base.{permission_denied, execute}
use ops_pilot_ai.Tools.Registry.{
  get_tool, caller_weight, required_weight, invoke, is_secret, sanitize_params, sanitize_value,
}
use ops_pilot_ai.Tools.Registry.Access.{invoke_access}
use ops_pilot_ai.Tools.Registry.Redaction.{is_redacted, sanitize_params_exact}
use ops_pilot_ai.Topology.{healthy, default_topology}
use ops_pilot_ai.Simulator.Scenario.{
  recommended_remediation, Scenario, downstream_failure, affected_services,
}
use ops_pilot_ai.Simulator.Engine.{execute_action}
use ops_pilot_ai.Simulator.Engine.Recovery.{remedy, AllHave, recommended_heals}
use ops_pilot_ai.Tests.Fixtures.{tools, counting_tool}

invoke_access_example :
    (((invoke tools "clear_cache" end "viewer" 4).0.status ≡ permission_denied)
      ↔ (caller_weight "viewer" < required_weight "OPERATOR"))
    × ((caller_weight "viewer" < required_weight "OPERATOR")
        → (invoke tools "clear_cache" end "viewer" 4).1 ≡ 4)
    × (required_weight "OPERATOR" ≤ caller_weight "viewer"
        → invoke tools "clear_cache" end "viewer" 4 ≡ execute (counting_tool "clear_cache") end 4)
unfolding get_tool
invoke_access_example =
    invoke_access tools "clear_cache" "viewer" end 4 (counting_tool "clear_cache") refl

abbrev arguments : Fields
arguments = field "api_key" (str "x") (field "target_service" (str "auth-service") end)

sanitize_params_exact_example :
    (is_redacted (sanitize_params arguments) ≡ true)
    × ((k : String)
        → get k (sanitize_params arguments) ≡ elim (get k arguments) [
          | none ↦ none
          | some v ↦ some (if is_secret k then str "[REDACTED]" else sanitize_value v)
        ])
    × (sanitize_params (sanitize_params arguments) ≡ sanitize_params arguments)
sanitize_params_exact_example = sanitize_params_exact arguments

abbrev outage : Scenario
outage = record { id = downstream_failure; is_active = true; is_remediated = false }

recommended_heals_example :
    let (answer, engine') =
      execute_action "restart_service"
        (remedy downstream_failure)
        (record { topology = default_topology; active_scenario = some outage }) in
    ((m : String) × (answer ≡ ok (true, m)))
    × AllHave healthy ("payment-service" ∷ "order-service" ∷ []) engine'.topology
unfolding affected_services recommended_remediation
recommended_heals_example = recommended_heals outage default_topology
