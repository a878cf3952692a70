-- ===== src/Evaluation/Mocked.antt =====
-- The benchmark as the repository runs it, with a router over one mock provider.
use ops_pilot_ai.Prelude.{
  ℕ, String, ◌≡◌, refl, ap, ◌∙◌, inl, inr, Bool, true, false, some, List, [], ◌∷◌, ℕ_eq, String_eq,
  elem,
}
use ops_pilot_ai.Result.{ok}
use ops_pilot_ai.Domain.{RemediationAction, ActionExecutionResult}
use ops_pilot_ai.Safety.Policy.{assess_action_risk}
use ops_pilot_ai.Safety.Runner.{Runner, execute_action}
use ops_pilot_ai.Tools.Registry.{Registry}
use ops_pilot_ai.Simulator.Scenario.{
  ScenarioId, scenario_of, affected_services, redis_pool_exhaustion, db_connection_exhaustion,
  slow_query, memory_leak, cpu_saturation, downstream_failure, bad_deployment, invalid_config,
  api_timeout, queue_backlog,
}
use ops_pilot_ai.Simulator.GroundTruths.{ground_truth}
use ops_pilot_ai.Router.Mock.{MockProvider, rollback_action}
use ops_pilot_ai.Agents.{Policy}
use ops_pilot_ai.Agents.Prompts.{Observations, JsonDumps}
use ops_pilot_ai.Workflow.Graph.{start, drive, finished, final_of}
use ops_pilot_ai.Workflow.Mocked.{mock_env, mock_resolves_all}
use ops_pilot_ai.Evaluation.Scores.{not_ok}
use ops_pilot_ai.Evaluation.{
  EvaluationResult, is_valid_for, initial_of, evaluate_final, evaluate_scenario,
}

-- The scenarios that a rollback of payment-service concerns.
abbrev pub is_of_payments : ScenarioId → Bool
is_of_payments redis_pool_exhaustion = true
is_of_payments downstream_failure = true
is_of_payments api_timeout = true
is_of_payments _ = false

payments_affected :
    (id : ScenarioId)
    → elem "payment-service" (ground_truth id).affected_services ≡ is_of_payments id
unfolding ground_truth affected_services
payments_affected redis_pool_exhaustion = refl
payments_affected db_connection_exhaustion = refl
payments_affected slow_query = refl
payments_affected memory_leak = refl
payments_affected cpu_saturation = refl
payments_affected downstream_failure = refl
payments_affected bad_deployment = refl
payments_affected invalid_config = refl
payments_affected api_timeout = refl
payments_affected queue_backlog = refl

valid_for_rollback :
    (policy : Policy) (i : String) (affected : List String)
    → is_valid_for affected (
        assess_action_risk policy.sha256_hex policy.auto_remediate_enabled policy.topology
          rollback_action i
        ∷ [])
      ≡ elem "payment-service" affected
unfolding assess_action_risk
valid_for_rollback policy i affected = refl

-- With a mock provider that does not always fail, whatever the tools print and hold: where the rollback
-- of payment-service executes, to a failure included, the evaluation of a scenario gives a result, which
-- finds the remediation valid exactly for the scenarios redis_pool_exhaustion, downstream_failure and
-- api_timeout: three of the ten.
pub mock_validity :
    {W : Type 0} (seen : Observations) (json : JsonDumps) (mock : MockProvider) (policy : Policy)
    (registry : Registry W) (loaded : ScenarioId → Runner W) (nearest : ℕ → ℕ → ℕ) (now : ℕ)
    (elapsed : String → ℕ) (scenario_id : String) (id : ScenarioId) (res : ActionExecutionResult)
    → mock.always_fail ≡ false
    → scenario_of scenario_id ≡ some id
    → (execute_action registry
        (assess_action_risk policy.sha256_hex policy.auto_remediate_enabled policy.topology
          rollback_action
          (initial_of scenario_id id now).incident_id)
        "OPERATOR"
        (loaded id)).0
      ≡ ok res
    → (result : EvaluationResult) × (evaluate_scenario nearest
          (λ other s.
            let c = drive (mock_env seen json mock policy registry) 8 0 (start s (loaded other)) in
            final_of c.at c.state)
          now
          elapsed
          scenario_id
        ≡ ok result)
      × (result.remediation_action_valid ≡ is_of_payments id)
unfolding evaluate_scenario evaluate_final
mock_validity seen json mock policy registry loaded nearest now elapsed scenario_id id res works e
      ran =
    let s = initial_of scenario_id id now in
    let c = drive (mock_env seen json mock policy registry) 8 0 (start s (loaded id)) in
    let outcome = mock_resolves_all seen json mock policy registry s (loaded id) works in
    let finishes : c.at ≡ finished = elim outcome.2 [
      | inl (r, k, at, stage) ↦ at
      | inr (x, k, at) ↦ absurd (not_ok {e = x} ran k)
    ] in
    (
      evaluate_final nearest scenario_id id c.state (elapsed scenario_id),
      rw (e, evaluate_scenario) (rw finishes refl),
      ap (λ (as' : List RemediationAction). is_valid_for (ground_truth id).affected_services as')
            outcome.1
          ∙ valid_for_rollback policy s.incident_id (ground_truth id).affected_services
          ∙ payments_affected id,
    )
