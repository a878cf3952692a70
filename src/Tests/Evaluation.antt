-- ===== src/Tests/Evaluation.antt =====
-- The benchmark at concrete inputs. The rounded quotient is the quotient of the whole numbers.
use ops_pilot_ai.Prelude.{ℕ, ◌/◌, ◌≤◌, ◌≡◌, refl, false, none, [], ◌∷◌, arith, ℕ_eq, String_eq}
use native.Mathlib.Nat.{div-le_of_le-mul, le-div_iff_mul-le}
use ops_pilot_ai.Result.{Result, ok}
use ops_pilot_ai.Domain.{IncidentState, ActionExecutionResult, ExecutionStatus}
use ops_pilot_ai.Simulator.Scenario.{ScenarioId, scenario_of, slow_query}
use ops_pilot_ai.Evaluation.{
  EvaluationResult, initial_of, compute_semantic_similarity, clean_tokens, is_empty, summarize,
  evaluate_final, evaluate_scenario, run_benchmark,
}
use ops_pilot_ai.Evaluation.Similarity.{IsRounding, similarity_lem}
use ops_pilot_ai.Evaluation.Scores.{IsFullScore, benchmark_scores}
use ops_pilot_ai.Evaluation.Mocked.{mock_validity}
use ops_pilot_ai.Workflow.Graph.{final_of, start, drive}
use ops_pilot_ai.Workflow.Mocked.{mock_env}
use ops_pilot_ai.Safety.Runner.{execute_action}
use ops_pilot_ai.Safety.Policy.{assess_action_risk}
use ops_pilot_ai.Tests.Fixtures.{tools, idle}
use ops_pilot_ai.Tests.Mocked.{quiet, json, new_mock, policy}

quotient : ℕ → ℕ → ℕ
quotient n d = n / d

quotient-IsRounding : IsRounding quotient
unfolding quotient
quotient-IsRounding n d k h =
    (λ p. div-le_of_le-mul d (omega (arith, p)), λ p. (le-div_iff_mul-le h).1 p)

similarity_lem_example :
    (compute_semantic_similarity quotient "redis pool" "redis cache" ≤ 1000)
    × (is_empty (clean_tokens "redis cache") ≡ false
        → compute_semantic_similarity quotient "redis cache" "redis cache" ≡ 1000)
similarity_lem_example = similarity_lem quotient quotient-IsRounding "redis pool" "redis cache"

-- A graph that ends where it began.
abbrev idle_graph : ScenarioId → IncidentState → Result IncidentState
idle_graph id s = ok s

benchmark_scores_example : IsFullScore (
    summarize quotient (
      evaluate_final quotient "slow_query" slow_query (initial_of "slow_query" slow_query 5) 3
      ∷ []))
unfolding run_benchmark scenario_of
benchmark_scores_example =
    benchmark_scores quotient quotient-IsRounding idle_graph 5 (λ s. 3) ("slow_query" ∷ [])
      (summarize quotient (
        evaluate_final quotient "slow_query" slow_query (initial_of "slow_query" slow_query 5) 3
        ∷ []))
      refl

-- The graph over the mock provider.
abbrev mocked_graph : ScenarioId → IncidentState → Result IncidentState
mocked_graph other s =
    let c = drive (mock_env quiet json new_mock policy tools) 8 0 (start s idle) in
    final_of c.at c.state

abbrev rolled_back : ActionExecutionResult
rolled_back = record {
  action_id = "ACT-ROLLBACK-01";
  status = ExecutionStatus.success;
  output = "Remediation action completed successfully";
  error_message = none;
}

mock_validity_example :
    (result : EvaluationResult) × (evaluate_scenario quotient mocked_graph 5 (λ s. 3) "slow_query"
      ≡ ok result)
    × (result.remediation_action_valid ≡ false)
unfolding scenario_of execute_action ops_pilot_ai.Safety.Runner.execute_with assess_action_risk
    ops_pilot_ai.Safety.Policy.generate_idempotency_key ops_pilot_ai.Tools.Registry.get_tool
    ops_pilot_ai.Safety.Runner.dispatch ops_pilot_ai.Safety.Runner.conclude
    ops_pilot_ai.Tools.Registry.invoke ops_pilot_ai.Tools.Registry.caller_weight
    ops_pilot_ai.Tools.Registry.required_weight ops_pilot_ai.Value.get_or
mock_validity_example =
    mock_validity quiet json new_mock policy tools (λ id. idle) quotient 5 (λ s. 3) "slow_query"
      slow_query rolled_back refl refl refl
