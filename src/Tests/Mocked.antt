-- ===== src/Tests/Mocked.antt =====
-- The workflow over a mock provider at a concrete incident.
use ops_pilot_ai.Prelude.{String, ◌≡◌, ◌⊎◌, refl, false, [], ◌∷◌, ℕ_eq, String_eq}
use ops_pilot_ai.Result.{ok, err}
use ops_pilot_ai.Domain.{IncidentStage, ActionExecutionResult}
use ops_pilot_ai.Safety.Policy.{assess_action_risk}
use ops_pilot_ai.Safety.Runner.{execute_action}
use ops_pilot_ai.Router.Mock.{MockProvider, rollback_action}
use ops_pilot_ai.Agents.{Policy}
use ops_pilot_ai.Agents.Prompts.{Observations, JsonDumps}
use ops_pilot_ai.Workflow.Nodes.{actions_of}
use ops_pilot_ai.Workflow.Graph.{start, drive, finished, crashed}
use ops_pilot_ai.Workflow.Mocked.{mock_env, mock_resolves_all}
use ops_pilot_ai.Tests.Fixtures.{tools, idle, incident}

abbrev pub quiet : Observations
quiet = record {
  health_context = λ n s. "{}";
  telemetry = λ n t. "[]";
  recovery = λ n s a. "{}";
  evidence_summary = λ es. "[]";
  evidence_dump = λ es. "[]";
  confidence_text = λ n. "0.92";
}

abbrev pub json : JsonDumps
json = record {
  plan_json = λ x. "{}";
  output_json = λ x. "{}";
  rca_json = λ x. "{}";
  critique_json = λ x. "{}";
  remediation_json = λ x. "{}";
  assessment_json = λ x. "{}";
}

abbrev pub new_mock : MockProvider
new_mock = record { call_count = 0; fail_next = false; always_fail = false }

abbrev pub policy : Policy
policy = record { sha256_hex = λ s. s; auto_remediate_enabled = false; topology = [] }

mock_resolves_all_example :
    let env = mock_env quiet json new_mock policy tools in
    let action = assess_action_risk (λ s. s) false [] rollback_action "inc-1" in
    let run = execute_action tools action "OPERATOR" idle in
    let c = drive env 8 0 (start incident idle) in
    (c.runner ≡ run.1)
    × (actions_of c.state ≡ action ∷ [])
    × (((res : ActionExecutionResult) × (run.0 ≡ ok res)
          × (c.at ≡ finished)
          × (c.state.current_stage ≡ IncidentStage.resolved))
        ⊎ ((e : String) × (run.0 ≡ err e) × (c.at ≡ crashed)))
mock_resolves_all_example = mock_resolves_all quiet json new_mock policy tools incident idle refl
