-- ===== src/Tests/Fixtures.antt =====
-- Test data: a registry whose tools count their runs, an incident, and a model with fixed answers.
use ops_pilot_ai.Prelude.{
  ℕ, suc, String, Bool, true, false, some, List, [], ◌∷◌, if◌then◌else◌, ℕ_eq, String_eq,
}
use ops_pilot_ai.Result.{ok}
use ops_pilot_ai.Value.{Fields, obj, end}
use ops_pilot_ai.Domain.{
  ActionType, clear_cache, low, RemediationAction, RemediationPlan, Evidence, EvidenceType,
  Hypothesis, CritiqueResult, approve, needs_more_evidence, SupervisorPlan, AnalystAgentOutput,
  RcaAgentOutput, VerificationAssessment, RecoveryStatus, IncidentState, sev2, new_state,
}
use ops_pilot_ai.Tools.Base.{BaseTool}
use ops_pilot_ai.Tools.Registry.{Registry}
use ops_pilot_ai.Safety.Runner.{Runner}
use ops_pilot_ai.Agents.{Model}
use ops_pilot_ai.Workflow.Graph.{Env}

abbrev pub counting_tool : String → BaseTool ℕ
counting_tool name = record {
  name = name;
  required_role = "OPERATOR";
  run = λ kwargs n. (ok (obj end), suc n);
}

abbrev pub tools : Registry ℕ
tools =
    ("clear_cache", counting_tool "clear_cache")
    ∷ ("restart_service", counting_tool "restart_service")
    ∷ ("rollback_deployment", counting_tool "rollback_deployment")
    ∷ []

abbrev pub idle : Runner ℕ
idle = record { executed_keys = []; world = 0 }

abbrev pub action_on : ActionType → Fields → RemediationAction
action_on t parameters = record {
  action_id = "a1";
  action_type = t;
  target_service = "auth-service";
  parameters = parameters;
  description = "d";
  rationale = "r";
  rollback_plan = "p";
  risk_tier = low;
  risk_score = 0;
  requires_approval = true;
  estimated_downtime_seconds = 0;
  idempotency_key = "k1";
}

abbrev pub clearing : RemediationAction
clearing = action_on clear_cache end

abbrev pub log_line : Evidence
log_line = record {
  id = "e1";
  type = EvidenceType.log;
  source = "s";
  observation = "o";
  raw_reference = "r";
  relevance_score = 900;
  metadata = end;
}

abbrev pub cause : Hypothesis
cause = record {
  id = "h1";
  title = "t";
  description = "d";
  confidence = 800;
  supporting_evidence_ids = "e1" ∷ [];
  contradicting_evidence_ids = [];
  reasoning_summary = "r";
  missing_information = [];
  suggested_validation = [];
}

abbrev pub verdict_of : Bool → CritiqueResult
verdict_of accept = record {
  decision = if accept then approve else needs_more_evidence;
  critique_notes = "n";
  counter_hypotheses = [];
  required_evidence_queries = [];
}

abbrev pub plan_of : List RemediationAction → RemediationPlan
plan_of actions = record {
  incident_id = "inc-1";
  hypothesis_id = "h1";
  actions = actions;
  summary = "s";
  prevention_recommendations = [];
}

abbrev pub recovery : VerificationAssessment
recovery = record {
  status = RecoveryStatus.recovered;
  metrics_comparison = end;
  service_statuses = end;
  rollback_recommended = false;
  explanation = "x";
}

abbrev pub supervisor_plan : SupervisorPlan
supervisor_plan = record {
  triage_assessment = "t";
  initial_severity = sev2;
  suspected_domains = [];
  tasks = [];
  reasoning = "r";
}

abbrev pub findings : AnalystAgentOutput
findings = record {
  agent_type = "LOG";
  service = "auth-service";
  findings_summary = "f";
  evidence_items = log_line ∷ [];
  anomalies_detected = true;
}

abbrev pub analysis_of : List Hypothesis → RcaAgentOutput
analysis_of hypotheses = record {
  hypotheses = hypotheses;
  primary_hypothesis_id = "h1";
  confidence_rationale = "c";
}

-- The model that proposes the given hypotheses.
abbrev pub model_of : List Hypothesis → Model
model_of hypotheses = record {
  plan_investigation = λ n s. ok supervisor_plan;
  investigate = λ n task. ok findings;
  analyze = λ n title evidence. ok (analysis_of hypotheses);
  critique = λ n h evidence. ok (verdict_of true);
  plan_remediation = λ n i h services. ok (plan_of (clearing ∷ []));
  verify_recovery = λ n service action. ok recovery;
}

abbrev pub env_of : List Hypothesis → Env ℕ
env_of hypotheses = record {
  model = model_of hypotheses;
  policy = record { sha256_hex = λ s. s; auto_remediate_enabled = false; topology = [] };
  registry = tools;
}

abbrev pub incident : IncidentState
incident = new_state "inc-1" "Login fails" sev2 ("auth-service" ∷ []) 7

abbrev pub planned_incident : IncidentState
planned_incident = record incident { remediation_plan = some (plan_of (clearing ∷ [])) }
