-- ===== src/Domain.antt =====
-- src/domain/state.py: the incident's working memory and the contracts between the agents.
-- Scores in [0.0, 1.0] are numbers of thousandths. The clock readings that audit records carry
-- (`timestamp`, `executed_at`, `duration_ms`), the timeline's `metadata`, and the token and cost
-- counters, which no code reads, are left out; `created_at` and `decided_at` are kept.
pub mod Names
use ops_pilot_ai.Prelude.{
  ℕ, zero, suc, ◌+◌, ◌-◌, ◌*◌, ◌/◌, ◌%◌, ◌≤◌, ◌<◌, min, max, String, ◌≡◌, refl, sym, ap, ◌∙◌, ◌≢◌,
  ◌↔◌, ◌⊎◌, inl, inr, Bool, true, false, not, ◌&&◌, ◌||◌, Option, none, some, List, [], ◌∷◌, ◌++◌,
  map, arith, eq_iff, eq_refl, ltb, leb, nat_eqb, nat_eqb_iff, if◌then◌else◌, Eq, ◌==◌, ℕ_eq,
  String_eq, Bool-cases, Option-cases, length, take, drop, head?, last?, keep_if, find_if, any_of,
  All, length-append, length-drop, All-append, All-keep_if, elem, elem-append,
}
use ops_pilot_ai.Value.{Value, Fields}

pub data IncidentStage : Type 0 where
  created planning investigating analyzing critiquing remediation_planning : IncidentStage
  risk_assessment waiting_approval executing verifying resolved failed escalated : IncidentStage

pub data Severity : Type 0 where
  sev1 sev2 sev3 sev4 : Severity

pub record TimelineEvent : Type 0 where
  pub stage : IncidentStage
  pub actor : String
  pub message : String

pub data EvidenceType : Type 0 where
  log metric code memory config : EvidenceType

pub record Evidence : Type 0 where
  pub id : String
  pub type : EvidenceType
  pub source : String
  pub observation : String
  pub raw_reference : String
  pub relevance_score : ℕ
  pub metadata : Fields

pub record Hypothesis : Type 0 where
  pub id : String
  pub title : String
  pub description : String
  pub confidence : ℕ
  pub supporting_evidence_ids : List String
  pub contradicting_evidence_ids : List String
  pub reasoning_summary : String
  pub missing_information : List String
  pub suggested_validation : List String

pub data CritiqueDecision : Type 0 where
  approve challenge needs_more_evidence : CritiqueDecision

pub record CritiqueResult : Type 0 where
  pub decision : CritiqueDecision
  pub critique_notes : String
  pub counter_hypotheses : List String
  pub required_evidence_queries : List String

pub data AnalystType : Type 0 where
  log_analyst metrics_analyst code_analyst memory_analyst : AnalystType

pub record InvestigationTask : Type 0 where
  pub task_id : String
  pub agent_type : AnalystType
  pub target_service : String
  pub query_intent : String
  pub time_window_minutes : ℕ

pub record SupervisorPlan : Type 0 where
  pub triage_assessment : String
  pub initial_severity : Severity
  pub suspected_domains : List String
  pub tasks : List InvestigationTask
  pub reasoning : String

pub record AnalystAgentOutput : Type 0 where
  pub agent_type : String
  pub service : String
  pub findings_summary : String
  pub evidence_items : List Evidence
  pub anomalies_detected : Bool

pub record RcaAgentOutput : Type 0 where
  pub hypotheses : List Hypothesis
  pub primary_hypothesis_id : String
  pub confidence_rationale : String

pub data ActionType : Type 0 where
  restart_service rollback_deployment scale_replicas : ActionType
  modify_configuration run_query clear_cache : ActionType

pub data RiskTier : Type 0 where
  low medium high critical : RiskTier

pub record RemediationAction : Type 0 where
  pub action_id : String
  pub action_type : ActionType
  pub target_service : String
  pub parameters : Fields
  pub description : String
  pub rationale : String
  pub rollback_plan : String
  pub risk_tier : RiskTier
  pub risk_score : ℕ
  pub requires_approval : Bool
  pub estimated_downtime_seconds : ℕ
  pub idempotency_key : String

pub record RemediationPlan : Type 0 where
  pub incident_id : String
  pub hypothesis_id : String
  pub actions : List RemediationAction
  pub summary : String
  pub prevention_recommendations : List String

pub data Decision : Type 0 where
  approved rejected modified : Decision

pub record ApprovalDecision : Type 0 where
  pub action_id : String
  pub decision : Decision
  pub decided_by : String
  pub reason : String
  pub modified_parameters : Option Fields
  pub decided_at : ℕ

pub data ExecutionStatus : Type 0 where
  success failed rolled_back : ExecutionStatus

pub record ActionExecutionResult : Type 0 where
  pub action_id : String
  pub status : ExecutionStatus
  pub output : String
  pub error_message : Option String

pub data RecoveryStatus : Type 0 where
  recovered partially_recovered unchanged degraded : RecoveryStatus

pub record VerificationAssessment : Type 0 where
  pub status : RecoveryStatus
  pub metrics_comparison : Fields
  pub service_statuses : Fields
  pub rollback_recommended : Bool
  pub explanation : String

pub record IncidentState : Type 0 where
  pub incident_id : String
  pub title : String
  pub severity : Severity
  pub affected_services : List String
  pub created_at : ℕ
  pub current_stage : IncidentStage
  pub investigation_tasks : List InvestigationTask
  pub evidence : List Evidence
  pub hypotheses : List Hypothesis
  pub selected_hypothesis : Option Hypothesis
  pub critique : Option CritiqueResult
  pub remediation_plan : Option RemediationPlan
  pub pending_approvals : List RemediationAction
  pub approval_decisions : List ApprovalDecision
  pub execution_results : List ActionExecutionResult
  pub verification : Option VerificationAssessment
  pub timeline : List TimelineEvent
  pub errors : List String
  pub iteration_count : ℕ
  pub max_iterations : ℕ

-- The state that `IncidentState(...)` builds from its required fields: the defaults of the others.
abbrev pub new_state : String → String → Severity → List String → ℕ → IncidentState
new_state incident_id title severity affected_services now = record {
  incident_id = incident_id;
  title = title;
  severity = severity;
  affected_services = affected_services;
  created_at = now;
  current_stage = created;
  investigation_tasks = [];
  evidence = [];
  hypotheses = [];
  selected_hypothesis = none;
  critique = none;
  remediation_plan = none;
  pending_approvals = [];
  approval_decisions = [];
  execution_results = [];
  verification = none;
  timeline = [];
  errors = [];
  iteration_count = 0;
  max_iterations = 3;
}
