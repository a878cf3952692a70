-- ===== src/Domain/Names.antt =====
-- The texts of the literals of src/domain/state.py, and tests for equality on them.
use ops_pilot_ai.Prelude.{String, ℕ_eq, String_eq}
use ops_pilot_ai.Domain.{
  EvidenceType, IncidentStage, Severity, ActionType, RiskTier, CritiqueDecision, Decision,
  ExecutionStatus, RecoveryStatus,
}

abbrev pub stage_name : IncidentStage → String
stage_name IncidentStage.created = "CREATED"
stage_name IncidentStage.planning = "PLANNING"
stage_name IncidentStage.investigating = "INVESTIGATING"
stage_name IncidentStage.analyzing = "ANALYZING"
stage_name IncidentStage.critiquing = "CRITIQUING"
stage_name IncidentStage.remediation_planning = "REMEDIATION_PLANNING"
stage_name IncidentStage.risk_assessment = "RISK_ASSESSMENT"
stage_name IncidentStage.waiting_approval = "WAITING_APPROVAL"
stage_name IncidentStage.executing = "EXECUTING"
stage_name IncidentStage.verifying = "VERIFYING"
stage_name IncidentStage.resolved = "RESOLVED"
stage_name IncidentStage.failed = "FAILED"
stage_name IncidentStage.escalated = "ESCALATED"

abbrev pub severity_name : Severity → String
severity_name Severity.sev1 = "SEV1"
severity_name Severity.sev2 = "SEV2"
severity_name Severity.sev3 = "SEV3"
severity_name Severity.sev4 = "SEV4"

abbrev pub action_name : ActionType → String
action_name ActionType.restart_service = "restart_service"
action_name ActionType.rollback_deployment = "rollback_deployment"
action_name ActionType.scale_replicas = "scale_replicas"
action_name ActionType.modify_configuration = "modify_configuration"
action_name ActionType.run_query = "run_query"
action_name ActionType.clear_cache = "clear_cache"

abbrev pub tier_name : RiskTier → String
tier_name RiskTier.low = "LOW"
tier_name RiskTier.medium = "MEDIUM"
tier_name RiskTier.high = "HIGH"
tier_name RiskTier.critical = "CRITICAL"

abbrev pub critique_name : CritiqueDecision → String
critique_name CritiqueDecision.approve = "APPROVE"
critique_name CritiqueDecision.challenge = "CHALLENGE"
critique_name CritiqueDecision.needs_more_evidence = "NEEDS_MORE_EVIDENCE"

abbrev pub decision_name : Decision → String
decision_name Decision.approved = "APPROVED"
decision_name Decision.rejected = "REJECTED"
decision_name Decision.modified = "MODIFIED"

abbrev pub execution_name : ExecutionStatus → String
execution_name ExecutionStatus.success = "SUCCESS"
execution_name ExecutionStatus.failed = "FAILED"
execution_name ExecutionStatus.rolled_back = "ROLLED_BACK"

abbrev pub recovery_name : RecoveryStatus → String
recovery_name RecoveryStatus.recovered = "RECOVERED"
recovery_name RecoveryStatus.partially_recovered = "PARTIALLY_RECOVERED"
recovery_name RecoveryStatus.unchanged = "UNCHANGED"
recovery_name RecoveryStatus.degraded = "DEGRADED"

abbrev pub evidence_type_name : EvidenceType → String
evidence_type_name EvidenceType.log = "log"
evidence_type_name EvidenceType.metric = "metric"
evidence_type_name EvidenceType.code = "code"
evidence_type_name EvidenceType.memory = "memory"
evidence_type_name EvidenceType.config = "config"
