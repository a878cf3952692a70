-- ===== src/Workflow/Update.antt =====
-- What a node of the workflow returns, and how it is merged into the state: the reducers that the
-- annotations of `IncidentState` in src/domain/state.py name, `operator.add` or none.
use ops_pilot_ai.Prelude.{ℕ, Option, none, some, List, [], ◌++◌, ℕ_eq, String_eq}
use ops_pilot_ai.Domain.{
  IncidentState, IncidentStage, InvestigationTask, Evidence, Hypothesis, CritiqueResult,
  RemediationPlan, RemediationAction, ActionExecutionResult, VerificationAssessment, TimelineEvent,
}

-- A dictionary of fields; `none` is a key that is not there.
pub record Update : Type 0 where
  pub current_stage : Option IncidentStage
  pub investigation_tasks : Option (List InvestigationTask)
  pub evidence : List Evidence
  pub hypotheses : Option (List Hypothesis)
  pub selected_hypothesis : Option (Option Hypothesis)
  pub critique : Option CritiqueResult
  pub remediation_plan : Option RemediationPlan
  pub pending_approvals : Option (List RemediationAction)
  pub execution_results : Option (List ActionExecutionResult)
  pub verification : Option VerificationAssessment
  pub timeline : List TimelineEvent
  pub iteration_count : Option ℕ

abbrev pub no_update : Update
no_update = record {
  current_stage = none;
  investigation_tasks = none;
  evidence = [];
  hypotheses = none;
  selected_hypothesis = none;
  critique = none;
  remediation_plan = none;
  pending_approvals = none;
  execution_results = none;
  verification = none;
  timeline = [];
  iteration_count = none;
}

abbrev pub given {ℓ} : {A : Type ℓ} → Option A → A → A
given none old = old
given (some new) old = new

abbrev pub given_some {ℓ} : {A : Type ℓ} → Option A → Option A → Option A
given_some none old = old
given_some (some new) old = some new

unfoldable pub merge : Update → IncidentState → IncidentState
merge u s = record s {
  current_stage = given u.current_stage s.current_stage;
  investigation_tasks = given u.investigation_tasks s.investigation_tasks;
  evidence = s.evidence ++ u.evidence;
  hypotheses = given u.hypotheses s.hypotheses;
  selected_hypothesis = given u.selected_hypothesis s.selected_hypothesis;
  critique = given_some u.critique s.critique;
  remediation_plan = given_some u.remediation_plan s.remediation_plan;
  pending_approvals = given u.pending_approvals s.pending_approvals;
  execution_results = given u.execution_results s.execution_results;
  verification = given_some u.verification s.verification;
  timeline = s.timeline ++ u.timeline;
  iteration_count = given u.iteration_count s.iteration_count;
}
