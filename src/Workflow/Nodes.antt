-- ===== src/Workflow/Nodes.antt =====
-- The nodes of `IncidentWorkflow`, each from what its agent answered to its update of the state.
use ops_pilot_ai.Prelude.{
  ◌+◌, String, Bool, true, false, Option, none, some, List, [], ◌∷◌, if◌then◌else◌, ◌==◌, ℕ_eq,
  String_eq, length, head?, last?, keep_if, find_if,
}
use Prim.Native.String.{◌++◌ as ◌⧺◌}
use ops_pilot_ai.Result.{Result, ok, err}
use ops_pilot_ai.Prelude.Text.{show_ℕ}
use ops_pilot_ai.Domain.{
  IncidentState, IncidentStage, TimelineEvent, Hypothesis, CritiqueResult, InvestigationTask,
  AnalystType, log_analyst, metrics_analyst, code_analyst, memory_analyst, SupervisorPlan,
  AnalystAgentOutput, RcaAgentOutput, RemediationAction, RemediationPlan, ActionExecutionResult,
  VerificationAssessment, RecoveryStatus,
}
use ops_pilot_ai.Domain.Names.{critique_name, execution_name, recovery_name}
use ops_pilot_ai.Safety.Policy.{first_chars}
use ops_pilot_ai.Safety.Runner.{Runner, execute_action, execute_rollback}
use ops_pilot_ai.Tools.Registry.{Registry}
use ops_pilot_ai.Workflow.Update.{Update, no_update}

abbrev pub event : IncidentStage → String → String → TimelineEvent
event stage actor message = record { stage = stage; actor = actor; message = message }

abbrev count_text {ℓ} : {A : Type ℓ} → List A → String
count_text xs = show_ℕ (length xs)

-- `state.affected_services[0] if state.affected_services else "payment-service"`
unfoldable pub lead_service : IncidentState → String
lead_service s = elim s.affected_services [ [] ↦ "payment-service" | svc ∷ rest ↦ svc ]

unfoldable pub supervisor_node : SupervisorPlan → Update
supervisor_node plan = record no_update {
  current_stage = some IncidentStage.planning;
  investigation_tasks = some plan.tasks;
  timeline =
      event IncidentStage.planning "SupervisorAgent"
        ("Investigation planned with " ⧺ count_text plan.tasks ⧺ " targeted tasks.")
      ∷ [];
}

abbrev analyst_task : String → AnalystType → String → String → InvestigationTask
analyst_task id agent target intent = record {
  task_id = id;
  agent_type = agent;
  target_service = target;
  query_intent = intent;
  time_window_minutes = 15;
}

-- The task that each analyst's node makes of the state.
unfoldable pub task_of : AnalystType → IncidentState → InvestigationTask
task_of log_analyst s =
    analyst_task "task-log" log_analyst (lead_service s) "Extract errors and stack traces"
task_of metrics_analyst s =
    analyst_task "task-met" metrics_analyst (lead_service s)
      "Inspect latency and active connections"
task_of code_analyst s =
    analyst_task "task-code" code_analyst (lead_service s)
      "Inspect recent deployments and commit diffs"
task_of memory_analyst s =
    analyst_task "task-mem" memory_analyst (lead_service s)
      ("Historical postmortems matching " ⧺ s.title ⧺ " on " ⧺ lead_service s)

unfoldable pub analyst_event : AnalystType → AnalystAgentOutput → TimelineEvent
analyst_event log_analyst output =
    event IncidentStage.investigating "LogAnalystAgent"
      ("Log analysis completed. Found " ⧺ count_text output.evidence_items ⧺ " evidence items.")
analyst_event metrics_analyst output =
    event IncidentStage.investigating "MetricsAnalystAgent"
      ("Metrics analysis completed. Found " ⧺ count_text output.evidence_items ⧺ " evidence items.")
analyst_event code_analyst output = event IncidentStage.investigating "CodeAnalystAgent" (
    "Code & Deploy analysis completed. Found "
    ⧺ count_text output.evidence_items
    ⧺ " evidence items.")
analyst_event memory_analyst output = event IncidentStage.investigating "IncidentMemoryAgent" (
    "Memory analysis completed. Found "
    ⧺ count_text output.evidence_items
    ⧺ " historical evidence items.")

-- `log_analyst_node`, `metrics_analyst_node`, `code_analyst_node`, `memory_analyst_node`
unfoldable pub analyst_node : AnalystType → AnalystAgentOutput → Update
analyst_node agent output = record no_update {
  evidence = output.evidence_items;
  timeline = analyst_event agent output ∷ [];
}

unfoldable pub join_evidence_node : Update
join_evidence_node = record no_update { current_stage = some IncidentStage.investigating }

-- The hypothesis with the primary id, or else the first.
unfoldable pub select_hypothesis : RcaAgentOutput → Option Hypothesis
select_hypothesis output =
    elim (find_if (λ h. h.id == output.primary_hypothesis_id) output.hypotheses) [
      | some h ↦ some h
      | none ↦ head? output.hypotheses
    ]

abbrev title_or_none : Option Hypothesis → String
title_or_none none = "None"
title_or_none (some h) = h.title

unfoldable pub rca_node : RcaAgentOutput → Update
rca_node output = record no_update {
  current_stage = some IncidentStage.analyzing;
  hypotheses = some output.hypotheses;
  selected_hypothesis = some (select_hypothesis output);
  timeline =
      event IncidentStage.analyzing "RCAAgent" (
        "Generated "
        ⧺ count_text output.hypotheses
        ⧺ " hypotheses. Selected: '"
        ⧺ title_or_none (select_hypothesis output)
        ⧺ "'")
      ∷ [];
}

-- Without a selected hypothesis neither the critique nor the iteration count changes.
unfoldable pub critic_skip : Update
critic_skip = record no_update { current_stage = some IncidentStage.critiquing }

unfoldable pub critic_node : CritiqueResult → IncidentState → Update
critic_node critique s = record no_update {
  current_stage = some IncidentStage.critiquing;
  critique = some critique;
  timeline =
      event IncidentStage.critiquing "CriticAgent" (
        "Critic decision: "
        ⧺ critique_name critique.decision
        ⧺ ". Notes: "
        ⧺ first_chars 100 critique.critique_notes
        ⧺ "...")
      ∷ [];
  iteration_count = some (s.iteration_count + 1);
}

unfoldable pub node_failed : Update
node_failed = record no_update { current_stage = some IncidentStage.failed }

unfoldable pub remediation_planning_node : RemediationPlan → Update
remediation_planning_node plan = record no_update {
  current_stage = some IncidentStage.remediation_planning;
  remediation_plan = some plan;
  pending_approvals = some (keep_if (λ a. a.requires_approval) plan.actions);
  timeline =
      event IncidentStage.remediation_planning "RemediationAgent" (
        "Formulated remediation plan with "
        ⧺ count_text plan.actions
        ⧺ " actions. Summary: "
        ⧺ plan.summary)
      ∷ [];
}

abbrev pub execution_event : RemediationAction → ActionExecutionResult → TimelineEvent
execution_event action res = event IncidentStage.executing "ExecutionRunner" (
    "Action ["
    ⧺ action.action_id
    ⧺ "] status: "
    ⧺ execution_name res.status
    ⧺ ". Output: "
    ⧺ res.output)

abbrev pub actions_of : IncidentState → List RemediationAction
actions_of s = elim s.remediation_plan [ none ↦ [] | some plan ↦ plan.actions ]

-- `state.execution_results[-1].action_id`, or "ACT-UNKNOWN"
unfoldable pub executed_action_id : IncidentState → String
executed_action_id s = elim (last? s.execution_results) [
  | none ↦ "ACT-UNKNOWN"
  | some r ↦ r.action_id
]

abbrev pub is_recovered : RecoveryStatus → Bool
is_recovered RecoveryStatus.recovered = true
is_recovered _ = false

abbrev pub verification_event : VerificationAssessment → TimelineEvent
verification_event assessment =
    event IncidentStage.verifying "VerificationAgent"
      ("Verification status: " ⧺ recovery_name assessment.status ⧺ ". " ⧺ assessment.explanation)

module _ {W : Type 0} (registry : Registry W) where
  -- The loop of `execution_node`: the actions in order, until one raises.
  unfoldable pub execute_plan :
      List RemediationAction
      → Runner W
      → Result (List ActionExecutionResult × List TimelineEvent) × Runner W
  execute_plan [] runner = (ok ([], []), runner)
  execute_plan (action ∷ rest) runner =
      let (res, runner') = execute_action registry action "OPERATOR" runner in
      let later = execute_plan rest runner' in
      elim res [
        | err e ↦ (err e, runner')
        | ok r ↦ elim later.0 [
          | err e ↦ (err e, later.1)
          | ok (results, events) ↦ (ok (r ∷ results, execution_event action r ∷ events), later.1)
        ]
      ]

  unfoldable pub execution_node : IncidentState → Runner W → Result Update × Runner W
  execution_node s runner = elim (actions_of s) [
    | [] ↦ (ok node_failed, runner)
    | action ∷ rest ↦
        (let outcome = execute_plan (action ∷ rest) runner in
          elim outcome.0 [
            | err e ↦ (err e, outcome.1)
            | ok (results, events) ↦ (
              ok (record no_update {
                current_stage = some IncidentStage.executing;
                execution_results = some results;
                timeline = events;
              }),
              outcome.1,
            )
          ])
  ]

  -- Compensates the last action of the plan where the assessment recommends a rollback.
  unfoldable pub verification_node :
      VerificationAssessment → IncidentState → Runner W → Result Update × Runner W
  verification_node assessment s runner =
      let last_action = if assessment.rollback_recommended then last? (actions_of s) else none in
      elim last_action [
        | some action ↦
            (let outcome = execute_rollback registry action "OPERATOR" runner in
              elim outcome.0 [
                | err e ↦ (err e, outcome.1)
                | ok rb_res ↦ (
                  ok (record no_update {
                    current_stage = some IncidentStage.failed;
                    verification = some assessment;
                    timeline =
                        verification_event assessment
                        ∷ event IncidentStage.failed "ExecutionRunner" (
                            "Executed automatic rollback for [" ⧺ action.action_id ⧺ "]: "
                            ⧺ rb_res.output)
                        ∷ [];
                  }),
                  outcome.1,
                )
              ])
        | none ↦ (
          ok (record no_update {
            current_stage = some (
                if is_recovered assessment.status
                then IncidentStage.resolved
                else IncidentStage.investigating);
            verification = some assessment;
            timeline = verification_event assessment ∷ [];
          }),
          runner,
        )
      ]
