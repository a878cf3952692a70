-- ===== src/Tests/Workflow.antt =====
-- The workflow at concrete inputs.
use ops_pilot_ai.Prelude.{
  ℕ, ◌≡◌, refl, ◌≢◌, ◌↔◌, ◌⊎◌, true, false, none, some, List, [], ◌∷◌, arith, ltb, if◌then◌else◌,
  ℕ_eq, String_eq, All,
}
use ops_pilot_ai.Value.{get_or}
use ops_pilot_ai.Tools.Registry.{required_weight, caller_weight, invoke, get_tool}
use ops_pilot_ai.Safety.Runner.{conclude, dispatch, execute_with, execute_action}
use ops_pilot_ai.Result.{ok, err}
use ops_pilot_ai.Agents
use ops_pilot_ai.Agents.{assess_all, missing_ids}
use ops_pilot_ai.Workflow.Assessed.{IsAssessed, plan-IsAssessed}
use ops_pilot_ai.Domain.{
  RemediationPlan, ActionExecutionResult, ApprovalDecision, rejected, success,
  ActionExecutionResult, IncidentState, IncidentStage, RecoveryStatus,
}
use ops_pilot_ai.Workflow.Update.{Update, no_update, merge}
use ops_pilot_ai.Workflow.Nodes.{
  execute_plan, actions_of, execution_node, verification_node, rca_node, select_hypothesis,
  supervisor_node, analyst_node, critic_node, remediation_planning_node, join_evidence_node,
}
use ops_pilot_ai.Workflow.Graph.{
  Env, ainvoke, superstep, run_node, drive, start, stopped, supervisor_step, analysts_step,
  analyst_step, rca_step, critic_step, target_of, route_critic_decision, remediation_step,
}
use ops_pilot_ai.Workflow.Grounded.{acts_only_if_grounded}
use ops_pilot_ai.Workflow.Approved.{IsApproved}
use ops_pilot_ai.Workflow.Termination.{Proposes, workflow_stops}
use ops_pilot_ai.Workflow.Livelock.{IsBarren, WantsMore, workflow_exhausts}
use ops_pilot_ai.Workflow.Approvals.{result_ids, execution_ignores_approvals, resolved_iff}
use ops_pilot_ai.Tests.Fixtures.{
  plan_of, clearing, env_of, model_of, cause, incident, planned_incident, idle, tools, recovery,
  verdict_of, supervisor_plan, findings, analysis_of,
}

-- A whole run, up to its end.
acts_only_if_grounded_example :
    let c = drive (env_of (cause ∷ [])) 9 0 (start incident idle) in
    (c.runner ≡ idle) ⊎ IsApproved c.state
acts_only_if_grounded_example = acts_only_if_grounded (env_of (cause ∷ [])) 9 0 incident idle refl

proposes : Proposes (model_of (cause ∷ []))
proposes n title evidence out h e = ground arith

workflow_stops_example : stopped (drive (env_of (cause ∷ [])) 18 0 (start incident idle)).at ≡ true
workflow_stops_example =
    workflow_stops (env_of (cause ∷ [])) proposes 3 0 incident idle (omega arith) (omega arith)

-- The model proposes a cause in the first round only, and the critic wants more evidence.
abbrev doubting : Env ℕ
doubting = record (env_of []) {
  model = record (model_of []) {
    analyze = λ n title evidence. ok (analysis_of (if ltb n 5 then cause ∷ [] else []));
    critique = λ n h evidence. ok (verdict_of false);
  };
}

barren : IsBarren 5 doubting.model
barren = record {
  plans = λ n s later. (supervisor_plan, refl);
  investigates = λ n task later. (findings, refl);
  proposes_none = λ n title evidence later. (analysis_of [], ground (arith, later), refl);
}

abbrev first_round : IncidentState
first_round = (drive doubting 5 0 (start incident idle)).state

wants_more : WantsMore first_round
unfolding drive superstep run_node supervisor_step analysts_step analyst_step rca_step critic_step
    target_of route_critic_decision merge rca_node select_hypothesis Agents.critique missing_ids
    supervisor_node analyst_node join_evidence_node critic_node
wants_more = record { last = verdict_of false; stands = refl; wants = refl; allowed = omega arith }

-- At LangGraph's own limit.
workflow_exhausts_example : ainvoke 25 doubting incident idle ≡ (err "GraphRecursionError", idle)
unfolding drive superstep run_node supervisor_step analysts_step analyst_step rca_step critic_step
    target_of route_critic_decision merge rca_node select_hypothesis Agents.critique missing_ids
    supervisor_node analyst_node join_evidence_node critic_node
workflow_exhausts_example =
    workflow_exhausts doubting 5 20 incident first_round idle idle barren refl wants_more

abbrev done : ActionExecutionResult
done = record {
  action_id = "a1";
  status = success;
  output = "Remediation action completed successfully";
  error_message = none;
}

abbrev refusal : ApprovalDecision
refusal = record {
  action_id = "a1";
  decision = rejected;
  decided_by = "ann";
  reason = "no";
  modified_parameters = none;
  decided_at = 9;
}

planned : actions_of planned_incident ≢ []
planned e = ground arith

abbrev executed : Update
executed = record no_update {
  current_stage = some IncidentStage.executing;
  execution_results = some (done ∷ []);
  timeline =
      record {
        stage = IncidentStage.executing;
        actor = "ExecutionRunner";
        message = "Action [a1] status: SUCCESS. Output: Remediation action completed successfully";
      }
      ∷ [];
}

execution_ignores_approvals_example :
    ((rs : List ActionExecutionResult) × (executed.execution_results ≡ some rs)
      × (result_ids rs ≡ "a1" ∷ []))
    × (execution_node tools
          (record planned_incident { pending_approvals = []; approval_decisions = refusal ∷ [] })
          idle
        ≡ execution_node tools planned_incident idle)
unfolding execution_node execute_plan execute_action execute_with get_tool dispatch conclude invoke
    caller_weight required_weight get_or
execution_ignores_approvals_example =
    execution_ignores_approvals tools planned_incident idle executed [] (refusal ∷ []) refl planned

abbrev verified : Update
verified = record no_update {
  current_stage = some IncidentStage.resolved;
  verification = some recovery;
  timeline =
      record {
        stage = IncidentStage.verifying;
        actor = "VerificationAgent";
        message = "Verification status: RECOVERED. x";
      }
      ∷ [];
}

resolved_iff_example : (verified.current_stage ≡ some IncidentStage.resolved) ↔ (
    (recovery.status ≡ RecoveryStatus.recovered)
    × ((recovery.rollback_recommended ≡ false) ⊎ (actions_of planned_incident ≡ [])))
unfolding verification_node
resolved_iff_example = resolved_iff tools recovery planned_incident idle verified refl

abbrev assessed_plan : RemediationPlan
assessed_plan = plan_of (assess_all (env_of (cause ∷ [])).policy "inc-1" (clearing ∷ []))

plan-IsAssessed_example :
    All (IsAssessed (env_of (cause ∷ [])).policy "inc-1") assessed_plan.actions
unfolding drive superstep run_node supervisor_step analysts_step analyst_step rca_step critic_step
    merge rca_node select_hypothesis Agents.critique missing_ids supervisor_node analyst_node
    target_of route_critic_decision critic_node remediation_step Agents.plan_remediation
    remediation_planning_node join_evidence_node
plan-IsAssessed_example =
    plan-IsAssessed (env_of (cause ∷ [])) 6 0 incident idle assessed_plan refl refl
