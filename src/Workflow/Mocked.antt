-- ===== src/Workflow/Mocked.antt =====
-- The workflow as the incident service and the evaluation build it: every agent asks a router with one
-- mock provider. What becomes of an incident does not depend on it.
pub mod Cited
pub mod Executed
use ops_pilot_ai.Prelude.{
  ℕ, zero, suc, ◌+◌, ◌-◌, ◌*◌, ◌/◌, ◌%◌, ◌≤◌, ◌<◌, min, max, String, ◌≡◌, refl, sym, ap, ◌∙◌, ◌≢◌,
  ◌↔◌, ◌⊎◌, inl, inr, Bool, true, false, not, ◌&&◌, ◌||◌, Option, none, some, List, [], ◌∷◌, ◌++◌,
  map, arith, eq_iff, eq_refl, ltb, leb, nat_eqb, nat_eqb_iff, if◌then◌else◌, Eq, ◌==◌, ℕ_eq,
  String_eq, Bool-cases, Option-cases, length, take, drop, head?, last?, keep_if, find_if, any_of,
  All, length-append, length-drop, All-append, All-keep_if, elem, elem-append, nodup, keep_if-true,
  keep_if-keep_if,
}
use mathlib.Core.Path.{subst}
use ops_pilot_ai.Result.{Result, Result-cases, ok, err}
use ops_pilot_ai.Domain.{
  IncidentState, IncidentStage, InvestigationTask, Evidence, Hypothesis, RemediationAction,
  RemediationPlan, ActionExecutionResult, AnalystAgentOutput, AnalystType, log_analyst,
  metrics_analyst, code_analyst, memory_analyst,
}
use ops_pilot_ai.Prelude.Text.{lower, contains, char_of}
use ops_pilot_ai.Safety.Policy.{assess_action_risk}
use ops_pilot_ai.Safety.Runner.{Runner, execute_action}
use ops_pilot_ai.Tools.Registry.{Registry}
use ops_pilot_ai.Router.Mock.{
  MockProvider, mentions, ask_mock, ask_mock_lem, supervisor_plan, evidence_items, analyst_output,
  cited_ids, redis_hypothesis, rca_output, critique_result, rollback_action, remediation_plan,
  verification_assessment,
}
use ops_pilot_ai.Agents
use ops_pilot_ai.Agents.{Model, Policy, ids, missing_ids}
use ops_pilot_ai.Agents.Prompts.{
  Observations, JsonDumps, model_of, mock_llm, supervisor_prompt, analyst_prompt, rca_prompt,
}
use ops_pilot_ai.Agents.Prompts.Mentions.{instruction-mentioned, intent-mentioned}
use ops_pilot_ai.Workflow.Update.{no_update, merge}
use ops_pilot_ai.Workflow.Nodes.{
  lead_service, executed_action_id, execution_event, verification_event, actions_of, task_of,
  supervisor_node, analyst_node, join_evidence_node, rca_node, critic_node,
  remediation_planning_node, select_hypothesis, execute_plan, execution_node, verification_node,
}
use ops_pilot_ai.Workflow.Graph.{
  Env, Config, start, superstep, drive, run_node, supervisor_step, analysts_step, analyst_step,
  rca_step, critic_step, remediation_step, execution_step, verification_step, routed, proceed,
  target_of, route_critic_decision, supervisor, analysts, join_evidence, rca, critic,
  remediation_planning, execution, verification, finished, crashed,
}
use ops_pilot_ai.Workflow.Mocked.Cited.{
  investigated, joined, analyzed, selected, criticized, none_missing,
}
use ops_pilot_ai.Workflow.Mocked.Executed.{Outcome, executed}

-- A model whose answers are those of the mock provider to the agents' prompts.
record IsMocked (seen : Observations) (model : Model) : Type 0 where
  plan :
      (n : ℕ) (s : IncidentState)
      → model.plan_investigation n s ≡ ok (supervisor_plan (supervisor_prompt seen n s))
  investigate :
      (n : ℕ) (t : InvestigationTask)
      → model.investigate n t ≡ ok (analyst_output (analyst_prompt seen n t))
  analyze :
      (n : ℕ) (title : String) (evidence : List Evidence)
      → model.analyze n title evidence ≡ ok (rca_output (rca_prompt seen title evidence))
  critique :
      (n : ℕ) (h : Hypothesis) (evidence : List Evidence)
      → model.critique n h evidence ≡ ok critique_result
  remediate :
      (n : ℕ) (i : String) (h : Hypothesis) (services : List String)
      → model.plan_remediation n i h services ≡ ok remediation_plan
  verify :
      (n : ℕ) (service action_id : String)
      → model.verify_recovery n service action_id ≡ ok verification_assessment

mock-IsMocked :
    (seen : Observations) (json : JsonDumps) (mock : MockProvider)
    → mock.always_fail ≡ false
    → IsMocked seen (model_of seen (mock_llm json mock))
unfolding model_of mock_llm
mock-IsMocked seen json mock works = record {
  plan =
      λ n s. ask_mock_lem json.plan_json mock (supervisor_plan (supervisor_prompt seen n s)) works;
  investigate =
      λ n t. ask_mock_lem json.output_json mock (analyst_output (analyst_prompt seen n t)) works;
  analyze = λ n title evidence.
      ask_mock_lem json.rca_json mock (rca_output (rca_prompt seen title evidence)) works;
  critique = λ n h evidence. ask_mock_lem json.critique_json mock critique_result works;
  remediate = λ n i h services. ask_mock_lem json.remediation_json mock remediation_plan works;
  verify =
      λ n service action_id. ask_mock_lem json.assessment_json mock verification_assessment works;
}

module _ {W : Type 0} (seen : Observations) (env : Env W) (mocked : IsMocked seen env.model) where
  -- The states that the workflow goes through.
  abbrev planned : IncidentState → IncidentState
  planned s = merge (supervisor_node (supervisor_plan (supervisor_prompt seen 0 s))) s

  abbrev approved : IncidentState → IncidentState
  approved s = merge (critic_node critique_result s) s

  -- The plan of the remediation agent for an incident.
  abbrev assessed_action : IncidentState → RemediationAction
  assessed_action s =
      assess_action_risk env.policy.sha256_hex env.policy.auto_remediate_enabled env.policy.topology
        rollback_action s.incident_id

  supervised :
      (s : IncidentState) (r : Runner W)
      → superstep env 0 (start s r) ≡ record { at = analysts; state = planned s; runner = r }
  unfolding superstep run_node supervisor_step
  supervised s r = rw (mocked.plan 0 s, superstep, run_node, supervisor_step) refl

  all_investigated :
      (s : IncidentState) (r : Runner W)
      → superstep env 1 (record { at = analysts; state = s; runner = r })
        ≡ record { at = join_evidence; state = investigated seen s; runner = r }
  unfolding superstep run_node analysts_step analyst_step
  all_investigated s r =
      rw
        (
          mocked.investigate 1 (task_of log_analyst s),
          mocked.investigate 1 (task_of metrics_analyst s),
          mocked.investigate 1 (task_of code_analyst s),
          mocked.investigate 1 (task_of memory_analyst s),
          superstep,
          run_node,
          analysts_step,
          analyst_step,
        )
        refl

  evidence_joined :
      (s : IncidentState) (r : Runner W)
      → superstep env 2 (record { at = join_evidence; state = s; runner = r })
        ≡ record { at = rca; state = joined s; runner = r }
  unfolding superstep run_node
  evidence_joined s r = refl

  cause_analyzed :
      (s : IncidentState) (r : Runner W)
      → superstep env 3 (record { at = rca; state = s; runner = r })
        ≡ record { at = critic; state = analyzed seen s; runner = r }
  unfolding superstep run_node rca_step
  cause_analyzed s r = rw (mocked.analyze 3 s.title s.evidence, superstep, run_node, rca_step) refl

  critique_approved :
      (n : ℕ) (h : Hypothesis) (evidence : List Evidence)
      → missing_ids h.supporting_evidence_ids (ids evidence) ≡ []
      → Agents.critique env.model n h evidence ≡ ok critique_result
  unfolding Agents.critique
  critique_approved n h evidence m = rw (m, Agents.critique) (mocked.critique n h evidence)

  routed_approved :
      (v : IncidentState) (r : Runner W)
      → routed (approved v) r ≡ record { at = remediation_planning; state = approved v; runner = r }
  unfolding route_critic_decision merge critic_node critique_result target_of
  routed_approved v r = refl

  hypothesis_approved :
      (v : IncidentState) (h : Hypothesis) (r : Runner W)
      → v.selected_hypothesis ≡ some h
      → missing_ids h.supporting_evidence_ids (ids v.evidence) ≡ []
      → superstep env 4 (record { at = critic; state = v; runner = r })
        ≡ record { at = remediation_planning; state = approved v; runner = r }
  unfolding superstep run_node critic_step
  hypothesis_approved v h r e m =
      simp (e, superstep, run_node, critic_step)
        (simp (critique_approved 4 h v.evidence m) (routed_approved v r))

  -- The plan that the remediation agent makes for an incident.
  abbrev plan_for : IncidentState → Hypothesis → RemediationPlan
  plan_for v h = record remediation_plan {
    incident_id = v.incident_id;
    hypothesis_id = h.id;
    actions = assessed_action v ∷ [];
  }

  abbrev remediating : IncidentState → Hypothesis → IncidentState
  remediating v h = merge (remediation_planning_node (plan_for v h)) v

  plan_made :
      (n : ℕ) (v : IncidentState) (h : Hypothesis)
      → Agents.plan_remediation env.model env.policy n v.incident_id h v.affected_services
        ≡ ok (plan_for v h)
  unfolding Agents.plan_remediation
  plan_made n v h =
      rw (mocked.remediate n v.incident_id h v.affected_services, Agents.plan_remediation)
        (unfold remediation_plan in refl)

  remediation_planned :
      (v : IncidentState) (h : Hypothesis) (r : Runner W)
      → v.selected_hypothesis ≡ some h
      → superstep env 5 (record { at = remediation_planning; state = v; runner = r })
        ≡ record { at = execution; state = remediating v h; runner = r }
  unfolding superstep run_node remediation_step
  remediation_planned v h r e =
      simp (e, superstep, run_node, remediation_step) (simp (plan_made 5 v h) refl)

  remediating_actions :
      (v : IncidentState) (h : Hypothesis) → actions_of (remediating v h) ≡ assessed_action v ∷ []
  unfolding merge remediation_planning_node
  remediating_actions v h = refl

  -- The states before the plan.
  abbrev argued : IncidentState → IncidentState
  argued s = approved (criticized seen (planned s))

  abbrev cause : IncidentState → Hypothesis
  cause s = redis_hypothesis (
      rca_prompt seen (joined (investigated seen (planned s))).title
        (joined (investigated seen (planned s))).evidence)

  argued-selected : (s : IncidentState) → (argued s).selected_hypothesis ≡ some (cause s)
  unfolding merge critic_node
  argued-selected s = selected seen (joined (investigated seen (planned s)))

  driven :
      (s : IncidentState) (r : Runner W)
      → drive env 8 0 (start s r)
        ≡ superstep env 7 (
            superstep env 6
              (record { at = execution; state = remediating (argued s) (cause s); runner = r }))
  unfolding drive
  driven s r =
      let p = planned s in
      let i = investigated seen p in
      ap (λ (c : Config W). drive env 7 1 c) (supervised s r)
      ∙ ap (λ (c : Config W). drive env 6 2 c) (all_investigated p r)
      ∙ ap (λ (c : Config W). drive env 5 3 c) (evidence_joined i r)
      ∙ ap (λ (c : Config W). drive env 4 4 c) (cause_analyzed (joined i) r)
      ∙ ap (λ (c : Config W). drive env 3 5 c)
          (hypothesis_approved (criticized seen p) (cause s) r (selected seen (joined i))
            (none_missing seen _ p))
      ∙ ap (λ (c : Config W). drive env 2 6 c)
          (remediation_planned (argued s) (cause s) r (argued-selected s))

  mocked_outcome :
      (s : IncidentState) (r : Runner W)
      → Outcome env mocked.verify (assessed_action (argued s)) r (drive env 8 0 (start s r))
  mocked_outcome s r =
      subst (λ (c : Config W). Outcome env mocked.verify (assessed_action (argued s)) r c)
        (sym (driven s r))
        (executed env mocked.verify (remediating (argued s) (cause s)) (assessed_action (argued s))
          r (remediating_actions (argued s) (cause s)))

-- `IncidentWorkflow` with agents whose router is `ModelRouter([MockLLMProvider()])`.
abbrev pub mock_env :
    {W : Type 0} → Observations → JsonDumps → MockProvider → Policy → Registry W → Env W
mock_env seen json mock policy registry = record {
  model = model_of seen (mock_llm json mock);
  policy = policy;
  registry = registry;
}

-- With a mock provider that does not always fail, from every state, with every tool and whatever the
-- tools and the records print, the workflow stops after eight supersteps, and its plan is one action,
-- the risk policy's assessment of the rollback of payment-service for the incident: no title and no
-- affected service changes it. That action was executed, and nothing else. Where the execution returned
-- a result, a failure included, the incident is RESOLVED; where it raised, the run ended by that.
pub mock_resolves_all :
    {W : Type 0} (seen : Observations) (json : JsonDumps) (mock : MockProvider) (policy : Policy)
    (registry : Registry W) (s : IncidentState) (r : Runner W)
    → mock.always_fail ≡ false
    → let env = mock_env seen json mock policy registry in
      let action =
        assess_action_risk policy.sha256_hex policy.auto_remediate_enabled policy.topology
          rollback_action s.incident_id in
      let run = execute_action registry action "OPERATOR" r in
      let c = drive env 8 0 (start s r) in
      (c.runner ≡ run.1)
      × (actions_of c.state ≡ action ∷ [])
      × (((res : ActionExecutionResult) × (run.0 ≡ ok res)
            × (c.at ≡ finished)
            × (c.state.current_stage ≡ IncidentStage.resolved))
          ⊎ ((e : String) × (run.0 ≡ err e) × (c.at ≡ crashed)))
unfolding merge supervisor_node analyst_node join_evidence_node rca_node critic_node
mock_resolves_all seen json mock policy registry s r works =
    let action =
      assess_action_risk policy.sha256_hex policy.auto_remediate_enabled policy.topology
        rollback_action s.incident_id in
    let outcome =
      mocked_outcome seen (mock_env seen json mock policy registry)
        (mock-IsMocked seen json mock works) s r in
    (
      outcome.0,
      outcome.1,
      elim (Result-cases (execute_action registry action "OPERATOR" r).0) [
        | inl (res, k) ↦ inl (res, k, (outcome.2 res k).0, (outcome.2 res k).1)
        | inr (e, k) ↦ inr (e, k, outcome.3 e k)
      ],
    )
