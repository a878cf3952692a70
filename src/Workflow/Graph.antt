-- ===== src/Workflow/Graph.antt =====
-- `build_graph` and `route_critic_decision`: the state machine that LangGraph runs, one superstep at
-- a time. The four analysts run in one superstep, and their updates are merged in the order of the
-- edges. An exception in a node ends the run. LangGraph raises GraphRecursionError where a run has not
-- ended after its recursion limit of supersteps, which is the first argument of `ainvoke`.
use ops_pilot_ai.Prelude.{
  ℕ, zero, suc, Bool, true, false, none, some, ltb, if◌then◌else◌, ℕ_eq, String_eq,
}
use ops_pilot_ai.Result.{Result, ok, err}
use ops_pilot_ai.Domain.{
  IncidentState, approve, challenge, needs_more_evidence, AnalystType, log_analyst, metrics_analyst,
  code_analyst, memory_analyst,
}
use ops_pilot_ai.Agents
use ops_pilot_ai.Agents.{Model, Policy}
use ops_pilot_ai.Safety.Runner.{Runner}
use ops_pilot_ai.Tools.Registry.{Registry}
use ops_pilot_ai.Workflow.Update.{Update, merge}
use ops_pilot_ai.Workflow.Nodes.{
  lead_service, supervisor_node, task_of, analyst_node, join_evidence_node, rca_node, critic_skip,
  critic_node, node_failed, remediation_planning_node, execution_node, verification_node,
  executed_action_id,
}

pub data Node : Type 0 where
  supervisor analysts join_evidence rca critic : Node
  remediation_planning execution verification : Node
  finished crashed : Node

pub data Route : Type 0 where
  to_supervisor to_remediation to_complete : Route

-- What the workflow is built from.
pub record Env (W : Type 0) : Type 0 where
  pub model : Model
  pub policy : Policy
  pub registry : Registry W

pub record Config (W : Type 0) : Type 0 where
  pub at : Node
  pub state : IncidentState
  pub runner : Runner W

unfoldable pub route_critic_decision : IncidentState → Route
route_critic_decision s = elim s.critique [
  | none ↦ to_complete
  | some c ↦ elim c.decision [
    | needs_more_evidence ↦
        if ltb s.iteration_count s.max_iterations then to_supervisor else to_complete
    | approve ↦ to_remediation
    | challenge ↦ to_complete
  ]
]

unfoldable pub target_of : Route → Node
target_of to_supervisor = supervisor
target_of to_remediation = remediation_planning
target_of to_complete = finished

-- One analyst's update, merged into what the analysts before it left.
unfoldable pub analyst_step :
    Model → ℕ → IncidentState → AnalystType → Result IncidentState → Result IncidentState
analyst_step model n s agent (err e) = err e
analyst_step model n s agent (ok t) = elim (model.investigate n (task_of agent s)) [
  | ok output ↦ ok (merge (analyst_node agent output) t)
  | err e ↦ err e
]

module _ {W : Type 0} where
  abbrev pub crash : IncidentState → Runner W → Config W
  crash s r = record { at = crashed; state = s; runner = r }

  -- The next configuration, after a node that may raise.
  unfoldable pub proceed : Node → IncidentState → Result Update × Runner W → Config W
  proceed next s (ok u, r) = record { at = next; state = merge u s; runner = r }
  proceed next s (err e, r) = crash s r

  unfoldable pub supervisor_step : Env W → ℕ → IncidentState → Runner W → Config W
  supervisor_step env n s r = elim (env.model.plan_investigation n s) [
    | ok plan ↦ record { at = analysts; state = merge (supervisor_node plan) s; runner = r }
    | err e ↦ crash s r
  ]

  unfoldable pub analysts_step : Env W → ℕ → IncidentState → Runner W → Config W
  analysts_step env n s r =
      elim (analyst_step env.model n s memory_analyst (
        analyst_step env.model n s code_analyst (
          analyst_step env.model n s metrics_analyst
            (analyst_step env.model n s log_analyst (ok s))))) [
              | ok t ↦ record { at = join_evidence; state = t; runner = r }
              | err e ↦ crash s r
            ]

  unfoldable pub rca_step : Env W → ℕ → IncidentState → Runner W → Config W
  rca_step env n s r = elim (env.model.analyze n s.title s.evidence) [
    | ok output ↦ record { at = critic; state = merge (rca_node output) s; runner = r }
    | err e ↦ crash s r
  ]

  abbrev pub routed : IncidentState → Runner W → Config W
  routed s r = record { at = target_of (route_critic_decision s); state = s; runner = r }

  unfoldable pub critic_step : Env W → ℕ → IncidentState → Runner W → Config W
  critic_step env n s r = elim s.selected_hypothesis [
    | none ↦ routed (merge critic_skip s) r
    | some h ↦ elim (Agents.critique env.model n h s.evidence) [
      | ok c ↦ routed (merge (critic_node c s) s) r
      | err e ↦ crash s r
    ]
  ]

  unfoldable pub remediation_step : Env W → ℕ → IncidentState → Runner W → Config W
  remediation_step env n s r = elim s.selected_hypothesis [
    | none ↦ record { at = execution; state = merge node_failed s; runner = r }
    | some h ↦
        elim (Agents.plan_remediation env.model env.policy n s.incident_id h s.affected_services) [
          | ok plan ↦ record {
            at = execution;
            state = merge (remediation_planning_node plan) s;
            runner = r;
          }
          | err e ↦ crash s r
        ]
  ]

  unfoldable pub execution_step : Env W → IncidentState → Runner W → Config W
  execution_step env s r = proceed verification s (execution_node env.registry s r)

  unfoldable pub verification_step : Env W → ℕ → IncidentState → Runner W → Config W
  verification_step env n s r =
      elim (env.model.verify_recovery n (lead_service s) (executed_action_id s)) [
        | ok assessment ↦ proceed finished s (verification_node env.registry assessment s r)
        | err e ↦ crash s r
      ]

  unfoldable pub run_node : Node → Env W → ℕ → IncidentState → Runner W → Config W
  run_node supervisor env n s r = supervisor_step env n s r
  run_node analysts env n s r = analysts_step env n s r
  run_node join_evidence env n s r = record {
    at = rca;
    state = merge join_evidence_node s;
    runner = r;
  }
  run_node rca env n s r = rca_step env n s r
  run_node critic env n s r = critic_step env n s r
  run_node remediation_planning env n s r = remediation_step env n s r
  run_node execution env n s r = execution_step env s r
  run_node verification env n s r = verification_step env n s r
  run_node finished env n s r = record { at = finished; state = s; runner = r }
  run_node crashed env n s r = crash s r

  unfoldable pub superstep : Env W → ℕ → Config W → Config W
  superstep env n c = run_node c.at env n c.state c.runner

  -- `fuel` supersteps from superstep `n` on.
  unfoldable pub drive : Env W → ℕ → ℕ → Config W → Config W
  drive env zero n c = c
  drive env (suc fuel) n c = drive env fuel (suc n) (superstep env n c)

  -- `graph.ainvoke(state)` enters at the supervisor.
  abbrev pub start : IncidentState → Runner W → Config W
  start s r = record { at = supervisor; state = s; runner = r }

abbrev pub stopped : Node → Bool
stopped finished = true
stopped crashed = true
stopped _ = false

-- What a run returns or raises, from where it is after the last superstep that it may make.
abbrev pub final_of : Node → IncidentState → Result IncidentState
final_of finished s = ok s
final_of crashed s = err "a node raised"
final_of supervisor s = err "GraphRecursionError"
final_of analysts s = err "GraphRecursionError"
final_of join_evidence s = err "GraphRecursionError"
final_of rca s = err "GraphRecursionError"
final_of critic s = err "GraphRecursionError"
final_of remediation_planning s = err "GraphRecursionError"
final_of execution s = err "GraphRecursionError"
final_of verification s = err "GraphRecursionError"

-- `graph.ainvoke(state)`, with the runner that it leaves.
unfoldable pub ainvoke :
    {W : Type 0} → ℕ → Env W → IncidentState → Runner W → Result IncidentState × Runner W
unfolding drive
ainvoke recursion_limit env s r =
    let c = drive env recursion_limit 0 (start s r) in (final_of c.at c.state, c.runner)
