-- ===== src/Lib.antt =====
-- OpsPilot AI: an incident service whose agents investigate an incident, and which plans, assesses,
-- executes and verifies a remediation.
--
-- The parts, and the modules that model them (paths from the repository's root):
-- * src/domain/state.py is Domain: a record for each model, a data type for each literal.
-- * src/safety/policy.py is Safety.Policy and Safety.Destructive: `assess_action_risk` scores an
--   action, `authorize_approval` says who may approve it. The regular expressions run on Regex, a
--   backtracking matcher for the constructs that the patterns use.
-- * src/tools/base.py, registry.py and remediation_tools.py are Tools.Base, Tools.Registry and
--   Tools.Remediation. A tool is a function on its arguments and a world `W`; the program's world is
--   the simulator of Simulator.Engine.
-- * src/safety/execution_runner.py is Safety.Runner: `execute_action` and `execute_rollback` over a
--   registry, with the executed idempotency keys and the world as the state.
-- * src/orchestration/graph.py is Workflow: Workflow.Nodes has the nodes, each from what its agent
--   answered to its `Update`; Workflow.Update merges it as the reducers of the state do;
--   Workflow.Graph has the edges, `drive` runs supersteps, and `ainvoke` is a run under a recursion
--   limit.
-- * src/agents is Agents and Agents.Prompts. Agents has the checks of the critic and the remediation
--   agent around the parameter `Model`, whose answers are arbitrary and may be exceptions.
--   Agents.Prompts has the prompts of all agents, and `model_of`, the `Model` that asks a router.
-- * src/llm/router.py is Router, the failover over providers whose answers are a parameter, and
--   src/llm/adapters/mock_provider.py is Router.Mock, the provider with fixed answers. Workflow.Mocked
--   is the workflow over it, as `_build_workflow` of the incident service makes it.
-- * simulator/engine.py, simulator/scenarios and simulator/services/topology.py are
--   Simulator.Engine, Simulator.Scenario, Simulator.GroundTruths and Topology.
-- * simulator/telemetry/store.py is Simulator.Telemetry, and simulator/services/mock_repo.py is
--   Simulator.Repository, whose queries sort the stored list in place and so return a new state.
-- * apps/api/services/event_stream.py is Events.Broker: publications, subscriptions and the turns of
--   each client's generator are the steps of `run`.
-- * apps/api/services/incident_service.py is Incidents.Service and Investigation: the incidents, with
--   the calls of `event_broker.publish` that it makes as a list of the broker's steps. Its callers and
--   its background investigations interleave as the actions of `perform_all`. Incidents.Listing has its
--   listing, with filters, order and pages; Incidents.Views has what else a caller reads.
-- * src/reporting/postmortem.py is Reporting: the report of an incident, and its entry in the memory.
-- * src/memory is Memory: Memory.Vectors is the store, Memory.Seeds the seeds, and Memory.Episodic
--   `EpisodicMemoryManager`, with the budget of a search.
-- * apps/api/routes is Api: `serve` answers a request on the incidents and the memory.
-- * src/evaluation is Evaluation: the benchmark against Simulator.GroundTruths.
-- Value holds the JSON values of parameters and results, with Python's texts of them; Prelude holds
-- lists, sorting, dictionaries and texts; Result is a value or the text of an exception.
--
-- Numbers are natural; scores in [0.0, 1.0] are thousandths, percentages hundredths, times
-- microseconds. The only fuel is that of `drive`, the number of supersteps, which is LangGraph's
-- recursion limit in `ainvoke`, 25 unless it is configured: a round of the loop takes five, and the way
-- from the critic to the end three; over the mock provider eight are enough. The repetition in Regex
-- runs on the length of the text, which each turn shortens.
--
-- Parameters: the language model, the hash of idempotency keys, pydantic's dumps of records, what the
-- read-only tools print into a prompt, the embedding of a text and the similarity of two embeddings,
-- the rounded quotient of two numbers, the format of a date, the clock and the ids that uuid4 draws.
-- Not modelled: time stamps of audit records, logging, the unread token counters of the state, the
-- telemetry that the scenarios generate from random numbers, the read-only tools themselves, the
-- network client of the OpenAI adapter, the floating-point embeddings, persistence, the set-up of the
-- web application, the rendering of benchmark summaries and the web interface.
pub mod Prelude
pub mod Result
pub mod Value
pub mod Domain
pub mod Topology
pub mod Memory
pub mod Reporting
pub mod Regex
pub mod Simulator
pub mod Tools
pub mod Safety
pub mod Agents
pub mod Router
pub mod Workflow
pub mod Events
pub mod Incidents
pub mod Evaluation
pub mod Api
pub mod Tests
