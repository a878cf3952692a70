-- ===== src/Incidents/Investigation.antt =====
-- apps/api/services/incident_service.py: `_run_investigation`, and the steps of the service. What the
-- graph streams is a parameter: the completed nodes with their updates, and whether it then ends or
-- raises. A handler runs without interruption; the awaits of an investigation lie between the steps
-- `began`, `completed`, and `raised` or `ended`.
pub mod Invariant
pub mod Endings
use ops_pilot_ai.Prelude.{
  ℕ, zero, suc, ◌+◌, ◌-◌, ◌*◌, ◌/◌, ◌%◌, ◌≤◌, ◌<◌, min, max, String, ◌≡◌, refl, sym, ap, ◌∙◌, ◌≢◌,
  ◌↔◌, ◌⊎◌, inl, inr, Bool, true, false, not, ◌&&◌, ◌||◌, Option, none, some, List, [], ◌∷◌, ◌++◌,
  map, arith, eq_iff, eq_refl, ltb, leb, nat_eqb, nat_eqb_iff, if◌then◌else◌, Eq, ◌==◌, ℕ_eq,
  String_eq, Bool-cases, Option-cases, length, take, drop, head?, last?, keep_if, find_if, any_of,
  All, length-append, length-drop, All-append, All-keep_if, elem, elem-append, nodup,
}
use Prim.Native.String.{◌++◌ as ◌⧺◌}
use ops_pilot_ai.Prelude.Assoc.{Assoc, lookup, insert}
use ops_pilot_ai.Result.{Result, ok, err}
use ops_pilot_ai.Value.{Fields, field, end, str}
use ops_pilot_ai.Domain.{
  IncidentState, IncidentStage, Severity, TimelineEvent, Evidence, RemediationAction,
  RemediationPlan, ApprovalDecision, Decision, new_state,
}
use ops_pilot_ai.Domain.Names.{stage_name, action_name, tier_name, decision_name}
use ops_pilot_ai.Safety.Policy.{authorize_approval}
use ops_pilot_ai.Workflow.Update.{Update, merge}
use ops_pilot_ai.Events.Broker.{Step, published}
use ops_pilot_ai.Incidents.Service.{
  Service, Dumps, ApprovalDecisionRequest, create_incident, submit_approval,
}

-- The publications for a completed node: its evidence, its timeline, and the stage it left.
abbrev pub evidence_found : Dumps → String → List Evidence → List Step
evidence_found dumps i [] = []
evidence_found dumps i (e ∷ es) =
    published i "evidence_found" (dumps.evidence_dump e) ∷ evidence_found dumps i es

abbrev pub agent_thoughts : Dumps → String → List TimelineEvent → List Step
agent_thoughts dumps i [] = []
agent_thoughts dumps i (t ∷ ts) =
    published i "agent_thought" (dumps.timeline_dump t) ∷ agent_thoughts dumps i ts

unfoldable pub node_events : Dumps → String → String → Update → IncidentStage → List Step
node_events dumps i node_name u stage =
    evidence_found dumps i u.evidence
    ++ (agent_thoughts dumps i u.timeline
        ++ published i "stage_change"
            (field "stage" (str (stage_name stage)) (field "node" (str node_name) end))
          ∷ [])

abbrev pub publish_all : List Step → Service → Service
publish_all events svc = record svc { broadcasts = svc.broadcasts ++ events }

abbrev pub with_state : String → IncidentState → Service → Service
with_state i s svc = record svc { incidents = insert i s svc.incidents }

-- `_run_investigation` up to the stream of the graph
unfoldable pub begin_investigation : String → Service → Service
begin_investigation i svc = elim (lookup i svc.incidents) [
  | none ↦ svc
  | some s ↦
      publish_all
        (published i "stage_change" (
            field "stage" (str "PLANNING")
              (field "message" (str "Supervisor initiating triage") end))
          ∷ [])
        svc
]

-- A completed node: its update is merged into the incident as it is in the graph.
unfoldable pub node_completed : Dumps → String → String → Update → Service → Service
node_completed dumps i node_name u svc = elim (lookup i svc.incidents) [
  | none ↦ svc
  | some s ↦
      publish_all (node_events dumps i node_name u (merge u s).current_stage)
        (with_state i (merge u s) svc)
]

-- The handler of exceptions.
unfoldable pub investigation_failed : String → String → Service → Service
investigation_failed i message svc = elim (lookup i svc.incidents) [
  | none ↦ svc
  | some s ↦ publish_all (published i "failed" (field "error" (str message) end) ∷ []) (
      with_state i
        (record s { current_stage = IncidentStage.failed; errors = s.errors ++ message ∷ [] }) svc)
]

abbrev pub is_resolved : IncidentStage → Bool
is_resolved IncidentStage.resolved = true
is_resolved _ = false

abbrev pub publish_resolved : String → Service → Service
publish_resolved i svc =
    publish_all
      (published i "resolved" (field "incident_id" (str i) (field "status" (str "RESOLVED") end))
        ∷ [])
      svc

-- The final status RESOLVED. `indexing` is the exception of the report's generation and indexing, if
-- there is one.
unfoldable pub signal_resolved : String → Option String → Service → Service
signal_resolved i none svc = publish_resolved i svc
signal_resolved i (some message) svc = investigation_failed i message (publish_resolved i svc)

-- The end of the stream.
unfoldable pub investigation_ended : String → Option String → Service → Service
investigation_ended i indexing svc = elim (lookup i svc.incidents) [
  | none ↦ svc
  | some s ↦ if is_resolved s.current_stage then signal_resolved i indexing svc else svc
]

-- The loop over the stream of the graph.
unfoldable pub stream_nodes : Dumps → String → List (String × Update) → Service → Service
stream_nodes dumps i [] svc = svc
stream_nodes dumps i ((node_name, u) ∷ outputs) svc =
    stream_nodes dumps i outputs (node_completed dumps i node_name u svc)

-- `_run_investigation` without interruption: the graph streams `outputs`, and then raises or ends.
unfoldable pub run_investigation :
    Dumps → String → List (String × Update) → Option String → Option String → Service → Service
run_investigation dumps i outputs raised indexing svc =
    let streamed = stream_nodes dumps i outputs (begin_investigation i svc) in
    elim raised [
      | none ↦ investigation_ended i indexing streamed
      | some message ↦ investigation_failed i message streamed
    ]

-- The steps that the service's callers and its background tasks take, in any order.
pub data Action : Type 0 where
  created : (incident_id title : String) → Severity → List String → ℕ → Action
  submitted : (incident_id approval_id : String) → ApprovalDecisionRequest → ℕ → Action
  began : (incident_id : String) → Action
  completed : (incident_id node_name : String) → Update → Action
  raised : (incident_id message : String) → Action
  ended : (incident_id : String) → Option String → Action

unfoldable pub perform : Dumps → Action → Service → Service
perform dumps (created i title severity services now) svc =
    create_incident i title severity services now svc
perform dumps (submitted i approval_id request now) svc =
    (submit_approval dumps i approval_id request now svc).1
perform dumps (began i) svc = begin_investigation i svc
perform dumps (completed i node_name u) svc = node_completed dumps i node_name u svc
perform dumps (raised i message) svc = investigation_failed i message svc
perform dumps (ended i indexing) svc = investigation_ended i indexing svc

unfoldable pub perform_all : Dumps → List Action → Service → Service
perform_all dumps [] svc = svc
perform_all dumps (a ∷ as') svc = perform_all dumps as' (perform dumps a svc)

abbrev pub new_service : Service
new_service = record { incidents = []; broadcasts = [] }
