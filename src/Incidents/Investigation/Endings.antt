-- ===== src/Incidents/Investigation/Endings.antt =====
-- Whether the streams of an investigation end.
use ops_pilot_ai.Prelude.Assoc.{lookup, lookup-insert}
use ops_pilot_ai.Prelude.{
  String, ◌≡◌, refl, inl, inr, Bool, true, false, ◌||◌, Option, none, some, List, [], ◌∷◌, ◌++◌,
  arith, eq_refl, ℕ_eq, String_eq, Bool-cases, any_of,
}
use ops_pilot_ai.Value.{Fields}
use ops_pilot_ai.Domain.{IncidentStage, IncidentState, Evidence, TimelineEvent}
use ops_pilot_ai.Workflow.Update.{Update, merge}
use ops_pilot_ai.Events.Broker.{Step, published, is_terminal, events_for}
use ops_pilot_ai.Incidents.Service.{Service, Dumps}
use ops_pilot_ai.Incidents.Investigation.{
  is_resolved, signal_resolved, node_events, investigation_ended, investigation_failed,
  begin_investigation, stream_nodes, run_investigation, node_completed, evidence_found,
  agent_thoughts,
}

-- A terminal event is published for the incident.
abbrev pub ends : String → List Step → Bool
ends i steps = any_of is_terminal (events_for i steps)

-- The incident after the updates of the graph.
abbrev pub merged : List (String × Update) → IncidentState → IncidentState
merged [] s = s
merged ((node, u) ∷ outputs) s = merged outputs (merge u s)

ends-append : (i : String) (xs ys : List Step) → ends i (xs ++ ys) ≡ (ends i xs || ends i ys)
unfolding events_for
ends-append i [] ys = refl
ends-append i (published j t p ∷ xs) ys = ground (arith, ends-append i xs ys)
ends-append i (Step.subscribed j ∷ xs) ys = ends-append i xs ys
ends-append i (Step.pulled q ∷ xs) ys = ends-append i xs ys
ends-append i (Step.disconnected q ∷ xs) ys = ends-append i xs ys

evidence-ends :
    (dumps : Dumps) (i : String) (es : List Evidence) → ends i (evidence_found dumps i es) ≡ false
unfolding events_for is_terminal
evidence-ends dumps i [] = refl
evidence-ends dumps i (e ∷ es) = ground (arith, evidence-ends dumps i es)

thoughts-ends :
    (dumps : Dumps) (i : String) (ts : List TimelineEvent)
    → ends i (agent_thoughts dumps i ts) ≡ false
unfolding events_for is_terminal
thoughts-ends dumps i [] = refl
thoughts-ends dumps i (t ∷ ts) = ground (arith, thoughts-ends dumps i ts)

stage-ends : (i : String) (p : Fields) → ends i (published i "stage_change" p ∷ []) ≡ false
unfolding events_for is_terminal
stage-ends i p = ground arith

node-ends :
    (dumps : Dumps) (i node : String) (u : Update) (stage : IncidentStage)
    → ends i (node_events dumps i node u stage) ≡ false
unfolding node_events
node-ends dumps i node u stage =
    rw
      (
        ends-append i (evidence_found dumps i u.evidence) _,
        evidence-ends dumps i u.evidence,
        ends-append i (agent_thoughts dumps i u.timeline) _,
        thoughts-ends dumps i u.timeline,
      )
      (stage-ends i _)

-- The incident's state, and whether a terminal event was published for it.
abbrev Shows : String → IncidentState → Bool → Service → Type 0
Shows i s b svc = (lookup i svc.incidents ≡ some s) × (ends i svc.broadcasts ≡ b)

completed-Shows :
    (dumps : Dumps) (i node : String) (u : Update) (s : IncidentState) (b : Bool) (svc : Service)
    → Shows i s b svc
    → Shows i (merge u s) b (node_completed dumps i node u svc)
unfolding node_completed
completed-Shows dumps i node u s b svc (e, h) =
    rw (e, node_completed)
      (
        ground (arith, lookup-insert i i (merge u s) svc.incidents, eq_refl i),
        ground (
          arith,
          ends-append i svc.broadcasts (node_events dumps i node u (merge u s).current_stage),
          node-ends dumps i node u (merge u s).current_stage,
        ),
      )

stream-Shows :
    (dumps : Dumps) (i : String) (outputs : List (String × Update)) (s : IncidentState) (b : Bool)
    (svc : Service)
    → Shows i s b svc
    → Shows i (merged outputs s) b (stream_nodes dumps i outputs svc)
unfolding stream_nodes
stream-Shows dumps i [] s b svc h = h
stream-Shows dumps i ((node, u) ∷ outputs) s b svc h =
    stream-Shows dumps i outputs (merge u s) b (node_completed dumps i node u svc)
      (completed-Shows dumps i node u s b svc h)

begin-Shows :
    (i : String) (s : IncidentState) (b : Bool) (svc : Service)
    → Shows i s b svc
    → Shows i s b (begin_investigation i svc)
unfolding begin_investigation
begin-Shows i s b svc (e, h) =
    rw (e, begin_investigation)
      (e, rw (ends-append i svc.broadcasts _, stage-ends i _) (ground arith))

failure-ends : (i : String) (p : Fields) → ends i (published i "failed" p ∷ []) ≡ true
unfolding events_for is_terminal
failure-ends i p = ground (arith, eq_refl i)

resolution-ends : (i : String) (p : Fields) → ends i (published i "resolved" p ∷ []) ≡ true
unfolding events_for is_terminal
resolution-ends i p = ground (arith, eq_refl i)

failed-ends :
    (i message : String) (s : IncidentState) (svc : Service)
    → lookup i svc.incidents ≡ some s
    → ends i (investigation_failed i message svc).broadcasts ≡ true
unfolding investigation_failed
failed-ends i message s svc e =
    rw (e, investigation_failed)
      (rw (ends-append i svc.broadcasts _, failure-ends i _) (ground arith))

resolved-ends :
    (i : String) (indexing : Option String) (s : IncidentState) (svc : Service)
    → lookup i svc.incidents ≡ some s
    → ends i (signal_resolved i indexing svc).broadcasts ≡ true
unfolding signal_resolved
resolved-ends i none s svc e =
    rw (ends-append i svc.broadcasts _, resolution-ends i _) (ground arith)
resolved-ends i (some message) s svc e = failed-ends i message s _ e

ended-ends :
    (i : String) (indexing : Option String) (s : IncidentState) (b : Bool) (svc : Service)
    → Shows i s b svc
    → ends i (investigation_ended i indexing svc).broadcasts ≡ (b || is_resolved s.current_stage)
unfolding investigation_ended
ended-ends i indexing s b svc (e, h) =
    rw (e, investigation_ended)
      (elim (Bool-cases (is_resolved s.current_stage)) [
        | inl r ↦ rw r (ground (arith, resolved-ends i indexing s svc e))
        | inr r ↦ rw r (ground arith)
      ])

-- Of an incident for which no terminal event was published, an uninterrupted investigation publishes
-- one exactly if the graph raises or leaves the stage RESOLVED. After any other end, such as FAILED
-- by an automatic rollback or a hypothesis that the critic challenged, the streams stay open.
pub terminal_iff :
    (dumps : Dumps) (i : String) (outputs : List (String × Update))
    (raised indexing : Option String) (s : IncidentState) (svc : Service)
    → lookup i svc.incidents ≡ some s
    → ends i svc.broadcasts ≡ false
    → ends i (run_investigation dumps i outputs raised indexing svc).broadcasts
      ≡ elim raised [ some message ↦ true | none ↦ is_resolved (merged outputs s).current_stage ]
unfolding run_investigation
terminal_iff dumps i outputs none indexing s svc e h =
    ended-ends i indexing (merged outputs s) false _
      (stream-Shows dumps i outputs s false _ (begin-Shows i s false svc (e, h)))
terminal_iff dumps i outputs (some message) indexing s svc e h =
    failed-ends i message (merged outputs s) _
      (stream-Shows dumps i outputs s false _ (begin-Shows i s false svc (e, h))).0
