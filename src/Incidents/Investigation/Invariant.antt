-- ===== src/Incidents/Investigation/Invariant.antt =====
-- One decision for each action, whatever runs at the same time.
use ops_pilot_ai.Prelude.{
  ℕ, String, ◌≡◌, refl, inl, inr, true, false, ◌||◌, Option, none, some, List, [], ◌∷◌, ◌++◌, arith,
  eq_iff, ◌==◌, ℕ_eq, String_eq, Bool-cases, Option-cases, elem, nodup,
}
use ops_pilot_ai.Prelude.Assoc.{lookup, insert, lookup-insert}
use ops_pilot_ai.Domain.{IncidentState, Severity, ApprovalDecision}
use ops_pilot_ai.Workflow.Update.{Update, merge}
use ops_pilot_ai.Incidents.Service.Approvals.{submit_approval-cases}
use ops_pilot_ai.Incidents.Service.{
  decide, Service, Dumps, ApprovalDecisionRequest, create_incident, existing_decision,
  submit_approval,
}
use ops_pilot_ai.Incidents.Investigation.{
  is_resolved, signal_resolved, Action, created, submitted, began, completed, raised, ended,
  begin_investigation, node_completed, investigation_failed, investigation_ended, perform,
  perform_all, new_service,
}

abbrev pub decided_ids : List ApprovalDecision → List String
decided_ids [] = []
decided_ids (d ∷ ds) = d.action_id ∷ decided_ids ds

pub not_decided :
    (id : String) (ds : List ApprovalDecision)
    → existing_decision id ds ≡ none
    → elem id (decided_ids ds) ≡ false
not_decided id [] h = refl
not_decided id (d ∷ ds) h =
    ground (arith, eq_iff id d.action_id, eq_iff d.action_id id, not_decided id ds)

elem-decided :
    (id : String) (ds : List ApprovalDecision) (d : ApprovalDecision)
    → elem id (decided_ids (ds ++ d ∷ [])) ≡ (elem id (decided_ids ds) || id == d.action_id)
elem-decided id [] d = ground arith
elem-decided id (c ∷ cs) d = ground (arith, elem-decided id cs d)

nodup-decided :
    (ds : List ApprovalDecision) (d : ApprovalDecision)
    → nodup (decided_ids ds) ≡ true
    → elem d.action_id (decided_ids ds) ≡ false
    → nodup (decided_ids (ds ++ d ∷ [])) ≡ true
nodup-decided [] d u h = refl
nodup-decided (c ∷ cs) d u h = ground (
  arith,
  nodup-decided cs d,
  elem-decided c.action_id cs d,
  eq_iff c.action_id d.action_id,
  eq_iff d.action_id c.action_id,
)

-- No incident holds two decisions for one action.
pub record IsDecidedOnce (svc : Service) : Type 0 where
  pub unique :
      (i : String) (s : IncidentState)
      → lookup i svc.incidents ≡ some s
      → nodup (decided_ids s.approval_decisions) ≡ true

stored :
    (i : String) (s : IncidentState) (svc svc' : Service)
    → svc'.incidents ≡ insert i s svc.incidents
    → nodup (decided_ids s.approval_decisions) ≡ true
    → IsDecidedOnce svc
    → IsDecidedOnce svc'
stored i s svc svc' e u w = record {
  unique = λ j t h. ground (arith, lookup-insert i j s svc.incidents, w.unique j t, eq_iff i j);
}

same_incidents :
    (svc svc' : Service) → svc'.incidents ≡ svc.incidents → IsDecidedOnce svc → IsDecidedOnce svc'
same_incidents svc svc' e w = record { unique = λ j t h. ground (arith, w.unique j t) }

created-Once :
    (i title : String) (severity : Severity) (services : List String) (now : ℕ) (svc : Service)
    → IsDecidedOnce svc
    → IsDecidedOnce (create_incident i title severity services now svc)
unfolding create_incident
created-Once i title severity services now svc w = stored i _ svc _ refl refl w

submitted-Once :
    (dumps : Dumps) (i id : String) (r : ApprovalDecisionRequest) (now : ℕ) (svc : Service)
    → IsDecidedOnce svc
    → IsDecidedOnce (submit_approval dumps i id r now svc).1
submitted-Once dumps i id r now svc w = elim (submit_approval-cases dumps i id r now svc) [
  | inl refused ↦ rw refused.1 w
  | inr acc ↦ rw acc.change (
      stored i _ svc _ refl
        (nodup-decided acc.state.approval_decisions (decide acc.action.action_id r now)
          (w.unique i acc.state acc.found)
          (not_decided acc.action.action_id acc.state.approval_decisions acc.undecided))
        w)
]

began-Once :
    (i : String) (svc : Service) → IsDecidedOnce svc → IsDecidedOnce (begin_investigation i svc)
unfolding begin_investigation
began-Once i svc w = same_incidents svc (begin_investigation i svc) (ground arith) w

completed-Once :
    (dumps : Dumps) (i node : String) (u : Update) (svc : Service)
    → IsDecidedOnce svc
    → IsDecidedOnce (node_completed dumps i node u svc)
unfolding node_completed merge
completed-Once dumps i node u svc w = elim (Option-cases (lookup i svc.incidents)) [
  | inl e ↦ rw (e, node_completed) w
  | inr (s, e) ↦ rw (e, node_completed) (stored i (merge u s) svc _ refl (w.unique i s e) w)
]

raised-Once :
    (i message : String) (svc : Service)
    → IsDecidedOnce svc
    → IsDecidedOnce (investigation_failed i message svc)
unfolding investigation_failed
raised-Once i message svc w = elim (Option-cases (lookup i svc.incidents)) [
  | inl e ↦ rw (e, investigation_failed) w
  | inr (s, e) ↦ rw (e, investigation_failed) (stored i _ svc _ refl (w.unique i s e) w)
]

resolved-Once :
    (i : String) (indexing : Option String) (svc : Service)
    → IsDecidedOnce svc
    → IsDecidedOnce (signal_resolved i indexing svc)
unfolding signal_resolved
resolved-Once i none svc w = same_incidents svc _ refl w
resolved-Once i (some m) svc w = raised-Once i m _ (same_incidents svc _ refl w)

ended-Once :
    (i : String) (indexing : Option String) (svc : Service)
    → IsDecidedOnce svc
    → IsDecidedOnce (investigation_ended i indexing svc)
unfolding investigation_ended
ended-Once i indexing svc w = elim (Option-cases (lookup i svc.incidents)) [
  | inl e ↦ rw (e, investigation_ended) w
  | inr (s, e) ↦
      rw (e, investigation_ended)
        (elim (Bool-cases (is_resolved s.current_stage)) [
          | inl r ↦ rw r (resolved-Once i indexing svc w)
          | inr r ↦ rw r w
        ])
]

perform-Once :
    (dumps : Dumps) (a : Action) (svc : Service)
    → IsDecidedOnce svc
    → IsDecidedOnce (perform dumps a svc)
unfolding perform
perform-Once dumps (created i title severity services now) svc w =
    created-Once i title severity services now svc w
perform-Once dumps (submitted i id r now) svc w = submitted-Once dumps i id r now svc w
perform-Once dumps (began i) svc w = began-Once i svc w
perform-Once dumps (completed i node u) svc w = completed-Once dumps i node u svc w
perform-Once dumps (raised i message) svc w = raised-Once i message svc w
perform-Once dumps (ended i indexing) svc w = ended-Once i indexing svc w

all-Once :
    (dumps : Dumps) (as' : List Action) (svc : Service)
    → IsDecidedOnce svc
    → IsDecidedOnce (perform_all dumps as' svc)
unfolding perform_all
all-Once dumps [] svc w = w
all-Once dumps (a ∷ as') svc w =
    all-Once dumps as' (perform dumps a svc) (perform-Once dumps a svc w)

-- Whatever the service's callers and its investigations do from a new service on, and in whatever
-- order, no incident comes to hold two decisions on one action.
pub decided_once :
    (dumps : Dumps) (as' : List Action) → IsDecidedOnce (perform_all dumps as' new_service)
unfolding lookup
decided_once dumps as' =
    all-Once dumps as' new_service (record { unique = λ i s h. absurd (ground arith) })
