-- ===== src/Incidents/Listing.antt =====
-- apps/api/services/incident_service.py: `list_incidents`, `get_incident` and the response that they
-- make of an incident. The limit and the offset are not negative, which the routes do not check: for a
-- negative one a Python slice counts from the end.
pub mod Pages
use ops_pilot_ai.Prelude.{
  ℕ, zero, suc, ◌+◌, ◌-◌, ◌*◌, ◌/◌, ◌%◌, ◌≤◌, ◌<◌, min, max, String, ◌≡◌, refl, sym, ap, ◌∙◌, ◌≢◌,
  ◌↔◌, ◌⊎◌, inl, inr, Bool, true, false, not, ◌&&◌, ◌||◌, Option, none, some, List, [], ◌∷◌, ◌++◌,
  map, arith, eq_iff, eq_refl, ltb, leb, nat_eqb, nat_eqb_iff, if◌then◌else◌, Eq, ◌==◌, ℕ_eq,
  String_eq, Bool-cases, Option-cases, length, take, drop, head?, last?, keep_if, find_if, any_of,
  All, length-append, length-drop, All-append, All-keep_if, elem, elem-append, nodup,
}
use ops_pilot_ai.Prelude.Assoc.{lookup, values}
use ops_pilot_ai.Prelude.Text.{upper, lower}
use ops_pilot_ai.Domain.{IncidentState, IncidentStage}
use ops_pilot_ai.Domain.Names.{severity_name, stage_name, recovery_name}
use ops_pilot_ai.Incidents.Service.{Service}

pub record IncidentResponse : Type 0 where
  pub id : String
  pub title : String
  pub severity : String
  pub current_stage : String
  pub affected_services : List String
  pub created_at : ℕ
  pub resolved_at : Option ℕ
  pub confidence_score : ℕ
  pub evidence_count : ℕ
  pub hypotheses_count : ℕ
  pub selected_hypothesis_title : Option String
  pub verification_status : Option String

abbrev resolution_time : ℕ → IncidentStage → Option ℕ
resolution_time now IncidentStage.resolved = some now
resolution_time now _ = none

unfoldable pub to_incident_response : ℕ → IncidentState → IncidentResponse
to_incident_response now s = record {
  id = s.incident_id;
  title = s.title;
  severity = severity_name s.severity;
  current_stage = stage_name s.current_stage;
  affected_services = s.affected_services;
  created_at = s.created_at;
  resolved_at = resolution_time now s.current_stage;
  confidence_score = elim s.selected_hypothesis [ some h ↦ h.confidence | none ↦ 0 ];
  evidence_count = length s.evidence;
  hypotheses_count = length s.hypotheses;
  selected_hypothesis_title = elim s.selected_hypothesis [ some h ↦ some h.title | none ↦ none ];
  verification_status = elim s.verification [
    | some v ↦ some (recovery_name v.status)
    | none ↦ none
  ];
}

unfoldable pub get_incident : String → ℕ → Service → Option IncidentResponse
get_incident incident_id now svc = elim (lookup incident_id svc.incidents) [
  | none ↦ none
  | some s ↦ some (to_incident_response now s)
]

-- The filters of a listing.
pub record Filters : Type 0 where
  pub severity : Option String
  pub stage : Option String
  pub service : Option String

-- `if filter:`, where a filter is absent or a text
abbrev passes : Option String → (String → Bool) → Bool
passes none test = true
passes (some t) test = t == "" || test t

unfoldable pub matches : Filters → IncidentState → Bool
matches filters s =
    passes filters.severity (λ t. upper (severity_name s.severity) == upper t)
    && (passes filters.stage (λ t. upper (stage_name s.current_stage) == upper t)
        && passes filters.service (λ t. any_of (λ svc. lower t == lower svc) s.affected_services))

-- `results.sort(key=created_at, reverse=True)`, which keeps the order of incidents of the same time
unfoldable pub insert_newest : IncidentState → List IncidentState → List IncidentState
insert_newest s [] = s ∷ []
insert_newest s (t ∷ ts) =
    let later = insert_newest s ts in
    if leb t.created_at s.created_at then s ∷ t ∷ ts else t ∷ later

unfoldable pub newest_first : List IncidentState → List IncidentState
newest_first [] = []
newest_first (s ∷ ss) = insert_newest s (newest_first ss)

unfoldable pub found : Filters → Service → List IncidentState
found filters svc = newest_first (keep_if (matches filters) (values svc.incidents))

unfoldable pub list_incidents : Filters → ℕ → ℕ → ℕ → Service → List IncidentResponse
list_incidents filters limit offset now svc =
    map (to_incident_response now) (take limit (drop offset (found filters svc)))
