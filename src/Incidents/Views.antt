-- ===== src/Incidents/Views.antt =====
-- apps/api/services/incident_service.py: the views of an incident's evidence, hypotheses, timeline and
-- report. Time stamps of audit records and the timeline's metadata are left out.
use ops_pilot_ai.Prelude.{ℕ, String, none, some, List, [], map, ℕ_eq, String_eq}
use Prim.Native.String.{◌++◌ as ◌⧺◌}
use ops_pilot_ai.Prelude.Assoc.{lookup}
use ops_pilot_ai.Result.{Result, ok, err}
use ops_pilot_ai.Value.{Fields}
use ops_pilot_ai.Domain.{Evidence, Hypothesis, TimelineEvent}
use ops_pilot_ai.Domain.Names.{evidence_type_name, stage_name}
use ops_pilot_ai.Incidents.Service.{Service}
use ops_pilot_ai.Reporting.{PostmortemReportResponse, generate_report}

pub record EvidenceResponse : Type 0 where
  pub id : String
  pub type : String
  pub source : String
  pub observation : String
  pub raw_reference : String
  pub relevance_score : ℕ
  pub metadata : Fields

pub record HypothesisResponse : Type 0 where
  pub id : String
  pub title : String
  pub description : String
  pub confidence : ℕ
  pub supporting_evidence_ids : List String
  pub contradicting_evidence_ids : List String
  pub reasoning_summary : String

pub record TimelineEventResponse : Type 0 where
  pub stage : String
  pub actor : String
  pub message : String

abbrev pub evidence_response : Evidence → EvidenceResponse
evidence_response e = record {
  id = e.id;
  type = evidence_type_name e.type;
  source = e.source;
  observation = e.observation;
  raw_reference = e.raw_reference;
  relevance_score = e.relevance_score;
  metadata = e.metadata;
}

abbrev pub hypothesis_response : Hypothesis → HypothesisResponse
hypothesis_response h = record {
  id = h.id;
  title = h.title;
  description = h.description;
  confidence = h.confidence;
  supporting_evidence_ids = h.supporting_evidence_ids;
  contradicting_evidence_ids = h.contradicting_evidence_ids;
  reasoning_summary = h.reasoning_summary;
}

abbrev pub timeline_response : TimelineEvent → TimelineEventResponse
timeline_response t = record { stage = stage_name t.stage; actor = t.actor; message = t.message }

unfoldable pub get_evidence : String → Service → List EvidenceResponse
get_evidence incident_id svc = elim (lookup incident_id svc.incidents) [
  | none ↦ []
  | some s ↦ map evidence_response s.evidence
]

unfoldable pub get_hypotheses : String → Service → List HypothesisResponse
get_hypotheses incident_id svc = elim (lookup incident_id svc.incidents) [
  | none ↦ []
  | some s ↦ map hypothesis_response s.hypotheses
]

unfoldable pub get_timeline : String → Service → List TimelineEventResponse
get_timeline incident_id svc = elim (lookup incident_id svc.incidents) [
  | none ↦ []
  | some s ↦ map timeline_response s.timeline
]

-- An unknown incident raises a ValueError.
unfoldable pub generate_postmortem_report :
    (ℕ → String) → String → ℕ → Service → Result PostmortemReportResponse
generate_postmortem_report strftime incident_id now svc = elim (lookup incident_id svc.incidents) [
  | none ↦ err ("Incident " ⧺ incident_id ⧺ " not found")
  | some s ↦ ok (generate_report strftime now s)
]
