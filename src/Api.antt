-- ===== src/Api.antt =====
-- apps/api/routes/: the handlers of the HTTP interface, as functions of a request and the state that
-- they share. Routing, the validation of a body by its schema and its serialization are the web
-- framework's. The id that uuid4 draws, the clock and whether the database and the cache answer are
-- parts of the request. An event stream is shown by the incident to which it subscribes.
pub mod Statuses
pub mod Webhooks
pub mod Submissions
use ops_pilot_ai.Prelude.{
  ℕ, zero, suc, ◌+◌, ◌-◌, ◌*◌, ◌/◌, ◌%◌, ◌≤◌, ◌<◌, min, max, String, ◌≡◌, refl, sym, ap, ◌∙◌, ◌≢◌,
  ◌↔◌, ◌⊎◌, inl, inr, Bool, true, false, not, ◌&&◌, ◌||◌, Option, none, some, List, [], ◌∷◌, ◌++◌,
  map, arith, eq_iff, eq_refl, ltb, leb, nat_eqb, nat_eqb_iff, if◌then◌else◌, Eq, ◌==◌, ℕ_eq,
  String_eq, Bool-cases, Option-cases, length, take, drop, head?, last?, keep_if, find_if, any_of,
  All, length-append, length-drop, All-append, All-keep_if, elem, elem-append, nodup, keep_if-true,
  keep_if-keep_if,
}
use Prim.Native.String.{◌++◌ as ◌⧺◌}
use ops_pilot_ai.Prelude.Assoc.{Assoc}
use ops_pilot_ai.Result.{Result, ok, err}
use ops_pilot_ai.Value.{Fields, field, end, str, bool, obj}
use ops_pilot_ai.Domain.{Severity}
use ops_pilot_ai.Memory.Episodic.{Manager}
use ops_pilot_ai.Reporting.{PostmortemReportResponse, auto_index_to_memory}
use ops_pilot_ai.Incidents.Service.{
  Service, Dumps, Submission, accepted, value_error, permission_error, ApprovalDecisionRequest,
  ApprovalRequestResponse, initial_state, create_incident, get_approvals, submit_approval,
}
use ops_pilot_ai.Incidents.Listing.{
  IncidentResponse, Filters, to_incident_response, get_incident, list_incidents,
}
use ops_pilot_ai.Incidents.Views.{
  EvidenceResponse, HypothesisResponse, TimelineEventResponse, get_evidence, get_hypotheses,
  get_timeline, generate_postmortem_report,
}

pub record IncidentCreateRequest : Type 0 where
  pub title : String
  pub severity : Severity
  pub affected_services : List String
  pub symptoms : String
  pub auto_remediate : Bool

pub data AlertSource : Type 0 where
  prometheus datadog pagerduty custom : AlertSource

pub data AlertStatus : Type 0 where
  firing resolved : AlertStatus

pub record AlertWebhookPayload : Type 0 where
  pub source : AlertSource
  pub status : AlertStatus
  pub alert_name : String
  pub service : String
  pub severity : Severity
  pub summary : String
  pub description : String
  pub starts_at : ℕ
  pub labels : Assoc String
  pub annotations : Fields
  pub generator_url : String

-- What a handler returns: a status with a body, or the HTTPException that it raises.
pub data HttpResponse (A : Type 0) : Type 0 where
  answered : ℕ → A → HttpResponse A
  failed : ℕ → String → HttpResponse A

-- The state that the handlers share: the incidents, and the memory into which reports are indexed.
pub record Server (E : Type 0) : Type 0 where
  pub service : Service
  pub memory : Option (Manager E)

-- The bodies of the answers.
pub data Body : Type 0 where
  incident : IncidentResponse → Body
  incident_list : List IncidentResponse → Body
  evidence_list : List EvidenceResponse → Body
  hypothesis_list : List HypothesisResponse → Body
  event_list : List TimelineEventResponse → Body
  event_stream : String → Body
  approval_list : List ApprovalRequestResponse → Body
  approval : ApprovalRequestResponse → Body
  report : PostmortemReportResponse → Body
  fields : Fields → Body

abbrev pub not_found : String → HttpResponse Body
not_found incident_id = failed 404 ("Incident " ⧺ incident_id ⧺ " not found")

-- `incident = get_incident(incident_id); if not incident: raise …; return …`
unfoldable pub of_incident : String → ℕ → Service → (IncidentResponse → Body) → HttpResponse Body
unfolding get_incident
of_incident incident_id now svc body = elim (get_incident incident_id now svc) [
  | none ↦ not_found incident_id
  | some r ↦ answered 200 (body r)
]

-- The handler of exceptions around `submit_approval`.
unfoldable pub submission_response : Submission → HttpResponse Body
submission_response (accepted r) = answered 200 (approval r)
submission_response (permission_error message) = failed 403 message
submission_response (value_error message) = failed 404 message

unfoldable pub report_response : Result PostmortemReportResponse → HttpResponse Body
report_response (ok r) = answered 200 (report r)
report_response (err message) = failed 404 message

-- `payload.description or payload.summary`
abbrev pub symptoms_of : AlertWebhookPayload → String
symptoms_of payload = if payload.description == "" then payload.summary else payload.description

abbrev pub webhook_title : AlertWebhookPayload → String
webhook_title payload = payload.alert_name ⧺ ": " ⧺ payload.summary

unfoldable pub ingest_alert_webhook :
    AlertWebhookPayload → String → ℕ → Service → HttpResponse Body × Service
unfolding create_incident
ingest_alert_webhook payload incident_id now svc = elim payload.status [
  | AlertStatus.resolved ↦ (
    answered 202 (
        fields
          (field "status" (str "ignored") (field "reason" (str "Alert status is resolved") end))),
    svc,
  )
  | AlertStatus.firing ↦ (
    answered 202 (
        fields (
          field "status" (str "ingested") (
            field "incident_id" (str incident_id) (
              field "message" (str ("Autonomous investigation started for " ⧺ payload.service))
                end)))),
    create_incident incident_id (webhook_title payload) payload.severity (payload.service ∷ []) now
        svc,
  )
]

-- Only the database is required.
unfoldable pub readiness_check : Bool → Bool → HttpResponse Body
readiness_check db_ok redis_ok =
    let details =
      field "database" (str (if db_ok then "connected" else "unreachable"))
        (field "redis" (str (if redis_ok then "connected" else "unreachable")) end) in
    answered (if db_ok then 200 else 503) (
      fields (
        field "status" (str (if db_ok then "ready" else "unready")) (
          field "database" (bool db_ok)
            (field "redis" (bool redis_ok) (field "details" (obj details) end)))))

-- A request, with what its handler draws from the clock and uuid4.
pub data Request : Type 0 where
  create : IncidentCreateRequest → (new_id : String) → (now : ℕ) → Request
  list : Filters → (limit offset now : ℕ) → Request
  get_one : (incident_id : String) → (now : ℕ) → Request
  evidence_of : (incident_id : String) → (now : ℕ) → Request
  hypotheses_of : (incident_id : String) → (now : ℕ) → Request
  timeline_of : (incident_id : String) → (now : ℕ) → Request
  stream_of : (incident_id : String) → (now : ℕ) → Request
  approvals_of : (incident_id : String) → (now : ℕ) → Request
  submit : (incident_id approval_id : String) → ApprovalDecisionRequest → (now : ℕ) → Request
  get_report : (incident_id : String) → (now : ℕ) → Request
  publish_report : (incident_id : String) → (now : ℕ) → Request
  webhook : AlertWebhookPayload → (new_id : String) → (now : ℕ) → Request
  health : (environment : String) → Request
  ready : (db_ok redis_ok : Bool) → Request

module _ {E : Type 0} where
  -- An answer that changes nothing.
  abbrev pub only : HttpResponse Body → Server E → HttpResponse Body × Server E
  only response server = (response, server)

  abbrev pub with_service : Server E → HttpResponse Body × Service → HttpResponse Body × Server E
  with_service server (response, svc) = (response, record server { service = svc })

  abbrev pub with_submission : Server E → Submission × Service → HttpResponse Body × Server E
  with_submission server (submission, svc) =
      (submission_response submission, record server { service = svc })

module _ {E : Type 0} (embed : String → E) where
  -- The report is preserved in the memory once it is there.
  unfoldable pub published_report :
      Result PostmortemReportResponse → Server E → HttpResponse Body × Server E
  unfolding report_response auto_index_to_memory
  published_report (ok r) server = (
    report_response (ok r),
    record server { memory = auto_index_to_memory embed r server.memory },
  )
  published_report (err message) server = (report_response (err message), server)

  unfoldable pub serve : Dumps → (ℕ → String) → Request → Server E → HttpResponse Body × Server E
  unfolding of_incident submission_response report_response ingest_alert_webhook readiness_check
      published_report
  serve dumps strftime (create request new_id now) server = (
    answered 201 (
        incident (
          to_incident_response now
            (initial_state new_id request.title request.severity request.affected_services now))),
    record server {
      service =
          create_incident new_id request.title request.severity request.affected_services now
            server.service;
    },
  )
  serve dumps strftime (list filters limit offset now) server =
      only (answered 200 (incident_list (list_incidents filters limit offset now server.service)))
        server
  serve dumps strftime (get_one i now) server =
      only (of_incident i now server.service (λ r. incident r)) server
  serve dumps strftime (evidence_of i now) server =
      only (of_incident i now server.service (λ r. evidence_list (get_evidence i server.service)))
        server
  serve dumps strftime (hypotheses_of i now) server =
      only
        (of_incident i now server.service (λ r. hypothesis_list (get_hypotheses i server.service)))
        server
  serve dumps strftime (timeline_of i now) server =
      only (of_incident i now server.service (λ r. event_list (get_timeline i server.service)))
        server
  serve dumps strftime (stream_of i now) server =
      only (of_incident i now server.service (λ r. event_stream i)) server
  serve dumps strftime (approvals_of i now) server =
      only (of_incident i now server.service (λ r. approval_list (get_approvals i server.service)))
        server
  serve dumps strftime (submit i approval_id request now) server =
      with_submission server (submit_approval dumps i approval_id request now server.service)
  serve dumps strftime (get_report i now) server =
      only (report_response (generate_postmortem_report strftime i now server.service)) server
  serve dumps strftime (publish_report i now) server =
      published_report (generate_postmortem_report strftime i now server.service) server
  serve dumps strftime (webhook payload new_id now) server =
      with_service server (ingest_alert_webhook payload new_id now server.service)
  serve dumps strftime (health environment) server =
      only
        (answered 200 (
          fields (
            field "status" (str "ok")
              (field "environment" (str environment) (field "version" (str "0.1.0") end)))))
        server
  serve dumps strftime (ready db_ok redis_ok) server = only (readiness_check db_ok redis_ok) server
