-- ===== src/Api/Statuses.antt =====
-- The statuses of the answers, and what an error leaves as it was.
use ops_pilot_ai.Prelude.{
  ℕ, String, ◌≡◌, refl, ap, ◌∙◌, inl, inr, Bool, true, false, Option, none, some, arith, leb,
  if◌then◌else◌, ℕ_eq, String_eq, Option-cases,
}
use ops_pilot_ai.Prelude.Assoc.{lookup}
use ops_pilot_ai.Result.{ok, err, Result}
use ops_pilot_ai.Incidents.Service.{
  Service, Dumps, ApprovalDecisionRequest, submit_approval, get_approvals,
}
use ops_pilot_ai.Incidents.Service.Approvals.{submit_approval-cases}
use ops_pilot_ai.Incidents.Listing.{get_incident, IncidentResponse}
use ops_pilot_ai.Incidents.Views.{
  generate_postmortem_report, get_evidence, get_hypotheses, get_timeline,
}
use ops_pilot_ai.Reporting.{PostmortemReportResponse}
use ops_pilot_ai.Api.{
  incident, evidence_list, hypothesis_list, event_list, event_stream, approval_list, webhook,
  submit, list, create, health, ready, AlertWebhookPayload, ingest_alert_webhook, published_report,
  IncidentResponse, HttpResponse, answered, failed, Body, Server, Request, get_one, evidence_of,
  hypotheses_of, timeline_of, stream_of, approvals_of, get_report, publish_report, of_incident,
  submission_response, report_response, serve,
}

abbrev pub status_of : HttpResponse Body → ℕ
status_of (answered status body) = status
status_of (failed status detail) = status

-- A status of the ranges 4xx and 5xx.
abbrev pub is_error : HttpResponse Body → Bool
is_error response = leb 400 (status_of response)

abbrev pub is_known : String → Service → Bool
is_known incident_id svc = elim (lookup incident_id svc.incidents) [ none ↦ false | some s ↦ true ]

-- The incident that a request other than a submission names.
abbrev pub incident_of : Request → Option String
incident_of (get_one i now) = some i
incident_of (evidence_of i now) = some i
incident_of (hypotheses_of i now) = some i
incident_of (timeline_of i now) = some i
incident_of (stream_of i now) = some i
incident_of (approvals_of i now) = some i
incident_of (get_report i now) = some i
incident_of (publish_report i now) = some i
incident_of _ = none

of_incident-status :
    (i : String) (now : ℕ) (svc : Service) (body : IncidentResponse → Body)
    → status_of (of_incident i now svc body) ≡ (if is_known i svc then 200 else 404)
unfolding of_incident get_incident
of_incident-status i now svc body = elim (Option-cases (lookup i svc.incidents)) [
  | inl e ↦ rw (e, of_incident, is_known) refl
  | inr (s, e) ↦ rw (e, of_incident, is_known) refl
]

report-status :
    (strftime : ℕ → String) (i : String) (now : ℕ) (svc : Service)
    → status_of (report_response (generate_postmortem_report strftime i now svc))
      ≡ (if is_known i svc then 200 else 404)
unfolding report_response generate_postmortem_report
report-status strftime i now svc = elim (Option-cases (lookup i svc.incidents)) [
  | inl e ↦ rw (e, generate_postmortem_report, is_known) refl
  | inr (s, e) ↦ rw (e, generate_postmortem_report, is_known) refl
]

-- The status that a handler finds for the incident that its request names.
named :
    {status : ℕ} (j i : String) (svc : Service)
    → Option.some j ≡ some i
    → status ≡ (if is_known j svc then 200 else 404)
    → status ≡ (if is_known i svc then 200 else 404)
named j i svc h e = ground (arith, h, e)

module _ {E : Type 0} (embed : String → E) (dumps : Dumps) (strftime : ℕ → String) where
  published-response :
      (r : Result PostmortemReportResponse) (server : Server E)
      → (published_report embed r server).0 ≡ report_response r
  unfolding published_report
  published-response (ok r) server = refl
  published-response (err message) server = refl

  published-unchanged :
      (r : Result PostmortemReportResponse) (server : Server E)
      → is_error (published_report embed r server).0 ≡ true
      → (published_report embed r server).1 ≡ server
  unfolding published_report report_response
  published-unchanged (ok r) server h = ground arith
  published-unchanged (err message) server h = refl

  published-status :
      (i : String) (now : ℕ) (server : Server E)
      → status_of (serve embed dumps strftime (publish_report i now) server).0
        ≡ (if is_known i server.service then 200 else 404)
  unfolding serve
  published-status i now server =
      ap (λ (x : HttpResponse Body). status_of x)
        (published-response (generate_postmortem_report strftime i now server.service) server)
      ∙ report-status strftime i now server.service

  -- A handler of a request that names an incident, other than a submission, answers 404 where the
  -- incident is unknown, and else 200.
  pub status_exact :
      (r : Request) (i : String) (server : Server E)
      → incident_of r ≡ some i
      → status_of (serve embed dumps strftime r server).0
        ≡ (if is_known i server.service then 200 else 404)
  unfolding serve
  status_exact (get_one j now) i server h =
      named j i server.service h (of_incident-status j now server.service (λ r. incident r))
  status_exact (evidence_of j now) i server h =
      named j i server.service h (
        of_incident-status j now server.service
          (λ r. evidence_list (get_evidence j server.service)))
  status_exact (hypotheses_of j now) i server h = named j i server.service h (
      of_incident-status j now server.service
        (λ r. hypothesis_list (get_hypotheses j server.service)))
  status_exact (timeline_of j now) i server h =
      named j i server.service h
        (of_incident-status j now server.service (λ r. event_list (get_timeline j server.service)))
  status_exact (stream_of j now) i server h =
      named j i server.service h (of_incident-status j now server.service (λ r. event_stream j))
  status_exact (approvals_of j now) i server h = named j i server.service h (
      of_incident-status j now server.service (λ r. approval_list (get_approvals j server.service)))
  status_exact (get_report j now) i server h =
      named j i server.service h (report-status strftime j now server.service)
  status_exact (publish_report j now) i server h =
      named j i server.service h (published-status j now server)
  status_exact (create q n now) i server h = cc
  status_exact (list q l o now) i server h = cc
  status_exact (submit j a q now) i server h = cc
  status_exact (webhook p n now) i server h = cc
  status_exact (health v) i server h = cc
  status_exact (ready d c) i server h = cc

  submission-unchanged :
      (i id : String) (request : ApprovalDecisionRequest) (now : ℕ) (svc : Service)
      → is_error (submission_response (submit_approval dumps i id request now svc).0) ≡ true
      → (submit_approval dumps i id request now svc).1 ≡ svc
  unfolding submission_response
  submission-unchanged i id request now svc h =
      elim (submit_approval-cases dumps i id request now svc) [
        | inl refused ↦ refused.1
        | inr acc ↦
            let accepted_status : is_error
                  (submission_response (submit_approval dumps i id request now svc).0)
                ≡ false =
              rw acc.answer refl in
            cc
      ]

  webhook-unchanged :
      (p : AlertWebhookPayload) (new_id : String) (now : ℕ) (server : Server E)
      → is_error (serve embed dumps strftime (webhook p new_id now) server).0 ≡ true
      → (serve embed dumps strftime (webhook p new_id now) server).1 ≡ server
  unfolding serve ingest_alert_webhook
  webhook-unchanged p new_id now server h = ground arith

  -- A request that is answered by an error leaves the incidents, their publications and the memory
  -- as they were.
  pub errors_change_nothing :
      (r : Request) (server : Server E)
      → is_error (serve embed dumps strftime r server).0 ≡ true
      → (serve embed dumps strftime r server).1 ≡ server
  unfolding serve
  errors_change_nothing (get_one i now) server h = refl
  errors_change_nothing (evidence_of i now) server h = refl
  errors_change_nothing (hypotheses_of i now) server h = refl
  errors_change_nothing (timeline_of i now) server h = refl
  errors_change_nothing (stream_of i now) server h = refl
  errors_change_nothing (approvals_of i now) server h = refl
  errors_change_nothing (list q l o now) server h = refl
  errors_change_nothing (health v) server h = refl
  errors_change_nothing (ready d c) server h = refl
  errors_change_nothing (get_report i now) server h = refl
  errors_change_nothing (create q n now) server h = ground arith
  errors_change_nothing (webhook p n now) server h = webhook-unchanged p n now server h
  errors_change_nothing (publish_report i now) server h =
      published-unchanged (generate_postmortem_report strftime i now server.service) server h
  errors_change_nothing (submit i id q now) server h =
      ap (λ (svc : Service). record server { service = svc })
        (submission-unchanged i id q now server.service h)
