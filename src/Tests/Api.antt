-- ===== src/Tests/Api.antt =====
-- The HTTP interface at concrete requests.
use ops_pilot_ai.Prelude.{
  ℕ, zero, suc, ◌+◌, ◌-◌, ◌*◌, ◌/◌, ◌%◌, ◌≤◌, ◌<◌, min, max, String, ◌≡◌, refl, sym, ap, ◌∙◌, ◌≢◌,
  ◌↔◌, ◌⊎◌, inl, inr, Bool, true, false, not, ◌&&◌, ◌||◌, Option, none, some, List, [], ◌∷◌, ◌++◌,
  map, arith, eq_iff, eq_refl, ltb, leb, nat_eqb, nat_eqb_iff, if◌then◌else◌, Eq, ◌==◌, ℕ_eq,
  String_eq, Bool-cases, Option-cases, length, take, drop, head?, last?, keep_if, find_if, any_of,
  All, length-append, length-drop, All-append, All-keep_if, elem, elem-append, nodup, keep_if-true,
  keep_if-keep_if,
}
use ops_pilot_ai.Prelude.Text.{show_ℕ}
use ops_pilot_ai.Value.{end}
use ops_pilot_ai.Domain.{Severity}
use ops_pilot_ai.Incidents.Service.{initial_state}
use ops_pilot_ai.Incidents.Listing.{to_incident_response}
use ops_pilot_ai.Api.{
  Server, AlertWebhookPayload, AlertSource, AlertStatus, answered, incident, get_one, submit,
  webhook, webhook_title, serve,
}
use ops_pilot_ai.Api.Statuses.{status_of, is_known, status_exact, errors_change_nothing}
use ops_pilot_ai.Api.Submissions.{IsOpen, may_decide, submit_status}
use ops_pilot_ai.Api.Webhooks.{webhook_effect}
use ops_pilot_ai.Tests.Incidents.{dumps, service, approval}

abbrev embed : String → String
embed text = text

abbrev server : Server String
server = record { service = service; memory = none }

status_exact_example :
    status_of (serve embed dumps show_ℕ (get_one "inc-1" 9) server).0
    ≡ (if is_known "inc-1" service then 200 else 404)
status_exact_example = status_exact embed dumps show_ℕ (get_one "inc-1" 9) "inc-1" server refl

errors_change_nothing_example :
    (serve embed dumps show_ℕ (submit "inc-1" "appr-zz" approval 9) server).1 ≡ server
unfolding serve ops_pilot_ai.Incidents.Service.submit_approval ops_pilot_ai.Prelude.Assoc.lookup
errors_change_nothing_example =
    errors_change_nothing embed dumps show_ℕ (submit "inc-1" "appr-zz" approval 9) server refl

abbrev alert : AlertWebhookPayload
alert = record {
  source = AlertSource.prometheus;
  status = AlertStatus.firing;
  alert_name = "HighErrors";
  service = "auth-service";
  severity = Severity.sev2;
  summary = "5xx";
  description = "";
  starts_at = 3;
  labels = [];
  annotations = end;
  generator_url = "";
}

webhook_effect_example :
    let (response, server') = serve embed dumps show_ℕ (webhook alert "inc-9" 4) server in
    (status_of response ≡ 202)
    × (((alert.status ≡ AlertStatus.resolved) × (server' ≡ server))
        ⊎ ((alert.status ≡ AlertStatus.firing)
            × ((j : String) (later : ℕ)
                → (serve embed dumps show_ℕ (get_one j later) server').0 ≡ (
                    if "inc-9" == j
                    then answered 200 (
                        incident (
                          to_incident_response later (
                            initial_state "inc-9"
                              (webhook_title alert)
                              Severity.sev2
                              ("auth-service" ∷ [])
                              4)))
                    else (serve embed dumps show_ℕ (get_one j later) server).0))))
webhook_effect_example = webhook_effect embed dumps show_ℕ alert "inc-9" 4 server

submit_status_example :
    let status =
      status_of (serve embed dumps show_ℕ (submit "inc-1" "appr-a1" approval 9) server).0 in
    ((o : IsOpen "inc-1" "appr-a1" service) × (status
        ≡ (if may_decide approval o then 200 else 403)))
    ⊎ ((¬ IsOpen "inc-1" "appr-a1" service) × (status ≡ 404))
submit_status_example = submit_status embed dumps show_ℕ "inc-1" "appr-a1" approval 9 server
