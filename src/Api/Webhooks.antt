-- ===== src/Api/Webhooks.antt =====
-- What an alert leaves for later requests.
use ops_pilot_ai.Prelude.{
  ℕ, String, ◌≡◌, refl, ◌⊎◌, inl, inr, List, [], ◌∷◌, arith, if◌then◌else◌, ◌==◌, ℕ_eq, String_eq,
}
use ops_pilot_ai.Prelude.Assoc.{lookup-insert}
use ops_pilot_ai.Incidents.Service.{Service, Dumps, initial_state, create_incident}
use ops_pilot_ai.Incidents.Listing.{to_incident_response, get_incident}
use ops_pilot_ai.Api.{
  Severity, answered, incident, Server, get_one, webhook, of_incident, ingest_alert_webhook,
  webhook_title, serve, AlertStatus, AlertWebhookPayload,
}
use ops_pilot_ai.Api.Statuses.{status_of}

get-created :
    (svc : Service) (new_id title : String) (severity : Severity) (services : List String)
    (now later : ℕ) (j : String)
    → of_incident j later (create_incident new_id title severity services now svc) (λ r. incident r)
      ≡ (if new_id == j
          then answered 200 (
              incident
                (to_incident_response later (initial_state new_id title severity services now)))
          else of_incident j later svc (λ r. incident r))
unfolding of_incident get_incident create_incident
get-created svc new_id title severity services now later j =
    rw
      (
        lookup-insert new_id j (initial_state new_id title severity services now) svc.incidents,
        of_incident,
      )
      (ground arith)

status-cases : (s : AlertStatus) → (s ≡ AlertStatus.firing) ⊎ (s ≡ AlertStatus.resolved)
status-cases AlertStatus.firing = inl refl
status-cases AlertStatus.resolved = inr refl

module _ {E : Type 0} (embed : String → E) (dumps : Dumps) (strftime : ℕ → String) where
  -- An alert is accepted with status 202. A resolved one changes nothing. After a firing one the
  -- incident of the new id is there, in the stage CREATED, with the alert's name and summary for a
  -- title, its severity and its service, and every other incident is answered as before.
  pub webhook_effect :
      (p : AlertWebhookPayload) (new_id : String) (now : ℕ) (server : Server E)
      → let (response, server') = serve embed dumps strftime (webhook p new_id now) server in
        (status_of response ≡ 202)
        × (((p.status ≡ AlertStatus.resolved) × (server' ≡ server))
            ⊎ ((p.status ≡ AlertStatus.firing)
                × ((j : String) (later : ℕ)
                    → (serve embed dumps strftime (get_one j later) server').0 ≡ (
                        if new_id == j
                        then answered 200 (
                            incident (
                              to_incident_response later (
                                initial_state new_id
                                  (webhook_title p)
                                  p.severity
                                  (p.service ∷ [])
                                  now)))
                        else (serve embed dumps strftime (get_one j later) server).0))))
  unfolding serve ingest_alert_webhook
  webhook_effect p new_id now server = elim (status-cases p.status) [
    | inl e ↦
        rw (e, ingest_alert_webhook)
          (
            refl,
            inr (
              refl,
              λ j later.
                  get-created server.service new_id (webhook_title p) p.severity (p.service ∷ [])
                    now later j,
            ),
          )
    | inr e ↦ rw (e, ingest_alert_webhook) (refl, inl (refl, refl))
  ]
