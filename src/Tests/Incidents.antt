-- ===== src/Tests/Incidents.antt =====
-- The incident service at concrete inputs.
use ops_pilot_ai.Prelude.Text.{lower}
use ops_pilot_ai.Events.Broker.{events_for}
use ops_pilot_ai.Safety.Policy.{authorize_approval}
use ops_pilot_ai.Prelude.Assoc.{lookup}
use ops_pilot_ai.Prelude.{
  arith, List, String, ◌≡◌, refl, ◌⊎◌, Bool, false, ◌&&◌, none, some, [], ◌∷◌, map, ℕ_eq, String_eq,
  All,
}
use ops_pilot_ai.Incidents.Listing.{
  IncidentResponse, Filters, found, matches, list_incidents, newest_first, insert_newest,
  to_incident_response,
}
use ops_pilot_ai.Incidents.Listing.Pages.{IsNewestFirst, count, found_exact, pages, pages_exact}
use ops_pilot_ai.Value.{end}
use ops_pilot_ai.Domain.{IncidentState, Decision, IncidentStage}
use ops_pilot_ai.Workflow.Update.{merge, Update, no_update}
use ops_pilot_ai.Incidents.Service.{
  decide_action, Service, Dumps, ApprovalDecisionRequest, ApprovalRequestResponse, value_error,
  submit_approval, get_approvals, decided_response, decide,
}
use ops_pilot_ai.Incidents.Investigation.{
  submitted, began, run_investigation, perform_all, new_service,
}
use ops_pilot_ai.Incidents.Service.Approvals.{IsRefused, IsAccepted, submit_approval-cases}
use ops_pilot_ai.Incidents.Service.Decisions.{Listed, Tells, submit-get_approvals, submit_once}
use ops_pilot_ai.Incidents.Investigation.Invariant.{IsDecidedOnce, decided_once}
use ops_pilot_ai.Incidents.Investigation.Endings.{ends, terminal_iff}
use ops_pilot_ai.Tests.Fixtures.{planned_incident, clearing}

abbrev pub dumps : Dumps
dumps = record { evidence_dump = λ e. end; timeline_dump = λ t. end; decision_dump = λ d. end }

abbrev pub service : Service
service = record { incidents = ("inc-1", planned_incident) ∷ []; broadcasts = [] }

abbrev pub request_of : Decision → String → ApprovalDecisionRequest
request_of decision role = record {
  decision = decision;
  approver_id = "ann";
  approver_role = role;
  reason = "ok";
  modified_parameters = none;
}

abbrev pub approval : ApprovalDecisionRequest
approval = request_of Decision.approved "OPERATOR"

abbrev response : ApprovalRequestResponse
response = decided_response planned_incident "inc-1" "appr-a1" clearing (decide "a1" approval 9)

submit_approval-cases_example :
    IsRefused service (submit_approval dumps "inc-1" "appr-a1" approval 9 service)
    ⊎ IsAccepted dumps "inc-1" "appr-a1" approval 9 service
        (submit_approval dumps "inc-1" "appr-a1" approval 9 service)
submit_approval-cases_example = submit_approval-cases dumps "inc-1" "appr-a1" approval 9 service

submit-get_approvals_example :
    let shown =
      get_approvals "inc-1" (submit_approval dumps "inc-1" "appr-a1" approval 9 service).1 in
    Listed "a1" shown × All (Tells (decide "a1" approval 9)) shown
unfolding submit_approval lookup decide_action authorize_approval
submit-get_approvals_example =
    submit-get_approvals dumps "inc-1" "appr-a1" approval 9 service response refl

submit_once_example :
    let svc' = (submit_approval dumps "inc-1" "appr-a1" approval 9 service).1 in
    submit_approval dumps "inc-1" "appr-a1" (request_of Decision.rejected "ADMIN") 10 svc'
    ≡ (value_error "Action [a1] was already APPROVED by [ann]", svc')
unfolding submit_approval lookup decide_action authorize_approval
submit_once_example =
    submit_once dumps "inc-1" "appr-a1" approval (request_of Decision.rejected "ADMIN") 9 10 service
      response refl

decided_once_example :
    IsDecidedOnce
      (perform_all dumps (began "inc-1" ∷ submitted "inc-1" "appr-a1" approval 9 ∷ []) new_service)
decided_once_example =
    decided_once dumps (began "inc-1" ∷ submitted "inc-1" "appr-a1" approval 9 ∷ [])

abbrev failing : Update
failing = record no_update { current_stage = some IncidentStage.failed }

terminal_iff_example :
    ends "inc-1"
      (run_investigation dumps "inc-1"
        (("verification", failing) ∷ [])
        none
        none
        service).broadcasts
    ≡ false
unfolding merge lookup events_for
terminal_iff_example =
    terminal_iff dumps "inc-1" (("verification", failing) ∷ []) none none planned_incident service
      refl refl

abbrev older : IncidentState
older = record planned_incident { incident_id = "inc-0"; created_at = 3 }

abbrev two_incidents : Service
two_incidents = record {
  incidents = ("inc-0", older) ∷ ("inc-1", planned_incident) ∷ [];
  broadcasts = [];
}

abbrev by_service : Filters
by_service = record { severity = none; stage = none; service = some "AUTH-service" }

found_exact_example :
    IsNewestFirst (found by_service two_incidents)
    × ((p : IncidentState → Bool)
        → count p (found by_service two_incidents)
          ≡ count (λ s. matches by_service s && p s) (older ∷ planned_incident ∷ []))
found_exact_example = found_exact by_service two_incidents

pages_exact_example :
    (listed : List IncidentState) × (pages by_service 1 2 0 9 two_incidents
      ≡ map (to_incident_response 9) listed)
    × IsNewestFirst listed
    × ((p : IncidentState → Bool)
        → count p listed ≡ count (λ s. matches by_service s && p s) (older ∷ planned_incident ∷ []))
pages_exact_example = pages_exact by_service 1 2 9 two_incidents (omega arith)

-- The newer incident is listed first.
listing_test :
    map IncidentResponse.id (list_incidents by_service 5 0 9 two_incidents) ≡ "inc-1" ∷ "inc-0" ∷ []
unfolding list_incidents found newest_first insert_newest matches to_incident_response lower
listing_test = refl
