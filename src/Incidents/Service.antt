-- ===== src/Incidents/Service.antt =====
-- apps/api/services/incident_service.py: `IncidentService`, its incidents and the calls that it makes
-- of `event_broker.publish`, in order, as the broker's steps; its creation of incidents and its
-- approvals. The id that uuid4 draws, the clock and what pydantic's `model_dump` makes of a record are
-- parameters. Outside an event loop `create_task` raises, and nothing is scheduled: the model has a
-- loop.
pub mod Approvals
pub mod Decisions
use ops_pilot_ai.Prelude.{
  ℕ, zero, suc, ◌+◌, ◌-◌, ◌*◌, ◌/◌, ◌%◌, ◌≤◌, ◌<◌, min, max, String, ◌≡◌, refl, sym, ap, ◌∙◌, ◌≢◌,
  ◌↔◌, ◌⊎◌, inl, inr, Bool, true, false, not, ◌&&◌, ◌||◌, Option, none, some, List, [], ◌∷◌, ◌++◌,
  map, arith, eq_iff, eq_refl, ltb, leb, nat_eqb, nat_eqb_iff, if◌then◌else◌, Eq, ◌==◌, ℕ_eq,
  String_eq, Bool-cases, Option-cases, length, take, drop, head?, last?, keep_if, find_if, any_of,
  All, length-append, length-drop, All-append, All-keep_if, elem, elem-append, nodup,
}
use Prim.Native.String.{◌++◌ as ◌⧺◌}
use ops_pilot_ai.Prelude.Assoc.{Assoc, lookup, insert}
use ops_pilot_ai.Result.{Result, ok, err}
use ops_pilot_ai.Value.{Fields, field, end, str}
use ops_pilot_ai.Domain.{
  IncidentState, IncidentStage, Severity, TimelineEvent, Evidence, RemediationAction,
  RemediationPlan, ApprovalDecision, Decision, new_state,
}
use ops_pilot_ai.Domain.Names.{stage_name, action_name, tier_name, decision_name}
use ops_pilot_ai.Safety.Policy.{authorize_approval}
use ops_pilot_ai.Workflow.Update.{Update, merge}
use ops_pilot_ai.Events.Broker.{Step, published}

pub record ApprovalDecisionRequest : Type 0 where
  pub decision : Decision
  pub approver_id : String
  pub approver_role : String
  pub reason : String
  pub modified_parameters : Option Fields

pub record ApprovalRequestResponse : Type 0 where
  pub id : String
  pub incident_id : String
  pub action_id : String
  pub action_type : String
  pub target_service : String
  pub risk_level : String
  pub status : String
  pub description : String
  pub rollback_plan : String
  pub parameters : Fields
  pub created_at : ℕ
  pub responded_at : Option ℕ
  pub approver_id : Option String
  pub comment : Option String

-- What `submit_approval` returns or raises.
pub data Submission : Type 0 where
  accepted : ApprovalRequestResponse → Submission
  value_error : String → Submission
  permission_error : String → Submission

-- `model_dump(mode="json")`
pub record Dumps : Type 0 where
  pub evidence_dump : Evidence → Fields
  pub timeline_dump : TimelineEvent → Fields
  pub decision_dump : ApprovalDecision → Fields

pub record Service : Type 0 where
  pub incidents : Assoc IncidentState
  pub broadcasts : List Step

-- The state of a new incident, with the event of its creation.
abbrev pub initial_state : String → String → Severity → List String → ℕ → IncidentState
initial_state incident_id title severity affected_services now =
    record (new_state incident_id title severity affected_services now) {
      timeline =
          record {
            stage = IncidentStage.created;
            actor = "System";
            message = "Incident alert received: " ⧺ title;
          }
          ∷ [];
    }

unfoldable pub create_incident : String → String → Severity → List String → ℕ → Service → Service
create_incident incident_id title severity affected_services now svc = record svc {
  incidents =
      insert incident_id (initial_state incident_id title severity affected_services now)
        svc.incidents;
}

-- `{d.action_id: d for d in decisions}`: a later decision replaces an earlier one
unfoldable pub decisions_by_action :
    List ApprovalDecision → Assoc ApprovalDecision → Assoc ApprovalDecision
decisions_by_action [] known = known
decisions_by_action (d ∷ ds) known = decisions_by_action ds (insert d.action_id d known)

abbrev pub approval_of :
    IncidentState → String → RemediationAction → Option ApprovalDecision → ApprovalRequestResponse
approval_of s incident_id a dec = record {
  id = "appr-" ⧺ a.action_id;
  incident_id = incident_id;
  action_id = a.action_id;
  action_type = action_name a.action_type;
  target_service = a.target_service;
  risk_level = tier_name a.risk_tier;
  status = elim dec [
    | some d ↦ decision_name d.decision
    | none ↦ if a.requires_approval then "PENDING" else "AUTO_APPROVED"
  ];
  description = a.description;
  rollback_plan = a.rollback_plan;
  parameters = a.parameters;
  created_at = s.created_at;
  responded_at = elim dec [ some d ↦ some d.decided_at | none ↦ none ];
  approver_id = elim dec [ some d ↦ some d.decided_by | none ↦ none ];
  comment = elim dec [ some d ↦ some d.reason | none ↦ none ];
}

abbrev pub approvals_of :
    IncidentState
    → String
    → Assoc ApprovalDecision
    → List RemediationAction
    → List ApprovalRequestResponse
approvals_of s incident_id by_action [] = []
approvals_of s incident_id by_action (a ∷ as') =
    approval_of s incident_id a (lookup a.action_id by_action)
    ∷ approvals_of s incident_id by_action as'

unfoldable pub get_approvals : String → Service → List ApprovalRequestResponse
get_approvals incident_id svc = elim (lookup incident_id svc.incidents) [
  | none ↦ []
  | some s ↦ elim s.remediation_plan [
    | none ↦ []
    | some plan ↦
        approvals_of s incident_id (decisions_by_action s.approval_decisions []) plan.actions
  ]
]

-- The action that an approval's id names: "appr-" with the action's id, or that id.
abbrev pub find_target : String → List RemediationAction → Option RemediationAction
find_target approval_id actions =
    find_if (λ a. ("appr-" ⧺ a.action_id) == approval_id || a.action_id == approval_id) actions

abbrev pub existing_decision : String → List ApprovalDecision → Option ApprovalDecision
existing_decision action_id decisions = find_if (λ d. d.action_id == action_id) decisions

abbrev pub decide : String → ApprovalDecisionRequest → ℕ → ApprovalDecision
decide action_id request now = record {
  action_id = action_id;
  decision = request.decision;
  decided_by = request.approver_id;
  reason = request.reason;
  modified_parameters = request.modified_parameters;
  decided_at = now;
}

-- The response to a decision carries the id that the request named.
abbrev pub decided_response :
    IncidentState → String → String → RemediationAction → ApprovalDecision → ApprovalRequestResponse
decided_response s incident_id approval_id a d = record (approval_of s incident_id a (some d)) {
  id = approval_id;
}

-- The guards of `submit_approval` on the action, and the decision that it appends.
unfoldable pub decide_action :
    Dumps
    → String
    → String
    → ApprovalDecisionRequest
    → ℕ
    → IncidentState
    → RemediationAction
    → Service
    → Submission × Service
decide_action dumps incident_id approval_id request now s action svc =
    elim (existing_decision action.action_id s.approval_decisions) [
      | some d ↦ (
        value_error (
            "Action ["
            ⧺ action.action_id
            ⧺ "] was already "
            ⧺ decision_name d.decision
            ⧺ " by ["
            ⧺ d.decided_by
            ⧺ "]"),
        svc,
      )
      | none ↦
          if (authorize_approval action request.approver_role).0
          then (let d = decide action.action_id request now in
              (
                accepted (decided_response s incident_id approval_id action d),
                record svc {
                  incidents =
                      insert incident_id
                        (record s { approval_decisions = s.approval_decisions ++ d ∷ [] })
                        svc.incidents;
                  broadcasts =
                      svc.broadcasts
                      ++ published incident_id "approval_decision" (dumps.decision_dump d) ∷ [];
                },
              ))
          else (
            permission_error
                ("Authorization denied: " ⧺ (authorize_approval action request.approver_role).1),
            svc,
          )
    ]

unfoldable pub submit_approval :
    Dumps → String → String → ApprovalDecisionRequest → ℕ → Service → Submission × Service
submit_approval dumps incident_id approval_id request now svc =
    elim (lookup incident_id svc.incidents) [
      | none ↦ (value_error ("No remediation plan found for incident " ⧺ incident_id), svc)
      | some s ↦ elim s.remediation_plan [
        | none ↦ (value_error ("No remediation plan found for incident " ⧺ incident_id), svc)
        | some plan ↦ elim (find_target approval_id plan.actions) [
          | none ↦ (
            value_error ("Approval " ⧺ approval_id ⧺ " not found in incident " ⧺ incident_id),
            svc,
          )
          | some action ↦ decide_action dumps incident_id approval_id request now s action svc
        ]
      ]
    ]
