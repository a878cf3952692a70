-- ===== src/Agents.antt =====
-- src/agents: what the agents compute around the language model. The model's answers, with the
-- read-only telemetry queries that go into its prompts, are a parameter here: a function of the
-- superstep in which it is asked and of what it is asked about, and it may raise.
pub mod Prompts
use ops_pilot_ai.Prelude.{ℕ, String, Bool, not, List, [], ◌∷◌, map, ℕ_eq, String_eq, keep_if, elem}
use Prim.Native.String.{◌++◌ as ◌⧺◌}
use ops_pilot_ai.Result.{Result, ok, err}
use ops_pilot_ai.Prelude.Text.{join}
use ops_pilot_ai.Value.Text.{repr_text}
use ops_pilot_ai.Domain.{
  IncidentState, Evidence, Hypothesis, CritiqueResult, challenge, InvestigationTask, SupervisorPlan,
  AnalystAgentOutput, RcaAgentOutput, RemediationAction, RemediationPlan, VerificationAssessment,
}
use ops_pilot_ai.Topology.{Services}
use ops_pilot_ai.Safety.Policy.{from_keys, assess_action_risk}

pub record Model : Type 0 where
  pub plan_investigation : ℕ → IncidentState → Result SupervisorPlan
  pub investigate : ℕ → InvestigationTask → Result AnalystAgentOutput
  pub analyze : ℕ → String → List Evidence → Result RcaAgentOutput
  pub critique : ℕ → Hypothesis → List Evidence → Result CritiqueResult
  pub plan_remediation : ℕ → String → Hypothesis → List String → Result RemediationPlan
  pub verify_recovery : ℕ → String → String → Result VerificationAssessment

-- `RiskPolicyEngine` with what it reads.
pub record Policy : Type 0 where
  pub sha256_hex : String → String
  pub auto_remediate_enabled : Bool
  pub topology : Services

abbrev pub ids : List Evidence → List String
ids [] = []
ids (e ∷ es) = e.id ∷ ids es

-- `cited_ids - known_evidence_ids`, in the order of citation, with an id as often as it is cited
unfoldable pub missing_ids : List String → List String → List String
missing_ids cited known = keep_if (λ c. not (elem c known)) cited

unfoldable pub list_text : List String → String
unfolding join
list_text xs = "[" ⧺ join ", " (map repr_text xs) ⧺ "]"

unfoldable pub rejection : List String → CritiqueResult
rejection missing = record {
  decision = challenge;
  critique_notes =
      "Causal claim cites fabricated or uncollected evidence IDs: "
      ⧺ list_text missing
      ⧺ ". Hypothesis rejected due to hallucinated citations.";
  counter_hypotheses = [];
  required_evidence_queries = [];
}

-- `CriticAgent.critique`: the model is asked only about a hypothesis whose citations all exist. The
-- notes name each missing id once; their order, that of a set in Python, is that of citation here.
unfoldable pub critique : Model → ℕ → Hypothesis → List Evidence → Result CritiqueResult
unfolding from_keys
critique model n hypothesis evidence =
    elim (missing_ids hypothesis.supporting_evidence_ids (ids evidence)) [
      | [] ↦ model.critique n hypothesis evidence
      | c ∷ cs ↦ ok (rejection (from_keys [] (c ∷ cs)))
    ]

abbrev pub assess_all : Policy → String → List RemediationAction → List RemediationAction
assess_all policy incident_id [] = []
assess_all policy incident_id (a ∷ as') =
    assess_action_risk policy.sha256_hex policy.auto_remediate_enabled policy.topology a incident_id
    ∷ assess_all policy incident_id as'

-- `RemediationAgent.plan_remediation`: every action of the model's plan is assessed
unfoldable pub plan_remediation :
    Model → Policy → ℕ → String → Hypothesis → List String → Result RemediationPlan
plan_remediation model policy n incident_id hypothesis target_services =
    elim (model.plan_remediation n incident_id hypothesis target_services) [
      | ok raw_plan ↦ ok (record raw_plan {
        incident_id = incident_id;
        hypothesis_id = hypothesis.id;
        actions = assess_all policy incident_id raw_plan.actions;
      })
      | err e ↦ err e
    ]
