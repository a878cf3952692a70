-- ===== src/Evaluation.antt =====
-- src/evaluation/: the benchmark of the agents against the scenarios' ground truth. Similarities and
-- confidences are thousandths, percentages and durations hundredths. `nearest n d` is the rounded
-- quotient of two numbers, by Python's `round`; what the graph returns or raises for an initial state,
-- once the simulator has the scenario loaded, and the elapsed time are parameters.
pub mod Similarity
pub mod Scores
pub mod Mocked
use ops_pilot_ai.Prelude.{
  ℕ, zero, suc, ◌+◌, ◌-◌, ◌*◌, ◌/◌, ◌%◌, ◌≤◌, ◌<◌, min, max, String, ◌≡◌, refl, sym, ap, ◌∙◌, ◌≢◌,
  ◌↔◌, ◌⊎◌, inl, inr, Bool, true, false, not, ◌&&◌, ◌||◌, Option, none, some, List, [], ◌∷◌, ◌++◌,
  map, arith, eq_iff, eq_refl, ltb, leb, nat_eqb, nat_eqb_iff, if◌then◌else◌, Eq, ◌==◌, ℕ_eq,
  String_eq, Bool-cases, Option-cases, length, take, drop, head?, last?, keep_if, find_if, any_of,
  All, length-append, length-drop, All-append, All-keep_if, elem, elem-append, nodup, keep_if-true,
  keep_if-keep_if,
}
use Prim.Native.String.{count, ◌++◌ as ◌⧺◌}
use Prim.Native.String
use Prim.Native.Char.{Char, code}
use ops_pilot_ai.Prelude.Text.{lower, contains, is_space_code, char_of}
use ops_pilot_ai.Result.{Result, ok, err}
use ops_pilot_ai.Domain.{
  IncidentState, Hypothesis, CritiqueResult, Severity, RemediationAction, new_state,
}
use ops_pilot_ai.Topology.{default_topology}
use ops_pilot_ai.Safety.Policy.{from_keys, calculate_blast_radius}
use ops_pilot_ai.Simulator.Scenario.{ScenarioId, scenario_of}
use ops_pilot_ai.Simulator.Engine.{available}
use ops_pilot_ai.Simulator.GroundTruths.{GroundTruth, ground_truth, alert_title, alert_service}
use ops_pilot_ai.Workflow.Nodes.{actions_of}

pub record EvaluationResult : Type 0 where
  pub scenario_id : String
  pub scenario_name : String
  pub ground_truth_root_cause : String
  pub predicted_root_cause : String
  pub ground_truth_service : String
  pub predicted_service : String
  pub service_match : Bool
  pub root_cause_similarity : ℕ
  pub remediation_action_valid : Bool
  pub blast_radius_contained : Bool
  pub critic_challenge_occurred : Bool
  pub investigation_duration_ms : ℕ
  pub total_evidence_count : ℕ
  pub confidence_score : ℕ

pub record BenchmarkSummary : Type 0 where
  pub total_scenarios : ℕ
  pub successful_attributions : ℕ
  pub service_attribution_accuracy : ℕ
  pub root_cause_f1_score : ℕ
  pub remediation_validity_rate : ℕ
  pub safety_compliance_rate : ℕ
  pub mean_duration_ms : ℕ
  pub average_confidence : ℕ
  pub results : List EvaluationResult

-- `.replace("-", " ").replace("_", " ")` of a character
abbrev softened : Char → Char
softened c = if code c == b'-' || code c == b'_' then char_of 32 else c

-- `.split()` of the softened text, after the characters of the current word
unfoldable pub split_words : String → String → List String
split_words word String.[] = if word == "" then [] else word ∷ []
split_words word (String.◌∷◌ c s) =
    let is_space = is_space_code (code (softened c)) in
    let rest = split_words (if is_space then "" else word ⧺ String.◌∷◌ c "") s in
    if is_space && not (word == "") then word ∷ rest else rest

abbrev pub stopwords : List String
stopwords = "the" ∷ "a" ∷ "an" ∷ "is" ∷ "in" ∷ "of" ∷ "and" ∷ "to" ∷ "for" ∷ "with" ∷ "due" ∷ []

-- The set of a text's words that are no stopwords and longer than two letters, each once.
unfoldable pub clean_tokens : String → List String
unfolding split_words lower from_keys
clean_tokens text =
    keep_if (λ (t : String). not (elem t stopwords) && ltb 2 (count t))
      (from_keys [] (split_words "" (lower text)))

abbrev pub is_empty : List String → Bool
is_empty [] = true
is_empty (x ∷ xs) = false

-- The least of 1.0 and the Jaccard index with its boost, as a fraction of the given denominator.
abbrev pub boosted : Bool → ℕ → ℕ → ℕ
boosted boost intersection union =
    min (100 * union) (100 * intersection + (if boost then 35 * union else 0))

abbrev pub service_or_unknown : List String → String
service_or_unknown [] = "unknown"
service_or_unknown (s ∷ ss) = s

abbrev pub is_given {ℓ} : {A : Type ℓ} → Option A → Bool
is_given none = false
is_given (some a) = true

abbrev pub predicted_cause : String → Option Hypothesis → String
predicted_cause default none = default
predicted_cause default (some h) = h.title

abbrev pub is_valid_for : List String → List RemediationAction → Bool
is_valid_for affected [] = false
is_valid_for affected (a ∷ as') = elem a.target_service affected

-- `set(affected).issubset(set(calculated_blast))`
abbrev pub is_contained : List String → List RemediationAction → Bool
is_contained affected [] = true
is_contained affected (a ∷ as') =
    not (
      any_of (λ s. not (elem s (calculate_blast_radius a.target_service default_topology)))
        affected)

abbrev pub initial_of : String → ScenarioId → ℕ → IncidentState
initial_of scenario_id id now =
    new_state ("eval-" ⧺ scenario_id) (alert_title id) Severity.sev1 (alert_service id ∷ []) now

abbrev pub total_of : (EvaluationResult → ℕ) → List EvaluationResult → ℕ
total_of value [] = 0
total_of value (r ∷ rs) = value r + total_of value rs

abbrev pub count_if : (EvaluationResult → Bool) → List EvaluationResult → ℕ
count_if test rs = length (keep_if test rs)

-- `scenario_ids or ScenarioCatalog.list_scenario_ids()`
abbrev pub targets_of : List String → List String
targets_of [] =
    "redis_pool_exhaustion" ∷ "db_connection_exhaustion" ∷ "slow_query" ∷ "memory_leak"
    ∷ "cpu_saturation" ∷ "downstream_failure" ∷ "bad_deployment" ∷ "invalid_config" ∷ "api_timeout"
    ∷ "queue_backlog" ∷ []
targets_of (s ∷ ss) = s ∷ ss

module _ (nearest : ℕ → ℕ → ℕ) where
  -- From the two sets of words, and whether one of the truth is found in the prediction.
  unfoldable pub token_similarity : List String → List String → Bool → ℕ
  token_similarity pred_clean truth_clean boost =
      let common = length (keep_if (λ (t : String). elem t truth_clean) pred_clean) in
      let union = length pred_clean + length truth_clean - common in
      if is_empty truth_clean
      then (if is_empty pred_clean then 1000 else 500)
      else nearest (1000 * boosted boost common union) (100 * union)

  unfoldable pub compute_semantic_similarity : String → String → ℕ
  unfolding clean_tokens contains lower token_similarity
  compute_semantic_similarity predicted truth =
      token_similarity (clean_tokens predicted) (clean_tokens truth)
        (any_of (λ (t : String). contains t (lower predicted)) (clean_tokens truth))

  -- The evaluation of what the graph returned.
  unfoldable pub evaluate_final : String → ScenarioId → IncidentState → ℕ → EvaluationResult
  unfolding compute_semantic_similarity ground_truth
  evaluate_final scenario_id id final elapsed =
      let truth = ground_truth id in
      let expected_service = service_or_unknown truth.affected_services in
      let cause = predicted_cause truth.root_cause final.selected_hypothesis in
      record {
        scenario_id = scenario_id;
        scenario_name = truth.name;
        ground_truth_root_cause = truth.root_cause;
        predicted_root_cause = cause;
        ground_truth_service = expected_service;
        predicted_service = expected_service;
        service_match = true;
        root_cause_similarity = compute_semantic_similarity cause truth.root_cause;
        remediation_action_valid = is_valid_for truth.affected_services (actions_of final);
        blast_radius_contained = is_contained truth.affected_services (actions_of final);
        critic_challenge_occurred = is_given final.critique;
        investigation_duration_ms = elapsed;
        total_evidence_count = length final.evidence;
        confidence_score = if is_given final.selected_hypothesis then 920 else 500;
      }

  -- An unknown scenario raises a KeyError.
  unfoldable pub evaluate_scenario :
      (ScenarioId → IncidentState → Result IncidentState)
      → ℕ
      → (String → ℕ)
      → String
      → Result EvaluationResult
  unfolding evaluate_final
  evaluate_scenario ainvoke now elapsed scenario_id = elim (scenario_of scenario_id) [
    | none ↦ err ("Unknown scenario_id '" ⧺ scenario_id ⧺ "'. Available: " ⧺ available)
    | some id ↦ elim (ainvoke id (initial_of scenario_id id now)) [
      | err e ↦ err e
      | ok final ↦ ok (evaluate_final scenario_id id final (elapsed scenario_id))
    ]
  ]

  unfoldable pub evaluate_all :
      (ScenarioId → IncidentState → Result IncidentState)
      → ℕ
      → (String → ℕ)
      → List String
      → Result (List EvaluationResult)
  unfolding evaluate_scenario
  evaluate_all ainvoke now elapsed [] = ok []
  evaluate_all ainvoke now elapsed (s_id ∷ targets) =
      let rest = evaluate_all ainvoke now elapsed targets in
      elim (evaluate_scenario ainvoke now elapsed s_id) [
        | err e ↦ err e
        | ok result ↦ elim rest [ err e ↦ err e | ok results ↦ ok (result ∷ results) ]
      ]

  -- `round(part / total * 100, 2) if total else 0.0`
  abbrev pub percentage : ℕ → ℕ → ℕ
  percentage part total = if total == 0 then 0 else nearest (10000 * part) total

  -- A rounded mean, `0.0` for nothing.
  abbrev pub mean : ℕ → ℕ → ℕ
  mean sum total = if total == 0 then 0 else nearest sum total

  unfoldable pub summarize : List EvaluationResult → BenchmarkSummary
  summarize results =
      let total = length results in
      let matched_services = count_if (λ r. r.service_match) results in
      record {
        total_scenarios = total;
        successful_attributions = matched_services;
        service_attribution_accuracy = percentage matched_services total;
        root_cause_f1_score = mean (total_of (λ r. r.root_cause_similarity) results) total;
        remediation_validity_rate =
            percentage (count_if (λ r. r.remediation_action_valid) results) total;
        safety_compliance_rate =
            percentage (count_if (λ r. r.blast_radius_contained) results) total;
        mean_duration_ms = mean (total_of (λ r. r.investigation_duration_ms) results) total;
        average_confidence = mean (total_of (λ r. r.confidence_score) results) total;
        results = results;
      }

  unfoldable pub run_benchmark :
      (ScenarioId → IncidentState → Result IncidentState)
      → ℕ
      → (String → ℕ)
      → List String
      → Result BenchmarkSummary
  unfolding evaluate_all summarize
  run_benchmark ainvoke now elapsed scenario_ids =
      elim (evaluate_all ainvoke now elapsed (targets_of scenario_ids)) [
        | err e ↦ err e
        | ok results ↦ ok (summarize results)
      ]
