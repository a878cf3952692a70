-- ===== src/Evaluation/Scores.antt =====
-- What the scores of the benchmark can be.
use ops_pilot_ai.Prelude.{
  length-keep_if, ℕ, suc, ◌*◌, ◌≤◌, ◌<◌, String, ◌≡◌, refl, sym, ap, ◌∙◌, inl, inr, true, false,
  List, [], ◌∷◌, arith, ◌==◌, ℕ_eq, String_eq, Bool-cases, Option-cases, length, All,
}
use ops_pilot_ai.Result.{Result, Result-cases, ok, err}
use ops_pilot_ai.Domain.{IncidentState}
use ops_pilot_ai.Simulator.Scenario.{ScenarioId, scenario_of}
use ops_pilot_ai.Simulator.GroundTruths.{ground_truth}
use mathlib.Core.Path.{subst}
use Prim.Native.String.{◌++◌ as ◌⧺◌}
use ops_pilot_ai.Simulator.Engine.{available}
use ops_pilot_ai.Evaluation.{
  initial_of, predicted_cause, evaluate_final, evaluate_scenario, total_of, count_if, percentage,
  mean, summarize, targets_of, run_benchmark, BenchmarkSummary, EvaluationResult, evaluate_all,
}
use ops_pilot_ai.Evaluation.Similarity.{IsRounding, similarity_lem}

pub not_ok : {A : Type 0} {r : Result A} {a : A} {e : String} → r ≡ ok a → ¬ (r ≡ err e)
not_ok h k = ground (arith, h, k)

ok_inj : {A : Type 0} {a b : A} → ◌≡◌ {A = Result A} (ok a) (ok b) → a ≡ b
ok_inj {A} {a} h = ap (value_or a) h
  where
    value_or : A → Result A → A
    value_or a (ok b) = b
    value_or a (err e) = a

-- The constraints that the summary's type puts on its fields, and a service attribution of 100%.
abbrev pub IsFullScore : BenchmarkSummary → Type 0
IsFullScore summary =
    (0 < summary.total_scenarios)
    × (summary.successful_attributions ≡ summary.total_scenarios)
    × (summary.service_attribution_accuracy ≡ 10000)
    × (summary.remediation_validity_rate ≤ 10000)
    × (summary.safety_compliance_rate ≤ 10000)
    × (summary.root_cause_f1_score ≤ 1000)
    × (summary.average_confidence ≤ 1000)

module _ (nearest : ℕ → ℕ → ℕ) (rounds : IsRounding nearest) where
  -- What holds of every evaluation.
  abbrev IsScored : EvaluationResult → Type 0
  IsScored r =
      (r.service_match ≡ true) × (r.root_cause_similarity ≤ 1000) × (r.confidence_score ≤ 1000)

  empty_run :
      (results : List EvaluationResult)
      → ◌≡◌ {A = Result (List EvaluationResult)} (ok []) (ok results)
      → All IsScored results × (length results ≡ 0)
  empty_run [] h = (tt, refl)
  empty_run (r ∷ rs) h = absurd (ground arith)

  evaluate_final-IsScored :
      (scenario_id : String) (id : ScenarioId) (final : IncidentState) (elapsed : ℕ)
      → IsScored (evaluate_final nearest scenario_id id final elapsed)
  unfolding evaluate_final
  evaluate_final-IsScored scenario_id id final elapsed = (
    refl,
    (similarity_lem nearest rounds
        (predicted_cause (ground_truth id).root_cause final.selected_hypothesis)
        (ground_truth id).root_cause).0,
    ground arith,
  )

  evaluate_scenario-IsScored :
      (ainvoke : ScenarioId → IncidentState → Result IncidentState) (now : ℕ) (elapsed : String → ℕ)
      (t : String) (r : EvaluationResult)
      → evaluate_scenario nearest ainvoke now elapsed t ≡ ok r
      → IsScored r
  unfolding evaluate_scenario
  evaluate_scenario-IsScored ainvoke now elapsed t r h = elim (Option-cases (scenario_of t)) [
    | inl e ↦ absurd (
        not_ok {e = "Unknown scenario_id '" ⧺ t ⧺ "'. Available: " ⧺ available} h
          (rw (e, evaluate_scenario) refl))
    | inr (id, e) ↦ elim (Result-cases (ainvoke id (initial_of t id now))) [
      | inl (final, k) ↦
          let found : ◌≡◌ {A = Result EvaluationResult} (ok r)
              (ok (evaluate_final nearest t id final (elapsed t))) =
            sym h ∙ rw (e, evaluate_scenario) (rw k refl) in
          subst IsScored (sym (ok_inj found)) (evaluate_final-IsScored t id final (elapsed t))
      | inr (x, k) ↦ absurd (not_ok {e = x} h (rw (e, evaluate_scenario) (rw k refl)))
    ]
  ]

  evaluate_all-IsScored :
      (ainvoke : ScenarioId → IncidentState → Result IncidentState) (now : ℕ) (elapsed : String → ℕ)
      (targets : List String) (results : List EvaluationResult)
      → evaluate_all nearest ainvoke now elapsed targets ≡ ok results
      → All IsScored results × (length results ≡ length targets)
  unfolding evaluate_all
  evaluate_all-IsScored ainvoke now elapsed [] results h = empty_run results h
  evaluate_all-IsScored ainvoke now elapsed (t ∷ ts) results h =
      elim (Result-cases (evaluate_scenario nearest ainvoke now elapsed t)) [
        | inr (e, he) ↦ absurd (not_ok {e = e} h (rw (he, evaluate_all) refl))
        | inl (r, hr) ↦ elim (Result-cases (evaluate_all nearest ainvoke now elapsed ts)) [
          | inr (e, he) ↦ absurd (not_ok {e = e} h (rw (hr, evaluate_all) (rw he refl)))
          | inl (rs, hrs) ↦
              let ih = evaluate_all-IsScored ainvoke now elapsed ts rs hrs in
              let found : ◌≡◌ {A = Result (List EvaluationResult)} (ok results) (ok (r ∷ rs)) =
                sym h ∙ rw (hr, evaluate_all) (rw hrs refl) in
              subst (λ (l : List EvaluationResult). All IsScored l × (length l ≡ suc (length ts)))
                (sym (ok_inj found))
                ((evaluate_scenario-IsScored ainvoke now elapsed t r hr, ih.0), ap suc ih.1)
        ]
      ]

  total_of-bounded :
      (value : EvaluationResult → ℕ) (rs : List EvaluationResult)
      → All (λ r. value r ≤ 1000) rs
      → total_of value rs ≤ 1000 * length rs
  total_of-bounded value [] h = omega arith
  total_of-bounded value (r ∷ rs) h = omega (arith, h.0, total_of-bounded value rs h.1)

  All-map {κ λ'} :
      (P : EvaluationResult → Type κ) (Q : EvaluationResult → Type λ') (rs : List EvaluationResult)
      → ((r : EvaluationResult) → P r → Q r)
      → All P rs
      → All Q rs
  All-map P Q [] f h = tt
  All-map P Q (r ∷ rs) f h = (f r h.0, All-map P Q rs f h.1)

  every_matched :
      (rs : List EvaluationResult)
      → All (λ r. r.service_match ≡ true) rs
      → count_if (λ r. r.service_match) rs ≡ length rs
  every_matched [] h = refl
  every_matched (r ∷ rs) h = rw h.0 (ap suc (every_matched rs h.1))

  percentage-bounded : (part total : ℕ) → part ≤ total → percentage nearest part total ≤ 10000
  percentage-bounded part total h = elim (Bool-cases (total == 0)) [
    | inl e ↦ rw e (omega arith)
    | inr e ↦ rw e ((rounds (10000 * part) total 10000 (ground (arith, e))).0 (omega (arith, h)))
  ]

  percentage-full : (total : ℕ) → 0 < total → percentage nearest total total ≡ 10000
  percentage-full total h =
      let e : (total == 0) ≡ false = ground (arith, h) in
      let within = rounds (10000 * total) total 10000 h in
      rw e (omega (arith, within.0 (omega arith), within.1 (omega arith)))

  mean-bounded : (sum total : ℕ) → sum ≤ 1000 * total → mean nearest sum total ≤ 1000
  mean-bounded sum total h = elim (Bool-cases (total == 0)) [
    | inl e ↦ rw e (omega arith)
    | inr e ↦ rw e ((rounds sum total 1000 (ground (arith, e))).0 h)
  ]

  summarize-IsFullScore :
      (rs : List EvaluationResult)
      → All IsScored rs
      → 0 < length rs
      → IsFullScore (summarize nearest rs)
  unfolding summarize
  summarize-IsFullScore rs h n =
      let matched =
        every_matched rs (All-map IsScored (λ r. r.service_match ≡ true) rs (λ r k. k.0) h) in
      (
        n,
        matched,
        rw matched (percentage-full (length rs) n),
        percentage-bounded (count_if (λ r. r.remediation_action_valid) rs) (length rs)
            (length-keep_if (λ (r : EvaluationResult). r.remediation_action_valid) rs),
        percentage-bounded (count_if (λ r. r.blast_radius_contained) rs) (length rs)
            (length-keep_if (λ (r : EvaluationResult). r.blast_radius_contained) rs),
        mean-bounded (total_of (λ r. r.root_cause_similarity) rs) (length rs) (
            total_of-bounded (λ r. r.root_cause_similarity) rs
              (All-map IsScored (λ r. r.root_cause_similarity ≤ 1000) rs (λ r k. k.1) h)),
        mean-bounded (total_of (λ r. r.confidence_score) rs) (length rs) (
            total_of-bounded (λ r. r.confidence_score) rs
              (All-map IsScored (λ r. r.confidence_score ≤ 1000) rs (λ r k. k.2) h)),
      )

  targets-nonempty : (ids : List String) → 0 < length (targets_of ids)
  targets-nonempty [] = omega arith
  targets-nonempty (s ∷ ss) = omega arith

  -- Whatever the graph returns for each scenario, a benchmark that yields a summary evaluated at least
  -- one scenario, attributes every one to its service, with an accuracy of 100%, and its other rates,
  -- the similarity and the confidence keep to the ranges that the summary's type allows.
  pub benchmark_scores :
      (ainvoke : ScenarioId → IncidentState → Result IncidentState) (now : ℕ) (elapsed : String → ℕ)
      (scenario_ids : List String) (summary : BenchmarkSummary)
      → run_benchmark nearest ainvoke now elapsed scenario_ids ≡ ok summary
      → IsFullScore summary
  unfolding run_benchmark
  benchmark_scores ainvoke now elapsed scenario_ids summary h =
      elim (Result-cases (evaluate_all nearest ainvoke now elapsed (targets_of scenario_ids))) [
        | inr (e, k) ↦ absurd (not_ok {e = e} h (rw (k, run_benchmark) refl))
        | inl (rs, k) ↦
            let scored = evaluate_all-IsScored ainvoke now elapsed (targets_of scenario_ids) rs k in
            let found : ◌≡◌ {A = Result BenchmarkSummary} (ok summary) (ok (summarize nearest rs)) =
              sym h ∙ rw (k, run_benchmark) refl in
            subst IsFullScore (sym (ok_inj found)) (
              summarize-IsFullScore rs scored.0
                (omega (arith, scored.1, targets-nonempty scenario_ids)))
      ]
