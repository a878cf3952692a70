-- ===== src/Workflow/Mocked/Cited.antt =====
-- The evidence that the mock provider answers with to the prompts of the analysts.
use ops_pilot_ai.Prelude.{
  some, String, ◌≡◌, refl, ap, inl, inr, Bool, true, false, List, [], ◌∷◌, ◌++◌, arith, ℕ_eq,
  String_eq, Bool-cases, elem, elem-append,
}
use ops_pilot_ai.Domain.{
  IncidentState, Evidence, AnalystType, log_analyst, metrics_analyst, code_analyst, memory_analyst,
}
use ops_pilot_ai.Prelude.Text.{lower, contains, char_of}
use ops_pilot_ai.Router.Mock.{
  mentions, evidence_items, analyst_output, cited_ids, redis_hypothesis, rca_output, when_any,
  log_evidence, metric_evidence, code_evidence, memory_evidence,
}
use ops_pilot_ai.Agents.{ids, missing_ids}
use ops_pilot_ai.Agents.Prompts.{Observations, analyst_prompt, rca_prompt}
use ops_pilot_ai.Agents.Prompts.Mentions.{instruction-mentioned, intent-mentioned}
use ops_pilot_ai.Workflow.Update.{merge}
use ops_pilot_ai.Workflow.Nodes.{
  task_of, analyst_node, join_evidence_node, rca_node, select_hypothesis,
}

-- The evidence for four answers.
abbrev picked : Bool → Bool → Bool → Bool → List Evidence
picked a b c d =
    when_any a log_evidence
    ++ (when_any b metric_evidence ++ (when_any c code_evidence ++ when_any d memory_evidence))

has_metric : (a c d : Bool) → elem "EV-MET-LATENCY-02" (ids (picked a true c d)) ≡ true
has_metric true c d = refl
has_metric false c d = refl

has_code : (a b d : Bool) → elem "EV-CODE-DIFF-03" (ids (picked a b true d)) ≡ true
has_code true true d = refl
has_code true false d = refl
has_code false true d = refl
has_code false false d = refl

has_memory : (a b c : Bool) → elem "EV-MEM-HIST-04" (ids (picked a b c true)) ≡ true
has_memory true true true = refl
has_memory true true false = refl
has_memory true false true = refl
has_memory true false false = refl
has_memory false true true = refl
has_memory false true false = refl
has_memory false false true = refl
has_memory false false false = refl

module _ (prompt : String) where
  log_found :
      mentions "log" prompt ≡ true → elem "EV-LOG-REDIS-01" (ids (evidence_items prompt)) ≡ true
  unfolding evidence_items
  log_found h = rw h refl

  metric_found :
      mentions "metric" prompt ≡ true
      → elem "EV-MET-LATENCY-02" (ids (evidence_items prompt)) ≡ true
  unfolding evidence_items
  metric_found h = rw h (has_metric _ _ _)

  code_found :
      mentions "commit" prompt ≡ true → elem "EV-CODE-DIFF-03" (ids (evidence_items prompt)) ≡ true
  unfolding evidence_items
  code_found h = elim (Bool-cases (mentions "diff" prompt)) [
    | inl e ↦ rw e (has_code _ _ _)
    | inr e ↦ rw (e, h) (has_code _ _ _)
  ]

  memory_found :
      mentions "memory" prompt ≡ true → elem "EV-MEM-HIST-04" (ids (evidence_items prompt)) ≡ true
  unfolding evidence_items
  memory_found h = rw h (has_memory _ _ _)

ids-append : (xs ys : List Evidence) → ids (xs ++ ys) ≡ ids xs ++ ids ys
ids-append [] ys = refl
ids-append (x ∷ xs) ys = ap (λ (l : List String). x.id ∷ l) (ids-append xs ys)

-- An id stays known when more evidence is merged.
known-left :
    (t : String) (xs ys : List Evidence) → elem t (ids xs) ≡ true → elem t (ids (xs ++ ys)) ≡ true
known-left t xs ys h = rw (ids-append xs ys) (ground (arith, elem-append t (ids xs) (ids ys), h))

known-right :
    (t : String) (xs ys : List Evidence) → elem t (ids ys) ≡ true → elem t (ids (xs ++ ys)) ≡ true
known-right t xs ys h = rw (ids-append xs ys) (ground (arith, elem-append t (ids xs) (ids ys), h))

all_known :
    (prompt : String) (known : List String)
    → elem "EV-LOG-REDIS-01" known ≡ true
    → elem "EV-MET-LATENCY-02" known ≡ true
    → elem "EV-CODE-DIFF-03" known ≡ true
    → elem "EV-MEM-HIST-04" known ≡ true
    → missing_ids (cited_ids prompt) known ≡ []
unfolding missing_ids
all_known prompt known l m c h = elim (Bool-cases (mentions "ev-mem-hist-04" prompt)) [
  | inl e ↦ rw e (rw (l, m, c, h) refl)
  | inr e ↦ rw e (rw (l, m, c) refl)
]

-- The states that the workflow goes through, up to the critic.
abbrev pub joined : IncidentState → IncidentState
joined s = merge join_evidence_node s

module _ (seen : Observations) where
  abbrev pub found_by : AnalystType → IncidentState → IncidentState → IncidentState
  found_by agent s t =
      merge (analyst_node agent (analyst_output (analyst_prompt seen 1 (task_of agent s)))) t

  abbrev pub investigated : IncidentState → IncidentState
  investigated s =
      found_by memory_analyst s
        (found_by code_analyst s (found_by metrics_analyst s (found_by log_analyst s s)))

  abbrev pub analyzed : IncidentState → IncidentState
  analyzed s = merge (rca_node (rca_output (rca_prompt seen s.title s.evidence))) s

  pub selected :
      (s : IncidentState)
      → (analyzed s).selected_hypothesis
        ≡ some (redis_hypothesis (rca_prompt seen s.title s.evidence))
  unfolding merge rca_node rca_output redis_hypothesis select_hypothesis
  selected s = refl

  -- The prompt of each analyst at the first round.
  abbrev pub prompt_of : AnalystType → IncidentState → String
  prompt_of agent s = analyst_prompt seen 1 (task_of agent s)

  newly_known :
      (t : String) (agent : AnalystType) (s u : IncidentState)
      → elem t (ids (evidence_items (prompt_of agent s))) ≡ true
      → elem t (ids (found_by agent s u).evidence) ≡ true
  unfolding merge analyst_node analyst_output
  newly_known t agent s u h = known-right t u.evidence (evidence_items (prompt_of agent s)) h

  still_known :
      (t : String) (agent : AnalystType) (s u : IncidentState)
      → elem t (ids u.evidence) ≡ true
      → elem t (ids (found_by agent s u).evidence) ≡ true
  unfolding merge analyst_node analyst_output
  still_known t agent s u h = known-left t u.evidence (evidence_items (prompt_of agent s)) h

  abbrev pub after_log : IncidentState → IncidentState
  after_log s = found_by log_analyst s s

  abbrev pub after_metrics : IncidentState → IncidentState
  after_metrics s = found_by metrics_analyst s (after_log s)

  abbrev pub after_code : IncidentState → IncidentState
  after_code s = found_by code_analyst s (after_metrics s)

  log_known : (s : IncidentState) → elem "EV-LOG-REDIS-01" (ids (investigated s).evidence) ≡ true
  unfolding task_of mentions lower contains char_of
  log_known s =
      let id : String = "EV-LOG-REDIS-01" in
      let found =
        log_found (prompt_of log_analyst s)
          (instruction-mentioned seen 1 (task_of log_analyst s) "log" refl) in
      still_known id memory_analyst s (after_code s) (
        still_known id code_analyst s (after_metrics s)
          (still_known id metrics_analyst s (after_log s) (newly_known id log_analyst s s found)))

  metric_known :
      (s : IncidentState) → elem "EV-MET-LATENCY-02" (ids (investigated s).evidence) ≡ true
  unfolding task_of mentions lower contains char_of
  metric_known s =
      let id : String = "EV-MET-LATENCY-02" in
      let found =
        metric_found (prompt_of metrics_analyst s)
          (instruction-mentioned seen 1 (task_of metrics_analyst s) "metric" refl) in
      still_known id memory_analyst s (after_code s) (
        still_known id code_analyst s (after_metrics s)
          (newly_known id metrics_analyst s (after_log s) found))

  code_known : (s : IncidentState) → elem "EV-CODE-DIFF-03" (ids (investigated s).evidence) ≡ true
  unfolding task_of mentions lower contains char_of
  code_known s =
      let id : String = "EV-CODE-DIFF-03" in
      let found =
        code_found (prompt_of code_analyst s)
          (intent-mentioned seen 1 (task_of code_analyst s) "commit" refl) in
      still_known id memory_analyst s (after_code s)
        (newly_known id code_analyst s (after_metrics s) found)

  memory_known : (s : IncidentState) → elem "EV-MEM-HIST-04" (ids (investigated s).evidence) ≡ true
  unfolding task_of mentions lower contains char_of
  memory_known s =
      let id : String = "EV-MEM-HIST-04" in
      let found =
        memory_found (prompt_of memory_analyst s)
          (instruction-mentioned seen 1 (task_of memory_analyst s) "memory" refl) in
      newly_known id memory_analyst s (after_code s) found

  -- The state that the critic meets, and what the hypothesis cites.
  abbrev pub criticized : IncidentState → IncidentState
  criticized s = analyzed (joined (investigated s))

  kept_known :
      (t : String) (s : IncidentState)
      → elem t (ids (investigated s).evidence) ≡ true
      → elem t (ids (criticized s).evidence) ≡ true
  unfolding merge join_evidence_node rca_node
  kept_known t s h = known-left t _ [] (known-left t (investigated s).evidence [] h)

  pub none_missing :
      (prompt : String) (s : IncidentState)
      → missing_ids (redis_hypothesis prompt).supporting_evidence_ids (ids (criticized s).evidence)
        ≡ []
  unfolding redis_hypothesis
  none_missing prompt s =
      all_known prompt (ids (criticized s).evidence) (kept_known "EV-LOG-REDIS-01" s (log_known s))
        (kept_known "EV-MET-LATENCY-02" s (metric_known s))
        (kept_known "EV-CODE-DIFF-03" s (code_known s))
        (kept_known "EV-MEM-HIST-04" s (memory_known s))
