-- ===== src/Evaluation/Similarity.antt =====
-- The similarity of a predicted and a true root cause.
use ops_pilot_ai.Prelude.{
  ℕ, ◌+◌, ◌-◌, ◌*◌, ◌≤◌, ◌<◌, String, ◌≡◌, refl, ap, inl, inr, Bool, true, false, List, [], ◌∷◌,
  arith, eq_refl, ℕ_eq, String_eq, Bool-cases, length, keep_if, length-keep_if, elem,
}
use ops_pilot_ai.Evaluation.{
  token_similarity, boosted, clean_tokens, is_empty, compute_semantic_similarity,
}

-- Rounding a quotient does not leave the integers between which it lies.
abbrev pub IsRounding : (ℕ → ℕ → ℕ) → Type 0
IsRounding nearest =
    (n d k : ℕ) → 0 < d → (n ≤ k * d → nearest n d ≤ k) × (k * d ≤ n → k ≤ nearest n d)

keep_if-elem :
    (xs ys : List String)
    → ((t : String) → elem t xs ≡ true → elem t ys ≡ true)
    → keep_if (λ (t : String). elem t ys) xs ≡ xs
keep_if-elem [] ys h = refl
keep_if-elem (x ∷ xs) ys h =
    let here = h x (ground (arith, eq_refl x)) in
    rw here (ap (λ (l : List String). x ∷ l) (keep_if-elem xs ys (λ t k. h t (ground (arith, k)))))

nonempty-length : (xs : List String) → is_empty xs ≡ false → 0 < length xs
nonempty-length [] h = ground arith
nonempty-length (x ∷ xs) h = omega arith

module _ (nearest : ℕ → ℕ → ℕ) (rounds : IsRounding nearest) where
  token_similarity-bounded :
      (pred truth : List String) (boost : Bool) → token_similarity nearest pred truth boost ≤ 1000
  unfolding token_similarity
  token_similarity-bounded pred truth boost = elim (Bool-cases (is_empty truth)) [
    | inl e ↦ rw e (ground arith)
    | inr e ↦
        let common = length (keep_if (λ (t : String). elem t truth) pred) in
        let union = length pred + length truth - common in
        let kept : common ≤ length pred = length-keep_if (λ (t : String). elem t truth) pred in
        let some_truth : 0 < length truth = nonempty-length truth e in
        rw e (
          (rounds (1000 * boosted boost common union) (100 * union) 1000
              (omega (arith, kept, some_truth))).0
            (omega arith))
  ]

  same_fraction :
      (n : ℕ) (boost : Bool) → 1000 * (100 * (n + n - n)) ≤ 1000 * boosted boost n (n + n - n)
  same_fraction n true = omega arith
  same_fraction n false = omega arith

  token_similarity-same :
      (truth : List String) (boost : Bool)
      → is_empty truth ≡ false
      → token_similarity nearest truth truth boost ≡ 1000
  unfolding token_similarity
  token_similarity-same truth boost e =
      let n = length truth in
      let positive : 0 < n = nonempty-length truth e in
      let within =
        rounds (1000 * boosted boost n (n + n - n)) (100 * (n + n - n)) 1000
          (omega (arith, positive)) in
      rw (keep_if-elem truth truth (λ t h. h), e)
        (omega (arith, within.0 (omega arith), within.1 (same_fraction n boost)))

  -- The similarity of two texts is at most 1.0, and that of a text with a proper word and itself is 1.0.
  pub similarity_lem :
      (predicted truth : String)
      → (compute_semantic_similarity nearest predicted truth ≤ 1000)
        × (is_empty (clean_tokens truth) ≡ false
            → compute_semantic_similarity nearest truth truth ≡ 1000)
  unfolding compute_semantic_similarity
  similarity_lem predicted truth = (
    token_similarity-bounded (clean_tokens predicted) (clean_tokens truth) _,
    λ h. token_similarity-same (clean_tokens truth) _ h,
  )
