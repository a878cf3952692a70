-- ===== src/Memory/Episodic/Found.antt =====
-- What a search of the vector store finds, and what the budget keeps of it.
use ops_pilot_ai.Prelude.{
  ℕ, zero, suc, ◌+◌, ◌<◌, String, ◌≡◌, refl, ◌⊎◌, inl, inr, Bool, true, false, ◌&&◌, Option, some,
  List, [], ◌∷◌, arith, ltb, ℕ_eq, String_eq, Bool-cases, length, take, keep_if, any_of, All,
}
use ops_pilot_ai.Memory.Episodic.{document_text, fit_budget}
use Prim.Native.String.{count}
use ops_pilot_ai.Prelude.Assoc.{Assoc}
use ops_pilot_ai.Prelude.Sorting.{
  sort_by, descending, descending-TotalOrder, IsSorted, IsBefore, sort_by-IsSorted, All-sort_by,
  length-sort_by,
}
use ops_pilot_ai.Memory.Vectors.{
  VectorDocument, VectorSearchResult, score_of, has_text, passes_filters, candidates, scored,
  search,
}

module _ {ℓ} {A : Type ℓ} where
  pub All-take {κ} : (P : A → Type κ) (n : ℕ) (xs : List A) → All P xs → All P (take n xs)
  All-take P zero xs h = tt
  All-take P (suc n) [] h = h
  All-take P (suc n) (x ∷ xs) h = (h.0, All-take P n xs h.1)

  pub take-IsSorted :
      (before : A → A → Bool) (n : ℕ) (xs : List A)
      → IsSorted before xs
      → IsSorted before (take n xs)
  take-IsSorted before zero xs h = tt
  take-IsSorted before (suc n) [] h = h
  take-IsSorted before (suc n) (x ∷ xs) h =
      (All-take (λ y. before x y ≡ true) n xs h.0, take-IsSorted before n xs h.1)

  pub take-nonempty : (n : ℕ) (xs : List A) → 0 < n → 0 < length xs → 0 < length (take n xs)
  take-nonempty zero xs h k = h
  take-nonempty (suc n) [] h k = k
  take-nonempty (suc n) (x ∷ xs) h k = omega arith

  pub List-cases : (xs : List A) → (xs ≡ []) ⊎ ((x : A) × (rest : List A) × (xs ≡ x ∷ rest))
  List-cases [] = inl refl
  List-cases (x ∷ xs) = inr (x, xs, refl)

  pub any-nonempty : (p : A → Bool) (xs : List A) → any_of p xs ≡ true → 0 < length (keep_if p xs)
  any-nonempty p [] h = ground arith
  any-nonempty p (x ∷ xs) h = ground (arith, any-nonempty p xs)

-- The result stands for a document of the service.
abbrev pub IsOf : {E : Type 0} → String → VectorSearchResult E → Type 0
IsOf service r = has_text "service" service r.document.metadata ≡ true

abbrev pub is_of : {E : Type 0} → String → VectorDocument E → Bool
is_of service d = has_text "service" service d.metadata

-- The most similar first.
abbrev pub IsRanked : {E : Type 0} → List (VectorSearchResult E) → Type 0
IsRanked rs = IsSorted (descending score_of) rs

module _ {E : Type 0} (similarity : E → E → ℕ) where
  pub All-scored :
      (q : E) (service : String) (ds : List (VectorDocument E))
      → All (IsOf service) (scored similarity q (keep_if (is_of service) ds))
  unfolding scored
  All-scored q service [] = tt
  All-scored q service (d ∷ ds) = elim (Bool-cases (is_of service d)) [
    | inl e ↦ rw e (e, All-scored q service ds)
    | inr e ↦ rw e (All-scored q service ds)
  ]

  pub length-scored :
      (q : E) (ds : List (VectorDocument E)) → length (scored similarity q ds) ≡ length ds
  unfolding scored
  length-scored q [] = omega arith
  length-scored q (d ∷ ds) = omega (arith, length-scored q ds)

  pub search-IsRanked :
      (q : E) (limit : ℕ) (filters : Option (Assoc String)) (ds : List (VectorDocument E))
      → IsRanked (search similarity q limit filters ds)
  unfolding search
  search-IsRanked q limit filters ds =
      let all = scored similarity q (candidates filters ds) in
      take-IsSorted (descending score_of) limit (sort_by (descending score_of) all)
        (sort_by-IsSorted (descending-TotalOrder score_of) all)

  pub candidates-service :
      (service : String) (ds : List (VectorDocument E))
      → candidates (some (("service", service) ∷ [])) ds ≡ keep_if (is_of service) ds
  unfolding candidates passes_filters
  candidates-service service [] = refl
  candidates-service service (d ∷ ds) = ground (arith, candidates-service service ds)

  pub search-IsOf :
      (q : E) (limit : ℕ) (service : String) (ds : List (VectorDocument E))
      → All (IsOf service) (search similarity q limit (some (("service", service) ∷ [])) ds)
  unfolding search
  search-IsOf q limit service ds =
      let found = scored similarity q (keep_if (is_of service) ds) in
      rw (candidates-service service ds) (
        All-take (IsOf service) limit (sort_by (descending score_of) found)
          (All-sort_by (descending score_of) (IsOf service) found (All-scored q service ds)))

  pub search-nonempty :
      (q : E) (limit : ℕ) (filters : Option (Assoc String)) (ds : List (VectorDocument E))
      → 0 < limit
      → 0 < length (candidates filters ds)
      → 0 < length (search similarity q limit filters ds)
  unfolding search
  search-nonempty q limit filters ds h k =
      let all = scored similarity q (candidates filters ds) in
      take-nonempty limit (sort_by (descending score_of) all) h (
        omega (
          arith,
          length-sort_by (descending score_of) all,
          length-scored q (candidates filters ds),
          k,
        ))

module _ {E : Type 0} where
  -- The budget cuts texts, and nothing else.
  pub fit_budget-All :
      (service : String) (budget : ℕ) (started : Bool) (used : ℕ) (rs : List (VectorSearchResult E))
      → All (IsOf service) rs
      → All (IsOf service) (fit_budget budget started used rs)
  unfolding fit_budget
  fit_budget-All service budget started used [] h = tt
  fit_budget-All service budget started used (r ∷ rs) h =
      elim (Bool-cases (ltb budget (used + count (document_text r)) && started)) [
        | inl e ↦ rw e (h.0, tt)
        | inr e ↦
            rw e (h.0, fit_budget-All service budget true (used + count (document_text r)) rs h.1)
      ]

  pub fit_budget-IsBefore :
      (s : VectorSearchResult E) (budget : ℕ) (started : Bool) (used : ℕ)
      (rs : List (VectorSearchResult E))
      → IsBefore (descending score_of) s rs
      → IsBefore (descending score_of) s (fit_budget budget started used rs)
  unfolding fit_budget
  fit_budget-IsBefore s budget started used [] h = tt
  fit_budget-IsBefore s budget started used (r ∷ rs) h =
      elim (Bool-cases (ltb budget (used + count (document_text r)) && started)) [
        | inl e ↦ rw e (h.0, tt)
        | inr e ↦
            rw e (h.0, fit_budget-IsBefore s budget true (used + count (document_text r)) rs h.1)
      ]

  pub fit_budget-IsRanked :
      (budget : ℕ) (started : Bool) (used : ℕ) (rs : List (VectorSearchResult E))
      → IsRanked rs
      → IsRanked (fit_budget budget started used rs)
  unfolding fit_budget
  fit_budget-IsRanked budget started used [] h = tt
  fit_budget-IsRanked budget started used (r ∷ rs) h =
      let later = used + count (document_text r) in
      elim (Bool-cases (ltb budget (used + count (document_text r)) && started)) [
        | inl e ↦ rw e (tt, tt)
        | inr e ↦ rw e (
          fit_budget-IsBefore r budget true later rs h.0,
          fit_budget-IsRanked budget true later rs h.1,
        )
      ]

  pub fit_budget-nonempty :
      (budget : ℕ) (rs : List (VectorSearchResult E))
      → 0 < length rs
      → 0 < length (fit_budget budget false 0 rs)
  unfolding fit_budget
  fit_budget-nonempty budget [] h = h
  fit_budget-nonempty budget (r ∷ rs) h = ground arith
