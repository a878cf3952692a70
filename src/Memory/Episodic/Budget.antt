-- ===== src/Memory/Episodic/Budget.antt =====
-- The context budget of a search.
use ops_pilot_ai.Prelude.{
  ℕ, zero, suc, ◌+◌, ◌-◌, ◌≤◌, ◌<◌, max, String, ◌≡◌, refl, ◌⊎◌, inl, inr, Bool, true, false,
  Option, List, [], ◌∷◌, arith, leb, ℕ_eq, String_eq, Bool-cases, length, take,
}
use Prim.Native.String.{count}
use text.Mathlib.TextLemmas.{length-append as count-append, length-cons, length-nil}
use ops_pilot_ai.Prelude.Text.{take_text, is_blank}
use ops_pilot_ai.Memory.Vectors.{VectorSearchResult}
use ops_pilot_ai.Memory.Episodic.{
  Manager, truncation_mark, document_text, truncated, fit_budget, search_similar_incidents,
  search_with_fallback, seed_default_memories,
}

count-take_text : (n : ℕ) (s : String) → count (take_text n s) ≤ n
unfolding take_text
count-take_text zero s = omega (arith, length-nil)
count-take_text (suc n) String.[] = omega (arith, length-nil)
count-take_text (suc n) (String.◌∷◌ c s) =
    omega (arith, length-cons c (take_text n s), count-take_text n s)

-- The characters of the documents of some results.
abbrev pub total_length : {E : Type 0} → List (VectorSearchResult E) → ℕ
total_length [] = 0
total_length (r ∷ rs) = count (document_text r) + total_length rs

abbrev pub first_length : {E : Type 0} → List (VectorSearchResult E) → ℕ
first_length [] = 0
first_length (r ∷ rs) = count (document_text r)

module _ {E : Type 0} where
  count-truncated :
      (n : ℕ) (r : VectorSearchResult E) → count (document_text (truncated n r)) ≤ n + 15
  count-truncated n r =
      let marked : count truncation_mark ≡ 15 = refl in
      omega (
        arith,
        count-append (take_text n r.document.text) truncation_mark,
        count-take_text n r.document.text,
        marked,
      )

  -- Once a result is there, the others keep to the budget, up to the least cut and its mark.
  later-bounded :
      (budget used : ℕ) (rs : List (VectorSearchResult E))
      → used + total_length (fit_budget budget true used rs) ≤ max used budget + 115
  unfolding fit_budget
  later-bounded budget used [] = omega arith
  later-bounded budget used (r ∷ rs) = ground (
    arith,
    count-truncated (max 100 (budget - used)) r,
    later-bounded budget (used + count (document_text r)) rs,
  )

  later-whole :
      (budget used : ℕ) (started : Bool) (rs : List (VectorSearchResult E))
      → used + total_length rs ≤ budget
      → fit_budget budget started used rs ≡ rs
  unfolding fit_budget
  later-whole budget used started [] h = refl
  later-whole budget used started (r ∷ rs) h =
      ground (arith, later-whole budget (used + count (document_text r)) true rs)

  length-fit_budget :
      (budget used : ℕ) (started : Bool) (rs : List (VectorSearchResult E))
      → length (fit_budget budget started used rs) ≤ length rs
  unfolding fit_budget
  length-fit_budget budget used started [] = omega arith
  length-fit_budget budget used started (r ∷ rs) =
      ground (arith, length-fit_budget budget (used + count (document_text r)) true rs)

  first-bounded :
      (budget : ℕ) (rs : List (VectorSearchResult E))
      → total_length (fit_budget budget false 0 rs)
        ≤ max (first_length (fit_budget budget false 0 rs)) budget + 115
  unfolding fit_budget
  first-bounded budget [] = omega arith
  first-bounded budget (r ∷ rs) = ground (arith, later-bounded budget (count (document_text r)) rs)

length-take {ℓ} : {A : Type ℓ} (n : ℕ) (xs : List A) → length (take n xs) ≤ n
length-take zero xs = omega arith
length-take (suc n) [] = omega arith
length-take (suc n) (x ∷ xs) = omega (arith, length-take n xs)

le_or_lt : (m n : ℕ) → (m ≤ n) ⊎ (n < m)
le_or_lt m n = elim (Bool-cases (leb m n)) [
  | inl e ↦ inl (ground (arith, e))
  | inr e ↦ inr (ground (arith, e))
]

-- A search gives at most `top_k` results. Their documents together have no more characters than the
-- budget, or than the first of them where that alone is longer, and 115 more: the least cut of 100
-- characters, and the 15 of the mark. Where the documents found keep to the budget, the search for a
-- query that is not blank gives them whole.
pub search-bounded :
    {E : Type 0} (embed : String → E) (similarity : E → E → ℕ) (query : String)
    (service : Option String) (top_k budget : ℕ) (m : Manager E)
    → let results = (search_similar_incidents embed similarity query service top_k budget m).0 in
      let found =
        search_with_fallback embed similarity query service top_k
          (seed_default_memories embed m).documents in
      (length results ≤ top_k)
      × (total_length results ≤ max (first_length results) budget + 115)
      × ((is_blank query ≡ true)
          ⊎ (budget < total_length (take top_k found))
          ⊎ (results ≡ take top_k found))
unfolding search_similar_incidents
search-bounded embed similarity query service top_k budget m = elim (Bool-cases (is_blank query)) [
  | inl e ↦ rw e (omega arith, omega arith, inl refl)
  | inr e ↦
      let found = take top_k (
        search_with_fallback embed similarity query service top_k
          (seed_default_memories embed m).documents) in
      rw e (
        omega (
          arith,
          length-fit_budget budget 0 false found,
          length-take top_k (
              search_with_fallback embed similarity query service top_k
                (seed_default_memories embed m).documents),
        ),
        first-bounded budget found,
        elim (le_or_lt (total_length found) budget) [
          | inl k ↦ inr (inr (later-whole budget 0 false found (omega (arith, k))))
          | inr k ↦ inr (inl k)
        ],
      )
]
