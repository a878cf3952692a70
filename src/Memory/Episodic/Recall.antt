-- ===== src/Memory/Episodic/Recall.antt =====
-- What a search recalls of the postmortems that were indexed.
use ops_pilot_ai.Prelude.{
  ℕ, ◌<◌, String, ◌≡◌, ap, ◌∙◌, ◌≢◌, inl, inr, true, false, Option, none, some, List, [], ◌∷◌,
  arith, eq_iff, ◌==◌, ℕ_eq, String_eq, Bool-cases, length, take, any_of, All, length-append,
}
use ops_pilot_ai.Memory.Episodic.{
  none, is_blank, historical_postmortems, search_similar_incidents, new_manager, add_documents,
  search_service, HistoricalPostmortem, Manager, index_postmortem, search_with_fallback,
  seed_default_memories,
}
use mathlib.Core.Path.{subst}
use ops_pilot_ai.Prelude.Assoc.{Assoc}
use ops_pilot_ai.Prelude.Sorting.{descending}
use ops_pilot_ai.Memory.Seeds.{HistoricalPostmortem, historical_postmortems}
use ops_pilot_ai.Memory.Vectors.{
  add_documents, VectorDocument, VectorSearchResult, score_of, candidates, search,
}
use ops_pilot_ai.Memory.Episodic.Found.{
  All-take, take-IsSorted, take-nonempty, List-cases, any-nonempty, search-IsRanked,
  candidates-service, search-IsOf, search-nonempty, fit_budget-All, fit_budget-IsRanked,
  fit_budget-nonempty, IsOf, is_of, IsRanked,
}

-- A use of a manager.
pub data Use : Type 0 where
  indexed : HistoricalPostmortem → Use
  searched : String → Option String → ℕ → ℕ → Use

module _ {E : Type 0} (embed : String → E) (similarity : E → E → ℕ) where
  abbrev pub use_memory : Use → Manager E → Manager E
  use_memory (indexed pm) m = index_postmortem embed pm m
  use_memory (searched query service top_k budget) m =
      (search_similar_incidents embed similarity query service top_k budget m).1

  -- A new manager after uses, the last of which stands first.
  abbrev pub used : List Use → Manager E
  used [] = new_manager
  used (u ∷ earlier) = use_memory u (used earlier)

  -- A seeded manager holds documents.
  abbrev HasSeeds : Manager E → Type 0
  HasSeeds m = m.seeded ≡ true → 0 < length m.documents

  index_postmortem-HasSeeds :
      (pm : HistoricalPostmortem) (m : Manager E) → HasSeeds (index_postmortem embed pm m)
  unfolding index_postmortem add_documents
  index_postmortem-HasSeeds pm m h = omega (arith, length-append {0})

  seed-nonempty :
      (m : Manager E) → HasSeeds m → 0 < length (seed_default_memories embed m).documents
  unfolding seed_default_memories add_documents historical_postmortems
  seed-nonempty m h = elim (Bool-cases m.seeded) [
    | inl e ↦ rw e (h e)
    | inr e ↦ rw e (omega (arith, length-append {0}))
  ]

  search-HasSeeds :
      (query : String) (service : Option String) (top_k budget : ℕ) (m : Manager E)
      → HasSeeds m
      → HasSeeds (search_similar_incidents embed similarity query service top_k budget m).1
  unfolding search_similar_incidents
  search-HasSeeds query service top_k budget m h = elim (Bool-cases (is_blank query)) [
    | inl e ↦ rw e h
    | inr e ↦ rw e (λ k. seed-nonempty m h)
  ]

  used-HasSeeds : (uses : List Use) → HasSeeds (used uses)
  used-HasSeeds [] = λ h. ground arith
  used-HasSeeds (indexed pm ∷ earlier) = index_postmortem-HasSeeds pm (used earlier)
  used-HasSeeds (searched query service top_k budget ∷ earlier) =
      search-HasSeeds query service top_k budget (used earlier) (used-HasSeeds earlier)

  service-IsRanked :
      (query : String) (service : Option String) (top_k : ℕ) (ds : List (VectorDocument E))
      → IsRanked (search_service embed similarity query service top_k ds)
  unfolding search_service
  service-IsRanked query none top_k ds = tt
  service-IsRanked query (some service) top_k ds = elim (Bool-cases (service == "")) [
    | inl e ↦ rw e tt
    | inr e ↦
        rw e (search-IsRanked similarity (embed query) top_k (some (("service", service) ∷ [])) ds)
  ]

  -- Of the service's results and all results, the former unless there are none.
  fallback-IsRanked :
      (query : String) (service : Option String) (top_k : ℕ) (ds : List (VectorDocument E))
      → IsRanked (search_with_fallback embed similarity query service top_k ds)
  unfolding search_with_fallback
  fallback-IsRanked query service top_k ds =
      elim (List-cases (search_service embed similarity query service top_k ds)) [
        | inl e ↦
            rw (e, search_with_fallback) (search-IsRanked similarity (embed query) top_k none ds)
        | inr (r, rs, e) ↦
            rw (e, search_with_fallback)
              (subst IsRanked e (service-IsRanked query service top_k ds))
      ]

  fallback-nonempty :
      (query : String) (service : Option String) (top_k : ℕ) (ds : List (VectorDocument E))
      → 0 < top_k
      → 0 < length ds
      → 0 < length (search_with_fallback embed similarity query service top_k ds)
  unfolding search_with_fallback
  fallback-nonempty query service top_k ds h k =
      elim (List-cases (search_service embed similarity query service top_k ds)) [
        | inl e ↦
            rw (e, search_with_fallback)
              (search-nonempty similarity (embed query) top_k none ds h (unfold candidates in k))
        | inr (r, rs, e) ↦ rw (e, search_with_fallback) (omega arith)
      ]

  search_service_lem :
      (query service : String) (top_k : ℕ) (ds : List (VectorDocument E))
      → service ≢ ""
      → search_service embed similarity query (some service) top_k ds
        ≡ search similarity (embed query) top_k (some (("service", service) ∷ [])) ds
  unfolding search_service
  search_service_lem query service top_k ds g = ground (arith, eq_iff service "", g)

  fallback-IsOf :
      (query service : String) (top_k : ℕ) (ds : List (VectorDocument E))
      → 0 < top_k
      → service ≢ ""
      → any_of (is_of service) ds ≡ true
      → All (IsOf service) (search_with_fallback embed similarity query (some service) top_k ds)
  unfolding search_with_fallback
  fallback-IsOf query service top_k ds h g k =
      let filters : Option (Assoc String) = some (("service", service) ∷ []) in
      let found =
        search-nonempty similarity (embed query) top_k filters ds h
          (rw (candidates-service similarity service ds) (any-nonempty (is_of service) ds k)) in
      let results = search similarity (embed query) top_k filters ds in
      elim (List-cases results) [
        | inl e ↦ absurd (omega (arith, found, ap length e))
        | inr (r, rs, e) ↦
            rw (search_service_lem query service top_k ds g ∙ e, search_with_fallback)
              (subst (λ (l : List (VectorSearchResult E)). All (IsOf service) l) e
                (search-IsOf similarity (embed query) top_k service ds))
      ]

  -- After any uses of a new manager, a search for a query that is not blank, of at least one result
  -- and with any budget, gives one, the results are ranked by similarity, and where a service is named
  -- for which there is a document, all of them are of that service.
  pub search-recalls :
      (uses : List Use) (query : String) (service : Option String) (top_k budget : ℕ)
      → is_blank query ≡ false
      → 0 < top_k
      → let results =
          (search_similar_incidents embed similarity query service top_k budget (used uses)).0 in
        (0 < length results)
        × IsRanked results
        × ((name : String)
            → service ≡ some name
            → name ≢ ""
            → any_of (is_of name) (seed_default_memories embed (used uses)).documents ≡ true
            → All (IsOf name) results)
  unfolding search_similar_incidents
  search-recalls uses query service top_k budget b h =
      let docs = (seed_default_memories embed (used uses)).documents in
      let found = search_with_fallback embed similarity query service top_k docs in
      rw b (
        fit_budget-nonempty budget (take top_k found) (
            take-nonempty top_k found h (
              fallback-nonempty query service top_k docs h
                (seed-nonempty (used uses) (used-HasSeeds uses)))),
        fit_budget-IsRanked budget false 0 (take top_k found) (
            take-IsSorted (descending score_of) top_k found
              (fallback-IsRanked query service top_k docs)),
        λ name e g k. fit_budget-All name budget false 0 (take top_k found) (
            rw e (
              All-take (IsOf name) top_k
                (search_with_fallback embed similarity query (some name) top_k docs)
                (fallback-IsOf query name top_k docs h g k))),
      )
