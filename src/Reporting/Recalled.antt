-- ===== src/Reporting/Recalled.antt =====
-- A report that is indexed, seen by later searches of the memory.
use ops_pilot_ai.Prelude.{
  ℕ, ◌<◌, String, ◌≡◌, refl, ◌≢◌, inl, inr, Bool, true, false, ◌||◌, some, List, [], ◌∷◌, ◌++◌,
  arith, eq_refl, ℕ_eq, String_eq, Bool-cases, length, any_of, All,
}
use ops_pilot_ai.Prelude.Text.{is_blank}
use ops_pilot_ai.Value.{is_text, get}
use ops_pilot_ai.Domain.{IncidentState}
use ops_pilot_ai.Memory.Vectors.{has_text, add_documents}
use ops_pilot_ai.Memory.Episodic.{
  Manager, index_postmortem, document_metadata, search_similar_incidents, seed_default_memories,
}
use ops_pilot_ai.Memory.Episodic.Found.{IsOf, is_of, IsRanked}
use ops_pilot_ai.Memory.Episodic.Recall.{Use, indexed, used, search-recalls}
use ops_pilot_ai.Reporting.{
  PostmortemReportResponse, first_service, generate_report, entry_of, auto_index_to_memory,
}

any_of-append {ℓ} :
    {A : Type ℓ} (p : A → Bool) (xs ys : List A)
    → any_of p (xs ++ ys) ≡ (any_of p xs || any_of p ys)
any_of-append p [] ys = refl
any_of-append p (x ∷ xs) ys = ground (arith, any_of-append p xs ys)

-- The metadata of an entry keeps its service.
entry-service :
    (report : PostmortemReportResponse)
    → has_text "service" report.lead_service (document_metadata (entry_of report)) ≡ true
unfolding document_metadata get is_text
entry-service report = eq_refl report.lead_service

module _ {E : Type 0} (embed : String → E) (similarity : E → E → ℕ) where
  indexed-any :
      (report : PostmortemReportResponse) (m : Manager E)
      → any_of (is_of report.lead_service) (index_postmortem embed (entry_of report) m).documents
        ≡ true
  unfolding index_postmortem add_documents
  indexed-any report m =
      rw (any_of-append (is_of report.lead_service) m.documents)
        (ground (arith, entry-service report))

  seeded-any :
      (service : String) (m : Manager E)
      → any_of (is_of service) m.documents ≡ true
      → any_of (is_of service) (seed_default_memories embed m).documents ≡ true
  unfolding seed_default_memories add_documents
  seeded-any service m h = elim (Bool-cases m.seeded) [
    | inl e ↦ rw e h
    | inr e ↦ rw e (rw (any_of-append (is_of service) m.documents) (rw h refl))
  ]

  -- Once the report of an incident is indexed in a memory that went through any uses, a search for the
  -- incident's lead service, with any query that is not blank, at least one result and any budget,
  -- gives a result, ranked results, and only such as are of that service.
  pub report_is_recalled :
      (strftime : ℕ → String) (now : ℕ) (s : IncidentState) (uses : List Use) (query : String)
      (top_k budget : ℕ)
      → is_blank query ≡ false
      → 0 < top_k
      → first_service "unknown" s.affected_services ≢ ""
      → let service = first_service "unknown" s.affected_services in
        (m : Manager E) × (auto_index_to_memory embed
            (generate_report strftime now s)
            (some (used embed similarity uses))
          ≡ some m)
        × (let results =
              (search_similar_incidents embed similarity query (some service) top_k budget m).0 in
            (0 < length results) × IsRanked results × All (IsOf service) results)
  unfolding auto_index_to_memory generate_report
  report_is_recalled strftime now s uses query top_k budget b h g =
      let report = generate_report strftime now s in
      let service = first_service "unknown" s.affected_services in
      let m = index_postmortem embed (entry_of report) (used embed similarity uses) in
      let recalled =
        search-recalls embed similarity (indexed (entry_of report) ∷ uses) query (some service)
          top_k budget b h in
      (
        m,
        refl,
        (
          recalled.0,
          recalled.1,
          recalled.2 service refl g
              (seeded-any service m (indexed-any report (used embed similarity uses))),
        ),
      )
