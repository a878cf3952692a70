-- ===== src/Tests/Memory.antt =====
-- The episodic memory and the reports at concrete inputs. A text is its own embedding, and two texts
-- are as similar as the shorter of them is long.
use ops_pilot_ai.Prelude.{
  ℕ, ◌+◌, ◌≤◌, ◌<◌, min, max, String, ◌≡◌, refl, ◌⊎◌, true, none, some, List, [], ◌∷◌, arith,
  eq_iff, ℕ_eq, String_eq, length, take, All,
}
use Prim.Native.String.{count}
use ops_pilot_ai.Prelude.Text.{is_blank, show_ℕ}
use ops_pilot_ai.Memory.Episodic.{
  Manager, new_manager, search_similar_incidents, search_with_fallback, seed_default_memories,
}
use ops_pilot_ai.Memory.Episodic.Budget.{total_length, first_length, search-bounded}
use ops_pilot_ai.Memory.Episodic.Found.{IsOf, IsRanked}
use ops_pilot_ai.Memory.Episodic.Recall.{Use, searched, used}
use ops_pilot_ai.Reporting.{generate_report, auto_index_to_memory}
use ops_pilot_ai.Reporting.Recalled.{report_is_recalled}
use ops_pilot_ai.Tests.Fixtures.{incident}

abbrev embed : String → String
embed text = text

abbrev similarity : String → String → ℕ
similarity a b = min (count a) (count b)

search-bounded_example :
    let results = (search_similar_incidents embed similarity "redis" none 2 600 new_manager).0 in
    let found =
      search_with_fallback embed similarity "redis" none 2
        (seed_default_memories embed new_manager).documents in
    (length results ≤ 2)
    × (total_length results ≤ max (first_length results) 600 + 115)
    × ((is_blank "redis" ≡ true) ⊎ (600 < total_length (take 2 found)) ⊎ (results ≡ take 2 found))
search-bounded_example = search-bounded embed similarity "redis" none 2 600 new_manager

abbrev uses : List Use
uses = searched "redis" none 3 2400 ∷ []

report_is_recalled_example :
    (m : Manager String) × (auto_index_to_memory embed
        (generate_report show_ℕ 99 incident)
        (some (used embed similarity uses))
      ≡ some m)
    × (let results =
          (search_similar_incidents embed similarity "login" (some "auth-service") 3 2400 m).0 in
        (0 < length results) × IsRanked results × All (IsOf "auth-service") results)
unfolding is_blank
report_is_recalled_example =
    report_is_recalled embed similarity show_ℕ 99 incident uses "login" 3 2400 refl (omega arith)
      (λ e. ground (arith, eq_iff "auth-service" ""))
