-- ===== src/Memory/Vectors.antt =====
-- src/memory/vector_store.py: `InMemoryVectorStore`. An embedding is a value of some type, and the
-- similarity of two, a number of small units, is a parameter: floating-point arithmetic is not
-- modelled. The filters of a search are texts, as its callers give them.
use ops_pilot_ai.Prelude.{
  ℕ, String, Bool, true, false, Option, none, some, List, [], ◌∷◌, ◌++◌, ℕ_eq, String_eq, take,
  keep_if,
}
use ops_pilot_ai.Prelude.Assoc.{Assoc}
use ops_pilot_ai.Prelude.Sorting.{sort_by, descending}
use ops_pilot_ai.Value.{Fields, get, is_text}

pub record VectorDocument (E : Type 0) : Type 0 where
  pub id : String
  pub text : String
  pub embedding : E
  pub metadata : Fields

pub record VectorSearchResult (E : Type 0) : Type 0 where
  pub document : VectorDocument E
  pub similarity_score : ℕ

-- `doc.metadata.get(k) == v` for a text `v`
abbrev pub has_text : String → String → Fields → Bool
has_text k v metadata = elim (get k metadata) [ none ↦ false | some w ↦ is_text v w ]

-- The inner loop over the filters, which breaks at the first that fails.
unfoldable pub passes_filters : Assoc String → Fields → Bool
unfolding get is_text
passes_filters [] metadata = true
passes_filters ((k, v) ∷ filters) metadata = elim (has_text k v metadata) [
  | true ↦ passes_filters filters metadata
  | false ↦ false
]

module _ {E : Type 0} where
  abbrev pub score_of : VectorSearchResult E → ℕ
  score_of r = r.similarity_score

  unfoldable pub add_documents :
      List (VectorDocument E) → List (VectorDocument E) → List (VectorDocument E)
  add_documents new documents = documents ++ new

  -- `if metadata_filters:`
  unfoldable pub candidates :
      Option (Assoc String) → List (VectorDocument E) → List (VectorDocument E)
  unfolding passes_filters
  candidates none documents = documents
  candidates (some filters) documents =
      keep_if (λ (d : VectorDocument E). passes_filters filters d.metadata) documents

module _ {E : Type 0} (similarity : E → E → ℕ) where
  unfoldable pub scored : E → List (VectorDocument E) → List (VectorSearchResult E)
  scored query_vector [] = []
  scored query_vector (doc ∷ docs) =
      record { document = doc; similarity_score = similarity query_vector doc.embedding }
      ∷ scored query_vector docs

  unfoldable pub search :
      E → ℕ → Option (Assoc String) → List (VectorDocument E) → List (VectorSearchResult E)
  unfolding scored candidates
  search query_vector limit metadata_filters documents =
      take limit (
        sort_by (descending score_of) (scored query_vector (candidates metadata_filters documents)))
