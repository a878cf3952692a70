-- ===== src/Memory/Episodic.antt =====
-- src/memory/episodic.py: `EpisodicMemoryManager`. What an embedding provider makes of a text and the
-- similarity of two embeddings are parameters, and so is how a similarity is printed. A limit and a
-- budget are not negative, and the remediation steps of a document are the list that indexing writes.
pub mod Budget
pub mod Found
pub mod Recall
use ops_pilot_ai.Prelude.{
  ℕ, zero, suc, ◌+◌, ◌-◌, ◌*◌, ◌/◌, ◌%◌, ◌≤◌, ◌<◌, min, max, String, ◌≡◌, refl, sym, ap, ◌∙◌, ◌≢◌,
  ◌↔◌, ◌⊎◌, inl, inr, Bool, true, false, not, ◌&&◌, ◌||◌, Option, none, some, List, [], ◌∷◌, ◌++◌,
  map, arith, eq_iff, eq_refl, ltb, leb, nat_eqb, nat_eqb_iff, if◌then◌else◌, Eq, ◌==◌, ℕ_eq,
  String_eq, Bool-cases, Option-cases, length, take, drop, head?, last?, keep_if, find_if, any_of,
  All, length-append, length-drop, All-append, All-keep_if, elem, elem-append, nodup,
}
use Prim.Native.String.{count, ◌++◌ as ◌⧺◌}
use ops_pilot_ai.Prelude.Text.{take_text, is_blank, join, show_ℕ}
use ops_pilot_ai.Value.{Value, Fields, field, end, str, arr, Items, nil, cons, get_or, merge}
use ops_pilot_ai.Value.Text.{to_text}
use ops_pilot_ai.Memory.Vectors.{VectorDocument, VectorSearchResult, add_documents, search}
use ops_pilot_ai.Memory.Seeds.{HistoricalPostmortem, historical_postmortems}

-- `"\n".join(f"{prefix}{x}" for x in xs)`
abbrev pub bullets : String → List String → String
bullets mark xs = join "\n" (map (λ x. mark ⧺ x) xs)

abbrev pub items_of : List String → Items
items_of [] = nil
items_of (x ∷ xs) = cons (str x) (items_of xs)

unfoldable pub format_postmortem_text : HistoricalPostmortem → String
unfolding join
format_postmortem_text pm =
    "Incident: "
    ⧺ pm.incident_id
    ⧺ " - "
    ⧺ pm.title
    ⧺ "\nService: "
    ⧺ pm.service
    ⧺ " | Severity: "
    ⧺ pm.severity
    ⧺ "\nSummary: "
    ⧺ pm.summary
    ⧺ "\nRoot Cause: "
    ⧺ pm.root_cause
    ⧺ "\nDetection Signals:\n"
    ⧺ bullets "- " pm.detection_signals
    ⧺ "\nRemediation Steps:\n"
    ⧺ bullets "- " pm.remediation_steps
    ⧺ "\nPrevention Measures:\n"
    ⧺ bullets "- " pm.prevention_measures

-- `{"incident_id": …, **pm.metadata}`
unfoldable pub document_metadata : HistoricalPostmortem → Fields
unfolding merge
document_metadata pm =
    merge
      (field "incident_id" (str pm.incident_id) (
        field "title" (str pm.title) (
          field "service" (str pm.service) (
            field "severity" (str pm.severity) (
              field "root_cause" (str pm.root_cause)
                (field "remediation_steps" (arr (items_of pm.remediation_steps)) end))))))
      pm.metadata

pub record Manager (E : Type 0) : Type 0 where
  pub documents : List (VectorDocument E)
  pub seeded : Bool

abbrev pub new_manager : {E : Type 0} → Manager E
new_manager = record { documents = []; seeded = false }

abbrev pub truncation_mark : String
truncation_mark = "\n...[truncated]"

module _ {E : Type 0} where
  abbrev pub document_text : VectorSearchResult E → String
  document_text r = r.document.text

  abbrev pub truncated : ℕ → VectorSearchResult E → VectorSearchResult E
  truncated remaining r = record r {
    document = record (r.document) { text = take_text remaining r.document.text ⧺ truncation_mark };
  }

  -- The budget's loop, after results of `used` characters; `started` when there are any.
  unfoldable pub fit_budget :
      ℕ → Bool → ℕ → List (VectorSearchResult E) → List (VectorSearchResult E)
  fit_budget budget started used [] = []
  fit_budget budget started used (r ∷ rs) =
      let rest = fit_budget budget true (used + count (document_text r)) rs in
      if ltb budget (used + count (document_text r)) && started
      then truncated (max 100 (budget - used)) r ∷ []
      else r ∷ rest

module _ {E : Type 0} (embed : String → E) where
  abbrev pub document_of : String → HistoricalPostmortem → VectorDocument E
  document_of doc_text pm = record {
    id = pm.incident_id;
    text = doc_text;
    embedding = embed doc_text;
    metadata = document_metadata pm;
  }

  unfoldable pub index_postmortem : HistoricalPostmortem → Manager E → Manager E
  unfolding add_documents
  index_postmortem pm m =
      let doc_text = if pm.full_text == "" then format_postmortem_text pm else pm.full_text in
      record m { documents = add_documents (document_of doc_text pm ∷ []) m.documents }

  abbrev pub seed_documents : List HistoricalPostmortem → List (VectorDocument E)
  seed_documents [] = []
  seed_documents (pm ∷ pms) = document_of (format_postmortem_text pm) pm ∷ seed_documents pms

  unfoldable pub seed_default_memories : Manager E → Manager E
  unfolding add_documents
  seed_default_memories m = if m.seeded then m else record {
    documents = add_documents (seed_documents historical_postmortems) m.documents;
    seeded = true;
  }

module _ {E : Type 0} (embed : String → E) (similarity : E → E → ℕ) where
  -- `if service:`, and no results for an absent or empty one
  unfoldable pub search_service :
      String → Option String → ℕ → List (VectorDocument E) → List (VectorSearchResult E)
  unfolding search
  search_service query none top_k documents = []
  search_service query (some service) top_k documents =
      if service == ""
      then []
      else search similarity (embed query) top_k (some (("service", service) ∷ [])) documents

  -- The results before the budget: of the service, else of all documents.
  unfoldable pub search_with_fallback :
      String → Option String → ℕ → List (VectorDocument E) → List (VectorSearchResult E)
  unfolding search_service search
  search_with_fallback query service top_k documents =
      elim (search_service query service top_k documents) [
        | [] ↦ search similarity (embed query) top_k none documents
        | r ∷ rs ↦ r ∷ rs
      ]

  unfoldable pub search_similar_incidents :
      String → Option String → ℕ → ℕ → Manager E → List (VectorSearchResult E) × Manager E
  unfolding seed_default_memories search_with_fallback fit_budget
  search_similar_incidents query service top_k max_char_budget m =
      if is_blank query
      then ([], m)
      else (let ready = seed_default_memories embed m in
          (
            fit_budget max_char_budget false 0
                (take top_k (search_with_fallback query service top_k ready.documents)),
            ready,
          ))

abbrev pub step_lines : Items → List String
step_lines nil = []
step_lines (cons v vs) = ("    * " ⧺ to_text v) ∷ step_lines vs

-- `meta.get("remediation_steps", [])`, where it is a list
abbrev pub listed_steps : Value → List String
listed_steps (arr xs) = step_lines xs
listed_steps _ = []

module _ {E : Type 0} (show_score : ℕ → String) where
  abbrev pub memory_block : ℕ → VectorSearchResult E → String
  memory_block i r =
      let shown =
        λ (k : String) (default : String). to_text (get_or k (str default) r.document.metadata) in
      "### [Historical Match "
      ⧺ show_ℕ i
      ⧺ "] "
      ⧺ r.document.id
      ⧺ ": "
      ⧺ shown "title" "Unknown"
      ⧺ "\n- **Similarity Score**: "
      ⧺ show_score r.similarity_score
      ⧺ "\n- **Target Service**: "
      ⧺ shown "service" "N/A"
      ⧺ "\n- **Root Cause**: "
      ⧺ shown "root_cause" "N/A"
      ⧺ "\n- **Proven Remediation**:\n"
      ⧺ join "\n" (listed_steps (get_or "remediation_steps" (arr nil) r.document.metadata))
      ⧺ "\n"

  abbrev pub memory_blocks : ℕ → List (VectorSearchResult E) → List String
  memory_blocks i [] = []
  memory_blocks i (r ∷ rs) = memory_block i r ∷ memory_blocks (suc i) rs

  unfoldable pub format_memories_for_prompt : List (VectorSearchResult E) → String
  unfolding join
  format_memories_for_prompt [] =
      "No historical postmortems matching the query were found in memory."
  format_memories_for_prompt (r ∷ rs) = join "\n" (memory_blocks 1 (r ∷ rs))
