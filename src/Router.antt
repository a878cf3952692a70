-- ===== src/Router.antt =====
-- src/llm/router.py and provider.py: `ModelRouter.generate_structured`, over providers whose answers
-- are a parameter: what the provider answers to the given prompt at each attempt, or what it raises.
-- Costs are natural numbers of some small unit, and latencies are left out.
pub mod Failover
pub mod Mock
use ops_pilot_ai.Prelude.{
  ℕ, zero, suc, ◌+◌, ◌-◌, ◌*◌, ◌/◌, ◌%◌, ◌≤◌, ◌<◌, min, max, String, ◌≡◌, refl, sym, ap, ◌∙◌, ◌≢◌,
  ◌↔◌, ◌⊎◌, inl, inr, Bool, true, false, not, ◌&&◌, ◌||◌, Option, none, some, List, [], ◌∷◌, ◌++◌,
  map, arith, eq_iff, eq_refl, ltb, leb, nat_eqb, nat_eqb_iff, if◌then◌else◌, Eq, ◌==◌, ℕ_eq,
  String_eq, Bool-cases, Option-cases, length, take, drop, head?, last?, keep_if, find_if, any_of,
  All, length-append, length-drop, All-append, All-keep_if, elem, elem-append, nodup,
}
use Prim.Native.String.{◌++◌ as ◌⧺◌}
use ops_pilot_ai.Result.{Result, ok, err}

pub record TokenUsage : Type 0 where
  pub input_tokens : ℕ
  pub output_tokens : ℕ
  pub total_tokens : ℕ
  pub estimated_cost : ℕ

pub record LlmResponse (T : Type 0) : Type 0 where
  pub parsed : T
  pub raw_content : String
  pub usage : TokenUsage
  pub provider : String
  pub model : String

-- A provider, by what the call of an attempt, counted from 1, returns or raises.
abbrev pub Provider : Type 0 → Type 0
Provider T = ℕ → Result (LlmResponse T)

-- `self.cumulative_usage.… += response.usage.…`
unfoldable pub accumulate : TokenUsage → TokenUsage → TokenUsage
accumulate total usage = record {
  input_tokens = total.input_tokens + usage.input_tokens;
  output_tokens = total.output_tokens + usage.output_tokens;
  total_tokens = total.total_tokens + usage.total_tokens;
  estimated_cost = total.estimated_cost + usage.estimated_cost;
}

-- `{last_error}` in the final message
abbrev pub error_text : Option String → String
error_text none = "None"
error_text (some e) = e

module _ {T : Type 0} where
  -- `for attempt in range(attempt, attempt + left)`: a response, or the last error so far
  unfoldable pub attempts :
      Provider T → ℕ → ℕ → Option String → Option (LlmResponse T) × Option String
  attempts ask attempt zero last_error = (none, last_error)
  attempts ask attempt (suc left) last_error =
      let failed = attempts ask (suc attempt) left in
      elim (ask attempt) [ ok response ↦ (some response, last_error) | err e ↦ failed (some e) ]

  unfoldable pub over_providers :
      ℕ → List (Provider T) → Option String → TokenUsage → Result (LlmResponse T) × TokenUsage
  over_providers max_retries [] last_error total = (
    err ("All LLM providers in fallback chain exhausted. Final error: " ⧺ error_text last_error),
    total,
  )
  over_providers max_retries (ask ∷ rest) last_error total =
      let tried = attempts ask 1 max_retries last_error in
      let others = over_providers max_retries rest tried.1 total in
      elim tried.0 [
        | some response ↦ (ok response, accumulate total response.usage)
        | none ↦ others
      ]

  -- `generate_structured`, with the router's cumulative usage as its state
  unfoldable pub generate_structured :
      ℕ → List (Provider T) → TokenUsage → Result (LlmResponse T) × TokenUsage
  generate_structured max_retries providers total = over_providers max_retries providers none total
