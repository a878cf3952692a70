-- ===== src/Router/Failover.antt =====
-- Failover: which answer `generate_structured` returns.
use ops_pilot_ai.Prelude.{
  ap, sym, ◌∙◌, ℕ, zero, suc, String, ◌≡◌, refl, inl, inr, Option, none, some, List, [], ◌∷◌, ◌++◌,
  ℕ_eq, String_eq,
}
use Prim.Native.String.{◌++◌ as ◌⧺◌}
use ops_pilot_ai.Result.{Result, ok, err, Result-cases}
use ops_pilot_ai.Router.{
  TokenUsage, LlmResponse, Provider, accumulate, error_text, attempts, over_providers,
  generate_structured,
}

module _ {T : Type 0} where
  -- The answers of `left` attempts on a provider, and those of a chain of providers.
  abbrev pub answers : Provider T → ℕ → ℕ → List (Result (LlmResponse T))
  answers ask attempt zero = []
  answers ask attempt (suc left) = ask attempt ∷ answers ask (suc attempt) left

  abbrev pub chain : ℕ → List (Provider T) → List (Result (LlmResponse T))
  chain max_retries [] = []
  chain max_retries (ask ∷ rest) = answers ask 1 max_retries ++ chain max_retries rest

  -- The first response of a list of answers, or else the last error.
  abbrev pub first_response :
      List (Result (LlmResponse T)) → Option String → Option (LlmResponse T) × Option String
  first_response [] last_error = (none, last_error)
  first_response (ok response ∷ rest) last_error = (some response, last_error)
  first_response (err e ∷ rest) last_error = first_response rest (some e)

  -- What the router makes of it.
  abbrev pub conclusion :
      Option (LlmResponse T) × Option String → TokenUsage → Result (LlmResponse T) × TokenUsage
  conclusion (some response, e) total = (ok response, accumulate total response.usage)
  conclusion (none, e) total =
      (err ("All LLM providers in fallback chain exhausted. Final error: " ⧺ error_text e), total)

  attempts-answers :
      (ask : Provider T) (attempt left : ℕ) (e : Option String)
      → attempts ask attempt left e ≡ first_response (answers ask attempt left) e
  unfolding attempts
  attempts-answers ask attempt zero e = refl
  attempts-answers ask attempt (suc left) e = elim (Result-cases (ask attempt)) [
    | inl (r, h) ↦ rw (h, attempts) refl
    | inr (x, h) ↦ rw (h, attempts) (attempts-answers ask (suc attempt) left (some x))
  ]

  -- The search goes on in the second list with the error of the first.
  abbrev onward :
      Option (LlmResponse T) × Option String
      → List (Result (LlmResponse T))
      → Option (LlmResponse T) × Option String
  onward (some r, e) ys = (some r, e)
  onward (none, e) ys = first_response ys e

  first_response-append :
      (xs ys : List (Result (LlmResponse T))) (e : Option String)
      → first_response (xs ++ ys) e ≡ onward (first_response xs e) ys
  first_response-append [] ys e = refl
  first_response-append (ok r ∷ xs) ys e = refl
  first_response-append (err x ∷ xs) ys e = first_response-append xs ys (some x)

  over_providers-chain :
      (n : ℕ) (providers : List (Provider T)) (e : Option String) (total : TokenUsage)
      → over_providers n providers e total ≡ conclusion (first_response (chain n providers) e) total
  unfolding over_providers
  over_providers-chain n [] e total = refl
  over_providers-chain n (ask ∷ rest) e total =
      by_outcome (attempts ask 1 n e) (λ x. over_providers-chain n rest x total)
      ∙ ap (λ o. conclusion (onward o (chain n rest)) total) (attempts-answers ask 1 n e)
      ∙ ap (λ o. conclusion o total)
          (sym (first_response-append (answers ask 1 n) (chain n rest) e))
    where
      by_outcome :
          (o : Option (LlmResponse T) × Option String)
          → ((x : Option String)
              → over_providers n rest x total ≡ conclusion (first_response (chain n rest) x) total)
          → elim o.0 [
            | some response ↦ (ok response, accumulate total response.usage)
            | none ↦ over_providers n rest o.1 total
          ]
            ≡ conclusion (onward o (chain n rest)) total
      by_outcome (some r, x) later = refl
      by_outcome (none, x) later = later x

  -- The router returns the first response among the answers of its providers, asked in order and each
  -- `max_retries` times, and adds the usage of that response, and of no other, to the cumulative one.
  -- Where every answer is an error, it raises with the last of them and adds nothing.
  pub first_response_wins :
      (max_retries : ℕ) (providers : List (Provider T)) (total : TokenUsage)
      → generate_structured max_retries providers total
        ≡ conclusion (first_response (chain max_retries providers) none) total
  unfolding generate_structured
  first_response_wins max_retries providers total =
      over_providers-chain max_retries providers none total
