-- ===== src/Tests/Router.antt =====
-- The model router at concrete inputs.
use ops_pilot_ai.Prelude.{ℕ, zero, suc, ◌≡◌, refl, [], ◌∷◌, ℕ_eq, String_eq}
use ops_pilot_ai.Result.{ok, err}
use ops_pilot_ai.Router.{
  attempts, over_providers, TokenUsage, LlmResponse, Provider, accumulate, generate_structured,
}
use ops_pilot_ai.Router.Failover.{first_response_wins}

abbrev spent : TokenUsage
spent = record { input_tokens = 5; output_tokens = 1; total_tokens = 6; estimated_cost = 2 }

abbrev reply : LlmResponse ℕ
reply = record { parsed = 7; raw_content = "7"; usage = spent; provider = "groq"; model = "m" }

abbrev down : Provider ℕ
down attempt = err "timeout"

-- Answers at the second attempt.
abbrev flaky : Provider ℕ
flaky zero = err "timeout"
flaky (suc zero) = err "timeout"
flaky _ = ok reply

first_response_wins_example :
    generate_structured 2 (down ∷ flaky ∷ down ∷ []) spent ≡ (ok reply, accumulate spent spent)
first_response_wins_example = first_response_wins 2 (down ∷ flaky ∷ down ∷ []) spent

exhausted_test :
    (generate_structured 2 (down ∷ down ∷ []) spent).0
    ≡ err "All LLM providers in fallback chain exhausted. Final error: timeout"
unfolding generate_structured over_providers attempts
exhausted_test = refl
