-- ===== src/Agents/Prompts/Mentions.antt =====
-- Which words a prompt mentions, whatever the texts between its fixed parts are.
use ops_pilot_ai.Prelude.{
  ℕ, String, ◌≡◌, refl, sym, ap, ◌∙◌, inl, inr, true, arith, eq_iff, ℕ_eq, String_eq, Bool-cases,
}
use Prim.Native.String.{◌++◌ as ◌⧺◌}
use mathlib.Core.Path.{subst}
use text.Mathlib.Text.{starts_with}
use text.Mathlib.TextEquality.{starts_with_iff}
use text.Mathlib.TextLemmas.{nil-append, cons-append, append_assoc}
use ops_pilot_ai.Prelude.Text.{lower, contains}
use ops_pilot_ai.Domain.{InvestigationTask}
use ops_pilot_ai.Agents.Prompts.{Observations, instruction, analyst_prompt}
use ops_pilot_ai.Router.Mock.{mentions}

starts_with-extend : (s t r : String) → starts_with s t ≡ true → starts_with (s ⧺ r) t ≡ true
starts_with-extend s t r h =
    let (u, e) = (starts_with_iff s t).0 h in
    (starts_with_iff (s ⧺ r) t).1 (u ⧺ r, sym (append_assoc t u r) ∙ ap (λ (x : String). x ⧺ r) e)

contains_nothing : (r : String) → contains "" r ≡ true
unfolding contains
contains_nothing String.[] = refl
contains_nothing (String.◌∷◌ c r) = ground (arith, contains_nothing r)

contains-skip : (t p s : String) → contains t s ≡ true → contains t (p ⧺ s) ≡ true
unfolding contains
contains-skip t String.[] s h = rw (nil-append s) h
contains-skip t (String.◌∷◌ c p) s h =
    rw (cons-append c p s) (ground (arith, contains-skip t p s h))

contains-extend : (t s r : String) → contains t s ≡ true → contains t (s ⧺ r) ≡ true
unfolding contains
contains-extend t String.[] r h =
    rw (nil-append r)
      (subst (λ (x : String). contains x r ≡ true) (sym ((eq_iff t "").0 h)) (contains_nothing r))
contains-extend t (String.◌∷◌ c s) r h =
    let begins : starts_with (String.◌∷◌ c s) t ≡ true
        → starts_with (String.◌∷◌ c (s ⧺ r)) t ≡ true =
      λ e.
        subst (λ (x : String). starts_with x t ≡ true) (cons-append c s r)
          (starts_with-extend (String.◌∷◌ c s) t r e) in
    rw (cons-append c s r) (elim (Bool-cases (starts_with (String.◌∷◌ c s) t)) [
      | inl e ↦ rw (begins e) refl
      | inr e ↦ ground (arith, contains-extend t s r, h, e)
    ])

lower-append : (s r : String) → lower (s ⧺ r) ≡ lower s ⧺ lower r
unfolding lower
lower-append String.[] r = rw (nil-append r, nil-append (lower r)) refl
lower-append (String.◌∷◌ c s) r =
    rw (cons-append c s r, lower) (rw (lower-append s r) (sym (cons-append _ (lower s) (lower r))))

mentions-skip : (t p s : String) → mentions t s ≡ true → mentions t (p ⧺ s) ≡ true
unfolding mentions
mentions-skip t p s h = rw (lower-append p s) (contains-skip t (lower p) (lower s) h)

mentions-extend : (t s r : String) → mentions t s ≡ true → mentions t (s ⧺ r) ≡ true
unfolding mentions
mentions-extend t s r h = rw (lower-append s r) (contains-extend t (lower s) (lower r) h)

module _ (seen : Observations) (n : ℕ) (task : InvestigationTask) where
  -- What an analyst's instruction mentions, its prompt does.
  pub instruction-mentioned :
      (t : String)
      → mentions t (instruction task.agent_type) ≡ true
      → mentions t (analyst_prompt seen n task) ≡ true
  unfolding analyst_prompt
  instruction-mentioned t h = mentions-skip t _ _ (
      mentions-skip t _ _ (
        mentions-skip t _ _ (
          mentions-skip t _ _ (
            mentions-skip t _ _ (
              mentions-skip t _ _
                (mentions-skip t _ _ (mentions-skip t _ _ (mentions-skip t _ _ h))))))))

  -- What an analyst's task asks for, its prompt mentions.
  pub intent-mentioned :
      (t : String)
      → mentions t task.query_intent ≡ true
      → mentions t (analyst_prompt seen n task) ≡ true
  unfolding analyst_prompt
  intent-mentioned t h =
      mentions-skip t _ _ (mentions-skip t _ _ (mentions-skip t _ _ (mentions-extend t _ _ h)))
