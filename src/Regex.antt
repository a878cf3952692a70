-- ===== src/Regex.antt =====
-- The part of Python's `re` that src/safety/policy.py and src/tools/registry.py use: case-insensitive
-- search over ASCII text. A matcher maps a position to the positions where a match can end.
use ops_pilot_ai.Prelude.{
  ℕ, zero, suc, String, Bool, true, false, not, ◌&&◌, ◌||◌, Option, none, some, List, [], ◌∷◌, ◌++◌,
  leb, nat_eqb, if◌then◌else◌, ℕ_eq, String_eq, length, head?,
}
use mathlib.Core.List.{flat_map}
use ops_pilot_ai.Prelude.Text.{codes, lower_code, is_upper_code, is_lower_code}

pub data Regex : Type 0 where
  -- a text, compared without case
  text : String → Regex
  space not_space : Regex
  -- `[a-z]`, without case
  letter : Regex
  word_boundary : Regex
  empty : Regex
  seq alt : Regex → Regex → Regex
  star : Regex → Regex

-- What stands before the position, if anything, and the text from it on.
pub record Position : Type 0 where
  pub before : Option ℕ
  pub rest : List ℕ

abbrev pub is_space : ℕ → Bool
is_space c = nat_eqb c 32 || leb 9 c && leb c 13 || leb 28 c && leb c 31

abbrev pub is_word : ℕ → Bool
is_word c = is_lower_code c || is_upper_code c || leb b'0' c && leb c b'9' || nat_eqb c b'_'

abbrev word_at : Option ℕ → Bool
word_at none = false
word_at (some c) = is_word c

unfoldable pub step : (ℕ → Bool) → Position → List Position
step p s = elim s.rest [
  | [] ↦ []
  | c ∷ r ↦ if p c then record { before = some c; rest = r } ∷ [] else []
]

-- The characters of a text, one after the other.
unfoldable pub literal : List ℕ → Position → List Position
unfolding step flat_map
literal [] s = s ∷ []
literal (c ∷ cs) s = flat_map (literal cs) (step (λ d. nat_eqb (lower_code d) (lower_code c)) s)

unfoldable pub boundary : Position → List Position
boundary s = if xor_at (word_at s.before) (word_at (head? s.rest)) then s ∷ [] else []
  where
    xor_at : Bool → Bool → Bool
    xor_at true b = not b
    xor_at false b = b

-- At most `fuel` rounds; each round of the patterns here takes a character, so the length of the
-- text is enough.
unfoldable pub repeat : ℕ → (Position → List Position) → Position → List Position
unfolding flat_map
repeat zero m s = s ∷ []
repeat (suc fuel) m s = s ∷ flat_map (repeat fuel m) (m s)

unfoldable pub run : Regex → Position → List Position
unfolding literal boundary repeat step flat_map
run (text t) s = literal (codes t) s
run space s = step is_space s
run not_space s = step (λ c. not (is_space c)) s
run letter s = step (λ c. is_lower_code (lower_code c)) s
run word_boundary s = boundary s
run empty s = s ∷ []
run (seq r q) s = flat_map (run q) (run r s)
run (alt r q) s = run r s ++ run q s
run (star r) s = repeat (length s.rest) (run r) s

abbrev matches_at : Regex → Position → Bool
matches_at r s = elim (run r s) [ [] ↦ false | p ∷ ps ↦ true ]

-- A match that begins at some position of the text.
unfoldable pub search_from : Regex → Option ℕ → List ℕ → Bool
unfolding run
search_from r before [] = matches_at r (record { before = before; rest = [] })
search_from r before (c ∷ cs) =
    let later = search_from r (some c) cs in
    if matches_at r (record { before = before; rest = c ∷ cs }) then true else later

-- `re.compile(r).search(s)`, as a test
unfoldable pub search : Regex → String → Bool
unfolding search_from
search r s = search_from r none (codes s)

-- `r+`
abbrev pub plus : Regex → Regex
plus r = seq r (star r)

abbrev pub any_text : List String → Regex
any_text [] = text ""
any_text (t ∷ []) = text t
any_text (t ∷ u ∷ ts) = alt (text t) (any_text (u ∷ ts))
