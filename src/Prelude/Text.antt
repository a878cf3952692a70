-- ===== src/Prelude/Text.antt =====
-- Text operations of the language: case, search, decimal numbers. Case is that of ASCII letters.
use Prim.Native.Char.{Char, char, code, nul, IsScalar}
use Prim.Native.Nat.{ℕ, zero, suc, ◌+◌, ◌-◌, ◌/◌, ◌%◌, ◌<◌, compare, Ordering}
use Prim.Native.String.{String, [], ◌∷◌, ◌++◌}
use mathlib.Core.Bool.{Bool, true, ◌&&◌, ◌||◌}
use mathlib.Core.Logic.{dite}
use mathlib.Core.Path.{◌≡◌, refl}
use mathlib.Core.List.{List}
use native.Mathlib.Decide.{dec_lt}
use native.Mathlib.Omega.{arith}
use text.Mathlib.Text.{starts_with}
use ops_pilot_ai.Prelude.Tests.{leb, nat_eqb, ◌==◌, String_eq, if◌then◌else◌}

compare_lt : (n m : ℕ) → n < m → compare n m ≡ Ordering.lt
compare_lt n m h = ground arith

pub lt-IsScalar : (n : ℕ) → n < 55296 → IsScalar n
lt-IsScalar n h = rw (compare_lt n 55296 h) tt

-- The character of a code point below the surrogates.
unfoldable pub char_of : ℕ → Char
unfolding dec_lt
char_of n = dite (dec_lt n 55296) (λ h. char n (lt-IsScalar n h)) (λ _. nul)

abbrev pub is_upper_code : ℕ → Bool
is_upper_code c = leb b'A' c && leb c b'Z'

abbrev pub is_lower_code : ℕ → Bool
is_lower_code c = leb b'a' c && leb c b'z'

abbrev pub lower_code : ℕ → ℕ
lower_code c = if is_upper_code c then c + 32 else c

abbrev pub upper_code : ℕ → ℕ
upper_code c = if is_lower_code c then c - 32 else c

-- `s.lower()`
unfoldable pub lower : String → String
unfolding char_of
lower [] = []
lower (c ∷ s) = (if is_upper_code (code c) then char_of (code c + 32) else c) ∷ lower s

-- `s.upper()`
unfoldable pub upper : String → String
unfolding char_of
upper [] = []
upper (c ∷ s) = (if is_lower_code (code c) then char_of (code c - 32) else c) ∷ upper s

-- The code points of a text.
abbrev pub codes : String → List ℕ
codes [] = List.[]
codes (c ∷ s) = List.◌∷◌ (code c) (codes s)

-- `s[:n]`
unfoldable pub take_text : ℕ → String → String
take_text zero s = []
take_text (suc n) [] = []
take_text (suc n) (c ∷ s) = c ∷ take_text n s

-- `"".isspace()` of a character: the ASCII white space
abbrev pub is_space_code : ℕ → Bool
is_space_code c = leb 9 c && leb c 13 || leb 28 c && leb c 32

-- `not s.strip()`
unfoldable pub is_blank : String → Bool
is_blank [] = true
is_blank (c ∷ s) = is_space_code (code c) && is_blank s

-- `needle in s`
unfoldable pub contains : String → String → Bool
contains needle [] = needle == ""
contains needle (c ∷ s) = starts_with (c ∷ s) needle || contains needle s

-- The decimal digits of a number below 10 ^ fuel, in front of a text.
show_digits : ℕ → ℕ → String → String
unfolding char_of
show_digits zero n s = s
show_digits (suc f) n s =
    let shown = char_of (48 + n % 10) ∷ s in
    let rest = show_digits f (n / 10) shown in if nat_eqb (n / 10) 0 then shown else rest

-- `str(n)`; a number has at most `n + 1` digits
unfoldable pub show_ℕ : ℕ → String
unfolding show_digits
show_ℕ n = show_digits (suc n) n ""

-- `sep.join(parts)`
unfoldable pub join : String → List String → String
join sep List.[] = ""
join sep (List.◌∷◌ s List.[]) = s
join sep (List.◌∷◌ s (List.◌∷◌ t r)) = s ++ sep ++ join sep (List.◌∷◌ t r)

case_test : upper "operator-1" ≡ "OPERATOR-1"
unfolding upper
case_test = refl

contains_test : contains "index" (lower "CREATE Index x") ≡ true
unfolding contains lower
contains_test = refl

show_test : show_ℕ 10450 ≡ "10450"
unfolding show_ℕ
show_test = refl
