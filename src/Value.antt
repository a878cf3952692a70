-- ===== src/Value.antt =====
-- The values of a `dict[str, Any]`: JSON values, whose numbers are integers. The program passes
-- action parameters, tool arguments and tool results as such values.
pub mod Text
use ops_pilot_ai.Prelude.{
  ℕ, zero, suc, ◌+◌, ◌-◌, ◌*◌, ◌/◌, ◌%◌, ◌≤◌, ◌<◌, min, max, String, ◌≡◌, refl, sym, ap, ◌∙◌, ◌≢◌,
  ◌↔◌, ◌⊎◌, inl, inr, Bool, true, false, not, ◌&&◌, ◌||◌, Option, none, some, List, [], ◌∷◌, ◌++◌,
  map, arith, eq_iff, eq_refl, ltb, leb, nat_eqb, nat_eqb_iff, if◌then◌else◌, Eq, ◌==◌, ℕ_eq,
  String_eq, Bool-cases, Option-cases, length, take, drop, head?, last?, keep_if, find_if, any_of,
  All, length-append, length-drop, All-append, All-keep_if, elem, elem-append,
}
use ops_pilot_ai.Prelude.Assoc.{Assoc}

-- `negsuc n` is -(n + 1).
pub data ℤ : Type 0 where
  pos : ℕ → ℤ
  negsuc : ℕ → ℤ

mutual
  pub data Value : Type 0 where
    null : Value
    bool : Bool → Value
    num : ℤ → Value
    str : String → Value
    obj : Fields → Value
    arr : Items → Value

  -- A dictionary, in insertion order.
  pub data Fields : Type 0 where
    end : Fields
    field : String → Value → Fields → Fields

  pub data Items : Type 0 where
    nil : Items
    cons : Value → Items → Items

-- `d.get(k)`
unfoldable pub get : String → Fields → Option Value
get k end = none
get k (field j v d) = if j == k then some v else get k d

-- `d.get(k, default)`
unfoldable pub get_or : String → Value → Fields → Value
unfolding get
get_or k default d = elim (get k d) [ none ↦ default | some v ↦ v ]

-- `d[k] = v`: an old key keeps its place
unfoldable pub put : String → Value → Fields → Fields
put k v end = field k v end
put k v (field j w d) = if j == k then field j v d else field j w (put k v d)

-- `{**d, **e}`
unfoldable pub merge : Fields → Fields → Fields
unfolding put
merge d end = d
merge d (field k v e) = merge (put k v d) e

-- The keyword arguments that a call's named parameters leave over.
unfoldable pub without : String → Fields → Fields
without k end = end
without k (field j v d) = let rest = without k d in if j == k then rest else field j v rest

-- `k in d`
unfoldable pub has : String → Fields → Bool
has k end = false
has k (field j v d) = j == k || has k d

-- `bool(v)`
unfoldable pub truthy : Value → Bool
truthy null = false
truthy (bool b) = b
truthy (num (pos n)) = not (nat_eqb n 0)
truthy (num (negsuc n)) = true
truthy (str s) = not (s == "")
truthy (arr nil) = false
truthy (arr (cons x xs)) = true
truthy (obj end) = false
truthy (obj (field k v d)) = true

-- `d == e` for texts on the left: `v == "text"`
unfoldable pub is_text : String → Value → Bool
is_text t (str s) = s == t
is_text t _ = false

pub get-put :
    (k j : String) (v : Value) (d : Fields)
    → get j (put k v d) ≡ (if k == j then some v else get j d)
unfolding get put
get-put k j v end = refl
get-put k j v (field i w d) = ground (arith, eq_iff k j, eq_iff i k, eq_iff i j, get-put k j v d)

pub get-without :
    (k j : String) (d : Fields) → get j (without k d) ≡ (if k == j then none else get j d)
unfolding get without
get-without k j end = ground arith
get-without k j (field i w d) =
    ground (arith, eq_iff k j, eq_iff i k, eq_iff i j, get-without k j d)

-- What no key of the right-hand dictionary overrides stays.
pub get-merge_absent : (k : String) (d e : Fields) → has k e ≡ false → get k (merge d e) ≡ get k d
unfolding merge has
get-merge_absent k d end h = refl
get-merge_absent k d (field j v e) h =
    ground (arith, get-merge_absent k (put j v d) e, get-put j k v d)

-- A dictionary without repeated keys.
unfoldable pub distinct : Fields → Bool
unfolding has
distinct end = true
distinct (field k v d) = not (has k d) && distinct d

pub get_of_not_has : (k : String) (d : Fields) → has k d ≡ false → get k d ≡ none
unfolding get has
get_of_not_has k end h = refl
get_of_not_has k (field j v d) h = ground (arith, get_of_not_has k d)

-- Where keys do not repeat, the right-hand dictionary wins.
pub get-merge :
    (k : String) (v : Value) (d e : Fields)
    → distinct e ≡ true
    → get k e ≡ some v
    → get k (merge d e) ≡ some v
unfolding merge get distinct
get-merge k v d end u h = cc
get-merge k v d (field j w e) u h = ground (
  arith,
  get-merge k v (put j w d) e,
  get-merge_absent k (put j w d) e,
  get-put j k w d,
  eq_iff j k,
)
