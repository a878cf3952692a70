-- ===== src/Prelude/Sorting.antt =====
-- `sort` and `sorted`: a stable sort by a test that says which item may stand before which.
use Prim.Native.Nat.{ℕ, suc}
use mathlib.Core.Path.{◌≡◌, refl, sym, ap}
use mathlib.Core.Logic.{inl, inr}
use mathlib.Core.Bool.{Bool, true, false}
use mathlib.Core.List.{List, [], ◌∷◌, ◌++◌}
use native.Mathlib.Omega.{arith}
use ops_pilot_ai.Prelude.Tests.{leb, if◌then◌else◌, Bool-cases}
use ops_pilot_ai.Prelude.Lists.{length, keep_if, All, All-keep_if}

-- A test that can order any list.
pub record TotalOrder {ℓ} {A : Type ℓ} (before : A → A → Bool) : Type ℓ where
  pub total : (a b : A) → before a b ≡ false → before b a ≡ true
  pub trans : (a b c : A) → before a b ≡ true → before b c ≡ true → before a c ≡ true

module _ {ℓ} {A : Type ℓ} (before : A → A → Bool) where
  -- in front of the first item that need not stand before it
  unfoldable pub insert_by : A → List A → List A
  insert_by x [] = x ∷ []
  insert_by x (y ∷ ys) = let later = insert_by x ys in if before x y then x ∷ y ∷ ys else y ∷ later

  unfoldable pub insert_all : List A → List A → List A
  unfolding insert_by
  insert_all [] ys = ys
  insert_all (x ∷ xs) ys = insert_by x (insert_all xs ys)

  unfoldable pub sort_by : List A → List A
  unfolding insert_all
  sort_by xs = insert_all xs []

  abbrev pub IsBefore : A → List A → Type 0
  IsBefore x ys = All (λ y. before x y ≡ true) ys

  abbrev pub IsSorted : List A → Type 0
  IsSorted [] = Unit
  IsSorted (x ∷ xs) = IsBefore x xs × IsSorted xs

module _ {ℓ} {A : Type ℓ} {before : A → A → Bool} (order : TotalOrder before) where
  IsBefore-weaken :
      (x y : A) (ys : List A) → before x y ≡ true → IsBefore before y ys → IsBefore before x ys
  IsBefore-weaken x y [] h hs = tt
  IsBefore-weaken x y (z ∷ zs) h hs = (order.trans x y z h hs.0, IsBefore-weaken x y zs h hs.1)

  IsBefore-insert_by :
      (x y : A) (ys : List A)
      → before x y ≡ true
      → IsBefore before x ys
      → IsBefore before x (insert_by before y ys)
  unfolding insert_by
  IsBefore-insert_by x y [] h hs = (h, tt)
  IsBefore-insert_by x y (z ∷ zs) h hs = elim (Bool-cases (before y z)) [
    | inl e ↦ rw e (h, hs)
    | inr e ↦ rw e (hs.0, IsBefore-insert_by x y zs h hs.1)
  ]

  insert_by-IsSorted :
      (x : A) (ys : List A) → IsSorted before ys → IsSorted before (insert_by before x ys)
  unfolding insert_by
  insert_by-IsSorted x [] h = (tt, tt)
  insert_by-IsSorted x (y ∷ ys) h = elim (Bool-cases (before x y)) [
    | inl e ↦ rw e ((e, IsBefore-weaken x y ys e h.0), h)
    | inr e ↦ rw e (IsBefore-insert_by y x ys (order.total x y e) h.0, insert_by-IsSorted x ys h.1)
  ]

  pub insert_all-IsSorted :
      (xs ys : List A) → IsSorted before ys → IsSorted before (insert_all before xs ys)
  unfolding insert_all
  insert_all-IsSorted [] ys h = h
  insert_all-IsSorted (x ∷ xs) ys h =
      insert_by-IsSorted x (insert_all before xs ys) (insert_all-IsSorted xs ys h)

  pub sort_by-IsSorted : (xs : List A) → IsSorted before (sort_by before xs)
  unfolding sort_by
  sort_by-IsSorted xs = insert_all-IsSorted xs [] tt

  insert_by-first : (x : A) (ys : List A) → IsBefore before x ys → insert_by before x ys ≡ x ∷ ys
  unfolding insert_by
  insert_by-first x [] h = refl
  insert_by-first x (y ∷ ys) h = rw h.0 refl

  -- Filtering keeps a list sorted.
  pub keep_if-IsSorted :
      (p : A → Bool) (xs : List A) → IsSorted before xs → IsSorted before (keep_if p xs)
  keep_if-IsSorted p [] h = tt
  keep_if-IsSorted p (x ∷ xs) h = elim (Bool-cases (p x)) [
    | inl e ↦ rw e (All-keep_if (λ y. before x y ≡ true) p xs h.0, keep_if-IsSorted p xs h.1)
    | inr e ↦ rw e (keep_if-IsSorted p xs h.1)
  ]

  keep_if-insert_by :
      (p : A → Bool) (x : A) (ys : List A)
      → IsSorted before ys
      → keep_if p (insert_by before x ys)
        ≡ (if p x then insert_by before x (keep_if p ys) else keep_if p ys)
  unfolding insert_by
  keep_if-insert_by p x [] h = ground arith
  keep_if-insert_by p x (y ∷ ys) h = elim (Bool-cases (before x y)) [
    | inl e ↦
        let all : IsBefore before x (y ∷ ys) = (e, IsBefore-weaken x y ys e h.0) in
        let kept = All-keep_if (λ z. before x z ≡ true) p (y ∷ ys) all in
        rw (insert_by-first x (keep_if p (y ∷ ys)) kept) (rw e refl)
    | inr e ↦ rw e (ground (arith, keep_if-insert_by p x ys h.1))
  ]

  -- Sorting commutes with filtering.
  pub keep_if-sort_by :
      (p : A → Bool) (xs : List A) → keep_if p (sort_by before xs) ≡ sort_by before (keep_if p xs)
  unfolding sort_by insert_all
  keep_if-sort_by p [] = refl
  keep_if-sort_by p (x ∷ xs) = ground (
    arith,
    keep_if-insert_by p x (insert_all before xs []) (insert_all-IsSorted xs [] tt),
    keep_if-sort_by p xs,
  )

  -- A sorted list is not changed.
  pub sort_by-sorted : (xs : List A) → IsSorted before xs → sort_by before xs ≡ xs
  unfolding sort_by insert_all
  sort_by-sorted [] h = refl
  sort_by-sorted (x ∷ xs) h = rw (sort_by-sorted xs h.1) (insert_by-first x xs h.0)

  -- Items that must stand in one order may be inserted in the other.
  insert_by_comm :
      (x y : A) (zs : List A)
      → before x y ≡ false
      → insert_by before x (insert_by before y zs) ≡ insert_by before y (insert_by before x zs)
  unfolding insert_by
  insert_by_comm x y [] h = ground (arith, order.total x y h)
  insert_by_comm x y (z ∷ zs) h = ground (
    arith,
    order.total x y h,
    order.trans x z y,
    order.total y z,
    order.trans y x z (order.total x y h),
    order.trans x y z,
    insert_by_comm x y zs h,
  )

  insert_all-insert_by :
      (x : A) (ys zs : List A)
      → insert_all before (insert_by before x ys) zs ≡ insert_by before x (insert_all before ys zs)
  unfolding insert_by insert_all
  insert_all-insert_by x [] zs = refl
  insert_all-insert_by x (y ∷ ys) zs = elim (Bool-cases (before x y)) [
    | inl e ↦ rw (e, insert_all) refl
    | inr e ↦
        rw (e, insert_all, insert_all-insert_by x ys zs)
          (sym (insert_by_comm x y (insert_all before ys zs) e))
  ]

  insert_all-sort_by :
      (xs ys : List A) → insert_all before (sort_by before xs) ys ≡ insert_all before xs ys
  unfolding sort_by insert_all
  insert_all-sort_by [] ys = refl
  insert_all-sort_by (x ∷ xs) ys =
      rw (insert_all-insert_by x (insert_all before xs []) ys, insert_all-sort_by xs ys) refl

insert_all-append {ℓ} :
    {A : Type ℓ} (before : A → A → Bool) (xs ys zs : List A)
    → insert_all before (xs ++ ys) zs ≡ insert_all before xs (insert_all before ys zs)
unfolding insert_all
insert_all-append before [] ys zs = refl
insert_all-append before (x ∷ xs) ys zs =
    ap (insert_by before x) (insert_all-append before xs ys zs)

-- A batch may be sorted before it is extended and sorted again.
pub sort_by-append {ℓ} :
    {A : Type ℓ} {before : A → A → Bool} (order : TotalOrder before) (xs ys : List A)
    → sort_by before (sort_by before xs ++ ys) ≡ sort_by before (xs ++ ys)
unfolding sort_by
sort_by-append {before = before} order xs ys =
    rw (insert_all-append before (sort_by before xs) ys [], insert_all-append before xs ys [])
      (insert_all-sort_by order xs (insert_all before ys []))

module _ {ℓ} {A : Type ℓ} (key : A → ℕ) where
  -- `sort(key=key)`
  abbrev pub ascending : A → A → Bool
  ascending a b = leb (key a) (key b)

  -- `sort(key=key, reverse=True)`, which is stable too
  abbrev pub descending : A → A → Bool
  descending a b = leb (key b) (key a)

  pub ascending-TotalOrder : TotalOrder ascending
  ascending-TotalOrder = record { total = λ a b h. ground arith; trans = λ a b c h k. ground arith }

  pub descending-TotalOrder : TotalOrder descending
  descending-TotalOrder = record {
    total = λ a b h. ground arith;
    trans = λ a b c h k. ground arith;
  }

-- Sorting keeps what holds of all items, and their number.
module _ {ℓ κ} {A : Type ℓ} (before : A → A → Bool) (P : A → Type κ) where
  All-insert_by : (x : A) (ys : List A) → P x → All P ys → All P (insert_by before x ys)
  unfolding insert_by
  All-insert_by x [] h hs = (h, hs)
  All-insert_by x (y ∷ ys) h hs = elim (Bool-cases (before x y)) [
    | inl e ↦ rw e (h, hs)
    | inr e ↦ rw e (hs.0, All-insert_by x ys h hs.1)
  ]

  pub All-sort_by : (xs : List A) → All P xs → All P (sort_by before xs)
  unfolding sort_by insert_all
  All-sort_by [] h = tt
  All-sort_by (x ∷ xs) h = All-insert_by x (insert_all before xs []) h.0 (All-sort_by xs h.1)

module _ {ℓ} {A : Type ℓ} (before : A → A → Bool) where
  length-insert_by : (x : A) (ys : List A) → length (insert_by before x ys) ≡ suc (length ys)
  unfolding insert_by
  length-insert_by x [] = omega arith
  length-insert_by x (y ∷ ys) = ground (arith, length-insert_by x ys)

  pub length-sort_by : (xs : List A) → length (sort_by before xs) ≡ length xs
  unfolding sort_by insert_all
  length-sort_by [] = omega arith
  length-sort_by (x ∷ xs) =
      omega (arith, length-insert_by x (insert_all before xs []), length-sort_by xs)
