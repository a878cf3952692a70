-- ===== src/Incidents/Listing/Pages.antt =====
-- What a listing holds, and what its pages show one after the other.
use ops_pilot_ai.Prelude.{
  ◌*◌, length, length-keep_if, zero, suc, ℕ, zero, suc, ◌+◌, ◌≤◌, ◌≡◌, refl, sym, ap, ◌∙◌, inl, inr,
  Bool, ◌&&◌, List, [], ◌∷◌, ◌++◌, map, arith, leb, if◌then◌else◌, ℕ_eq, String_eq, Bool-cases,
  take, drop, keep_if, All,
}
use ops_pilot_ai.Prelude.Assoc.{values}
use ops_pilot_ai.Domain.{IncidentState}
use ops_pilot_ai.Incidents.Service.{Service}
use ops_pilot_ai.Incidents.Listing.{
  IncidentResponse, Filters, to_incident_response, matches, insert_newest, newest_first, found,
  list_incidents,
}

-- Each incident is at least as new as every later one.
abbrev pub IsNewestFirst : List IncidentState → Type 0
IsNewestFirst [] = Unit
IsNewestFirst (s ∷ ss) = All (λ t. t.created_at ≤ s.created_at) ss × IsNewestFirst ss

abbrev pub count : (IncidentState → Bool) → List IncidentState → ℕ
count p [] = 0
count p (s ∷ ss) = (if p s then 1 else 0) + count p ss

count-insert_newest :
    (p : IncidentState → Bool) (s : IncidentState) (ss : List IncidentState)
    → count p (insert_newest s ss) ≡ (if p s then 1 else 0) + count p ss
unfolding insert_newest
count-insert_newest p s [] = refl
count-insert_newest p s (t ∷ ts) = ground (arith, count-insert_newest p s ts)

count-newest_first :
    (p : IncidentState → Bool) (ss : List IncidentState) → count p (newest_first ss) ≡ count p ss
unfolding newest_first
count-newest_first p [] = refl
count-newest_first p (s ∷ ss) =
    count-insert_newest p s (newest_first ss)
    ∙ ap (λ n. (if p s then 1 else 0) + n) (count-newest_first p ss)

count-keep_if :
    (p q : IncidentState → Bool) (ss : List IncidentState)
    → count p (keep_if q ss) ≡ count (λ s. q s && p s) ss
count-keep_if p q [] = refl
count-keep_if p q (s ∷ ss) = ground (arith, count-keep_if p q ss)

All-insert_newest :
    (n : ℕ) (s : IncidentState) (ss : List IncidentState)
    → s.created_at ≤ n
    → All (λ t. t.created_at ≤ n) ss
    → All (λ t. t.created_at ≤ n) (insert_newest s ss)
unfolding insert_newest
All-insert_newest n s [] h hs = (h, tt)
All-insert_newest n s (t ∷ ts) h hs = ground (arith, All-insert_newest n s ts h hs.1)

All-older :
    (n m : ℕ) (ss : List IncidentState)
    → n ≤ m
    → All (λ t. t.created_at ≤ n) ss
    → All (λ t. t.created_at ≤ m) ss
All-older n m [] h hs = tt
All-older n m (t ∷ ts) h hs = (omega (arith, h, hs.0), All-older n m ts h hs.1)

insert_newest-IsNewestFirst :
    (s : IncidentState) (ss : List IncidentState)
    → IsNewestFirst ss
    → IsNewestFirst (insert_newest s ss)
unfolding insert_newest
insert_newest-IsNewestFirst s [] h = (tt, tt)
insert_newest-IsNewestFirst s (t ∷ ts) h = elim (Bool-cases (leb t.created_at s.created_at)) [
  | inl e ↦
      rw (e, insert_newest)
        ((ground arith, All-older t.created_at s.created_at ts (ground arith) h.0), h)
  | inr e ↦
      rw (e, insert_newest)
        (
          All-insert_newest t.created_at s ts (ground arith) h.0,
          insert_newest-IsNewestFirst s ts h.1,
        )
]

newest_first-IsNewestFirst : (ss : List IncidentState) → IsNewestFirst (newest_first ss)
unfolding newest_first
newest_first-IsNewestFirst [] = tt
newest_first-IsNewestFirst (s ∷ ss) =
    insert_newest-IsNewestFirst s (newest_first ss) (newest_first-IsNewestFirst ss)

-- The incidents that a listing pages through stand in the order of their creation, the newest first,
-- and are the service's incidents that match the filters, each as often: of them, as many pass any
-- test as there are matching incidents that pass it.
pub found_exact :
    (filters : Filters) (svc : Service)
    → IsNewestFirst (found filters svc)
      × ((p : IncidentState → Bool)
          → count p (found filters svc)
            ≡ count (λ s. matches filters s && p s) (values svc.incidents))
unfolding found
found_exact filters svc = (
  newest_first-IsNewestFirst (keep_if (matches filters) (values svc.incidents)),
  λ p.
      count-newest_first p (keep_if (matches filters) (values svc.incidents))
      ∙ count-keep_if p (matches filters) (values svc.incidents),
)

take-nil : (n : ℕ) → take {A = IncidentState} n [] ≡ []
take-nil zero = refl
take-nil (suc n) = refl

drop-nil : (n : ℕ) → drop {A = IncidentState} n [] ≡ []
drop-nil zero = refl
drop-nil (suc n) = refl

map-pages :
    (f : IncidentState → IncidentResponse) (a b : ℕ) (ss : List IncidentState)
    → map f (take a ss) ++ map f (take b (drop a ss)) ≡ map f (take (a + b) ss)
map-pages f zero b ss = let e : zero + b ≡ b = omega arith in rw e refl
map-pages f (suc a) b [] = rw (take-nil b, take-nil (suc a + b)) refl
map-pages f (suc a) b (s ∷ ss) =
    let e : suc a + b ≡ suc (a + b) = omega arith in
    rw e (ap (λ rest. f s ∷ rest) (map-pages f a b ss))

drop-further : (n m : ℕ) (ss : List IncidentState) → drop m (drop n ss) ≡ drop (n + m) ss
drop-further zero m ss = let e : zero + m ≡ m = omega arith in rw e refl
drop-further (suc n) m [] = rw (drop-nil m, drop-nil (suc n + m)) refl
drop-further (suc n) m (s ∷ ss) =
    let e : suc n + m ≡ suc (n + m) = omega arith in rw e (drop-further n m ss)

pages_join :
    (filters : Filters) (a b offset now : ℕ) (svc : Service)
    → list_incidents filters a offset now svc ++ list_incidents filters b (offset + a) now svc
      ≡ list_incidents filters (a + b) offset now svc
unfolding list_incidents
pages_join filters a b offset now svc =
    rw (sym (drop-further offset a (found filters svc)))
      (map-pages (to_incident_response now) a b (drop offset (found filters svc)))

-- The first `n` pages of `a` incidents from the offset on, one after the other.
abbrev pub pages : Filters → ℕ → ℕ → ℕ → ℕ → Service → List IncidentResponse
pages filters a zero offset now svc = []
pages filters a (suc n) offset now svc =
    list_incidents filters a offset now svc ++ pages filters a n (offset + a) now svc

pages-list_incidents :
    (filters : Filters) (a n offset now : ℕ) (svc : Service)
    → pages filters a n offset now svc ≡ list_incidents filters (n * a) offset now svc
unfolding list_incidents
pages-list_incidents filters a zero offset now svc =
    let e : zero * a ≡ zero = omega arith in rw e refl
pages-list_incidents filters a (suc n) offset now svc =
    let e : suc n * a ≡ a + n * a = omega arith in
    rw (e, pages-list_incidents filters a n (offset + a) now svc)
      (pages_join filters a (n * a) offset now svc)

take-all : (n : ℕ) (ss : List IncidentState) → length ss ≤ n → take n ss ≡ ss
take-all zero [] h = refl
take-all zero (s ∷ ss) h = absurd (omega (arith, h))
take-all (suc n) [] h = refl
take-all (suc n) (s ∷ ss) h = ap (λ rest. s ∷ rest) (take-all n ss (omega (arith, h)))

length-insert_newest :
    (s : IncidentState) (ss : List IncidentState) → length (insert_newest s ss) ≡ suc (length ss)
unfolding insert_newest
length-insert_newest s [] = refl
length-insert_newest s (t ∷ ts) = ground (arith, length-insert_newest s ts)

length-newest_first : (ss : List IncidentState) → length (newest_first ss) ≡ length ss
unfolding newest_first
length-newest_first [] = refl
length-newest_first (s ∷ ss) =
    length-insert_newest s (newest_first ss) ∙ ap suc (length-newest_first ss)

found-bounded :
    (filters : Filters) (svc : Service) → length (found filters svc) ≤ length (values svc.incidents)
unfolding found
found-bounded filters svc =
    rw (length-newest_first (keep_if (matches filters) (values svc.incidents)))
      (length-keep_if (matches filters) (values svc.incidents))

-- A caller that asks for one page of `a` incidents after the other, `n` of them, where `n * a` is at
-- least the number of incidents, is shown the incidents that match its filters, each as often as the
-- service holds it, the newest first, and no other.
pub pages_exact :
    (filters : Filters) (a n now : ℕ) (svc : Service)
    → length (values svc.incidents) ≤ n * a
    → (listed : List IncidentState) × (pages filters a n 0 now svc
        ≡ map (to_incident_response now) listed)
      × IsNewestFirst listed
      × ((p : IncidentState → Bool)
          → count p listed ≡ count (λ s. matches filters s && p s) (values svc.incidents))
unfolding list_incidents
pages_exact filters a n now svc h =
    let exact = found_exact filters svc in
    let short : length (found filters svc) ≤ n * a = omega (arith, h, found-bounded filters svc) in
    (
      found filters svc,
      pages-list_incidents filters a n 0 now svc
          ∙ ap (map (to_incident_response now)) (take-all (n * a) (found filters svc) short),
      exact.0,
      exact.1,
    )
