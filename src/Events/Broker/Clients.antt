-- ===== src/Events/Broker/Clients.antt =====
-- The broker's bookkeeping: which clients its lists hold.
use ops_pilot_ai.Prelude.{
  ◌⊎◌, inl, inr, refl, ◌∙◌, eq_refl, ℕ, ◌<◌, String, ◌≡◌, refl, true, false, not, ◌&&◌, List, [],
  ◌∷◌, ◌++◌, arith, nat_eqb, if◌then◌else◌, ◌==◌, ℕ_eq, String_eq, elem, elem-append, nodup,
}
use ops_pilot_ai.Prelude.Assoc.{lookup, get_or, insert, lookup-insert, lookup-remove}
use ops_pilot_ai.Events.Broker.{
  disconnected, pulled, subscribed, inr, inl, published, is_terminal, pull, Step, deliver, step,
  run, Bool-cases, new_broker, Fields, eq_iff, publish, close, subscribe, EventRecord, Client,
  Broker, listeners, set_client, enqueue, broadcast, remove_queue, drop_empty,
}

-- The broker's lists hold each open client once, under its incident, and no other.
pub record IsWf (b : Broker) : Type 0 where
  pub fresh :
      (i : String) (q : ℕ)
      → elem q (listeners i b) ≡ true
      → (q < b.next_client) × ((b.clients q).incident_id ≡ i) × ((b.clients q).is_open ≡ true)
  pub once : (i : String) → nodup (listeners i b) ≡ true
  pub joined :
      (q : ℕ)
      → (b.clients q).is_open ≡ true
      → (q < b.next_client) × (elem q (listeners (b.clients q).incident_id b) ≡ true)

listeners-insert :
    (i j : String) (qs : List ℕ) (b : Broker)
    → get_or i [] (insert j qs b.subscribers) ≡ (if j == i then qs else listeners i b)
unfolding get_or
listeners-insert i j qs b = ground (arith, lookup-insert j i qs b.subscribers)

listeners-drop_empty :
    (i j : String) (qs : List ℕ) (b : Broker)
    → get_or i [] (drop_empty j qs b.subscribers) ≡ (if j == i then qs else listeners i b)
unfolding get_or
listeners-drop_empty i j [] b = ground (arith, lookup-remove j i b.subscribers)
listeners-drop_empty i j (q ∷ qs) b = ground (arith, lookup-insert j i (q ∷ qs) b.subscribers)

pub broadcast-client :
    (qs : List ℕ) (e : EventRecord) (clients : ℕ → Client) (q : ℕ)
    → nodup qs ≡ true
    → broadcast qs e clients q ≡ (if elem q qs then enqueue e (clients q) else clients q)
unfolding broadcast
broadcast-client [] e clients q u = refl
broadcast-client (x ∷ xs) e clients q u =
    ground (arith, broadcast-client xs e (set_client x (enqueue e (clients x)) clients) q)

elem-remove_queue :
    (q n : ℕ) (ns : List ℕ)
    → nodup ns ≡ true
    → elem n (remove_queue q ns) ≡ (elem n ns && not (nat_eqb n q))
unfolding remove_queue
elem-remove_queue q n [] u = refl
elem-remove_queue q n (x ∷ xs) u = ground (arith, elem-remove_queue q n xs)

nodup-remove_queue : (q : ℕ) (ns : List ℕ) → nodup ns ≡ true → nodup (remove_queue q ns) ≡ true
unfolding remove_queue
nodup-remove_queue q [] u = refl
nodup-remove_queue q (x ∷ xs) u = ground (arith, nodup-remove_queue q xs, elem-remove_queue q x xs)

nodup-snoc :
    (q : ℕ) (ns : List ℕ) → nodup ns ≡ true → elem q ns ≡ false → nodup (ns ++ q ∷ []) ≡ true
nodup-snoc q [] u h = refl
nodup-snoc q (x ∷ xs) u h = ground (arith, nodup-snoc q xs, elem-append x xs (q ∷ []))

pub listeners-publish :
    (i j t : String) (p : Fields) (b : Broker) → listeners i (publish j t p b) ≡ listeners i b
unfolding publish
listeners-publish i j t p b = listeners-insert i j (listeners j b) b ∙ ground (arith, eq_iff j i)

pub publish-IsWf : (j t : String) (p : Fields) (b : Broker) → IsWf b → IsWf (publish j t p b)
unfolding publish
publish-IsWf j t p b w =
    let e : EventRecord = record { event = t; payload = p } in
    let kept : (q : ℕ)
        → (((publish j t p b).clients q).is_open ≡ (b.clients q).is_open)
          × (((publish j t p b).clients q).incident_id ≡ (b.clients q).incident_id) =
      λ q. ground (arith, broadcast-client (listeners j b) e b.clients q (w.once j)) in
    record {
      fresh = λ i q h. ground (arith, kept q, listeners-publish i j t p b, w.fresh i q);
      once = λ i. ground (arith, listeners-publish i j t p b, w.once i);
      joined = λ q h.
          ground (arith, kept q, listeners-publish (b.clients q).incident_id j t p b, w.joined q);
    }

listeners-subscribe :
    (i j : String) (b : Broker)
    → listeners i (subscribe j b)
      ≡ (if j == i then listeners j b ++ b.next_client ∷ [] else listeners i b)
unfolding subscribe
listeners-subscribe i j b = listeners-insert i j (listeners j b ++ b.next_client ∷ []) b

pub subscribe-IsWf : (j : String) (b : Broker) → IsWf b → IsWf (subscribe j b)
unfolding subscribe
subscribe-IsWf j b w = record {
  fresh = λ i q h. ground (
    arith,
    eq_iff j i,
    listeners-subscribe i j b,
    w.fresh i q,
    elem-append q (listeners j b) (b.next_client ∷ []),
  );
  once = λ i. ground (
    arith,
    eq_iff j i,
    listeners-subscribe i j b,
    w.once i,
    w.once j,
    w.fresh j b.next_client,
    nodup-snoc b.next_client (listeners j b),
  );
  joined = λ q h. ground (
    arith,
    eq_refl j,
    eq_iff j (b.clients q).incident_id,
    listeners-subscribe j j b,
    listeners-subscribe (b.clients q).incident_id j b,
    w.joined q,
    elem-append q (listeners j b) (b.next_client ∷ []),
  );
}

listeners-close :
    (i : String) (q : ℕ) (b : Broker)
    → (b.clients q).is_open ≡ true
    → listeners i (close q b)
      ≡ (if (b.clients q).incident_id == i then remove_queue q (listeners i b) else listeners i b)
unfolding close
listeners-close i q b o = ground (
  arith,
  eq_iff (b.clients q).incident_id i,
  listeners-drop_empty i (b.clients q).incident_id
      (remove_queue q (listeners (b.clients q).incident_id b)) b,
)

closed-client :
    (q n : ℕ) (b : Broker)
    → (b.clients q).is_open ≡ true
    → ((close q b).clients n
        ≡ (if n == q then record (b.clients q) { is_open = false } else b.clients n))
      × ((close q b).next_client ≡ b.next_client)
unfolding close
closed-client q n b o = ground arith

close-open_IsWf : (q : ℕ) (b : Broker) → IsWf b → (b.clients q).is_open ≡ true → IsWf (close q b)
close-open_IsWf q b w o = record {
  fresh = λ i n h. ground (
    arith,
    eq_iff (b.clients q).incident_id i,
    closed-client q n b o,
    listeners-close i q b o,
    elem-remove_queue q n (listeners i b) (w.once i),
    w.fresh i n,
  );
  once =
      λ i. ground (arith, listeners-close i q b o, w.once i, nodup-remove_queue q (listeners i b));
  joined = λ n h. ground (
    arith,
    closed-client q n b o,
    listeners-close (b.clients n).incident_id q b o,
    w.once (b.clients n).incident_id,
    elem-remove_queue q n (listeners (b.clients n).incident_id b),
    w.joined n,
  );
}

close_closed : (q : ℕ) (b : Broker) → (b.clients q).is_open ≡ false → close q b ≡ b
unfolding close
close_closed q b o = rw (o, close) refl

pub close-IsWf : (q : ℕ) (b : Broker) → IsWf b → IsWf (close q b)
close-IsWf q b w = elim (Bool-cases (b.clients q).is_open) [
  | inl o ↦ close-open_IsWf q b w o
  | inr o ↦ rw (close_closed q b o) w
]

-- What `deliver` does before it closes the stream.
abbrev pub handed : ℕ → EventRecord → List EventRecord → Broker → Broker
handed q e rest b = record b {
  clients =
      set_client q
        (record (b.clients q) { queue = rest; delivered = (b.clients q).delivered ++ e ∷ [] })
        b.clients;
}

handed-IsWf :
    (q : ℕ) (e : EventRecord) (rest : List EventRecord) (b : Broker)
    → IsWf b
    → IsWf (handed q e rest b)
handed-IsWf q e rest b w =
    let kept : (n : ℕ)
        → (((handed q e rest b).clients n).is_open ≡ (b.clients n).is_open)
          × (((handed q e rest b).clients n).incident_id ≡ (b.clients n).incident_id) =
      λ n. ground arith in
    record {
      fresh = λ i n h. ground (arith, kept n, w.fresh i n);
      once = λ i. w.once i;
      joined = λ n h. ground (arith, kept n, w.joined n);
    }

deliver-IsWf :
    (q : ℕ) (e : EventRecord) (rest : List EventRecord) (b : Broker)
    → IsWf b
    → IsWf (deliver q e rest b)
unfolding deliver
deliver-IsWf q e rest b w = elim (Bool-cases (is_terminal e)) [
  | inl t ↦ rw (t, deliver) (close-IsWf q (handed q e rest b) (handed-IsWf q e rest b w))
  | inr t ↦ rw (t, deliver) (handed-IsWf q e rest b w)
]

-- A turn of the loop, by its outcomes.
pub pull-cases :
    (q : ℕ) (b : Broker)
    → (pull q b ≡ b)
      ⊎ ((e : EventRecord) × (rest : List EventRecord) × ((b.clients q).queue ≡ e ∷ rest)
          × ((b.clients q).is_open ≡ true)
          × (pull q b ≡ deliver q e rest b))
unfolding pull
pull-cases q b = by_queue (b.clients q).queue refl
  where
    by_queue :
        (events : List EventRecord)
        → (b.clients q).queue ≡ events
        → (pull q b ≡ b)
          ⊎ ((e : EventRecord) × (rest : List EventRecord) × ((b.clients q).queue ≡ e ∷ rest)
              × ((b.clients q).is_open ≡ true)
              × (pull q b ≡ deliver q e rest b))
    by_queue [] h = inl (rw (h, pull) refl)
    by_queue (e ∷ rest) h = elim (Bool-cases (b.clients q).is_open) [
      | inl o ↦ inr (e, rest, h, o, rw (h, pull) (rw o refl))
      | inr o ↦ inl (rw (h, pull) (rw o refl))
    ]

pub pull-IsWf : (q : ℕ) (b : Broker) → IsWf b → IsWf (pull q b)
pull-IsWf q b w = elim (pull-cases q b) [
  | inl e ↦ rw e w
  | inr (e, rest, h, o, p) ↦ rw p (deliver-IsWf q e rest b w)
]

pub step-IsWf : (s : Step) (b : Broker) → IsWf b → IsWf (step s b)
unfolding step
step-IsWf (published i t p) b w = publish-IsWf i t p b w
step-IsWf (subscribed i) b w = subscribe-IsWf i b w
step-IsWf (pulled q) b w = pull-IsWf q b w
step-IsWf (disconnected q) b w = close-IsWf q b w

new-IsWf : (size : ℕ) → IsWf (new_broker size)
unfolding new_broker get_or lookup
new-IsWf size = record {
  fresh = λ i q h. absurd (ground arith);
  once = λ i. refl;
  joined = λ q h. absurd (ground arith);
}

pub steps-IsWf : (ss : List Step) (b : Broker) → IsWf b → IsWf (run ss b)
unfolding run
steps-IsWf [] b w = w
steps-IsWf (s ∷ ss) b w = steps-IsWf ss (step s b) (step-IsWf s b w)

-- Every broker that steps lead to is well-formed: its lists hold each client whose stream is open,
-- once and under its incident, and no client whose stream has ended.
pub run-IsWf : (size : ℕ) (ss : List Step) → IsWf (run ss (new_broker size))
run-IsWf size ss = steps-IsWf ss (new_broker size) (new-IsWf size)
