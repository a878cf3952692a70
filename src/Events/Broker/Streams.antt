-- ===== src/Events/Broker/Streams.antt =====
-- What a client of `EventBroker` receives.
use ops_pilot_ai.Prelude.{
  ℕ, zero, suc, ◌≤◌, ◌<◌, String, ◌≡◌, refl, ◌∙◌, inl, inr, true, false, not, List, [], ◌∷◌, ◌++◌,
  arith, eq_iff, if◌then◌else◌, ◌==◌, ℕ_eq, String_eq, length, All,
}
use mathlib.Core.List.{append_assoc, append-nil}
use ops_pilot_ai.Value.{Fields}
use ops_pilot_ai.Events.Broker.{
  broadcast, EventRecord, Client, Broker, Step, published, subscribed, pulled, disconnected,
  new_broker, publish, subscribe, pull, deliver, close, step, run, listeners, history_of,
  set_client, enqueue, is_terminal, events_for,
}
use ops_pilot_ai.Events.Broker.Clients.{
  subscribe-IsWf, IsWf, broadcast-client, handed, pull-cases, step-IsWf, run-IsWf,
}
use ops_pilot_ai.Events.Broker.History.{last_n, history_is_last}

-- What a client was given and what waits for it.
abbrev pub stream : ℕ → Broker → List EventRecord
stream q b = (b.clients q).delivered ++ (b.clients q).queue

-- A step that gives client `q` nothing new.
abbrev Quiet : ℕ → Broker → Broker → Type 0
Quiet q b c = (stream q c ≡ stream q b) × ((c.clients q).incident_id ≡ (b.clients q).incident_id)

close-Quiet : (n q : ℕ) (b : Broker) → Quiet q b (close n b)
unfolding close
close-Quiet n q b = ground arith

handed-Quiet :
    (n q : ℕ) (e : EventRecord) (rest : List EventRecord) (b : Broker)
    → (b.clients n).queue ≡ e ∷ rest
    → Quiet q b (handed n e rest b)
handed-Quiet n q e rest b h = ground (arith, append_assoc (b.clients n).delivered (e ∷ []) rest)

deliver-Quiet :
    (n q : ℕ) (e : EventRecord) (rest : List EventRecord) (b : Broker)
    → (b.clients n).queue ≡ e ∷ rest
    → Quiet q b (deliver n e rest b)
unfolding deliver
deliver-Quiet n q e rest b h =
    ground (arith, handed-Quiet n q e rest b h, close-Quiet n q (handed n e rest b))

pull-Quiet : (n q : ℕ) (b : Broker) → Quiet q b (pull n b)
pull-Quiet n q b = elim (pull-cases n b) [
  | inl e ↦ rw e (refl, refl)
  | inr (e, rest, h, o, p) ↦ rw p (deliver-Quiet n q e rest b h)
]

subscribe-Quiet : (i : String) (q : ℕ) (b : Broker) → q < b.next_client → Quiet q b (subscribe i b)
unfolding subscribe
subscribe-Quiet i q b h = ground arith

publish-stream :
    (q : ℕ) (j t : String) (p : Fields) (b : Broker)
    → IsWf b
    → (b.clients q).is_open ≡ true
    → (stream q (publish j t p b)
        ≡ stream q b
          ++ (if j == (b.clients q).incident_id
              then record { event = t; payload = p } ∷ []
              else []))
      × (((publish j t p b).clients q).incident_id ≡ (b.clients q).incident_id)
unfolding publish
publish-stream q j t p b w o =
    let e : EventRecord = record { event = t; payload = p } in
    ground (
      arith,
      broadcast-client (listeners j b) e b.clients q (w.once j),
      w.fresh j q,
      w.joined q o,
      eq_iff j (b.clients q).incident_id,
      append_assoc (b.clients q).delivered (b.clients q).queue (e ∷ []),
      append-nil (stream q b),
    )

-- Steps do not open the stream of a client that is there, nor take its number away.
abbrev Later : ℕ → Broker → Broker → Type 0
Later q b c =
    (b.next_client ≤ c.next_client) × ((c.clients q).is_open ≡ true → (b.clients q).is_open ≡ true)

close-Later : (n q : ℕ) (b : Broker) → Later q b (close n b)
unfolding close
close-Later n q b = ground arith

deliver-Later :
    (n q : ℕ) (e : EventRecord) (rest : List EventRecord) (b : Broker)
    → Later q b (deliver n e rest b)
unfolding deliver
deliver-Later n q e rest b = ground (arith, close-Later n q (handed n e rest b))

pull-Later : (n q : ℕ) (b : Broker) → Later q b (pull n b)
pull-Later n q b = elim (pull-cases n b) [
  | inl e ↦ rw e (omega arith, λ o. o)
  | inr (e, rest, h, o, p) ↦ rw p (deliver-Later n q e rest b)
]

broadcast-open :
    (qs : List ℕ) (e : EventRecord) (clients : ℕ → Client) (q : ℕ)
    → (broadcast qs e clients q).is_open ≡ (clients q).is_open
unfolding broadcast
broadcast-open [] e clients q = refl
broadcast-open (n ∷ ns) e clients q =
    ground (arith, broadcast-open ns e (set_client n (enqueue e (clients n)) clients) q)

step-Later : (q : ℕ) (s : Step) (b : Broker) → q < b.next_client → Later q b (step s b)
unfolding step publish subscribe
step-Later q (published i t p) b h =
    ground (arith, broadcast-open (listeners i b) (record { event = t; payload = p }) b.clients q)
step-Later q (subscribed i) b h = ground arith
step-Later q (pulled n) b h = pull-Later n q b
step-Later q (disconnected n) b h = close-Later n q b

run-Later : (q : ℕ) (ss : List Step) (b : Broker) → q < b.next_client → Later q b (run ss b)
unfolding run
run-Later q [] b h = (omega arith, λ o. o)
run-Later q (s ∷ ss) b h = ground (arith, step-Later q s b h, run-Later q ss (step s b))

step-stream :
    (q : ℕ) (s : Step) (b : Broker)
    → IsWf b
    → (b.clients q).is_open ≡ true
    → (stream q (step s b) ≡ stream q b ++ events_for (b.clients q).incident_id (s ∷ []))
      × (((step s b).clients q).incident_id ≡ (b.clients q).incident_id)
unfolding step events_for
step-stream q (published i t p) b w o = publish-stream q i t p b w o
step-stream q (subscribed i) b w o = rw append-nil (subscribe-Quiet i q b (w.joined q o).0)
step-stream q (pulled n) b w o = rw append-nil (pull-Quiet n q b)
step-stream q (disconnected n) b w o = rw append-nil (close-Quiet n q b)

events-cons :
    (i : String) (s : Step) (ss : List Step)
    → events_for i (s ∷ ss) ≡ events_for i (s ∷ []) ++ events_for i ss
unfolding events_for
events-cons i (published j t p) ss = ground arith
events-cons i (subscribed j) ss = refl
events-cons i (pulled n) ss = refl
events-cons i (disconnected n) ss = refl

run-stream :
    (q : ℕ) (ss : List Step) (b : Broker)
    → IsWf b
    → (b.clients q).is_open ≡ true
    → ((run ss b).clients q).is_open ≡ true
    → stream q (run ss b) ≡ stream q b ++ events_for (b.clients q).incident_id ss
unfolding run events_for
run-stream q [] b w o l = rw append-nil refl
run-stream q (s ∷ ss) b w o l =
    let i : String = (b.clients q).incident_id in
    let (grown, same) = step-stream q s b w o in
    let still =
      (run-Later q ss (step s b)
          (omega (arith, (w.joined q o).0, (step-Later q s b (w.joined q o).0).0))).1
        l in
    rw (run-stream q ss (step s b) (step-IsWf s b w) still l) (
      rw (grown, same)
        (rw (events-cons i s ss)
          (append_assoc (stream q b) (events_for i (s ∷ [])) (events_for i ss))))

subscribed-stream :
    (i : String) (b : Broker)
    → let c = subscribe i b in
      (stream b.next_client c ≡ history_of i b)
      × ((c.clients b.next_client).incident_id ≡ i)
      × ((c.clients b.next_client).is_open ≡ true)
unfolding subscribe
subscribed-stream i b = ground arith

-- A client that subscribes to incident `i` after the steps `before` of a new broker, and whose stream
-- is still open after the further steps `after`: what it was given, with what waits in its queue, is
-- the last `history_buffer_size` events published for `i` before, followed by every event published
-- for `i` after, in order, each once, and none of another incident.
pub stream_complete :
    (size : ℕ) (i : String) (before after : List Step)
    → let b = run before (new_broker size) in
      let c = run after (subscribe i b) in
      (c.clients b.next_client).is_open ≡ true
      → stream b.next_client c ≡ last_n size (events_for i before) ++ events_for i after
stream_complete size i before after l =
    let b = run before (new_broker size) in
    let (s, e, o) = subscribed-stream i b in
    rw
      (run-stream b.next_client after (subscribe i b) (subscribe-IsWf i b (run-IsWf size before)) o
        l)
      (rw (s, e) (rw (history_is_last size i before).0 refl))

-- `n` turns of the loop.
abbrev pub pulls : ℕ → ℕ → Broker → Broker
pulls zero q b = b
pulls (suc n) q b = pulls n q (pull q b)

pull-next :
    (q : ℕ) (e : EventRecord) (rest : List EventRecord) (b : Broker)
    → (b.clients q).is_open ≡ true
    → (b.clients q).queue ≡ e ∷ rest
    → let c = (pull q b).clients q in
      (c.delivered ≡ (b.clients q).delivered ++ e ∷ [])
      × (c.queue ≡ rest)
      × (c.is_open ≡ not (is_terminal e))
unfolding pull deliver close
pull-next q e rest b o h = ground arith

-- A client whose queue holds a terminal event after some that are not: as many turns of the loop as
-- there are events up to the terminal one give it those events, in order, and end its stream. What
-- stands behind the terminal event stays in the queue.
pub stream_ends :
    (q : ℕ) (xs ys : List EventRecord) (e : EventRecord) (b : Broker)
    → (b.clients q).is_open ≡ true
    → (b.clients q).queue ≡ xs ++ e ∷ ys
    → All (λ x. is_terminal x ≡ false) xs
    → is_terminal e ≡ true
    → let c = (pulls (suc (length xs)) q b).clients q in
      (c.delivered ≡ (b.clients q).delivered ++ (xs ++ e ∷ []))
      × (c.queue ≡ ys)
      × (c.is_open ≡ false)
stream_ends q [] ys e b o h n t = ground (arith, pull-next q e ys b o h)
stream_ends q (x ∷ xs) ys e b o h n t =
    let (d, r, k) = pull-next q x (xs ++ e ∷ ys) b o h in
    let (d', r', k') = stream_ends q xs ys e (pull q b) (rw k (rw n.0 refl)) r n.1 t in
    (d' ∙ rw d (append_assoc (b.clients q).delivered (x ∷ []) (xs ++ e ∷ [])), r', k')
