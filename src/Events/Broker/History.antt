-- ===== src/Events/Broker/History.antt =====
-- The replay buffer of `EventBroker`: the last events of each incident.
use ops_pilot_ai.Prelude.{
  ℕ, zero, suc, ◌-◌, ◌≤◌, ◌<◌, String, ◌≡◌, refl, sym, ap, ◌∙◌, inl, inr, List, [], ◌∷◌, ◌++◌,
  arith, eq_iff, ltb, leb, if◌then◌else◌, ◌==◌, ℕ_eq, String_eq, Bool-cases, length, drop,
  length-append, length-drop,
}
use mathlib.Core.List.{append_assoc, append-nil}
use ops_pilot_ai.Events.Broker.{deliver}
use ops_pilot_ai.Prelude.Assoc.{get_or, lookup, lookup-insert}
use ops_pilot_ai.Value.{Fields}
use ops_pilot_ai.Events.Broker.{
  EventRecord, Broker, Step, published, subscribed, pulled, disconnected, new_broker, remember,
  publish, subscribe, pull, close, step, run, events_for, history_of,
}

-- `xs[-n:]` for n > 0, and nothing for 0
abbrev pub last_n : ℕ → List EventRecord → List EventRecord
last_n n xs = drop (length xs - n) xs

drop-append :
    (n : ℕ) (xs ys : List EventRecord) → n ≤ length xs → drop n xs ++ ys ≡ drop n (xs ++ ys)
drop-append zero xs ys h = refl
drop-append (suc n) [] ys h = absurd (omega arith)
drop-append (suc n) (x ∷ xs) ys h = drop-append n xs ys (omega arith)

drop-drop : (n : ℕ) (xs : List EventRecord) → drop 1 (drop n xs) ≡ drop (suc n) xs
drop-drop zero xs = refl
drop-drop (suc n) [] = refl
drop-drop (suc n) (x ∷ xs) = drop-drop n xs

-- What is left of a list after one more trimming.
trim-drop :
    (size k : ℕ) (ys : List EventRecord)
    → suc k ≡ length ys - size
    → size < length ys
    → (if ltb size (length (drop k ys)) then drop 1 (drop k ys) else drop k ys) ≡ last_n size ys
trim-drop size k ys e h = rw (sym e) (ground (arith, length-drop k ys, drop-drop k ys))

trim-short :
    (size : ℕ) (ys : List EventRecord)
    → length ys ≤ size
    → (if ltb size (length ys) then drop 1 ys else ys) ≡ last_n size ys
trim-short size ys h = let z : length ys - size ≡ 0 = omega (arith, h) in rw z (ground arith)

-- One more event pushes out the oldest.
remember-last :
    (size : ℕ) (xs : List EventRecord) (e : EventRecord)
    → remember size (last_n size xs) e ≡ last_n size (xs ++ e ∷ [])
unfolding remember
remember-last size xs e =
    rw (drop-append (length xs - size) xs (e ∷ []) (omega arith))
      (elim (Bool-cases (leb size (length xs))) [
        | inl h ↦
            trim-drop size (length xs - size) (xs ++ e ∷ [])
              (ground (arith, length-append xs (e ∷ [])))
              (ground (arith, length-append xs (e ∷ [])))
        | inr h ↦
            let z : length xs - size ≡ 0 = ground arith in
            rw z (trim-short size (xs ++ e ∷ []) (ground (arith, length-append xs (e ∷ []))))
      ])

history-publish :
    (i j t : String) (p : Fields) (b : Broker)
    → history_of i (publish j t p b) ≡ (
        if j == i
        then remember b.history_buffer_size (history_of i b) (record { event = t; payload = p })
        else history_of i b)
unfolding publish get_or
history-publish i j t p b = ground (
  arith,
  eq_iff j i,
  lookup-insert j i
      (remember b.history_buffer_size (history_of j b) (record { event = t; payload = p }))
      b.history,
)

-- What no other step than `publish` changes.
abbrev Same : Broker → Broker → Type 0
Same b c = (b.history ≡ c.history) × (b.history_buffer_size ≡ c.history_buffer_size)

close-Same : (q : ℕ) (b : Broker) → Same (close q b) b
unfolding close
close-Same q b = ground arith

deliver-Same :
    (q : ℕ) (e : EventRecord) (rest : List EventRecord) (b : Broker) → Same (deliver q e rest b) b
unfolding deliver close
deliver-Same q e rest b = ground arith

pull-Same : (q : ℕ) (b : Broker) → Same (pull q b) b
unfolding pull
pull-Same q b = pulled_one (b.clients q).queue
  where
    pulled_one :
        (events : List EventRecord)
        → Same
            (elim events [
              | [] ↦ b
              | e ∷ rest ↦ if (b.clients q).is_open then deliver q e rest b else b
            ])
            b
    pulled_one [] = (refl, refl)
    pulled_one (e ∷ rest) = ground (arith, deliver-Same q e rest b)

subscribe-Same : (i : String) (b : Broker) → Same (subscribe i b) b
unfolding subscribe
subscribe-Same i b = (refl, refl)

size-step : (s : Step) (b : Broker) → (step s b).history_buffer_size ≡ b.history_buffer_size
unfolding step publish subscribe
size-step (published i t p) b = refl
size-step (subscribed i) b = refl
size-step (pulled q) b = (pull-Same q b).1
size-step (disconnected q) b = (close-Same q b).1

-- The share of incident `i` in an event for `j`.
abbrev own : String → String → EventRecord → List EventRecord
own i j e = if j == i then e ∷ [] else []

-- One step adds what it publishes.
history-publish_last :
    (i j t : String) (p : Fields) (b : Broker) (xs : List EventRecord)
    → history_of i b ≡ last_n b.history_buffer_size xs
    → history_of i (publish j t p b)
      ≡ last_n b.history_buffer_size (xs ++ own i j (record { event = t; payload = p }))
history-publish_last i j t p b xs h = history-publish i j t p b ∙ elim (Bool-cases (j == i)) [
  | inl e ↦ rw (e, h) (remember-last b.history_buffer_size xs (record { event = t; payload = p }))
  | inr e ↦ rw (e, append-nil) h
]

history-run :
    (i : String) (size : ℕ) (ss : List Step) (b : Broker) (xs : List EventRecord)
    → b.history_buffer_size ≡ size
    → history_of i b ≡ last_n size xs
    → history_of i (run ss b) ≡ last_n size (xs ++ events_for i ss)
unfolding run step events_for
history-run i size [] b xs z h = rw append-nil h
history-run i size (published j t p ∷ ss) b xs z h =
    history-run i size ss (publish j t p b) (xs ++ own i j (record { event = t; payload = p }))
      (size-step (published j t p) b ∙ z)
      (history-publish_last i j t p b xs (rw z h)
        ∙ ap (λ n. last_n n (xs ++ own i j (record { event = t; payload = p }))) z)
    ∙ ap (last_n size) (
        ground (
          arith,
          append_assoc xs (record { event = t; payload = p } ∷ []) (events_for i ss),
          append-nil xs,
        ))
history-run i size (subscribed j ∷ ss) b xs z h =
    history-run i size ss (subscribe j b) xs (size-step (subscribed j) b ∙ z)
      (ground (arith, subscribe-Same j b))
history-run i size (pulled q ∷ ss) b xs z h =
    history-run i size ss (pull q b) xs (size-step (pulled q) b ∙ z) (ground (arith, pull-Same q b))
history-run i size (disconnected q ∷ ss) b xs z h =
    history-run i size ss (close q b) xs (size-step (disconnected q) b ∙ z)
      (ground (arith, close-Same q b))

-- After any steps of a new broker, the history of an incident is the last `history_buffer_size`
-- events that were published for it, in order, whatever was published for other incidents and
-- whatever clients did; so it never holds more than `history_buffer_size`.
pub history_is_last :
    (size : ℕ) (i : String) (ss : List Step)
    → let hist = history_of i (run ss (new_broker size)) in
      (hist ≡ last_n size (events_for i ss)) × (length hist ≤ size)
unfolding new_broker get_or lookup
history_is_last size i ss =
    let e = history-run i size ss (new_broker size) [] refl (ground arith) in
    (e, rw e (omega (arith, length-drop (length (events_for i ss) - size) (events_for i ss))))
