-- ===== src/Tests/Events.antt =====
-- The event broker at concrete inputs.
use ops_pilot_ai.Prelude.Assoc.{insert, get_or}
use ops_pilot_ai.Prelude.{
  ◌≤◌, String, ◌≡◌, refl, false, List, [], ◌∷◌, ◌++◌, ℕ_eq, String_eq, length,
}
use ops_pilot_ai.Value.{end}
use ops_pilot_ai.Events.Broker.{
  is_terminal, deliver, remember, broadcast, publish, pull, step, EventRecord, Step, published,
  subscribed, pulled, new_broker, subscribe, run, history_of, events_for,
}
use ops_pilot_ai.Events.Broker.History.{last_n, history_is_last}
use ops_pilot_ai.Events.Broker.Clients.{IsWf, run-IsWf}
use ops_pilot_ai.Events.Broker.Streams.{stream, pulls, stream_complete, stream_ends}

abbrev news : String → EventRecord
news name = record { event = name; payload = end }

abbrev before : List Step
before =
    published "i" "a" end
    ∷ published "j" "x" end
    ∷ published "i" "b" end
    ∷ published "i" "c" end
    ∷ []

abbrev after : List Step
after = published "j" "y" end ∷ published "i" "resolved" end ∷ pulled 0 ∷ []

history_is_last_example :
    let hist = history_of "i" (run before (new_broker 2)) in
    (hist ≡ last_n 2 (events_for "i" before)) × (length hist ≤ 2)
history_is_last_example = history_is_last 2 "i" before

run-IsWf_example : IsWf (run (subscribed "i" ∷ after) (new_broker 2))
run-IsWf_example = run-IsWf 2 (subscribed "i" ∷ after)

stream_complete_example :
    stream 0 (run after (subscribe "i" (run before (new_broker 2))))
    ≡ last_n 2 (events_for "i" before) ++ events_for "i" after
unfolding run step pull publish broadcast new_broker subscribe get_or insert remember deliver
    is_terminal
stream_complete_example = stream_complete 2 "i" before after refl

stream_ends_example :
    let b = run (published "i" "resolved" end ∷ []) (subscribe "i" (run before (new_broker 2))) in
    let c = (pulls 3 0 b).clients 0 in
    (c.delivered ≡ news "b" ∷ news "c" ∷ news "resolved" ∷ [])
    × (c.queue ≡ [])
    × (c.is_open ≡ false)
unfolding run step publish broadcast get_or subscribe insert new_broker remember is_terminal
stream_ends_example =
    stream_ends 0 (news "b" ∷ news "c" ∷ []) [] (news "resolved")
      (run (published "i" "resolved" end ∷ []) (subscribe "i" (run before (new_broker 2)))) refl
      refl (refl, (refl, tt)) refl
