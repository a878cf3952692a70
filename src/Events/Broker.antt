-- ===== src/Events/Broker.antt =====
-- apps/api/services/event_stream.py: `EventBroker`. The queues are objects that the broker's lists and
-- the generators share: a client stands for one call of `subscribe`, with its queue and what its
-- generator has yielded, and the lists hold the clients' numbers. The lock makes `publish`, the
-- registration and the removal atomic steps; a turn of the generator's loop is the step `pull`.
-- The time stamps of events and pings are left out.
pub mod History
pub mod Clients
pub mod Streams
use ops_pilot_ai.Prelude.{
  ℕ, zero, suc, ◌+◌, ◌-◌, ◌*◌, ◌/◌, ◌%◌, ◌≤◌, ◌<◌, min, max, String, ◌≡◌, refl, sym, ap, ◌∙◌, ◌≢◌,
  ◌↔◌, ◌⊎◌, inl, inr, Bool, true, false, not, ◌&&◌, ◌||◌, Option, none, some, List, [], ◌∷◌, ◌++◌,
  map, arith, eq_iff, eq_refl, ltb, leb, nat_eqb, nat_eqb_iff, if◌then◌else◌, Eq, ◌==◌, ℕ_eq,
  String_eq, Bool-cases, Option-cases, length, take, drop, head?, last?, keep_if, find_if, any_of,
  All, length-append, length-drop, All-append, All-keep_if, elem, elem-append, nodup,
}
use ops_pilot_ai.Prelude.Assoc.{Assoc, get_or, insert, remove}
use ops_pilot_ai.Value.{Fields}
use ops_pilot_ai.Value.Text.{dumps}

pub record EventRecord : Type 0 where
  pub event : String
  pub payload : Fields

pub record Client : Type 0 where
  pub incident_id : String
  pub queue : List EventRecord
  pub delivered : List EventRecord
  pub is_open : Bool

pub record Broker : Type 0 where
  pub subscribers : Assoc (List ℕ)
  pub history : Assoc (List EventRecord)
  pub history_buffer_size : ℕ
  pub clients : ℕ → Client
  pub next_client : ℕ

-- `EventBroker(history_buffer_size)`
unfoldable pub new_broker : ℕ → Broker
new_broker size = record {
  subscribers = [];
  history = [];
  history_buffer_size = size;
  clients = λ q. record { incident_id = ""; queue = []; delivered = []; is_open = false };
  next_client = 0;
}

abbrev pub listeners : String → Broker → List ℕ
listeners i b = get_or i [] b.subscribers

abbrev pub history_of : String → Broker → List EventRecord
history_of i b = get_or i [] b.history

abbrev pub set_client : ℕ → Client → (ℕ → Client) → ℕ → Client
set_client q c clients n = if n == q then c else clients n

-- `hist.append(event)`, and `hist.pop(0)` where that is too long
unfoldable pub remember : ℕ → List EventRecord → EventRecord → List EventRecord
remember size hist e =
    let longer = hist ++ e ∷ [] in if ltb size (length longer) then drop 1 longer else longer

abbrev pub enqueue : EventRecord → Client → Client
enqueue e c = record c { queue = c.queue ++ e ∷ [] }

-- `for q in queues: await q.put(event_record)`
unfoldable pub broadcast : List ℕ → EventRecord → (ℕ → Client) → ℕ → Client
broadcast [] e clients = clients
broadcast (q ∷ qs) e clients = broadcast qs e (set_client q (enqueue e (clients q)) clients)

unfoldable pub publish : String → String → Fields → Broker → Broker
publish incident_id event_type payload b =
    let e : EventRecord = record { event = event_type; payload = payload } in
    record b {
      history =
          insert incident_id (remember b.history_buffer_size (history_of incident_id b) e)
            b.history;
      subscribers = insert incident_id (listeners incident_id b) b.subscribers;
      clients = broadcast (listeners incident_id b) e b.clients;
    }

-- The registration: a queue with the recent history.
unfoldable pub subscribe : String → Broker → Broker
subscribe incident_id b = record b {
  subscribers = insert incident_id (listeners incident_id b ++ b.next_client ∷ []) b.subscribers;
  clients =
      set_client b.next_client
        (record {
          incident_id = incident_id;
          queue = history_of incident_id b;
          delivered = [];
          is_open = true;
        })
        b.clients;
  next_client = suc b.next_client;
}

-- `queues.remove(queue)`, where it is among them
unfoldable pub remove_queue : ℕ → List ℕ → List ℕ
remove_queue q [] = []
remove_queue q (n ∷ ns) = let rest = remove_queue q ns in if n == q then ns else n ∷ rest

abbrev pub drop_empty : String → List ℕ → Assoc (List ℕ) → Assoc (List ℕ)
drop_empty i [] subscribers = remove i subscribers
drop_empty i (q ∷ qs) subscribers = insert i (q ∷ qs) subscribers

-- The `finally` of the generator: at its end, or when the client disconnects.
unfoldable pub close : ℕ → Broker → Broker
close q b =
    if (b.clients q).is_open
    then record b {
      subscribers =
          drop_empty (b.clients q).incident_id
            (remove_queue q (listeners (b.clients q).incident_id b)) b.subscribers;
      clients = set_client q (record (b.clients q) { is_open = false }) b.clients;
    }
    else b

unfoldable pub is_terminal : EventRecord → Bool
is_terminal e = elem e.event ("resolved" ∷ "failed" ∷ "escalated" ∷ [])

-- `yield` of an event that was taken from the queue, and the end of the stream after a terminal one.
-- The generator is taken to resume after its `yield` in the same turn: what is published before it
-- does would stay, undelivered, in a queue that is about to be removed.
unfoldable pub deliver : ℕ → EventRecord → List EventRecord → Broker → Broker
deliver q e rest b =
    let b' = record b {
      clients =
          set_client q
            (record (b.clients q) { queue = rest; delivered = (b.clients q).delivered ++ e ∷ [] })
            b.clients;
    } in
    if is_terminal e then close q b' else b'

-- One turn of the loop. On an empty queue the client gets a ping, and nothing changes.
unfoldable pub pull : ℕ → Broker → Broker
pull q b = elim (b.clients q).queue [
  | [] ↦ b
  | e ∷ rest ↦ if (b.clients q).is_open then deliver q e rest b else b
]

-- What the generator yields for an event.
unfoldable pub frame_of : EventRecord → String × String
frame_of e = (e.event, dumps e.payload)

pub data Step : Type 0 where
  published : (incident_id event_type : String) → (payload : Fields) → Step
  subscribed : (incident_id : String) → Step
  pulled : (client : ℕ) → Step
  disconnected : (client : ℕ) → Step

unfoldable pub step : Step → Broker → Broker
step (published i t p) b = publish i t p b
step (subscribed i) b = subscribe i b
step (pulled q) b = pull q b
step (disconnected q) b = close q b

unfoldable pub run : List Step → Broker → Broker
run [] b = b
run (s ∷ ss) b = run ss (step s b)

-- The events that the steps publish for an incident, in order.
unfoldable pub events_for : String → List Step → List EventRecord
events_for i [] = []
events_for i (published j t p ∷ ss) =
    let rest = events_for i ss in if j == i then record { event = t; payload = p } ∷ rest else rest
events_for i (_ ∷ ss) = events_for i ss
