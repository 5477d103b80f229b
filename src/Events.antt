-- ===== src/Events.antt =====
-- The event bus, gateway/events.py: the ring of the last events, the queues of the subscribers, and
-- what a stream replays. A payload is whatever the event carries.
mod Lists
mod History
mod Tests
use ctrl_gateway.Prelude.{
  ℕ, zero, suc, ◌+◌, ◌-◌, Bool, true, false, not, ◌&&◌, ◌||◌, Option, none, some, List, [], ◌∷◌,
  ◌++◌, String, leb, ltb, ◌==◌, str_eq, keep, map, length, drop, if◌then◌else◌,
}

pub data EventSource : Type 0 where
  routing memory observer reflector trainer reviewer breaker security swarm translation plugin a2a
        webhook contextforge mcp prompt system :
      EventSource

-- The place of a source in the enumeration.
abbrev source_index : EventSource → ℕ
source_index routing = 0
source_index memory = 1
source_index observer = 2
source_index reflector = 3
source_index trainer = 4
source_index reviewer = 5
source_index breaker = 6
source_index security = 7
source_index swarm = 8
source_index translation = 9
source_index plugin = 10
source_index a2a = 11
source_index webhook = 12
source_index contextforge = 13
source_index mcp = 14
source_index prompt = 15
source_index system = 16

pub record Event : Type 0 where
  pub id : ℕ
  pub source : EventSource
  pub type : String
  pub tenant_id : Option String

-- A subscriber's `asyncio.Queue`, which has no bound when its `maxsize` is 0.
pub record Queue : Type 0 where
  pub maxsize : ℕ
  pub items : List Event

pub record EventBus : Type 0 where
  pub ring_buffer_size : ℕ
  pub ring : List Event
  pub subscribers : List Queue
  pub pending : List Event

abbrev pub same_source : EventSource → EventSource → Bool
same_source a b = source_index a == source_index b

-- The two filters of `recent` and `stream`.
abbrev pub is_wanted : Option EventSource → Option String → Event → Bool
is_wanted source tenant ev =
    elim source [ none ↦ true | some s ↦ same_source ev.source s ] && elim tenant [
      | none ↦ true
      | some t ↦ elim ev.tenant_id [ none ↦ true | some u ↦ str_eq u t ]
    ]

-- `deque(maxlen=n).append(x)`
pub push : {A : Type 0} → ℕ → A → List A → List A
push n x ring =
    let longer = ring ++ (x ∷ []) in if ltb n (length longer) then drop 1 longer else longer

-- `q.put_nowait(event)`, where a full queue loses the event.
pub put_nowait : Event → Queue → Queue
put_nowait ev q =
    if ltb 0 q.maxsize && leb q.maxsize (length q.items)
    then q
    else record q { items = q.items ++ (ev ∷ []) }

-- `publish`: on a running loop it starts a task that notifies the subscribers; without one they hear
-- nothing.
pub publish : Bool → Event → EventBus → EventBus
publish running ev b = record b {
  ring = push b.ring_buffer_size ev b.ring;
  pending = if running then b.pending ++ (ev ∷ []) else b.pending;
}

abbrev pub notify_first : List Event → EventBus → EventBus
notify_first [] b = b
notify_first (ev ∷ evs) b = record b {
  pending = evs;
  subscribers = map (put_nowait ev) b.subscribers;
}

-- The first of the tasks, `_notify`.
pub notify : EventBus → EventBus
notify b = notify_first b.pending b

-- `subscribe`
pub subscribe : ℕ → EventBus → EventBus
subscribe max_queue b = record b {
  subscribers = b.subscribers ++ (record { maxsize = max_queue; items = [] } ∷ []);
}

abbrev tail_at : ℕ → List Queue → List Queue
tail_at i [] = []
tail_at zero (q ∷ qs) = record q { items = drop 1 q.items } ∷ qs
tail_at (suc i) (q ∷ qs) = q ∷ tail_at i qs

abbrev remove_at : ℕ → List Queue → List Queue
remove_at i [] = []
remove_at zero (q ∷ qs) = qs
remove_at (suc i) (q ∷ qs) = q ∷ remove_at i qs

-- What happens at the bus: `get` is a subscriber's `await q.get()`, by the place of the subscriber.
pub data Step : Type 0 where
  publishes : Bool → Event → Step
  notifies : Step
  subscribes : ℕ → Step
  unsubscribes : ℕ → Step
  gets : ℕ → Step

pub step : Step → EventBus → EventBus
step (publishes running ev) b = publish running ev b
step notifies b = notify b
step (subscribes n) b = subscribe n b
step (unsubscribes i) b = record b { subscribers = remove_at i b.subscribers }
step (gets i) b = record b { subscribers = tail_at i b.subscribers }

pub run : List Step → EventBus → EventBus
run [] b = b
run (s ∷ ss) b = run ss (step s b)

-- `EventBus(ring_buffer_size=n)`
abbrev pub event_bus : ℕ → EventBus
event_bus n = record { ring_buffer_size = n; ring = []; subscribers = []; pending = [] }

-- The loop of `recent` over the ring from its end: it stops when it has `limit` events, which it tests
-- after each.
pub collect : ℕ → (Event → Bool) → ℕ → List Event → List Event
collect limit wanted have [] = []
collect limit wanted have (ev ∷ evs) =
    if wanted ev
    then (if leb limit (have + 1) then ev ∷ [] else ev ∷ collect limit wanted (have + 1) evs)
    else collect limit wanted have evs

pub reversed : {A : Type 0} → List A → List A
reversed [] = []
reversed (x ∷ xs) = reversed xs ++ (x ∷ [])

-- `recent`
pub recent : ℕ → Option EventSource → Option String → EventBus → List Event
recent limit source tenant b =
    reversed (collect limit (is_wanted source tenant) 0 (reversed b.ring))
