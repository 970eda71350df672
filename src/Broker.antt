-- ===== src/Broker.antt =====
-- src/ws_collab/notify.py: the broker between the writers and the clients that listen. A
-- subscription's loop and predicate are an event loop's name and a test; the queue of a
-- subscription is the list of the events that its client has not taken yet.
pub mod Delivery
pub mod Publish
use ws_collab.Prelude.{
  ℕ, suc, ◌+◌, Bool, true, false, ◌&&◌, Option, none, some, List, [], ◌∷◌, ◌++◌, ltb, leb,
  if◌then◌else◌, length, keep_if, ◌==◌, nat_eq, Text, text_eq,
}
use ws_collab.Dict
use ws_collab.Dict.{Dict, get, put, pop, values}

-- `x in xs`
unfoldable pub is_in : List Text → Text → Bool
is_in [] x = false
is_in (y ∷ xs) x = if y == x then true else is_in xs x

module _ {ℓ} (Event : Type ℓ) (stream : Event → Text) where
  pub record Subscription : Type ℓ where
    pub id : ℕ
    pub streams : Option (List Text)
    pub queue : List Event
    pub event_loop : ℕ
    pub predicate : Option (Event → Bool)
    pub dropped : ℕ
    pub delivered : ℕ

  -- `tasks` holds what the event loops have been asked to run: a subscription's `_put` of an event.
  pub record Broker : Type ℓ where
    pub subs : Dict ℕ Subscription
    pub tasks : List (ℕ × Event)
    pub counter : ℕ
    pub max_queue : ℕ

  abbrev pub on_streams : Option (List Text) → Event → Bool
  on_streams none e = true
  on_streams (some ss) e = is_in ss (stream e)

  abbrev pub passes : Option (Event → Bool) → Event → Bool
  passes none e = true
  passes (some p) e = p e

  unfoldable pub matches : Subscription → Event → Bool
  matches s e = on_streams s.streams e && passes s.predicate e

  unfoldable pub subscribe :
      Option (List Text) → ℕ → Option (Event → Bool) → Broker → Subscription × Broker
  subscribe streams event_loop predicate b =
      let id = suc b.counter in
      let s : Subscription = record {
        id = id;
        streams = streams;
        queue = [];
        event_loop = event_loop;
        predicate = predicate;
        dropped = 0;
        delivered = 0;
      } in
      (s, record b { subs = Dict.put b.subs id s; counter = id })

  unfoldable pub unsubscribe : ℕ → Broker → Broker
  unsubscribe id b = record b { subs = Dict.pop b.subs id }

  unfoldable pub update : ℕ → Option (List Text) → Option (Event → Bool) → Broker → Broker
  update id streams predicate b = elim (Dict.get b.subs id) [
    | none ↦ b
    | some s ↦ record b {
      subs = Dict.put b.subs id (record s { streams = streams; predicate = predicate });
    }
  ]

  unfoldable pub update_streams : ℕ → Option (List Text) → Broker → Broker
  update_streams id streams b = elim (Dict.get b.subs id) [
    | none ↦ b
    | some s ↦ record b { subs = Dict.put b.subs id (record s { streams = streams }) }
  ]

  -- `_put`: a queue whose bound is 0 has none.
  unfoldable pub is_full : ℕ → Subscription → Bool
  is_full max_queue s = ltb 0 max_queue && leb max_queue (length s.queue)

  unfoldable pub enqueue : ℕ → Event → Subscription → Subscription
  enqueue max_queue e s =
      if is_full max_queue s
      then record s { dropped = suc s.dropped }
      else record s { queue = s.queue ++ e ∷ []; delivered = suc s.delivered }

  -- `_deliver`, where some event loops are closed already.
  unfoldable pub deliver : (ℕ → Bool) → Event → Subscription → Broker → Broker
  deliver is_closed e s b =
      if is_closed s.event_loop
      then unsubscribe s.id b
      else record b { tasks = b.tasks ++ (s.id, e) ∷ [] }

  unfoldable pub deliver_all : (ℕ → Bool) → Event → List Subscription → Broker → Broker
  deliver_all is_closed e [] b = b
  deliver_all is_closed e (s ∷ targets) b =
      deliver_all is_closed e targets (deliver is_closed e s b)

  -- `publish`
  unfoldable pub publish : (ℕ → Bool) → Event → Broker → Broker
  publish is_closed e b = deliver_all is_closed e (keep_if (λ s. matches s e) (values b.subs)) b

  -- An event loop runs the `_put` of a subscription. One that is gone is no longer the broker's.
  unfoldable pub run_put : ℕ → Event → Broker → Broker
  run_put id e b = elim (Dict.get b.subs id) [
    | none ↦ b
    | some s ↦ record b { subs = Dict.put b.subs id (enqueue b.max_queue e s) }
  ]

  -- A client takes the oldest event of its queue.
  abbrev pub without_first : List Event → List Event
  without_first [] = []
  without_first (e ∷ es) = es

  unfoldable pub queue_get : ℕ → Broker → Broker
  queue_get id b = elim (Dict.get b.subs id) [
    | none ↦ b
    | some s ↦ record b { subs = Dict.put b.subs id (record s { queue = without_first s.queue }) }
  ]

  -- `stats`
  unfoldable pub sum_dropped : List Subscription → ℕ
  sum_dropped [] = 0
  sum_dropped (s ∷ ss) = s.dropped + sum_dropped ss

  unfoldable pub sum_delivered : List Subscription → ℕ
  sum_delivered [] = 0
  sum_delivered (s ∷ ss) = s.delivered + sum_delivered ss
