-- ===== src/Broker/Delivery.antt =====
-- What every run of the broker keeps.
use ws_collab.Prelude.{
  ℕ, suc, ◌≤◌, ◌<◌, ◌≡◌, refl, subst, inl, inr, Bool, Option, none, some, List, [], ◌∷◌, arith,
  Bool-cases, length, All, length-append, nat_eq, Text,
}
use ws_collab.Dict
use ws_collab.Dict.{Dict, put, get}
use ws_collab.Dict.Keys.{Distinct, All-put, All-pop, Distinct-put, Distinct-pop, Held, All-get}
use ws_collab.Broker.{
  Subscription, Broker, enqueue, is_full, deliver, deliver_all, unsubscribe, without_first,
  subscribe, update, update_streams, publish, run_put, queue_get,
}

All-map {ℓ κ ι} :
    {A : Type ℓ} {P : A → Type κ} {Q : A → Type ι}
    → ((x : A) → P x → Q x)
    → (xs : List A) → All P xs
    → All Q xs
All-map f [] h = tt
All-map f (x ∷ xs) h = (f x h.0, All-map f xs h.1)

module _ {ℓ} (Event : Type ℓ) (stream : Event → Text) where
  -- A subscription lies under its number, which the counter has reached, its queue is within the
  -- bound, and holds no more than was delivered to it.
  abbrev pub IsBounded : ℕ → ℕ → ℕ × Subscription Event stream → Type 0
  IsBounded max_queue counter x =
      (x.0 ≡ x.1.id)
      × (x.0 ≤ counter)
      × (length x.1.queue ≤ max_queue)
      × (length x.1.queue ≤ x.1.delivered)

  pub record IsOrderly (b : Broker Event stream) : Type ℓ where
    pub positive : 0 < b.max_queue
    pub bounded : All (IsBounded b.max_queue b.counter) b.subs
    pub distinct : Distinct b.subs

  -- A change of the subscription of a number that keeps it bounded.
  put-IsOrderly :
      (b : Broker Event stream) (id : ℕ) (s : Subscription Event stream)
      → IsOrderly b
      → IsBounded b.max_queue b.counter (id, s)
      → IsOrderly (record b { subs = Dict.put b.subs id s })
  put-IsOrderly b id s h p = record {
    positive = h.positive;
    bounded = All-put (IsBounded b.max_queue b.counter) b.subs id s p h.bounded;
    distinct = Distinct-put b.subs id s h.distinct;
  }

  unsubscribe-IsOrderly :
      (id : ℕ) (b : Broker Event stream) → IsOrderly b → IsOrderly (unsubscribe Event stream id b)
  unfolding unsubscribe
  unsubscribe-IsOrderly id b h = record {
    positive = h.positive;
    bounded = All-pop (IsBounded b.max_queue b.counter) b.subs id h.bounded;
    distinct = Distinct-pop b.subs id h.distinct;
  }

  deliver-IsOrderly :
      (is_closed : ℕ → Bool) (e : Event) (s : Subscription Event stream) (b : Broker Event stream)
      → IsOrderly b
      → IsOrderly (deliver Event stream is_closed e s b)
  unfolding deliver
  deliver-IsOrderly is_closed e s b h = elim (Bool-cases (is_closed s.event_loop)) [
    | inl q ↦ rw (deliver, q) (unsubscribe-IsOrderly s.id b h)
    | inr q ↦
        rw (deliver, q)
          (record { positive = h.positive; bounded = h.bounded; distinct = h.distinct })
  ]

  deliver_all-IsOrderly :
      (is_closed : ℕ → Bool) (e : Event) (targets : List (Subscription Event stream))
      (b : Broker Event stream)
      → IsOrderly b
      → IsOrderly (deliver_all Event stream is_closed e targets b)
  unfolding deliver_all
  deliver_all-IsOrderly is_closed e [] b h = h
  deliver_all-IsOrderly is_closed e (s ∷ targets) b h =
      deliver_all-IsOrderly is_closed e targets (deliver Event stream is_closed e s b)
        (deliver-IsOrderly is_closed e s b h)

  enqueue-IsBounded :
      (n c id : ℕ) (e : Event) (s : Subscription Event stream)
      → 0 < n
      → IsBounded n c (id, s)
      → IsBounded n c (id, enqueue Event stream n e s)
  unfolding enqueue is_full
  enqueue-IsBounded n c id e s l h = ground (arith, length-append s.queue (e ∷ []))

  without_first-length : (es : List Event) → length (without_first Event stream es) ≤ length es
  without_first-length [] = omega arith
  without_first-length (e ∷ es) = omega arith

  -- A change of one subscription that is there, if it keeps it bounded, keeps the broker orderly.
  changed-IsOrderly :
      (b : Broker Event stream) (id : ℕ) (o : Option (Subscription Event stream))
      (f : Subscription Event stream → Subscription Event stream)
      → Dict.get b.subs id ≡ o
      → IsOrderly b
      → ((s : Subscription Event stream)
          → IsBounded b.max_queue b.counter (id, s)
          → IsBounded b.max_queue b.counter (id, f s))
      → IsOrderly (elim o as (λ _. Broker Event stream) [
        | none ↦ b
        | some s ↦ record b { subs = Dict.put b.subs id (f s) }
      ])
  changed-IsOrderly b id none f g h k = h
  changed-IsOrderly b id (some s) f g h k = put-IsOrderly b id (f s) h (
      k s (
        subst (Held (IsBounded b.max_queue b.counter) id) g
          (All-get (IsBounded b.max_queue b.counter) b.subs id h.bounded)))

  subscribe-IsOrderly :
      (streams : Option (List Text)) (l : ℕ) (p : Option (Event → Bool)) (b : Broker Event stream)
      → IsOrderly b
      → IsOrderly (subscribe Event stream streams l p b).1
  unfolding subscribe
  subscribe-IsOrderly streams l p b h =
      put-IsOrderly (record b { counter = suc b.counter }) (suc b.counter) _
        (record {
          positive = h.positive;
          bounded = All-map (λ x q. (q.0, omega arith, q.2, q.3)) b.subs h.bounded;
          distinct = h.distinct;
        })
        (refl, omega arith, omega arith, omega arith)

  -- One thing that happens to the broker: a call, a task of an event loop, or a client that takes
  -- an event.
  pub data Step : Broker Event stream → Broker Event stream → Type ℓ where
    subscribed :
        (streams : Option (List Text)) (l : ℕ) (p : Option (Event → Bool)) (b : Broker Event stream)
        → Step b (subscribe Event stream streams l p b).1
    unsubscribed : (id : ℕ) (b : Broker Event stream) → Step b (unsubscribe Event stream id b)
    updated :
        (id : ℕ) (streams : Option (List Text)) (p : Option (Event → Bool))
        (b : Broker Event stream)
        → Step b (update Event stream id streams p b)
    streams_updated :
        (id : ℕ) (streams : Option (List Text)) (b : Broker Event stream)
        → Step b (update_streams Event stream id streams b)
    published :
        (is_closed : ℕ → Bool) (e : Event) (b : Broker Event stream)
        → Step b (publish Event stream is_closed e b)
    put_run : (id : ℕ) (e : Event) (b : Broker Event stream) → Step b (run_put Event stream id e b)
    taken : (id : ℕ) (b : Broker Event stream) → Step b (queue_get Event stream id b)

  -- The broker after a run.
  pub data Reach : Broker Event stream → Broker Event stream → Type ℓ where
    done : (b : Broker Event stream) → Reach b b
    next : {a b c : Broker Event stream} → Step a b → Reach b c → Reach a c

  Step-IsOrderly : {a b : Broker Event stream} → Step a b → IsOrderly a → IsOrderly b
  unfolding update update_streams publish run_put queue_get
  Step-IsOrderly (subscribed streams l p b) h = subscribe-IsOrderly streams l p b h
  Step-IsOrderly (unsubscribed id b) h = unsubscribe-IsOrderly id b h
  Step-IsOrderly (updated id streams p b) h =
      changed-IsOrderly b id (Dict.get b.subs id)
        (λ s. record s { streams = streams; predicate = p }) refl h (λ s k. k)
  Step-IsOrderly (streams_updated id streams b) h =
      changed-IsOrderly b id (Dict.get b.subs id) (λ s. record s { streams = streams }) refl h
        (λ s k. k)
  Step-IsOrderly (published is_closed e b) h = deliver_all-IsOrderly is_closed e _ b h
  Step-IsOrderly (put_run id e b) h =
      changed-IsOrderly b id (Dict.get b.subs id) (enqueue Event stream b.max_queue e) refl h
        (λ s k. enqueue-IsBounded b.max_queue b.counter id e s h.positive k)
  Step-IsOrderly (taken id b) h =
      changed-IsOrderly b id (Dict.get b.subs id)
        (λ s. record s { queue = without_first Event stream s.queue }) refl h
        (λ s k. (
          k.0,
          k.1,
          omega (arith, without_first-length s.queue, k.2),
          omega (arith, without_first-length s.queue, k.3),
        ))

  -- In every run of calls, tasks of event loops and clients that take events, an orderly broker
  -- stays orderly: with a positive bound, each queue is within it and is no longer than what was
  -- delivered, and subscriptions have distinct numbers that the counter has reached.
  pub Reach-IsOrderly : {a b : Broker Event stream} → Reach a b → IsOrderly a → IsOrderly b
  Reach-IsOrderly (done b) h = h
  Reach-IsOrderly (next s r) h = Reach-IsOrderly r (Step-IsOrderly s h)
