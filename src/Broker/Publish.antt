-- ===== src/Broker/Publish.antt =====
-- Whom `publish` of src/ws_collab/notify.py reaches, and the numbers of `subscribe`.
use ws_collab.Prelude.{
  ℕ, suc, ◌≤◌, ◌<◌, ◌≡◌, refl, sym, ◌∙◌, inl, inr, Bool, true, false, not, ◌&&◌, ◌||◌, Option, none,
  List, [], ◌∷◌, ◌++◌, map, append-nil, append_assoc, arith, if◌then◌else◌, Bool-cases, keep_if,
  All, ◌==◌, nat_eq, Text,
}
use ws_collab.Dict
use ws_collab.Dict.{Dict, values, get-pop}
use ws_collab.Broker.{
  Subscription, Broker, deliver, deliver_all, unsubscribe, subscribe, update, update_streams,
  publish, run_put, queue_get, matches,
}
use ws_collab.Broker.Delivery.{
  IsOrderly, Step, Reach, Reach-IsOrderly, subscribed, unsubscribed, updated, streams_updated,
  published, put_run, taken, done, next, IsBounded,
}

module _ {ℓ} (Event : Type ℓ) (stream : Event → Text) where
  abbrev pub is_open : (ℕ → Bool) → Subscription Event stream → Bool
  is_open is_closed s = not (is_closed s.event_loop)

  -- Whether one of the targets has this number and a closed loop.
  unfoldable pub is_lost : (ℕ → Bool) → ℕ → List (Subscription Event stream) → Bool
  is_lost is_closed j [] = false
  is_lost is_closed j (s ∷ targets) =
      (is_closed s.event_loop && s.id == j) || is_lost is_closed j targets

  -- What the delivery of an event leaves.
  pub record IsDelivered (is_closed : ℕ → Bool) (e : Event)
      (targets : List (Subscription Event stream)) (b b' : Broker Event stream) : Type ℓ where
    pub tasks :
        b'.tasks
        ≡ b.tasks
          ++ map
              (λ (s : Subscription Event stream). (s.id, e))
              (keep_if (is_open is_closed) targets)
    pub subs :
        (j : ℕ)
        → Dict.get b'.subs j ≡ (if is_lost is_closed j targets then none else Dict.get b.subs j)
    pub counter : b'.counter ≡ b.counter

  IsDelivered-closed :
      (is_closed : ℕ → Bool) (e : Event) (s : Subscription Event stream)
      (targets : List (Subscription Event stream)) (b b' : Broker Event stream)
      → is_closed s.event_loop ≡ true
      → IsDelivered is_closed e targets (unsubscribe Event stream s.id b) b'
      → IsDelivered is_closed e (s ∷ targets) b b'
  unfolding is_lost keep_if unsubscribe
  IsDelivered-closed is_closed e s targets b b' p h = record {
    tasks = rw p h.tasks;
    subs = λ j. ground (arith, p, h.subs j, get-pop b.subs s.id j);
    counter = h.counter;
  }

  IsDelivered-open :
      (is_closed : ℕ → Bool) (e : Event) (s : Subscription Event stream)
      (targets : List (Subscription Event stream)) (b b' : Broker Event stream)
      → is_closed s.event_loop ≡ false
      → IsDelivered is_closed e targets (record b { tasks = b.tasks ++ (s.id, e) ∷ [] }) b'
      → IsDelivered is_closed e (s ∷ targets) b b'
  unfolding is_lost keep_if
  IsDelivered-open is_closed e s targets b b' p h = record {
    tasks = rw p (h.tasks ∙ append_assoc b.tasks ((s.id, e) ∷ []) _);
    subs = λ j. rw p (h.subs j);
    counter = h.counter;
  }

  deliver_all-IsDelivered :
      (is_closed : ℕ → Bool) (e : Event) (targets : List (Subscription Event stream))
      (b : Broker Event stream)
      → IsDelivered is_closed e targets b (deliver_all Event stream is_closed e targets b)
  unfolding deliver_all is_lost keep_if deliver
  deliver_all-IsDelivered is_closed e [] b = record {
    tasks = sym (append-nil b.tasks);
    subs = λ j. refl;
    counter = refl;
  }
  deliver_all-IsDelivered is_closed e (s ∷ targets) b = elim (Bool-cases (is_closed s.event_loop)) [
    | inl p ↦
        rw (deliver_all, deliver, p)
          (IsDelivered-closed is_closed e s targets b _ p
            (deliver_all-IsDelivered is_closed e targets (unsubscribe Event stream s.id b)))
    | inr p ↦
        rw (deliver_all, deliver, p)
          (IsDelivered-open is_closed e s targets b _ p (
            deliver_all-IsDelivered is_closed e targets
              (record b { tasks = b.tasks ++ (s.id, e) ∷ [] })))
  ]

  counter-Step : {a b : Broker Event stream} → Step Event stream a b → a.counter ≤ b.counter
  unfolding subscribe unsubscribe update update_streams publish run_put queue_get
  counter-Step (subscribed streams l p b) = omega arith
  counter-Step (unsubscribed id b) = omega arith
  counter-Step (updated id streams p b) = ground arith
  counter-Step (streams_updated id streams b) = ground arith
  counter-Step (published is_closed e b) =
      let targets =
        keep_if (λ (s : Subscription Event stream). matches Event stream s e) (values b.subs) in
      omega (arith, (deliver_all-IsDelivered is_closed e targets b).counter)
  counter-Step (put_run id e b) = ground arith
  counter-Step (taken id b) = ground arith

  counter-Reach : {a b : Broker Event stream} → Reach Event stream a b → a.counter ≤ b.counter
  counter-Reach (done b) = omega arith
  counter-Reach (next s r) = omega (arith, counter-Step s, counter-Reach r)

  get-above :
      (m c : ℕ) (d : Dict ℕ (Subscription Event stream))
      → All (IsBounded Event stream m c) d
      → Dict.get d (suc c) ≡ none
  unfolding Dict.get
  get-above m c [] h = refl
  get-above m c ((j, s) ∷ d) h =
      let apart : (j == suc c) ≡ false = ground (arith, h.0.1) in rw apart (get-above m c d h.1)

  -- Publishing an event asks the loop of each subscription that matches it, and of no other, to put it
  -- once, in the order of the subscriptions and after what was asked before; only the matching
  -- subscriptions whose loops are closed are dropped, and the others stay as they are.
  pub publish-IsDelivered :
      (is_closed : ℕ → Bool) (e : Event) (b : Broker Event stream)
      → IsDelivered is_closed e
          (keep_if (λ (s : Subscription Event stream). matches Event stream s e) (values b.subs))
          b
          (publish Event stream is_closed e b)
  unfolding publish
  publish-IsDelivered is_closed e b =
      deliver_all-IsDelivered is_closed e
        (keep_if (λ (s : Subscription Event stream). matches Event stream s e) (values b.subs)) b

  -- In every run from a subscription on an orderly broker, the next subscription gets a greater number,
  -- which no other has; and the broker stays orderly: each queue is within the bound and no longer than
  -- what was delivered.
  pub subscribe-Reach :
      (streams streams2 : Option (List Text)) (l l2 : ℕ) (p p2 : Option (Event → Bool))
      (a b : Broker Event stream)
      → IsOrderly Event stream a
      → Reach Event stream (subscribe Event stream streams l p a).1 b
      → IsOrderly Event stream b
        × ((subscribe Event stream streams l p a).0.id
            < (subscribe Event stream streams2 l2 p2 b).0.id)
        × (Dict.get b.subs (subscribe Event stream streams2 l2 p2 b).0.id ≡ none)
  unfolding subscribe
  subscribe-Reach streams streams2 l l2 p p2 a b h r =
      let orderly = Reach-IsOrderly Event stream (next (subscribed streams l p a) r) h in
      (
        orderly,
        omega (arith, counter-Reach r),
        get-above b.max_queue b.counter b.subs orderly.bounded,
      )
