-- ===== src/Tts/Steps.antt =====
-- The calls of the speech queue and the turns of its loop, and what holds in every run of them.
use ws_collab.Tts.Speak.{
  candidate, speak_text, admit, enqueue, is_duplicate, interrupted, give_floor, open_floor,
  invalidate_floor, invalidate_all_floors, Request,
}
use ws_collab.Texts.{Unicode}
use ws_collab.Tts.Playing.{begin-IsSound, finish-IsSound, next_item-IsSound}
use ws_collab.Tts.Sound.{
  follow_all, IsSound, cancel_current-IsSound, cancel-IsSound, admit-IsSound, open_floor-IsSound,
  cancel_where-IsQueue, invalidate_floor-IsSound, invalidate_all-IsSound,
}
use ws_collab.Prelude.{
  ℕ, ◌≡◌, refl, ap, ◌∙◌, inl, inr, Bool, true, false, not, ◌||◌, Option, none, some, List, [],
  arith, Bool-cases, Option-cases, nat_eq, Text, text_eq,
}
use ws_collab.Tts.{
  floor_eq, Item, Engine, is_blocked, cancel, cancel_current, cancel_agent,
  cancel_current_conversational, pause, is_conversational, resume, mute, unmute, Grant,
}
use ws_collab.Tts.Playback.{begin, begin_item, finish}

abbrev pub new_engine : Engine
new_engine = record {
  pending = [];
  current = none;
  paused_global = false;
  muted_agents = [];
  paused_agents = [];
  recent = [];
  floor_open = [];
  last_spoken = [];
  published = [];
  route_cancelled = [];
}

-- Who is paused or muted does not matter.
settings-IsSound :
    (e : Engine) (paused : Bool) (muted_list paused_list : List Text)
    → IsSound e
    → IsSound (record e {
      paused_global = paused;
      muted_agents = muted_list;
      paused_agents = paused_list;
    })
settings-IsSound e paused muted_list paused_list s = record {
  in_order = s.in_order;
  scoped = s.scoped;
  in_turn = s.in_turn;
}

unfoldable pub speaks : Option Item → Bool
speaks none = false
speaks (some item) = true

module _ (u : Unicode) (window : ℕ) (has_route : Bool) where
  -- One call from outside of the engine's loop.
  pub data Call (e : Engine) : Engine → Type 0 where
    spoken :
        (guard : Option (Item → Bool)) (now : ℕ) (id : Text) (r : Request) (text : Text)
        → Call e (speak_text u window has_route guard now id r text e).1
    cancelled : (id : Text) → Call e (cancel has_route id e).1
    agent_cancelled : (agent_id : Text) → Call e (cancel_agent agent_id e).1
    silenced : Call e (cancel_current_conversational has_route e).1
    paused : (agent : Option Text) → Call e (pause agent e)
    resumed : (agent : Option Text) → Call e (resume agent e)
    muted : (agent_id : Text) → Call e (mute agent_id e)
    unmuted : (agent_id : Text) → Call e (unmute agent_id e)
    opened : (meeting_url : Text) (grant : Grant) → Call e (open_floor meeting_url grant e).1
    invalidated :
        (meeting_url : Text) (waiters : Bool) (profile : Text)
        → Call e (invalidate_floor meeting_url waiters profile e).1
    all_invalidated : (waiters : Bool) → Call e (invalidate_all_floors waiters e).1

  -- What a new engine comes to, and whether its loop waits for a playback. The loop `_run` calls
  -- `process_next` one after the other: it begins an item, and goes on when its playback has ended. Calls
  -- come in between. The runs are those from `start` to `stop`, and no one else calls `process_next`.
  pub data Reach : Bool → Engine → Type 0 where
    fresh : Reach false new_engine
    called :
        {is_waiting : Bool} {e e' : Engine} → Reach is_waiting e → Call e e' → Reach is_waiting e'
    begun :
        {e : Engine} (is_waiting : Bool) (now : ℕ) (guard again : Option (Item → Bool))
        → Reach false e
        → (begin now guard again e).0 ≡ is_waiting
        → Reach is_waiting (begin now guard again e).1
    finished : {e : Engine} → Reach true e → Reach false (finish e)

  Call-IsSound : (e e' : Engine) → Call e e' → IsSound e → IsSound e'
  unfolding speak_text cancel_agent cancel_current_conversational pause resume mute unmute
  Call-IsSound e _ (spoken guard now id r text) s =
      elim (Bool-cases (is_blocked guard (candidate now id r text))) [
        | inl p ↦ rw (speak_text, p) s
        | inr p ↦ rw (speak_text, p) (admit-IsSound u window has_route r.dedupe now _ e s)
      ]
  Call-IsSound e _ (cancelled id) s = cancel-IsSound has_route id e s
  Call-IsSound e _ (agent_cancelled agent_id) s = record {
    in_order = cancel_where-IsQueue _ e.pending s.in_order;
    scoped = s.scoped;
    in_turn = s.in_turn;
  }
  Call-IsSound e _ silenced s = elim (Option-cases e.current) [
    | inl p ↦ rw (cancel_current_conversational, p) s
    | inr (item, p) ↦ elim (Bool-cases (item.cancelled || not (is_conversational item))) [
      | inl q ↦ rw (cancel_current_conversational, p, q) s
      | inr q ↦
          rw (cancel_current_conversational, p, q) (cancel_current-IsSound has_route item e p s)
    ]
  ]
  Call-IsSound e _ (paused none) s = settings-IsSound e _ _ _ s
  Call-IsSound e _ (paused (some x)) s = settings-IsSound e _ _ _ s
  Call-IsSound e _ (resumed none) s = settings-IsSound e _ _ _ s
  Call-IsSound e _ (resumed (some x)) s = settings-IsSound e _ _ _ s
  Call-IsSound e _ (muted agent_id) s = settings-IsSound e _ _ _ s
  Call-IsSound e _ (unmuted agent_id) s = settings-IsSound e _ _ _ s
  Call-IsSound e _ (opened meeting_url grant) s = open_floor-IsSound meeting_url grant e s
  Call-IsSound e _ (invalidated meeting_url waiters profile) s =
      invalidate_floor-IsSound meeting_url waiters profile e s
  Call-IsSound e _ (all_invalidated waiters) s = invalidate_all-IsSound waiters e s

  speaks-cancel :
      (id : Text) (e : Engine) → speaks (cancel has_route id e).1.current ≡ speaks e.current
  unfolding cancel cancel_current speaks
  speaks-cancel id e = ground arith

  speaks-interrupted :
      (interrupt : Bool) (e : Engine)
      → speaks (interrupted has_route interrupt e).current ≡ speaks e.current
  unfolding interrupted
  speaks-interrupted true e = elim (Option-cases e.current) [
    | inl q ↦ rw (interrupted, q) (ap speaks q)
    | inr (item, q) ↦ rw (interrupted, q) (speaks-cancel item.id e ∙ ap speaks q)
  ]
  speaks-interrupted false e = elim (Option-cases e.current) [
    | inl q ↦ rw (interrupted, q) (ap speaks q)
    | inr (item, q) ↦ rw (interrupted, q) (ap speaks q)
  ]

  speaks-admit :
      (dedupe : Bool) (now : ℕ) (item : Item) (e : Engine)
      → speaks (admit u window has_route dedupe now item e).1.current ≡ speaks e.current
  unfolding admit is_duplicate enqueue
  speaks-admit true now item e =
      elim (Bool-cases (is_duplicate u window now item.agent_id item.text e).0) [
        | inl p ↦ rw (admit, p) refl
        | inr p ↦ rw (admit, p) (speaks-interrupted item.interrupt _)
      ]
  speaks-admit false now item e = speaks-interrupted item.interrupt _

  -- No call starts or ends an utterance.
  speaks-Call : (e e' : Engine) → Call e e' → speaks e'.current ≡ speaks e.current
  unfolding speak_text cancel_agent cancel_current_conversational pause resume mute unmute admit
      enqueue is_duplicate interrupted cancel cancel_current open_floor give_floor invalidate_floor
      invalidate_all_floors speaks
  speaks-Call e _ (spoken guard now id r text) =
      elim (Bool-cases (is_blocked guard (candidate now id r text))) [
        | inl p ↦ rw (speak_text, p) refl
        | inr p ↦ rw (speak_text, p) (speaks-admit r.dedupe now _ e)
      ]
  speaks-Call e _ (cancelled id) = ground arith
  speaks-Call e _ (agent_cancelled agent_id) = refl
  speaks-Call e _ silenced = ground arith
  speaks-Call e _ (paused none) = refl
  speaks-Call e _ (paused (some x)) = refl
  speaks-Call e _ (resumed none) = refl
  speaks-Call e _ (resumed (some x)) = refl
  speaks-Call e _ (muted agent_id) = refl
  speaks-Call e _ (unmuted agent_id) = refl
  speaks-Call e _ (opened meeting_url grant) = ground arith
  speaks-Call e _ (invalidated meeting_url true profile) = refl
  speaks-Call e _ (invalidated meeting_url false profile) = refl
  speaks-Call e _ (all_invalidated true) = refl
  speaks-Call e _ (all_invalidated false) = refl

  speaks-begin_item :
      (now : ℕ) (guard : Option (Item → Bool)) (o : Option Item) (e : Engine)
      → e.current ≡ none
      → speaks (begin_item now guard o e).1.current ≡ (begin_item now guard o e).0
  unfolding begin_item speaks
  speaks-begin_item now guard none e h = rw h refl
  speaks-begin_item now guard (some item) e h = ground arith

  speaks-finish : (e : Engine) → speaks (finish e).current ≡ false
  unfolding finish speaks
  speaks-finish e = ground arith

  silent : (o : Option Item) → speaks o ≡ false → o ≡ none
  unfolding speaks
  silent none h = refl
  silent (some item) h = cc

  -- In every run of a new engine, where only its own loop calls `process_next` and up to the call of
  -- `stop`, the queue is ordered by priority and then by time, every grant lies under the pair of a meeting
  -- and a profile, and the notices published are in turn: no utterance starts before the one that was
  -- started has ended, and one is open exactly while it is the current one, which is while the loop waits.
  pub Reach-IsSound :
      (is_waiting : Bool) (e : Engine)
      → Reach is_waiting e
      → IsSound e × (speaks e.current ≡ is_waiting)
  unfolding follow_all begin
  Reach-IsSound _ _ fresh =
      (record { in_order = tt; scoped = tt; in_turn = refl }, unfold speaks in refl)
  Reach-IsSound w _ (called {e = e} r s) =
      let (sound, here) = Reach-IsSound w e r in
      (Call-IsSound _ _ s sound, speaks-Call _ _ s ∙ here)
  Reach-IsSound _ _ (begun {e} w now guard again r p) =
      let (sound, here) = Reach-IsSound false e r in
      let n = next_item-IsSound guard e sound in
      let idle : e.current ≡ none = silent e.current here in
      (begin-IsSound now guard again e idle sound, speaks-begin_item now again _ _ (n.1 ∙ idle) ∙ p)
  Reach-IsSound _ _ (finished {e} r) =
      let (sound, here) = Reach-IsSound true e r in (finish-IsSound e sound, speaks-finish e)
