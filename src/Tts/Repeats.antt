-- ===== src/Tts/Repeats.antt =====
-- What is said twice is queued once.
use ws_collab.Dict.{Dict}
use ws_collab.Prelude.{
  ℕ, ◌-◌, ◌<◌, ◌≡◌, refl, ◌≢◌, inl, inr, Bool, true, false, [], ◌∷◌, arith, Bool-cases, keep_if,
  ◌==◌, nat_eq, Text, text_eq,
}
use ws_collab.Dict
use ws_collab.Texts.{Unicode}
use ws_collab.Tts.{floor_eq, cancel_current, cancel, Engine, Item}
use ws_collab.Tts.Speak.{
  prune_recent, is_known, interrupted, dedupe_key, is_duplicate, enqueue, admit, duplicate,
}

-- An entry that is put stays while its window lasts.
get-prune_recent-put :
    (u : Unicode) (window now : ℕ) (key : Text) (t : ℕ) (d : Dict Text ℕ)
    → now - t < window
    → is_known u (Dict.get (prune_recent u window now (Dict.put d key t)) key) ≡ true
unfolding Dict.get Dict.put prune_recent keep_if
get-prune_recent-put u window now key t [] h = ground (arith, text_eq.same_iff key key)
get-prune_recent-put u window now key t ((k, v) ∷ d) h =
    let rest = get-prune_recent-put u window now key t d h in
    elim (Bool-cases (k == key)) [
      | inl p ↦ rw p (ground (arith, p))
      | inr p ↦ rw p (ground (arith, p, rest))
    ]

recent-interrupted :
    (has_route interrupt : Bool) (e : Engine)
    → (interrupted has_route interrupt e).recent ≡ e.recent
unfolding interrupted cancel cancel_current
recent-interrupted has_route interrupt e = ground arith

module _ (u : Unicode) (window : ℕ) (has_route : Bool) where
  -- An item that is queued is remembered.
  recent-admit :
      (dedupe : Bool) (now : ℕ) (item : Item) (e : Engine)
      → (admit u window has_route dedupe now item e).0 ≢ duplicate
      → (d : Dict Text ℕ) × ((admit u window has_route dedupe now item e).1.recent
          ≡ Dict.put d (dedupe_key u item.agent_id item.text) now)
  unfolding admit enqueue is_duplicate
  recent-admit false now item e h = (e.recent, recent-interrupted has_route item.interrupt _)
  recent-admit true now item e h =
      elim (Bool-cases (is_duplicate u window now item.agent_id item.text e).0) [
        | inl p ↦ absurd (h (rw (admit, p) refl))
        | inr p ↦ (
          prune_recent u window now e.recent,
          rw (admit, p) (recent-interrupted has_route item.interrupt _),
        )
      ]

  admit_known :
      (now : ℕ) (item : Item) (e : Engine)
      → is_known u
          (Dict.get (prune_recent u window now e.recent) (dedupe_key u item.agent_id item.text))
        ≡ true
      → admit u window has_route true now item e
        ≡ (duplicate, record e { recent = prune_recent u window now e.recent })
  unfolding admit is_duplicate
  admit_known now item e h = rw (admit, is_duplicate, h) refl

  -- When an item has not been refused as a duplicate, then a text of the same agent that is equal and
  -- comes within the window is: the reply says so, and neither the queue nor the utterance that is
  -- spoken changes, nor is anything published.
  pub admit-admit :
      (dedupe : Bool) (now later : ℕ) (item again : Item) (e : Engine)
      → (admit u window has_route dedupe now item e).0 ≢ duplicate
      → again.agent_id ≡ item.agent_id
      → again.text ≡ item.text
      → later - now < window
      → let e1 = (admit u window has_route dedupe now item e).1 in
        admit u window has_route true later again e1
        ≡ (duplicate, record e1 { recent = prune_recent u window later e1.recent })
  unfolding admit is_duplicate
  admit-admit dedupe now later item again e h a t w =
      let e1 = (admit u window has_route dedupe now item e).1 in
      let (d, p) = recent-admit dedupe now item e h in
      let known : is_known u (
            Dict.get (prune_recent u window later e1.recent)
              (dedupe_key u again.agent_id again.text))
          ≡ true =
        rw (a, t, p)
          (get-prune_recent-put u window later (dedupe_key u item.agent_id item.text) now d w) in
      admit_known later again e1 known
