-- ===== src/Tts/Drain.antt =====
-- The queue is spoken to its end.
use ws_collab.Prelude.{
  ℕ, ◌≡◌, refl, sym, ◌∙◌, Bool, true, false, Option, none, some, List, [], ◌∷◌, ◌++◌, append-nil,
  append_assoc, arith, length, All, nat_eq, text_eq,
}
use ws_collab.Dict
use ws_collab.Tts.{
  floor_eq, Item, same_place, remove_item, Notice, Engine, started, speech_started, ended,
  is_blocked,
}
use ws_collab.Tts.Playback.{begin, finish, choose, next_from, next_item, begin_item}
use ws_collab.Tts.Turns.{is_eligible}

module _ (guard : Option (Item → Bool)) where
  -- Calls of `process_next`, with the time of each; the guard answers the same throughout.
  unfoldable pub rounds : List ℕ → Engine → Engine
  rounds [] e = e
  rounds (now ∷ times) e = rounds times (finish (begin now guard guard e).1)

  -- What is published of items that are spoken to their ends, one after the other.
  unfoldable pub utterances : List Item → List Notice
  utterances [] = []
  utterances (x ∷ xs) = started x.id ∷ speech_started x.id ∷ ended x.id x.cancelled ∷ utterances xs

  remove_item_first : (x : Item) (xs : List Item) → remove_item x (x ∷ xs) ≡ xs
  unfolding remove_item same_place
  remove_item_first x xs =
      ground
        (arith, nat_eq.same_iff x.priority x.priority, nat_eq.same_iff x.enqueued_at x.enqueued_at)

  next_item_first :
      (x : Item) (xs : List Item) (e : Engine)
      → e.paused_global ≡ false
      → is_eligible guard e x ≡ true
      → e.pending ≡ x ∷ xs
      → next_item guard e ≡ (some x, record e { pending = xs })
  unfolding next_item next_from choose
  next_item_first x xs e h k l = ground (arith, remove_item_first x xs)

  -- The engine after one round.
  abbrev pub after : ℕ → Item → List Item → Engine → Engine
  after now x xs e = record e {
    pending = xs;
    current = none;
    last_spoken =
        Dict.put e.last_spoken x.agent_id
          (record { text = x.text; voice_id = x.voice_id; at = now });
    published =
        (e.published ++ started x.id ∷ speech_started x.id ∷ []) ++ ended x.id x.cancelled ∷ [];
  }

  round_first :
      (now : ℕ) (x : Item) (xs : List Item) (e : Engine)
      → e.paused_global ≡ false
      → is_eligible guard e x ≡ true
      → e.pending ≡ x ∷ xs
      → finish (begin now guard guard e).1 ≡ after now x xs e
  unfolding begin begin_item finish
  round_first now x xs e h k l =
      let open_guard : is_blocked guard x ≡ false = ground (arith, k) in
      rw (begin, next_item_first x xs e h k l, begin_item, open_guard) refl

  pub IsSpent : List Notice → List Item → Engine → Type 0
  IsSpent published xs e =
      (e.pending ≡ []) × ((e.current ≡ none) × (e.published ≡ published ++ utterances xs))

  told :
      (t : ℕ) (x : Item) (xs : List Item) (e : Engine)
      → (after t x xs e).published ++ utterances xs ≡ e.published ++ utterances (x ∷ xs)
  unfolding utterances
  told t x xs e =
      append_assoc (e.published ++ started x.id ∷ speech_started x.id ∷ [])
        (ended x.id x.cancelled ∷ []) (utterances xs)
      ∙ append_assoc e.published (started x.id ∷ speech_started x.id ∷ [])
          (ended x.id x.cancelled ∷ utterances xs)

  rounds-from :
      (times : List ℕ) (xs : List Item) (e : Engine)
      → length times ≡ length xs
      → e.pending ≡ xs
      → e.current ≡ none
      → e.paused_global ≡ false
      → All (λ x. is_eligible guard e x ≡ true) xs
      → IsSpent e.published xs (rounds times e)
  unfolding rounds utterances IsSpent
  rounds-from [] [] e n p c h k = (p, (c, sym (append-nil e.published)))
  rounds-from [] (x ∷ xs) e n p c h k = absurd (omega arith)
  rounds-from (t ∷ ts) [] e n p c h k = absurd (omega arith)
  rounds-from (t ∷ ts) (x ∷ xs) e n p c h k =
      let rest = rounds-from ts xs (after t x xs e) (ground (arith, n)) refl refl h k.1 in
      rw (rounds, round_first t x xs e h k.0 p) (rest.0, (rest.1.0, rest.1.1 ∙ told t x xs e))

  -- When the engine is not paused and nothing is spoken, and every item of the queue may be spoken, then
  -- as many rounds as there are items empty the queue, and the items have been spoken to their ends in
  -- the order of the queue.
  pub rounds-IsSpent :
      (times : List ℕ) (e : Engine)
      → length times ≡ length e.pending
      → e.current ≡ none
      → e.paused_global ≡ false
      → All (λ x. is_eligible guard e x ≡ true) e.pending
      → IsSpent e.published e.pending (rounds times e)
  rounds-IsSpent times e n c h k = rounds-from times e.pending e n refl c h k
