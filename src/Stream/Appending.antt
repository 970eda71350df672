-- ===== src/Stream/Appending.antt =====
-- What `append` does to a sound stream.
use ws_collab.Errors.{ok}
use ws_collab.Ids.{Base64}
use ws_collab.Stream.Rotation.{empty_file, maybe_rotate-Keeps, maybe_rotate-contents}
use ws_collab.Stream.Pages.{Chain}
use ws_collab.Stream.Writing.{yield_file-written, pending-repaired}
use ws_collab.Lines.{Bytes}
use ws_collab.Lines.Framing.{pending}
use ws_collab.Prelude.{
  ℕ, ◌+◌, ◌-◌, ◌≤◌, ◌≡◌, refl, sym, ap, subst, ◌∙◌, ◌⊎◌, inl, inr, false, Option, none, some, List,
  [], ◌∷◌, ◌++◌, append-nil, append_assoc, arith, ltb, ltb→lt, Bool-cases, length, nat_eq, Text,
}
use ws_collab.Json.{Python, IsJsonLines}
use ws_collab.Event.{Event, ensure_identity}
use ws_collab.Event.RoundTrip.{IsExtra}
use ws_collab.Stream.{Stream, active_bytes, Seen}
use ws_collab.Stream.Append.{
  write_event, write_state, repair_torn_final_line, numbered, append, AppendResult, repaired,
  key_of, find_seen, append_new, append_duplicate,
}
use ws_collab.Stream.Read.{
  event, yield_file, ordered_sources, archived_sources, active_source, Item,
}
use ws_collab.Stream.Sources.{contents, Chain-append}
use ws_collab.Stream.Sound.{IsSound, contents-append}

active_yield :
    (py : Python) (gen : ℕ) (o : Option Bytes)
    → yield_file py 0 gen o ≡ yield_file py 0 gen (some (elim o [ none ↦ [] | some bs ↦ bs ]))
active_yield py gen none = unfold yield_file in sym (empty_file py gen)
active_yield py gen (some bs) = refl

module _ (py : Python) (lines : IsJsonLines py) where
  -- The stream after the line of the event is written, and before it may be rotated.
  abbrev pub written : Event → Stream → Stream
  written e s = write_event py e (record s { seq = s.seq + 1 })

  module _ (e : Event) (s : Stream) (h : IsSound py s) (closed : pending [] (active_bytes s) ≡ [])
      (x : IsExtra e.extra) (n : e.seq ≡ some (s.seq + 1)) where
    -- The file that is written yields what it did, and the event.
    written_items :
        yield_file py 0 s.gen (written e s).disk.active
        ≡ yield_file py 0 s.gen s.disk.active
          ++ event e (s.seq + 1) (length (active_bytes (written e s))) s.gen ∷ []
    unfolding write_event write_state active_bytes
    written_items =
        yield_file-written py lines e (s.seq + 1) s.gen (active_bytes s) x n (omega arith) closed
        ∙ ap (λ z. z ++ event e (s.seq + 1) (length (active_bytes (written e s))) s.gen ∷ [])
            (sym (active_yield py s.gen s.disk.active))

    pub written-IsSound : IsSound py (written e s)
    unfolding write_event write_state
    written-IsSound = record {
      starts = h.starts;
      archived_chain = h.archived_chain;
      active_chain =
          subst (λ z. Chain (s.active_start_seq - 1) z (s.seq + 1)) (sym written_items)
            (Chain-append (s.active_start_seq - 1) s.seq (s.seq + 1)
              (yield_file py 0 s.gen s.disk.active)
              (event e (s.seq + 1) (length (active_bytes (written e s))) s.gen ∷ []) h.active_chain
              (omega arith, omega arith));
      older = h.older;
    }

    written-contents :
        contents py (ordered_sources (written e s))
        ≡ contents py (ordered_sources s)
          ++ event e (s.seq + 1) (length (active_bytes (written e s))) s.gen ∷ []
    unfolding write_event write_state ordered_sources contents
    written-contents =
        let old = archived_sources s.disk.archived s.segments in
        let file = yield_file py 0 s.gen s.disk.active in
        let new = event e (s.seq + 1) (length (active_bytes (written e s))) s.gen ∷ [] in
        contents-append py old (active_source (written e s) ∷ [])
        ∙ ap (λ z. contents py old ++ z) (append-nil _ ∙ written_items)
        ∙ sym (append_assoc (contents py old) file new)
        ∙ ap (λ z. z ++ new)
            (sym (
              contents-append py old (active_source s ∷ [])
              ∙ ap (λ z. contents py old ++ z) (append-nil file)))

closed_by_repair : (s : Stream) → pending [] (active_bytes (repair_torn_final_line s)) ≡ []
unfolding repair_torn_final_line active_bytes
closed_by_repair s = closed s.disk.active
  where
    closed :
        (o : Option Bytes)
        → pending []
            (elim (elim o as (λ _. Option Bytes) [ none ↦ none | some bs ↦ some (repaired bs) ]) [
              | none ↦ []
              | some bs ↦ bs
            ])
          ≡ []
    closed none = unfold pending in refl
    closed (some bs) = pending-repaired bs

-- The event that `append` writes.
abbrev pub written_event : Text → Text → Event → Stream → Event
written_event new_id now e s = numbered new_id now (s.seq + 1) e

module _ (py : Python) (b64 : Base64) where
  -- What a new event does to the stream.
  pub record Appended (new_id now : Text) (e : Event) (s : Stream) : Type 0 where
    pub accepted :
        (r : AppendResult) × ((append py b64 new_id now e s).0 ≡ ok r)
        × (r.duplicate ≡ false)
        × (r.event ≡ written_event new_id now e s)
    pub sound : IsSound py (append py b64 new_id now e s).1
    pub stop : ℕ
    pub gone : List Item
    pub contents_after :
        contents py (ordered_sources (repair_torn_final_line s))
          ++ event (written_event new_id now e s) (s.seq + 1) stop s.gen ∷ []
        ≡ gone ++ contents py (ordered_sources (append py b64 new_id now e s).1)
    pub nothing_gone :
        (s.retention_max_files ≤ length s.segments)
        ⊎ (contents py (ordered_sources (repair_torn_final_line s))
              ++ event (written_event new_id now e s) (s.seq + 1) stop s.gen ∷ []
            ≡ contents py (ordered_sources (append py b64 new_id now e s).1))

  pub append_fresh :
      (new_id now : Text) (e : Event) (s : Stream)
      → find_seen (key_of e.idempotency_key) s.idempotency ≡ none
      → append py b64 new_id now e s
        ≡ (ok (append_new py b64 new_id now e s).0, (append_new py b64 new_id now e s).1)
  unfolding append
  append_fresh new_id now e s fresh = rw (fresh, append) refl

  -- On a stream that is sound once its torn line is closed, an event with no known key and with
  -- extra fields as `from_dict` collects them is accepted under the next number, and the stream
  -- stays sound. Its contents are those before with the event behind them, but for a part at the
  -- front, which is empty unless the number of segments has reached its limit.
  pub append-Appended :
      (new_id now : Text) (e : Event) (s : Stream)
      → IsJsonLines py
      → IsSound py (repair_torn_final_line s)
      → IsExtra e.extra
      → find_seen (key_of e.idempotency_key) s.idempotency ≡ none
      → Appended new_id now e s
  unfolding append_new repair_torn_final_line write_event write_state
  append-Appended new_id now e s lines h x fresh =
      let e' = written_event new_id now e s in
      let s1 = repair_torn_final_line s in
      let t = written py lines e' s1 in
      let same = append_fresh new_id now e s fresh in
      let closed = closed_by_repair s in
      let x' : IsExtra e'.extra = unfold numbered ensure_identity in x in
      let n' : e'.seq ≡ some (s1.seq + 1) =
        unfold numbered ensure_identity repair_torn_final_line in refl in
      let sound = written-IsSound py lines e' s1 h closed x' n' in
      let k = maybe_rotate-Keeps py t sound in
      let c = written-contents py lines e' s1 h closed x' n' in
      record {
        accepted = ((append_new py b64 new_id now e s).0, ap (λ z. z.0) same, refl, refl);
        sound = subst (λ z. IsSound py z.1) (sym same) k.sound;
        stop = length (active_bytes t);
        gone = k.gone;
        contents_after =
            sym c ∙ k.tail ∙ ap (λ z. k.gone ++ contents py (ordered_sources z.1)) (sym same);
        nothing_gone = elim (Bool-cases (ltb (length s.segments) s.retention_max_files)) [
          | inl room ↦ inr (
              sym c
              ∙ maybe_rotate-contents py t sound
                  (ltb→lt (length s.segments) s.retention_max_files room)
              ∙ ap (λ z. contents py (ordered_sources z.1)) (sym same))
          | inr full ↦ inl (ground arith)
        ];
      }

  -- A known key changes nothing in the stream.
  pub append-duplicate :
      (new_id now : Text) (e : Event) (s : Stream) (seen : Seen)
      → find_seen (key_of e.idempotency_key) s.idempotency ≡ some seen
      → append py b64 new_id now e s ≡ (append_duplicate py b64 e seen s, s)
  unfolding append
  append-duplicate new_id now e s seen h = rw (h, append) refl
