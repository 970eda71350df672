-- ===== src/Stream/Paging.antt =====
-- One page of a sound stream, on both paths of `read`.
use ws_collab.Lines.Chunks.{iter_complete_lines-frame}
use mathlib.Core.Path.{ap₂}
use ws_collab.Lines.Framing.{pending, frame, frame-append, open_at-pending}
use ws_collab.Lines.{Bytes}
use ws_collab.Prelude.{
  ℕ, ◌-◌, ◌≤◌, max, ◌≡◌, refl, sym, ap, subst, ◌∙◌, ◌⊎◌, inl, inr, Bool, true, none, some, [], ◌∷◌,
  ◌++◌, append-nil, arith, ge→ltb, Bool-cases, length, length-append, drop-length-append, nat_eq,
}
use mathlib.Core.Path.{ap₂}
use ws_collab.Errors.{ok}
use ws_collab.Json.{Python}
use ws_collab.Event.{Event}
use ws_collab.Ids.{Base64}
use ws_collab.Stream.{Stream, chunk_size}
use ws_collab.Stream.Read.{
  ordered_sources, Page, read_from, items_from, first_page, iter_from_seq, yield_sources,
  yield_rows, archived_sources, active_source, yield_file, hot_iter, collect, Start,
}
use ws_collab.Stream.Pages.{
  matching, behind_below, collect-IsPage, Chain, behind, matching-behind_end,
}
use ws_collab.Stream.Sources.{
  yield_sources-Chain, matching-yield_sources, behind-append, matching-append, yield_rows-append,
  yield_file-frame, contents, contents-Chain, Chain-NoCrash, Chain-split, behind-behind,
  Chain-behind, yield_rows-behind,
}
use ws_collab.Stream.Sound.{IsSound, ordered-Chain, unread, contents-append}

-- A page that starts behind `a` holds the first unread events: with what is unread behind its own
-- last position it makes up all that was unread, it has at most `limit` events, and it says that
-- there is no more only when nothing is left.
pub record Delivers (py : Python) (s : Stream) (keep : Event → Bool) (limit a : ℕ) (q : Page)
    : Type 0 where
  pub complete : q.events ++ unread py s keep q.last_seq ≡ unread py s keep a
  pub forward : a ≤ q.last_seq
  pub bounded : length q.events ≤ limit
  pub finished : (q.has_more ≡ true) ⊎ (unread py s keep q.last_seq ≡ [])

module _ (py : Python) (b64 : Base64) where
  -- On a sound stream, the path by sequence numbers succeeds from any position, and its page
  -- delivers the events that are unread behind it.
  pub read_from_cold :
      (s : Stream) (a gen limit : ℕ) (keep : Event → Bool)
      → IsSound py s
      → (q : Page) × (read_from py b64 s
            (record { after_seq = a; hot = none; incoming_gen = gen })
            limit
            keep
          ≡ ok q)
        × Delivers py s keep limit a q
  unfolding read_from items_from first_page iter_from_seq unread
  read_from_cold s a gen limit keep h =
      let sources = ordered_sources s in
      let chain = ordered-Chain py h in
      let items = yield_sources py a sources in
      let c = yield_sources-Chain py a 0 s.seq sources chain in
      let (q, done, g) =
        collect-IsPage limit keep (max a 0) (max a s.seq) items
          (first_page py b64 s (record { after_seq = a; hot = none; incoming_gen = gen }))
          (omega arith) refl c in
      let at_q = matching-yield_sources py keep a q.last_seq 0 s.seq sources g.forward chain in
      let at_a = matching-yield_sources py keep a a 0 s.seq sources (omega arith) chain in
      let whole = behind_below a (max a 0) (max a s.seq) items (omega arith) c in
      (
        q,
        done,
        record {
          complete =
              ap (λ z. q.events ++ z) (sym at_q)
              ∙ g.complete
              ∙ ap (matching keep) (sym whole)
              ∙ at_a;
          forward = g.forward;
          bounded = g.bounded (omega arith);
          finished = elim (Bool-cases q.has_more) [
            | inl t ↦ inl t
            | inr t ↦ inr (sym at_q ∙ g.finished t)
          ];
        },
      )

  -- An offset of the active file that a reader at `a` may resume from: complete lines lie before
  -- it, and none of their events is behind `a`.
  pub record IsResume (s : Stream) (off a : ℕ) : Type 0 where
    pub before : Bytes
    pub rest : Bytes
    pub split : s.disk.active ≡ some (before ++ rest)
    pub at_off : length before ≡ off
    pub closed : pending [] before ≡ []
    pub low : ℕ
    pub old : Chain low (yield_rows py 0 s.gen (frame 0 [] before)) a
    pub archived_old : s.active_start_seq - 1 ≤ a

  -- Behind the framed prefix, the framing goes on at the offset.
  frame_resume :
      (before rest : Bytes)
      → pending [] before ≡ []
      → frame 0 [] (before ++ rest) ≡ frame 0 [] before ++ frame (length before) [] rest
  frame_resume before rest h =
      frame-append 0 [] before rest
      ∙ ap₂ (λ (o : ℕ) (c : Bytes). frame 0 [] before ++ frame o c rest)
          (omega (arith, open_at-pending 0 [] before, ap length h)) h

  -- What the resumed reader finds, against the whole stream, from any later position on.
  unread_resume :
      (s : Stream) (keep : Event → Bool) (off a b : ℕ)
      → IsSound py s
      → (r : IsResume s off a) → a ≤ b
      → unread py s keep b
        ≡ matching keep (behind b (yield_rows py 0 s.gen (frame (length r.before) [] r.rest)))
  unfolding unread ordered_sources contents
  unread_resume s keep off a b h r l =
      let arch = archived_sources s.disk.archived s.segments in
      let old = yield_rows py 0 s.gen (frame 0 [] r.before) in
      let new = yield_rows py 0 s.gen (frame (length r.before) [] r.rest) in
      let active : yield_file py 0 s.gen s.disk.active ≡ old ++ new =
        ap (yield_file py 0 s.gen) r.split
        ∙ yield_file-frame py 0 s.gen (r.before ++ r.rest)
        ∙ ap (yield_rows py 0 s.gen) (frame_resume r.before r.rest r.closed)
        ∙ yield_rows-append py 0 s.gen (frame 0 [] r.before) _ in
      let all : contents py (arch ++ active_source s ∷ []) ≡ contents py arch ++ (old ++ new) =
        contents-append py arch (active_source s ∷ [])
        ∙ ap (λ z. contents py arch ++ z) (append-nil _ ∙ active) in
      let c = contents-Chain py 0 (s.active_start_seq - 1) arch h.archived_chain in
      let none_archived =
        matching-behind_end keep 0 (s.active_start_seq - 1) b (contents py arch)
          (omega (arith, r.archived_old)) c in
      let none_old = matching-behind_end keep r.low a b old l r.old in
      ap (λ z. matching keep (behind b z)) all
      ∙ ap (matching keep) (behind-append b (contents py arch) (old ++ new))
      ∙ matching-append keep (behind b (contents py arch)) _
      ∙ ap₂ ◌++◌ none_archived (ap (matching keep) (behind-append b old new))
      ∙ matching-append keep (behind b old) (behind b new)
      ∙ ap (λ z. z ++ matching keep (behind b new)) none_old

  hot_items :
      (s : Stream) (off a : ℕ)
      → (r : IsResume s off a)
      → hot_iter py s off a ≡ yield_rows py a s.gen (frame (length r.before) [] r.rest)
  unfolding hot_iter
  hot_items s off a r =
      let bs = r.before ++ r.rest in
      rw (r.split, hot_iter)
        (rw (← r.at_off) (
          rw (ge→ltb (length bs) (length r.before) (omega (arith, length-append r.before r.rest))) (
            ap (yield_rows py a s.gen) (
              iter_complete_lines-frame chunk_size bs (length r.before) (omega arith)
              ∙ ap (frame (length r.before) []) (drop-length-append r.before r.rest)))))

  -- On a sound stream, the path by byte offset succeeds from an offset to resume from, and its
  -- page delivers the events that are unread behind that position.
  pub read_from_hot :
      (s : Stream) (off a gen limit : ℕ) (keep : Event → Bool)
      → IsSound py s
      → IsResume s off a
      → (q : Page) × (read_from py b64 s
            (record { after_seq = a; hot = some off; incoming_gen = gen })
            limit
            keep
          ≡ ok q)
        × Delivers py s keep limit a q
  unfolding read_from items_from first_page
  read_from_hot s off a gen limit keep h r =
      let start : Start = record { after_seq = a; hot = some off; incoming_gen = gen } in
      let old = yield_rows py 0 s.gen (frame 0 [] r.before) in
      let new = yield_rows py 0 s.gen (frame (length r.before) [] r.rest) in
      let active : yield_file py 0 s.gen s.disk.active ≡ old ++ new =
        ap (yield_file py 0 s.gen) r.split
        ∙ yield_file-frame py 0 s.gen (r.before ++ r.rest)
        ∙ ap (yield_rows py 0 s.gen) (frame_resume r.before r.rest r.closed)
        ∙ yield_rows-append py 0 s.gen (frame 0 [] r.before) _ in
      let (mid, c1, c2) =
        Chain-split (s.active_start_seq - 1) s.seq old new
          (subst (λ z. Chain (s.active_start_seq - 1) z s.seq) active h.active_chain) in
      let here : hot_iter py s off a ≡ behind a new =
        hot_items s off a r
        ∙ yield_rows-behind py a s.gen (frame (length r.before) [] r.rest)
            (Chain-NoCrash mid s.seq new c2) in
      let c = Chain-behind a mid s.seq new c2 in
      let (q, done, g) =
        collect-IsPage limit keep (max a mid) (max a s.seq) (behind a new)
          (first_page py b64 s start) (omega arith) refl c in
      let at_q : unread py s keep q.last_seq ≡ matching keep (behind q.last_seq (behind a new)) =
        unread_resume s keep off a q.last_seq h r g.forward
        ∙ sym (ap (matching keep) (behind-behind a q.last_seq new g.forward)) in
      (
        q,
        ap (λ z. collect limit keep z (first_page py b64 s start)) here ∙ done,
        record {
          complete =
              ap (λ z. q.events ++ z) at_q
              ∙ g.complete
              ∙ sym (unread_resume s keep off a a h r (omega arith));
          forward = g.forward;
          bounded = g.bounded (omega arith);
          finished = elim (Bool-cases q.has_more) [
            | inl t ↦ inl t
            | inr t ↦ inr (at_q ∙ g.finished t)
          ];
        },
      )
