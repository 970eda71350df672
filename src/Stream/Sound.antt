-- ===== src/Stream/Sound.antt =====
-- The invariant of a stream and its files.
use ws_collab.Prelude.{
  ℕ, ◌-◌, ◌≤◌, ◌<◌, ◌≡◌, refl, sym, ap, ◌∙◌, Bool, List, [], ◌∷◌, ◌++◌, append_assoc, arith, All,
  nat_eq,
}
use ws_collab.Json.{Python}
use ws_collab.Event.{Event}
use ws_collab.Stream.{Stream, Source, Segment}
use ws_collab.Stream.Read.{archived_sources, active_source, ordered_sources, yield_file}
use ws_collab.Stream.Pages.{Chain, matching, behind}
use ws_collab.Stream.Sources.{SourcesChain, contents, Chain-weaken}

-- The generations rise from segment to segment, and stay below `g`.
abbrev pub Rising : List Segment → ℕ → Type 0
Rising [] g = Unit
Rising (seg ∷ segments) g =
    (seg.gen < g) × (All (λ (t : Segment). seg.gen < t.gen) segments × Rising segments g)

-- The archived files hold rising numbers below `active_start_seq`, the active file goes on from
-- there up to `seq`, and the generations of the segments rise up to the current one.
pub record IsSound (py : Python) (s : Stream) : Type 0 where
  pub starts : 1 ≤ s.active_start_seq
  pub archived_chain :
      SourcesChain py 0 (archived_sources s.disk.archived s.segments) (s.active_start_seq - 1)
  pub active_chain : Chain (s.active_start_seq - 1) (yield_file py 0 s.gen s.disk.active) s.seq
  pub older : Rising s.segments s.gen

module _ (py : Python) where
  pub SourcesChain-append :
      (lo mid hi : ℕ) (xs ys : List Source)
      → SourcesChain py lo xs mid
      → SourcesChain py mid ys hi
      → SourcesChain py lo (xs ++ ys) hi
  SourcesChain-append lo mid hi [] [] h k = omega arith
  SourcesChain-append lo mid hi [] (y ∷ ys) h k =
      (Chain-weaken lo mid y.end_seq (yield_file py 0 y.gen y.file) h k.0, k.1)
  SourcesChain-append lo mid hi (x ∷ xs) ys h k =
      (h.0, SourcesChain-append x.end_seq mid hi xs ys h.1 k)

  pub contents-append :
      (xs ys : List Source) → contents py (xs ++ ys) ≡ contents py xs ++ contents py ys
  unfolding contents
  contents-append [] ys = refl
  contents-append (x ∷ xs) ys =
      ap (λ z. yield_file py 0 x.gen x.file ++ z) (contents-append xs ys)
      ∙ sym (append_assoc (yield_file py 0 x.gen x.file) (contents py xs) (contents py ys))

  pub ordered-Chain : {s : Stream} → IsSound py s → SourcesChain py 0 (ordered_sources s) s.seq
  unfolding ordered_sources
  ordered-Chain {s} h =
      SourcesChain-append 0 (s.active_start_seq - 1) s.seq _ (active_source s ∷ []) h.archived_chain
        (h.active_chain, omega arith)

  -- The events of the whole stream behind a position, as a reader with this filter sees them.
  unfoldable pub unread : Stream → (Event → Bool) → ℕ → List Event
  unread s keep a = matching keep (behind a (contents py (ordered_sources s)))
