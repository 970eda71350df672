-- ===== src/Stream/Rotation.antt =====
-- Rotation and retention keep the invariant, and lose at most the oldest segments.
use ws_collab.Lines.Framing.{frame}
use ws_collab.Stream.Pages.{Chain}
use mathlib.Core.Path.{ap₂}
use ws_collab.Prelude.{
  ℕ, zero, suc, ◌+◌, ◌-◌, ◌≤◌, ◌<◌, ◌≡◌, refl, sym, ap, subst, ◌∙◌, inl, inr, false, Option, none,
  some, List, [], ◌∷◌, ◌++◌, append-nil, append_assoc, arith, ltb, if◌then◌else◌, Bool-cases,
  length, All, length-append, nat_eq,
}
use ws_collab.Lines.{Bytes}
use ws_collab.Dict
use ws_collab.Dict.{Dict, get-put, get-pop, get, put, pop}
use ws_collab.Json.{Python}
use ws_collab.Stream.{Stream, Segment, Source}
use ws_collab.Stream.Append.{
  drop_first, drop_oldest, write_state, apply_retention, rotate, maybe_rotate,
}
use ws_collab.Stream.Read.{
  Item, archived_sources, ordered_sources, yield_file, active_source, yield_rows,
}
use ws_collab.Stream.Sources.{SourcesChain, contents, Chain-weaken, yield_file-frame}
use ws_collab.Stream.Sound.{IsSound, Rising, SourcesChain-append, contents-append}

-- A file of another generation is not read by these segments.
archived-put :
    (files : Dict ℕ Bytes) (g : ℕ) (bs : Bytes) (segs : List Segment)
    → Rising segs g
    → archived_sources (Dict.put files g bs) segs ≡ archived_sources files segs
unfolding archived_sources
archived-put files g bs [] h = refl
archived-put files g bs (seg ∷ segs) h =
    ap₂ (λ f r. record { gen = seg.gen; end_seq = seg.end_seq; is_active = false; file = f } ∷ r)
      (get-put files g bs seg.gen ∙ ground arith) (archived-put files g bs segs h.1.1)

archived-pop :
    (files : Dict ℕ Bytes) (g : ℕ) (segs : List Segment)
    → All (λ (t : Segment). g < t.gen) segs
    → archived_sources (Dict.pop files g) segs ≡ archived_sources files segs
unfolding archived_sources
archived-pop files g [] h = refl
archived-pop files g (seg ∷ segs) h =
    ap₂ (λ f r. record { gen = seg.gen; end_seq = seg.end_seq; is_active = false; file = f } ∷ r)
      (get-pop files g seg.gen ∙ ground arith) (archived-pop files g segs h.1)

archived-append :
    (files : Dict ℕ Bytes) (xs ys : List Segment)
    → archived_sources files (xs ++ ys) ≡ archived_sources files xs ++ archived_sources files ys
unfolding archived_sources
archived-append files [] ys = refl
archived-append files (x ∷ xs) ys =
    ap
      (λ r.
        record { gen = x.gen; end_seq = x.end_seq; is_active = false; file = Dict.get files x.gen }
        ∷ r)
      (archived-append files xs ys)

All-append :
    (g : ℕ) (xs : List Segment) (y : Segment)
    → All (λ (t : Segment). g < t.gen) xs
    → g < y.gen
    → All (λ (t : Segment). g < t.gen) (xs ++ y ∷ [])
All-append g [] y h k = (k, tt)
All-append g (x ∷ xs) y h k = (h.0, All-append g xs y h.1 k)

-- The rotated file takes the next place.
Rising-snoc :
    (segs : List Segment) (y : Segment) (g : ℕ)
    → y.gen ≡ g
    → Rising segs g
    → Rising (segs ++ y ∷ []) (g + 1)
Rising-snoc [] y g e h = (omega arith, (tt, tt))
Rising-snoc (seg ∷ segs) y g e h =
    (omega arith, (All-append seg.gen segs y h.1.0 (omega arith), Rising-snoc segs y g e h.1.1))

module _ (py : Python) where
  SourcesChain-weaken :
      (lo mid hi : ℕ) (sources : List Source)
      → lo ≤ mid
      → SourcesChain py mid sources hi
      → SourcesChain py lo sources hi
  SourcesChain-weaken lo mid hi [] l h = omega arith
  SourcesChain-weaken lo mid hi (src ∷ sources) l h =
      (Chain-weaken lo mid src.end_seq (yield_file py 0 src.gen src.file) l h.0, h.1)

  -- What retention and rotation leave: a sound stream, whose contents are a tail of the old ones.
  pub record Keeps (s t : Stream) : Type 0 where
    pub sound : IsSound py t
    pub gone : List Item
    pub tail : contents py (ordered_sources s) ≡ gone ++ contents py (ordered_sources t)

  Keeps-trans : {s t u : Stream} → Keeps s t → Keeps t u → Keeps s u
  Keeps-trans {s} {t} {u} h k = record {
    sound = k.sound;
    gone = h.gone ++ k.gone;
    tail =
        h.tail
        ∙ ap (λ z. h.gone ++ z) k.tail
        ∙ sym (append_assoc h.gone k.gone (contents py (ordered_sources u)));
  }

  drop_first-Keeps :
      (segs : List Segment) (s : Stream)
      → s.segments ≡ segs
      → IsSound py s
      → Keeps s (drop_first segs s)
  unfolding drop_first ordered_sources contents archived_sources
  drop_first-Keeps [] s e h = record { sound = h; gone = []; tail = refl }
  drop_first-Keeps (oldest ∷ rest) s e h =
      let files = s.disk.archived in
      let r : Rising (oldest ∷ rest) s.gen = subst (λ z. Rising z s.gen) e h.older in
      let c : SourcesChain py 0 (archived_sources files (oldest ∷ rest)) (s.active_start_seq - 1) =
        subst (λ z. SourcesChain py 0 (archived_sources files z) (s.active_start_seq - 1)) e
          h.archived_chain in
      let same = archived-pop files oldest.gen rest r.1.0 in
      record {
        sound = record {
          starts = h.starts;
          archived_chain =
              subst (λ z. SourcesChain py 0 z (s.active_start_seq - 1)) (sym same)
                (SourcesChain-weaken 0 oldest.end_seq (s.active_start_seq - 1)
                  (archived_sources files rest) (omega arith) c.1);
          active_chain = h.active_chain;
          older = r.1.1;
        };
        gone = yield_file py 0 oldest.gen (Dict.get files oldest.gen);
        tail =
            ap (λ z. contents py (archived_sources files z ++ active_source s ∷ [])) e
            ∙ ap
                (λ z.
                  yield_file py 0 oldest.gen (Dict.get files oldest.gen)
                  ++ contents py (z ++ active_source s ∷ []))
                (sym same);
      }

  drop_oldest-Keeps : (n : ℕ) (s : Stream) → IsSound py s → Keeps s (drop_oldest n s)
  unfolding drop_oldest
  drop_oldest-Keeps zero s h = record { sound = h; gone = []; tail = refl }
  drop_oldest-Keeps (suc n) s h =
      let first = drop_first-Keeps s.segments s refl h in
      Keeps-trans first (drop_oldest-Keeps n (drop_first s.segments s) first.sound)

  -- The state in which the active file has become a segment, before retention.
  archive : Bytes → Stream → Stream
  archive bs s = record s {
    segments =
        s.segments ++ record { gen = s.gen; start_seq = s.active_start_seq; end_seq = s.seq } ∷ [];
    gen = s.gen + 1;
    active_start_seq = s.seq + 1;
    disk = record s.disk { active = some []; archived = Dict.put s.disk.archived s.gen bs };
  }

  archive-sources :
      (bs : Bytes) (s : Stream)
      → s.disk.active ≡ some bs
      → IsSound py s
      → archived_sources (archive bs s).disk.archived (archive bs s).segments
        ≡ archived_sources s.disk.archived s.segments
          ++ record { gen = s.gen; end_seq = s.seq; is_active = false; file = s.disk.active } ∷ []
  unfolding archive archived_sources
  archive-sources bs s a h =
      let files = Dict.put s.disk.archived s.gen bs in
      let new : Segment = record { gen = s.gen; start_seq = s.active_start_seq; end_seq = s.seq } in
      archived-append files s.segments (new ∷ [])
      ∙ ap₂ (λ z f. z ++ record { gen = s.gen; end_seq = s.seq; is_active = false; file = f } ∷ [])
          (archived-put s.disk.archived s.gen bs s.segments h.older)
          (get-put s.disk.archived s.gen bs s.gen
            ∙ ground (arith, nat_eq.same_iff s.gen s.gen)
            ∙ sym a)

  pub empty_file : (gen : ℕ) → yield_file py 0 gen (some []) ≡ []
  unfolding frame yield_rows
  empty_file gen = yield_file-frame py 0 gen []

  archive-contents :
      (bs : Bytes) (s : Stream)
      → s.disk.active ≡ some bs
      → IsSound py s
      → contents py (ordered_sources s) ≡ contents py (ordered_sources (archive bs s))
  unfolding ordered_sources contents archive
  archive-contents bs s a h =
      let old = archived_sources s.disk.archived s.segments in
      let file = yield_file py 0 s.gen s.disk.active in
      let x : Source = record {
        gen = s.gen;
        end_seq = s.seq;
        is_active = false;
        file = s.disk.active;
      } in
      let new = active_source (archive bs s) in
      contents-append py old (active_source s ∷ [])
      ∙ ap (λ z. contents py old ++ z) (append-nil file ∙ sym (append-nil file))
      ∙ sym (contents-append py old (x ∷ []))
      ∙ sym (append-nil (contents py (old ++ x ∷ [])))
      ∙ ap (λ z. contents py (old ++ x ∷ []) ++ z)
          (sym (append-nil (yield_file py 0 (s.gen + 1) (some [])) ∙ empty_file (s.gen + 1)))
      ∙ sym (contents-append py (old ++ x ∷ []) (new ∷ []))
      ∙ ap (λ z. contents py (z ++ new ∷ [])) (sym (archive-sources bs s a h))

  archive-IsSound :
      (bs : Bytes) (s : Stream) → s.disk.active ≡ some bs → IsSound py s → IsSound py (archive bs s)
  unfolding archive
  archive-IsSound bs s a h =
      let same : s.seq + 1 - 1 ≡ s.seq = omega arith in
      let old = archived_sources s.disk.archived s.segments in
      let x : Source = record {
        gen = s.gen;
        end_seq = s.seq;
        is_active = false;
        file = s.disk.active;
      } in
      let chain =
        SourcesChain-append py 0 (s.active_start_seq - 1) s.seq old (x ∷ []) h.archived_chain
          (h.active_chain, omega arith) in
      record {
        starts = omega arith;
        archived_chain =
            subst (λ z. SourcesChain py 0 z (s.seq + 1 - 1)) (sym (archive-sources bs s a h))
              (subst (λ (n : ℕ). SourcesChain py 0 (old ++ x ∷ []) n) (sym same) chain);
        active_chain =
            subst (λ z. Chain (s.seq + 1 - 1) z s.seq) (sym (empty_file (s.gen + 1))) (omega arith);
        older =
            Rising-snoc s.segments
              (record { gen = s.gen; start_seq = s.active_start_seq; end_seq = s.seq }) s.gen refl
              h.older;
      }

  rotate-Keeps :
      (bs : Bytes) (s : Stream) → s.disk.active ≡ some bs → IsSound py s → Keeps s (rotate bs s)
  unfolding rotate apply_retention archive write_state ordered_sources
  rotate-Keeps bs s a h =
      let t = archive bs s in
      let k =
        drop_oldest-Keeps (length t.segments - t.retention_max_files) t
          (archive-IsSound bs s a h) in
      record {
        sound = record {
          starts = k.sound.starts;
          archived_chain = k.sound.archived_chain;
          active_chain = k.sound.active_chain;
          older = k.sound.older;
        };
        gone = k.gone;
        tail = archive-contents bs s a h ∙ k.tail;
      }

  -- `_maybe_rotate`, with its retention, keeps a sound stream sound, and keeps its contents but
  -- for a part at the front.
  pub maybe_rotate-Keeps : (s : Stream) → IsSound py s → Keeps s (maybe_rotate s)
  unfolding maybe_rotate
  maybe_rotate-Keeps s h = go s.disk.active refl
    where
      go :
          (o : Option Bytes)
          → s.disk.active ≡ o
          → Keeps s (elim o [
            | none ↦ s
            | some bs ↦ if ltb (length bs) s.rotate_max_bytes then s else rotate bs s
          ])
      go none e = record { sound = h; gone = []; tail = refl }
      go (some bs) e = elim (Bool-cases (ltb (length bs) s.rotate_max_bytes)) [
        | inl small ↦ rw small (record { sound = h; gone = []; tail = refl })
        | inr large ↦ rw large (rotate-Keeps bs s e h)
      ]

  -- While a sound stream has fewer segments than the limit, `_maybe_rotate` keeps all of its
  -- contents.
  pub maybe_rotate-contents :
      (s : Stream)
      → IsSound py s
      → length s.segments < s.retention_max_files
      → contents py (ordered_sources s) ≡ contents py (ordered_sources (maybe_rotate s))
  unfolding maybe_rotate rotate apply_retention archive write_state ordered_sources drop_oldest
      Dict.put
  maybe_rotate-contents s h l = go s.disk.active refl
    where
      fits : length (archive [] s).segments - s.retention_max_files ≡ 0
      fits = omega (
        arith,
        length-append s.segments
            (record { gen = s.gen; start_seq = s.active_start_seq; end_seq = s.seq } ∷ []),
      )

      go :
          (o : Option Bytes)
          → s.disk.active ≡ o
          → contents py (ordered_sources s)
            ≡ contents py (
                ordered_sources (elim o [
                  | none ↦ s
                  | some bs ↦ if ltb (length bs) s.rotate_max_bytes then s else rotate bs s
                ]))
      go none e = refl
      go (some bs) e = elim (Bool-cases (ltb (length bs) s.rotate_max_bytes)) [
        | inl small ↦ rw small
        | inr large ↦ rw (large, fits) (archive-contents bs s e h)
      ]

-- Below that limit no key is forgotten.
pub maybe_rotate-idempotency :
    (s : Stream)
    → length s.segments < s.retention_max_files
    → (maybe_rotate s).idempotency ≡ s.idempotency
unfolding maybe_rotate rotate apply_retention write_state drop_oldest
maybe_rotate-idempotency s l = go s.disk.active
  where
    new : Segment
    new = record { gen = s.gen; start_seq = s.active_start_seq; end_seq = s.seq }

    fits : length (s.segments ++ new ∷ []) - s.retention_max_files ≡ 0
    fits = omega (arith, length-append s.segments (new ∷ []))

    go :
        (o : Option Bytes)
        → (elim o as (λ _. Stream) [
          | none ↦ s
          | some bs ↦ if ltb (length bs) s.rotate_max_bytes then s else rotate bs s
        ]).idempotency
          ≡ s.idempotency
    go none = refl
    go (some bs) = elim (Bool-cases (ltb (length bs) s.rotate_max_bytes)) [
      | inl small ↦ rw small
      | inr large ↦ rw (large, fits) refl
    ]
