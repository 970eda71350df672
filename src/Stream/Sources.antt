-- ===== src/Stream/Sources.antt =====
-- What `iter_from_seq` yields over sound files, against the whole contents of the stream.
use ws_collab.Lines.Chunks.{iter_complete_lines-frame}
use ws_collab.Lines.Framing.{frame}
use mathlib.Core.Path.{ap₂}
use ws_collab.Errors.{Result, ok, raise, uncaught}
use ws_collab.Stream.{Source, chunk_size}
use ws_collab.Lines.{Row, Bytes}
use ws_collab.Prelude.{
  ℕ, ◌≤◌, max, ◌≡◌, refl, sym, ap, subst, ◌∙◌, inl, inr, Bool, not, ◌&&◌, Option, none, some, List,
  [], ◌∷◌, ◌++◌, append_assoc, arith, leb, if◌then◌else◌, Bool-cases, nat_eq,
}
use ws_collab.Json.{Json, Fields, Python, IntCall, int, value_error, type_error}
use ws_collab.Event.{Event, from_dict}
use ws_collab.Stream.Read.{
  Item, event, malformed, crash, yield_event, yield_record, yield_read, yield_number, yield_loaded,
  yield_row, yield_rows, yield_file, yield_sources,
}
use ws_collab.Stream.Pages.{Chain, matching, behind, Chain-le, matching-behind_end}

abbrev pub NoCrash : List Item → Type 0
NoCrash [] = Unit
NoCrash (crash ∷ items) = ⊥
NoCrash (malformed ∷ items) = NoCrash items
NoCrash (event e n stop gen ∷ items) = NoCrash items

pub Chain-NoCrash : (lo hi : ℕ) (items : List Item) → Chain lo items hi → NoCrash items
Chain-NoCrash lo hi [] h = tt
Chain-NoCrash lo hi (crash ∷ items) h = h
Chain-NoCrash lo hi (malformed ∷ items) h = Chain-NoCrash lo hi items h
Chain-NoCrash lo hi (event e n stop gen ∷ items) h = Chain-NoCrash n hi items h.1

NoCrash-append : (xs ys : List Item) → NoCrash (xs ++ ys) → NoCrash xs × NoCrash ys
NoCrash-append [] ys h = (tt, h)
NoCrash-append (crash ∷ xs) ys h = absurd h
NoCrash-append (malformed ∷ xs) ys h = NoCrash-append xs ys h
NoCrash-append (event e n stop gen ∷ xs) ys h = NoCrash-append xs ys h

pub behind-append : (a : ℕ) (xs ys : List Item) → behind a (xs ++ ys) ≡ behind a xs ++ behind a ys
unfolding behind
behind-append a [] ys = refl
behind-append a (crash ∷ xs) ys = ap (◌∷◌ crash) (behind-append a xs ys)
behind-append a (malformed ∷ xs) ys = ap (◌∷◌ malformed) (behind-append a xs ys)
behind-append a (event e n stop gen ∷ xs) ys = ground (arith, behind-append a xs ys)

pub matching-append :
    (keep : Event → Bool) (xs ys : List Item)
    → matching keep (xs ++ ys) ≡ matching keep xs ++ matching keep ys
unfolding matching
matching-append keep [] ys = refl
matching-append keep (crash ∷ xs) ys = matching-append keep xs ys
matching-append keep (malformed ∷ xs) ys = matching-append keep xs ys
matching-append keep (event e n stop gen ∷ xs) ys = ground (arith, matching-append keep xs ys)

pub Chain-weaken :
    (lo mid hi : ℕ) (items : List Item) → lo ≤ mid → Chain mid items hi → Chain lo items hi
Chain-weaken lo mid hi [] l c = omega arith
Chain-weaken lo mid hi (crash ∷ items) l c = absurd c
Chain-weaken lo mid hi (malformed ∷ items) l c = Chain-weaken lo mid hi items l c
Chain-weaken lo mid hi (event e n stop gen ∷ items) l c = (omega arith, c.1)

pub Chain-append :
    (lo mid hi : ℕ) (xs ys : List Item) → Chain lo xs mid → Chain mid ys hi → Chain lo (xs ++ ys) hi
Chain-append lo mid hi [] ys h k = Chain-weaken lo mid hi ys h k
Chain-append lo mid hi (crash ∷ xs) ys h k = absurd h
Chain-append lo mid hi (malformed ∷ xs) ys h k = Chain-append lo mid hi xs ys h k
Chain-append lo mid hi (event e n stop gen ∷ xs) ys h k = (h.0, Chain-append n mid hi xs ys h.1 k)

-- A chain of two pieces passes through the last number of the first.
pub Chain-split :
    (lo hi : ℕ) (xs ys : List Item)
    → Chain lo (xs ++ ys) hi
    → (mid : ℕ) × Chain lo xs mid × Chain mid ys hi
Chain-split lo hi [] ys h = (lo, omega arith, h)
Chain-split lo hi (crash ∷ xs) ys h = absurd h
Chain-split lo hi (malformed ∷ xs) ys h = Chain-split lo hi xs ys h
Chain-split lo hi (event e n stop gen ∷ xs) ys h =
    let (mid, p, q) = Chain-split n hi xs ys h.1 in (mid, (h.0, p), q)

-- The upper bound of a chain may grow.
pub Chain-extend :
    (lo mid hi : ℕ) (items : List Item) → mid ≤ hi → Chain lo items mid → Chain lo items hi
Chain-extend lo mid hi [] l c = omega arith
Chain-extend lo mid hi (crash ∷ items) l c = absurd c
Chain-extend lo mid hi (malformed ∷ items) l c = Chain-extend lo mid hi items l c
Chain-extend lo mid hi (event e n stop gen ∷ items) l c = (c.0, Chain-extend n mid hi items l c.1)

pub behind-behind :
    (a b : ℕ) (items : List Item) → a ≤ b → behind b (behind a items) ≡ behind b items
unfolding behind
behind-behind a b [] h = refl
behind-behind a b (crash ∷ items) h = ap (◌∷◌ crash) (behind-behind a b items h)
behind-behind a b (malformed ∷ items) h = ap (◌∷◌ malformed) (behind-behind a b items h)
behind-behind a b (event e n stop gen ∷ items) h = ground (arith, behind-behind a b items h)

pub Chain-behind :
    (a lo hi : ℕ) (items : List Item)
    → Chain lo items hi
    → Chain (max a lo) (behind a items) (max a hi)
unfolding behind
Chain-behind a lo hi [] h = omega arith
Chain-behind a lo hi (crash ∷ items) h = absurd h
Chain-behind a lo hi (malformed ∷ items) h = Chain-behind a lo hi items h
Chain-behind a lo hi (event e n stop gen ∷ items) h = elim (Bool-cases (leb n a)) [
  | inl p ↦
      let ih = Chain-behind a n hi items h.1 in
      rw p (subst (λ (z : ℕ). Chain z (behind a items) (max a hi)) (ground arith) ih)
  | inr p ↦
      let ih = Chain-behind a n hi items h.1 in
      rw p (ground arith, subst (λ (z : ℕ). Chain z (behind a items) (max a hi)) (ground arith) ih)
]

yield_read-behind :
    (a n stop gen : ℕ) (r : Result Event)
    → NoCrash (if leb n 0 then [] else yield_read n stop gen r)
    → (if leb n a then [] else yield_read n stop gen r)
      ≡ behind a (if leb n 0 then [] else yield_read n stop gen r)
unfolding behind yield_read
yield_read-behind a n stop gen (ok e) h = ground arith
yield_read-behind a n stop gen (raise x) h = ground arith
yield_read-behind a n stop gen uncaught h = ground arith

module _ (py : Python) (a gen : ℕ) where
  yield_number-behind :
      (stop : ℕ) (fs : Fields) (v : IntCall)
      → NoCrash (yield_number py 0 gen stop fs v)
      → yield_number py a gen stop fs v ≡ behind a (yield_number py 0 gen stop fs v)
  unfolding yield_number yield_event behind
  yield_number-behind stop fs (int n) h = yield_read-behind a n stop gen (from_dict py fs) h
  yield_number-behind stop fs value_error h = refl
  yield_number-behind stop fs type_error h = absurd h

  yield_loaded-behind :
      (stop : ℕ) (o : Option Json)
      → NoCrash (yield_loaded py 0 gen stop o)
      → yield_loaded py a gen stop o ≡ behind a (yield_loaded py 0 gen stop o)
  unfolding yield_loaded yield_record behind
  yield_loaded-behind stop none h = refl
  yield_loaded-behind stop (some (Json.obj fs)) h = yield_number-behind stop fs _ h
  yield_loaded-behind stop (some j) h = absurd h

  pub yield_rows-behind :
      (rows : List Row)
      → NoCrash (yield_rows py 0 gen rows)
      → yield_rows py a gen rows ≡ behind a (yield_rows py 0 gen rows)
  unfolding yield_rows yield_row
  yield_rows-behind [] h = unfold behind in refl
  yield_rows-behind (r ∷ rows) h =
      let (h1, h2) = NoCrash-append (yield_row py 0 gen r) (yield_rows py 0 gen rows) h in
      ap₂ ◌++◌ (yield_loaded-behind r.stop (py.loads r.line) h1) (yield_rows-behind rows h2)
      ∙ sym (behind-append a (yield_row py 0 gen r) (yield_rows py 0 gen rows))

module _ (py : Python) where
  pub yield_rows-append :
      (a gen : ℕ) (xs ys : List Row)
      → yield_rows py a gen (xs ++ ys) ≡ yield_rows py a gen xs ++ yield_rows py a gen ys
  unfolding yield_rows
  yield_rows-append a gen [] ys = refl
  yield_rows-append a gen (r ∷ xs) ys =
      ap (λ z. yield_row py a gen r ++ z) (yield_rows-append a gen xs ys)
      ∙ sym (append_assoc (yield_row py a gen r) (yield_rows py a gen xs) (yield_rows py a gen ys))

  -- A file yields the rows of its framing.
  pub yield_file-frame :
      (a gen : ℕ) (bs : Bytes) → yield_file py a gen (some bs) ≡ yield_rows py a gen (frame 0 [] bs)
  unfolding yield_file
  yield_file-frame a gen bs =
      ap (yield_rows py a gen) (iter_complete_lines-frame chunk_size bs 0 (omega arith))

  yield_file-behind :
      (a gen : ℕ) (file : Option Bytes)
      → NoCrash (yield_file py 0 gen file)
      → yield_file py a gen file ≡ behind a (yield_file py 0 gen file)
  unfolding yield_file behind
  yield_file-behind a gen none h = refl
  yield_file-behind a gen (some bs) h = yield_rows-behind py a gen _ h

  -- All that the files hold, in order.
  unfoldable pub contents : List Source → List Item
  contents [] = []
  contents (src ∷ sources) = yield_file py 0 src.gen src.file ++ contents sources

  -- Each file has rising numbers up to its `end_seq`, above those of the files before it.
  abbrev pub SourcesChain : ℕ → List Source → ℕ → Type 0
  SourcesChain lo [] hi = lo ≤ hi
  SourcesChain lo (src ∷ sources) hi =
      Chain lo (yield_file py 0 src.gen src.file) src.end_seq × SourcesChain src.end_seq sources hi

  pub contents-Chain :
      (lo hi : ℕ) (sources : List Source)
      → SourcesChain lo sources hi
      → Chain lo (contents sources) hi
  unfolding contents
  contents-Chain lo hi [] h = h
  contents-Chain lo hi (src ∷ sources) h =
      Chain-append lo src.end_seq hi (yield_file py 0 src.gen src.file) (contents sources) h.0
        (contents-Chain src.end_seq hi sources h.1)

  pub yield_sources-Chain :
      (a lo hi : ℕ) (sources : List Source)
      → SourcesChain lo sources hi
      → Chain (max a lo) (yield_sources py a sources) (max a hi)
  unfolding yield_sources
  yield_sources-Chain a lo hi [] h = omega arith
  yield_sources-Chain a lo hi (src ∷ sources) h =
      let l = Chain-le lo src.end_seq (yield_file py 0 src.gen src.file) h.0 in
      let rest = yield_sources-Chain a src.end_seq hi sources h.1 in
      let same =
        yield_file-behind a src.gen src.file
          (Chain-NoCrash lo src.end_seq (yield_file py 0 src.gen src.file) h.0) in
      elim (Bool-cases (not src.is_active && leb src.end_seq a)) [
        | inl skip ↦ rw skip (
            Chain-weaken (max a lo) (max a src.end_seq) (max a hi) (yield_sources py a sources)
              (omega arith) rest)
        | inr kept ↦
            rw (kept, same)
              (Chain-append (max a lo) (max a src.end_seq) (max a hi)
                (behind a (yield_file py 0 src.gen src.file)) (yield_sources py a sources)
                (Chain-behind a lo src.end_seq (yield_file py 0 src.gen src.file) h.0) rest)
      ]

  -- What the skipping iterator yields behind a later position is what the contents have there.
  pub matching-yield_sources :
      (keep : Event → Bool) (a b lo hi : ℕ) (sources : List Source)
      → a ≤ b
      → SourcesChain lo sources hi
      → matching keep (behind b (yield_sources py a sources))
        ≡ matching keep (behind b (contents sources))
  unfolding yield_sources contents
  matching-yield_sources keep a b lo hi [] p h = refl
  matching-yield_sources keep a b lo hi (src ∷ sources) p h =
      let f = yield_file py 0 src.gen src.file in
      let rest = matching-yield_sources keep a b src.end_seq hi sources p h.1 in
      let same =
        yield_file-behind a src.gen src.file
          (Chain-NoCrash lo src.end_seq (yield_file py 0 src.gen src.file) h.0) in
      let whole : matching keep (behind b (f ++ contents sources))
          ≡ matching keep (behind b f) ++ matching keep (behind b (contents sources)) =
        ap (matching keep) (behind-append b f (contents sources)) ∙ matching-append keep _ _ in
      elim (Bool-cases (not src.is_active && leb src.end_seq a)) [
        | inl skip ↦ rw skip (
            rest
            ∙ sym (
                whole
                ∙ ap (λ z. z ++ matching keep (behind b (contents sources)))
                    (matching-behind_end keep lo src.end_seq b f (ground arith) h.0)))
        | inr kept ↦
            rw (kept, same)
              (ap (matching keep) (behind-append b (behind a f) (yield_sources py a sources))
                ∙ matching-append keep _ _
                ∙ ap₂ ◌++◌ (ap (matching keep) (behind-behind a b f p)) rest
                ∙ sym whole)
      ]
