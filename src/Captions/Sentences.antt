-- ===== src/Captions/Sentences.antt =====
-- The loop of `_queue_completed` against a splitter that walks the text once.
use ws_collab.Prelude.{
  ℕ, zero, suc, ◌+◌, ◌≤◌, ◌<◌, ◌≡◌, refl, ap, ◌∙◌, ◌⊎◌, inl, inr, Bool, true, false, not, ◌&&◌,
  ◌||◌, none, some, List, [], ◌∷◌, ◌++◌, arith, if◌then◌else◌, Bool-cases, Option-cases, length,
  take, drop, length-drop, ◌==◌, nat_eq, Text, text_eq,
}
use native.Mathlib.Numerals.{unary_clauses}
use ws_collab.Texts.{strip, lstrip, rstrip, rstrip_cons, is_space_char}
use ws_collab.Captions.{
  Progress, is_mark, at_end, first_sentence_boundary, clone_key, settle_one, settle_loop,
  begin_progress, end_progress, queue_completed, Tracker,
}

-- A character in front of the first of some pieces, or of what is behind them.
abbrev pub push : ℕ → List Text × Text → List Text × Text
push c ([], rest) = ([], c ∷ rest)
push c (p ∷ ps, rest) = ((c ∷ p) ∷ ps, rest)

-- The sentences of a text, each with the spaces in front of it, and the unfinished rest.
unfoldable pub pieces : Text → List Text × Text
pieces [] = ([], [])
pieces (c ∷ cs) =
    let found = pieces cs in
    if is_mark c && at_end cs then ((c ∷ []) ∷ found.0, found.1) else push c found

-- One sentence more: it is queued under the active key, and the next key continues it.
unfoldable pub settle_piece : Text → Text → Text → Progress → Progress
settle_piece dom_key speaker piece p = record {
  settled = p.settled + length piece;
  active = clone_key dom_key (suc p.clones);
  clones = suc p.clones;
  behind = some p.active;
  queue =
      p.queue
      ++ record { key = p.active; speaker = speaker; sentence = strip piece; replaces = p.behind }
        ∷ [];
}

unfoldable pub settle_pieces : Text → Text → List Text → Progress → Progress
settle_pieces dom_key speaker [] p = p
settle_pieces dom_key speaker (piece ∷ ps) p =
    settle_pieces dom_key speaker ps (settle_piece dom_key speaker piece p)

unfoldable pub concat : List Text → Text
concat [] = []
concat (p ∷ ps) = p ++ concat ps

push-pieces :
    (c : ℕ) (r : List Text × Text) → concat (push c r).0 ++ (push c r).1 ≡ c ∷ (concat r.0 ++ r.1)
unfolding concat
push-pieces c ([], rest) = refl
push-pieces c (p ∷ ps, rest) = refl

-- Nothing of a text is lost or moved: the pieces and the rest, put together, are the text.
pub pieces-concat : (text : Text) → concat (pieces text).0 ++ (pieces text).1 ≡ text
unfolding pieces concat
pieces-concat [] = refl
pieces-concat (c ∷ cs) = elim (Bool-cases (is_mark c && at_end cs)) [
  | inl p ↦ rw (pieces, p) (ap (λ t. c ∷ t) (pieces-concat cs))
  | inr p ↦ rw (pieces, p) (push-pieces c (pieces cs) ∙ ap (λ t. c ∷ t) (pieces-concat cs))
]

abbrev any_word : Text → Bool
any_word [] = false
any_word (c ∷ cs) = not (is_space_char c) || any_word cs

any_word-lstrip : (t : Text) → any_word t ≡ true → any_word (lstrip t) ≡ true
unfolding lstrip
any_word-lstrip [] h = h
any_word-lstrip (c ∷ cs) h = ground (arith, any_word-lstrip cs)

any_word-rstrip : (t : Text) → any_word t ≡ true → (rstrip t == []) ≡ false
unfolding rstrip rstrip_cons
any_word-rstrip [] h = cc
any_word-rstrip (c ∷ cs) h = nonempty (rstrip cs) (any_word-rstrip cs)
  where
    nonempty :
        (r : Text) → (any_word cs ≡ true → (r == []) ≡ false) → (rstrip_cons c r == []) ≡ false
    nonempty [] k = ground (arith, k, h)
    nonempty (d ∷ ds) k = refl

strip-any_word : (t : Text) → any_word t ≡ true → (strip t == []) ≡ false
unfolding strip
strip-any_word t h = any_word-rstrip (lstrip t) (any_word-lstrip t h)

mark_no_space : (c : ℕ) → is_mark c ≡ true → is_space_char c ≡ false
unfolding is_space_char
mark_no_space c h = ground arith

-- A boundary is behind the first character, or it is one of the text behind it.
boundary-cons :
    (c : ℕ) (cs : Text) (b : ℕ)
    → first_sentence_boundary (c ∷ cs) ≡ some b
    → (((is_mark c && at_end cs) ≡ true) × (b ≡ 1))
      ⊎ (((is_mark c && at_end cs) ≡ false)
          × ((b' : ℕ) × ((first_sentence_boundary cs ≡ some b') × (b ≡ suc b'))))
unfolding first_sentence_boundary
boundary-cons c cs b h = elim (Bool-cases (is_mark c && at_end cs)) [
  | inl p ↦ inl (p, ground (arith, p, h))
  | inr p ↦ elim (Option-cases (first_sentence_boundary cs)) [
    | inl q ↦ absurd (ground (arith, p, q, h))
    | inr (b', q) ↦ inr (p, (b', (q, ground (arith, p, q, h))))
  ]
]

boundary-any_word :
    (t : Text) (b : ℕ) → first_sentence_boundary t ≡ some b → any_word (take b t) ≡ true
unfolding first_sentence_boundary
boundary-any_word [] b h = cc
boundary-any_word (c ∷ cs) b h = elim (boundary-cons c cs b h) [
  | inl (p, e) ↦ rw e (ground (arith, p, mark_no_space c))
  | inr (p, (b', (q, e))) ↦ rw e (ground (arith, boundary-any_word cs b' q))
]

pieces-none : (t : Text) → first_sentence_boundary t ≡ none → pieces t ≡ ([], t)
unfolding first_sentence_boundary pieces
pieces-none [] h = refl
pieces-none (c ∷ cs) h = elim (Bool-cases (is_mark c && at_end cs)) [
  | inl p ↦ absurd (ground (arith, p, h))
  | inr p ↦ elim (Option-cases (first_sentence_boundary cs)) [
    | inl q ↦ rw (pieces, p, pieces-none cs q) refl
    | inr (b', q) ↦ absurd (ground (arith, p, q, h))
  ]
]

pieces-some :
    (t : Text) (b : ℕ)
    → first_sentence_boundary t ≡ some b
    → pieces t ≡ (take b t ∷ (pieces (drop b t)).0, (pieces (drop b t)).1)
unfolding first_sentence_boundary pieces
pieces-some [] b h = cc
pieces-some (c ∷ cs) b h = elim (boundary-cons c cs b h) [
  | inl (p, e) ↦ rw (e, pieces, p) refl
  | inr (p, (b', (q, e))) ↦ rw (e, pieces, p, pieces-some cs b' q) refl
]

boundary-bounds : (t : Text) (b : ℕ) → first_sentence_boundary t ≡ some b → (1 ≤ b) × (b ≤ length t)
unfolding first_sentence_boundary
boundary-bounds [] b h = cc
boundary-bounds (c ∷ cs) b h = elim (boundary-cons c cs b h) [
  | inl (p, e) ↦ rw e (omega arith, omega arith)
  | inr (p, (b', (q, e))) ↦
      let rest = boundary-bounds cs b' q in rw e (omega arith, omega (arith, rest))
]

pub length-take : (n : ℕ) (t : Text) → n ≤ length t → length (take n t) ≡ n
length-take zero t h = refl
length-take (suc n) [] h = absurd (omega arith)
length-take (suc n) (c ∷ t) h = ap suc (length-take n t (omega arith))

drop-drop : (m n : ℕ) (t : Text) → drop (m + n) t ≡ drop n (drop m t)
drop-drop zero n t = let e : 0 + n ≡ n = omega arith in ap (λ k. drop k t) e
drop-drop (suc m) zero [] = simp unary_clauses
drop-drop (suc m) (suc n) [] = simp unary_clauses
drop-drop (suc m) n (c ∷ t) =
    let e : suc m + n ≡ suc (m + n) = omega arith in ap (λ k. drop k (c ∷ t)) e ∙ drop-drop m n t

settle_one-piece :
    (dom_key speaker pending : Text) (b : ℕ) (p : Progress)
    → first_sentence_boundary pending ≡ some b
    → settle_one dom_key speaker pending b p ≡ settle_piece dom_key speaker (take b pending) p
unfolding settle_one settle_piece
settle_one-piece dom_key speaker pending b p h =
    rw
      (
        settle_one,
        settle_piece,
        strip-any_word (take b pending) (boundary-any_word pending b h),
        length-take b pending (boundary-bounds pending b h).1,
      )
      refl

-- With more fuel than the pending text is long, the loop ends, and it has queued the pieces of that
-- text one by one.
pub settle_loop-pieces :
    (fuel : ℕ) (dom_key speaker text : Text) (p : Progress)
    → length (drop p.settled text) < fuel
    → settle_loop fuel dom_key speaker text p
      ≡ some (settle_pieces dom_key speaker (pieces (drop p.settled text)).0 p)
unfolding settle_loop settle_pieces settle_piece
settle_loop-pieces zero dom_key speaker text p h = absurd (omega arith)
settle_loop-pieces (suc fuel) dom_key speaker text p h =
    elim (Option-cases (first_sentence_boundary (drop p.settled text))) [
      | inl q ↦ rw (settle_loop, q, pieces-none (drop p.settled text) q) refl
      | inr (b, q) ↦
          let pending = drop p.settled text in
          let next = settle_piece dom_key speaker (take b pending) p in
          let bounds = boundary-bounds pending b q in
          let there : drop next.settled text ≡ drop b pending =
            ap (λ n. drop (p.settled + n) text) (length-take b pending bounds.1)
            ∙ drop-drop p.settled b text in
          let rest =
            settle_loop-pieces fuel dom_key speaker text next
              (omega (arith, ap length there, length-drop b pending)) in
          rw
            (
              settle_loop,
              q,
              pieces-some pending b q,
              settle_one-piece dom_key speaker pending b p q,
            )
            (rest ∙ ap (λ t. some (settle_pieces dom_key speaker (pieces t).0 next)) there)
    ]

-- `queue_completed` queues the sentences of the text behind what is settled, each under the key that
-- continues the one before, and settles them; the loop does not run out of fuel.
pub queue_completed-pieces :
    (dom_key speaker text : Text) (t : Tracker)
    → let p = begin_progress dom_key t in
      queue_completed dom_key speaker text t
      ≡ end_progress dom_key (settle_pieces dom_key speaker (pieces (drop p.settled text)).0 p) t
unfolding queue_completed
queue_completed-pieces dom_key speaker text t =
    let p = begin_progress dom_key t in
    rw
      (
        queue_completed,
        settle_loop-pieces (suc (length text)) dom_key speaker text p
            (omega (arith, length-drop p.settled text)),
      )
      refl
