-- ===== src/Lines/Chunks.antt =====
-- The chunked reader computes the framing of the file, whatever the size of a chunk.
use ws_collab.Prelude.{
  ℕ, zero, suc, ◌+◌, ◌≤◌, ◌<◌, ◌≡◌, refl, sym, ap, subst, ◌∙◌, inl, inr, false, Option, none, some,
  List, [], ◌∷◌, ◌++◌, append_assoc, arith, Bool-cases, length, take, drop, length-append,
  length-drop, take-append-drop, ◌==◌, nat_eq,
}
use ws_collab.Lines.{
  Bytes, Row, NoNewline, find_newline, emit, Drained, drain, read_chunks, chunks_of,
  iter_complete_lines,
}
use ws_collab.Lines.Framing.{
  frame, frame-append, frame-plain, pending-plain, open_at-plain, frame-line,
}

concat : List Bytes → Bytes
concat [] = []
concat (c ∷ cs) = c ++ concat cs

-- What `find_newline` says of its argument.
abbrev Found : Bytes → Option (Bytes × Bytes) → Type 0
Found bs none = NoNewline bs
Found bs (some (line, after)) = NoNewline line × (bs ≡ line ++ 10 ∷ after)

Found-cons :
    (b : ℕ) (bs : Bytes) (o : Option (Bytes × Bytes))
    → (b == 10) ≡ false
    → Found bs o
    → Found (b ∷ bs) (elim o [ none ↦ none | some (line, after) ↦ some (b ∷ line, after) ])
Found-cons b bs none h f = (h, f)
Found-cons b bs (some (line, after)) h f = ((h, f.0), ap (◌∷◌ b) f.1)

find_newline-Found : (bs : Bytes) → Found bs (find_newline bs)
unfolding find_newline
find_newline-Found [] = tt
find_newline-Found (b ∷ bs) = elim (Bool-cases (b == 10)) [
  | inl h ↦ rw h (tt, ap (λ (n : ℕ). n ∷ bs) (ground arith))
  | inr h ↦ rw h (Found-cons b bs (find_newline bs) h (find_newline-Found bs))
]

emit-append : (r : Row) (xs ys : List Row) → emit r (xs ++ ys) ≡ emit r xs ++ ys
unfolding emit
emit-append r xs ys = ground arith

-- The frame of a buffer that holds no newline, with what comes behind it.
frame-buffer :
    (off : ℕ) (buf bs : Bytes) → NoNewline buf → frame off [] (buf ++ bs) ≡ frame off buf bs
frame-buffer off buf bs h =
    rw (frame-append, frame-plain off [] buf h, pending-plain [] buf h, open_at-plain off [] buf h)

-- Draining a buffer yields its complete lines, and leaves an open line.
abbrev DrainLem : ℕ → Bytes → Drained → Type 0
DrainLem off buf d =
    NoNewline d.buffer
    × ((bs : Bytes) → frame off [] (buf ++ bs) ≡ d.rows ++ frame d.offset d.buffer bs)

drain_step :
    (fuel off : ℕ) (buf : Bytes) (o : Option (Bytes × Bytes))
    → find_newline buf ≡ o
    → Found buf o
    → ((line after : Bytes)
        → o ≡ some (line, after)
        → DrainLem (off + length line + 1) after (drain fuel (off + length line + 1) after))
    → DrainLem off buf (drain (suc fuel) off buf)
unfolding drain
drain_step fuel off buf none e f ih = rw (e, drain) (f, λ bs. frame-buffer off buf bs f)
drain_step fuel off buf (some (line, after)) e f ih =
    let d = ih line after refl in
    rw (e, drain)
      (
        d.0,
        λ bs.
            ap (λ z. frame off [] (z ++ bs)) f.1
            ∙ ap (frame off []) (append_assoc line (10 ∷ after) bs)
            ∙ frame-line off line (after ++ bs) f.0
            ∙ ap (emit (record { start = off; stop = off + length line + 1; line = line })) (d.1 bs)
            ∙ emit-append _ _ _,
      )

drain_lem : (fuel off : ℕ) (buf : Bytes) → length buf ≤ fuel → DrainLem off buf (drain fuel off buf)
unfolding drain
drain_lem zero off [] h = (tt, λ bs. refl)
drain_lem zero off (b ∷ buf) h = absurd (omega arith)
drain_lem (suc fuel) off buf h =
    drain_step fuel off buf (find_newline buf) refl f
      λ line after e. drain_lem fuel (off + length line + 1) after (shorter line after e)
  where
    f : Found buf (find_newline buf)
    f = find_newline-Found buf

    shorter : (line after : Bytes) → find_newline buf ≡ some (line, after) → length after ≤ fuel
    shorter line after e =
        let g : Found buf (some (line, after)) = subst (Found buf) e f in
        omega (arith, ap length g.1, length-append line (10 ∷ after))

read_chunks-frame :
    (off : ℕ) (buf : Bytes) (cs : List Bytes)
    → NoNewline buf
    → read_chunks off buf cs ≡ frame off buf (concat cs)
unfolding read_chunks concat
read_chunks-frame off buf [] h = unfold frame in refl
read_chunks-frame off buf (c ∷ cs) h =
    let d = drain (length (buf ++ c)) off (buf ++ c) in
    let l = drain_lem (length (buf ++ c)) off (buf ++ c) (omega arith) in
    ap (λ z. d.rows ++ z) (read_chunks-frame d.offset d.buffer cs l.0)
    ∙ sym (l.1 (concat cs))
    ∙ ap (frame off []) (append_assoc buf c (concat cs))
    ∙ frame-buffer off buf (c ++ concat cs) h

concat-chunks_of :
    (size fuel : ℕ) (bs : Bytes)
    → 0 < size
    → length bs ≤ fuel
    → concat (chunks_of size fuel bs) ≡ bs
unfolding concat chunks_of
concat-chunks_of size zero [] p h = refl
concat-chunks_of size zero (b ∷ bs) p h = absurd (omega arith)
concat-chunks_of zero (suc fuel) bs p h = absurd (omega arith)
concat-chunks_of (suc size) (suc fuel) [] p h = refl
concat-chunks_of (suc size) (suc fuel) (b ∷ bs) p h =
    ap (λ z. b ∷ (take size bs ++ z))
      (concat-chunks_of (suc size) fuel (drop size bs) p (omega (arith, length-drop size bs)))
    ∙ ap (◌∷◌ b) (take-append-drop size bs)

-- Reading a file from an offset in chunks of any positive size yields exactly the complete,
-- non-blank lines behind the offset, each with its place in the file.
pub iter_complete_lines-frame :
    (size : ℕ) (file : Bytes) (start : ℕ)
    → 0 < size
    → iter_complete_lines size file start ≡ frame start [] (drop start file)
unfolding iter_complete_lines
iter_complete_lines-frame size file start p =
    let rest = drop start file in
    read_chunks-frame start [] (chunks_of size (length rest) rest) tt
    ∙ ap (frame start []) (concat-chunks_of size (length rest) rest p (omega arith))
