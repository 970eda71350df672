-- ===== src/Lines/Framing.antt =====
-- The framing of a file by newlines, one byte at a time: what the chunked reader computes.
use ws_collab.Prelude.{
  ℕ, ◌+◌, ◌≡◌, refl, sym, ◌∙◌, inl, inr, List, [], ◌∷◌, ◌++◌, append-nil, append_assoc, arith,
  if◌then◌else◌, Bool-cases, length, length-append, ◌==◌, nat_eq,
}
use ws_collab.Lines.{Bytes, Row, NoNewline, emit}

-- The rows of `bs`, where `cur` holds the bytes of the line that has begun at `off`.
unfoldable pub frame : ℕ → Bytes → Bytes → List Row
frame off cur [] = []
frame off cur (b ∷ bs) =
    let stop = off + length cur + 1 in
    let done = emit (record { start = off; stop = stop; line = cur }) (frame stop [] bs) in
    let more = frame off (cur ++ b ∷ []) bs in if b == 10 then done else more

-- The bytes of the line that is still open behind `bs`.
unfoldable pub pending : Bytes → Bytes → Bytes
pending cur [] = cur
pending cur (b ∷ bs) =
    let done = pending [] bs in
    let more = pending (cur ++ b ∷ []) bs in if b == 10 then done else more

-- The offset at which the open line has begun.
unfoldable pub open_at : ℕ → Bytes → Bytes → ℕ
open_at off cur [] = off
open_at off cur (b ∷ bs) =
    let done = open_at (off + length cur + 1) [] bs in
    let more = open_at off (cur ++ b ∷ []) bs in if b == 10 then done else more

emit-append : (r : Row) (xs ys : List Row) → emit r (xs ++ ys) ≡ emit r xs ++ ys
unfolding emit
emit-append r xs ys = ground arith

-- Framing two pieces is framing the first, then the second from where the first stopped.
pub frame-append :
    (off : ℕ) (cur xs ys : Bytes)
    → frame off cur (xs ++ ys) ≡ frame off cur xs ++ frame (open_at off cur xs) (pending cur xs) ys
unfolding frame open_at pending
frame-append off cur [] ys = refl
frame-append off cur (b ∷ xs) ys = elim (Bool-cases (b == 10)) [
  | inl h ↦ rw (h, frame-append (off + length cur + 1) [] xs ys) (emit-append _ _ _)
  | inr h ↦ rw h (frame-append off (cur ++ b ∷ []) xs ys)
]

pub open_at-pending :
    (off : ℕ) (cur xs : Bytes)
    → open_at off cur xs + length (pending cur xs) ≡ off + length cur + length xs
unfolding open_at pending
open_at-pending off cur [] = omega arith
open_at-pending off cur (b ∷ xs) = ground (
  arith,
  open_at-pending (off + length cur + 1) [] xs,
  open_at-pending off (cur ++ b ∷ []) xs,
  length-append cur (b ∷ []),
)

-- A piece without a newline stays open.
pub frame-plain : (off : ℕ) (cur p : Bytes) → NoNewline p → frame off cur p ≡ []
unfolding frame
frame-plain off cur [] h = refl
frame-plain off cur (b ∷ p) h = rw h.0 (frame-plain off (cur ++ b ∷ []) p h.1)

pub pending-plain : (cur p : Bytes) → NoNewline p → pending cur p ≡ cur ++ p
unfolding pending
pending-plain cur [] h = sym (append-nil cur)
pending-plain cur (b ∷ p) h =
    rw h.0 (pending-plain (cur ++ b ∷ []) p h.1 ∙ append_assoc cur (b ∷ []) p)

pub open_at-plain : (off : ℕ) (cur p : Bytes) → NoNewline p → open_at off cur p ≡ off
unfolding open_at
open_at-plain off cur [] h = refl
open_at-plain off cur (b ∷ p) h = rw h.0 (open_at-plain off (cur ++ b ∷ []) p h.1)

-- A line and its newline at the start of a line.
pub frame-line :
    (off : ℕ) (line rest : Bytes)
    → NoNewline line
    → frame off [] (line ++ 10 ∷ rest)
      ≡ emit
          (record { start = off; stop = off + length line + 1; line = line })
          (frame (off + length line + 1) [] rest)
frame-line off line rest h =
    rw
      (
        frame-append,
        frame-plain off [] line h,
        pending-plain [] line h,
        open_at-plain off [] line h,
      )
      (unfold frame in refl)
