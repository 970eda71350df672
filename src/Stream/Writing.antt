-- ===== src/Stream/Writing.antt =====
-- What one written line adds to a stream, and what a torn one does.
use mathlib.Core.Path.{ap₂}
use ws_collab.Errors.{ok}
use ws_collab.Stream.Sources.{yield_file-frame, yield_rows-append}
use ws_collab.Prelude.{
  ℕ, ◌+◌, ◌<◌, ◌≡◌, refl, sym, ap, ◌∙◌, ◌≢◌, inl, inr, false, some, [], ◌∷◌, ◌++◌, append-nil,
  arith, leb, if◌then◌else◌, gt→leb, Bool-cases, length, length-append, ◌==◌, nat_eq, codes,
  text_eq,
}
use ws_collab.Lines.{Bytes, is_blank, NoNewline, emit, Row}
use ws_collab.Lines.Framing.{pending, frame, frame-append, open_at-pending, frame-line}
use ws_collab.Json.{Python, IsJsonLines, get_field, truthy, int_of, num, obj, int}
use ws_collab.Event.{Event, to_line, of_seq, to_dict}
use ws_collab.Event.RoundTrip.{IsExtra, to_dict-seq, from_dict-to_dict}
use ws_collab.Stream.Append.{is_torn, repaired}
use ws_collab.Stream.Read.{
  event, yield_row, yield_read, yield_event, yield_number, yield_record, yield_loaded, seq_value,
  yield_rows, yield_file,
}

-- A file that is not torn has no open line.
pub pending_of_whole : (cur bs : Bytes) → bs ≢ [] → is_torn bs ≡ false → pending cur bs ≡ []
unfolding is_torn pending
pending_of_whole cur [] ne h = absurd (ne refl)
pending_of_whole cur (b ∷ []) ne h = ground arith
pending_of_whole cur (b ∷ c ∷ bs) ne h = elim (Bool-cases (b == 10)) [
  | inl nl ↦ rw nl (pending_of_whole [] (c ∷ bs) (λ e. cc) h)
  | inr no_nl ↦ rw no_nl (pending_of_whole (cur ++ b ∷ []) (c ∷ bs) (λ e. cc) h)
]

pending-newline : (cur bs : Bytes) → pending cur (bs ++ 10 ∷ []) ≡ []
unfolding pending
pending-newline cur [] = refl
pending-newline cur (b ∷ bs) = elim (Bool-cases (b == 10)) [
  | inl nl ↦ rw nl (pending-newline [] bs)
  | inr no_nl ↦ rw no_nl (pending-newline (cur ++ b ∷ []) bs)
]

pub pending-repaired : (bs : Bytes) → pending [] (repaired bs) ≡ []
unfolding repaired
pending-repaired [] = unfold pending is_torn in refl
pending-repaired (b ∷ bs) = elim (Bool-cases (is_torn (b ∷ bs))) [
  | inl torn ↦ rw torn (pending-newline [] (b ∷ bs))
  | inr whole ↦ rw whole (pending_of_whole [] (b ∷ bs) (λ e. cc) whole)
]

number_of_record : (py : Python) (n : ℕ) → 0 < n → int_of py (seq_value (some (num n))) ≡ int n
unfolding int_of seq_value truthy
number_of_record py n p = ground arith

yield_read_ok :
    (n stop gen : ℕ) (e : Event)
    → 0 < n
    → (if leb n 0 then [] else yield_read n stop gen (ok e)) ≡ event e n stop gen ∷ []
unfolding yield_read
yield_read_ok n stop gen e p = rw (gt→leb n 0 p)

-- One line at the start of a file.
frame_one :
    (off stop : ℕ) (line : Bytes)
    → off + length line + 1 ≡ stop
    → NoNewline line
    → is_blank line ≡ false
    → frame off [] (line ++ 10 ∷ []) ≡ record { start = off; stop = stop; line = line } ∷ []
unfolding emit frame
frame_one off stop line e nl nb = frame-line off line [] nl ∙ rw (nb, e)

-- A closed file in front of one more line and its newline.
frame-closed :
    (bs line : Bytes)
    → pending [] bs ≡ []
    → NoNewline line
    → is_blank line ≡ false
    → frame 0 [] (bs ++ (line ++ 10 ∷ []))
      ≡ frame 0 [] bs
        ++ record { start = length bs; stop = length (bs ++ (line ++ 10 ∷ [])); line = line } ∷ []
frame-closed bs line h nl nb =
    frame-append 0 [] bs (line ++ 10 ∷ [])
    ∙ ap₂ (λ (o : ℕ) (c : Bytes). frame 0 [] bs ++ frame o c (line ++ 10 ∷ []))
        (omega (arith, open_at-pending 0 [] bs, ap length h)) h
    ∙ ap (λ z. frame 0 [] bs ++ z)
        (frame_one (length bs) (length (bs ++ (line ++ 10 ∷ []))) line
          (omega (arith, length-append bs (line ++ 10 ∷ []), length-append line (10 ∷ []))) nl nb)

module _ (py : Python) (lines : IsJsonLines py) where
  -- The row of a written event yields that event, with its number.
  yield_written :
      (e : Event) (n start stop gen : ℕ)
      → IsExtra e.extra
      → e.seq ≡ some n
      → 0 < n
      → yield_row py 0 gen (record { start = start; stop = stop; line = to_line py e })
        ≡ event e n stop gen ∷ []
  unfolding yield_row yield_loaded yield_record yield_number yield_event to_line
  yield_written e n start stop gen x s p =
      let q : int_of py (seq_value (get_field (to_dict e) (codes "seq"))) ≡ int n =
        ap (λ z. int_of py (seq_value z)) (to_dict-seq e x ∙ ap (λ z. some (of_seq z)) s)
        ∙ number_of_record py n p in
      ap (yield_loaded py 0 gen stop) (lines.loads-dumps (obj (to_dict e)))
      ∙ ap (yield_number py 0 gen stop (to_dict e)) q
      ∙ ap (λ r. if leb n 0 then [] else yield_read n stop gen r) (from_dict-to_dict py e x)
      ∙ yield_read_ok n stop gen e p

  -- A line written behind a closed file yields one more event, at the end of the file.
  pub yield_file-written :
      (e : Event) (n gen : ℕ) (bs : Bytes)
      → IsExtra e.extra
      → e.seq ≡ some n
      → 0 < n
      → pending [] bs ≡ []
      → yield_file py 0 gen (some (bs ++ (to_line py e ++ 10 ∷ [])))
        ≡ yield_file py 0 gen (some bs)
          ++ event e n (length (bs ++ (to_line py e ++ 10 ∷ []))) gen ∷ []
  unfolding to_line yield_rows
  yield_file-written e n gen bs x s p h =
      let whole = bs ++ (to_line py e ++ 10 ∷ []) in
      let row : Row = record { start = length bs; stop = length whole; line = to_line py e } in
      let j = obj (to_dict e) in
      yield_file-frame py 0 gen whole
      ∙ ap (yield_rows py 0 gen)
          (frame-closed bs (py.dumps j) h (lines.no_newline j) (lines.not_blank j))
      ∙ yield_rows-append py 0 gen (frame 0 [] bs) (row ∷ [])
      ∙ ap₂ ◌++◌ (sym (yield_file-frame py 0 gen bs)) (
          append-nil (yield_row py 0 gen row)
          ∙ yield_written e n (length bs) (length whole) gen x s p)
