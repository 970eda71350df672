-- ===== src/Examples/Tokens64.antt =====
-- A concrete text encoding of bytes in groups of four characters, which the examples take for
-- base64: a byte x is the group (x + 62) A A A.
use ws_collab.Prelude.{
  ℕ, ◌+◌, ◌-◌, ◌%◌, ◌≤◌, ◌≡◌, refl, ap, ◌∙◌, ◌≢◌, false, Option, none, some, [], ◌∷◌, arith, length,
  ◌==◌, nat_eq, Text,
}
use ws_collab.Lines.{Bytes}
use ws_collab.Ids.{Base64, rstrip_pad, strip_cons, pad}
use ws_collab.Ids.Cursor.{IsBase64}

pub encode64 : Bytes → Text
encode64 [] = []
encode64 (x ∷ xs) = (x + 62) ∷ 65 ∷ 65 ∷ 65 ∷ encode64 xs

abbrev add_byte : ℕ → Option Bytes → Option Bytes
add_byte c none = none
add_byte c (some xs) = some ((c - 62) ∷ xs)

pub decode64 : Text → Option Bytes
decode64 [] = some []
decode64 (c ∷ d ∷ e ∷ f ∷ rest) = add_byte c (decode64 rest)
decode64 _ = none

decode64-encode64 : (bs : Bytes) → decode64 (encode64 bs) ≡ some bs
unfolding decode64 encode64
decode64-encode64 [] = refl
decode64-encode64 (x ∷ xs) =
    ap (add_byte (x + 62)) (decode64-encode64 xs) ∙ ap (λ (n : ℕ). some (n ∷ xs)) (omega arith)

encode64-aligned : (bs : Bytes) → length (encode64 bs) % 4 ≡ 0
unfolding encode64
encode64-aligned [] = refl
encode64-aligned (x ∷ xs) = omega (arith, encode64-aligned xs)

strip_cons_kept : (c : ℕ) (rest : Text) → (c == pad) ≡ false → strip_cons c rest ≡ c ∷ rest
unfolding strip_cons
strip_cons_kept c [] h = rw h refl
strip_cons_kept c (d ∷ rest) h = refl

rstrip_pad-encode64 : (bs : Bytes) → rstrip_pad (encode64 bs) ≡ encode64 bs
unfolding rstrip_pad encode64 strip_cons
rstrip_pad-encode64 [] = refl
rstrip_pad-encode64 (x ∷ xs) =
    rw (rstrip_pad-encode64 xs, strip_cons_kept 65 (encode64 xs) refl)
      (strip_cons_kept (x + 62) (65 ∷ 65 ∷ 65 ∷ encode64 xs) (ground arith))

encode64-few_pads : (bs : Bytes) → length (encode64 bs) ≤ length (rstrip_pad (encode64 bs)) + 3
encode64-few_pads bs = omega (arith, ap length (rstrip_pad-encode64 bs))

encode64-filled : (bs : Bytes) → bs ≢ [] → 4 ≤ length (encode64 bs)
unfolding encode64
encode64-filled [] h = absurd (h refl)
encode64-filled (x ∷ xs) h = omega arith

abbrev pub base64 : Base64
base64 = record { urlsafe_b64encode = encode64; urlsafe_b64decode = decode64 }

pub base64-IsBase64 : IsBase64 base64
base64-IsBase64 = record {
  decode-encode = decode64-encode64;
  aligned = encode64-aligned;
  few_pads = encode64-few_pads;
  filled = encode64-filled;
}
