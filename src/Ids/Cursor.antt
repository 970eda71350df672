-- ===== src/Ids/Cursor.antt =====
-- A cursor token decodes to the payload that it was encoded from.
use ws_collab.Json.{Python, Fields, IsJsonLines, obj}
use ws_collab.Prelude.{
  ℕ, suc, ◌+◌, ◌-◌, ◌%◌, ◌≤◌, ◌≡◌, refl, sym, ap, ◌∙◌, ◌≢◌, inl, inr, false, some, [], ◌∷◌, ◌++◌,
  arith, Bool-cases, length, ◌==◌, nat_eq, Text, text_eq,
}
use ws_collab.Lines.{Bytes, is_blank}
use ws_collab.Ids.{Base64, rstrip_pad, pads, pad, strip_cons, encode_cursor, decode_cursor}

-- What is documented of base64: an encoded text decodes, fills groups of four characters, has
-- fewer than four trailing pads, and at least one group where there is a byte.
pub record IsBase64 (b64 : Base64) : Type 0 where
  pub decode-encode : (bs : Bytes) → b64.urlsafe_b64decode (b64.urlsafe_b64encode bs) ≡ some bs
  pub aligned : (bs : Bytes) → length (b64.urlsafe_b64encode bs) % 4 ≡ 0
  pub few_pads :
      (bs : Bytes)
      → length (b64.urlsafe_b64encode bs) ≤ length (rstrip_pad (b64.urlsafe_b64encode bs)) + 3
  pub filled : (bs : Bytes) → bs ≢ [] → 4 ≤ length (b64.urlsafe_b64encode bs)

abbrev Stripped : Text → Text → Type 0
Stripped t rest = (length rest ≤ length t) × (rest ++ pads (length t - length rest) ≡ t)

strip_cons-Stripped :
    (c : ℕ) (cs rest : Text) → Stripped cs rest → Stripped (c ∷ cs) (strip_cons c rest)
unfolding strip_cons pads
strip_cons-Stripped c cs [] h = elim (Bool-cases (c == pad)) [
  | inl p ↦
      let all : suc (length cs) - 0 ≡ suc (length cs) = omega arith in
      let rest : length cs - 0 ≡ length cs = omega arith in
      let is_pad : pad ≡ c = ground arith in
      rw p (
        omega arith,
        ap pads all ∙ ap (◌∷◌ pad) (sym (ap pads rest) ∙ h.1) ∙ ap (λ (d : ℕ). d ∷ cs) is_pad,
      )
  | inr p ↦ rw p (omega arith, ap (◌∷◌ c) (ap pads (omega arith) ∙ h.1))
]
strip_cons-Stripped c cs (d ∷ rest) h =
    (omega arith, ap (◌∷◌ c) (ap (λ (n : ℕ). d ∷ (rest ++ pads n)) (omega arith) ∙ h.1))

-- Stripping takes pads off the end only.
rstrip_pad-Stripped : (t : Text) → Stripped t (rstrip_pad t)
unfolding rstrip_pad
rstrip_pad-Stripped [] = (omega arith, unfold pads in refl)
rstrip_pad-Stripped (c ∷ cs) = strip_cons-Stripped c cs (rstrip_pad cs) (rstrip_pad-Stripped cs)

-- The padding is computed from the length of the stripped text.
pad_back :
    (t : Text)
    → length t % 4 ≡ 0
    → length t ≤ length (rstrip_pad t) + 3
    → rstrip_pad t ++ pads ((4 - length (rstrip_pad t) % 4) % 4) ≡ t
pad_back t a f =
    let s = rstrip_pad-Stripped t in
    ap (λ (n : ℕ). rstrip_pad t ++ pads n) (omega (arith, s.0)) ∙ s.1

not_blank-ne : (bs : Bytes) → is_blank bs ≡ false → bs ≢ []
unfolding is_blank
not_blank-ne [] h = cc
not_blank-ne (b ∷ bs) h = λ e. cc

module _ (py : Python) (b64 : Base64) where
  decode_token :
      (token : Text) (raw : Bytes) (fs : Fields)
      → 1 ≤ length token
      → b64.urlsafe_b64decode (token ++ pads ((4 - length token % 4) % 4)) ≡ some raw
      → py.loads raw ≡ some (obj fs)
      → decode_cursor py b64 token ≡ some fs
  unfolding decode_cursor
  decode_token [] raw fs l d p = absurd (omega arith)
  decode_token (c ∷ cs) raw fs l d p = rw (d, p, decode_cursor)

  -- With JSON and base64 round trips, decoding an encoded payload gives the payload: what
  -- stripping takes off, the padding puts back.
  pub decode_cursor-encode_cursor :
      (payload : Fields)
      → IsJsonLines py
      → IsBase64 b64
      → decode_cursor py b64 (encode_cursor py b64 payload) ≡ some payload
  unfolding encode_cursor
  decode_cursor-encode_cursor payload j b =
      let raw = py.dumps (obj payload) in
      let t = b64.urlsafe_b64encode raw in
      decode_token (rstrip_pad t) raw payload
        (omega (arith, b.filled raw (not_blank-ne raw (j.not_blank (obj payload))), b.few_pads raw))
        (ap b64.urlsafe_b64decode (pad_back t (b.aligned raw) (b.few_pads raw))
          ∙ b.decode-encode raw)
        (j.loads-dumps (obj payload))
