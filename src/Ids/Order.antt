-- ===== src/Ids/Order.antt =====
-- Identifiers hold the time that they were minted at.
use ws_collab.Prelude.{
  ℕ, zero, suc, ◌+◌, ◌*◌, ◌/◌, ◌%◌, ◌<◌, ◌≡◌, refl, ap, ◌∙◌, inl, inr, Bool, true, false, ◌&&◌,
  Option, none, some, List, [], ◌∷◌, ◌++◌, arith, Bool-cases, length, take, length-append, ◌==◌,
  nat_eq, Text,
}
use ws_collab.Ids.Ulid.{
  Clock, next_clock, encode_crockford, char_at, index_of, upper, read_digits, crockford,
  new_event_id, event_id_timestamp_ms,
}

unfoldable pub all_below : ℕ → (ℕ → Bool) → Bool
all_below zero p = true
all_below (suc n) p = p n && all_below n p

pub all_below_lem : (n : ℕ) (p : ℕ → Bool) (d : ℕ) → all_below n p ≡ true → d < n → p d ≡ true
unfolding all_below
all_below_lem zero p d h l = absurd (omega arith)
all_below_lem (suc n) p d h l = elim (Bool-cases (d == n)) [
  | inl e ↦ ap p (ground arith) ∙ first (p n) (all_below n p) h
  | inr e ↦ all_below_lem n p d (second (p n) (all_below n p) h) (ground arith)
]
  where
    first : (a b : Bool) → (a && b) ≡ true → a ≡ true
    first true b h = refl
    first false b h = h

    second : (a b : Bool) → (a && b) ≡ true → b ≡ true
    second true b h = h
    second false b h = cc

is_some_of : ℕ → Option ℕ → Bool
is_some_of d none = false
is_some_of d (some e) = e == d

is_some_of_lem : (d : ℕ) (o : Option ℕ) → is_some_of d o ≡ true → o ≡ some d
unfolding is_some_of
is_some_of_lem d none h = cc
is_some_of_lem d (some e) h = ap some (ground arith)

index_of-char_at : (d : ℕ) → d < 32 → index_of 0 crockford (upper (char_at crockford d)) ≡ some d
index_of-char_at d l = is_some_of_lem d _ (
    all_below_lem 32 (λ i. is_some_of i (index_of 0 crockford (upper (char_at crockford i)))) d
      (unfold all_below is_some_of index_of char_at in refl) l)

-- 32 ^ n
abbrev pub scale : ℕ → ℕ
scale zero = 1
scale (suc n) = 32 * scale n

read_digits-append :
    (v : ℕ) (cs ds : Text) (w : ℕ)
    → read_digits v cs ≡ some w
    → read_digits v (cs ++ ds) ≡ read_digits w ds
unfolding read_digits
read_digits-append v [] ds w h = ap (λ o. elim o [ none ↦ none | some z ↦ read_digits z ds ]) h
read_digits-append v (c ∷ cs) ds w h =
    step (λ d e. read_digits-append (v * 32 + d) cs ds w e) (index_of 0 crockford (upper c)) h
  where
    step :
        ((d : ℕ)
          → read_digits (v * 32 + d) cs ≡ some w
          → read_digits (v * 32 + d) (cs ++ ds) ≡ read_digits w ds)
        → (o : Option ℕ) → (elim o [ none ↦ none | some d ↦ read_digits (v * 32 + d) cs ]) ≡ some w
        → (elim o [ none ↦ none | some d ↦ read_digits (v * 32 + d) (cs ++ ds) ]) ≡ read_digits w ds
    step ih none e = cc
    step ih (some d) e = ih d e

read_digit : (v d : ℕ) → d < 32 → read_digits v (char_at crockford d ∷ []) ≡ some (v * 32 + d)
unfolding read_digits
read_digit v d l =
    ap (λ o. elim o [ none ↦ none | some e ↦ some (v * 32 + e) ]) (index_of-char_at d l)

read_digits-encode_crockford :
    (n value v : ℕ)
    → value < scale n
    → read_digits v (encode_crockford value n) ≡ some (v * scale n + value)
unfolding encode_crockford
read_digits-encode_crockford zero value v h = unfold read_digits in ap some (omega arith)
read_digits-encode_crockford (suc n) value v h =
    read_digits-append v (encode_crockford (value / 32) n) _ (v * scale n + value / 32)
      (read_digits-encode_crockford n (value / 32) v (omega arith))
    ∙ read_digit (v * scale n + value / 32) (value % 32) (omega arith)
    ∙ ap some (recombine (scale n))
  where
    recombine : (k : ℕ) → (v * k + value / 32) * 32 + value % 32 ≡ v * (32 * k) + value
    recombine k = grind arith

pub length-encode_crockford : (n value : ℕ) → length (encode_crockford value n) ≡ n
unfolding encode_crockford
length-encode_crockford zero value = refl
length-encode_crockford (suc n) value = omega (
  arith,
  length-append (encode_crockford (value / 32) n) (char_at crockford (value % 32) ∷ []),
  length-encode_crockford n (value / 32),
)

take-append {ℓ} : {A : Type ℓ} → (n : ℕ) (xs ys : List A) → length xs ≡ n → take n (xs ++ ys) ≡ xs
take-append zero [] ys h = refl
take-append zero (x ∷ xs) ys h = absurd (omega arith)
take-append (suc n) [] ys h = absurd (omega arith)
take-append (suc n) (x ∷ xs) ys h = ap (◌∷◌ x) (take-append n xs ys (omega arith))

-- The time of an identifier is read back from it, as long as it is below 32 ^ 10.
pub event_id_timestamp_ms-new_event_id :
    (now random : ℕ) (c : Clock)
    → (new_event_id now random c).1.last_ms < scale 10
    → event_id_timestamp_ms (new_event_id now random c).0
      ≡ some (new_event_id now random c).1.last_ms
unfolding new_event_id event_id_timestamp_ms
event_id_timestamp_ms-new_event_id now random c h =
    let d = next_clock now random c in
    ap (read_digits 0) (
      take-append 10 (encode_crockford d.last_ms 10) (encode_crockford d.last_rand 16)
        (length-encode_crockford 10 d.last_ms))
    ∙ read_digits-encode_crockford 10 d.last_ms 0 h
    ∙ ap some (omega arith)
