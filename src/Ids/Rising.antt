-- ===== src/Ids/Rising.antt =====
-- The identifiers of src/ws_collab/ids.py in the order of texts.
use ws_collab.Prelude.{
  ℕ, zero, suc, ◌/◌, ◌%◌, ◌<◌, ◌≡◌, refl, subst, ◌⊎◌, inl, inr, [], ◌∷◌, ◌++◌, arith, ltb, ltb→lt,
  length, nat_eq, Text,
}
use ws_collab.Ids.Ulid.{
  Clock, rand_limit, next_clock, encode_crockford, char_at, crockford, new_event_id,
}
use ws_collab.Ids.Order.{scale, all_below, all_below_lem, length-encode_crockford}

-- One text stands before another in the order of texts.
abbrev pub IsBefore : Text → Text → Type 0
IsBefore [] [] = ⊥
IsBefore [] (d ∷ ds) = Unit
IsBefore (c ∷ cs) [] = ⊥
IsBefore (c ∷ cs) (d ∷ ds) = (c < d) ⊎ ((c ≡ d) × IsBefore cs ds)

IsBefore-front :
    (xs ys us vs : Text) → length xs ≡ length ys → IsBefore xs ys → IsBefore (xs ++ us) (ys ++ vs)
IsBefore-front [] [] us vs l h = absurd h
IsBefore-front [] (y ∷ ys) us vs l h = absurd (omega (arith, l))
IsBefore-front (x ∷ xs) [] us vs l h = absurd h
IsBefore-front (x ∷ xs) (y ∷ ys) us vs l (inl p) = inl p
IsBefore-front (x ∷ xs) (y ∷ ys) us vs l (inr (p, q)) =
    inr (p, IsBefore-front xs ys us vs (omega (arith, l)) q)

IsBefore-back : (xs us vs : Text) → IsBefore us vs → IsBefore (xs ++ us) (xs ++ vs)
IsBefore-back [] us vs h = h
IsBefore-back (x ∷ xs) us vs h = inr (refl, IsBefore-back xs us vs h)

-- The alphabet is in the order of its characters.
char_at-rises : (a b : ℕ) → a < b → b < 32 → char_at crockford a < char_at crockford b
char_at-rises a b l m = ltb→lt _ _ (
    all_below_lem b (λ i. ltb (char_at crockford i) (char_at crockford b)) a
      (all_below_lem 32 (λ j. all_below j (λ i. ltb (char_at crockford i) (char_at crockford j))) b
        (unfold all_below char_at in refl) m)
      l)

encode_crockford-rises :
    (n a b : ℕ) → a < b → b < scale n → IsBefore (encode_crockford a n) (encode_crockford b n)
unfolding encode_crockford
encode_crockford-rises zero a b l m = absurd (omega (arith, l, m))
encode_crockford-rises (suc n) a b l m = elim (front_or_last (a / 32) (b / 32)) [
  | inl p ↦
      IsBefore-front (encode_crockford (a / 32) n) (encode_crockford (b / 32) n) _ _ same
        (encode_crockford-rises n (a / 32) (b / 32) p (omega (arith, m)))
  | inr p ↦ elim p [
    | inl q ↦
        subst
          (λ x.
            IsBefore (encode_crockford (a / 32) n ++ char_at crockford (a % 32) ∷ [])
              (encode_crockford x n ++ char_at crockford (b % 32) ∷ []))
          q
          (IsBefore-back (encode_crockford (a / 32) n) _ _
            (inl (char_at-rises (a % 32) (b % 32) (omega (arith, l, q)) (omega arith))))
    | inr q ↦ absurd (omega (arith, l, q))
  ]
]
  where
    front_or_last : (x y : ℕ) → (x < y) ⊎ ((x ≡ y) ⊎ (y < x))
    front_or_last x y = ground arith

    same : length (encode_crockford (a / 32) n) ≡ length (encode_crockford (b / 32) n)
    same = omega (arith, length-encode_crockford n (a / 32), length-encode_crockford n (b / 32))

-- The clock of an identifier and that of the next one.
next_clock-later :
    (now random : ℕ) (c : Clock)
    → c.last_rand < rand_limit
    → let d = next_clock now random c in
      (c.last_ms < d.last_ms) ⊎ ((c.last_ms ≡ d.last_ms) × (c.last_rand < d.last_rand))
unfolding next_clock
next_clock-later now random c h = ground arith

next_clock-rand :
    (now random : ℕ) (c : Clock)
    → random < rand_limit
    → (next_clock now random c).last_rand < rand_limit
unfolding next_clock
next_clock-rand now random c h = ground arith

-- When the random parts are below their limit and the time is below 32 ^ 10, each identifier stands
-- after the one before it in the order of texts, even when the clock stands still or goes back or the
-- random part overflows.
pub new_event_id-rises :
    (now1 now2 random1 random2 : ℕ) (c : Clock)
    → random1 < rand_limit
    → random2 < rand_limit
    → let first = new_event_id now1 random1 c in
      let second = new_event_id now2 random2 first.1 in
      second.1.last_ms < scale 10 → IsBefore first.0 second.0
unfolding new_event_id
new_event_id-rises now1 now2 random1 random2 c h k b =
    let first = next_clock now1 random1 c in
    let second = next_clock now2 random2 first in
    let low : second.last_rand < scale 16 = next_clock-rand now2 random2 first k in
    elim (next_clock-later now2 random2 first (next_clock-rand now1 random1 c h)) [
      | inl p ↦
          IsBefore-front (encode_crockford first.last_ms 10) (encode_crockford second.last_ms 10) _
            _
            (omega (
              arith,
              length-encode_crockford 10 first.last_ms,
              length-encode_crockford 10 second.last_ms,
            ))
            (encode_crockford-rises 10 first.last_ms second.last_ms p b)
      | inr (p, q) ↦
          subst
            (λ x.
              IsBefore (encode_crockford first.last_ms 10 ++ encode_crockford first.last_rand 16)
                (encode_crockford x 10 ++ encode_crockford second.last_rand 16))
            p
            (IsBefore-back (encode_crockford first.last_ms 10) _ _
              (encode_crockford-rises 16 first.last_rand second.last_rand q low))
    ]
