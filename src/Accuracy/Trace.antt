-- ===== src/Accuracy/Trace.antt =====
-- One turn of the backtrace goes back along a least alignment.
use ws_collab.Prelude.{
  ℕ, zero, suc, ◌+◌, ◌-◌, ◌≤◌, ◌<◌, ◌≡◌, refl, sym, ap, ◌∙◌, inl, inr, false, ◌&&◌, List, [], ◌∷◌,
  ◌++◌, append-nil, arith, ltb, Bool-cases, length, take, ◌==◌, nat_eq, Text, text_eq,
}
use mathlib.Core.List.{reverse_aux, reverse_aux-append}
use ws_collab.Accuracy.{nth, Turn, word_before, equal, sub, del, ins, dp_table, cell, turn}
use ws_collab.Accuracy.Distance.{dist_nil, dist, ref_words, hyp_words, price, IsTrue, dist_equal}
use ws_collab.Accuracy.Table.{cell-dist, prefix}

take-suc :
    (xs : List Text) (i : ℕ) → i < length xs → take (suc i) xs ≡ take i xs ++ nth [] xs i ∷ []
unfolding nth
take-suc [] i h = absurd (omega arith)
take-suc (x ∷ xs) zero h = refl
take-suc (x ∷ xs) (suc i) h = ap (λ t. x ∷ t) (take-suc xs i (omega arith))

-- The last word of a first part that is not empty.
take_last :
    (xs : List Text) (i : ℕ)
    → 0 < i
    → i ≤ length xs
    → take i xs ≡ take (i - 1) xs ++ nth [] xs (i - 1) ∷ []
take_last xs zero h k = absurd (omega arith)
take_last xs (suc i) h k = let e : suc i - 1 ≡ i = omega arith in rw e (take-suc xs i k)

prefix_last :
    (xs : List Text) (i : ℕ)
    → 0 < i
    → i ≤ length xs
    → prefix xs i ≡ nth [] xs (i - 1) ∷ prefix xs (i - 1)
prefix_last xs i h k =
    ap (λ t. reverse_aux t []) (take_last xs i h k)
    ∙ reverse_aux-append (take (i - 1) xs) (nth [] xs (i - 1) ∷ []) []

module _ (ref hyp : List Text) where
  -- The distance of two first parts.
  abbrev pub between : ℕ → ℕ → ℕ
  between i j = dist (prefix ref i) (prefix hyp j)

  -- A turn goes back, keeps within both sides, and accounts for what it takes off them.
  pub record IsTurned (i j : ℕ) (t : Turn) : Type 0 where
    pub back : t.i + t.j < i + j
    pub ref_within : t.i ≤ length ref
    pub hyp_within : t.j ≤ length hyp
    pub ref_taken : take i ref ≡ take t.i ref ++ ref_words (t.op ∷ [])
    pub hyp_taken : take j hyp ≡ take t.j hyp ++ hyp_words (t.op ∷ [])
    pub is_true : IsTrue t.op
    pub priced : between i j ≡ between t.i t.j + price t.op

  paired :
      (i j : ℕ)
      → i ≤ length ref
      → j ≤ length hyp
      → 0 < i
      → 0 < j
      → word_before ref i ≡ word_before hyp j
      → IsTurned i j
          (record { op = equal (word_before ref i) (word_before hyp j); i = i - 1; j = j - 1 })
  unfolding ref_words hyp_words
  paired i j h k a b same = record {
    back = omega arith;
    ref_within = omega arith;
    hyp_within = omega arith;
    ref_taken = take_last ref i a h;
    hyp_taken = take_last hyp j b k;
    is_true = same;
    priced =
        rw (prefix_last ref i a h, prefix_last hyp j b k)
          (omega (arith, dist_equal _ _ (prefix ref (i - 1)) (prefix hyp (j - 1)) same));
  }

  replaced :
      (i j : ℕ)
      → i ≤ length ref
      → j ≤ length hyp
      → 0 < i
      → 0 < j
      → between i j ≡ between (i - 1) (j - 1) + 1
      → IsTurned i j
          (record { op = sub (word_before ref i) (word_before hyp j); i = i - 1; j = j - 1 })
  unfolding ref_words hyp_words
  replaced i j h k a b more = record {
    back = omega arith;
    ref_within = omega arith;
    hyp_within = omega arith;
    ref_taken = take_last ref i a h;
    hyp_taken = take_last hyp j b k;
    is_true = tt;
    priced = more;
  }

  dropped :
      (i j : ℕ)
      → i ≤ length ref
      → j ≤ length hyp
      → 0 < i
      → between i j ≡ between (i - 1) j + 1
      → IsTurned i j (record { op = del (word_before ref i); i = i - 1; j = j })
  unfolding ref_words hyp_words
  dropped i j h k a more = record {
    back = omega arith;
    ref_within = omega arith;
    hyp_within = k;
    ref_taken = take_last ref i a h;
    hyp_taken = sym (append-nil (take j hyp));
    is_true = tt;
    priced = more;
  }

  added :
      (i j : ℕ)
      → i ≤ length ref
      → j ≤ length hyp
      → 0 < j
      → between i j ≡ between i (j - 1) + 1
      → IsTurned i j (record { op = ins (word_before hyp j); i = i; j = j - 1 })
  unfolding ref_words hyp_words
  added i j h k b more = record {
    back = omega arith;
    ref_within = h;
    hyp_within = omega arith;
    ref_taken = sym (append-nil (take i ref));
    hyp_taken = take_last hyp j b k;
    is_true = tt;
    priced = more;
  }

-- Where neither a pair nor a change nor a word left out leads to a distance, a word put in does.
only_added :
    (x y : Text) (xs ys : List Text)
    → (x == y) ≡ false
    → (dist (x ∷ xs) (y ∷ ys) == dist xs ys + 1) ≡ false
    → (dist (x ∷ xs) (y ∷ ys) == dist xs (y ∷ ys) + 1) ≡ false
    → dist (x ∷ xs) (y ∷ ys) ≡ dist (x ∷ xs) ys + 1
unfolding dist
only_added x y xs ys p q r = ground (arith, p, q, r)

only_added_to :
    (l m : List Text) (x y : Text) (xs ys : List Text)
    → l ≡ x ∷ xs
    → m ≡ y ∷ ys
    → (x == y) ≡ false
    → (dist l m == dist xs ys + 1) ≡ false
    → (dist l m == dist xs m + 1) ≡ false
    → dist l m ≡ dist l ys + 1
only_added_to l m x y xs ys d e p q r =
    rw (d, e) (only_added x y xs ys p (rw⁻¹ (d, e) q) (rw⁻¹ (d, e) r))

module _ (ref hyp : List Text) where
  -- The turn that is left when the other three are not taken.
  last_turn :
      (i j : ℕ)
      → i ≤ length ref
      → j ≤ length hyp
      → 0 < i + j
      → (0 < i → 0 < j → (word_before ref i == word_before hyp j) ≡ false)
      → (0 < i → 0 < j → (between ref hyp i j == between ref hyp (i - 1) (j - 1) + 1) ≡ false)
      → (0 < i → (between ref hyp i j == between ref hyp (i - 1) j + 1) ≡ false)
      → IsTurned ref hyp i j (record { op = ins (word_before hyp j); i = i; j = j - 1 })
  unfolding dist
  last_turn zero j h k n p q r =
      let b : 0 < j = omega arith in
      added ref hyp 0 j h k b (rw (prefix_last hyp j b k) (omega arith))
  last_turn (suc i) zero h k n p q r = absurd (
      ground (
        arith,
        r (omega arith),
        prefix_last ref (suc i) (omega arith) h,
        dist_nil (prefix ref (suc i)),
        dist_nil (prefix ref (suc i - 1)),
      ))
  last_turn (suc i) (suc j) h k n p q r =
      let a : 0 < suc i = omega arith in
      let b : 0 < suc j = omega arith in
      let ex = prefix_last ref (suc i) a h in
      let ey = prefix_last hyp (suc j) b k in
      added ref hyp (suc i) (suc j) h k b (only_added_to _ _ _ _ _ _ ex ey (p a b) (q a b) (r a))

  pub turn-IsTurned :
      (i j : ℕ)
      → i ≤ length ref
      → j ≤ length hyp
      → 0 < i + j
      → IsTurned ref hyp i j (turn ref hyp (dp_table ref hyp) i j)
  unfolding turn
  turn-IsTurned i j h k n =
      let dp = dp_table ref hyp in
      let here = cell-dist ref hyp i j h k in
      let diagonal = cell-dist ref hyp (i - 1) (j - 1) (omega arith) (omega arith) in
      let above = cell-dist ref hyp (i - 1) j (omega arith) k in
      let words = word_before ref i == word_before hyp j in
      elim (Bool-cases (ltb 0 i && ltb 0 j && words)) [
        | inl p ↦
            rw (turn, p)
              (paired ref hyp i j h k (ground (arith, p)) (ground (arith, p))
                ((text_eq.same_iff (word_before ref i) (word_before hyp j)).0 (ground (arith, p))))
        | inr p ↦
            elim (Bool-cases (ltb 0 i && ltb 0 j && (cell dp i j == cell dp (i - 1) (j - 1) + 1))) [
              | inl q ↦
                  rw (turn, p, q)
                    (replaced ref hyp i j h k (ground (arith, q)) (ground (arith, q))
                      (ground (arith, q, here, diagonal)))
              | inr q ↦ elim (Bool-cases (ltb 0 i && (cell dp i j == cell dp (i - 1) j + 1))) [
                | inl r ↦
                    rw (turn, p, q, r)
                      (dropped ref hyp i j h k (ground (arith, r)) (ground (arith, r, here, above)))
                | inr r ↦
                    rw (turn, p, q, r)
                      (last_turn i j h k n (λ a b. ground (arith, p, a, b))
                        (λ a b. ground (arith, q, a, b, here, diagonal))
                        (λ a. ground (arith, r, a, here, above)))
              ]
            ]
      ]
