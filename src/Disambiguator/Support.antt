-- ===== src/Disambiguator/Support.antt =====
-- The majority vote of src/ws_collab/disambiguator.py: the counter of the texts against the plain count of
-- each text in the list.
use ws_collab.Prelude.{
  ℕ, suc, ◌+◌, ◌≤◌, ◌≡◌, refl, sym, ap, subst, ◌∙◌, ◌⊎◌, inl, inr, true, false, Option, none, some,
  List, [], ◌∷◌, arith, ltb, if◌then◌else◌, ltb→lt, Bool-cases, All, ◌==◌, nat_eq, Text, text_eq,
}
use ws_collab.Dict
use ws_collab.Dict.Keys
use ws_collab.Dict.Keys.{Distinct}
use ws_collab.Dict.{Dict}
use ws_collab.Disambiguator.{count_or_zero, count_from, most_common, most_common_of, counter}

-- How often a text stands in a list.
unfoldable pub occurs : Text → List Text → ℕ
occurs t [] = 0
occurs t (x ∷ xs) = (if x == t then 1 else 0) + occurs t xs

count-occurs :
    (t : Text) (acc : Dict Text ℕ) (xs : List Text)
    → count_or_zero (Dict.get (count_from acc xs) t) ≡ count_or_zero (Dict.get acc t) + occurs t xs
unfolding count_from occurs
count-occurs t acc [] = omega arith
count-occurs t acc (x ∷ xs) =
    let n : ℕ = suc (count_or_zero (Dict.get acc x)) in
    let rest = count-occurs t (Dict.put acc x n) xs in
    elim (Bool-cases (x == t)) [
      | inl p ↦
          let same = (text_eq.same_iff x t).0 p in
          let here : count_or_zero (Dict.get (Dict.put acc x n) t) ≡ n =
            rw (Dict.get-put acc x n t, p) refl in
          let old : n ≡ suc (count_or_zero (Dict.get acc t)) =
            ap (λ z. suc (count_or_zero (Dict.get acc z))) same in
          rw p (omega (arith, rest, here, old))
      | inr p ↦
          let here : count_or_zero (Dict.get (Dict.put acc x n) t)
              ≡ count_or_zero (Dict.get acc t) =
            rw (Dict.get-put acc x n t, p) refl in
          rw p (omega (arith, rest, here))
    ]

Distinct-count_from :
    (acc : Dict Text ℕ) (xs : List Text) → Distinct acc → Distinct (count_from acc xs)
unfolding count_from
Distinct-count_from acc [] h = h
Distinct-count_from acc (x ∷ xs) h =
    let n : ℕ = suc (count_or_zero (Dict.get acc x)) in
    Distinct-count_from (Dict.put acc x n) xs (Keys.Distinct-put acc x n h)

get-absent :
    (d : Dict Text ℕ) (k : Text)
    → All (λ (x : Text × ℕ). (x.0 == k) ≡ false) d
    → Dict.get d k ≡ none
unfolding Dict.get
get-absent [] k h = refl
get-absent ((j, n) ∷ d) k h = rw h.0 (get-absent d k h.1)

some-none : (v : ℕ) → ¬ (none ≡ some v)
some-none v p = subst (λ (o : Option ℕ). elim o [ none ↦ Unit | some x ↦ ⊥ ]) p tt

-- An entry further on is found past a first one of another key.
get-later :
    (d : Dict Text ℕ) (j : Text) (n : ℕ) (k : Text) (v : ℕ)
    → All (λ (x : Text × ℕ). (x.0 == j) ≡ false) d
    → Dict.get d k ≡ some v
    → Dict.get ((j, n) ∷ d) k ≡ some v
unfolding Dict.get
get-later d j n k v h found = elim (Bool-cases (j == k)) [
  | inl p ↦
      let gone = get-absent d j h in
      absurd (some-none v (sym gone ∙ ap (Dict.get d) ((text_eq.same_iff j k).0 p) ∙ found))
  | inr p ↦ rw p found
]

-- The most common entry is the first candidate or a stored count.
Stored : Text × ℕ → Dict Text ℕ → Text × ℕ → Type 0
Stored best d m = (m ≡ best) ⊎ (Dict.get d m.0 ≡ some m.1)

next_best : (best e : Text × ℕ) → Text × ℕ
next_best best e = if ltb best.1 e.1 then e else best

most_common-later :
    (best e : Text × ℕ) (d : Dict Text ℕ) (b : Text × ℕ)
    → next_best best e ≡ b
    → most_common b d ≡ most_common best (e ∷ d)
unfolding most_common next_best
most_common-later best e d b p = ap (λ z. most_common z d) (sym p)

next_best-taken : (best e : Text × ℕ) → ltb best.1 e.1 ≡ true → next_best best e ≡ e
unfolding next_best
next_best-taken best e p = rw p refl

next_best-kept : (best e : Text × ℕ) → ltb best.1 e.1 ≡ false → next_best best e ≡ best
unfolding next_best
next_best-kept best e p = rw p refl

get-first : (j : Text) (n : ℕ) (d : Dict Text ℕ) → Dict.get ((j, n) ∷ d) j ≡ some n
unfolding Dict.get
get-first j n d = rw ((text_eq.same_iff j j).1 refl) refl

most_common-Stored :
    (best : Text × ℕ) (d : Dict Text ℕ) → Distinct d → Stored best d (most_common best d)
unfolding Stored
most_common-Stored best [] h = unfold most_common in inl refl
most_common-Stored best ((j, n) ∷ d) h = elim (Bool-cases (ltb best.1 n)) [
  | inl p ↦
      subst (Stored best ((j, n) ∷ d))
        (most_common-later best (j, n) d (j, n) (next_best-taken best (j, n) p))
        (elim (most_common-Stored (j, n) d h.1) [
          | inl q ↦
              inr (subst (λ m. Dict.get ((j, n) ∷ d) m.0 ≡ some m.1) (sym q) (get-first j n d))
          | inr q ↦ inr (get-later d j n (most_common (j, n) d).0 (most_common (j, n) d).1 h.0 q)
        ])
  | inr p ↦
      subst (Stored best ((j, n) ∷ d))
        (most_common-later best (j, n) d best (next_best-kept best (j, n) p))
        (elim (most_common-Stored best d h.1) [
          | inl q ↦ inl q
          | inr q ↦ inr (get-later d j n (most_common best d).0 (most_common best d).1 h.0 q)
        ])
]

-- None counts more.
Most : Text × ℕ → Dict Text ℕ → Text × ℕ → Type 0
Most best d m = (best.1 ≤ m.1) × ((t : Text) → count_or_zero (Dict.get d t) ≤ m.1)

Most-cons :
    (best : Text × ℕ) (j : Text) (n : ℕ) (d : Dict Text ℕ) (m : Text × ℕ)
    → best.1 ≤ m.1
    → n ≤ m.1
    → ((t : Text) → count_or_zero (Dict.get d t) ≤ m.1)
    → Most best ((j, n) ∷ d) m
unfolding Most Dict.get
Most-cons best j n d m a b c =
    (a, (λ t. elim (Bool-cases (j == t)) [ inl q ↦ rw q b | inr q ↦ rw q (c t) ]))

most_common-Most : (best : Text × ℕ) (d : Dict Text ℕ) → Most best d (most_common best d)
unfolding Most
most_common-Most best [] = unfold most_common Dict.get in (omega arith, λ t. omega arith)
most_common-Most best ((j, n) ∷ d) = elim (Bool-cases (ltb best.1 n)) [
  | inl p ↦
      let m = most_common-Most (j, n) d in
      subst (Most best ((j, n) ∷ d))
        (most_common-later best (j, n) d (j, n) (next_best-taken best (j, n) p))
        (Most-cons best j n d (most_common (j, n) d) (omega (arith, m.0, ltb→lt best.1 n p)) m.0
          m.1)
  | inr p ↦
      let m = most_common-Most best d in
      let less : n ≤ best.1 = ground arith in
      subst (Most best ((j, n) ∷ d))
        (most_common-later best (j, n) d best (next_best-kept best (j, n) p))
        (Most-cons best j n d (most_common best d) m.0 (omega (arith, m.0, less)) m.1)
]

-- The vote of a list names a text and how often it stands there, and no text stands there more often.
pub most_common_of-most :
    (xs : List Text)
    → ((most_common_of xs).1 ≡ occurs (most_common_of xs).0 xs)
      × ((t : Text) → occurs t xs ≤ (most_common_of xs).1)
unfolding Stored Most Dict.get
most_common_of-most xs = (named, bound)
  where
    counted : (t : Text) → count_or_zero (Dict.get (counter xs) t) ≡ occurs t xs
    counted t = omega (arith, count-occurs t [] xs)

    bound : (t : Text) → occurs t xs ≤ (most_common_of xs).1
    bound t = omega (arith, (most_common-Most ([], 0) (counter xs)).1 t, counted t)

    named : (most_common_of xs).1 ≡ occurs (most_common_of xs).0 xs
    named = elim (most_common-Stored ([], 0) (counter xs) (Distinct-count_from [] xs tt)) [
      | inl q ↦
          let zero_count = ap (λ m. m.1) q in omega (arith, zero_count, bound (most_common_of xs).0)
      | inr q ↦ ap count_or_zero (sym q) ∙ counted (most_common_of xs).0
    ]
