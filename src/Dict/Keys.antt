-- ===== src/Dict/Keys.antt =====
-- Dicts whose keys stand once each: what assignments and removals keep.
use ws_collab.Prelude.{
  ◌≡◌, refl, sym, ap, subst, inl, inr, false, Option, none, some, List, [], ◌∷◌, ◌++◌, arith,
  Bool-cases, All, Eq, ◌==◌,
}
use ws_collab.Dict
use ws_collab.Dict.{Dict, put, pop, get}

All-middle {ℓ κ} :
    {A : Type ℓ} (P : A → Type κ) (xs ys : List A) (y : A) → All P (xs ++ y ∷ ys) → P y
All-middle P [] ys y h = h.0
All-middle P (x ∷ xs) ys y h = All-middle P xs ys y h.1

eq_swap {ℓ} : {K : Type ℓ} → ⦃e : Eq K⦄ → (i j : K) → (i == j) ≡ false → (j == i) ≡ false
eq_swap ⦃e⦄ i j h = ground (arith, e.same_iff i j, e.same_iff j i)

module _ {ℓ κ} {K : Type ℓ} {V : Type κ} ⦃e : Eq K⦄ where
  abbrev pub Distinct : Dict K V → Type ℓ
  Distinct [] = Unit
  Distinct ((k, v) ∷ d) = All (λ (x : K × V). (x.0 == k) ≡ false) d × Distinct d

  pub put_absent :
      (d : Dict K V) (k : K) (v : V)
      → All (λ (x : K × V). (x.0 == k) ≡ false) d
      → Dict.put d k v ≡ d ++ (k, v) ∷ []
  unfolding Dict.put
  put_absent [] k v h = refl
  put_absent ((j, w) ∷ d) k v h = rw h.0 (ap (◌∷◌ (j, w)) (put_absent d k v h.1))

  -- The keys before an entry are not its key.
  pub Distinct-before :
      (acc d : Dict K V) (k : K) (v : V)
      → Distinct (acc ++ (k, v) ∷ d)
      → All (λ (x : K × V). (x.0 == k) ≡ false) acc
  Distinct-before [] d k v h = tt
  Distinct-before ((j, w) ∷ acc) d k v h = (
    eq_swap k j (All-middle (λ (x : K × V). (x.0 == j) ≡ false) acc d (k, v) h.0),
    Distinct-before acc d k v h.1,
  )

  Apart-put :
      (d : Dict K V) (i k : K) (v : V)
      → (k == i) ≡ false
      → All (λ (x : K × V). (x.0 == i) ≡ false) d
      → All (λ (x : K × V). (x.0 == i) ≡ false) (Dict.put d k v)
  unfolding Dict.put
  Apart-put [] i k v n h = (n, tt)
  Apart-put ((j, w) ∷ d) i k v n h = elim (Bool-cases (j == k)) [
    | inl p ↦ rw p h
    | inr p ↦ rw p (h.0, Apart-put d i k v n h.1)
  ]

  Apart-pop :
      (d : Dict K V) (i k : K)
      → All (λ (x : K × V). (x.0 == i) ≡ false) d
      → All (λ (x : K × V). (x.0 == i) ≡ false) (Dict.pop d k)
  unfolding Dict.pop
  Apart-pop [] i k h = tt
  Apart-pop ((j, w) ∷ d) i k h = elim (Bool-cases (j == k)) [
    | inl p ↦ rw p (Apart-pop d i k h.1)
    | inr p ↦ rw p (h.0, Apart-pop d i k h.1)
  ]

  pub Distinct-put : (d : Dict K V) (k : K) (v : V) → Distinct d → Distinct (Dict.put d k v)
  unfolding Dict.put
  Distinct-put [] k v h = (tt, tt)
  Distinct-put ((j, w) ∷ d) k v h = elim (Bool-cases (j == k)) [
    | inl p ↦ rw p h
    | inr p ↦ rw p (Apart-put d j k v (eq_swap j k p) h.0, Distinct-put d k v h.1)
  ]

  pub Distinct-pop : (d : Dict K V) (k : K) → Distinct d → Distinct (Dict.pop d k)
  unfolding Dict.pop
  Distinct-pop [] k h = tt
  Distinct-pop ((j, w) ∷ d) k h = elim (Bool-cases (j == k)) [
    | inl p ↦ rw p (Distinct-pop d k h.1)
    | inr p ↦ rw p (Apart-pop d j k h.0, Distinct-pop d k h.1)
  ]

  -- A predicate of all entries survives an assignment of an entry that has it, under its key.
  pub All-put {ι} :
      (P : K × V → Type ι) (d : Dict K V) (k : K) (v : V)
      → P (k, v)
      → All P d
      → All P (Dict.put d k v)
  unfolding Dict.put
  All-put P [] k v p h = (p, tt)
  All-put P ((j, w) ∷ d) k v p h = elim (Bool-cases (j == k)) [
    | inl q ↦ rw q (subst (λ z. P (z, v)) (sym ((e.same_iff j k).0 q)) p, h.1)
    | inr q ↦ rw q (h.0, All-put P d k v p h.1)
  ]

  pub All-pop {ι} : (P : K × V → Type ι) (d : Dict K V) (k : K) → All P d → All P (Dict.pop d k)
  unfolding Dict.pop
  All-pop P [] k h = tt
  All-pop P ((j, w) ∷ d) k h = elim (Bool-cases (j == k)) [
    | inl q ↦ rw q (All-pop P d k h.1)
    | inr q ↦ rw q (h.0, All-pop P d k h.1)
  ]

  abbrev pub Held {ι} : (K × V → Type ι) → K → Option V → Type ι
  Held P k none = Unit
  Held P k (some v) = P (k, v)

  -- What all entries have, the entry of a key has.
  pub All-get {ι} : (P : K × V → Type ι) (d : Dict K V) (k : K) → All P d → Held P k (Dict.get d k)
  unfolding Dict.get
  All-get P [] k h = tt
  All-get P ((j, w) ∷ d) k h = elim (Bool-cases (j == k)) [
    | inl q ↦ rw q (subst (λ z. P (z, w)) ((e.same_iff j k).0 q) h.0)
    | inr q ↦ rw q (All-get P d k h.1)
  ]
