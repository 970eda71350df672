-- ===== src/Dict.antt =====
-- Python's `dict`: an association list in insertion order. An assignment to a key that is there
-- keeps its place, a new key goes to the end.
pub mod Keys
use ws_collab.Prelude.{
  ◌≡◌, refl, Option, none, some, List, [], ◌∷◌, map, arith, if◌then◌else◌, Eq, ◌==◌,
}

abbrev pub Dict {ℓ κ} : Type ℓ → Type κ → Type (ℓ ⊔ κ)
Dict K V = List (K × V)

module _ {ℓ κ} {K : Type ℓ} {V : Type κ} ⦃e : Eq K⦄ where
  -- d.get(k)
  unfoldable pub get : Dict K V → K → Option V
  get [] k = none
  get ((j, v) ∷ d) k = if j == k then some v else get d k

  -- d[k] = v
  unfoldable pub put : Dict K V → K → V → Dict K V
  put [] k v = (k, v) ∷ []
  put ((j, w) ∷ d) k v = if j == k then (j, v) ∷ d else (j, w) ∷ put d k v

  -- d.pop(k, None)
  unfoldable pub pop : Dict K V → K → Dict K V
  pop [] k = []
  pop ((j, w) ∷ d) k = let rest = pop d k in if j == k then rest else (j, w) ∷ rest

  pub get-put :
      (d : Dict K V) (k : K) (v : V) (j : K)
      → get (put d k v) j ≡ (if k == j then some v else get d j)
  unfolding get put
  get-put [] k v j = refl
  get-put ((i, w) ∷ d) k v j =
      ground (arith, e.same_iff i k, e.same_iff i j, e.same_iff k j, get-put d k v j)

  pub get-pop : (d : Dict K V) (k j : K) → get (pop d k) j ≡ (if k == j then none else get d j)
  unfolding get pop
  get-pop [] k j = ground arith
  get-pop ((i, w) ∷ d) k j =
      ground (arith, e.same_iff i k, e.same_iff i j, e.same_iff k j, get-pop d k j)

-- d.values()
abbrev pub values {ℓ κ} : {K : Type ℓ} {V : Type κ} → Dict K V → List V
values = map (λ e. e.1)

abbrev pub keys {ℓ κ} : {K : Type ℓ} {V : Type κ} → Dict K V → List K
keys = map (λ e. e.0)
