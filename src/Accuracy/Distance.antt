-- ===== src/Accuracy/Distance.antt =====
-- The edit distance, from the words at the end, and that no alignment costs less.
use ws_collab.Accuracy.{Op, equal, sub, del, ins}
use ws_collab.Prelude.{
  ℕ, suc, ◌+◌, ◌≤◌, min, ◌≡◌, refl, List, [], ◌∷◌, arith, if◌then◌else◌, length, All, ◌==◌, nat_eq,
  Text, text_eq,
}

-- The least number of changes between two lists of words.
unfoldable pub dist : List Text → List Text → ℕ
dist [] ys = length ys
dist (x ∷ xs) [] = length (x ∷ xs)
dist (x ∷ xs) (y ∷ ys) =
    if x == y
    then dist xs ys
    else suc (min (min (dist xs ys) (dist xs (y ∷ ys))) (dist (x ∷ xs) ys))

-- One word more on either side changes the distance by one at most.
abbrev NearLeft : List Text → List Text → Type 0
NearLeft xs ys =
    (x : Text) → (dist (x ∷ xs) ys ≤ suc (dist xs ys)) × (dist xs ys ≤ suc (dist (x ∷ xs) ys))

abbrev NearRight : List Text → List Text → Type 0
NearRight xs ys =
    (y : Text) → (dist xs (y ∷ ys) ≤ suc (dist xs ys)) × (dist xs ys ≤ suc (dist xs (y ∷ ys)))

pub dist_nil : (xs : List Text) → dist xs [] ≡ length xs
unfolding dist
dist_nil [] = refl
dist_nil (x ∷ xs) = refl

NearLeft-cons :
    (xs ys : List Text) (y : Text) → NearLeft xs ys → NearRight xs ys → NearLeft xs (y ∷ ys)
unfolding dist
NearLeft-cons xs ys y l r x = ground (arith, l x, r y)

NearRight-cons :
    (xs ys : List Text) (x : Text) → NearLeft xs ys → NearRight xs ys → NearRight (x ∷ xs) ys
unfolding dist
NearRight-cons xs ys x l r y = ground (arith, l x, r y)

pub near : (xs ys : List Text) → NearLeft xs ys × NearRight xs ys
unfolding dist
near [] [] = (λ x. (omega arith, omega arith), λ y. (omega arith, omega arith))
near [] (y ∷ ys) =
    (NearLeft-cons [] ys y (near [] ys).0 (near [] ys).1, λ z. (omega arith, omega arith))
near (x ∷ xs) [] =
    (λ z. (omega arith, omega arith), NearRight-cons xs [] x (near xs []).0 (near xs []).1)
near (x ∷ xs) (y ∷ ys) = (
  NearLeft-cons (x ∷ xs) ys y (near (x ∷ xs) ys).0 (near (x ∷ xs) ys).1,
  NearRight-cons xs (y ∷ ys) x (near xs (y ∷ ys)).0 (near xs (y ∷ ys)).1,
)

-- What a list of operations says of both sides, what it costs, and whether its equal pairs are equal.
unfoldable pub ref_words : List Op → List Text
ref_words [] = []
ref_words (equal r h ∷ os) = r ∷ ref_words os
ref_words (sub r h ∷ os) = r ∷ ref_words os
ref_words (del r ∷ os) = r ∷ ref_words os
ref_words (ins h ∷ os) = ref_words os

unfoldable pub hyp_words : List Op → List Text
hyp_words [] = []
hyp_words (equal r h ∷ os) = h ∷ hyp_words os
hyp_words (sub r h ∷ os) = h ∷ hyp_words os
hyp_words (del r ∷ os) = hyp_words os
hyp_words (ins h ∷ os) = h ∷ hyp_words os

abbrev pub price : Op → ℕ
price (equal r h) = 0
price (sub r h) = 1
price (del r) = 1
price (ins h) = 1

unfoldable pub cost : List Op → ℕ
cost [] = 0
cost (o ∷ os) = price o + cost os

abbrev pub IsTrue : Op → Type 0
IsTrue (equal r h) = r ≡ h
IsTrue (sub r h) = Unit
IsTrue (del r) = Unit
IsTrue (ins h) = Unit

dist_pair : (x y : Text) (xs ys : List Text) → dist (x ∷ xs) (y ∷ ys) ≤ suc (dist xs ys)
unfolding dist
dist_pair x y xs ys = ground arith

pub dist_equal : (x y : Text) (xs ys : List Text) → x ≡ y → dist (x ∷ xs) (y ∷ ys) ≡ dist xs ys
unfolding dist
dist_equal x y xs ys h = ground (arith, (text_eq.same_iff x y).1 h)

-- No list of operations costs less than the distance of what it says.
pub dist-least : (os : List Op) → All IsTrue os → dist (ref_words os) (hyp_words os) ≤ cost os
unfolding ref_words hyp_words cost
dist-least [] h = rw dist_nil (omega arith)
dist-least (equal x y ∷ os) h =
    omega (arith, dist_equal x y (ref_words os) (hyp_words os) h.0, dist-least os h.1)
dist-least (sub x y ∷ os) h =
    omega (arith, dist_pair x y (ref_words os) (hyp_words os), dist-least os h.1)
dist-least (del x ∷ os) h =
    omega (arith, ((near (ref_words os) (hyp_words os)).0 x).0, dist-least os h.1)
dist-least (ins y ∷ os) h =
    omega (arith, ((near (ref_words os) (hyp_words os)).1 y).0, dist-least os h.1)
