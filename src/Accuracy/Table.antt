-- ===== src/Accuracy/Table.antt =====
-- The table holds the distances of the prefixes.
use ws_collab.Prelude.{
  ℕ, zero, suc, ◌+◌, ◌≤◌, min, ◌≡◌, refl, sym, ap, ◌∙◌, List, [], ◌∷◌, arith, if◌then◌else◌, length,
  take, ◌==◌, nat_eq, Text, text_eq,
}
use mathlib.Core.List.{reverse_aux}
use ws_collab.Accuracy.{fill_row, first_row, fill_table, nth, dp_table, cell}
use ws_collab.Accuracy.Distance.{dist_nil, dist}

-- The distances from one side to each of the lists that grow by the words that are heard.
abbrev dists : List Text → List Text → List Text → List ℕ
dists xs ys [] = dist xs ys ∷ []
dists xs ys (h ∷ hs) = dist xs ys ∷ dists xs (h ∷ ys) hs

first_row-dists : (k : ℕ) (ys hs : List Text) → length ys ≡ k → first_row k hs ≡ dists [] ys hs
unfolding first_row dist
first_row-dists k ys [] h = ground (arith, h)
first_row-dists k ys (y ∷ hs) h = rw (h, first_row-dists (suc k) (y ∷ ys) hs (ap suc h)) refl

cell_dist :
    (r y : Text) (left : ℕ) (xs ys : List Text)
    → left ≡ dist (r ∷ xs) ys
    → (if r == y then dist xs ys else 1 + min (min (dist xs ys) (dist xs (y ∷ ys))) left)
      ≡ dist (r ∷ xs) (y ∷ ys)
unfolding dist
cell_dist r y left xs ys h = ground (arith, h)

fill_row-dists :
    (r : Text) (xs hs ys : List Text) (left : ℕ)
    → left ≡ dist (r ∷ xs) ys
    → left ∷ fill_row r left (dists xs ys hs) hs ≡ dists (r ∷ xs) ys hs
unfolding fill_row
fill_row-dists r xs [] ys left h = ap (λ n. n ∷ []) h
fill_row-dists r xs (y ∷ []) ys left h = rw (cell_dist r y left xs ys h, h) refl
fill_row-dists r xs (y ∷ z ∷ hs) ys left h =
    let next = if r == y then dist xs ys else 1 + min (min (dist xs ys) (dist xs (y ∷ ys))) left in
    let behind = next ∷ fill_row r next (dists xs (y ∷ ys) (z ∷ hs)) (z ∷ hs) in
    let rest = fill_row-dists r xs (z ∷ hs) (y ∷ ys) next (cell_dist r y left xs ys h) in
    ap (λ n. n ∷ behind) h ∙ ap (λ row. dist (r ∷ xs) ys ∷ row) rest

-- The rows for the words that are said, from the row above on.
abbrev rows : List Text → List Text → List Text → List (List ℕ)
rows hyp xs [] = dists xs [] hyp ∷ []
rows hyp xs (r ∷ ref) = dists xs [] hyp ∷ rows hyp (r ∷ xs) ref

fill_table-rows :
    (i : ℕ) (hyp xs ref : List Text)
    → length xs ≡ i
    → fill_table i (dists xs [] hyp) hyp ref ≡ rows hyp xs ref
unfolding fill_table
fill_table-rows i hyp xs [] h = refl
fill_table-rows i hyp xs (r ∷ ref) h =
    let row = fill_row-dists r xs hyp [] (suc i) (sym (dist_nil (r ∷ xs) ∙ ap suc h)) in
    let rest = fill_table-rows (suc i) hyp (r ∷ xs) ref (ap suc h) in
    ap (λ t. dists xs [] hyp ∷ t) (ap (λ above. fill_table (suc i) above hyp ref) row ∙ rest)

nth-dists :
    (xs ys hs : List Text) (j : ℕ)
    → j ≤ length hs
    → nth 0 (dists xs ys hs) j ≡ dist xs (reverse_aux (take j hs) ys)
unfolding nth
nth-dists xs ys [] zero h = refl
nth-dists xs ys [] (suc j) h = absurd (omega arith)
nth-dists xs ys (y ∷ hs) zero h = refl
nth-dists xs ys (y ∷ hs) (suc j) h = nth-dists xs (y ∷ ys) hs j (omega arith)

nth-rows :
    (hyp xs ref : List Text) (i : ℕ)
    → i ≤ length ref
    → nth [] (rows hyp xs ref) i ≡ dists (reverse_aux (take i ref) xs) [] hyp
unfolding nth
nth-rows hyp xs [] zero h = refl
nth-rows hyp xs [] (suc i) h = absurd (omega arith)
nth-rows hyp xs (r ∷ ref) zero h = refl
nth-rows hyp xs (r ∷ ref) (suc i) h = nth-rows hyp (r ∷ xs) ref i (omega arith)

-- The first words of a list, the last of them first.
abbrev pub prefix : List Text → ℕ → List Text
prefix xs i = reverse_aux (take i xs) []

-- Every entry of the table is the distance of the prefixes that it stands for.
pub cell-dist :
    (ref hyp : List Text) (i j : ℕ)
    → i ≤ length ref
    → j ≤ length hyp
    → cell (dp_table ref hyp) i j ≡ dist (prefix ref i) (prefix hyp j)
cell-dist ref hyp i j h k =
    let table =
      ap (λ row. fill_table 0 row hyp ref) (first_row-dists 0 [] hyp refl)
      ∙ fill_table-rows 0 hyp [] ref refl in
    ap (λ dp. cell dp i j) table
    ∙ ap (λ row. nth 0 row j) (nth-rows hyp [] ref i h)
    ∙ nth-dists (prefix ref i) [] hyp j k
