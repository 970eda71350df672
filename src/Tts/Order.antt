-- ===== src/Tts/Order.antt =====
-- The queue is ordered by priority, then by time, whatever is done to it.
use ws_collab.Prelude.{
  ℕ, ◌≤◌, ◌<◌, ◌≡◌, refl, ◌⊎◌, inl, inr, Bool, true, false, List, [], ◌∷◌, map, arith, Bool-cases,
  All, nat_eq, Text, text_eq,
}
use ws_collab.Tts.{
  Item, before, same_place, insert_item, sort_items, remove_item, cancel_first, cancel_where,
}
use ws_collab.Tts.Speak.{release_first}

abbrev pub place : Item → ℕ × ℕ
place x = (x.priority, x.enqueued_at)

-- Not later than.
abbrev pub NotAfter : ℕ × ℕ → ℕ × ℕ → Type 0
NotAfter a b = (a.0 < b.0) ⊎ ((a.0 ≡ b.0) × (a.1 ≤ b.1))

abbrev pub IsOrdered : List (ℕ × ℕ) → Type 0
IsOrdered [] = Unit
IsOrdered (a ∷ as') = All (NotAfter a) as' × IsOrdered as'

-- The queue in its order.
abbrev pub IsQueue : List Item → Type 0
IsQueue xs = IsOrdered (map place xs)

NotAfter-trans : (a b c : ℕ × ℕ) → NotAfter a b → NotAfter b c → NotAfter a c
NotAfter-trans a b c h k = ground arith

All-NotAfter :
    (a b : ℕ × ℕ) (cs : List (ℕ × ℕ)) → NotAfter a b → All (NotAfter b) cs → All (NotAfter a) cs
All-NotAfter a b [] h k = tt
All-NotAfter a b (c ∷ cs) h k = (NotAfter-trans a b c h k.0, All-NotAfter a b cs h k.1)

before_true : (x y : Item) → before y x ≡ true → NotAfter (place y) (place x)
unfolding before
before_true x y h = ground arith

before_false : (x y : Item) → before y x ≡ false → NotAfter (place x) (place y)
unfolding before
before_false x y h = ground arith

All-insert :
    (a : ℕ × ℕ) (x : Item) (ys : List Item)
    → NotAfter a (place x)
    → All (NotAfter a) (map place ys)
    → All (NotAfter a) (map place (insert_item x ys))
unfolding insert_item
All-insert a x [] h k = (h, tt)
All-insert a x (y ∷ ys) h k = elim (Bool-cases (before y x)) [
  | inl p ↦ rw p (k.0, All-insert a x ys h k.1)
  | inr p ↦ rw p (h, k)
]

insert_item-IsQueue : (x : Item) (ys : List Item) → IsQueue ys → IsQueue (insert_item x ys)
unfolding insert_item
insert_item-IsQueue x [] h = (tt, tt)
insert_item-IsQueue x (y ∷ ys) h = elim (Bool-cases (before y x)) [
  | inl p ↦ rw p (All-insert (place y) x ys (before_true x y p) h.0, insert_item-IsQueue x ys h.1)
  | inr p ↦
      let first = before_false x y p in
      rw p ((first, All-NotAfter (place x) (place y) (map place ys) first h.0), h)
]

-- Sorting orders any queue.
pub sort_items-IsQueue : (xs : List Item) → IsQueue (sort_items xs)
unfolding sort_items
sort_items-IsQueue [] = tt
sort_items-IsQueue (x ∷ xs) = insert_item-IsQueue x (sort_items xs) (sort_items-IsQueue xs)

All-remove :
    (P : ℕ × ℕ → Type 0) (x : Item) (ys : List Item)
    → All P (map place ys)
    → All P (map place (remove_item x ys))
unfolding remove_item
All-remove P x [] h = tt
All-remove P x (y ∷ ys) h = elim (Bool-cases (same_place y x)) [
  | inl p ↦ rw p h.1
  | inr p ↦ rw p (h.0, All-remove P x ys h.1)
]

pub remove_item-IsQueue : (x : Item) (ys : List Item) → IsQueue ys → IsQueue (remove_item x ys)
unfolding remove_item
remove_item-IsQueue x [] h = tt
remove_item-IsQueue x (y ∷ ys) h = elim (Bool-cases (same_place y x)) [
  | inl p ↦ rw p h.1
  | inr p ↦ rw p (All-remove (NotAfter (place y)) x ys h.0, remove_item-IsQueue x ys h.1)
]

-- Cancelling and releasing items leave them in their places.
pub cancel_first-place :
    (id : Text) (xs : List Item) → map place (cancel_first id xs) ≡ map place xs
unfolding cancel_first
cancel_first-place id [] = refl
cancel_first-place id (x ∷ xs) = ground (arith, cancel_first-place id xs)

pub cancel_where-place :
    (p : Item → Bool) (xs : List Item) → map place (cancel_where p xs).1 ≡ map place xs
unfolding cancel_where
cancel_where-place p [] = refl
cancel_where-place p (x ∷ xs) = ground (arith, cancel_where-place p xs)

pub release_first-place :
    (p : Item → Bool) (xs : List Item) → map place (release_first p xs) ≡ map place xs
unfolding release_first
release_first-place p [] = refl
release_first-place p (x ∷ xs) = ground (arith, release_first-place p xs)
