-- ===== src/Accuracy.antt =====
-- src/ws_collab/tts/accuracy.py: the alignment of what was said with what was heard, and the error
-- rates. A rate is a numerator and a denominator, before it is rounded; the latencies are left out.
pub mod Distance
pub mod Table
pub mod Trace
pub mod Least
use ws_collab.Prelude.{
  ℕ, zero, suc, ◌+◌, ◌-◌, min, not, ◌&&◌, ◌||◌, Option, none, some, List, [], ◌∷◌, map, ltb,
  if◌then◌else◌, length, keep_if, ◌==◌, nat_eq, Text, text_eq,
}
use mathlib.Core.Option
use ws_collab.Texts.{Unicode, normalize_text, split}

pub data Op : Type 0 where
  equal sub : Text → Text → Op
  del ins : Text → Op

pub record EditResult : Type 0 where
  pub substitutions : ℕ
  pub deletions : ℕ
  pub insertions : ℕ
  pub ops : List Op
  pub ref_len : ℕ
  pub hyp_len : ℕ

-- `EditResult.errors`
abbrev pub errors : EditResult → ℕ
errors r = r.substitutions + r.deletions + r.insertions

-- `dp[i][1:]`, from the left neighbour, the row above and the words that are heard.
unfoldable pub fill_row : Text → ℕ → List ℕ → List Text → List ℕ
fill_row r left (diagonal ∷ above ∷ row) (h ∷ hyp) =
    let here = if r == h then diagonal else 1 + min (min diagonal above) left in
    here ∷ fill_row r here (above ∷ row) hyp
fill_row r left _ _ = []

-- `dp[0]`
unfoldable pub first_row : ℕ → List Text → List ℕ
first_row j [] = j ∷ []
first_row j (h ∷ hyp) = j ∷ first_row (suc j) hyp

-- The row above and the rows from `dp[i + 1]` on.
unfoldable pub fill_table : ℕ → List ℕ → List Text → List Text → List (List ℕ)
fill_table i above hyp [] = above ∷ []
fill_table i above hyp (r ∷ ref) =
    above ∷ fill_table (suc i) (suc i ∷ fill_row r (suc i) above hyp) hyp ref

-- xs[i], with a value where there is none.
unfoldable pub nth {ℓ} : {A : Type ℓ} → A → List A → ℕ → A
nth d [] i = d
nth d (x ∷ xs) zero = x
nth d (x ∷ xs) (suc i) = nth d xs i

abbrev pub dp_table : List Text → List Text → List (List ℕ)
dp_table ref hyp = fill_table 0 (first_row 0 hyp) hyp ref

abbrev pub cell : List (List ℕ) → ℕ → ℕ → ℕ
cell dp i j = nth 0 (nth [] dp i) j

-- xs[i - 1]
abbrev pub word_before : List Text → ℕ → Text
word_before xs i = nth [] xs (i - 1)

-- One turn of the backtrace: the operation, and the indices after it.
pub record Turn : Type 0 where
  pub op : Op
  pub i : ℕ
  pub j : ℕ

-- An operation is appended to a list that is reversed in the end: it comes first.
unfoldable pub add_op : Op → EditResult → EditResult
add_op (equal r h) result = record result { ops = equal r h ∷ result.ops }
add_op (sub r h) result = record result {
  ops = sub r h ∷ result.ops;
  substitutions = suc result.substitutions;
}
add_op (del r) result = record result { ops = del r ∷ result.ops; deletions = suc result.deletions }
add_op (ins h) result = record result {
  ops = ins h ∷ result.ops;
  insertions = suc result.insertions;
}

module _ (ref hyp : List Text) (dp : List (List ℕ)) where
  unfoldable pub turn : ℕ → ℕ → Turn
  turn i j =
      if ltb 0 i && ltb 0 j && (word_before ref i == word_before hyp j)
      then record { op = equal (word_before ref i) (word_before hyp j); i = i - 1; j = j - 1 }
      else if ltb 0 i && ltb 0 j && (cell dp i j == cell dp (i - 1) (j - 1) + 1)
      then record { op = sub (word_before ref i) (word_before hyp j); i = i - 1; j = j - 1 }
      else if ltb 0 i && (cell dp i j == cell dp (i - 1) j + 1)
      then record { op = del (word_before ref i); i = i - 1; j = j }
      else record { op = ins (word_before hyp j); i = i; j = j - 1 }

  -- The loop, with at most as many turns as there is fuel.
  unfoldable pub backtrace : ℕ → ℕ → ℕ → EditResult → Option EditResult
  backtrace zero i j result = none
  backtrace (suc fuel) i j result =
      let t = turn i j in
      let rest = backtrace fuel t.i t.j (add_op t.op result) in
      if ltb 0 i || ltb 0 j then rest else some result

-- `_edit_align`
unfoldable pub edit_align : List Text → List Text → Option EditResult
edit_align ref hyp =
    backtrace ref hyp (dp_table ref hyp) (suc (length ref + length hyp)) (length ref) (length hyp)
      (record {
        substitutions = 0;
        deletions = 0;
        insertions = 0;
        ops = [];
        ref_len = length ref;
        hyp_len = length hyp;
      })

-- A rate: 0 or 1 where nothing was said.
unfoldable pub rate : List Text → List Text → Option (ℕ × ℕ)
rate [] [] = some (0, 1)
rate [] (h ∷ hyp) = some (1, 1)
rate (r ∷ ref) hyp =
    Option.map (λ result. (errors result, length (r ∷ ref))) (edit_align (r ∷ ref) hyp)

abbrev pub characters : Text → List Text
characters = map (λ (c : ℕ). c ∷ [])

module _ (u : Unicode) where
  unfoldable pub word_error_rate : Text → Text → Option (ℕ × ℕ)
  word_error_rate reference hypothesis =
      rate (split (normalize_text u reference)) (split (normalize_text u hypothesis))

  abbrev pub without_blanks : Text → Text
  without_blanks text = keep_if (λ (c : ℕ). not (c == 32)) (normalize_text u text)

  unfoldable pub character_error_rate : Text → Text → Option (ℕ × ℕ)
  character_error_rate reference hypothesis =
      rate (characters (without_blanks reference)) (characters (without_blanks hypothesis))
