-- ===== src/Texts.antt =====
-- What the program uses of Python's `str`: `isspace`, `strip`, `split`, `join`, and `normalize_text` of
-- src/ws_collab/stt/base.py. A text is its code points.
use ws_collab.Prelude.{
  ℕ, zero, suc, ◌+◌, ◌/◌, ◌%◌, Bool, true, false, not, ◌&&◌, ◌||◌, List, [], ◌∷◌, ◌++◌, map, ltb,
  leb, if◌then◌else◌, ◌==◌, nat_eq, Text, text_eq,
}

-- str.isspace of one character
unfoldable pub is_space_char : ℕ → Bool
is_space_char c =
    (leb 9 c && leb c 13)
    || (leb 28 c && leb c 32)
    || c == 133
    || c == 160
    || c == 5760
    || (leb 8192 c && leb c 8202)
    || c == 8232
    || c == 8233
    || c == 8239
    || c == 8287
    || c == 12288

unfoldable pub lstrip : Text → Text
lstrip [] = []
lstrip (c ∷ cs) = let rest = lstrip cs in if is_space_char c then rest else c ∷ cs

-- One character in front of a text that is stripped at its end.
unfoldable pub rstrip_cons : ℕ → Text → Text
rstrip_cons c [] = if is_space_char c then [] else c ∷ []
rstrip_cons c (d ∷ cs) = c ∷ d ∷ cs

unfoldable pub rstrip : Text → Text
rstrip [] = []
rstrip (c ∷ cs) = rstrip_cons c (rstrip cs)

-- text.strip()
unfoldable pub strip : Text → Text
strip t = rstrip (lstrip t)

-- The words behind a character that is part of a word.
abbrev pub extend_first : ℕ → List Text → List Text
extend_first c [] = (c ∷ []) ∷ []
extend_first c (w ∷ ws) = (c ∷ w) ∷ ws

-- Whether the text begins with a part of a word.
abbrev pub in_word : Text → Bool
in_word [] = false
in_word (c ∷ cs) = not (is_space_char c)

-- text.split()
unfoldable pub split : Text → List Text
split [] = []
split (c ∷ cs) =
    let rest = split cs in
    if is_space_char c then rest else if in_word cs then extend_first c rest else (c ∷ []) ∷ rest

abbrev pub is_space_first : Text → Bool
is_space_first [] = false
is_space_first (c ∷ cs) = is_space_char c

-- separator.join(words)
unfoldable pub join : Text → List Text → Text
join separator [] = []
join separator (w ∷ []) = w
join separator (w ∷ v ∷ ws) = w ++ separator ++ join separator (v ∷ ws)

-- `_WS.sub(" ", text)`: of each run of spaces, the last one becomes a blank.
unfoldable pub collapse : Text → Text
collapse [] = []
collapse (c ∷ cs) =
    let rest = collapse cs in
    if is_space_char c then if is_space_first cs then rest else 32 ∷ rest else c ∷ rest

-- str(n), by a digit for each unit of fuel; n + 1 units are enough.
unfoldable pub digits : ℕ → ℕ → Text → Text
digits zero n behind = behind
digits (suc fuel) n behind =
    let text = (48 + n % 10) ∷ behind in
    let rest = digits fuel (n / 10) text in if ltb n 10 then text else rest

abbrev pub decimal : ℕ → Text
decimal n = digits (suc n) n []

-- text.startswith(prefix)
unfoldable pub starts_with : Text → Text → Bool
starts_with [] text = true
starts_with (c ∷ cs) [] = false
starts_with (c ∷ cs) (d ∷ ds) = c == d && starts_with cs ds

-- `x in xs`
unfoldable pub is_in : List Text → Text → Bool
is_in [] x = false
is_in (y ∷ xs) x = if y == x then true else is_in xs x

-- The Unicode tables of Python: `unicodedata.normalize("NFKC", text)`, `text.lower()`, and the class
-- `\w` of a regular expression.
pub record Unicode : Type 0 where
  pub nfkc : Text → Text
  pub lower : Text → Text
  pub is_word : ℕ → Bool

module _ (u : Unicode) where
  -- `_PUNCT.sub(" ", text)`, where the class is `[^\w\s']`.
  unfoldable pub without_punctuation : Text → Text
  without_punctuation = map (λ (c : ℕ). if u.is_word c || is_space_char c || c == 39 then c else 32)

  -- `normalize_text`
  unfoldable pub normalize_text : Text → Text
  normalize_text text = strip (collapse (without_punctuation (u.lower (u.nfkc text))))
