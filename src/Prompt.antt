-- ===== src/Prompt.antt =====
-- src/ws_collab/prompt.py, `PromptManager`: the prompt of the workers and its versions. What is
-- published is a list, and the history that is read is its last items, as the service reads it (500 of
-- them). The diffs are made by a library and left out.
pub mod Versions
use ws_collab.Prelude.{
  ℕ, ◌+◌, max, Option, none, some, List, [], ◌∷◌, ◌++◌, ltb, if◌then◌else◌, last_items, ◌==◌,
  nat_eq, Text, codes, text_eq,
}
use ws_collab.Texts.{decimal}
use ws_collab.Errors.{Error, Result, ok, raise, ◌>>=◌}

-- The data of a `PROMPT_SAVED` event.
pub record Version : Type 0 where
  pub version : ℕ
  pub text : Text
  pub hash : Text
  pub previous_hash : Text
  pub note : Text
  pub operator : Text
  pub saved_at : Text

pub record Manager : Type 0 where
  -- the file, if there is one
  pub file : Option Text
  pub published : List Version

-- len(text.encode("utf-8"))
unfoldable pub utf8_length : Text → ℕ
utf8_length [] = 0
utf8_length (c ∷ cs) =
    let size = if ltb c 128 then 1 else if ltb c 2048 then 2 else if ltb c 65536 then 3 else 4 in
    size + utf8_length cs

abbrev pub text_or_empty : Option Text → Text
text_or_empty none = []
text_or_empty (some t) = t

-- max(versions, default=0)
unfoldable pub greatest_version : List Version → ℕ
greatest_version [] = 0
greatest_version (v ∷ vs) = max v.version (greatest_version vs)

unfoldable pub find_version : ℕ → List Version → Option Version
find_version n [] = none
find_version n (v ∷ vs) = let rest = find_version n vs in if v.version == n then some v else rest

-- `_hash` is `digest`; the history has at most `limit` items.
module _ (digest : Text → Text) (limit max_body_bytes : ℕ) where
  unfoldable pub read_history : Manager → List Version
  read_history m = last_items limit m.published

  -- `_current_version`
  unfoldable pub current_version : Manager → ℕ
  current_version m = greatest_version (read_history m)

  -- `validate`
  unfoldable pub validate : Text → Result (Unit {0})
  validate text = if ltb max_body_bytes (utf8_length text) then raise Error.validation else ok tt

  unfoldable pub saved_version : Text → Text → Text → Text → Manager → Version
  saved_version now text operator note m = record {
    version = current_version m + 1;
    text = text;
    hash = digest text;
    previous_hash = digest (text_or_empty m.file);
    note = note;
    operator = operator;
    saved_at = now;
  }

  -- `save`: the version and its hash, and the manager.
  unfoldable pub save : Text → Text → Text → Text → Manager → Result ((ℕ × Text) × Manager)
  save now text operator note m = do
    valid ← validate text
    let v = saved_version now text operator note m
    ok ((v.version, v.hash), record { file = some text; published = m.published ++ v ∷ [] })

  unfoldable pub found_text : Option Version → Result Text
  found_text none = raise Error.not_found
  found_text (some v) = ok v.text

  -- `version_text`
  unfoldable pub version_text : ℕ → Manager → Result Text
  version_text n m = found_text (find_version n (read_history m))

  -- `rollback`
  unfoldable pub rollback : Text → ℕ → Text → Manager → Result ((ℕ × Text) × Manager)
  rollback now n operator m = do
    text ← version_text n m
    save now text operator (codes "rollback to v" ++ decimal n) m
