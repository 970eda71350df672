-- ===== src/Ids.antt =====
-- src/ws_collab/ids.py: opaque cursor tokens, and the identifiers of the child `Ulid`.
pub mod Ulid
pub mod Cursor
pub mod Order
pub mod Rising
use ws_collab.Prelude.{
  ℕ, zero, suc, ◌-◌, ◌%◌, Option, none, some, [], ◌∷◌, ◌++◌, if◌then◌else◌, length, ◌==◌, nat_eq,
  Text, codes, text_eq,
}
use ws_collab.Lines.{Bytes}
use ws_collab.Json.{Json, num, str, obj, Fields, end, field, Python}

-- Python's `base64` module, in its URL-safe alphabet. A text is its code points.
pub record Base64 : Type 0 where
  pub urlsafe_b64encode : Bytes → Text
  pub urlsafe_b64decode : Text → Option Bytes

abbrev pub pad : ℕ
pad = b'='

-- One character in front of a stripped text: a pad goes where nothing is left behind it.
unfoldable pub strip_cons : ℕ → Text → Text
strip_cons c [] = if c == pad then [] else c ∷ []
strip_cons c (d ∷ rest) = c ∷ d ∷ rest

-- token.rstrip("=")
unfoldable pub rstrip_pad : Text → Text
rstrip_pad [] = []
rstrip_pad (c ∷ cs) = strip_cons c (rstrip_pad cs)

-- "=" * n
unfoldable pub pads : ℕ → Text
pads zero = []
pads (suc n) = pad ∷ pads n

module _ (py : Python) (b64 : Base64) where
  -- The fields of the payload come sorted, as `sort_keys=True` writes them.
  unfoldable pub encode_cursor : Fields → Text
  encode_cursor payload = rstrip_pad (b64.urlsafe_b64encode (py.dumps (obj payload)))

  abbrev dict_of : Json → Option Fields
  dict_of (obj fs) = some fs
  dict_of _ = none

  -- `none` is the ValueError. The padding is `"=" * (-len(token) % 4)`.
  unfoldable pub decode_cursor : Text → Option Fields
  decode_cursor [] = none
  decode_cursor (c ∷ cs) =
      let token = c ∷ cs in
      elim (b64.urlsafe_b64decode (token ++ pads ((4 - length token % 4) % 4))) [
        | none ↦ none
        | some raw ↦ elim (py.loads raw) [ none ↦ none | some j ↦ dict_of j ]
      ]

-- The payload of a stream position.
unfoldable pub cursor_payload : Text → Json → ℕ → ℕ → Fields
cursor_payload s seq off gen =
    field (codes "gen") (num gen)
      (field (codes "off") (num off) (field (codes "s") (str s) (field (codes "seq") seq end)))
