-- ===== src/Json/Values.antt =====
-- How src/ws_collab/cursors.py and src/ws_collab/audio/routing.py read the values of their files.
use ws_collab.Prelude.{
  ℕ, ◌≡◌, refl, ap, Option, none, some, List, [], ◌∷◌, map, nat_eq, Text, text_eq,
}
use ws_collab.Errors.{Result, ok, uncaught}
use ws_collab.Json.{
  Python, Json, Items, str, arr, obj, nil, cons, end, field, int, value_error, type_error, int_of,
  get_field, Fields,
}

unfoldable pub items_of : List Json → Items
items_of [] = nil
items_of (v ∷ vs) = cons v (items_of vs)

-- A value that is a text; what another value does is not followed.
unfoldable pub text_of : Json → Result Text
text_of (str t) = ok t
text_of _ = uncaught

-- fs[k], where a missing key is a KeyError.
unfoldable pub required_text : Fields → Text → Result Text
required_text fs k = elim (get_field fs k) [ none ↦ uncaught | some v ↦ text_of v ]

-- fs.get(k, default)
unfoldable pub text_or : Fields → Text → Text → Result Text
text_or fs k default = elim (get_field fs k) [ none ↦ ok default | some v ↦ text_of v ]

unfoldable pub list_items : Items → List Json
list_items nil = []
list_items (cons v vs) = v ∷ list_items vs

abbrev pub field_keys : Fields → List Json
field_keys end = []
field_keys (field k v fs) = str k ∷ field_keys fs

-- list(v)
unfoldable pub list_of : Json → Result (List Json)
list_of (arr items) = ok (list_items items)
list_of (obj fs) = ok (field_keys fs)
list_of (str t) = ok (map (λ c. str (c ∷ [])) t)
list_of _ = uncaught

module _ (py : Python) where
  -- int(v), whose errors are not caught
  unfoldable pub number_of : Json → Result ℕ
  number_of v = elim (int_of py v) [ int n ↦ ok n | value_error ↦ uncaught | type_error ↦ uncaught ]

  -- int(fs.get(k, 0))
  unfoldable pub number_or_zero : Fields → Text → Result ℕ
  number_or_zero fs k = elim (get_field fs k) [ none ↦ ok 0 | some v ↦ number_of v ]

  -- The value of the text that was dumped.
  unfoldable pub read_file : Option Json → Option Json
  read_file none = none
  read_file (some v) = py.loads (py.dumps v)

pub list_items-items_of : (vs : List Json) → list_items (items_of vs) ≡ vs
unfolding list_items items_of
list_items-items_of [] = refl
list_items-items_of (v ∷ vs) = ap (◌∷◌ v) (list_items-items_of vs)
