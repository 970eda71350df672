-- ===== src/Json.antt =====
-- The values of Python's `json` module, and the library calls that the program makes on them. A
-- number is a non-negative integer; negative and fractional numbers are not modelled.
pub mod Values
use ws_collab.Prelude.{
  ℕ, ◌≡◌, refl, Bool, true, false, not, Option, none, some, [], arith, if◌then◌else◌, ◌==◌, nat_eq,
  Text, text_eq,
}
use ws_collab.Lines.{Bytes, NoNewline, is_blank}

mutual
  pub data Json : Type 0 where
    null : Json
    bool : Bool → Json
    num : ℕ → Json
    str : Text → Json
    arr : Items → Json
    obj : Fields → Json

  pub data Items : Type 0 where
    nil : Items
    cons : Json → Items → Items

  -- A dict, in insertion order.
  pub data Fields : Type 0 where
    end : Fields
    field : Text → Json → Fields → Fields

-- fs.get(k)
unfoldable pub get_field : Fields → Text → Option Json
get_field end k = none
get_field (field j v fs) k = if j == k then some v else get_field fs k

-- fs[k] = v
unfoldable pub put_field : Fields → Text → Json → Fields
put_field end k v = field k v end
put_field (field j w fs) k v = if j == k then field j v fs else field j w (put_field fs k v)

-- fs.setdefault(k, v)
unfoldable pub set_default : Fields → Text → Json → Fields
set_default fs k v = elim (get_field fs k) [ none ↦ put_field fs k v | some _ ↦ fs ]

-- bool(v)
unfoldable pub truthy : Json → Bool
truthy Json.null = false
truthy (Json.bool b) = b
truthy (Json.num n) = not (n == 0)
truthy (Json.str s) = not (s == [])
truthy (Json.arr nil) = false
truthy (Json.arr (cons _ _)) = true
truthy (Json.obj end) = false
truthy (Json.obj (field _ _ _)) = true

-- What `int(v)` does: a number, a ValueError, or a TypeError.
pub data IntCall : Type 0 where
  int : ℕ → IntCall
  value_error : IntCall
  type_error : IntCall

-- Python's own library: `json.dumps` to one line and `json.loads`, `str` of a value that is no
-- text, and `int` of a text.
pub record Python : Type 0 where
  pub dumps : Json → Bytes
  pub loads : Bytes → Option Json
  pub render : Json → Text
  pub read_int : Text → Option ℕ

-- What the store relies on: a value survives a round trip, and a dump is one line that is not blank.
pub record IsJsonLines (py : Python) : Type 0 where
  pub loads-dumps : (j : Json) → py.loads (py.dumps j) ≡ some j
  pub no_newline : (j : Json) → NoNewline (py.dumps j)
  pub not_blank : (j : Json) → is_blank (py.dumps j) ≡ false

module _ (py : Python) where
  -- str(v)
  unfoldable pub str_of : Json → Text
  str_of (Json.str s) = s
  str_of v = py.render v

  -- int(v)
  unfoldable pub int_of : Json → IntCall
  int_of (Json.bool b) = int (if b then 1 else 0)
  int_of (Json.num n) = int n
  int_of (Json.str s) = elim (py.read_int s) [ none ↦ value_error | some n ↦ int n ]
  int_of _ = type_error

pub get_field-put :
    (fs : Fields) (k : Text) (v : Json) (j : Text)
    → get_field (put_field fs k v) j ≡ (if k == j then some v else get_field fs j)
unfolding get_field put_field
get_field-put end k v j = refl
get_field-put (field i w fs) k v j = ground (
  arith,
  text_eq.same_iff i k,
  text_eq.same_iff i j,
  text_eq.same_iff k j,
  get_field-put fs k v j,
)

pub get_field-set_default :
    (fs : Fields) (k : Text) (v : Json) (j : Text)
    → get_field (set_default fs k v) j
      ≡ (elim (get_field fs j) [ none ↦ if k == j then some v else none | some w ↦ some w ])
unfolding set_default
get_field-set_default fs k v j = ground (arith, text_eq.same_iff k j, get_field-put fs k v j)
