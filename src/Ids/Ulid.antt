-- ===== src/Ids/Ulid.antt =====
-- src/ws_collab/ids.py: `new_event_id`, `_encode_crockford` and `event_id_timestamp_ms`. The clock
-- and the random bytes are arguments. On a number, `& 0x1F` is `% 32` and `>> 5` is `/ 32`.
use ws_collab.Prelude.{
  ℕ, zero, suc, ◌+◌, ◌-◌, ◌*◌, ◌/◌, ◌%◌, ◌&&◌, Option, none, some, [], ◌∷◌, ◌++◌, leb,
  if◌then◌else◌, length, take, ◌==◌, nat_eq, Text, codes,
}

-- `_last_ms` and `_last_rand`
pub record Clock : Type 0 where
  pub last_ms : ℕ
  pub last_rand : ℕ

-- `1 << 80`
abbrev pub rand_limit : ℕ
rand_limit = 1208925819614629174706176

abbrev pub crockford : Text
crockford = codes "0123456789ABCDEFGHJKMNPQRSTVWXYZ"

-- `_CROCKFORD[i]`
unfoldable pub char_at : Text → ℕ → ℕ
char_at [] i = 0
char_at (c ∷ cs) zero = c
char_at (c ∷ cs) (suc i) = char_at cs i

-- `_CROCKFORD.index(char)`, none for the ValueError.
unfoldable pub index_of : ℕ → Text → ℕ → Option ℕ
index_of i [] c = none
index_of i (d ∷ ds) c = let rest = index_of (suc i) ds c in if d == c then some i else rest

unfoldable pub encode_crockford : ℕ → ℕ → Text
encode_crockford value zero = []
encode_crockford value (suc length) =
    encode_crockford (value / 32) length ++ char_at crockford (value % 32) ∷ []

-- What `new_event_id` does to the two globals.
unfoldable pub next_clock : ℕ → ℕ → Clock → Clock
next_clock now random c =
    let r = (c.last_rand + 1) % rand_limit in
    if leb now c.last_ms
    then if r == 0
      then record { last_ms = c.last_ms + 1; last_rand = random }
      else record { last_ms = c.last_ms; last_rand = r }
    else record { last_ms = now; last_rand = random }

unfoldable pub new_event_id : ℕ → ℕ → Clock → Text × Clock
new_event_id now random c =
    let d = next_clock now random c in
    (encode_crockford d.last_ms 10 ++ encode_crockford d.last_rand 16, d)

-- One character of `.upper()`, for ASCII.
abbrev pub upper : ℕ → ℕ
upper c = if leb 97 c && leb c 122 then c - 32 else c

abbrev pub add_digit : ℕ → Option ℕ → Option ℕ
add_digit value none = none
add_digit value (some d) = some (value * 32 + d)

-- The loop of `event_id_timestamp_ms`.
unfoldable pub read_digits : ℕ → Text → Option ℕ
read_digits value [] = some value
read_digits value (c ∷ cs) = elim (index_of 0 crockford (upper c)) [
  | none ↦ none
  | some d ↦ read_digits (value * 32 + d) cs
]

unfoldable pub event_id_timestamp_ms : Text → Option ℕ
event_id_timestamp_ms event_id = read_digits 0 (take 10 event_id)
