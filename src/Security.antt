-- ===== src/Security.antt =====
-- src/ws_collab/security.py, with `role_at_least` of src/ws_collab/config.py: sessions, roles,
-- origins, rate limits and size limits. Times, fresh tokens and the signature are arguments; the
-- tokens of a bucket are counted in whole units. An absent header is `none`.
pub mod Access
pub mod Buckets
pub mod Sessions
use ws_collab.Prelude.{
  ℕ, suc, ◌+◌, ◌-◌, ◌*◌, min, max, Bool, true, false, ◌||◌, Option, none, some, List, [], ◌∷◌, ◌++◌,
  ltb, leb, if◌then◌else◌, ◌==◌, nat_eq, Text, codes, text_eq,
}
use ws_collab.Errors.{Error, Result, ok, raise, authentication, authorization, payload_too_large}
use ws_collab.Dict
use ws_collab.Dict.{Dict, get, put, pop}

pub record Principal : Type 0 where
  pub is_session : Bool
  pub id : Text
  pub role : Text
  pub label : Text

-- `_TokenBucket`
pub record TokenBucket : Type 0 where
  pub rate : ℕ
  pub capacity : ℕ
  pub tokens : ℕ
  pub updated : ℕ

pub record Session : Type 0 where
  pub sid : Text
  pub role : Text
  pub label : Text
  pub csrf : Text
  pub created_at : Text
  pub expires_at : ℕ

pub record Config : Type 0 where
  pub trusted_origins : List Text
  pub is_loopback_only : Bool
  pub dev_insecure : Bool
  pub admin_remote : Bool
  pub rate_limit_rps : ℕ
  pub max_body_bytes : ℕ
  pub max_ws_message_bytes : ℕ
  pub max_connections : ℕ

pub record Security : Type 0 where
  pub config : Config
  pub buckets : Dict Text TokenBucket
  pub sessions : Dict Text Session
  pub connections : ℕ

-- What `take` first does: the tokens since the last call come in, up to the capacity.
unfoldable pub refill : ℕ → TokenBucket → TokenBucket
refill now b = record b {
  tokens = min b.capacity (b.tokens + (now - b.updated) * b.rate);
  updated = now;
}

-- `take`
unfoldable pub take_tokens : ℕ → ℕ → TokenBucket → Bool × TokenBucket
take_tokens now amount b =
    let c = refill now b in
    if leb amount c.tokens then (true, record c { tokens = c.tokens - amount }) else (false, c)

-- `rate_limit`; a refused call leaves the bucket refilled.
unfoldable pub bucket_of : ℕ → Text → Security → TokenBucket
bucket_of now key s = elim (Dict.get s.buckets key) [
  | none ↦
      let capacity = max s.config.rate_limit_rps 1 in
      record {
        rate = s.config.rate_limit_rps;
        capacity = capacity;
        tokens = capacity;
        updated = now;
      }
  | some b ↦ b
]

unfoldable pub rate_limit : ℕ → Text → ℕ → Security → Result {0} Unit × Security
rate_limit now key cost s =
    let t = take_tokens now cost (bucket_of now key s) in
    (
      if t.0 then ok tt else raise Error.rate_limit,
      record s { buckets = Dict.put s.buckets key t.1 },
    )

-- `create_session`
unfoldable pub create_session :
    ℕ → Text → Text → Text → Text → Text → ℕ → Security → Session × Security
create_session now sid csrf created_at role label ttl_seconds s =
    let session : Session = record {
      sid = sid;
      role = role;
      label = label;
      csrf = csrf;
      created_at = created_at;
      expires_at = now + ttl_seconds;
    } in
    (session, record s { sessions = Dict.put s.sessions sid session })

-- cookie.rsplit(".", 1), none where there is no dot.
unfoldable pub rsplit_dot : Text → Option (Text × Text)
rsplit_dot [] = none
rsplit_dot (c ∷ cs) = elim (rsplit_dot cs) [
  | some p ↦ some (c ∷ p.0, p.1)
  | none ↦ if c == 46 then some ([], cs) else none
]

module _ (sign : Text → Text) where
  -- `cookie_value`
  unfoldable pub cookie_value : Session → Text
  cookie_value session = session.sid ++ 46 ∷ sign session.sid

  -- The part of `authenticate_session` behind the check of the signature.
  unfoldable pub session_of :
      ℕ → Text → Option Session → Security → Option (Principal × Session) × Security
  session_of now sid none s = (none, record s { sessions = Dict.pop s.sessions sid })
  session_of now sid (some session) s =
      if ltb session.expires_at now
      then (none, record s { sessions = Dict.pop s.sessions sid })
      else (
        some (
          record {
            is_session = true;
            id = session.sid;
            role = session.role;
            label = session.label;
          },
          session,
        ),
        s,
      )

  -- `authenticate_session`; an empty cookie has no dot.
  unfoldable pub authenticate_session :
      ℕ → Option Text → Security → Option (Principal × Session) × Security
  authenticate_session now none s = (none, s)
  authenticate_session now (some cookie) s = elim (rsplit_dot cookie) [
    | none ↦ (none, s)
    | some p ↦ if p.1 == sign p.0 then session_of now p.0 (Dict.get s.sessions p.0) s else (none, s)
  ]

-- `destroy_session`
unfoldable pub destroy_session : Text → Security → Security
destroy_session sid s = record s { sessions = Dict.pop s.sessions sid }

-- `verify_csrf`
unfoldable pub verify_csrf : Session → Option Text → Result {0} Unit
verify_csrf session none = raise Error.authorization
verify_csrf session (some []) = raise Error.authorization
verify_csrf session (some (c ∷ cs)) =
    if session.csrf == (c ∷ cs) then ok tt else raise Error.authorization

-- `ROLE_ORDER`
unfoldable pub role_order : List Text
role_order = codes "viewer" ∷ codes "worker" ∷ codes "operator" ∷ codes "admin" ∷ []

-- ROLE_ORDER.index(role), none for the ValueError.
unfoldable pub index_in : ℕ → List Text → Text → Option ℕ
index_in i [] role = none
index_in i (r ∷ rs) role = let rest = index_in (suc i) rs role in if r == role then some i else rest

abbrev pub at_least : Option ℕ → Option ℕ → Bool
at_least (some i) (some j) = leb j i
at_least _ _ = false

-- `role_at_least`
unfoldable pub role_at_least : Text → Text → Bool
role_at_least role required = at_least (index_in 0 role_order role) (index_in 0 role_order required)

-- `require_role`
unfoldable pub require_role : Option Principal → Text → Result Principal
require_role none required = raise Error.authentication
require_role (some p) required =
    if role_at_least p.role required then ok p else raise Error.authorization

-- `x in xs`
unfoldable pub is_in : List Text → Text → Bool
is_in [] x = false
is_in (y ∷ ys) x = if y == x then true else is_in ys x

unfoldable pub check_listed : Config → List Text → Text → Result {0} Unit
check_listed c [] origin =
    if c.is_loopback_only || c.dev_insecure then ok tt else raise Error.authorization
check_listed c (o ∷ os) origin = if is_in (o ∷ os) origin then ok tt else raise Error.authorization

-- `check_origin`
unfoldable pub check_origin : Config → Option Text → Bool → Result {0} Unit
check_origin c none required = if required then raise Error.authorization else ok tt
check_origin c (some []) required = if required then raise Error.authorization else ok tt
check_origin c (some (x ∷ xs)) required = check_listed c c.trusted_origins (x ∷ xs)

-- `check_body_size` and `check_ws_message_size`
unfoldable pub check_body_size : Config → ℕ → Result {0} Unit
check_body_size c size = if ltb c.max_body_bytes size then raise Error.payload_too_large else ok tt

unfoldable pub check_ws_message_size : Config → ℕ → Result {0} Unit
check_ws_message_size c size =
    if ltb c.max_ws_message_bytes size then raise Error.payload_too_large else ok tt

-- `acquire_connection` and `release_connection`; a refused call changes nothing.
unfoldable pub acquire_connection : Security → Result Security
acquire_connection s =
    if leb s.config.max_connections s.connections
    then raise Error.rate_limit
    else ok (record s { connections = suc s.connections })

unfoldable pub release_connection : Security → Security
release_connection s = record s { connections = s.connections - 1 }
