-- ===== src/Errors.antt =====
-- src/ws_collab/errors.py: the error classes that both transports report, their stable codes and
-- HTTP statuses, and the outcome of a call that may raise one.
use ws_collab.Prelude.{ℕ, String}

pub data Error : Type 0 where
  ws_collab_error validation authentication authorization not_found conflict : Error
  cursor rate_limit payload_too_large configuration : Error

unfoldable pub code : Error → String
code Error.ws_collab_error = "ws_collab_error"
code Error.validation = "validation_error"
code Error.authentication = "authentication_required"
code Error.authorization = "forbidden"
code Error.not_found = "not_found"
code Error.conflict = "conflict"
code Error.cursor = "cursor_invalid"
code Error.rate_limit = "rate_limited"
code Error.payload_too_large = "payload_too_large"
code Error.configuration = "configuration_error"

unfoldable pub http_status : Error → ℕ
http_status Error.ws_collab_error = 500
http_status Error.validation = 400
http_status Error.authentication = 401
http_status Error.authorization = 403
http_status Error.not_found = 404
http_status Error.conflict = 409
http_status Error.cursor = 409
http_status Error.rate_limit = 429
http_status Error.payload_too_large = 413
http_status Error.configuration = 500

pub data Result {ℓ} (A : Type ℓ) : Type ℓ where
  ok : A → Result A
  raise : Error → Result A
  -- an exception of Python's own, such as TypeError, that no handler takes
  uncaught : Result A

infixl 5 ◌>>=◌
abbrev pub ◌>>=◌ {ℓ κ} : {A : Type ℓ} {B : Type κ} → Result A → (A → Result B) → Result B
ok a >>= f = f a
raise x >>= f = raise x
uncaught >>= f = uncaught
