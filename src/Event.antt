-- ===== src/Event.antt =====
-- src/ws_collab/events.py, `Event`: the record, its dict form and its reading back.
pub mod RoundTrip
pub mod Validate
use ws_collab.Prelude.{
  ℕ, Bool, ◌||◌, Option, none, some, [], if◌then◌else◌, ◌==◌, Text, codes, text_eq,
}
use ws_collab.Errors.{Result, ok, uncaught, ◌>>=◌}
use ws_collab.Lines.{Bytes}
use ws_collab.Json.{
  Json, null, num, str, obj, Fields, end, field, get_field, put_field, set_default, int,
  value_error, type_error, Python, str_of, int_of,
}

abbrev pub schema_version : ℕ
schema_version = 1

-- `_RESERVED_KEYS`
unfoldable pub is_reserved : Text → Bool
is_reserved k =
    k == codes "id"
    || k == codes "stream"
    || k == codes "seq"
    || k == codes "type"
    || k == codes "ts"
    || k == codes "schema_version"
    || k == codes "source_id"
    || k == codes "source_kind"
    || k == codes "correlation_id"
    || k == codes "idempotency_key"
    || k == codes "data"

-- The two keys are annotated `str | None`, and `validate_new_event` admits nothing else.
pub record Event : Type 0 where
  pub stream : Text
  pub type : Text
  pub payload : Fields
  pub source_id : Text
  pub source_kind : Text
  pub correlation_id : Option Text
  pub idempotency_key : Option Text
  pub id : Text
  pub seq : Option ℕ
  pub ts : Text
  pub version : ℕ
  pub extra : Fields

-- `ensure_identity`: a fresh identifier and the time, where the event has none. Both are arguments.
unfoldable pub ensure_identity : Text → Text → Event → Event
ensure_identity new_id now e = record e {
  id = if e.id == [] then new_id else e.id;
  ts = if e.ts == [] then now else e.ts;
}

abbrev pub of_seq : Option ℕ → Json
of_seq none = null
of_seq (some n) = num n

-- `if value is not None: body[key] = value`
unfoldable pub put_optional : Fields → Text → Option Text → Fields
put_optional fs k none = fs
put_optional fs k (some v) = put_field fs k (str v)

-- `for key, value in self.extra.items(): body.setdefault(key, value)`
unfoldable pub add_extra : Fields → Fields → Fields
add_extra body end = body
add_extra body (field k v rest) = add_extra (set_default body k v) rest

unfoldable pub base_fields : Event → Fields
base_fields e = field (codes "id") (str e.id) (
    field (codes "stream") (str e.stream) (
      field (codes "seq") (of_seq e.seq) (
        field (codes "type") (str e.type) (
          field (codes "ts") (str e.ts) (
            field (codes "schema_version") (num e.version) (
              field (codes "source_id") (str e.source_id) (
                field (codes "source_kind") (str e.source_kind)
                  (field (codes "data") (obj e.payload) end))))))))

unfoldable pub to_dict : Event → Fields
to_dict e =
    let body = put_optional (base_fields e) (codes "correlation_id") e.correlation_id in
    let body' = put_optional body (codes "idempotency_key") e.idempotency_key in
    add_extra body' e.extra

-- `{key: value for key, value in raw.items() if key not in _RESERVED_KEYS}`
unfoldable pub unreserved : Fields → Fields
unreserved end = end
unreserved (field k v fs) =
    let rest = unreserved fs in if is_reserved k then rest else field k v rest

-- `raw.get("data") if isinstance(raw.get("data"), dict) else {}`
unfoldable pub dict_or_empty : Option Json → Fields
dict_or_empty (some (obj fs)) = fs
dict_or_empty _ = end

unfoldable pub text_or_none : Option Json → Option Text
text_or_none (some (str s)) = some s
text_or_none _ = none

unfoldable pub seq_or_none : Option Json → Option ℕ
seq_or_none (some (num n)) = some n
seq_or_none _ = none

module _ (py : Python) where
  -- `str(raw.get(key, default))`
  unfoldable pub text_field : Fields → Text → Text → Text
  text_field raw k default = elim (get_field raw k) [ none ↦ default | some v ↦ str_of py v ]

  -- `int(raw.get("schema_version", SCHEMA_VERSION))`
  unfoldable pub version_field : Option Json → Result ℕ
  version_field none = ok schema_version
  version_field (some v) = elim (int_of py v) [
    | int n ↦ ok n
    | value_error ↦ uncaught
    | type_error ↦ uncaught
  ]

  -- The fields of `cls(...)`, where the version has been read.
  unfoldable pub event_of : Fields → ℕ → Event
  event_of raw version = record {
    stream = text_field raw (codes "stream") [];
    type = text_field raw (codes "type") [];
    payload = dict_or_empty (get_field raw (codes "data"));
    source_id = text_field raw (codes "source_id") (codes "system");
    source_kind = text_field raw (codes "source_kind") (codes "system");
    correlation_id = text_or_none (get_field raw (codes "correlation_id"));
    idempotency_key = text_or_none (get_field raw (codes "idempotency_key"));
    id = text_field raw (codes "id") [];
    seq = seq_or_none (get_field raw (codes "seq"));
    ts = text_field raw (codes "ts") [];
    version = version;
    extra = unreserved raw;
  }

  unfoldable pub from_dict : Fields → Result Event
  from_dict raw = do
    version ← version_field (get_field raw (codes "schema_version"))
    ok (event_of raw version)

  -- `json.dumps(self.to_dict(), ...)`
  unfoldable pub to_line : Event → Bytes
  to_line e = py.dumps (obj (to_dict e))
