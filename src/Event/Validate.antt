-- ===== src/Event/Validate.antt =====
-- src/ws_collab/events.py: the streams and their roles, and `validate_new_event`. The mailboxes that
-- the server hosts besides, and the time and a fresh identifier, are arguments.
pub mod Admission
use ws_collab.Prelude.{
  Bool, true, false, ◌||◌, Option, none, some, List, [], ◌∷◌, ltb, if◌then◌else◌, length, ◌==◌,
  nat_eq, Text, codes, text_eq,
}
use ws_collab.Errors.{Error, Result, ok, raise, ◌>>=◌, uncaught}
use ws_collab.Texts.{strip}
use ws_collab.Json.{Json, str, arr, obj, end, Fields}
use ws_collab.Event.{Event, ensure_identity, schema_version}

-- `STREAMS`, the names of the built-in streams with their files.
unfoldable pub streams : List (Text × Text)
streams =
    (codes "conversation", codes "conversation.jsonl")
    ∷ (codes "worker_statuses", codes "worker_statuses.jsonl")
    ∷ (codes "translated_audio", codes "translated_audio.jsonl")
    ∷ (codes "stt_transcripts", codes "stt_transcripts.jsonl")
    ∷ (codes "tts_queue", codes "tts_queue.jsonl")
    ∷ (codes "audio_routing", codes "audio_routing.jsonl")
    ∷ (codes "audio_devices", codes "audio_devices.jsonl")
    ∷ (codes "system_alerts", codes "system_alerts.jsonl")
    ∷ (codes "system_audit", codes "system_audit.jsonl")
    ∷ (codes "system_diagnostics", codes "system_diagnostics.jsonl")
    ∷ (codes "ws_event_log", codes "ws_event_log.jsonl")
    ∷ (codes "workbench_event_log", codes "workbench_event_log.jsonl")
    ∷ (codes "prompt", codes "prompt_history.jsonl")
    ∷ (codes "browser_nav_intents", codes "browser_nav_intents.jsonl")
    ∷ []

unfoldable pub has_key : List (Text × Text) → Text → Bool
has_key [] x = false
has_key ((k, v) ∷ d) x = if k == x then true else has_key d x

unfoldable pub is_member : List Text → Text → Bool
is_member [] x = false
is_member (y ∷ ys) x = if y == x then true else is_member ys x

-- `STREAM_ROLES`
unfoldable pub stream_roles : List (Text × List Text)
stream_roles =
    (codes "conversation", codes "conversation" ∷ [])
    ∷ (codes "worker_status", codes "worker_statuses" ∷ [])
    ∷ (
      codes "speech_pipeline",
      codes "translated_audio" ∷ codes "stt_transcripts" ∷ codes "tts_queue" ∷ [],
    )
    ∷ (codes "resolved_speech", codes "translated_audio" ∷ [])
    ∷ (codes "stt_hypotheses", codes "stt_transcripts" ∷ [])
    ∷ (codes "tts_queue", codes "tts_queue" ∷ [])
    ∷ (codes "audio_config", codes "audio_devices" ∷ codes "audio_routing" ∷ [])
    ∷ (codes "alerts", codes "system_alerts" ∷ [])
    ∷ (codes "audit", codes "system_audit" ∷ [])
    ∷ (codes "diagnostics", codes "system_diagnostics" ∷ [])
    ∷ (codes "prompt_history", codes "prompt" ∷ [])
    ∷ (codes "browser_navigation", codes "browser_nav_intents" ∷ [])
    ∷ []

unfoldable pub find_role : List (Text × List Text) → Text → Result (List Text)
find_role [] role = raise Error.validation
find_role ((k, names) ∷ roles) role = if k == role then ok names else find_role roles role

-- `streams_for_role`
unfoldable pub streams_for_role : Text → Result (List Text)
streams_for_role role = find_role stream_roles role

-- `VALID_SOURCE_KINDS`
unfoldable pub valid_source_kinds : List Text
valid_source_kinds =
    codes "operator"
    ∷ codes "agent"
    ∷ codes "system"
    ∷ codes "client"
    ∷ codes "worker"
    ∷ codes "companion_heard"
    ∷ codes "unknown"
    ∷ []

-- A value that is looked for among texts: a text may be found, a list and a dict have no hash, which is
-- a TypeError, and no other value is one of the texts.
unfoldable pub as_key : Json → Result Text
as_key (str t) = ok t
as_key (arr items) = uncaught
as_key (obj fs) = uncaught
as_key _ = raise Error.validation

unfoldable pub hosted_name : List Text → Text → Result Text
hosted_name dynamic name =
    if has_key streams name || is_member dynamic name then ok name else raise Error.validation

-- `validate_stream`
unfoldable pub validate_stream : List Text → Json → Result Text
validate_stream dynamic v = do name ← as_key v; hosted_name dynamic name

unfoldable pub valid_type : Json → Result Text
valid_type (str t) =
    if strip t == []
    then raise Error.validation
    else if ltb 128 (length t)
    then raise Error.validation
    else ok t
valid_type _ = raise Error.validation

unfoldable pub valid_data : Json → Result Fields
valid_data Json.null = ok end
valid_data (obj fs) = ok fs
valid_data _ = raise Error.validation

unfoldable pub known_kind : Text → Result Text
known_kind kind = if is_member valid_source_kinds kind then ok kind else raise Error.validation

unfoldable pub valid_kind : Json → Result Text
valid_kind v = do kind ← as_key v; known_kind kind

-- A key that is absent is null.
unfoldable pub valid_key : Json → Result (Option Text)
valid_key Json.null = ok none
valid_key (str t) = ok (some t)
valid_key _ = raise Error.validation

-- `str(source_id or "system")` of a text.
unfoldable pub source_or_system : Text → Text
source_or_system [] = codes "system"
source_or_system (c ∷ cs) = c ∷ cs

-- What `validate_new_event` is given.
pub record Draft : Type 0 where
  pub stream : Json
  pub type : Json
  pub payload : Json
  pub source_id : Text
  pub source_kind : Json
  pub correlation_id : Json
  pub idempotency_key : Json

-- `validate_new_event`
unfoldable pub validate_new_event : List Text → Text → Text → Draft → Result Event
validate_new_event dynamic new_id now d = do
  name ← validate_stream dynamic d.stream
  t ← valid_type d.type
  payload ← valid_data d.payload
  kind ← valid_kind d.source_kind
  correlation ← valid_key d.correlation_id
  idempotency ← valid_key d.idempotency_key
  ok (
      ensure_identity new_id now (record {
        stream = name;
        type = t;
        payload = payload;
        source_id = source_or_system d.source_id;
        source_kind = kind;
        correlation_id = correlation;
        idempotency_key = idempotency;
        id = [];
        seq = none;
        ts = [];
        version = schema_version;
        extra = end;
      }))
