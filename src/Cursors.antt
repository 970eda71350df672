-- ===== src/Cursors.antt =====
-- src/ws_collab/cursors.py: durable cursors, one for each stream and consumer. `file` is the value that
-- was dumped to `cursors.json`, none where there is no file, and the time is an argument. Of a file that
-- `_save` has not written, one that holds other values in place of texts is read as an uncaught error.

pub mod Moves
pub mod Restart
use ws_collab.Prelude.{
  ℕ, Bool, true, false, Option, none, some, List, [], ◌∷◌, ◌++◌, map, ltb, if◌then◌else◌,
  last_items, nat_eq, Text, codes, text_eq,
}
use ws_collab.Errors.{Error, Result, ok, raise, uncaught, ◌>>=◌, authorization, not_found}
use ws_collab.Dict
use ws_collab.Dict.{Dict, values, put, pop}
use ws_collab.Json.{
  Python, Json, str, num, arr, obj, end, field, int, value_error, type_error, int_of, get_field,
  Fields,
}
use ws_collab.Json.Values.{items_of, list_of, required_text, text_or, number_or_zero, read_file}
use ws_collab.Ids.{Base64, decode_cursor}

pub data Risk : Type 0 where
  no_risk replay skip : Risk

pub data Action : Type 0 where
  by_commit by_reposition by_reset : Action

-- One entry of a position's history.
pub record Entry : Type 0 where
  pub action : Action
  pub stream : Text
  pub consumer : Text
  pub old_token : Text
  pub new_token : Text
  pub old_seq : ℕ
  pub new_seq : ℕ
  pub reason : Text
  pub operator : Text
  pub risk : Risk
  pub at : Text

pub record Position : Type 0 where
  pub stream : Text
  pub consumer : Text
  pub token : Text
  pub seq : ℕ
  pub updated_at : Text
  pub reason : Text
  pub operator : Text
  pub history : List Json

-- What the audit sink gets.
pub data Audit : Type 0 where
  moved : Entry → Audit
  removed : Text → Text → ℕ → Text → Audit

pub record Manager : Type 0 where
  pub cursors : Dict Text Position
  pub file : Option Json
  pub audit : List Audit

abbrev pub max_history : ℕ
max_history = 100

-- `f"{stream}\x1f{consumer}"`
unfoldable pub key : Text → Text → Text
key stream consumer = stream ++ 31 ∷ consumer

-- The action and the risk as they are written.
unfoldable pub action_text : Action → Text
action_text by_commit = codes "commit"
action_text by_reposition = codes "reposition"
action_text by_reset = codes "reset"

unfoldable pub risk_text : Risk → Text
risk_text no_risk = codes "none"
risk_text replay = codes "replay"
risk_text skip = codes "skip"

-- The dict of an entry.
unfoldable pub entry_json : Entry → Json
entry_json e = obj (
    field (codes "action") (str (action_text e.action)) (
      field (codes "stream") (str e.stream) (
        field (codes "consumer") (str e.consumer) (
          field (codes "old_token") (str e.old_token) (
            field (codes "new_token") (str e.new_token) (
              field (codes "old_seq") (num e.old_seq) (
                field (codes "new_seq") (num e.new_seq) (
                  field (codes "reason") (str e.reason) (
                    field (codes "operator") (str e.operator) (
                      field (codes "risk") (str (risk_text e.risk))
                        (field (codes "at") (str e.at) end)))))))))))

-- One entry of the payload of `_save`.
unfoldable pub position_json : Position → Json
position_json p = obj (
    field (codes "stream") (str p.stream) (
      field (codes "consumer") (str p.consumer) (
        field (codes "token") (str p.token) (
          field (codes "seq") (num p.seq) (
            field (codes "updated_at") (str p.updated_at) (
              field (codes "reason") (str p.reason) (
                field (codes "operator") (str p.operator) (
                  field (codes "history") (arr (items_of (last_items max_history p.history)))
                    end))))))))

-- The payload of `_save`.
unfoldable pub saved : Dict Text Position → Json
saved d = obj (field (codes "cursors") (arr (items_of (map position_json (values d)))) end)

-- `_save`
unfoldable pub save : Manager → Manager
save m = record m { file = some (saved m.cursors) }

-- `list(entry.get("history", []))`
unfoldable pub history_of : Fields → Result (List Json)
history_of fs = elim (get_field fs (codes "history")) [ none ↦ ok [] | some v ↦ list_of v ]

module _ (py : Python) where
  -- The position of an entry of the file.
  unfoldable pub read_fields : Text → Fields → Result Position
  read_fields now fs = do
    stream ← required_text fs (codes "stream")
    consumer ← required_text fs (codes "consumer")
    token ← text_or fs (codes "token") []
    seq ← number_or_zero py fs (codes "seq")
    updated_at ← text_or fs (codes "updated_at") now
    reason ← text_or fs (codes "reason") []
    operator ← text_or fs (codes "operator") (codes "system")
    history ← history_of fs
    ok (record {
      stream = stream;
      consumer = consumer;
      token = token;
      seq = seq;
      updated_at = updated_at;
      reason = reason;
      operator = operator;
      history = history;
    })

  unfoldable pub read_position : Text → Json → Result Position
  read_position now (obj fs) = read_fields now fs
  read_position now _ = uncaught

  -- The loop of `_load`.
  unfoldable pub load_all : Text → List Json → Dict Text Position → Result (Dict Text Position)
  load_all now [] d = ok d
  load_all now (v ∷ vs) d = do
    p ← read_position now v
    load_all now vs (Dict.put d (key p.stream p.consumer) p)

  -- `payload.get("cursors", [])`
  unfoldable pub entries_of : Json → Result (List Json)
  entries_of (obj fs) = elim (get_field fs (codes "cursors")) [ none ↦ ok [] | some v ↦ list_of v ]
  entries_of _ = uncaught

  -- `_load`: no cursors where the file is missing or cannot be read.
  unfoldable pub load : Text → Option Json → Result (Dict Text Position)
  load now none = ok []
  load now (some payload) = do vs ← entries_of payload; load_all now vs []

  -- `__init__`
  unfoldable pub open_manager : Text → Option Json → Result Manager
  open_manager now file = do
    d ← load now (read_file py file)
    ok (record { cursors = d; file = file; audit = [] })

unfoldable pub get : Manager → Text → Text → Option Position
get m stream consumer = Dict.get m.cursors (key stream consumer)

unfoldable pub seq_or_zero : Option Position → ℕ
seq_or_zero none = 0
seq_or_zero (some p) = p.seq

unfoldable pub token_or_empty : Option Position → Text
token_or_empty none = []
token_or_empty (some p) = p.token

unfoldable pub history_or_empty : Option Position → List Json
history_or_empty none = []
history_or_empty (some p) = p.history

-- `delete`
unfoldable pub delete : Text → Manager → Text → Text → Bool × Manager
delete now m stream consumer = elim (get m stream consumer) [
  | none ↦ (false, m)
  | some p ↦ (
    true,
    record (save (record m { cursors = Dict.pop m.cursors (key stream consumer) })) {
      audit = m.audit ++ removed stream consumer p.seq now ∷ [];
    },
  )
]

-- `history`
unfoldable pub history : Manager → Text → Text → Result (List Json)
history m stream consumer = elim (get m stream consumer) [
  | none ↦ raise Error.not_found
  | some p ↦ ok p.history
]

-- A request to move a cursor.
pub record Move : Type 0 where
  pub stream : Text
  pub consumer : Text
  pub token : Text
  pub reason : Text
  pub operator : Text

-- The entry that `_record` builds.
unfoldable pub entry_of : Text → Move → Action → Risk → ℕ → Option Position → Entry
entry_of now r action risk new_seq previous = record {
  action = action;
  stream = r.stream;
  consumer = r.consumer;
  old_token = token_or_empty previous;
  new_token = r.token;
  old_seq = seq_or_zero previous;
  new_seq = new_seq;
  reason = r.reason;
  operator = r.operator;
  risk = risk;
  at = now;
}

-- The position that `_record` builds.
unfoldable pub moved_position : Text → Move → Action → Risk → ℕ → Option Position → Position
moved_position now r action risk new_seq previous = record {
  stream = r.stream;
  consumer = r.consumer;
  token = r.token;
  seq = new_seq;
  updated_at = now;
  reason = r.reason;
  operator = r.operator;
  history =
      last_items max_history (
        history_or_empty previous ++ entry_json (entry_of now r action risk new_seq previous) ∷ []);
}

-- `_record`, where the number of the token is known.
unfoldable pub record_move : Text → Move → Action → Risk → ℕ → Manager → Position × Manager
record_move now r action risk new_seq m =
    let previous = get m r.stream r.consumer in
    let p = moved_position now r action risk new_seq previous in
    (
      p,
      record (save (record m { cursors = Dict.put m.cursors (key r.stream r.consumer) p })) {
        audit = m.audit ++ moved (entry_of now r action risk new_seq previous) ∷ [];
      },
    )

module _ (py : Python) (b64 : Base64) where
  -- `int(decode_cursor(token).get("seq", 0))`, where only a ValueError is caught.
  unfoldable pub seq_field : Option Fields → Result ℕ
  seq_field none = ok 0
  seq_field (some fs) = elim (get_field fs (codes "seq")) [
    | none ↦ ok 0
    | some v ↦ elim (int_of py v) [ int n ↦ ok n | value_error ↦ ok 0 | type_error ↦ uncaught ]
  ]

  -- `_seq_of`
  unfoldable pub seq_of : Text → Result ℕ
  seq_of token = seq_field (decode_cursor py b64 token)

  unfoldable pub commit_at : Text → Move → ℕ → Manager → Result (Position × Manager)
  commit_at now r new_seq m =
      if ltb new_seq (seq_or_zero (get m r.stream r.consumer))
      then raise Error.authorization
      else ok (record_move now r by_commit no_risk new_seq m)

  unfoldable pub commit : Text → Move → Manager → Result (Position × Manager)
  commit now r m = do new_seq ← seq_of r.token; commit_at now r new_seq m

  unfoldable pub reposition_at :
      Text → Move → Bool → Bool → ℕ → Manager → Result (Position × Manager)
  reposition_at now r allow_replay allow_skip new_seq m =
      let old_seq = seq_or_zero (get m r.stream r.consumer) in
      if ltb new_seq old_seq
      then if allow_replay
        then ok (record_move now r by_reposition replay new_seq m)
        else raise Error.authorization
      else if ltb old_seq new_seq
      then if allow_skip
        then ok (record_move now r by_reposition skip new_seq m)
        else raise Error.authorization
      else ok (record_move now r by_reposition no_risk new_seq m)

  unfoldable pub reposition : Text → Move → Bool → Bool → Manager → Result (Position × Manager)
  reposition now r allow_replay allow_skip m = do
    new_seq ← seq_of r.token
    reposition_at now r allow_replay allow_skip new_seq m

  unfoldable pub reset : Text → Move → Manager → Result (Position × Manager)
  reset now r m = do new_seq ← seq_of r.token; ok (record_move now r by_reset replay new_seq m)
