-- ===== src/Store.antt =====
-- src/ws_collab/jsonl_store.py, `JsonlStore`: the streams of a directory, opened when they are first
-- used. `files` holds what is on disk under each file name, so that two streams of one file name share
-- their files, and `opened` what each stream keeps in memory. The lock on the directory and the
-- stamp of its owner are left to the operating system.
use ws_collab.Prelude.{
  ℕ, Bool, ◌||◌, Option, none, some, List, [], ◌∷◌, ◌++◌, if◌then◌else◌, ◌==◌, nat_eq, Text, codes,
  text_eq,
}
use ws_collab.Errors.{Error, Result, ok, raise, uncaught, ◌>>=◌}
use ws_collab.Dict
use ws_collab.Dict.{Dict}
use ws_collab.Json.{Python}
use ws_collab.Ids.{Base64}
use ws_collab.Event.{Event}
use ws_collab.Event.Validate.{has_key, is_member, streams}
use ws_collab.Stream.{Stream, Disk}
use ws_collab.Stream.Recover.{recover, tail}
use ws_collab.Stream.Append
use ws_collab.Stream.Read
use ws_collab.Stream.Append.{AppendResult}
use ws_collab.Stream.Read.{ReadPage}

pub record Store : Type 0 where
  pub opened : Dict Text Stream
  pub dynamic : List Text
  pub rotate_max_bytes : ℕ
  pub retention_max_files : ℕ
  pub files : Dict Text Disk

abbrev pub disk_or_empty : Option Disk → Disk
disk_or_empty none = record { active = none; archived = []; sidecar = none }
disk_or_empty (some d) = d

-- STREAMS.get(name) or f"{name}.jsonl"
unfoldable pub stream_file : List (Text × Text) → Text → Text
stream_file [] name = name ++ codes ".jsonl"
stream_file ((k, file) ∷ rest) name = if k == name then file else stream_file rest name

abbrev pub filename : Text → Text
filename name = stream_file streams name

-- What is on disk for a stream.
abbrev pub disk_of : Text → Store → Disk
disk_of name st = disk_or_empty (Dict.get st.files (filename name))

-- `_StreamState.__init__`, before the recovery.
abbrev pub unopened : Text → Store → Stream
unopened name st = record {
  name = name;
  rotate_max_bytes = st.rotate_max_bytes;
  retention_max_files = st.retention_max_files;
  seq = 0;
  gen = 0;
  active_start_seq = 1;
  segments = [];
  idempotency = [];
  disk = disk_of name st;
}

-- The store after an operation on a stream: what the stream keeps in memory, and its files.
abbrev pub hold : Text → Stream → Store → Store
hold name s st = record st {
  opened = Dict.put st.opened name s;
  files = Dict.put st.files (filename name) s.disk;
}

-- `register_mailbox`
unfoldable pub register_mailbox : Text → Store → Store
register_mailbox name st = record st {
  dynamic = if is_member st.dynamic name then st.dynamic else name ∷ st.dynamic;
}

unfoldable pub is_hosted : Text → Store → Bool
is_hosted name st = has_key streams name || is_member st.dynamic name

module _ (py : Python) (b64 : Base64) where
  -- A stream that is open sees its files as they are now.
  unfoldable pub opened_stream : Option Stream → Stream → Result Stream
  opened_stream none new = recover py new
  opened_stream (some s) new = ok (record s { disk = new.disk })

  -- `stream`
  unfoldable pub stream : Text → Store → Result Stream
  stream name st =
      if is_hosted name st
      then opened_stream (Dict.get st.opened name) (unopened name st)
      else raise Error.validation

  unfoldable pub append_on :
      Text → Text → Event → Store → Result Stream → Result AppendResult × Store
  append_on new_id now e st (ok s) =
      let r = Append.append py b64 new_id now e s in (r.0, hold e.stream r.1 st)
  append_on new_id now e st (raise x) = (raise x, st)
  append_on new_id now e st uncaught = (uncaught, st)

  -- `append`
  unfoldable pub store_append : Text → Text → Event → Store → Result AppendResult × Store
  store_append new_id now e st = append_on new_id now e st (stream e.stream st)

  -- The store once a stream has been asked for.
  unfoldable pub with_stream : Text → Result Stream → Store → Store
  with_stream name (ok s) st = hold name s st
  with_stream name (raise x) st = st
  with_stream name uncaught st = st

  -- `read`
  unfoldable pub store_read :
      Text → Option Text → ℕ → (Event → Bool) → Store → Result ReadPage × Store
  store_read name after limit keep st =
      let found = stream name st in
      (found >>= λ s. Read.read py b64 s after limit keep, with_stream name found st)

  -- `tail`
  unfoldable pub store_tail : Text → ℕ → (Event → Bool) → Store → Result (List Event) × Store
  store_tail name count keep st =
      let found = stream name st in (found >>= λ s. tail py s count keep, with_stream name found st)
