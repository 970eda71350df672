-- ===== src/Examples/Runs.antt =====
-- Each property of the streams, events and tokens at a concrete stream.
use ws_collab.Stream.Sources.{contents}
use ws_collab.Prelude.{◌≡◌, refl, Bool, true, none, some, [], ◌∷◌, arith, nat_eq, codes, text_eq}
use ws_collab.Examples.Codec.{python, python-IsJsonLines}
use ws_collab.Examples.Tokens64.{base64, base64-IsBase64}
use ws_collab.Stream.{Stream, active_bytes}
use ws_collab.Stream.Sound.{IsSound}
use ws_collab.Stream.Read.{archived_sources, yield_file, ordered_sources, read}
use ws_collab.Lines.Framing.{pending, frame}
use ws_collab.Dict
use ws_collab.Dict.{get, Dict}
use ws_collab.Stream.Tokens.{read_beyond_end}
use ws_collab.Stream.Duplicates.{append-append_same_key}
use ws_collab.Stream.Rotation.{maybe_rotate-Keeps, maybe_rotate-contents, Keeps}
use ws_collab.Lines.Chunks.{iter_complete_lines-frame}
use ws_collab.Event.RoundTrip.{from_dict-to_dict}
use ws_collab.Ids.Cursor.{decode_cursor-encode_cursor}
use ws_collab.Lines.{iter_complete_lines}
use ws_collab.Errors.{Error, ok, raise}
use ws_collab.Ids.{encode_cursor, cursor_payload, decode_cursor}
use ws_collab.Stream.Append.{
  write_state, write_event, repair_torn_final_line, maybe_rotate, key_of, find_seen, append,
  AppendResult,
}
use ws_collab.Stream.Appending.{written, written-IsSound, written_event, append-Appended, Appended}
use ws_collab.Event.{Event, to_dict, from_dict}
use ws_collab.Json.{end, num}

abbrev status : Event
status = record {
  stream = codes "statuses";
  type = codes "WORKER_STATUS";
  payload = end;
  source_id = codes "w1";
  source_kind = codes "worker";
  correlation_id = none;
  idempotency_key = some (codes "k1");
  id = codes "a";
  seq = some 1;
  ts = codes "t";
  version = 1;
  extra = end;
}

-- A stream with no file yet, whose files rotate when they hold a byte.
abbrev empty : Stream
empty = record {
  name = codes "statuses";
  rotate_max_bytes = 1;
  retention_max_files = 2;
  seq = 0;
  gen = 0;
  active_start_seq = 1;
  segments = [];
  idempotency = [];
  disk = record { active = none; archived = []; sidecar = none };
}

empty-IsSound : IsSound python empty
empty-IsSound = record {
  starts = omega arith;
  archived_chain = unfold archived_sources in omega arith;
  active_chain = unfold yield_file in omega arith;
  older = tt;
}

-- The stream once the event is written.
abbrev one : Stream
one = written python python-IsJsonLines status empty

one-IsSound : IsSound python one
one-IsSound =
    written-IsSound python python-IsJsonLines status empty empty-IsSound
      (unfold active_bytes pending in refl) tt refl

abbrev all_events : Event → Bool
all_events e = true

append-Appended_example : Appended python base64 (codes "b") (codes "t") status empty
append-Appended_example =
    append-Appended python base64 (codes "b") (codes "t") status empty python-IsJsonLines
      (unfold repair_torn_final_line in empty-IsSound) tt (unfold find_seen key_of Dict.get in refl)

append-append_same_key_example :
    (r : AppendResult) × (append python base64
        (codes "c")
        (codes "u")
        status
        (append python base64 (codes "b") (codes "t") status empty).1
      ≡ (ok r, (append python base64 (codes "b") (codes "t") status empty).1))
    × (r.duplicate ≡ true)
    × (r.event.id ≡ (written_event (codes "b") (codes "t") status empty).id)
    × (r.event.seq ≡ some 1)
append-append_same_key_example =
    append-append_same_key python base64 (codes "b") (codes "c") (codes "t") (codes "u") status
      status empty (codes "k1") (unfold key_of in refl) (unfold key_of in refl)
      (unfold find_seen Dict.get in refl) (omega arith) tt

maybe_rotate-Keeps_example : Keeps python one (maybe_rotate one)
maybe_rotate-Keeps_example = maybe_rotate-Keeps python one one-IsSound

maybe_rotate-contents_example :
    contents python (ordered_sources one) ≡ contents python (ordered_sources (maybe_rotate one))
maybe_rotate-contents_example =
    maybe_rotate-contents python one one-IsSound (unfold write_event write_state in omega arith)

iter_complete_lines-frame_example :
    iter_complete_lines 2 (97 ∷ 10 ∷ 98 ∷ 10 ∷ 99 ∷ []) 0 ≡ frame 0 [] (97 ∷ 10 ∷ 98 ∷ 10 ∷ 99 ∷ [])
iter_complete_lines-frame_example =
    iter_complete_lines-frame 2 (97 ∷ 10 ∷ 98 ∷ 10 ∷ 99 ∷ []) 0 (omega arith)

from_dict-to_dict_example : from_dict python (to_dict status) ≡ ok status
from_dict-to_dict_example = from_dict-to_dict python status tt

decode_cursor-encode_cursor_example :
    decode_cursor python base64
      (encode_cursor python base64 (cursor_payload (codes "statuses") (num 3) 40 0))
    ≡ some (cursor_payload (codes "statuses") (num 3) 40 0)
decode_cursor-encode_cursor_example =
    decode_cursor-encode_cursor python base64 (cursor_payload (codes "statuses") (num 3) 40 0)
      python-IsJsonLines base64-IsBase64

read_beyond_end_example :
    read python base64 one
      (some (encode_cursor python base64 (cursor_payload one.name (num 9) 0 0)))
      5
      all_events
    ≡ raise Error.cursor
unfolding write_event write_state
read_beyond_end_example =
    read_beyond_end python base64 one 9 0 0 5 all_events python-IsJsonLines base64-IsBase64
      (omega arith)
