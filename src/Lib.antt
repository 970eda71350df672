-- ===== src/Lib.antt =====
-- Verification of ws_collab, a collaboration server over durable event streams.
--
-- The program appends events to one JSONL file for each stream, reads them back in pages behind
-- opaque cursor tokens, keeps a durable cursor for each stream and consumer, and lets operators
-- commit, reposition and reset these cursors. A broker hands new events to connected clients, a
-- monitor raises alerts about quiet workers, and the security checks guard every request. Speech is
-- detected in audio, classified and measured, a queue speaks for the agents, and a tracker turns the
-- captions of a meeting into sentences. The service and its transports call these parts.
--
-- Which file models which part:
-- - Lines: `_iter_complete_lines` of src/ws_collab/jsonl_store.py, the framing of a file in lines.
-- - Json: the values of Python's `json` module, and `str`, `int` and `bool` of them.
-- - Event: `Event` of src/ws_collab/events.py, with `to_dict`, `from_dict` and `to_line`;
--   Event/Validate: the streams with their roles, and `validate_new_event`; Event/Validate/Admission:
--   what it admits.
-- - Ids: `encode_cursor` and `decode_cursor` of src/ws_collab/ids.py; Ids/Ulid: `new_event_id` and
--   `event_id_timestamp_ms`.
-- - Stream: `_StreamState` of src/ws_collab/jsonl_store.py. Stream/Append is `append` with the
--   repair of a torn line, rotation and retention; Stream/Read is `iter_from_seq`, `_hot_iter` and
--   `read`; Stream/Recover is `_recover`, `tail` and the cursors at given positions. The other files
--   below Stream hold the invariant and the proofs.
-- - Cursors: `CursorManager` of src/ws_collab/cursors.py, with the values that its file holds;
--   Json/Values is how such a file is read.
-- - Lifecycle: `LifecycleController` of src/ws_collab/lifecycle.py.
-- - Broker: `Broker` and `Subscription` of src/ws_collab/notify.py; the tasks of the event loops are
--   steps of their own.
-- - Workers: `WorkerMonitor` of src/ws_collab/workers.py, its registry and alerts.
-- - Security: the sessions, roles, origins and limits of src/ws_collab/security.py, and
--   `role_at_least` of src/ws_collab/config.py.
-- - Vad: `SimpleVad` of src/ws_collab/audio/vad.py.
-- - Routing: `RoutingManager` of src/ws_collab/audio/routing.py, with the values that its file holds.
-- - Texts: what the program uses of Python's `str`, and `normalize_text` of
--   src/ws_collab/stt/base.py.
-- - Accuracy: the alignment and the error rates of src/ws_collab/tts/accuracy.py; below it the
--   distances (Distance, Table) and the backtrace (Trace, Least).
-- - Classify: `SourceClassifier` of src/ws_collab/classify.py.
-- - Disambiguator: `DeterministicDisambiguator` of src/ws_collab/disambiguator.py.
-- - Tts: `TtsEngine` of src/ws_collab/tts/engine.py. Tts is the queue and what cancels, pauses and
--   mutes; Tts/Speak is `speak` and the floors; Tts/Playback is `_next_item` and `process_next`. The
--   other files below Tts hold the proofs.
-- - Captions: `CaptionTracker` of src/ws_collab/meet_bridge/tracker.py. Captions is
--   `_queue_completed`; Captions/Rows is the baseline and the stable keys; Captions/Updates is
--   `update`. The other files below Captions hold the proofs.
-- - Prompt: `PromptManager` of src/ws_collab/prompt.py.
-- - Store: `JsonlStore` of src/ws_collab/jsonl_store.py, the streams of a directory. Streams of one
--   file name share their files.
-- - Service: `publish`, `read_events`, `tail` and `_build_predicate` of src/ws_collab/service.py:
--   a draft is validated (Event), appended (Store, Stream) and announced (Broker).
-- - Errors: src/ws_collab/errors.py, and the outcome of a call that may raise.
-- - Dict and Prelude: Python's dict and list operations, and the shared names.
-- - Examples: concrete values of the parameters, and one run of each property.
--
-- The state of a stream is a record with the files on disk in it: the active file as a list of
-- bytes, the archived files by generation, and the sidecar file. An operation takes the state and
-- gives its result and the next state. The clock and fresh identifiers are arguments.
--
-- Python's `json` and `base64` modules are parameters (`Json.Python`, `Ids.Base64`); what is
-- documented of them, and used, stands in `IsJsonLines` and `IsBase64`, which the Examples show to
-- hold of concrete functions. The Unicode tables (`Texts.Unicode`) are a parameter that nothing is
-- assumed of.
--
-- Bounds and fuel: files are read in chunks of 65536 bytes; the loops over chunks and lines run on
-- fuel that is the number of bytes, and each round takes at least one byte. The loop of the
-- retention runs once for each segment beyond the limit. The backtrace of an alignment has a turn for
-- each word of both texts and one more, and each turn takes a word; the loop over sentences has a
-- round for each character and one more, and each round settles a character. The numbers of the program are unbounded
-- integers, but for the random part of an identifier, which wraps at 2 ^ 80. Times are
-- whole units of the clock. An error rate is a numerator and a denominator, before it is rounded. In
-- Tts an absent meeting is the empty text, and a call reads the clock once.
--
-- Not modelled: JSON numbers that are negative or fractional, failing file operations, the locks
-- (each operation is one step), the `on_write` callback (its argument is the event of the result),
-- the texts of error messages, a stop of the speech loop in mid-playback, files of cursors and routes
-- that hold other values in place of texts (they read as an uncaught error), and the components that only call others.
pub mod Prelude
pub mod Dict
pub mod Errors
pub mod Lines
pub mod Json
pub mod Texts
pub mod Event
pub mod Ids
pub mod Stream
pub mod Cursors
pub mod Lifecycle
pub mod Broker
pub mod Workers
pub mod Security
pub mod Vad
pub mod Tts
pub mod Captions
pub mod Accuracy
pub mod Classify
pub mod Disambiguator
pub mod Routing
pub mod Prompt
pub mod Store
pub mod Service
pub mod Examples
