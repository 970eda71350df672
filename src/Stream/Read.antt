-- ===== src/Stream/Read.antt =====
-- src/ws_collab/jsonl_store.py: `read` and the two iterators that it chooses from.
use ws_collab.Dict.{Dict, get}
use ws_collab.Prelude.{
  ℕ, ◌+◌, ◌-◌, Bool, true, false, not, ◌&&◌, Option, none, some, List, [], ◌∷◌, ◌++◌, ltb, leb,
  if◌then◌else◌, length, ◌==◌, nat_eq, Text, codes, text_eq,
}
use ws_collab.Errors.{Error, Result, ok, raise, uncaught, ◌>>=◌}
use ws_collab.Dict
use ws_collab.Lines.{Bytes, Row, iter_complete_lines}
use ws_collab.Json.{
  Json, num, str, obj, Fields, get_field, truthy, Python, int, value_error, type_error, int_of,
  IntCall,
}
use ws_collab.Event.{Event, from_dict}
use ws_collab.Ids.{Base64, encode_cursor, decode_cursor, cursor_payload}
use ws_collab.Stream.{Stream, Source, chunk_size, Segment}

-- What an iterator yields: an event with its number, end offset and generation; a malformed line;
-- or an exception that the generator does not catch, which ends the read.
pub data Item : Type 0 where
  event : Event → ℕ → ℕ → ℕ → Item
  malformed : Item
  crash : Item

-- `_ordered_sources`, with the files behind the paths: the archived segments, then the active file.
unfoldable pub archived_sources : Dict ℕ Bytes → List Segment → List Source
archived_sources files [] = []
archived_sources files (seg ∷ segments) =
    record {
      gen = seg.gen;
      end_seq = seg.end_seq;
      is_active = false;
      file = Dict.get files seg.gen;
    }
    ∷ archived_sources files segments

abbrev pub active_source : Stream → Source
active_source s = record { gen = s.gen; end_seq = s.seq; is_active = true; file = s.disk.active }

unfoldable pub ordered_sources : Stream → List Source
ordered_sources s = archived_sources s.disk.archived s.segments ++ active_source s ∷ []

-- `record.get("seq") or 0`
unfoldable pub seq_value : Option Json → Json
seq_value none = num 0
seq_value (some v) = if truthy v then v else num 0

unfoldable pub yield_read : ℕ → ℕ → ℕ → Result Event → List Item
yield_read n stop gen (ok e) = event e n stop gen ∷ []
yield_read n stop gen (raise x) = crash ∷ []
yield_read n stop gen uncaught = crash ∷ []

module _ (py : Python) where
  -- `if seq <= after_seq: continue`, else `Event.from_dict(record)`.
  unfoldable pub yield_event : ℕ → ℕ → ℕ → ℕ → Fields → List Item
  yield_event after gen stop n fs =
      if leb n after then [] else yield_read n stop gen (from_dict py fs)

  -- What `int(record.get("seq") or 0)` gave.
  unfoldable pub yield_number : ℕ → ℕ → ℕ → Fields → IntCall → List Item
  yield_number after gen stop fs (int n) = yield_event after gen stop n fs
  yield_number after gen stop fs value_error = malformed ∷ []
  yield_number after gen stop fs type_error = crash ∷ []

  -- A record that is no dict has no `get`, and a `seq` that is a list raises a TypeError.
  unfoldable pub yield_record : ℕ → ℕ → ℕ → Json → List Item
  yield_record after gen stop (obj fs) =
      yield_number after gen stop fs (int_of py (seq_value (get_field fs (codes "seq"))))
  yield_record after gen stop j = crash ∷ []

  unfoldable pub yield_loaded : ℕ → ℕ → ℕ → Option Json → List Item
  yield_loaded after gen stop none = malformed ∷ []
  yield_loaded after gen stop (some j) = yield_record after gen stop j

  unfoldable pub yield_row : ℕ → ℕ → Row → List Item
  yield_row after gen r = yield_loaded after gen r.stop (py.loads r.line)

  unfoldable pub yield_rows : ℕ → ℕ → List Row → List Item
  yield_rows after gen [] = []
  yield_rows after gen (r ∷ rows) = yield_row after gen r ++ yield_rows after gen rows

  unfoldable pub yield_file : ℕ → ℕ → Option Bytes → List Item
  yield_file after gen none = []
  yield_file after gen (some bs) = yield_rows after gen (iter_complete_lines chunk_size bs 0)

  unfoldable pub yield_sources : ℕ → List Source → List Item
  yield_sources after [] = []
  yield_sources after (src ∷ sources) =
      let rest = yield_sources after sources in
      if not src.is_active && leb src.end_seq after
      then rest
      else yield_file after src.gen src.file ++ rest

  -- `iter_from_seq`
  unfoldable pub iter_from_seq : Stream → ℕ → List Item
  iter_from_seq s after = yield_sources after (ordered_sources s)

  -- `_hot_iter`
  unfoldable pub hot_iter : Stream → ℕ → ℕ → List Item
  hot_iter s offset after = elim s.disk.active [
    | none ↦ []
    | some bs ↦
        if ltb (length bs) offset
        then iter_from_seq s after
        else yield_rows after s.gen (iter_complete_lines chunk_size bs offset)
  ]

-- The variables of the loop in `read`.
pub record Page : Type 0 where
  pub events : List Event
  pub malformed_lines : ℕ
  pub last_seq : ℕ
  pub last_offset : ℕ
  pub last_gen : ℕ
  pub has_more : Bool

unfoldable pub collect : ℕ → (Event → Bool) → List Item → Page → Result Page
collect limit keep [] p = ok p
collect limit keep (malformed ∷ items) p =
    collect limit keep items (record p { malformed_lines = p.malformed_lines + 1 })
collect limit keep (crash ∷ items) p = uncaught
collect limit keep (event e n stop gen ∷ items) p =
    let rest = collect limit keep items (record p {
      events = if keep e then p.events ++ e ∷ [] else p.events;
      last_seq = n;
      last_offset = stop;
      last_gen = gen;
    }) in
    if leb limit (length p.events) then ok (record p { has_more = true }) else rest

pub record ReadPage : Type 0 where
  pub events : List Event
  pub next_cursor : Text
  pub has_more : Bool
  pub malformed_lines : ℕ

-- Where a read starts: `after_seq`, and the offset where the hot path is taken.
pub record Start : Type 0 where
  pub after_seq : ℕ
  pub hot : Option ℕ
  pub incoming_gen : ℕ

module _ (py : Python) (b64 : Base64) where
  -- `int(payload.get(key, default))`; its exceptions are not caught.
  unfoldable pub int_field : Fields → Text → ℕ → Result ℕ
  int_field fs key default = elim (get_field fs key) [
    | none ↦ ok default
    | some v ↦ elim (int_of py v) [ int n ↦ ok n | value_error ↦ uncaught | type_error ↦ uncaught ]
  ]

  -- `payload.get("s") != stream`
  unfoldable pub is_for : Text → Option Json → Bool
  is_for name (some (str s)) = s == name
  is_for name _ = false

  -- `_decode_stream_cursor`
  unfoldable pub decode_stream_cursor : Text → Text → Result Fields
  decode_stream_cursor token name = elim (decode_cursor py b64 token) [
    | none ↦ raise Error.cursor
    | some fs ↦ if is_for name (get_field fs (codes "s")) then ok fs else raise Error.cursor
  ]

  -- The offset is valid only where the cursor points inside the current active file.
  unfoldable pub choose_start : Stream → Fields → ℕ → ℕ → Result Start
  choose_start s fs after gen =
      if ltb s.seq after
      then raise Error.cursor
      else if gen == s.gen && leb (s.active_start_seq - 1) after
      then (do
        off ← int_field fs (codes "off") 0
        ok (record { after_seq = after; hot = some off; incoming_gen = gen }))
      else ok (record { after_seq = after; hot = none; incoming_gen = gen })

  unfoldable pub start_of : Stream → Fields → Result Start
  start_of s fs = do
    after ← int_field fs (codes "seq") 0
    gen ← int_field fs (codes "gen") s.gen
    choose_start s fs after gen

  -- `if after_cursor:`, an empty text is no cursor.
  unfoldable pub start_at : Stream → Option Text → Result Start
  start_at s none = ok (record { after_seq = 0; hot = none; incoming_gen = s.gen })
  start_at s (some []) = ok (record { after_seq = 0; hot = none; incoming_gen = s.gen })
  start_at s (some (c ∷ cs)) = do fs ← decode_stream_cursor (c ∷ cs) s.name; start_of s fs

  unfoldable pub items_from : Stream → Start → List Item
  items_from s start = elim start.hot [
    | none ↦ iter_from_seq py s start.after_seq
    | some off ↦ hot_iter py s off start.after_seq
  ]

  unfoldable pub first_page : Stream → Start → Page
  first_page s start = record {
    events = [];
    malformed_lines = 0;
    last_seq = start.after_seq;
    last_offset = elim start.hot [ none ↦ 0 | some off ↦ off ];
    last_gen = elim start.hot [ none ↦ start.incoming_gen | some _ ↦ s.gen ];
    has_more = false;
  }

  -- The position behind a page: an offset only where the last record lies in the active file.
  unfoldable pub next_payload : Stream → Page → Fields
  next_payload s p =
      if p.last_gen == s.gen
      then cursor_payload s.name (num p.last_seq) p.last_offset s.gen
      else cursor_payload s.name (num p.last_seq) 0 p.last_gen

  -- The part of `read` behind the choice of the start.
  unfoldable pub read_from : Stream → Start → ℕ → (Event → Bool) → Result Page
  read_from s start limit keep = collect limit keep (items_from s start) (first_page s start)

  unfoldable pub read : Stream → Option Text → ℕ → (Event → Bool) → Result ReadPage
  read s after_cursor limit keep = do
    start ← start_at s after_cursor
    p ← read_from s start limit keep
    ok (record {
      events = p.events;
      next_cursor = encode_cursor py b64 (next_payload s p);
      has_more = p.has_more;
      malformed_lines = p.malformed_lines;
    })
