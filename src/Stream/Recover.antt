-- ===== src/Stream/Recover.antt =====
-- src/ws_collab/jsonl_store.py: `_recover`, which a stream starts with, `tail`, and the cursors at
-- given positions. An exception that no handler takes is `uncaught`.
use ws_collab.Prelude.{
  ℕ, zero, suc, min, max, Bool, Option, none, some, List, [], ◌∷◌, ◌++◌, leb, if◌then◌else◌, length,
  last_items, nat_eq, Text, codes, text_eq,
}
use ws_collab.Errors.{Result, ok, uncaught, ◌>>=◌}
use ws_collab.Dict
use ws_collab.Dict.{Dict, put}
use ws_collab.Lines.{Row, Bytes, iter_complete_lines}
use ws_collab.Json.{
  Json, null, num, str, arr, obj, Fields, get_field, int, value_error, type_error, IntCall, field,
  cons, Python, int_of,
}
use ws_collab.Event.{Event, from_dict}
use ws_collab.Ids.{Base64, encode_cursor, cursor_payload}
use ws_collab.Stream.{Stream, Seen, Sidecar, Source, active_bytes, chunk_size}
use ws_collab.Stream.Read.{ordered_sources, seq_value}

unfoldable pub rows_of : Option Bytes → List Row
rows_of none = []
rows_of (some bs) = iter_complete_lines chunk_size bs 0

-- The number that an `int` call gives, where its ValueError skips the line.
unfoldable pub number_or_skip : IntCall → Result (Option ℕ)
number_or_skip (int n) = ok (some n)
number_or_skip value_error = ok none
number_or_skip type_error = uncaught

unfoldable pub greatest : ℕ → Option ℕ → ℕ
greatest m none = m
greatest m (some n) = max m n

unfoldable pub latest : Option ℕ → Option ℕ → Option ℕ
latest l none = l
latest l (some n) = some n

-- `{"id": ..., "seq": ..., "offset": end, "gen": ...}` of a record.
abbrev pub or_null : Option Json → Json
or_null none = null
or_null (some v) = v

unfoldable pub seen_in : Fields → ℕ → ℕ → Seen
seen_in fs stop gen = record {
  id = or_null (get_field fs (codes "id"));
  seq = or_null (get_field fs (codes "seq"));
  offset = stop;
  gen = gen;
}

-- `if key: self.idempotency[key] = ...`. A key that is a number or a boolean is in no lookup of a
-- text, so it is left out; a list or a dict cannot be a key.
unfoldable pub remember_row : Option Json → Seen → Dict Text Seen → Result (Dict Text Seen)
remember_row (some (str (c ∷ cs))) seen d = ok (Dict.put d (c ∷ cs) seen)
remember_row (some (arr (cons v vs))) seen d = uncaught
remember_row (some (obj (field k v fs))) seen d = uncaught
remember_row _ seen d = ok d

module _ (py : Python) where
  -- One line of `_rebuild_from_scan`.
  unfoldable pub scanned_number : Option Json → Result (Option ℕ)
  scanned_number none = ok none
  scanned_number (some (obj fs)) =
      number_or_skip (int_of py (seq_value (get_field fs (codes "seq"))))
  scanned_number (some j) = uncaught

  unfoldable pub max_seq : List Row → ℕ → Result ℕ
  max_seq [] m = ok m
  max_seq (r ∷ rows) m = do n ← scanned_number (py.loads r.line); max_seq rows (greatest m n)

  -- `_rebuild_from_scan`
  unfoldable pub rebuild_from_scan : Stream → Result Stream
  rebuild_from_scan s = do
    m ← max_seq (rows_of s.disk.active) 0
    ok (record s { gen = 0; seq = m; active_start_seq = 1; segments = [] })

  -- `if record.get("seq") is not None: last_seq = int(record["seq"])`
  unfoldable pub tail_value : Option Json → Result (Option ℕ)
  tail_value none = ok none
  tail_value (some Json.null) = ok none
  tail_value (some v) = number_or_skip (int_of py v)

  unfoldable pub tail_number : Option Json → Result (Option ℕ)
  tail_number none = ok none
  tail_number (some (obj fs)) = tail_value (get_field fs (codes "seq"))
  tail_number (some j) = uncaught

  unfoldable pub last_seq : List Row → Option ℕ → Result (Option ℕ)
  last_seq [] l = ok l
  last_seq (r ∷ rows) l = do n ← tail_number (py.loads r.line); last_seq rows (latest l n)

  -- `_reconcile_active_tail`
  unfoldable pub reconcile_active_tail : Stream → Result Stream
  reconcile_active_tail s = do
    l ← last_seq (rows_of s.disk.active) none
    ok (record s { seq = greatest s.seq l })

  unfoldable pub window_row : ℕ → ℕ → Option Json → Dict Text Seen → Result (Dict Text Seen)
  window_row gen stop none d = ok d
  window_row gen stop (some (obj fs)) d =
      remember_row (get_field fs (codes "idempotency_key")) (seen_in fs stop gen) d
  window_row gen stop (some j) d = uncaught

  unfoldable pub window_rows : ℕ → List Row → Dict Text Seen → Result (Dict Text Seen)
  window_rows gen [] d = ok d
  window_rows gen (r ∷ rows) d = do
    d' ← window_row gen r.stop (py.loads r.line) d
    window_rows gen rows d'

  unfoldable pub window_sources : List Source → Dict Text Seen → Result (Dict Text Seen)
  window_sources [] d = ok d
  window_sources (src ∷ sources) d = do
    d' ← window_rows src.gen (rows_of src.file) d
    window_sources sources d'

  -- `_rebuild_idempotency_window`
  unfoldable pub rebuild_idempotency_window : Stream → Result Stream
  rebuild_idempotency_window s = do
    d ← window_sources (ordered_sources s) []
    ok (record s { idempotency = d })

  -- The first half of `_recover`: the sidecar, or the scan.
  unfoldable pub restore : Option Sidecar → Stream → Result Stream
  restore none s = rebuild_from_scan s
  restore (some c) s = ok (record s {
    gen = c.gen;
    seq = c.seq;
    active_start_seq = c.active_start_seq;
    segments = c.segments;
  })

  -- `_recover`
  unfoldable pub recover : Stream → Result Stream
  recover s = do
    s1 ← restore s.disk.sidecar s
    s2 ← reconcile_active_tail s1
    rebuild_idempotency_window s2

  unfoldable pub row_event : (Event → Bool) → Option Json → Result (List Event)
  row_event keep none = ok []
  row_event keep (some (obj fs)) = do e ← from_dict py fs; ok (if keep e then e ∷ [] else [])
  row_event keep (some j) = uncaught

  unfoldable pub segment_events : (Event → Bool) → List Row → Result (List Event)
  segment_events keep [] = ok []
  segment_events keep (r ∷ rows) = do
    es ← row_event keep (py.loads r.line)
    rest ← segment_events keep rows
    ok (es ++ rest)

  -- The loop of `tail`, over the sources from the last one on. A file that is not there is skipped.
  unfoldable pub tail_from : ℕ → (Event → Bool) → List Source → List Event → Result (List Event)
  tail_from count keep [] collected = ok collected
  tail_from count keep (src ∷ sources) collected = do
    es ← segment_events keep (rows_of src.file)
    let rest = tail_from count keep sources (es ++ collected) in
        elim src.file [
          | none ↦ rest
          | some _ ↦ if leb count (length (es ++ collected)) then ok (es ++ collected) else rest
        ]

  unfoldable pub last_count : ℕ → List Event → List Event
  last_count zero es = es
  last_count (suc n) es = last_items (suc n) es

  unfoldable pub backwards : List Source → List Source → List Source
  backwards [] acc = acc
  backwards (src ∷ sources) acc = backwards sources (src ∷ acc)

  -- `tail`
  unfoldable pub tail : Stream → ℕ → (Event → Bool) → Result (List Event)
  tail s count keep = do
    es ← tail_from count keep (backwards (ordered_sources s) []) []
    ok (last_count count es)

module _ (py : Python) (b64 : Base64) where
  unfoldable pub cursor_at_start : Stream → Text
  cursor_at_start s = encode_cursor py b64 (cursor_payload s.name (num 0) 0 s.gen)

  unfoldable pub cursor_at_end : Stream → Text
  cursor_at_end s =
      encode_cursor py b64 (cursor_payload s.name (num s.seq) (length (active_bytes s)) s.gen)

  unfoldable pub cursor_at_seq : Stream → ℕ → Text
  cursor_at_seq s seq = encode_cursor py b64 (cursor_payload s.name (num (min seq s.seq)) 0 s.gen)
