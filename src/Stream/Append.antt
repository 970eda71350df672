-- ===== src/Stream/Append.antt =====
-- src/ws_collab/jsonl_store.py: `append`, with its repair of a torn line, rotation and retention.
use ws_collab.Prelude.{
  ℕ, zero, suc, ◌+◌, ◌-◌, Bool, true, false, not, Option, none, some, List, [], ◌∷◌, ◌++◌, ltb,
  if◌then◌else◌, length, keep_if, ◌==◌, nat_eq, Text, codes, text_eq,
}
use ws_collab.Errors.{Result, ok}
use ws_collab.Dict.{Dict, get, put, pop}
use ws_collab.Dict
use ws_collab.Lines.{Bytes}
use ws_collab.Json.{num, str, Fields, put_field, Python}
use ws_collab.Event.{Event, ensure_identity, to_dict, from_dict, to_line}
use ws_collab.Ids.{Base64, encode_cursor, cursor_payload}
use ws_collab.Stream.{Seen, Stream, active_bytes, Segment}

pub record AppendResult : Type 0 where
  pub event : Event
  pub duplicate : Bool
  pub cursor : Text

-- `last != b"\n"` of a file that is not empty.
unfoldable pub is_torn : Bytes → Bool
is_torn [] = false
is_torn (b ∷ []) = not (b == 10)
is_torn (b ∷ c ∷ bs) = is_torn (c ∷ bs)

unfoldable pub repaired : Bytes → Bytes
repaired bs = if is_torn bs then bs ++ 10 ∷ [] else bs

-- `_repair_torn_final_line`
unfoldable pub repair_torn_final_line : Stream → Stream
repair_torn_final_line s = record s {
  disk = record s.disk {
    active = elim s.disk.active [ none ↦ none | some bs ↦ some (repaired bs) ];
  };
}

-- `_write_state`
unfoldable pub write_state : Stream → Stream
write_state s = record s {
  disk = record s.disk {
    sidecar = some (record {
      gen = s.gen;
      seq = s.seq;
      active_start_seq = s.active_start_seq;
      segments = s.segments;
    });
  };
}

-- `{key: value ... if value["gen"] != removed_gen}`
unfoldable pub forget_gen : ℕ → Dict Text Seen → Dict Text Seen
forget_gen g = keep_if (λ e. not (e.1.gen == g))

-- One round of the loop of `_apply_retention`: the oldest segment, its keys and its file go.
unfoldable pub drop_first : List Segment → Stream → Stream
drop_first [] s = s
drop_first (oldest ∷ rest) s = record s {
  segments = rest;
  idempotency = forget_gen oldest.gen s.idempotency;
  disk = record s.disk { archived = Dict.pop s.disk.archived oldest.gen };
}

-- The loop; the number of rounds is the number of segments beyond the limit.
unfoldable pub drop_oldest : ℕ → Stream → Stream
drop_oldest zero s = s
drop_oldest (suc n) s = drop_oldest n (drop_first s.segments s)

unfoldable pub apply_retention : Stream → Stream
apply_retention s = drop_oldest (length s.segments - s.retention_max_files) s

-- The rotation itself: the active file becomes a segment.
unfoldable pub rotate : Bytes → Stream → Stream
rotate bs s = write_state (
    apply_retention (record s {
      segments =
          s.segments
          ++ record { gen = s.gen; start_seq = s.active_start_seq; end_seq = s.seq } ∷ [];
      gen = s.gen + 1;
      active_start_seq = s.seq + 1;
      disk = record s.disk { active = some []; archived = Dict.put s.disk.archived s.gen bs };
    }))

-- `_maybe_rotate`
unfoldable pub maybe_rotate : Stream → Stream
maybe_rotate s = elim s.disk.active [
  | none ↦ s
  | some bs ↦ if ltb (length bs) s.rotate_max_bytes then s else rotate bs s
]

-- `if event.idempotency_key:`, an empty text is no key.
unfoldable pub key_of : Option Text → Option Text
key_of none = none
key_of (some []) = none
key_of (some (c ∷ cs)) = some (c ∷ cs)

unfoldable pub remember : Option Text → Seen → Dict Text Seen → Dict Text Seen
remember none seen d = d
remember (some key) seen d = Dict.put d key seen

unfoldable pub find_seen : Option Text → Dict Text Seen → Option Seen
find_seen none d = none
find_seen (some key) d = Dict.get d key

-- `Event.from_dict({**event.to_dict(), "id": existing["id"], "seq": existing["seq"]})`
unfoldable pub duplicate_fields : Event → Seen → Fields
duplicate_fields event seen =
    put_field (put_field (to_dict event) (codes "id") seen.id) (codes "seq") seen.seq

-- The event that is written: numbered, and with its identity.
unfoldable pub numbered : Text → Text → ℕ → Event → Event
numbered new_id now n event = ensure_identity new_id now (record event { seq = some n })

module _ (py : Python) where
  -- The branch of a new event, up to `_write_state`; `event` is the numbered one.
  unfoldable pub write_event : Event → Stream → Stream
  write_event event s =
      let bs = active_bytes s ++ (to_line py event ++ 10 ∷ []) in
      let seen : Seen = record {
        id = str event.id;
        seq = num s.seq;
        offset = length bs;
        gen = s.gen;
      } in
      write_state (record s {
        idempotency = remember (key_of event.idempotency_key) seen s.idempotency;
        disk = record s.disk { active = some bs };
      })

module _ (py : Python) (b64 : Base64) where
  unfoldable pub append_new : Text → Text → Event → Stream → AppendResult × Stream
  append_new new_id now event s =
      let s1 = repair_torn_final_line s in
      let s2 : Stream = record s1 { seq = s1.seq + 1 } in
      let e = numbered new_id now s2.seq event in
      let s3 = write_event py e s2 in
      (
        record {
          event = e;
          duplicate = false;
          cursor =
              encode_cursor py b64
                (cursor_payload s.name (num s3.seq) (length (active_bytes s3)) s3.gen);
        },
        maybe_rotate s3,
      )

  unfoldable pub append_duplicate : Event → Seen → Stream → Result AppendResult
  append_duplicate event seen s = elim (from_dict py (duplicate_fields event seen)) [
    | ok e ↦ ok (record {
      event = e;
      duplicate = true;
      cursor = encode_cursor py b64 (cursor_payload s.name seen.seq seen.offset seen.gen);
    })
    | Result.raise x ↦ Result.raise x
    | Result.uncaught ↦ Result.uncaught
  ]

  -- `append`; the fresh identifier and the time are arguments. The events that `on_write` gets
  -- are those of results with `duplicate` false.
  unfoldable pub append : Text → Text → Event → Stream → Result AppendResult × Stream
  append new_id now event s = elim (find_seen (key_of event.idempotency_key) s.idempotency) [
    | some seen ↦ (append_duplicate event seen s, s)
    | none ↦ let r = append_new new_id now event s in (ok r.0, r.1)
  ]
