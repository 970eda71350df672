-- ===== src/Stream/Duplicates.antt =====
-- `append` twice with one idempotency key.
use ws_collab.Stream.Rotation.{maybe_rotate-idempotency}
use ws_collab.Stream.Appending.{written_event, append_fresh, append-duplicate}
use ws_collab.Prelude.{
  ℕ, ◌+◌, ◌<◌, ◌≡◌, refl, ap, ◌∙◌, true, none, some, [], if◌then◌else◌, length, ◌==◌, nat_eq, Text,
  codes, text_eq,
}
use ws_collab.Errors.{ok}
use ws_collab.Dict.{get-put, Dict}
use ws_collab.Json.{Python, num, str, get_field, put_field, get_field-put}
use ws_collab.Ids.{Base64, encode_cursor, cursor_payload}
use ws_collab.Event.{Event, from_dict, event_of, seq_or_none, to_dict, ensure_identity}
use ws_collab.Event.RoundTrip.{IsExtra, to_dict-version, text_field-some, version_field-num}
use ws_collab.Stream.{Seen, Stream, active_bytes}
use ws_collab.Stream.Append.{
  duplicate_fields, find_seen, remember, repair_torn_final_line, write_state, key_of, write_event,
  append_new, append, numbered, append_duplicate, AppendResult,
}

-- The entry that a written event leaves in the idempotency table.
abbrev pub IsSeenAs : Seen → Event → Type 0
IsSeenAs seen e = (seen.id ≡ str e.id) × ((n : ℕ) × (seen.seq ≡ num n) × (e.seq ≡ some n))

find_seen-remember :
    (k : Text) (seen : Seen) (d : Dict Text Seen)
    → find_seen (some k) (remember (some k) seen d) ≡ some seen
unfolding find_seen remember
find_seen-remember k seen d = get-put d k seen k ∙ rw ((text_eq.same_iff k k).1 refl)

duplicate_field :
    (e : Event) (seen : Seen) (j : Text)
    → get_field (duplicate_fields e seen) j ≡ (
        if codes "seq" == j
        then some seen.seq
        else if codes "id" == j
        then some seen.id
        else get_field (to_dict e) j)
unfolding duplicate_fields
duplicate_field e seen j =
    get_field-put (put_field (to_dict e) (codes "id") seen.id) (codes "seq") seen.seq j
    ∙ ap (λ z. if codes "seq" == j then some seen.seq else z)
        (get_field-put (to_dict e) (codes "id") seen.id j)

-- The answer to a repeated key: an event with the number and identifier of the first.
duplicate_event :
    (py : Python) (e : Event) (seen : Seen) (id : Text) (n : ℕ)
    → IsExtra e.extra
    → seen.id ≡ str id
    → seen.seq ≡ num n
    → (e' : Event) × (from_dict py (duplicate_fields e seen) ≡ ok e')
      × (e'.id ≡ id)
      × (e'.seq ≡ some n)
unfolding from_dict event_of
duplicate_event py e seen id n x i s =
    let raw = duplicate_fields e seen in
    let version : get_field raw (codes "schema_version") ≡ some (num e.version) =
      duplicate_field e seen (codes "schema_version") ∙ to_dict-version e x in
    (
      event_of py raw e.version,
      rw (version, version_field-num py e.version),
      text_field-some py raw (codes "id") [] id (duplicate_field e seen (codes "id") ∙ ap some i),
      ap seq_or_none (duplicate_field e seen (codes "seq") ∙ ap some s)
          ∙ unfold seq_or_none in refl,
    )

module _ (py : Python) (b64 : Base64) where
  seen_by_append :
      (new_id now : Text) (e : Event) (s : Stream) (k : Text)
      → key_of e.idempotency_key ≡ some k
      → find_seen (key_of e.idempotency_key) s.idempotency ≡ none
      → length s.segments < s.retention_max_files
      → (seen : Seen) × (find_seen (some k) (append py b64 new_id now e s).1.idempotency
          ≡ some seen)
        × (seen.id ≡ str (written_event new_id now e s).id)
        × (seen.seq ≡ num (s.seq + 1))
  unfolding append_new write_event write_state repair_torn_final_line active_bytes numbered
      ensure_identity
  seen_by_append new_id now e s k key fresh room =
      let e' = written_event new_id now e s in
      let s1 = repair_torn_final_line s in
      let t : Stream = write_event py e' (record s1 { seq = s.seq + 1 }) in
      let seen : Seen = record {
        id = str e'.id;
        seq = num (s.seq + 1);
        offset = length (active_bytes t);
        gen = s.gen;
      } in
      let kept : (append_new py b64 new_id now e s).1.idempotency
          ≡ remember (key_of e.idempotency_key) seen s.idempotency =
        maybe_rotate-idempotency t room in
      (
        seen,
        ap (λ z. find_seen (some k) z.1.idempotency) (append_fresh py b64 new_id now e s fresh)
            ∙ ap (find_seen (some k)) (kept ∙ ap (λ z. remember z seen s.idempotency) key)
            ∙ find_seen-remember k seen s.idempotency,
        refl,
        refl,
      )

  -- An event that is sent again under a key that was new, while there are fewer segments than the
  -- limit, is answered as a duplicate with the number and the identifier of the first, and the
  -- stream stays as it is, whatever else the second event holds.
  pub append-append_same_key :
      (id1 id2 now1 now2 : Text) (e e2 : Event) (s : Stream) (k : Text)
      → key_of e.idempotency_key ≡ some k
      → key_of e2.idempotency_key ≡ some k
      → find_seen (some k) s.idempotency ≡ none
      → length s.segments < s.retention_max_files
      → IsExtra e2.extra
      → (r : AppendResult) × (append py b64 id2 now2 e2 (append py b64 id1 now1 e s).1
          ≡ (ok r, (append py b64 id1 now1 e s).1))
        × (r.duplicate ≡ true)
        × (r.event.id ≡ (written_event id1 now1 e s).id)
        × (r.event.seq ≡ some (s.seq + 1))
  unfolding append_duplicate
  append-append_same_key id1 id2 now1 now2 e e2 s k k1 k2 fresh room x =
      let s' = (append py b64 id1 now1 e s).1 in
      let (seen, found, i, n) =
        seen_by_append id1 now1 e s k k1 (ap (λ z. find_seen z s.idempotency) k1 ∙ fresh) room in
      let (e', read, i', n') =
        duplicate_event py e2 seen (written_event id1 now1 e s).id (s.seq + 1) x i n in
      (
        record {
          event = e';
          duplicate = true;
          cursor = encode_cursor py b64 (cursor_payload s'.name seen.seq seen.offset seen.gen);
        },
        append-duplicate py b64 id2 now2 e2 s' seen
              (ap (λ z. find_seen z s'.idempotency) k2 ∙ found)
            ∙ rw (read, append_duplicate) refl,
        refl,
        i',
        n',
      )
