-- ===== src/Stream/Tokens.antt =====
-- `read` from the token of a position.
use ws_collab.Prelude.{ℕ, ◌<◌, ◌≡◌, refl, Bool, some, [], ◌∷◌, lt→ltb, nat_eq, Text, text_eq}
use ws_collab.Errors.{Error, raise}
use ws_collab.Json.{Python, IsJsonLines, num, get_field, int_of}
use ws_collab.Ids.{Base64, encode_cursor, decode_cursor, cursor_payload}
use ws_collab.Ids.Cursor.{IsBase64, decode_cursor-encode_cursor}
use ws_collab.Event.{Event}
use ws_collab.Stream.{Stream}
use ws_collab.Stream.Read.{
  Page, ReadPage, start_at, start_of, choose_start, decode_stream_cursor, is_for, int_field, read,
  next_payload,
}

module _ (py : Python) (b64 : Base64) where
  start_of_token :
      (s : Stream) (token : Text) (a off gen : ℕ)
      → decode_cursor py b64 token ≡ some (cursor_payload s.name (num a) off gen)
      → start_at py b64 s (some token)
        ≡ choose_start py b64 s (cursor_payload s.name (num a) off gen) a gen
  unfolding start_at decode_stream_cursor start_of is_for int_field cursor_payload get_field int_of
      decode_cursor
  start_of_token s [] a off gen h = cc
  start_of_token s (c ∷ cs) a off gen h =
      rw (h, decode_stream_cursor) (rw ((text_eq.same_iff s.name s.name).1 refl))

  -- The result of `read` for a page of its loop.
  abbrev pub page_of : Stream → Page → ReadPage
  page_of s q = record {
    events = q.events;
    next_cursor = encode_cursor py b64 (next_payload py b64 s q);
    has_more = q.has_more;
    malformed_lines = q.malformed_lines;
  }

  -- With JSON and base64 round trips, a read with the token of a position behind the last number
  -- of the stream is refused with a cursor error.
  pub read_beyond_end :
      (s : Stream) (a off gen limit : ℕ) (keep : Event → Bool)
      → IsJsonLines py
      → IsBase64 b64
      → s.seq < a
      → read py b64 s
          (some (encode_cursor py b64 (cursor_payload s.name (num a) off gen)))
          limit
          keep
        ≡ raise Error.cursor
  unfolding read choose_start
  read_beyond_end s a off gen limit keep j b l =
      let payload = cursor_payload s.name (num a) off gen in
      rw (
        start_of_token s (encode_cursor py b64 payload) a off gen
            (decode_cursor-encode_cursor py b64 payload j b),
        lt→ltb s.seq a l,
      )
