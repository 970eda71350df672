-- ===== src/Service.antt =====
-- src/ws_collab/service.py: how an event is published, and how events are read. The facade calls every
-- other part as well; that is not followed here.
pub mod Publish
use ws_collab.Prelude.{
  ℕ, min, max, Bool, true, false, not, ◌&&◌, ◌||◌, Option, none, some, List, [], ◌∷◌, ltb,
  if◌then◌else◌, ◌==◌, nat_eq, Text, text_eq,
}
use ws_collab.Errors.{Error, Result, ok, raise, uncaught}
use ws_collab.Json.{Python, Json, truthy, end}
use ws_collab.Ids.{Base64}
use ws_collab.Event.{Event}
use ws_collab.Event.Validate.{Draft, validate_new_event, streams, has_key}
use ws_collab.Texts.{Unicode, starts_with, is_in}
use ws_collab.Broker
use ws_collab.Stream.Append.{AppendResult}
use ws_collab.Stream.Read.{ReadPage}
use ws_collab.Store.{Store, store_append, store_read, store_tail}

abbrev pub Listeners : Type 0
Listeners = Broker.Broker Event (λ e. e.stream)

-- `registered` is `DYNAMIC_STREAMS` of src/ws_collab/events.py.
pub record Service : Type 0 where
  pub store : Store
  pub registered : List Text
  pub broker : Listeners

-- What `publish` returns, without the time.
pub record Reply : Type 0 where
  pub id : Text
  pub seq : Option ℕ
  pub cursor : Text
  pub duplicate : Bool
  pub stream : Json
  pub event_type : Json

-- The filters of `_build_predicate`; an absent one is empty.
pub record Filters : Type 0 where
  pub types : List Text
  pub source_id : Text
  pub source_kind : Text
  pub correlation_id : Text
  pub since : Text
  pub until : Text
  pub text : Text

-- Two texts in the order of their code points.
unfoldable pub text_ltb : Text → Text → Bool
text_ltb [] [] = false
text_ltb [] (d ∷ ds) = true
text_ltb (c ∷ cs) [] = false
text_ltb (c ∷ cs) (d ∷ ds) = if c == d then text_ltb cs ds else ltb c d

-- `text in haystack`
unfoldable pub contains : Text → Text → Bool
contains text [] = starts_with text []
contains text (c ∷ cs) = starts_with text (c ∷ cs) || contains text cs

-- A test that an empty filter passes.
abbrev pub if_given : Text → Bool → Bool
if_given filter test = filter == [] || test

abbrev pub types_given : List Text → Text → Bool
types_given [] t = true
types_given (x ∷ xs) t = is_in (x ∷ xs) t

abbrev pub is_correlation : Option Text → Text → Bool
is_correlation none id = false
is_correlation (some c) id = c == id

-- The text of an event that is searched is the host's: it holds the data as Python prints them.
module _ (u : Unicode) (haystack : Event → Text) where
  -- `_build_predicate`
  unfoldable pub predicate : Filters → Event → Bool
  predicate f e =
      types_given f.types e.type
      && if_given f.source_id (e.source_id == f.source_id)
      && if_given f.source_kind (e.source_kind == f.source_kind)
      && if_given f.correlation_id (is_correlation e.correlation_id f.correlation_id)
      && if_given f.since (not (text_ltb e.ts f.since))
      && if_given f.until (not (text_ltb f.until e.ts))
      && if_given f.text (contains (u.lower f.text) (u.lower (haystack e)))

abbrev pub reply_of : Draft → AppendResult → Reply
reply_of d r = record {
  id = r.event.id;
  seq = r.event.seq;
  cursor = r.cursor;
  duplicate = r.duplicate;
  stream = d.stream;
  event_type = d.type;
}

-- `on_write=self.broker.publish`: it is called where the event is new.
unfoldable pub notify : (ℕ → Bool) → AppendResult → Listeners → Listeners
notify is_closed r b =
    if r.duplicate then b else Broker.publish Event (λ e. e.stream) is_closed r.event b

unfoldable pub replied :
    (ℕ → Bool) → Draft → Result AppendResult × Store → Service → Result Reply × Service
replied is_closed d (ok r, st) sv =
    (ok (reply_of d r), record sv { store = st; broker = notify is_closed r sv.broker })
replied is_closed d (raise x, st) sv = (raise x, record sv { store = st })
replied is_closed d (uncaught, st) sv = (uncaught, record sv { store = st })

-- `data or {}`
unfoldable pub with_data : Draft → Draft
with_data d = record d { payload = if truthy d.payload then d.payload else Json.obj end }

module _ (py : Python) (b64 : Base64) where
  unfoldable pub publish_event :
      (ℕ → Bool) → Text → Text → Draft → Result Event → Service → Result Reply × Service
  publish_event is_closed new_id now d (ok e) sv =
      replied is_closed d (store_append py b64 new_id now e sv.store) sv
  publish_event is_closed new_id now d (raise x) sv = (raise x, sv)
  publish_event is_closed new_id now d uncaught sv = (uncaught, sv)

  -- `publish`
  unfoldable pub publish : (ℕ → Bool) → Text → Text → Draft → Service → Result Reply × Service
  publish is_closed new_id now d sv =
      publish_event is_closed new_id now d
        (validate_new_event sv.registered new_id now (with_data d)) sv

  -- max(1, min(limit, bound))
  abbrev pub clamped : ℕ → ℕ → ℕ
  clamped bound limit = max 1 (min limit bound)

  -- `read_events`
  unfoldable pub read_events :
      Text → Option Text → ℕ → (Event → Bool) → Service → Result ReadPage × Service
  read_events name after limit keep sv =
      let r = store_read py b64 name after (clamped 1000 limit) keep sv.store in
      if has_key streams name
      then (r.0, record sv { store = r.1 })
      else (raise Error.validation, sv)

  -- `tail`
  unfoldable pub tail_events : Text → ℕ → (Event → Bool) → Service → Result (List Event) × Service
  tail_events name count keep sv =
      let r = store_tail py b64 name (clamped 2000 count) keep sv.store in
      if has_key streams name
      then (r.0, record sv { store = r.1 })
      else (raise Error.validation, sv)
