-- ===== src/Tts/Speak.antt =====
-- src/ws_collab/tts/engine.py: `speak` with its duplicates, and the floor of a meeting.
use ws_collab.Prelude.{
  ℕ, suc, ◌+◌, ◌-◌, Bool, true, false, not, ◌&&◌, ◌||◌, Option, none, some, List, [], ◌∷◌, ◌++◌,
  ltb, if◌then◌else◌, length, keep_if, ◌==◌, nat_eq, Text, codes, text_eq,
}
use ws_collab.Errors.{Error, Result, ok, raise, ◌>>=◌}
use ws_collab.Dict
use ws_collab.Dict.{Dict, get, put, pop}
use ws_collab.Texts.{Unicode, strip, normalize_text}
use ws_collab.Tts.{
  floor_eq, Item, Engine, scope, Grant, is_blocked, floor_matches, sort_items, cancel, cancel_where,
}

-- What `speak` is asked for.
pub record Request : Type 0 where
  pub agent_id : Text
  pub text : Text
  pub voice_id : Text
  pub destination : Text
  pub meeting_url : Text
  pub artifact_source : Text
  pub priority : ℕ
  pub interrupt : Bool
  pub dedupe : Bool
  pub wait_for_floor : Bool
  pub floor_test_profile : Text
  pub floor_role : Text

pub data Reply : Type 0 where
  blocked duplicate : Reply
  queued : Text → ℕ → Bool → Bool → Reply

unfoldable pub candidate : ℕ → Text → Request → Text → Item
candidate now id r text = record {
  priority = r.priority;
  enqueued_at = now;
  id = id;
  agent_id = r.agent_id;
  text = text;
  voice_id = r.voice_id;
  destination = r.destination;
  meeting_url = r.meeting_url;
  artifact_source = r.artifact_source;
  interrupt = r.interrupt;
  cancelled = false;
  requires_floor = r.wait_for_floor;
  floor_test_profile = r.floor_test_profile;
  floor_role = r.floor_role;
}

unfoldable pub spoken_text : ℕ → Text → Result Text
spoken_text max_chars [] = raise Error.validation
spoken_text max_chars (c ∷ cs) =
    if ltb max_chars (length (c ∷ cs)) then raise Error.payload_too_large else ok (c ∷ cs)

-- The place of an identifier in the queue.
unfoldable pub queue_position : Text → List Item → ℕ
queue_position id [] = 0
queue_position id (x ∷ xs) = let rest = queue_position id xs in if x.id == id then 0 else suc rest

-- Whether an item takes the open floor of its meeting, and what is left of the grants.
unfoldable pub takes_grant : Item → Option Grant → Bool
takes_grant item none = false
takes_grant item (some grant) = floor_matches item grant

unfoldable pub consumes_floor : Item → Engine → Bool
consumes_floor item e =
    item.requires_floor
    && not (item.meeting_url == [])
    && takes_grant item (Dict.get e.floor_open (scope item.meeting_url item.floor_test_profile))

unfoldable pub interrupted : Bool → Bool → Engine → Engine
interrupted has_route interrupt e = elim e.current [
  | none ↦ e
  | some item ↦ if interrupt then (cancel has_route item.id e).1 else e
]

module _ (u : Unicode) where
  -- `_dedupe_key`
  unfoldable pub dedupe_key : Text → Text → Text
  dedupe_key agent_id text = agent_id ++ 31 ∷ normalize_text u text

  unfoldable pub waits_in : Text → List Item → Bool
  waits_in key [] = false
  waits_in key (x ∷ xs) =
      if not x.cancelled && dedupe_key x.agent_id x.text == key then true else waits_in key xs

  unfoldable pub prune_recent : ℕ → ℕ → Dict Text ℕ → Dict Text ℕ
  prune_recent window now = keep_if (λ x. ltb (now - x.1) window)

  abbrev pub is_known : Option ℕ → Bool
  is_known none = false
  is_known (some t) = true

  -- `_is_duplicate`, which forgets what is older than the window.
  unfoldable pub is_duplicate : ℕ → ℕ → Text → Text → Engine → Bool × Engine
  is_duplicate window now agent_id text e =
      let recent = prune_recent window now e.recent in
      let key = dedupe_key agent_id text in
      (is_known (Dict.get recent key) || waits_in key e.pending, record e { recent = recent })

  -- The part of `speak` under the lock, for an item that is no duplicate.
  unfoldable pub enqueue : ℕ → Item → Engine → Reply × Engine
  enqueue now item e =
      let consumed = consumes_floor item e in
      let item' : Item = record item {
        requires_floor = if consumed then false else item.requires_floor;
      } in
      let pending = sort_items (e.pending ++ item' ∷ []) in
      (
        queued item.id (queue_position item.id pending) item'.requires_floor consumed,
        record e {
          pending = pending;
          floor_open =
              if consumed
              then Dict.pop e.floor_open (scope item.meeting_url item.floor_test_profile)
              else e.floor_open;
          recent = Dict.put e.recent (dedupe_key item.agent_id item.text) now;
        },
      )

  unfoldable pub admit : ℕ → Bool → Bool → ℕ → Item → Engine → Reply × Engine
  admit window has_route dedupe now item e =
      let d = is_duplicate window now item.agent_id item.text e in
      if dedupe && d.0
      then (duplicate, d.1)
      else let q = enqueue now item (if dedupe then d.1 else e) in
        (q.0, interrupted has_route item.interrupt q.1)

  unfoldable pub speak_text :
      ℕ → Bool → Option (Item → Bool) → ℕ → Text → Request → Text → Engine → Reply × Engine
  speak_text window has_route guard now id r text e =
      let item = candidate now id r text in
      if is_blocked guard item then (blocked, e) else admit window has_route r.dedupe now item e

  -- `speak`; a refused request changes nothing.
  unfoldable pub speak :
      ℕ → ℕ → Bool → Option (Item → Bool) → ℕ → Text → Request → Engine → Result (Reply × Engine)
  speak max_chars window has_route guard now id r e = do
    text ← spoken_text max_chars (strip r.text)
    ok (speak_text window has_route guard now id r text e)

-- The reply of `open_floor`.
pub data Floor : Type 0 where
  repeated deferred no_agent : Floor
  granted : Text → Text → Floor

-- `candidate ...` of `open_floor`: whether a queued item may have the floor.
unfoldable pub may_have_floor : Text → Grant → Item → Bool
may_have_floor meeting_url grant item =
    not item.cancelled
    && item.requires_floor
    && item.destination == codes "companion"
    && item.meeting_url == meeting_url
    && floor_matches item grant

-- The first such item is released.
unfoldable pub first_where : (Item → Bool) → List Item → Option Item
first_where p [] = none
first_where p (x ∷ xs) = let rest = first_where p xs in if p x then some x else rest

unfoldable pub release_first : (Item → Bool) → List Item → List Item
release_first p [] = []
release_first p (x ∷ xs) =
    if p x then record x { requires_floor = false } ∷ xs else x ∷ release_first p xs

unfoldable pub is_repeated : Text → Option Grant → Bool
is_repeated event_key none = false
is_repeated event_key (some grant) = grant.event_key == event_key

unfoldable pub give_floor : Text → Grant → Engine → Floor × Engine
give_floor meeting_url grant e =
    let key = scope meeting_url grant.test_profile in
    elim (first_where (may_have_floor meeting_url grant) e.pending) [
      | none ↦ (no_agent, record e { floor_open = Dict.put e.floor_open key grant })
      | some item ↦ (
        granted item.id item.agent_id,
        record e {
          pending = release_first (may_have_floor meeting_url grant) e.pending;
          floor_open = Dict.pop e.floor_open key;
        },
      )
    ]

-- `open_floor`
unfoldable pub open_floor : Text → Grant → Engine → Floor × Engine
open_floor meeting_url grant e =
    if is_repeated grant.event_key (Dict.get e.floor_open (scope meeting_url grant.test_profile))
    then (repeated, e)
    else elim e.current [ some item ↦ (deferred, e) | none ↦ give_floor meeting_url grant e ]

abbrev pub count_of {ℓ} : {A : Type ℓ} → Option A → ℕ
count_of none = 0
count_of (some x) = 1

-- `invalidate_floor`
unfoldable pub invalidate_floor : Text → Bool → Text → Engine → ℕ × Engine
invalidate_floor meeting_url cancel_waiters test_profile e =
    let waits = λ (x : Item).
      x.requires_floor && x.meeting_url == meeting_url && x.floor_test_profile == test_profile in
    let key = scope meeting_url test_profile in
    let c = if cancel_waiters then cancel_where waits e.pending else (0, e.pending) in
    (
      c.0 + count_of (Dict.get e.floor_open key),
      record e { pending = c.1; floor_open = Dict.pop e.floor_open key },
    )

-- `invalidate_all_floors`
unfoldable pub invalidate_all_floors : Bool → Engine → ℕ × Engine
invalidate_all_floors cancel_waiters e =
    let c =
      if cancel_waiters then cancel_where (λ x. x.requires_floor) e.pending else (0, e.pending) in
    (c.0 + length e.floor_open, record e { pending = c.1; floor_open = [] })
