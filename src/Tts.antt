-- ===== src/Tts.antt =====
-- src/ws_collab/tts/engine.py, `TtsEngine`: the speech queue. Items are values: the queue and the
-- utterance that is spoken hold no common object. The backend, the companion's route and the guard
-- are the host's: what they answer is an argument, and what they are told is a list. The settings
-- that only the backend reads (rate, pitch, volume, device) are left out, and the clock is read once in
-- each call.
pub mod Playback
pub mod Speak
pub mod Order
pub mod Turns
pub mod Sound
pub mod Playing
pub mod Steps
pub mod Drain
pub mod Repeats
use ws_collab.Prelude.{
  ℕ, suc, ◌≡◌, ◌↔◌, Bool, true, false, not, ◌&&◌, ◌||◌, Option, none, some, List, [], ◌∷◌, ◌++◌,
  arith, ltb, if◌then◌else◌, keep_if, Eq, ◌==◌, nat_eq, Text, codes, text_eq,
}
use ws_collab.Texts.{is_in}
use ws_collab.Dict
use ws_collab.Dict.{Dict}

pub record Item : Type 0 where
  pub priority : ℕ
  pub enqueued_at : ℕ
  pub id : Text
  pub agent_id : Text
  pub text : Text
  pub voice_id : Text
  pub destination : Text
  pub meeting_url : Text
  pub artifact_source : Text
  pub interrupt : Bool
  pub cancelled : Bool
  pub requires_floor : Bool
  pub floor_test_profile : Text
  pub floor_role : Text

-- A key of `_floor_open`: a pair of a meeting and a test profile, or a text.
pub data FloorKey : Type 0 where
  scope : Text → Text → FloorKey
  by_text : Text → FloorKey

abbrev pub floor_beq : FloorKey → FloorKey → Bool
floor_beq (scope a b) (scope c d) = (a == c) && (b == d)
floor_beq (by_text a) (by_text b) = a == b
floor_beq _ _ = false

pub floor_beq_iff : (a b : FloorKey) → (floor_beq a b ≡ true) ↔ (a ≡ b)
floor_beq_iff (scope a b) (scope c d) = ground (arith, text_eq.same_iff a c, text_eq.same_iff b d)
floor_beq_iff (scope a b) (by_text d) = ground arith
floor_beq_iff (by_text a) (scope c d) = ground arith
floor_beq_iff (by_text a) (by_text b) = ground (arith, text_eq.same_iff a b)

instance abbrev pub floor_eq : Eq FloorKey
floor_eq = record { same = floor_beq; same_iff = floor_beq_iff }

pub record Grant : Type 0 where
  pub event_key : Text
  pub test_profile : Text
  pub role : Text

pub record Spoken : Type 0 where
  pub text : Text
  pub voice_id : Text
  pub at : ℕ

-- What the engine publishes.
pub data Notice : Type 0 where
  dropped : Text → Notice
  started : Text → Notice
  speech_started : Text → Notice
  ended : Text → Bool → Notice

pub record Engine : Type 0 where
  pub pending : List Item
  pub current : Option Item
  pub paused_global : Bool
  pub muted_agents : List Text
  pub paused_agents : List Text
  pub recent : Dict Text ℕ
  pub floor_open : Dict FloorKey Grant
  pub last_spoken : Dict Text Spoken
  pub published : List Notice
  -- what `_route_cancel` was called with
  pub route_cancelled : List Text

-- `TtsItem.__lt__`: the priority, then the time.
unfoldable pub before : Item → Item → Bool
before a b =
    if ltb a.priority b.priority
    then true
    else if ltb b.priority a.priority
    then false
    else ltb a.enqueued_at b.enqueued_at

-- `TtsItem.__eq__`: no other field is compared.
unfoldable pub same_place : Item → Item → Bool
same_place a b = a.priority == b.priority && a.enqueued_at == b.enqueued_at

-- list.sort, which is stable: an item goes behind those that are not after it.
unfoldable pub insert_item : Item → List Item → List Item
insert_item x [] = x ∷ []
insert_item x (y ∷ ys) = if before y x then y ∷ insert_item x ys else x ∷ y ∷ ys

unfoldable pub sort_items : List Item → List Item
sort_items [] = []
sort_items (x ∷ xs) = insert_item x (sort_items xs)

-- list.remove: the first item that is equal.
unfoldable pub remove_item : Item → List Item → List Item
remove_item x [] = []
remove_item x (y ∷ ys) = if same_place y x then ys else y ∷ remove_item x ys

-- `xs.add(x)` and `xs.discard(x)` of a set.
unfoldable pub add_to : List Text → Text → List Text
add_to xs x = if is_in xs x then xs else x ∷ xs

unfoldable pub discard : List Text → Text → List Text
discard xs x = keep_if (λ y. not (y == x)) xs

-- `_is_conversational`
unfoldable pub is_conversational : Item → Bool
is_conversational item =
    is_in
      (codes "virtual-agent-tts"
        ∷ codes "companion-interjector"
        ∷ codes "proactive-system-tts"
        ∷ [])
      item.artifact_source

-- `_guard`: whether the item is blocked, where the host gives a guard.
unfoldable pub is_blocked : Option (Item → Bool) → Item → Bool
is_blocked none item = false
is_blocked (some guard) item = is_conversational item && guard item

-- `_floor_matches`
unfoldable pub floor_matches : Item → Grant → Bool
floor_matches item grant =
    item.floor_test_profile == grant.test_profile
    && (grant.role == [] || item.floor_role == [] || item.floor_role == grant.role)

-- The first item with an identifier is cancelled, with its agent and whether there is one.
unfoldable pub has_id : Text → List Item → Bool
has_id id [] = false
has_id id (x ∷ xs) = if x.id == id then true else has_id id xs

unfoldable pub cancel_first : Text → List Item → List Item
cancel_first id [] = []
cancel_first id (x ∷ xs) =
    if x.id == id then record x { cancelled = true } ∷ xs else x ∷ cancel_first id xs

-- What `cancel` does to the utterance that is spoken.
unfoldable pub cancel_current : Bool → Item → Engine → Engine
cancel_current has_route item e = record e {
  current = some (record item { cancelled = true });
  route_cancelled =
      if item.destination == codes "companion" && has_route
      then e.route_cancelled ++ item.id ∷ []
      else e.route_cancelled;
}

-- `cancel`; `has_route` tells whether there is a `_route_cancel`.
unfoldable pub cancel : Bool → Text → Engine → Bool × Engine
cancel has_route id e =
    if has_id id e.pending
    then (
      true,
      record e { pending = cancel_first id e.pending; published = e.published ++ dropped id ∷ [] },
    )
    else elim e.current [
      | none ↦ (false, e)
      | some item ↦ if item.id == id then (true, cancel_current has_route item e) else (false, e)
    ]

-- Items of a kind are cancelled, and counted if they were not.
unfoldable pub cancel_where : (Item → Bool) → List Item → ℕ × List Item
cancel_where p [] = (0, [])
cancel_where p (x ∷ xs) =
    let rest = cancel_where p xs in
    if p x && not x.cancelled
    then (suc rest.0, record x { cancelled = true } ∷ rest.1)
    else (rest.0, x ∷ rest.1)

-- `cancel_agent`
unfoldable pub cancel_agent : Text → Engine → ℕ × Engine
cancel_agent agent_id e =
    let c = cancel_where (λ x. x.agent_id == agent_id) e.pending in
    (c.0, record e { pending = c.1 })

-- `cancel_current_conversational`
unfoldable pub cancel_current_conversational : Bool → Engine → Option Text × Engine
cancel_current_conversational has_route e = elim e.current [
  | none ↦ (none, e)
  | some item ↦
      if item.cancelled || not (is_conversational item)
      then (none, e)
      else (some item.id, cancel_current has_route item e)
]

-- `pause`, `resume`, `mute` and `unmute`
unfoldable pub pause : Option Text → Engine → Engine
pause none e = record e { paused_global = true }
pause (some agent_id) e = record e { paused_agents = add_to e.paused_agents agent_id }

unfoldable pub resume : Option Text → Engine → Engine
resume none e = record e { paused_global = false }
resume (some agent_id) e = record e { paused_agents = discard e.paused_agents agent_id }

unfoldable pub mute : Text → Engine → Engine
mute agent_id e = record e { muted_agents = add_to e.muted_agents agent_id }

unfoldable pub unmute : Text → Engine → Engine
unmute agent_id e = record e { muted_agents = discard e.muted_agents agent_id }
