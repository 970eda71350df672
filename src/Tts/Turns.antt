-- ===== src/Tts/Turns.antt =====
-- Who speaks next, and that one speaks at a time.
use ws_collab.Prelude.{
  ◌≡◌, refl, Bool, not, ◌&&◌, ◌||◌, Option, none, List, [], ◌∷◌, arith, if◌then◌else◌, All, nat_eq,
  Text, text_eq,
}
use ws_collab.Texts.{is_in}
use ws_collab.Dict
use ws_collab.Dict.{Dict}
use ws_collab.Tts.{floor_eq, Item, Engine, FloorKey, scope, by_text, Grant, is_blocked, remove_item}
use ws_collab.Tts.Playback.{next_from, next_item, has_grant, choose}
use ws_collab.Tts.Speak.{first_where}

-- Every grant lies under the pair of a meeting and a profile, as `open_floor` puts it.
abbrev pub IsScope : FloorKey × Grant → Type 0
IsScope (scope m p, g) = Unit {0}
IsScope (by_text t, g) = ⊥

no_grant_by_text :
    (d : Dict FloorKey Grant) (t : Text) → All IsScope d → Dict.get d (by_text t) ≡ none
unfolding Dict.get
no_grant_by_text [] t h = refl
no_grant_by_text ((scope m p, g) ∷ d) t h = no_grant_by_text d t h.1
no_grant_by_text ((by_text s, g) ∷ d) t h = absurd h.0

-- An item that may be spoken now.
abbrev pub is_eligible : Option (Item → Bool) → Engine → Item → Bool
is_eligible guard e item =
    not (item.cancelled || is_in e.muted_agents item.agent_id)
    && not (is_in e.paused_agents item.agent_id || is_blocked guard item)
    && not item.requires_floor

next_from-first_where :
    (guard : Option (Item → Bool)) (items : List Item) (e : Engine)
    → All IsScope e.floor_open
    → (next_from guard items e).0 ≡ first_where (is_eligible guard e) items
unfolding next_from choose has_grant first_where
next_from-first_where guard [] e h = refl
next_from-first_where guard (item ∷ items) e h =
    let after =
      next_from-first_where guard items (record e { pending = remove_item item e.pending }) h in
    let over = next_from-first_where guard items e h in
    let closed = no_grant_by_text e.floor_open item.meeting_url h in
    ground (arith, after, over, closed)

-- While the engine is not paused, the next item is the first in the queue that is not cancelled, whose
-- agent is neither muted nor paused, that the guard lets through and that waits for no floor.
pub next_item-first_where :
    (guard : Option (Item → Bool)) (e : Engine)
    → All IsScope e.floor_open
    → (next_item guard e).0
      ≡ (if e.paused_global then none else first_where (is_eligible guard e) e.pending)
unfolding next_item
next_item-first_where guard e h = ground (arith, next_from-first_where guard e.pending e h)
