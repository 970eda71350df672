-- ===== src/Tts/Playback.antt =====
-- src/ws_collab/tts/engine.py: which item is spoken next, and `process_next`. Where `process_next`
-- waits for the playback, other calls come in between, so it is two steps: `begin` and `finish`.
use ws_collab.Prelude.{
  ℕ, Bool, true, false, ◌||◌, Option, none, some, List, [], ◌∷◌, ◌++◌, if◌then◌else◌, text_eq,
}
use ws_collab.Texts.{is_in}
use ws_collab.Dict
use ws_collab.Dict.{Dict, get, put, pop}
use ws_collab.Tts.{
  floor_eq, Item, Engine, FloorKey, by_text, Grant, started, speech_started, ended, is_blocked,
  floor_matches, remove_item, sort_items,
}

-- The key that `_next_item` looks a grant up by: `str(item.meeting_url or "")`.
abbrev pub next_key : Item → FloorKey
next_key item = by_text item.meeting_url

unfoldable pub has_grant : Item → Option Grant → Bool
has_grant item none = false
has_grant item (some grant) = floor_matches item grant

module _ (guard : Option (Item → Bool)) where
  -- One item of the loop: it is dropped, passed over or taken.
  pub data Choice : Type 0 where
    drop_it pass_over take_it take_with_floor : Choice

  unfoldable pub choose : Item → Engine → Choice
  choose item e =
      if item.cancelled || is_in e.muted_agents item.agent_id
      then drop_it
      else if is_in e.paused_agents item.agent_id || is_blocked guard item
      then pass_over
      else if item.requires_floor
      then if has_grant item (Dict.get e.floor_open (next_key item))
        then take_with_floor
        else pass_over
      else take_it

  -- The loop over a copy of the queue.
  unfoldable pub next_from : List Item → Engine → Option Item × Engine
  next_from [] e = (none, e)
  next_from (item ∷ items) e =
      let without : Engine = record e { pending = remove_item item e.pending } in
      elim (choose item e) [
        | drop_it ↦ next_from items without
        | pass_over ↦ next_from items e
        | take_it ↦ (some item, without)
        | take_with_floor ↦ (
          some (record item { requires_floor = false }),
          record without { floor_open = Dict.pop e.floor_open (next_key item) },
        )
      ]

  -- `_next_item`
  unfoldable pub next_item : Engine → Option Item × Engine
  next_item e = if e.paused_global then (none, e) else next_from e.pending e

-- `process_next` up to the playback, for an item. The guard is asked once more, and may have changed.
unfoldable pub begin_item : ℕ → Option (Item → Bool) → Option Item → Engine → Bool × Engine
begin_item now guard none e = (false, e)
begin_item now guard (some item) e =
    if is_blocked guard item
    then (false, record e { current = none; pending = sort_items (e.pending ++ item ∷ []) })
    else (
      true,
      record e {
        current = some item;
        last_spoken =
            Dict.put e.last_spoken item.agent_id
              (record { text = item.text; voice_id = item.voice_id; at = now });
        published = e.published ++ started item.id ∷ speech_started item.id ∷ [];
      },
    )

unfoldable pub begin : ℕ → Option (Item → Bool) → Option (Item → Bool) → Engine → Bool × Engine
begin now guard again e = let n = next_item guard e in begin_item now again n.0 n.1

-- The rest of `process_next`, once the playback has ended or failed.
unfoldable pub finish : Engine → Engine
finish e = elim e.current [
  | none ↦ e
  | some item ↦ record e {
    current = none;
    published = e.published ++ ended item.id item.cancelled ∷ [];
  }
]
