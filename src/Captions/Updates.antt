-- ===== src/Captions/Updates.antt =====
-- src/ws_collab/meet_bridge/tracker.py: `update`, row by row and as a whole.
use ws_collab.Prelude.{
  ℕ, ◌-◌, Bool, true, false, not, ◌&&◌, ◌||◌, Option, none, some, List, [], ◌∷◌, map, ltb,
  if◌then◌else◌, length, take, keep_if, ◌==◌, nat_eq, Text, codes, text_eq,
}
use ws_collab.Dict
use ws_collab.Dict.{Dict, keys}
use ws_collab.Texts.{is_in, strip, starts_with}
use ws_collab.Captions.Rows.{signature_eq, Signature, snapshot, replace_baseline, stabilize_keys}
use ws_collab.Captions.{Row, Tracker, or_default, queue_completed, Ready}

-- One row of `update`.
unfoldable pub is_held : ℕ → ℕ → Option Text → Text → Bool → Tracker → Bool
is_held settle now active dom_key changed t = elim active [
  | none ↦ false
  | some key ↦
      dom_key == key
      && (changed || ltb (now - or_default now (Dict.get t.changed_at dom_key)) settle)
]

unfoldable pub mirror_row : ℕ → Text → Text → Text → Tracker → Tracker
mirror_row now dom_key previous text t =
    let prefix = take (or_default 0 (Dict.get t.settled_len dom_key)) previous in
    record t {
      settled_len =
          if not (prefix == []) && not (starts_with prefix text)
          then Dict.put t.settled_len dom_key 0
          else t.settled_len;
      raw = Dict.put t.raw dom_key text;
      changed_at = if previous == text then t.changed_at else Dict.put t.changed_at dom_key now;
    }

unfoldable pub update_row : ℕ → ℕ → Option Text → Tracker → Row → Tracker
update_row settle now active t row =
    let text = strip row.text in
    let previous = or_default [] (Dict.get t.raw row.key) in
    let named : Tracker = record t { speakers = Dict.put t.speakers row.key row.speaker } in
    let mirrored = mirror_row now row.key previous text named in
    if ltb (length text) 2
    then named
    else if is_held settle now active row.key (not (previous == text)) mirrored
    then mirrored
    else queue_completed row.key row.speaker text mirrored

unfoldable pub update_rows : ℕ → ℕ → Option Text → Tracker → List Row → Tracker
update_rows settle now active t [] = t
update_rows settle now active t (row ∷ rows) =
    update_rows settle now active (update_row settle now active t row) rows

-- The keys of the rows that are gone.
abbrev pub unseen : List Text → List Text → List Text
unseen seen = keep_if (λ key. not (is_in seen key))

-- What the rows that are gone have held back is released.
unfoldable pub release_rows : List Text → Tracker → Tracker
release_rows [] t = t
release_rows (key ∷ keys) t = release_rows keys (
    queue_completed key (or_default (codes "Speaker") (Dict.get t.speakers key))
      (or_default [] (Dict.get t.raw key)) t)

unfoldable pub forget_row : Text → Tracker → Tracker
forget_row key t = record t {
  raw = Dict.pop t.raw key;
  settled_len = Dict.pop t.settled_len key;
  active_key = Dict.pop t.active_key key;
  clone_seq = Dict.pop t.clone_seq key;
  replaces = Dict.pop t.replaces key;
  speakers = Dict.pop t.speakers key;
  changed_at = Dict.pop t.changed_at key;
}

unfoldable pub forget_rows : List Text → Tracker → Tracker
forget_rows [] t = t
forget_rows (key ∷ keys) t = forget_rows keys (forget_row key t)

abbrev pub last_row_key : List Row → Option Text
last_row_key [] = none
last_row_key (row ∷ []) = some row.key
last_row_key (row ∷ next ∷ rows) = last_row_key (next ∷ rows)

abbrev pub active_dom_key : List Text → List Row → Option Text
active_dom_key [] rows = last_row_key rows
active_dom_key (key ∷ []) rows = some key
active_dom_key (key ∷ next ∷ live_keys) rows = active_dom_key (next ∷ live_keys) rows

-- The part of `update` behind the baseline: what is emitted, and the tracker.
unfoldable pub relay : ℕ → ℕ → List Row → List Text → Tracker → List Ready × Tracker
relay settle now rows live_keys t =
    let (stable, live, remap) = stabilize_keys rows live_keys t in
    let seen = map (λ row. row.key) stable in
    let updated = update_rows settle now (active_dom_key live stable) t stable in
    let released = release_rows (unseen seen (keys updated.raw)) updated in
    (released.ready, forget_rows (unseen seen (keys released.raw)) (record released { ready = [] }))

unfoldable pub has_text : List Signature → Bool
has_text [] = false
has_text (x ∷ xs) = not (x.1 == []) || has_text xs

unfoldable pub same_snapshot : List Signature → List Signature → Bool
same_snapshot [] [] = true
same_snapshot (x ∷ xs) (y ∷ ys) = x == y && same_snapshot xs ys
same_snapshot _ _ = false

unfoldable pub first_baseline : ℕ → ℕ → List Row → Tracker → Tracker
first_baseline settle now rows t = replace_baseline rows now (record t {
  baselined = true;
  baseline_snapshot = snapshot rows;
  baseline_changed_at = now;
  baseline_warming = ltb 0 settle && has_text (snapshot rows);
})

unfoldable pub warm : ℕ → ℕ → List Row → List Text → Tracker → List Ready × Tracker
warm settle now rows live_keys t =
    if not (same_snapshot (snapshot rows) t.baseline_snapshot)
    then (
      [],
      replace_baseline rows now
          (record t { baseline_snapshot = snapshot rows; baseline_changed_at = now }),
    )
    else if ltb (now - t.baseline_changed_at) settle
    then ([], t)
    else relay settle now rows live_keys (record t { baseline_warming = false })

-- `update`
unfoldable pub update : ℕ → ℕ → List Row → List Text → Tracker → List Ready × Tracker
update settle now rows live_keys t =
    if not t.baselined
    then elim rows [
      | [] ↦ ([], t)
      | row ∷ others ↦ ([], first_baseline settle now (row ∷ others) t)
    ]
    else if t.baseline_warming
    then warm settle now rows live_keys t
    else relay settle now rows live_keys t
