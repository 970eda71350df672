-- ===== src/Cursors/Restart.antt =====
-- The cursors of src/ws_collab/cursors.py and the file that they are read back from.
use ws_collab.Prelude.{
  ℕ, ◌≤◌, ◌≡◌, refl, sym, ap, subst, ◌∙◌, inl, inr, some, [], ◌∷◌, ◌++◌, map, append-nil,
  append_assoc, arith, Option-cases, length, last_items, All, length-last_items, last_items_short,
  nat_eq, Text, text_eq,
}
use ws_collab.Dict
use ws_collab.Dict.{Dict, put, get, values}
use ws_collab.Dict.Keys.{
  Distinct, put_absent, Distinct-before, Distinct-put, Distinct-pop, All-put, All-pop,
}
use ws_collab.Cursors
use ws_collab.Errors.{Result, ok, ◌>>=◌}
use ws_collab.Json.{Python, IsJsonLines, get_field, int_of}
use ws_collab.Cursors.{
  Manager, read_position, read_fields, position_json, history_of, load, entries_of, Position, key,
  saved, load_all, open_manager, max_history, save, history_or_empty, delete, entry_json, entry_of,
  moved_position, record_move, Risk, Action, Move,
}
use ws_collab.Json.Values.{
  required_text, text_or, text_of, number_or_zero, number_of, list_of, read_file,
  list_items-items_of,
}

-- Each position lies under the key of its stream and consumer, its history is bounded, and no key
-- stands twice.
abbrev IsPlaced : Text × Position → Type 0
IsPlaced x = (x.0 ≡ key x.1.stream x.1.consumer) × (length x.1.history ≤ max_history)

pub record IsKept (m : Manager) : Type 0 where
  pub placed : All IsPlaced m.cursors
  pub distinct : Distinct m.cursors
  pub on_disk : m.file ≡ some (saved m.cursors)

module _ (py : Python) (now : Text) where
  -- A position is read back from its entry.
  read_position-position_json :
      (p : Position)
      → length p.history ≤ max_history
      → read_position py now (position_json p) ≡ ok p
  unfolding read_position read_fields position_json required_text text_or text_of number_or_zero
      number_of int_of history_of list_of get_field
  read_position-position_json p h =
      ap (λ es. ok (record p { history = es }))
        (list_items-items_of (last_items max_history p.history)
          ∙ last_items_short max_history p.history h)

  load_all-saved :
      (d acc : Dict Text Position)
      → All IsPlaced d
      → Distinct (acc ++ d)
      → load_all py now (map position_json (values d)) acc ≡ ok (acc ++ d)
  unfolding load_all
  load_all-saved [] acc h u = ap ok (sym (append-nil acc))
  load_all-saved ((k, p) ∷ d) acc h u =
      let rest = map position_json (values d) in
      ap
        (λ (r : Result Position).
          r >>= λ q. load_all py now rest (Dict.put acc (key q.stream q.consumer) q))
        (read_position-position_json p h.0.1)
      ∙ ap (λ j. load_all py now rest (Dict.put acc j p)) (sym h.0.0)
      ∙ ap (load_all py now rest) (put_absent acc k p (Distinct-before acc d k p u))
      ∙ load_all-saved d (acc ++ (k, p) ∷ []) h.1
          (subst Distinct (sym (append_assoc acc ((k, p) ∷ []) d)) u)
      ∙ ap ok (append_assoc acc ((k, p) ∷ []) d)

  -- When the table of cursors is well formed and on disk, opening the file succeeds, and gives back
  -- each cursor with all its fields and its history, in the same order.
  pub open_manager-cursors :
      (m : Manager)
      → IsJsonLines py
      → IsKept m
      → open_manager py now m.file ≡ ok (record { cursors = m.cursors; file = m.file; audit = [] })
  unfolding open_manager read_file load entries_of saved list_of get_field
  open_manager-cursors m j h =
      rw
        (
          h.on_disk,
          j.loads-dumps (saved m.cursors),
          list_items-items_of (map position_json (values m.cursors)),
          load_all-saved m.cursors [] h.placed h.distinct,
        )
        refl

-- The history of a moved position is within its bound.
moved_position-bound :
    (now : Text) (r : Move) (a : Action) (k : Risk) (n : ℕ) (m : Manager)
    → length (record_move now r a k n m).0.history ≤ max_history
unfolding record_move moved_position
moved_position-bound now r a k n m =
    let es =
      history_or_empty (Cursors.get m r.stream r.consumer)
      ++ entry_json (entry_of now r a k n (Cursors.get m r.stream r.consumer)) ∷ [] in
    omega (arith, length-last_items max_history es)

-- Every move keeps the table of cursors well formed and writes it to disk.
pub record_move-IsKept :
    (now : Text) (r : Move) (a : Action) (k : Risk) (n : ℕ) (m : Manager)
    → IsKept m
    → IsKept (record_move now r a k n m).1
unfolding record_move save moved_position
record_move-IsKept now r a k n m h = record {
  placed =
      All-put IsPlaced m.cursors (key r.stream r.consumer) _
        (refl, moved_position-bound now r a k n m) h.placed;
  distinct = Distinct-put m.cursors (key r.stream r.consumer) _ h.distinct;
  on_disk = refl;
}

-- A deletion keeps the table of cursors well formed and on disk.
delete-IsKept :
    (now : Text) (m : Manager) (stream consumer : Text)
    → IsKept m
    → IsKept (delete now m stream consumer).1
unfolding delete save
delete-IsKept now m stream consumer h = elim (Option-cases (Cursors.get m stream consumer)) [
  | inl p ↦ rw (delete, p) h
  | inr (q, p) ↦
      rw (delete, p)
        (record {
          placed = All-pop IsPlaced m.cursors (key stream consumer) h.placed;
          distinct = Distinct-pop m.cursors (key stream consumer) h.distinct;
          on_disk = refl;
        })
]
