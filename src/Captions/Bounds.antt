-- ===== src/Captions/Bounds.antt =====
-- Every poll keeps the offsets within the texts.
use ws_collab.Captions.Rows.{put_baseline, replace_baseline, snapshot}
use ws_collab.Texts.{strip}
use ws_collab.Captions.Updates.{
  mirror_row, is_held, update_row, update_rows, release_rows, forget_row, forget_rows, relay,
  first_baseline, warm, update, same_snapshot,
}
use ws_collab.Prelude.{
  ℕ, ◌-◌, ◌≤◌, ◌≡◌, refl, inl, inr, Bool, true, false, not, Option, none, List, [], ◌∷◌, arith, ltb,
  if◌then◌else◌, Bool-cases, length, ◌==◌, nat_eq, Text, text_eq,
}
use ws_collab.Dict
use ws_collab.Dict.{Dict}
use ws_collab.Captions.Within.{
  IsWithin, settled_of, text_of, put-IsWithin, queue_completed-IsWithin, mirror_row-IsWithin,
  text_of-mirror_row,
}
use ws_collab.Captions.Updates.{update}
use ws_collab.Captions.{Tracker, or_default, Row, Ready}

update_row-IsWithin :
    (settle now : ℕ) (active : Option Text) (t : Tracker) (row : Row)
    → IsWithin t
    → IsWithin (update_row settle now active t row)
unfolding update_row
update_row-IsWithin settle now active t row h =
    let text = strip row.text in
    let previous = text_of t row.key in
    let named : Tracker = record t { speakers = Dict.put t.speakers row.key row.speaker } in
    let mirrored = mirror_row now row.key previous text named in
    let kept = mirror_row-IsWithin now row.key text named h in
    elim (Bool-cases (ltb (length text) 2)) [
      | inl p ↦ rw (update_row, p) h
      | inr p ↦
          elim (Bool-cases (is_held settle now active row.key (not (previous == text)) mirrored)) [
            | inl q ↦ rw (update_row, p, q) kept
            | inr q ↦
                rw (update_row, p, q)
                  (queue_completed-IsWithin row.key row.speaker text mirrored
                    (text_of-mirror_row now row.key previous text named) kept)
          ]
    ]

update_rows-IsWithin :
    (settle now : ℕ) (active : Option Text) (t : Tracker) (rows : List Row)
    → IsWithin t
    → IsWithin (update_rows settle now active t rows)
unfolding update_rows
update_rows-IsWithin settle now active t [] h = h
update_rows-IsWithin settle now active t (row ∷ rows) h =
    update_rows-IsWithin settle now active (update_row settle now active t row) rows
      (update_row-IsWithin settle now active t row h)

release_rows-IsWithin : (ks : List Text) (t : Tracker) → IsWithin t → IsWithin (release_rows ks t)
unfolding release_rows
release_rows-IsWithin [] t h = h
release_rows-IsWithin (key ∷ ks) t h =
    release_rows-IsWithin ks _ (queue_completed-IsWithin key _ (text_of t key) t refl h)

or_default-pop {ℓ} :
    {A : Type ℓ} (d : A) (m : Dict Text A) (k j : Text)
    → or_default d (Dict.get (Dict.pop m k) j) ≡ (if k == j then d else or_default d (Dict.get m j))
or_default-pop d m k j = rw (Dict.get-pop m k j) (pull (k == j))
  where
    pull :
        (b : Bool)
        → or_default d (if b then none else Dict.get m j)
          ≡ (if b then d else or_default d (Dict.get m j))
    pull true = refl
    pull false = refl

forget_rows-IsWithin : (ks : List Text) (t : Tracker) → IsWithin t → IsWithin (forget_rows ks t)
unfolding forget_rows forget_row
forget_rows-IsWithin [] t h = h
forget_rows-IsWithin (k ∷ ks) t h = forget_rows-IsWithin ks (forget_row k t) popped
  where
    choose :
        (b : Bool) (j : Text)
        → (if b then 0 else settled_of t j) ≤ length (if b then [] else text_of t j)
    choose true j = omega arith
    choose false j = h j

    popped : (j : Text) → settled_of (forget_row k t) j ≤ length (text_of (forget_row k t) j)
    popped j =
        rw (or_default-pop 0 t.settled_len k j, or_default-pop [] t.raw k j) (choose (k == j) j)

put_baseline-IsWithin :
    (now : ℕ) (rows : List Row) (t : Tracker) → IsWithin t → IsWithin (put_baseline now t rows)
unfolding put_baseline
put_baseline-IsWithin now [] t h = h
put_baseline-IsWithin now (row ∷ rows) t h =
    let text = strip row.text in
    put_baseline-IsWithin now rows _
      (put-IsWithin t.raw t.settled_len row.key text (length text) (omega arith) h)

replace_baseline-IsWithin :
    (rows : List Row) (now : ℕ) (t : Tracker) → IsWithin (replace_baseline rows now t)
unfolding replace_baseline Dict.get
replace_baseline-IsWithin rows now t = put_baseline-IsWithin now rows _ (λ key. omega arith)

relay-IsWithin :
    (settle now : ℕ) (rows : List Row) (live_keys : List Text) (t : Tracker)
    → IsWithin t
    → IsWithin (relay settle now rows live_keys t).1
unfolding relay
relay-IsWithin settle now rows live_keys t h =
    forget_rows-IsWithin _ _ (release_rows-IsWithin _ _ (update_rows-IsWithin settle now _ t _ h))

-- What holds after both branches.
after_either :
    (b : Bool) (x y : List Ready × Tracker)
    → IsWithin x.1
    → IsWithin y.1
    → IsWithin (if b then x else y).1
after_either true x y h k = h
after_either false x y h k = k

warm-IsWithin :
    (settle now : ℕ) (rows : List Row) (live_keys : List Text) (t : Tracker)
    → IsWithin t
    → IsWithin (warm settle now rows live_keys t).1
unfolding warm
warm-IsWithin settle now rows live_keys t h =
    let seen = snapshot rows in
    let again : Tracker = record t { baseline_snapshot = seen; baseline_changed_at = now } in
    let warmed : Tracker = record t { baseline_warming = false } in
    let rest = relay settle now rows live_keys warmed in
    let waits = ltb (now - t.baseline_changed_at) settle in
    after_either (not (same_snapshot seen t.baseline_snapshot))
      ([], replace_baseline rows now again) (if waits then ([], t) else rest)
      (replace_baseline-IsWithin rows now again)
      (after_either waits ([], t) rest h (relay-IsWithin settle now rows live_keys warmed h))

-- After every poll, what is settled of each row is a part of the row's text, if it was before.
pub update-IsWithin :
    (settle now : ℕ) (rows : List Row) (live_keys : List Text) (t : Tracker)
    → IsWithin t
    → IsWithin (update settle now rows live_keys t).1
unfolding update first_baseline
update-IsWithin settle now rows live_keys t h =
    let warmed = warm settle now rows live_keys t in
    let relayed = relay settle now rows live_keys t in
    let later = if t.baseline_warming then warmed else relayed in
    let based : IsWithin later.1 =
      after_either t.baseline_warming warmed relayed (warm-IsWithin settle now rows live_keys t h)
        (relay-IsWithin settle now rows live_keys t h) in
    elim rows
      as (λ rows'.
        IsWithin
          (if not t.baselined
            then (elim rows' [
              | [] ↦ ([], t)
              | row ∷ others ↦ ([], first_baseline settle now (row ∷ others) t)
            ])
            else later).1) [
              | [] ↦ after_either (not t.baselined) ([], t) later h based
              | row ∷ others ↦
                  after_either (not t.baselined) ([], first_baseline settle now (row ∷ others) t)
                    later (replace_baseline-IsWithin (row ∷ others) now _) based
            ]
