-- ===== src/Captions/Seen.antt =====
-- What a poll of src/ws_collab/meet_bridge/tracker.py leaves in the tables of the tracker.
use ws_collab.Prelude.{
  ℕ, ◌≡◌, refl, sym, subst, ◌∙◌, ◌⊎◌, inl, inr, Bool, true, false, not, Option, none, List, [], ◌∷◌,
  map, arith, ltb, if◌then◌else◌, Bool-cases, length, keep_if, All, ◌==◌, nat_eq, Text, text_eq,
}
use ws_collab.Texts.{is_in, strip}
use ws_collab.Dict
use ws_collab.Dict.{Dict, keys}
use ws_collab.Captions.Rows.{stabilize_keys}
use ws_collab.Captions.Updates.{
  unseen, relay, forget_row, forget_rows, update_rows, release_rows, active_dom_key, mirror_row,
  update_row, is_held,
}
use ws_collab.Captions.{Row, Tracker, queue_completed, or_default}

pop-All :
    (P : Text × Text → Type 0) (d : Dict Text Text) (k : Text)
    → All (λ e. P e ⊎ ((k == e.0) ≡ true)) d
    → All P (Dict.pop d k)
unfolding Dict.pop
pop-All P [] k h = tt
pop-All P ((j, v) ∷ d) k h = elim (Bool-cases (j == k)) [
  | inl p ↦ rw p (pop-All P d k h.1)
  | inr p ↦ rw p (
    elim h.0 [
      | inl q ↦ q
      | inr q ↦ absurd (ground (arith, p, q, text_eq.same_iff j k, text_eq.same_iff k j))
    ],
    pop-All P d k h.1,
  )
]

All-weaken :
    (P Q : Text × Text → Type 0) (d : Dict Text Text)
    → ((e : Text × Text) → P e → Q e)
    → All P d
    → All Q d
All-weaken P Q [] f h = tt
All-weaken P Q (e ∷ d) f h = (f e h.0, All-weaken P Q d f h.1)

forget_rows-All :
    (P : Text × Text → Type 0) (ks : List Text) (t : Tracker)
    → All (λ e. P e ⊎ (is_in ks e.0 ≡ true)) t.raw
    → All P (forget_rows ks t).raw
unfolding forget_rows forget_row is_in
forget_rows-All P [] t h =
    All-weaken _ P t.raw (λ e q. elim q [ inl p ↦ p | inr p ↦ absurd (ground (arith, p)) ]) h
forget_rows-All P (k ∷ ks) t h =
    forget_rows-All P ks (forget_row k t)
      (pop-All (λ e. P e ⊎ (is_in ks e.0 ≡ true)) t.raw k (All-weaken _ _ t.raw sort h))
  where
    sort :
        (e : Text × Text)
        → P e ⊎ (is_in (k ∷ ks) e.0 ≡ true)
        → (P e ⊎ (is_in ks e.0 ≡ true)) ⊎ ((k == e.0) ≡ true)
    sort e (inl p) = inl (inl p)
    sort e (inr p) = elim (Bool-cases (k == e.0)) [
      | inl q ↦ inr q
      | inr q ↦ inl (inr (ground (arith, p, q)))
    ]

is_in-unseen :
    (seen ks : List Text) (x : Text)
    → is_in ks x ≡ true
    → (is_in seen x ≡ true) ⊎ (is_in (unseen seen ks) x ≡ true)
unfolding is_in keep_if
is_in-unseen seen [] x h = absurd (ground (arith, h))
is_in-unseen seen (k ∷ ks) x h = elim (Bool-cases (k == x)) [
  | inl p ↦
      subst (λ y. (is_in seen y ≡ true) ⊎ (is_in (unseen seen (k ∷ ks)) y ≡ true))
        ((text_eq.same_iff k x).0 p) (kept (is_in seen k) refl)
  | inr p ↦ elim (is_in-unseen seen ks x (ground (arith, p, h))) [
    | inl q ↦ inl q
    | inr q ↦ inr (ground (arith, p, q))
  ]
]
  where
    kept :
        (b : Bool)
        → is_in seen k ≡ b
        → (is_in seen k ≡ true) ⊎ (is_in (unseen seen (k ∷ ks)) k ≡ true)
    kept true q = inl q
    kept false q = inr (ground (arith, q, text_eq.same_iff k k))

in_keys : (d : Dict Text Text) → All (λ e. is_in (keys d) e.0 ≡ true) d
unfolding is_in
in_keys [] = tt
in_keys ((k, v) ∷ d) =
    (ground (arith, text_eq.same_iff k k), All-weaken _ _ d (λ e p. ground (arith, p)) (in_keys d))

ready-forget_rows : (ks : List Text) (t : Tracker) → (forget_rows ks t).ready ≡ t.ready
unfolding forget_rows forget_row
ready-forget_rows [] t = refl
ready-forget_rows (k ∷ ks) t = ready-forget_rows ks (forget_row k t)

-- No table holds a row's key any more.
pub record IsForgotten (k : Text) (t : Tracker) : Type 0 where
  pub raw : Dict.get t.raw k ≡ none
  pub settled_len : Dict.get t.settled_len k ≡ none
  pub active_key : Dict.get t.active_key k ≡ none
  pub clone_seq : Dict.get t.clone_seq k ≡ none
  pub replaces : Dict.get t.replaces k ≡ none
  pub speakers : Dict.get t.speakers k ≡ none
  pub changed_at : Dict.get t.changed_at k ≡ none

get-pop_same {ℓ} :
    {V : Type ℓ} (d : Dict Text V) (k j : Text) → (k == j) ≡ true → Dict.get (Dict.pop d k) j ≡ none
get-pop_same d k j p = rw (Dict.get-pop d k j, p) refl

get-pop_gone {ℓ} :
    {V : Type ℓ} (d : Dict Text V) (k j : Text)
    → Dict.get d j ≡ none
    → Dict.get (Dict.pop d k) j ≡ none
get-pop_gone d k j h = elim (Bool-cases (k == j)) [
  | inl p ↦ get-pop_same d k j p
  | inr p ↦ rw (Dict.get-pop d k j, p) h
]

forget_row-IsForgotten : (k : Text) (t : Tracker) → IsForgotten k (forget_row k t)
unfolding forget_row
forget_row-IsForgotten k t =
    let same = (text_eq.same_iff k k).1 refl in
    record {
      raw = get-pop_same t.raw k k same;
      settled_len = get-pop_same t.settled_len k k same;
      active_key = get-pop_same t.active_key k k same;
      clone_seq = get-pop_same t.clone_seq k k same;
      replaces = get-pop_same t.replaces k k same;
      speakers = get-pop_same t.speakers k k same;
      changed_at = get-pop_same t.changed_at k k same;
    }

IsForgotten-forget_row :
    (j k : Text) (t : Tracker) → IsForgotten j t → IsForgotten j (forget_row k t)
unfolding forget_row
IsForgotten-forget_row j k t h = record {
  raw = get-pop_gone t.raw k j h.raw;
  settled_len = get-pop_gone t.settled_len k j h.settled_len;
  active_key = get-pop_gone t.active_key k j h.active_key;
  clone_seq = get-pop_gone t.clone_seq k j h.clone_seq;
  replaces = get-pop_gone t.replaces k j h.replaces;
  speakers = get-pop_gone t.speakers k j h.speakers;
  changed_at = get-pop_gone t.changed_at k j h.changed_at;
}

IsForgotten-forget_rows :
    (j : Text) (ks : List Text) (t : Tracker) → IsForgotten j t → IsForgotten j (forget_rows ks t)
unfolding forget_rows
IsForgotten-forget_rows j [] t h = h
IsForgotten-forget_rows j (k ∷ ks) t h =
    IsForgotten-forget_rows j ks (forget_row k t) (IsForgotten-forget_row j k t h)

forget_rows-IsForgotten :
    (j : Text) (ks : List Text) (t : Tracker) → is_in ks j ≡ true → IsForgotten j (forget_rows ks t)
unfolding forget_rows is_in
forget_rows-IsForgotten j [] t h = absurd (ground (arith, h))
forget_rows-IsForgotten j (k ∷ ks) t h = elim (Bool-cases (k == j)) [
  | inl p ↦ IsForgotten-forget_rows j ks (forget_row k t) (
      subst (λ x. IsForgotten x (forget_row k t)) ((text_eq.same_iff k j).0 p)
        (forget_row-IsForgotten k t))
  | inr p ↦ forget_rows-IsForgotten j ks (forget_row k t) (ground (arith, p, h))
]

-- A row that has a text keeps one.
abbrev HasText : Text → Tracker → Type 0
HasText k t = is_in (keys t.raw) k ≡ true

is_in-put :
    (d : Dict Text Text) (j v k : Text)
    → is_in (keys d) k ≡ true
    → is_in (keys (Dict.put d j v)) k ≡ true
unfolding is_in Dict.put
is_in-put [] j v k h = absurd (ground (arith, h))
is_in-put ((i, w) ∷ d) j v k h = elim (Bool-cases (i == j)) [
  | inl p ↦ rw p h
  | inr p ↦ rw p (ground (arith, h, is_in-put d j v k))
]

queue_completed-raw : (k s x : Text) (t : Tracker) → (queue_completed k s x t).raw ≡ t.raw
unfolding queue_completed
queue_completed-raw k s x t = ground arith

either {ℓ} :
    {A : Type ℓ} → (P : A → Type 0) (b : Bool) (x y : A) → P x → P y → P (if b then x else y)
either P true x y h k = h
either P false x y h k = k

update_row-HasText :
    (settle now : ℕ) (active : Option Text) (k : Text) (t : Tracker) (row : Row)
    → HasText k t
    → HasText k (update_row settle now active t row)
unfolding update_row mirror_row
update_row-HasText settle now active k t row h =
    let text = strip row.text in
    let previous = or_default [] (Dict.get t.raw row.key) in
    let named : Tracker = record t { speakers = Dict.put t.speakers row.key row.speaker } in
    let mirrored = mirror_row now row.key previous text named in
    let kept = is_in-put t.raw row.key text k h in
    either (HasText k) (ltb (length text) 2) named
      (if is_held settle now active row.key (not (previous == text)) mirrored
        then mirrored
        else queue_completed row.key row.speaker text mirrored)
      h
      (either (HasText k) (is_held settle now active row.key (not (previous == text)) mirrored)
        mirrored (queue_completed row.key row.speaker text mirrored) kept
        (subst (λ d. is_in (keys d) k ≡ true)
          (sym (queue_completed-raw row.key row.speaker text mirrored)) kept))

update_rows-HasText :
    (settle now : ℕ) (active : Option Text) (k : Text) (rows : List Row) (t : Tracker)
    → HasText k t
    → HasText k (update_rows settle now active t rows)
unfolding update_rows
update_rows-HasText settle now active k [] t h = h
update_rows-HasText settle now active k (row ∷ rows) t h =
    update_rows-HasText settle now active k rows (update_row settle now active t row)
      (update_row-HasText settle now active k t row h)

release_rows-raw : (ks : List Text) (t : Tracker) → (release_rows ks t).raw ≡ t.raw
unfolding release_rows
release_rows-raw [] t = refl
release_rows-raw (k ∷ ks) t = release_rows-raw ks _ ∙ queue_completed-raw k _ _ t

-- After a poll behind the baseline nothing is left to be emitted, every row whose text is kept is shown,
-- and a row whose text was kept and that is not shown any more is in no table.
pub relay-seen :
    (settle now : ℕ) (rows : List Row) (live_keys : List Text) (t : Tracker)
    → let seen = map (λ row. row.key) (stabilize_keys rows live_keys t).0 in
      let after = (relay settle now rows live_keys t).1 in
      (after.ready ≡ [])
      × All (λ e. is_in seen e.0 ≡ true) after.raw
      × ((k : Text) → is_in (keys t.raw) k ≡ true → is_in seen k ≡ false → IsForgotten k after)
unfolding relay
relay-seen settle now rows live_keys t =
    let (stable, live, remap) = stabilize_keys rows live_keys t in
    let seen = map (λ (row : Row). row.key) stable in
    let updated = update_rows settle now (active_dom_key live stable) t stable in
    let released = release_rows (unseen seen (keys updated.raw)) updated in
    let ks = unseen seen (keys released.raw) in
    (
      ready-forget_rows ks (record released { ready = [] }),
      forget_rows-All (λ e. is_in seen e.0 ≡ true) ks (record released { ready = [] })
          (All-weaken _ _ released.raw (λ e. is_in-unseen seen (keys released.raw) e.0)
            (in_keys released.raw)),
      (λ k h gone.
          let there : is_in (keys released.raw) k ≡ true =
            subst (λ d. is_in (keys d) k ≡ true)
              (sym (release_rows-raw (unseen seen (keys updated.raw)) updated))
              (update_rows-HasText settle now (active_dom_key live stable) k stable t h) in
          elim (is_in-unseen seen (keys released.raw) k there) [
            | inl p ↦ absurd (ground (arith, p, gone))
            | inr p ↦ forget_rows-IsForgotten k ks (record released { ready = [] }) p
          ]),
    )
