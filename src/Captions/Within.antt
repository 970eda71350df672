-- ===== src/Captions/Within.antt =====
-- The offset of a row stays within the row's text.
use ws_collab.Texts.{starts_with}
use ws_collab.Captions.Updates.{mirror_row}
use ws_collab.Prelude.{
  ℕ, ◌+◌, ◌≤◌, ◌≡◌, refl, sym, ap, subst, ◌∙◌, inl, inr, Bool, true, false, not, ◌&&◌, some, List,
  [], ◌∷◌, arith, if◌then◌else◌, Bool-cases, length, take, drop, length-append, length-drop, ◌==◌,
  nat_eq, Text, text_eq,
}
use ws_collab.Dict
use ws_collab.Dict.{Dict}
use ws_collab.Captions.{Tracker, Progress, or_default, queue_completed, begin_progress}
use ws_collab.Captions.Sentences.{
  pieces, settle_piece, settle_pieces, concat, pieces-concat, queue_completed-pieces, length-take,
}

abbrev pub settled_of : Tracker → Text → ℕ
settled_of t key = or_default 0 (Dict.get t.settled_len key)

abbrev pub text_of : Tracker → Text → Text
text_of t key = or_default [] (Dict.get t.raw key)

-- What is settled of each row is a part of its text.
abbrev pub IsWithin : Tracker → Type 0
IsWithin t = (key : Text) → settled_of t key ≤ length (text_of t key)

settled-settle_pieces :
    (dom_key speaker : Text) (ps : List Text) (p : Progress)
    → (settle_pieces dom_key speaker ps p).settled ≡ p.settled + length (concat ps)
unfolding settle_pieces settle_piece concat
settled-settle_pieces dom_key speaker [] p = omega arith
settled-settle_pieces dom_key speaker (x ∷ ps) p =
    let rest = settled-settle_pieces dom_key speaker ps (settle_piece dom_key speaker x p) in
    omega (arith, rest, length-append x (concat ps))

length-pieces : (t : Text) → length (concat (pieces t).0) ≤ length t
length-pieces t =
    let whole = ap length (pieces-concat t) in
    omega (arith, whole, length-append (concat (pieces t).0) (pieces t).1)

pub or_default-put {ℓ} :
    {A : Type ℓ} (d : A) (m : Dict Text A) (k : Text) (v : A) (j : Text)
    → or_default d (Dict.get (Dict.put m k v) j)
      ≡ (if k == j then v else or_default d (Dict.get m j))
or_default-put d m k v j = rw (Dict.get-put m k v j) (pull (k == j))
  where
    pull :
        (b : Bool)
        → or_default d (if b then some v else Dict.get m j)
          ≡ (if b then v else or_default d (Dict.get m j))
    pull true = refl
    pull false = refl

-- Where the text and the offset of one row are put, the other rows are as they were.
pub put-IsWithin :
    (raw : Dict Text Text) (settled : Dict Text ℕ) (k : Text) (text : Text) (n : ℕ)
    → n ≤ length text
    → ((j : Text) → or_default 0 (Dict.get settled j) ≤ length (or_default [] (Dict.get raw j)))
    → (j : Text)
    → or_default 0 (Dict.get (Dict.put settled k n) j)
      ≤ length (or_default [] (Dict.get (Dict.put raw k text) j))
put-IsWithin raw settled k text n b h j =
    rw (or_default-put 0 settled k n j, or_default-put [] raw k text j) (choose (k == j))
  where
    choose :
        (b : Bool)
        → (if b then n else or_default 0 (Dict.get settled j))
          ≤ length (if b then text else or_default [] (Dict.get raw j))
    choose true = b
    choose false = h j

pub queue_completed-IsWithin :
    (dom_key speaker text : Text) (t : Tracker)
    → text_of t dom_key ≡ text
    → IsWithin t
    → IsWithin (queue_completed dom_key speaker text t)
queue_completed-IsWithin dom_key speaker text t e h key =
    let p = begin_progress dom_key t in
    let ps = (pieces (drop p.settled text)).0 in
    let n = (settle_pieces dom_key speaker ps p).settled in
    let here : p.settled ≤ length text = rw⁻¹ e (h dom_key) in
    let bound : n ≤ length text = omega (
      arith,
      here,
      settled-settle_pieces dom_key speaker ps p,
      length-pieces (drop p.settled text),
      length-drop p.settled text,
    ) in
    rw (queue_completed-pieces dom_key speaker text t, or_default-put 0 t.settled_len dom_key n key)
      (choose n bound (dom_key == key) (text_eq.same_iff dom_key key).0)
  where
    choose :
        (n : ℕ)
        → n ≤ length text
        → (b : Bool) → (b ≡ true → dom_key ≡ key)
        → (if b then n else settled_of t key) ≤ length (text_of t key)
    choose n bound true same = rw (sym (same refl), e) bound
    choose n bound false same = h key

starts_with-length : (p t : Text) → starts_with p t ≡ true → length p ≤ length t
unfolding starts_with
starts_with-length [] t h = omega arith
starts_with-length (c ∷ p) [] h = cc
starts_with-length (c ∷ p) (d ∷ t) h = ground (arith, starts_with-length p t)

-- A settled part that the text still begins with, or that is empty, is within the text.
kept_prefix :
    (n : ℕ) (previous text : Text)
    → n ≤ length previous
    → (not (take n previous == []) && not (starts_with (take n previous) text)) ≡ false
    → n ≤ length text
kept_prefix n previous text b h =
    let size = length-take n previous b in
    elim (Bool-cases (take n previous == [])) [
      | inl p ↦
          let none_left = ap length ((text_eq.same_iff (take n previous) []).0 p) in
          omega (arith, size, none_left)
      | inr p ↦
          let begins : starts_with (take n previous) text ≡ true = ground (arith, p, h) in
          omega (arith, size, starts_with-length (take n previous) text begins)
    ]

-- A row that keeps its offset may have another text, if the offset is within that.
raw-IsWithin :
    (raw : Dict Text Text) (settled : Dict Text ℕ) (k text : Text)
    → or_default 0 (Dict.get settled k) ≤ length text
    → ((j : Text) → or_default 0 (Dict.get settled j) ≤ length (or_default [] (Dict.get raw j)))
    → (j : Text)
    → or_default 0 (Dict.get settled j) ≤ length (or_default [] (Dict.get (Dict.put raw k text) j))
raw-IsWithin raw settled k text b h j =
    rw (or_default-put [] raw k text j) (choose (k == j) (text_eq.same_iff k j).0)
  where
    choose :
        (c : Bool)
        → (c ≡ true → k ≡ j)
        → or_default 0 (Dict.get settled j)
          ≤ length (if c then text else or_default [] (Dict.get raw j))
    choose true same = subst (λ i. or_default 0 (Dict.get settled i) ≤ length text) (same refl) b
    choose false same = h j

pub mirror_row-IsWithin :
    (now : ℕ) (dom_key text : Text) (t : Tracker)
    → IsWithin t
    → IsWithin (mirror_row now dom_key (text_of t dom_key) text t)
unfolding mirror_row
mirror_row-IsWithin now dom_key text t h key =
    let prefix = take (settled_of t dom_key) (text_of t dom_key) in
    elim (Bool-cases (not (prefix == []) && not (starts_with prefix text))) [
      | inl p ↦
          rw (mirror_row, p) (put-IsWithin t.raw t.settled_len dom_key text 0 (omega arith) h key)
      | inr p ↦
          rw (mirror_row, p)
            (raw-IsWithin t.raw t.settled_len dom_key text (kept_prefix _ _ text (h dom_key) p) h
              key)
    ]

pub text_of-mirror_row :
    (now : ℕ) (dom_key previous text : Text) (t : Tracker)
    → text_of (mirror_row now dom_key previous text t) dom_key ≡ text
unfolding mirror_row
text_of-mirror_row now dom_key previous text t =
    or_default-put [] t.raw dom_key text dom_key
    ∙ ap (λ b. if b then text else text_of t dom_key) ((text_eq.same_iff dom_key dom_key).1 refl)
