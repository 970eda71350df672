-- ===== src/Prompt/Versions.antt =====
-- The versions are numbered one by one, and an old one is brought back as it was.
use ws_collab.Texts.{decimal}
use ws_collab.Errors.{ok, Result, ◌>>=◌}
use ws_collab.Prelude.{
  ℕ, zero, suc, ◌+◌, ◌-◌, ◌≤◌, ◌<◌, ◌≡◌, refl, sym, ap, subst, ◌∙◌, false, some, List, [], ◌∷◌,
  ◌++◌, append-nil, append_assoc, arith, ltb, length, drop, last_items, All, length-append,
  length-drop, drop_zero, nat_eq, Text, codes, text_eq,
}
use ws_collab.Prompt.{
  Version, Manager, greatest_version, find_version, read_history, current_version, utf8_length,
  validate, saved_version, save, found_text, version_text, rollback,
}

-- The versions count up from a number.
abbrev pub NumberedFrom : ℕ → List Version → Type 0
NumberedFrom n [] = Unit
NumberedFrom n (v ∷ vs) = (v.version ≡ n) × NumberedFrom (suc n) vs

abbrev pub IsNumbered : Manager → Type 0
IsNumbered m = NumberedFrom 1 m.published

NumberedFrom-append :
    (n : ℕ) (vs : List Version) (v : Version)
    → NumberedFrom n vs
    → v.version ≡ n + length vs
    → NumberedFrom n (vs ++ v ∷ [])
NumberedFrom-append n [] v h e = (omega (arith, e), tt)
NumberedFrom-append n (w ∷ vs) v h e =
    (h.0, NumberedFrom-append (suc n) vs v h.1 (omega (arith, e)))

NumberedFrom-drop :
    (k n : ℕ) (vs : List Version)
    → NumberedFrom n vs
    → k ≤ length vs
    → NumberedFrom (n + k) (drop k vs)
NumberedFrom-drop zero n vs h b =
    let e : n ≡ n + 0 = omega arith in subst (λ i. NumberedFrom i vs) e h
NumberedFrom-drop (suc k) n [] h b = tt
NumberedFrom-drop (suc k) n (v ∷ vs) h b =
    let e : suc n + k ≡ n + suc k = omega arith in
    subst (λ i. NumberedFrom i (drop k vs)) e
      (NumberedFrom-drop k (suc n) vs h.1 (omega (arith, b)))

greatest_numbered :
    (n : ℕ) (vs : List Version)
    → NumberedFrom (suc n) vs
    → 1 ≤ length vs
    → greatest_version vs ≡ n + length vs
unfolding greatest_version
greatest_numbered n [] h b = absurd (omega arith)
greatest_numbered n (v ∷ []) h b = omega (arith, h.0)
greatest_numbered n (v ∷ w ∷ vs) h b =
    omega (arith, h.0, greatest_numbered (suc n) (w ∷ vs) h.1 (omega arith))

find_numbered :
    (n k : ℕ) (vs ws : List Version) (v : Version)
    → NumberedFrom n (vs ++ v ∷ ws)
    → k ≡ n + length vs
    → find_version k (vs ++ v ∷ ws) ≡ some v
unfolding find_version
find_numbered n k [] ws v h e = ground (arith, h.0, e)
find_numbered n k (w ∷ vs) ws v h e =
    ground (arith, h.0, e, find_numbered (suc n) k vs ws v h.1 (omega (arith, e)))

drop-append : (k : ℕ) (vs ws : List Version) → k ≤ length vs → drop k (vs ++ ws) ≡ drop k vs ++ ws
drop-append zero vs ws h = refl
drop-append (suc k) [] ws h = absurd (omega arith)
drop-append (suc k) (v ∷ vs) ws h = drop-append k vs ws (omega arith)

greatest_last :
    (limit : ℕ) (vs : List Version)
    → NumberedFrom 1 vs
    → 1 ≤ limit
    → greatest_version (last_items limit vs) ≡ length vs
unfolding greatest_version
greatest_last limit [] h b = rw (drop_zero {A = Version} [] (0 - limit) (omega arith)) refl
greatest_last limit (v ∷ vs) h b =
    let k = length (v ∷ vs) - limit in
    let e : 1 + k ≡ suc k = omega arith in
    let from_k =
      subst (λ i. NumberedFrom i (drop k (v ∷ vs))) e
        (NumberedFrom-drop k 1 (v ∷ vs) h (omega arith)) in
    let size = length-drop k (v ∷ vs) in
    omega (arith, greatest_numbered k (drop k (v ∷ vs)) from_k (omega (arith, size)), size)

-- A version that few enough have followed is found in the last items.
find_last :
    (limit : ℕ) (vs ws : List Version) (v : Version)
    → NumberedFrom 1 (vs ++ v ∷ ws)
    → length ws < limit
    → find_version (suc (length vs)) (last_items limit (vs ++ v ∷ ws)) ≡ some v
find_last limit vs ws v h b =
    let k = length (vs ++ v ∷ ws) - limit in
    let size = length-append vs (v ∷ ws) in
    let before : k ≤ length vs = omega (arith, size) in
    let e : 1 + k ≡ suc k = omega arith in
    let from_k =
      subst (λ i. NumberedFrom i (drop k (vs ++ v ∷ ws))) e
        (NumberedFrom-drop k 1 (vs ++ v ∷ ws) h (omega arith)) in
    let there = drop-append k vs (v ∷ ws) before in
    rw there (
      find_numbered (suc k) (suc (length vs)) (drop k vs) ws v
        (subst (NumberedFrom (suc k)) there from_k) (omega (arith, length-drop k vs)))

module _ (digest : Text → Text) (limit max_body_bytes : ℕ) (now operator : Text) where
  -- A text that is small enough.
  abbrev pub IsValid : Text → Type 0
  IsValid text = ltb max_body_bytes (utf8_length text) ≡ false

  -- Texts that are saved, one after the other.
  unfoldable pub saves : List Text → Manager → Result Manager
  saves [] m = ok m
  saves (text ∷ texts) m = do
    r ← save digest limit max_body_bytes now text operator [] m
    saves texts r.1

  abbrev pub after_save : Text → Text → Manager → Manager
  after_save text note m = record {
    file = some text;
    published =
        m.published ++ saved_version digest limit max_body_bytes now text operator note m ∷ [];
  }

  version-saved_version :
      (text note : Text) (m : Manager)
      → IsNumbered m
      → 1 ≤ limit
      → (saved_version digest limit max_body_bytes now text operator note m).version
        ≡ suc (length m.published)
  unfolding saved_version current_version read_history
  version-saved_version text note m h b = omega (arith, greatest_last limit m.published h b)

  save_valid :
      (text note : Text) (m : Manager)
      → IsValid text
      → IsNumbered m
      → 1 ≤ limit
      → save digest limit max_body_bytes now text operator note m
        ≡ ok ((suc (length m.published), digest text), after_save text note m)
  unfolding save validate saved_version
  save_valid text note m v h b =
      rw (save, validate, v)
        (ap (λ n. ok ((n, digest text), after_save text note m))
          (version-saved_version text note m h b))

  after_save-IsNumbered :
      (text note : Text) (m : Manager)
      → IsNumbered m
      → 1 ≤ limit
      → IsNumbered (after_save text note m)
  after_save-IsNumbered text note m h b =
      NumberedFrom-append 1 m.published _ h (omega (arith, version-saved_version text note m h b))

  saves_valid :
      (texts : List Text) (m : Manager)
      → All IsValid texts
      → IsNumbered m
      → 1 ≤ limit
      → (m' : Manager) × (vs : List Version) × ((saves texts m ≡ ok m')
          × ((IsNumbered m') × ((m'.published ≡ m.published ++ vs) × (length vs ≡ length texts))))
  unfolding saves
  saves_valid [] m v h b = (m, [], (refl, (h, (sym (append-nil m.published), refl))))
  saves_valid (text ∷ texts) m v h b =
      let w = saved_version digest limit max_body_bytes now text operator [] m in
      let (m', vs, (e, (n, (p, l)))) =
        saves_valid texts (after_save text [] m) v.1 (after_save-IsNumbered text [] m h b) b in
      (
        m',
        w ∷ vs,
        (
          rw (saves, save_valid text [] m v.0 h b) e,
          (n, (p ∙ append_assoc m.published (w ∷ []) vs, ap suc l)),
        ),
      )

  -- What a rollback to a version leaves, behind the versions that were there.
  pub record IsBack (a : Text) (m m' : Manager) : Type 0 where
    pub file_back : m'.file ≡ some a
    pub numbered : IsNumbered m'
    pub behind :
        (v : Version) × ((m'.published ≡ m.published ++ v ∷ [])
          × ((v.text ≡ a) × (v.version ≡ suc (length m.published))))

  -- When the versions are numbered, a text is saved and then fewer others than the history has room for,
  -- and none is too long, then all the saves succeed, and a rollback to the number of the first brings its
  -- text back, as one version more behind all that were there.
  pub rollback-saves :
      (a : Text) (texts : List Text) (m : Manager)
      → IsNumbered m
      → length texts < limit
      → All IsValid (a ∷ texts)
      → (m1 : Manager) × (m2 : Manager) × ((saves (a ∷ texts) m ≡ ok m1)
          × ((rollback digest limit max_body_bytes now (suc (length m.published)) operator m1
                ≡ ok ((suc (length m1.published), digest a), m2))
              × IsBack a m1 m2))
  unfolding saves rollback version_text read_history found_text saved_version
  rollback-saves a texts m h b v =
      let n = suc (length m.published) in
      let note = codes "rollback to v" ++ decimal n in
      let some_room : 1 ≤ limit = omega arith in
      let first = saved_version digest limit max_body_bytes now a operator [] m in
      let (m1, vs, (e, (k, (p, l)))) =
        saves_valid texts (after_save a [] m) v.1 (after_save-IsNumbered a [] m h some_room)
          some_room in
      let listed = p ∙ append_assoc m.published (first ∷ []) vs in
      let found : find_version n (last_items limit m1.published) ≡ some first = rw listed (
        find_last limit m.published vs first (subst (NumberedFrom 1) listed k)
          (omega (arith, l))) in
      (
        m1,
        after_save a note m1,
        (
          rw (saves, save_valid a [] m v.0 h some_room) e,
          (
            rw (rollback, version_text, read_history, found, found_text)
                (save_valid a note m1 v.0 k some_room),
            record {
              file_back = refl;
              numbered = after_save-IsNumbered a note m1 k some_room;
              behind = (
                saved_version digest limit max_body_bytes now a operator note m1,
                (refl, (refl, version-saved_version a note m1 k some_room)),
              );
            },
          ),
        ),
      )
