-- ===== src/Examples/Codec.antt =====
-- A small prefix code for JSON values that meets what the store relies on. It stands for Python's
-- `json` module in the examples.
use ws_collab.Prelude.{
  ℕ, zero, suc, ◌+◌, ◌-◌, ◌≤◌, ◌≡◌, refl, sym, ap, ◌∙◌, true, false, Option, none, some, [], ◌∷◌,
  ◌++◌, append-nil, append_assoc, arith, if◌then◌else◌, length, length-append, ◌==◌, nat_eq, Text,
  codes, text_eq,
}
use ws_collab.Lines.{Bytes, is_blank, NoNewline}
use ws_collab.Json.{
  Json, Items, Fields, null, bool, num, str, arr, obj, nil, cons, end, field, Python, IsJsonLines,
}

dump_text : Text → Bytes
dump_text [] = 0 ∷ []
dump_text (c ∷ s) = (c + 11) ∷ dump_text s

mutual
  pub dump : Json → Bytes
  dump null = 0 ∷ []
  dump (bool false) = 1 ∷ []
  dump (bool true) = 2 ∷ []
  dump (num n) = 3 ∷ (n + 11) ∷ []
  dump (str s) = 4 ∷ dump_text s
  dump (arr xs) = 5 ∷ dump_items xs
  dump (obj fs) = 6 ∷ dump_fields fs

  dump_items : Items → Bytes
  dump_items nil = 0 ∷ []
  dump_items (cons x xs) = 1 ∷ (dump x ++ dump_items xs)

  dump_fields : Fields → Bytes
  dump_fields end = 0 ∷ []
  dump_fields (field k v fs) = 1 ∷ (dump_text k ++ (dump v ++ dump_fields fs))

parse_text : Bytes → Text × Bytes
parse_text [] = ([], [])
parse_text (zero ∷ r) = ([], r)
parse_text (suc n ∷ r) = let (s, r') = parse_text r in ((suc n - 11) ∷ s, r')

mutual
  parse : ℕ → Bytes → Json × Bytes
  parse zero r = (null, r)
  parse (suc f) [] = (null, [])
  parse (suc f) (zero ∷ r) = (null, r)
  parse (suc f) (suc zero ∷ r) = (bool false, r)
  parse (suc f) (suc (suc zero) ∷ r) = (bool true, r)
  parse (suc f) (suc (suc (suc zero)) ∷ []) = (null, [])
  parse (suc f) (suc (suc (suc zero)) ∷ n ∷ r) = (num (n - 11), r)
  parse (suc f) (suc (suc (suc (suc zero))) ∷ r) = let (s, r') = parse_text r in (str s, r')
  parse (suc f) (suc (suc (suc (suc (suc zero)))) ∷ r) =
      let (xs, r') = parse_items f r in (arr xs, r')
  parse (suc f) (suc (suc (suc (suc (suc (suc n))))) ∷ r) =
      let (fs, r') = parse_fields f r in (obj fs, r')

  parse_items : ℕ → Bytes → Items × Bytes
  parse_items zero r = (nil, r)
  parse_items (suc f) [] = (nil, [])
  parse_items (suc f) (zero ∷ r) = (nil, r)
  parse_items (suc f) (suc n ∷ r) =
      let (x, r') = parse f r in let (xs, r'') = parse_items f r' in (cons x xs, r'')

  parse_fields : ℕ → Bytes → Fields × Bytes
  parse_fields zero r = (end, r)
  parse_fields (suc f) [] = (end, [])
  parse_fields (suc f) (zero ∷ r) = (end, r)
  parse_fields (suc f) (suc n ∷ r) =
      let (k, r') = parse_text r in
      let (v, r'') = parse f r' in let (fs, r3) = parse_fields f r'' in (field k v fs, r3)

parse_text-dump : (s : Text) (r : Bytes) → parse_text (dump_text s ++ r) ≡ (s, r)
unfolding parse_text dump_text
parse_text-dump [] r = refl
parse_text-dump (c ∷ s) r =
    let up : c + 11 ≡ suc (c + 10) = omega arith in
    let down : suc (c + 10) - 11 ≡ c = omega arith in rw (up, parse_text-dump s r, down)

mutual
  unfolding parse parse_items parse_fields dump dump_items dump_fields

  parse-dump : (j : Json) (f : ℕ) (r : Bytes) → length (dump j) ≤ f → parse f (dump j ++ r) ≡ (j, r)
  parse-dump null (suc f) r h = refl
  parse-dump (bool false) (suc f) r h = refl
  parse-dump (bool true) (suc f) r h = refl
  parse-dump (num n) (suc f) r h = ap (λ (m : ℕ). (num m, r)) (omega arith)
  parse-dump (str s) (suc f) r h = rw (parse_text-dump s r)
  parse-dump (arr xs) (suc f) r h = rw (parse-dump_items xs f r (omega arith))
  parse-dump (obj fs) (suc f) r h = rw (parse-dump_fields fs f r (omega arith))
  parse-dump (bool true) zero r h = absurd (omega arith)
  parse-dump (bool false) zero r h = absurd (omega arith)
  parse-dump _ zero r h = absurd (omega arith)

  parse-dump_items :
      (xs : Items) (f : ℕ) (r : Bytes)
      → length (dump_items xs) ≤ f
      → parse_items f (dump_items xs ++ r) ≡ (xs, r)
  parse-dump_items nil (suc f) r h = refl
  parse-dump_items (cons x xs) (suc f) r h =
      let l = length-append (dump x) (dump_items xs) in
      rw (
        append_assoc (dump x) (dump_items xs) r,
        parse-dump x f (dump_items xs ++ r) (omega arith),
        parse-dump_items xs f r (omega arith),
      )
  parse-dump_items nil zero r h = absurd (omega arith)
  parse-dump_items (cons x xs) zero r h = absurd (omega arith)

  parse-dump_fields :
      (fs : Fields) (f : ℕ) (r : Bytes)
      → length (dump_fields fs) ≤ f
      → parse_fields f (dump_fields fs ++ r) ≡ (fs, r)
  parse-dump_fields end (suc f) r h = refl
  parse-dump_fields (field k v fs) (suc f) r h =
      let l = length-append (dump v) (dump_fields fs) in
      let m = length-append (dump_text k) (dump v ++ dump_fields fs) in
      rw (
        append_assoc (dump_text k) (dump v ++ dump_fields fs) r,
        append_assoc (dump v) (dump_fields fs) r,
        parse_text-dump k (dump v ++ (dump_fields fs ++ r)),
        parse-dump v f (dump_fields fs ++ r) (omega arith),
        parse-dump_fields fs f r (omega arith),
      )
  parse-dump_fields end zero r h = absurd (omega arith)
  parse-dump_fields (field k v fs) zero r h = absurd (omega arith)

NoNewline-append : (xs ys : Bytes) → NoNewline xs → NoNewline ys → NoNewline (xs ++ ys)
NoNewline-append [] ys h k = k
NoNewline-append (x ∷ xs) ys h k = (h.0, NoNewline-append xs ys h.1 k)

NoNewline-text : (s : Text) → NoNewline (dump_text s)
unfolding dump_text
NoNewline-text [] = (refl, tt)
NoNewline-text (c ∷ s) = (ground arith, NoNewline-text s)

mutual
  unfolding dump dump_items dump_fields

  NoNewline-dump : (j : Json) → NoNewline (dump j)
  NoNewline-dump null = (refl, tt)
  NoNewline-dump (bool false) = (refl, tt)
  NoNewline-dump (bool true) = (refl, tt)
  NoNewline-dump (num n) = (refl, (ground arith, tt))
  NoNewline-dump (str s) = (refl, NoNewline-text s)
  NoNewline-dump (arr xs) = (refl, NoNewline-items xs)
  NoNewline-dump (obj fs) = (refl, NoNewline-fields fs)

  NoNewline-items : (xs : Items) → NoNewline (dump_items xs)
  NoNewline-items nil = (refl, tt)
  NoNewline-items (cons x xs) =
      (refl, NoNewline-append (dump x) (dump_items xs) (NoNewline-dump x) (NoNewline-items xs))

  NoNewline-fields : (fs : Fields) → NoNewline (dump_fields fs)
  NoNewline-fields end = (refl, tt)
  NoNewline-fields (field k v fs) = (
    refl,
    NoNewline-append (dump_text k) (dump v ++ dump_fields fs) (NoNewline-text k)
        (NoNewline-append (dump v) (dump_fields fs) (NoNewline-dump v) (NoNewline-fields fs)),
  )

dump_not_blank : (j : Json) → is_blank (dump j) ≡ false
unfolding dump is_blank
dump_not_blank null = refl
dump_not_blank (bool false) = refl
dump_not_blank (bool true) = refl
dump_not_blank (num n) = refl
dump_not_blank (str s) = refl
dump_not_blank (arr xs) = refl
dump_not_blank (obj fs) = refl

-- A dump is taken whole or not at all.
pub load : Bytes → Option Json
load bs = let (j, rest) = parse (length bs) bs in if rest == [] then some j else none

load-dump : (j : Json) → load (dump j) ≡ some j
unfolding load
load-dump j =
    let p : parse (length (dump j)) (dump j) ≡ (j, []) =
      ap (parse (length (dump j))) (sym (append-nil (dump j)))
      ∙ parse-dump j (length (dump j)) [] (omega arith) in
    rw p

abbrev pub python : Python
python = record { dumps = dump; loads = load; render = λ j. codes "None"; read_int = λ s. none }

pub python-IsJsonLines : IsJsonLines python
python-IsJsonLines = record {
  loads-dumps = load-dump;
  no_newline = NoNewline-dump;
  not_blank = dump_not_blank;
}
