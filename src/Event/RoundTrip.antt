-- ===== src/Event/RoundTrip.antt =====
-- Reading an event back from its dict form: `Event.from_dict(event.to_dict())`.
use ws_collab.Prelude.{
  ℕ, ◌≡◌, refl, sym, ap, ◌∙◌, inl, inr, true, false, Option, none, some, [], arith, if◌then◌else◌,
  Bool-cases, ◌==◌, Text, codes, text_eq,
}
use ws_collab.Json.{
  Json, Fields, end, field, get_field, put_field, set_default, get_field-put, get_field-set_default,
  str, str_of, int_of, Python, num, obj,
}
use ws_collab.Errors.{ok}
use ws_collab.Event.{
  is_reserved, add_extra, unreserved, put_optional, base_fields, Event, to_dict, text_or_none,
  of_seq, dict_or_empty, seq_or_none, text_field, version_field, from_dict, event_of,
}

-- The unknown fields that `from_dict` collects: none is reserved, and each stands once.
abbrev pub IsExtra : Fields → Type 0
IsExtra end = Unit
IsExtra (field k v fs) = (is_reserved k ≡ false) × (get_field fs k ≡ none) × IsExtra fs

-- No key of the second dict is in the first.
abbrev Apart : Fields → Fields → Type 0
Apart body end = Unit
Apart body (field k v fs) = (get_field body k ≡ none) × Apart body fs

abbrev AllReserved : Fields → Type 0
AllReserved end = Unit
AllReserved (field k v fs) = (is_reserved k ≡ true) × AllReserved fs

join : Fields → Fields → Fields
join end ys = ys
join (field k v xs) ys = field k v (join xs ys)

module _ (k : Text) (v : Json) where
  Apart-put :
      (body fs : Fields) → get_field fs k ≡ none → Apart body fs → Apart (put_field body k v) fs
  unfolding get_field
  Apart-put body end h a = tt
  Apart-put body (field j w fs) h a = (
    ground (arith, get_field-put body k v j, text_eq.same_iff j k, text_eq.same_iff k j, a.0),
    Apart-put body fs (ground arith) a.1,
  )

  unreserved-put :
      (body rest : Fields)
      → is_reserved k ≡ false
      → get_field body k ≡ none
      → join (unreserved (put_field body k v)) rest ≡ join (unreserved body) (field k v rest)
  unfolding get_field put_field unreserved join
  unreserved-put end rest r h = rw r
  unreserved-put (field j w body) rest r h = ground (arith, unreserved-put body rest r)

  not_in_reserved :
      (body : Fields) → AllReserved body → is_reserved k ≡ false → get_field body k ≡ none
  unfolding get_field
  not_in_reserved end h r = refl
  not_in_reserved (field j w body) h r =
      ground (arith, text_eq.same_iff j k, not_in_reserved body h.1 r)

Apart-reserved : (body fs : Fields) → AllReserved body → IsExtra fs → Apart body fs
Apart-reserved body end h x = tt
Apart-reserved body (field k v fs) h x =
    (not_in_reserved k v body h x.0, Apart-reserved body fs h x.2)

unreserved-reserved : (body : Fields) → AllReserved body → unreserved body ≡ end
unfolding unreserved
unreserved-reserved end h = refl
unreserved-reserved (field k v body) h = rw h.0 (unreserved-reserved body h.1)

join_end : (xs : Fields) → join xs end ≡ xs
unfolding join
join_end end = refl
join_end (field k v xs) = ap (field k v) (join_end xs)

set_default_new :
    (body : Fields) (k : Text) (v : Json)
    → get_field body k ≡ none
    → set_default body k v ≡ put_field body k v
unfolding set_default
set_default_new body k v h = rw (h, set_default) refl

unreserved-add_extra :
    (fs body : Fields)
    → IsExtra fs
    → Apart body fs
    → unreserved (add_extra body fs) ≡ join (unreserved body) fs
unfolding add_extra
unreserved-add_extra end body x a = sym (join_end (unreserved body))
unreserved-add_extra (field k v fs) body x a = rw (set_default_new body k v a.0) (
    unreserved-add_extra fs (put_field body k v) x.2 (Apart-put k v body fs x.1 a.1)
    ∙ unreserved-put k v body fs x.0 a.0)

-- A reserved key reads what the body holds.
get_field-add_extra :
    (fs body : Fields) (j : Text)
    → IsExtra fs
    → is_reserved j ≡ true
    → get_field (add_extra body fs) j ≡ get_field body j
unfolding add_extra
get_field-add_extra end body j x r = refl
get_field-add_extra (field k v fs) body j x r =
    get_field-add_extra fs (set_default body k v) j x.2 r
    ∙ ground (arith, get_field-set_default body k v j, text_eq.same_iff k j)

-- The body of `to_dict` before the extra fields.
abbrev body_of : Event → Fields
body_of e =
    put_optional (put_optional (base_fields e) (codes "correlation_id") e.correlation_id)
      (codes "idempotency_key") e.idempotency_key

AllReserved-put :
    (fs : Fields) (k : Text) (v : Json)
    → is_reserved k ≡ true
    → AllReserved fs
    → AllReserved (put_field fs k v)
unfolding put_field
AllReserved-put end k v r h = (r, tt)
AllReserved-put (field j w fs) k v r h = elim (Bool-cases (j == k)) [
  | inl p ↦ rw p h
  | inr p ↦ rw p (h.0, AllReserved-put fs k v r h.1)
]

AllReserved-put_optional :
    (fs : Fields) (k : Text) (o : Option Text)
    → is_reserved k ≡ true
    → AllReserved fs
    → AllReserved (put_optional fs k o)
unfolding put_optional
AllReserved-put_optional fs k none r h = h
AllReserved-put_optional fs k (some v) r h = AllReserved-put fs k (str v) r h

body_of-AllReserved : (e : Event) → AllReserved (body_of e)
unfolding base_fields is_reserved
body_of-AllReserved e = AllReserved-put_optional _ _ e.idempotency_key refl (
    AllReserved-put_optional _ _ e.correlation_id refl
      (refl, (refl, (refl, (refl, (refl, (refl, (refl, (refl, (refl, tt))))))))))

-- What a reserved key of the dict form holds.
get_field-to_dict :
    (e : Event) (j : Text)
    → IsExtra e.extra
    → is_reserved j ≡ true
    → get_field (to_dict e) j ≡ get_field (body_of e) j
unfolding to_dict
get_field-to_dict e j x r = get_field-add_extra e.extra (body_of e) j x r

unreserved-to_dict : (e : Event) → IsExtra e.extra → unreserved (to_dict e) ≡ e.extra
unfolding to_dict join
unreserved-to_dict e x =
    unreserved-add_extra e.extra (body_of e) x (Apart-reserved _ e.extra (body_of-AllReserved e) x)
    ∙ ap (λ z. join z e.extra) (unreserved-reserved _ (body_of-AllReserved e))

get_field-put_optional :
    (fs : Fields) (k : Text) (o : Option Text) (j : Text)
    → get_field (put_optional fs k o) j ≡ (elim o [
      | none ↦ get_field fs j
      | some v ↦ if k == j then some (str v) else get_field fs j
    ])
unfolding put_optional
get_field-put_optional fs k none j = refl
get_field-put_optional fs k (some v) j = get_field-put fs k (str v) j

text_or_none-elim :
    (o : Option Text) → text_or_none (elim o [ none ↦ none | some v ↦ some (str v) ]) ≡ o
unfolding text_or_none
text_or_none-elim none = refl
text_or_none-elim (some v) = refl

put_optional_ne :
    (fs : Fields) (k : Text) (o : Option Text) (j : Text)
    → (k == j) ≡ false
    → get_field (put_optional fs k o) j ≡ get_field fs j
put_optional_ne fs k none j h = get_field-put_optional fs k none j
put_optional_ne fs k (some v) j h = get_field-put_optional fs k (some v) j ∙ rw h

put_optional_self :
    (fs : Fields) (k : Text) (o : Option Text)
    → get_field fs k ≡ none
    → text_or_none (get_field (put_optional fs k o) k) ≡ o
unfolding text_or_none
put_optional_self fs k none h = rw (get_field-put_optional fs k none k, h)
put_optional_self fs k (some v) h =
    rw (get_field-put_optional fs k (some v) k, (text_eq.same_iff k k).1 refl)

module _ (e : Event) (x : IsExtra e.extra) where
  -- A key that is always there.
  plain :
      (j : Text)
      → is_reserved j ≡ true
      → (codes "correlation_id" == j) ≡ false
      → (codes "idempotency_key" == j) ≡ false
      → get_field (to_dict e) j ≡ get_field (base_fields e) j
  plain j r c i =
      get_field-to_dict e j x r
      ∙ put_optional_ne _ _ e.idempotency_key j i
      ∙ put_optional_ne _ _ e.correlation_id j c

  correlation : text_or_none (get_field (to_dict e) (codes "correlation_id")) ≡ e.correlation_id
  unfolding is_reserved base_fields get_field
  correlation =
      ap text_or_none (get_field-to_dict e _ x refl ∙ put_optional_ne _ _ e.idempotency_key _ refl)
      ∙ put_optional_self _ _ e.correlation_id refl

  idempotency : text_or_none (get_field (to_dict e) (codes "idempotency_key")) ≡ e.idempotency_key
  unfolding is_reserved base_fields get_field
  idempotency =
      ap text_or_none (get_field-to_dict e _ x refl)
      ∙ put_optional_self _ _ e.idempotency_key (put_optional_ne _ _ e.correlation_id _ refl)

  plain_values :
      (get_field (to_dict e) (codes "id") ≡ some (str e.id))
      × (get_field (to_dict e) (codes "stream") ≡ some (str e.stream))
      × (get_field (to_dict e) (codes "seq") ≡ some (of_seq e.seq))
      × (get_field (to_dict e) (codes "type") ≡ some (str e.type))
      × (get_field (to_dict e) (codes "ts") ≡ some (str e.ts))
      × (get_field (to_dict e) (codes "schema_version") ≡ some (num e.version))
      × (get_field (to_dict e) (codes "source_id") ≡ some (str e.source_id))
      × (get_field (to_dict e) (codes "source_kind") ≡ some (str e.source_kind))
      × (get_field (to_dict e) (codes "data") ≡ some (obj e.payload))
  unfolding is_reserved base_fields get_field
  plain_values = (
    plain _ refl refl refl,
    plain _ refl refl refl,
    plain _ refl refl refl,
    plain _ refl refl refl,
    plain _ refl refl refl,
    plain _ refl refl refl,
    plain _ refl refl refl,
    plain _ refl refl refl,
    plain _ refl refl refl,
  )

seq_or_none-of_seq : (o : Option ℕ) → seq_or_none (some (of_seq o)) ≡ o
unfolding seq_or_none
seq_or_none-of_seq none = refl
seq_or_none-of_seq (some n) = refl

-- The sequence number that a line carries.
pub to_dict-seq :
    (e : Event) → IsExtra e.extra → get_field (to_dict e) (codes "seq") ≡ some (of_seq e.seq)
to_dict-seq e x = (plain_values e x).2

-- The schema version that a line carries.
pub to_dict-version :
    (e : Event)
    → IsExtra e.extra
    → get_field (to_dict e) (codes "schema_version") ≡ some (num e.version)
to_dict-version e x = (plain_values e x).5

pub text_field-some :
    (py : Python) (raw : Fields) (k default s : Text)
    → get_field raw k ≡ some (str s)
    → text_field py raw k default ≡ s
unfolding text_field str_of
text_field-some py raw k default s h = rw (h, text_field) refl

event_of-to_dict :
    (py : Python) (e : Event) → IsExtra e.extra → event_of py (to_dict e) e.version ≡ e
unfolding event_of dict_or_empty
event_of-to_dict py e x =
    let p = plain_values e x in
    λ i. record {
      stream = text_field-some py (to_dict e) _ [] e.stream p.1 i;
      type = text_field-some py (to_dict e) _ [] e.type p.3 i;
      payload = ap dict_or_empty p.8 i;
      source_id = text_field-some py (to_dict e) _ (codes "system") e.source_id p.6 i;
      source_kind = text_field-some py (to_dict e) _ (codes "system") e.source_kind p.7 i;
      correlation_id = correlation e x i;
      idempotency_key = idempotency e x i;
      id = text_field-some py (to_dict e) _ [] e.id p.0 i;
      seq = (ap seq_or_none p.2 ∙ seq_or_none-of_seq e.seq) i;
      ts = text_field-some py (to_dict e) _ [] e.ts p.4 i;
      version = e.version;
      extra = unreserved-to_dict e x i;
    }

pub version_field-num : (py : Python) (n : ℕ) → version_field py (some (num n)) ≡ ok n
unfolding version_field int_of
version_field-num py n = refl

-- Reading back the dict form of an event gives the event, whatever its optional keys and its
-- sequence number, when the extra fields are as `from_dict` collects them.
pub from_dict-to_dict :
    (py : Python) (e : Event) → IsExtra e.extra → from_dict py (to_dict e) ≡ ok e
unfolding from_dict
from_dict-to_dict py e x =
    rw ((plain_values e x).5, version_field-num py e.version) (ap ok (event_of-to_dict py e x))
