-- ===== src/Event/Validate/Admission.antt =====
-- What `validate_new_event` of src/ws_collab/events.py admits.
use ws_collab.Prelude.{
  ◌≤◌, ◌≡◌, refl, sym, ap, ◌⊎◌, inl, inr, true, false, ◌||◌, Option, none, some, List, [], arith,
  ltb, ge→ltb, Bool-cases, length, ◌==◌, nat_eq, Text, text_eq,
}
use ws_collab.Errors.{Error, Result, ok, raise, ◌>>=◌, uncaught}
use ws_collab.Texts.{strip}
use ws_collab.Json.{Json, str, arr, obj, end, Fields}
use ws_collab.Event.{Event, schema_version, ensure_identity}
use ws_collab.Event.Validate.{
  Draft, as_key, hosted_name, validate_stream, valid_type, valid_data, known_kind, valid_kind,
  valid_key, has_key, streams, is_member, valid_source_kinds, source_or_system, validate_new_event,
}

-- The outcome of a check: what it gives, a validation error, or an error that nobody expects.
unfoldable pub Outcome {ℓ} : {A : Type ℓ} → (A → Type 0) → Type 0 → Result A → Type 0
Outcome P Q (ok x) = P x
Outcome P Q (raise x) = x ≡ Error.validation
Outcome P Q uncaught = Q

Outcome-bind {ℓ κ} :
    {A : Type ℓ} {B : Type κ} (P : A → Type 0) (R : B → Type 0) (Q : Type 0) (r : Result A)
    (f : A → Result B)
    → Outcome P Q r
    → ((x : A) → P x → Outcome R Q (f x))
    → Outcome R Q (r >>= f)
unfolding Outcome
Outcome-bind P R Q (ok x) f h k = k x h
Outcome-bind P R Q (raise x) f h k = h
Outcome-bind P R Q uncaught f h k = h

-- A list or a dict, which has no hash.
abbrev pub IsUnhashable : Json → Type 0
IsUnhashable (arr items) = Unit
IsUnhashable (obj fs) = Unit
IsUnhashable _ = ⊥

abbrev pub IsHosted : List Text → Json → Text → Type 0
IsHosted dynamic v name = (v ≡ str name) × ((has_key streams name || is_member dynamic name) ≡ true)

abbrev pub IsName : Json → Text → Type 0
IsName v t = (v ≡ str t) × ((strip t == []) ≡ false) × (length t ≤ 128)

abbrev pub IsData : Json → Fields → Type 0
IsData v fs = ((v ≡ Json.null) × (fs ≡ end)) ⊎ (v ≡ obj fs)

abbrev pub IsKind : Json → Text → Type 0
IsKind v kind = (v ≡ str kind) × (is_member valid_source_kinds kind ≡ true)

abbrev pub IsKey : Json → Option Text → Type 0
IsKey v o = ((v ≡ Json.null) × (o ≡ none)) ⊎ ((t : Text) × ((v ≡ str t) × (o ≡ some t)))

-- The event of a draft that passes every check.
pub record IsEventOf (dynamic : List Text) (new_id now : Text) (d : Draft) (e : Event)
    : Type 0 where
  pub hosted : IsHosted dynamic d.stream e.stream
  pub named : IsName d.type e.type
  pub data_of : IsData d.payload e.payload
  pub kind_of : IsKind d.source_kind e.source_kind
  pub correlated : IsKey d.correlation_id e.correlation_id
  pub keyed : IsKey d.idempotency_key e.idempotency_key
  pub made : e ≡ record {
    stream = e.stream;
    type = e.type;
    payload = e.payload;
    source_id = source_or_system d.source_id;
    source_kind = e.source_kind;
    correlation_id = e.correlation_id;
    idempotency_key = e.idempotency_key;
    id = new_id;
    seq = none;
    ts = now;
    version = schema_version;
    extra = end;
  }

-- An outcome of the validation: the event of the draft, a validation error, or the TypeError of a
-- stream or a kind that has no hash.
abbrev pub IsAdmitted : List Text → Text → Text → Draft → Result Event → Type 0
IsAdmitted dynamic new_id now d =
    Outcome (IsEventOf dynamic new_id now d) (IsUnhashable d.stream ⊎ IsUnhashable d.source_kind)

as_key-Outcome : (v : Json) → Outcome (λ t. v ≡ str t) (IsUnhashable v) (as_key v)
unfolding as_key Outcome
as_key-Outcome Json.null = refl
as_key-Outcome (Json.bool b) = refl
as_key-Outcome (Json.num n) = refl
as_key-Outcome (str t) = refl
as_key-Outcome (arr items) = tt
as_key-Outcome (obj fs) = tt

validate_stream-Outcome :
    (dynamic : List Text) (v : Json)
    → Outcome (IsHosted dynamic v) (IsUnhashable v) (validate_stream dynamic v)
unfolding validate_stream hosted_name Outcome
validate_stream-Outcome dynamic v =
    Outcome-bind (λ t. v ≡ str t) (IsHosted dynamic v) (IsUnhashable v) (as_key v)
      (hosted_name dynamic) (as_key-Outcome v) checked
  where
    checked :
        (t : Text)
        → v ≡ str t
        → Outcome (IsHosted dynamic v) (IsUnhashable v) (hosted_name dynamic t)
    checked t h = elim (Bool-cases (has_key streams t || is_member dynamic t)) [
      | inl p ↦ rw p (h, p)
      | inr p ↦ rw p refl
    ]

valid_kind-Outcome : (v : Json) → Outcome (IsKind v) (IsUnhashable v) (valid_kind v)
unfolding valid_kind known_kind Outcome
valid_kind-Outcome v =
    Outcome-bind (λ t. v ≡ str t) (IsKind v) (IsUnhashable v) (as_key v) known_kind
      (as_key-Outcome v) checked
  where
    checked : (t : Text) → v ≡ str t → Outcome (IsKind v) (IsUnhashable v) (known_kind t)
    checked t h = elim (Bool-cases (is_member valid_source_kinds t)) [
      | inl p ↦ rw p (h, p)
      | inr p ↦ rw p refl
    ]

module _ (Q : Type 0) where
  valid_type-Outcome : (v : Json) → Outcome (IsName v) Q (valid_type v)
  unfolding valid_type Outcome
  valid_type-Outcome Json.null = refl
  valid_type-Outcome (Json.bool b) = refl
  valid_type-Outcome (Json.num n) = refl
  valid_type-Outcome (str t) = elim (Bool-cases (strip t == [])) [
    | inl p ↦ rw p refl
    | inr p ↦ elim (Bool-cases (ltb 128 (length t))) [
      | inl q ↦ rw (p, q) refl
      | inr q ↦ rw (p, q) (refl, p, ground (arith, q))
    ]
  ]
  valid_type-Outcome (arr items) = refl
  valid_type-Outcome (obj fs) = refl

  valid_data-Outcome : (v : Json) → Outcome (IsData v) Q (valid_data v)
  unfolding valid_data Outcome
  valid_data-Outcome Json.null = inl (refl, refl)
  valid_data-Outcome (Json.bool b) = refl
  valid_data-Outcome (Json.num n) = refl
  valid_data-Outcome (str t) = refl
  valid_data-Outcome (arr items) = refl
  valid_data-Outcome (obj fs) = inr refl

  valid_key-Outcome : (v : Json) → Outcome (IsKey v) Q (valid_key v)
  unfolding valid_key Outcome
  valid_key-Outcome Json.null = inl (refl, refl)
  valid_key-Outcome (Json.bool b) = refl
  valid_key-Outcome (Json.num n) = refl
  valid_key-Outcome (str t) = inr (t, (refl, refl))
  valid_key-Outcome (arr items) = refl
  valid_key-Outcome (obj fs) = refl

weaken {ℓ} :
    {A : Type ℓ} (P : A → Type 0) (Q Q' : Type 0) (r : Result A)
    → (Q → Q')
    → Outcome P Q r
    → Outcome P Q' r
unfolding Outcome
weaken P Q Q' (ok x) f h = h
weaken P Q Q' (raise x) f h = h
weaken P Q Q' uncaught f h = f h

valid_data-IsData : (v : Json) (fs : Fields) → IsData v fs → valid_data v ≡ ok fs
unfolding valid_data
valid_data-IsData v fs (inl (p, q)) = rw (p, q) refl
valid_data-IsData v fs (inr p) = rw p refl

valid_key-IsKey : (v : Json) (o : Option Text) → IsKey v o → valid_key v ≡ ok o
unfolding valid_key
valid_key-IsKey v o (inl (p, q)) = rw (p, q) refl
valid_key-IsKey v o (inr (t, (p, q))) = rw (p, q) refl

module _ (dynamic : List Text) (new_id now : Text) (d : Draft) where
  sound : IsAdmitted dynamic new_id now d (validate_new_event dynamic new_id now d)
  unfolding validate_new_event ensure_identity Outcome
  sound =
      Outcome-bind _ E Q (validate_stream dynamic d.stream) _
        (weaken _ _ Q (validate_stream dynamic d.stream) inl
          (validate_stream-Outcome dynamic d.stream))
        (λ name a. Outcome-bind _ E Q (valid_type d.type) _ (valid_type-Outcome Q d.type) (λ t b.
          Outcome-bind _ E Q (valid_data d.payload) _ (valid_data-Outcome Q d.payload) (λ fs c.
            Outcome-bind _ E Q (valid_kind d.source_kind) _
              (weaken _ _ Q (valid_kind d.source_kind) inr (valid_kind-Outcome d.source_kind))
              (λ kind k.
                Outcome-bind _ E Q (valid_key d.correlation_id) _
                  (valid_key-Outcome Q d.correlation_id)
                  (λ x i.
                    Outcome-bind _ E Q (valid_key d.idempotency_key)
                      (λ y. ok (built name t fs kind x y)) (valid_key-Outcome Q d.idempotency_key)
                      (λ y j.
                        unfold Outcome in
                        record {
                          hosted = a;
                          named = b;
                          data_of = c;
                          kind_of = k;
                          correlated = i;
                          keyed = j;
                          made = refl;
                        }))))))
    where
      E : Event → Type 0
      E = IsEventOf dynamic new_id now d

      built : Text → Text → Fields → Text → Option Text → Option Text → Event
      built name t fs kind x y = record {
        stream = name;
        type = t;
        payload = fs;
        source_id = source_or_system d.source_id;
        source_kind = kind;
        correlation_id = x;
        idempotency_key = y;
        id = new_id;
        seq = none;
        ts = now;
        version = schema_version;
        extra = end;
      }

      passed :
          (name t : Text) (fs : Fields) (kind : Text) (x y : Option Text)
          → IsHosted dynamic d.stream name
          → IsName d.type t
          → IsData d.payload fs
          → IsKind d.source_kind kind
          → IsKey d.correlation_id x
          → IsKey d.idempotency_key y
          → E (built name t fs kind x y)
      passed name t fs kind x y a b c k i j = record {
        hosted = a;
        named = b;
        data_of = c;
        kind_of = k;
        correlated = i;
        keyed = j;
        made = refl;
      }

      Q : Type 0
      Q = IsUnhashable d.stream ⊎ IsUnhashable d.source_kind

  complete :
      (e : Event)
      → IsEventOf dynamic new_id now d e
      → validate_new_event dynamic new_id now d ≡ ok e
  unfolding validate_new_event validate_stream hosted_name valid_type valid_kind known_kind as_key
      ensure_identity
  complete e h =
      rw
        (
          validate_new_event,
          h.hosted.0,
          h.hosted.1,
          h.named.0,
          h.named.1,
          ge→ltb 128 (length e.type) h.named.2,
          valid_data-IsData d.payload e.payload h.data_of,
          h.kind_of.0,
          h.kind_of.1,
          valid_key-IsKey d.correlation_id e.correlation_id h.correlated,
          valid_key-IsKey d.idempotency_key e.idempotency_key h.keyed,
        )
        (ap ok (sym h.made))

  -- A draft is admitted exactly where its stream is hosted, its type is a text with a character that is
  -- no blank and of at most 128 characters, its data are an object or absent, its kind is one of the
  -- known ones, and its keys are texts or absent; and then as the event of these, with its identity and
  -- no number yet. Every other draft is refused with a validation error, or with the TypeError of a
  -- stream or a kind that is a list or a dict.
  pub validate_new_event-IsAdmitted :
      IsAdmitted dynamic new_id now d (validate_new_event dynamic new_id now d)
      × ((e : Event)
          → IsEventOf dynamic new_id now d e
          → validate_new_event dynamic new_id now d ≡ ok e)
  validate_new_event-IsAdmitted = (sound, complete)
