-- ===== src/Captions/Rows.antt =====
-- src/ws_collab/meet_bridge/tracker.py: the baseline, and the rows that Meet makes anew.
use ws_collab.Prelude.{
  ℕ, ◌≡◌, ◌↔◌, Bool, true, ◌&&◌, Option, none, some, List, [], ◌∷◌, map, arith, if◌then◌else◌,
  length, Eq, ◌==◌, nat_eq, Text, codes, text_eq,
}
use ws_collab.Dict
use ws_collab.Dict.{Dict}
use ws_collab.Texts.{is_in, strip}
use ws_collab.Captions.{Row, Tracker, or_default}

-- A speaker and a text.
abbrev pub Signature : Type 0
Signature = Text × Text

abbrev pub signature_beq : Signature → Signature → Bool
signature_beq x y = (x.0 == y.0) && (x.1 == y.1)

pub signature_beq_iff : (x y : Signature) → (signature_beq x y ≡ true) ↔ (x ≡ y)
signature_beq_iff (a, b) (c, d) = ground (arith, text_eq.same_iff a c, text_eq.same_iff b d)

instance abbrev pub signature_eq : Eq Signature
signature_eq = record { same = signature_beq; same_iff = signature_beq_iff }

-- `_snapshot`
unfoldable pub snapshot : List Row → List Signature
snapshot rows = map (λ row. (row.speaker, strip row.text)) rows

-- One row of `_replace_baseline`.
unfoldable pub put_baseline : ℕ → Tracker → List Row → Tracker
put_baseline now t [] = t
put_baseline now t (row ∷ rows) =
    let text = strip row.text in
    put_baseline now
      (record t {
        raw = Dict.put t.raw row.key text;
        settled_len = Dict.put t.settled_len row.key (length text);
        speakers = Dict.put t.speakers row.key row.speaker;
        changed_at = Dict.put t.changed_at row.key now;
      })
      rows

-- `_replace_baseline`
unfoldable pub replace_baseline : List Row → ℕ → Tracker → Tracker
replace_baseline rows now t =
    put_baseline now
      (record t {
        raw = [];
        settled_len = [];
        active_key = [];
        clone_seq = [];
        speakers = [];
        changed_at = [];
        replaces = [];
      })
      rows

-- The rows that are gone, by what they said.
unfoldable pub candidates : List Text → Dict Text Text → Dict Text Text → Dict Signature (List Text)
candidates incoming speakers [] = []
candidates incoming speakers ((key, text) ∷ raw) =
    let rest = candidates incoming speakers raw in
    let signature : Signature =
      (or_default (codes "Speaker") (Dict.get speakers key), strip text) in
    if is_in incoming key
    then rest
    else Dict.put rest signature (key ∷ or_default [] (Dict.get rest signature))

-- One row takes the first key that is left under its signature.
unfoldable pub take_candidate :
    Dict Text Text → Row → Dict Signature (List Text) → Option Text × Dict Signature (List Text)
take_candidate raw row left =
    let signature : Signature = (row.speaker, strip row.text) in
    elim (Dict.get raw row.key) [
      | some text ↦ (none, left)
      | none ↦ elim (or_default [] (Dict.get left signature)) [
        | [] ↦ (none, left)
        | stable ∷ others ↦ (some stable, Dict.put left signature others)
      ]
    ]

-- The rows with their keys, and the table from new keys to old ones.
unfoldable pub stabilize_rows :
    Dict Text Text
    → List Row
    → Dict Signature (List Text)
    → Dict Text Text
    → List Row × Dict Text Text
stabilize_rows raw [] left remap = ([], remap)
stabilize_rows raw (row ∷ rows) left remap =
    let found = take_candidate raw row left in
    let remap' : Dict Text Text = elim found.0 [
      | none ↦ remap
      | some stable ↦ Dict.put remap row.key stable
    ] in
    let rest = stabilize_rows raw rows found.1 remap' in
    (record row { key = or_default row.key found.0 } ∷ rest.0, rest.1)

abbrev pub remapped : Dict Text Text → Text → Text
remapped remap key = or_default key (Dict.get remap key)

-- `_stabilize_recreated_row_keys`
unfoldable pub stabilize_keys :
    List Row → List Text → Tracker → List Row × List Text × Dict Text Text
stabilize_keys rows live_keys t =
    let found =
      stabilize_rows t.raw rows (candidates (map (λ row. row.key) rows) t.speakers t.raw) [] in
    (found.0, map (remapped found.1) live_keys, found.1)

abbrev pub rekey : Dict Text Text → Row → Row
rekey remap row = record row { key = remapped remap row.key }

-- `stabilize_payload_keys`, where the payload is well-formed: rows, `liveKeys` and `rawRows`.
pub record Payload : Type 0 where
  pub rows : List Row
  pub live_keys : List Text
  pub raw_rows : List Row

unfoldable pub stabilize_payload_keys : Payload → Tracker → Payload
stabilize_payload_keys payload t =
    let (rows, live_keys, remap) = stabilize_keys payload.rows payload.live_keys t in
    elim remap [
      | [] ↦ payload
      | entry ∷ entries ↦ record {
        rows = rows;
        live_keys = live_keys;
        raw_rows = map (rekey (entry ∷ entries)) payload.raw_rows;
      }
    ]
