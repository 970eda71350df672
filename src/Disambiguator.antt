-- ===== src/Disambiguator.antt =====
-- src/ws_collab/disambiguator.py, `DeterministicDisambiguator`: one text out of several hypotheses. The
-- confidence of a hypothesis is in thousandths, and other confidences and shares are a numerator and a
-- denominator. The notes of an outcome and its copies of the hypotheses are left out, and so is the resolver
-- that asks a language model.
pub mod Majority
pub mod Support
use ws_collab.Prelude.{
  ℕ, zero, suc, ◌+◌, ◌*◌, Bool, true, not, ◌&&◌, Option, none, some, List, [], ◌∷◌, map, ltb, leb,
  if◌then◌else◌, length, keep_if, ◌==◌, nat_eq, Text, codes, text_eq,
}
use ws_collab.Dict
use ws_collab.Dict.{Dict}
use ws_collab.Texts.{split, join}

pub record Hypothesis : Type 0 where
  pub raw_text : Text
  pub normalized_text : Text
  pub confidence : ℕ
  pub language : Text
  pub error : Text

pub data Method : Type 0 where
  no_method majority_exact token_vote highest_confidence : Method

pub record Resolved : Type 0 where
  pub resolved_text : Text
  pub normalized_text : Text
  pub confidence : ℕ × ℕ
  pub method : Method
  pub uncertain : Bool
  pub alternatives : List Text
  pub engine_agreement : ℕ × ℕ
  pub language : Text

-- `not h.error and h.normalized_text`
abbrev pub is_good : Hypothesis → Bool
is_good h = h.error == [] && not (h.normalized_text == [])

-- collections.Counter: the counts in the order of the first occurrences.
abbrev pub count_or_zero : Option ℕ → ℕ
count_or_zero none = 0
count_or_zero (some n) = n

unfoldable pub count_from : Dict Text ℕ → List Text → Dict Text ℕ
count_from counts [] = counts
count_from counts (x ∷ xs) =
    count_from (Dict.put counts x (suc (count_or_zero (Dict.get counts x)))) xs

abbrev pub counter : List Text → Dict Text ℕ
counter xs = count_from [] xs

-- The first entry with the greatest count: `counts.most_common(1)[0]`.
unfoldable pub most_common : Text × ℕ → Dict Text ℕ → Text × ℕ
most_common best [] = best
most_common best (e ∷ counts) = most_common (if ltb best.1 e.1 then e else best) counts

-- `max(..., key=lambda h: h.confidence)`
unfoldable pub most_confident : Hypothesis → List Hypothesis → Hypothesis
most_confident best [] = best
most_confident best (h ∷ hs) =
    most_confident (if ltb best.confidence h.confidence then h else best) hs

abbrev pub most_common_of : List Text → Text × ℕ
most_common_of xs = most_common ([], 0) (counter xs)

-- min of two fractions
abbrev pub lower_rate : ℕ × ℕ → ℕ × ℕ → ℕ × ℕ
lower_rate a b = if ltb (b.0 * a.1) (a.0 * b.1) then b else a

abbrev pub is_below : ℕ × ℕ → ℕ × ℕ → Bool
is_below a b = ltb (a.0 * b.1) (b.0 * a.1)

-- The first tokens of the lists, and the lists without them.
unfoldable pub column : List (List Text) → List Text
column [] = []
column ([] ∷ rows) = column rows
column ((t ∷ ts) ∷ rows) = t ∷ column rows

unfoldable pub without_column : List (List Text) → List (List Text)
without_column [] = []
without_column ([] ∷ rows) = [] ∷ without_column rows
without_column ((t ∷ ts) ∷ rows) = ts ∷ without_column rows

-- The vote on each of the positions, and how many positions two agree on.
unfoldable pub vote : ℕ → List (List Text) → List Text × ℕ
vote zero rows = ([], 0)
vote (suc n) rows =
    let top = most_common_of (column rows) in
    let rest = vote n (without_column rows) in
    (top.0 ∷ rest.0, (if leb 2 top.1 then 1 else 0) + rest.1)

unfoldable pub same_length : ℕ → List (List Text) → Bool
same_length n [] = true
same_length n (row ∷ rows) = length row == n && same_length n rows

abbrev pub others : Text → List Text → List Text
others text = keep_if (λ t. not (t == text))

-- `max((h for h in good if h.normalized_text == top_text), key=lambda h: h.confidence)`; that there is
-- one is known, since the text is one of theirs.
unfoldable pub most_confident_of : List Hypothesis → Option Hypothesis
most_confident_of [] = none
most_confident_of (h ∷ hs) = some (most_confident h hs)

-- The outcome of a majority.
unfoldable pub by_majority : List Hypothesis → Hypothesis → Text → ℕ → List Text → Resolved
by_majority good winner text count alternatives =
    let confidence = lower_rate (99, 100) (6000 + 2000 * count + winner.confidence, 10000) in
    record {
      resolved_text = winner.raw_text;
      normalized_text = text;
      confidence = confidence;
      method = majority_exact;
      uncertain = is_below confidence (7, 10);
      alternatives = alternatives;
      engine_agreement = (count, length good);
      language = winner.language;
    }

unfoldable pub by_vote : ℕ → List (List Text) → Text → List Text → Resolved
by_vote n rows language alternatives =
    let voted = vote n rows in
    let text = join (32 ∷ []) voted.0 in
    let confidence = lower_rate (95, 100) (5 * n + 4 * voted.1, 10 * n) in
    record {
      resolved_text = text;
      normalized_text = text;
      confidence = confidence;
      method = token_vote;
      uncertain = is_below confidence (7, 10);
      alternatives = alternatives;
      engine_agreement = (voted.1, n);
      language = language;
    }

unfoldable pub by_confidence : List Hypothesis → Hypothesis → ℕ → Resolved
by_confidence good winner count = record {
  resolved_text = winner.raw_text;
  normalized_text = winner.normalized_text;
  confidence = lower_rate (9, 10) (winner.confidence, 1000);
  method = highest_confidence;
  uncertain = true;
  alternatives = others winner.normalized_text (map (λ (h : Hypothesis). h.normalized_text) good);
  engine_agreement = (count, length good);
  language = winner.language;
}

abbrev pub unresolved : Resolved
unresolved = record {
  resolved_text = [];
  normalized_text = [];
  confidence = (0, 1);
  method = no_method;
  uncertain = true;
  alternatives = [];
  engine_agreement = (0, 1);
  language = codes "en";
}

-- The hypotheses with a text, the first of them apart. It wins where no other has more confidence.
unfoldable pub resolve_good : Hypothesis → List Hypothesis → Resolved
resolve_good h hs =
    let texts = map (λ (x : Hypothesis). x.normalized_text) (h ∷ hs) in
    let top = most_common_of texts in
    let rows = map split texts in
    let n = length (split h.normalized_text) in
    let alternatives = others top.0 (map (λ e. e.0) (counter texts)) in
    if leb 2 top.1
    then elim (most_confident_of (keep_if (λ x. x.normalized_text == top.0) (h ∷ hs))) [
      | none ↦ unresolved
      | some winner ↦ by_majority (h ∷ hs) winner top.0 top.1 alternatives
    ]
    else if leb 2 (length rows) && same_length n rows && ltb 0 n
    then by_vote n rows h.language alternatives
    else by_confidence (h ∷ hs) (most_confident h hs) top.1

-- `resolve`
unfoldable pub resolve : List Hypothesis → Resolved
resolve hypotheses = elim (keep_if is_good hypotheses) [
  | [] ↦ unresolved
  | h ∷ hs ↦ resolve_good h hs
]
