-- ===== src/Disambiguator/Majority.antt =====
-- The hypothesis that a majority of src/ws_collab/disambiguator.py answers with.
use ws_collab.Prelude.{
  ℕ, ◌≤◌, ◌≡◌, refl, inl, inr, Option, none, some, List, [], ◌∷◌, map, arith, ltb, le→leb,
  Bool-cases, length, keep_if, All, ◌==◌, nat_eq, Text, text_eq,
}
use ws_collab.Disambiguator.{
  Hypothesis, most_confident, most_confident_of, most_common_of, by_majority, unresolved,
  resolve_good, Resolved, majority_exact, counter, others, is_good, resolve,
}
use ws_collab.Disambiguator.Support.{occurs, most_common_of-most}

abbrev pub texts_of : List Hypothesis → List Text
texts_of = map (λ (x : Hypothesis). x.normalized_text)

Says : Text → Hypothesis → Type 0
Says t h = h.normalized_text ≡ t

most_confident-Says :
    (t : Text) (best : Hypothesis) (hs : List Hypothesis)
    → Says t best
    → All (Says t) hs
    → Says t (most_confident best hs)
unfolding most_confident
most_confident-Says t best [] b h = b
most_confident-Says t best (x ∷ hs) b h = elim (Bool-cases (ltb best.confidence x.confidence)) [
  | inl p ↦ rw p (most_confident-Says t x hs h.0 h.1)
  | inr p ↦ rw p (most_confident-Says t best hs b h.1)
]

saying : Text → List Hypothesis → List Hypothesis
saying t = keep_if (λ (x : Hypothesis). x.normalized_text == t)

saying-Says : (t : Text) (hs : List Hypothesis) → All (Says t) (saying t hs)
unfolding saying keep_if Says
saying-Says t [] = tt
saying-Says t (h ∷ hs) = elim (Bool-cases (h.normalized_text == t)) [
  | inl p ↦ rw p ((text_eq.same_iff h.normalized_text t).0 p, saying-Says t hs)
  | inr p ↦ rw p (saying-Says t hs)
]

occurs-saying : (t : Text) (hs : List Hypothesis) → occurs t (texts_of hs) ≡ length (saying t hs)
unfolding occurs saying keep_if
occurs-saying t [] = refl
occurs-saying t (h ∷ hs) = elim (Bool-cases (h.normalized_text == t)) [
  | inl p ↦ rw p (omega (arith, occurs-saying t hs))
  | inr p ↦ rw p (omega (arith, occurs-saying t hs))
]

Answered : Text → Option Hypothesis → Type 0
Answered t none = ⊥
Answered t (some w) = Says t w

most_confident_of-Answered :
    (t : Text) (ks : List Hypothesis)
    → All (Says t) ks
    → 1 ≤ length ks
    → Answered t (most_confident_of ks)
unfolding most_confident_of Answered
most_confident_of-Answered t [] h l = absurd (omega arith)
most_confident_of-Answered t (k ∷ ks) h l = most_confident-Says t k ks h.0 h.1

-- The text of the outcome is the one that the counter names, and the method is the majority.
Elected : Text → Resolved → Type 0
Elected t r = (r.method ≡ majority_exact) × (r.normalized_text ≡ t)

elected :
    (t : Text) (good : List Hypothesis) (n : ℕ) (alternatives : List Text) (o : Option Hypothesis)
    → Answered t o
    → Elected t
        (elim o [ none ↦ unresolved | some winner ↦ by_majority good winner t n alternatives ])
unfolding Answered Elected by_majority Says
elected t good n alternatives none a = absurd a
elected t good n alternatives (some w) a = (refl, refl)

resolve_good-Elected :
    (h : Hypothesis) (hs : List Hypothesis)
    → 2 ≤ (most_common_of (texts_of (h ∷ hs))).1
    → Elected (most_common_of (texts_of (h ∷ hs))).0 (resolve_good h hs)
unfolding resolve_good saying
resolve_good-Elected h hs two = rw (le→leb 2 (most_common_of (texts_of (h ∷ hs))).1 two) (
    elected top.0 (h ∷ hs) top.1 (others top.0 (map (λ e. e.0) (counter (texts_of (h ∷ hs)))))
      (most_confident_of (saying top.0 (h ∷ hs)))
      (most_confident_of-Answered top.0 (saying top.0 (h ∷ hs)) (saying-Says top.0 (h ∷ hs)) there))
  where
    top : Text × ℕ
    top = most_common_of (texts_of (h ∷ hs))

    there : 1 ≤ length (saying top.0 (h ∷ hs))
    there =
        omega
          (arith, two, (most_common_of-most (texts_of (h ∷ hs))).0, occurs-saying top.0 (h ∷ hs))

resolve_good-majority :
    (h : Hypothesis) (hs : List Hypothesis) (t : Text)
    → 2 ≤ occurs t (texts_of (h ∷ hs))
    → ((resolve_good h hs).method ≡ majority_exact)
      × ((u : Text)
          → occurs u (texts_of (h ∷ hs))
            ≤ occurs (resolve_good h hs).normalized_text (texts_of (h ∷ hs)))
unfolding Elected
resolve_good-majority h hs t two = (won.0, (λ u. rw won.1 (omega (arith, most.0, most.1 u))))
  where
    most :
        ((most_common_of (texts_of (h ∷ hs))).1
          ≡ occurs (most_common_of (texts_of (h ∷ hs))).0 (texts_of (h ∷ hs)))
        × ((u : Text) → occurs u (texts_of (h ∷ hs)) ≤ (most_common_of (texts_of (h ∷ hs))).1)
    most = most_common_of-most (texts_of (h ∷ hs))

    won : Elected (most_common_of (texts_of (h ∷ hs))).0 (resolve_good h hs)
    won = resolve_good-Elected h hs (omega (arith, most.1 t, two))

resolve_from : List Hypothesis → Resolved
resolve_from good = elim good [ [] ↦ unresolved | h ∷ hs ↦ resolve_good h hs ]

resolve_from-majority :
    (good : List Hypothesis) (t : Text)
    → 2 ≤ occurs t (texts_of good)
    → ((resolve_from good).method ≡ majority_exact)
      × ((u : Text)
          → occurs u (texts_of good) ≤ occurs (resolve_from good).normalized_text (texts_of good))
unfolding resolve_from occurs
resolve_from-majority [] t two = absurd (omega arith)
resolve_from-majority (h ∷ hs) t two = resolve_good-majority h hs t two

-- Where some text is the text of two good hypotheses or more, the method is the exact majority, and no text
-- is that of more good hypotheses than the text of the outcome.
pub resolve-majority :
    (hypotheses : List Hypothesis) (t : Text)
    → 2 ≤ occurs t (texts_of (keep_if is_good hypotheses))
    → ((resolve hypotheses).method ≡ majority_exact)
      × ((u : Text)
          → occurs u (texts_of (keep_if is_good hypotheses))
            ≤ occurs (resolve hypotheses).normalized_text (texts_of (keep_if is_good hypotheses)))
unfolding resolve resolve_from
resolve-majority hypotheses t two = resolve_from-majority (keep_if is_good hypotheses) t two
