-- ===== src/Classify/Commands.antt =====
-- Only the operator's own speech may give a command.
use ws_collab.Prelude.{
  ℕ, ◌≡◌, refl, sym, ap, ◌∙◌, ◌≢◌, ◌⊎◌, inl, inr, Bool, true, false, none, List, [], ◌∷◌, arith,
  Option-cases, ◌==◌, nat_eq, Text, codes, text_eq,
}
use ws_collab.Texts.{Unicode}
use ws_collab.Classify.{classify, Segment, Playback, echo_of, is_any, classify_source, echo}

-- Speech that may give a command: the operator's, tagged as no echo, on no loopback or diagnostic
-- route, like no playback, and under a policy that does not mute the input while something is played.
pub record IsCommand (u : Unicode) (policy : Text) (limit : ℕ × ℕ) (s : Segment) (text : Text)
    (active : List Playback) : Type 0 where
  pub by_operator : s.source_kind ≡ codes "operator"
  pub untagged : s.expected_tts_text ≡ none
  pub no_echo : echo_of u limit text active ≡ none
  pub direct : (s.is_loopback ≡ false) × (s.is_diagnostic ≡ false)
  pub unmuted : (policy ≢ codes "mute_input_during_tts") ⊎ (active ≡ [])

abbrev mutes : Text → Bool
mutes policy = policy == codes "mute_input_during_tts"

-- Of speech that is no echo, only the operator's on a direct route may give a command.
source_command :
    (u : Unicode) (policy : Text) (s : Segment) (active : List Playback)
    → (classify_source u policy s active).should_execute ≡ true
    → ((s.is_loopback ≡ false) × (s.is_diagnostic ≡ false))
      × (((s.source_kind == codes "operator") ≡ true)
          × ((mutes policy ≡ false) ⊎ (is_any u active ≡ false)))
unfolding classify_source
source_command u policy s active h = ground (arith, h)

is_any-false : (u : Unicode) (active : List Playback) → is_any u active ≡ false → active ≡ []
is_any-false u [] h = refl
is_any-false u (x ∷ active) h = cc

unmuting : (policy : Text) → policy ≡ codes "mute_input_during_tts" → mutes policy ≡ false → ⊥
unmuting policy e r =
    ground (arith, r, (text_eq.same_iff policy (codes "mute_input_during_tts")).1 e)

-- When the speech may give a command, then it is a command.
pub classify-IsCommand :
    (u : Unicode) (policy : Text) (limit : ℕ × ℕ) (s : Segment) (text : Text)
    (active : List Playback)
    → (classify u policy limit s text active).should_execute ≡ true
    → IsCommand u policy limit s text active
unfolding classify echo classify_source
classify-IsCommand u policy limit s text active h = elim (Option-cases s.expected_tts_text) [
  | inr (expected, p) ↦
      let never : (classify u policy limit s text active).should_execute ≡ false =
        rw (classify, p) refl in
      absurd (cc)
  | inl p ↦ elim (Option-cases (echo_of u limit text active)) [
    | inr (best, q) ↦
        let never : (classify u policy limit s text active).should_execute ≡ false =
          rw (classify, p, q) refl in
        absurd (cc)
    | inl q ↦
        let same : classify u policy limit s text active ≡ classify_source u policy s active =
          rw (classify, p, q) refl in
        let (direct, (said, unmuted)) =
          source_command u policy s active (ap (λ c. c.should_execute) (sym same) ∙ h) in
        record {
          by_operator = (text_eq.same_iff s.source_kind (codes "operator")).0 said;
          untagged = p;
          no_echo = q;
          direct = direct;
          unmuted = elim unmuted [
            | inl r ↦ inl (λ e. unmuting policy e r)
            | inr r ↦ inr (is_any-false u active r)
          ];
        }
  ]
]
