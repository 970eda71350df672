-- ===== src/Classify.antt =====
-- src/ws_collab/classify.py: whose speech a segment holds, and whether it may give a command. A rate
-- and a confidence are a numerator and a denominator; the texts of the reasons are constructors.
pub mod Commands
use ws_collab.Prelude.{
  ℕ, ◌-◌, ◌*◌, Bool, true, false, not, ◌||◌, Option, none, some, List, [], ◌∷◌, ltb, leb,
  if◌then◌else◌, ◌==◌, nat_eq, Text, codes, text_eq,
}
use ws_collab.Texts.{Unicode}
use ws_collab.Accuracy.{word_error_rate}

-- What `classify` reads of an `AudioSegment`.
pub record Segment : Type 0 where
  pub source_kind : Text
  pub is_loopback : Bool
  pub is_diagnostic : Bool
  pub expected_tts_text : Option Text
  pub tts_event_id : Option Text

pub record Playback : Type 0 where
  pub expected_text : Text
  pub tts_event_id : Option Text

-- SOURCE_OPERATOR, SOURCE_AGENT, SOURCE_SYSTEM_TTS, SOURCE_EXTERNAL and SOURCE_UNKNOWN
pub data Source : Type 0 where
  operator agent system_tts external unknown : Source

pub data Reason : Type 0 where
  tagged_echo overlaps_playback diagnostic_route says_agent says_operator : Reason
  gated_by_policy says_companion no_evidence : Reason

pub record Classification : Type 0 where
  pub source : Source
  pub confidence : ℕ × ℕ
  pub reasons : List Reason
  pub is_echo : Bool
  pub should_execute : Bool
  pub matched_tts_event_id : Option Text
  pub expected_text : Option Text
  pub echo_wer : Option (ℕ × ℕ)

abbrev pub plain : Source → ℕ → List Reason → Bool → Bool → Classification
plain source percent reasons is_echo should_execute = record {
  source = source;
  confidence = (percent, 100);
  reasons = reasons;
  is_echo = is_echo;
  should_execute = should_execute;
  matched_tts_event_id = none;
  expected_text = none;
  echo_wer = none;
}

-- One fraction below another, or not above it.
abbrev pub rate_ltb : ℕ × ℕ → ℕ × ℕ → Bool
rate_ltb a b = ltb (a.0 * b.1) (b.0 * a.1)

abbrev pub rate_leb : ℕ × ℕ → ℕ × ℕ → Bool
rate_leb a b = leb (a.0 * b.1) (b.0 * a.1)

-- `max(0.6, 1.0 - wer)`
abbrev pub echo_confidence : ℕ × ℕ → ℕ × ℕ
echo_confidence wer =
    let rest : ℕ × ℕ = (wer.1 - wer.0, wer.1) in if rate_ltb (60, 100) rest then rest else (60, 100)

module _ (u : Unicode) where
  -- A rate is always found: the alignment ends.
  abbrev pub wer_of : Text → Text → ℕ × ℕ
  wer_of expected text = rate_or (word_error_rate u expected text)
    where
      rate_or : Option (ℕ × ℕ) → ℕ × ℕ
      rate_or none = (0, 1)
      rate_or (some r) = r

  abbrev pub better : ℕ × ℕ → Playback → Option ((ℕ × ℕ) × Playback) → (ℕ × ℕ) × Playback
  better wer playback none = (wer, playback)
  better wer playback (some best) = if rate_ltb wer best.0 then (wer, playback) else best

  -- The loop over `active_tts`.
  unfoldable pub best_match :
      Text → List Playback → Option ((ℕ × ℕ) × Playback) → Option ((ℕ × ℕ) × Playback)
  best_match text [] best = best
  best_match text (playback ∷ active) best = best_match text active (
      if playback.expected_text == []
      then best
      else some (better (wer_of playback.expected_text text) playback best))

  -- The playback that the text is an echo of.
  unfoldable pub echo_of : ℕ × ℕ → Text → List Playback → Option ((ℕ × ℕ) × Playback)
  echo_of echo_match_wer text active = elim (best_match text active none) [
    | none ↦ none
    | some best ↦ if rate_leb best.0 echo_match_wer then some best else none
  ]

  abbrev pub is_any {ℓ} : {A : Type ℓ} → List A → Bool
  is_any [] = false
  is_any (x ∷ xs) = true

  -- The steps 3 to 5, for speech that is no echo.
  unfoldable pub classify_source : Text → Segment → List Playback → Classification
  classify_source echo_policy segment active =
      if segment.is_loopback || segment.is_diagnostic
      then plain (if segment.is_loopback then system_tts else unknown) 70 (diagnostic_route ∷ [])
          segment.is_loopback false
      else if segment.source_kind == codes "agent"
      then plain agent 70 (says_agent ∷ []) false false
      else if segment.source_kind == codes "operator"
      then plain operator 75 (says_operator ∷ (if is_any active then gated_by_policy ∷ [] else []))
          false (not (echo_policy == codes "mute_input_during_tts") || not (is_any active))
      else if segment.source_kind == codes "companion_heard"
      then plain external 75 (says_companion ∷ []) false false
      else plain unknown 40 (no_evidence ∷ []) false false

  unfoldable pub echo : (ℕ × ℕ) × Playback → Classification
  echo best = record {
    source = system_tts;
    confidence = echo_confidence best.0;
    reasons = overlaps_playback ∷ [];
    is_echo = true;
    should_execute = false;
    matched_tts_event_id = best.1.tts_event_id;
    expected_text = some best.1.expected_text;
    echo_wer = some best.0;
  }

  -- `SourceClassifier.classify`
  unfoldable pub classify : Text → ℕ × ℕ → Segment → Text → List Playback → Classification
  classify echo_policy echo_match_wer segment text active = elim segment.expected_tts_text [
    | some expected ↦ record {
      source = system_tts;
      confidence = (95, 100);
      reasons = tagged_echo ∷ [];
      is_echo = true;
      should_execute = false;
      matched_tts_event_id = segment.tts_event_id;
      expected_text = some expected;
      echo_wer = some (wer_of expected text);
    }
    | none ↦ elim (echo_of echo_match_wer text active) [
      | some best ↦ echo best
      | none ↦ classify_source echo_policy segment active
    ]
  ]
