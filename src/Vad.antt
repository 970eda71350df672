-- ===== src/Vad.antt =====
-- src/ws_collab/audio/vad.py, `SimpleVad`: the energy gate with its adaptive threshold. Levels are
-- natural numbers in a fixed unit, times are milliseconds, and the threshold is kept in units of
-- 1 / hunt_ramp_ms of a level, so that the share of the ramp is exact. The level of a frame is an
-- argument.
pub mod Gate
use ws_collab.Prelude.{
  ℕ, ◌+◌, ◌-◌, ◌*◌, min, Bool, true, false, ◌&&◌, ltb, leb, if◌then◌else◌, nat_eq,
}

pub record Settings : Type 0 where
  pub base_threshold : ℕ
  pub hunt_floor : ℕ
  pub silence_ms : ℕ
  pub frame_ms : ℕ
  pub min_speech_ms : ℕ
  pub hunt_after_ms : ℕ
  pub hunt_ramp_ms : ℕ

-- `SimpleVad` with its `VadState`.
pub record Vad : Type 0 where
  pub threshold : ℕ
  pub quiet_ms : ℕ
  pub in_speech : Bool
  pub silence_ms : ℕ
  pub speech_ms : ℕ
  pub level : ℕ

pub data Signal : Type 0 where
  nothing speech_start speech_end : Signal

abbrev pub is_start : Signal → Bool
is_start Signal.speech_start = true
is_start _ = false

-- The threshold `base_threshold`, in the unit of `threshold`.
abbrev pub base : Settings → ℕ
base c = c.base_threshold * c.hunt_ramp_ms

unfoldable pub start : Settings → Vad
start c = record {
  threshold = base c;
  quiet_ms = 0;
  in_speech = false;
  silence_ms = 0;
  speech_ms = 0;
  level = 0;
}

-- `level >= self.threshold`
abbrev pub is_loud : Settings → ℕ → Vad → Bool
is_loud c level v = leb v.threshold (level * c.hunt_ramp_ms)

-- The first part of `process`: speech begins, goes on, ends or is cancelled.
unfoldable pub gate : Settings → ℕ → Vad → Signal × Vad
gate c level v =
    let silence = v.silence_ms + c.frame_ms in
    if is_loud c level v
    then if v.in_speech
      then (
        nothing,
        record v { level = level; speech_ms = v.speech_ms + c.frame_ms; silence_ms = 0 },
      )
      else (
        speech_start,
        record v { level = level; in_speech = true; speech_ms = c.frame_ms; silence_ms = 0 },
      )
    else if v.in_speech
    then if leb c.silence_ms silence
      then if leb c.min_speech_ms v.speech_ms
        then (speech_end, record v { level = level; silence_ms = silence; in_speech = false })
        else (
          nothing,
          record v { level = level; silence_ms = silence; in_speech = false; speech_ms = 0 },
        )
      else (nothing, record v { level = level; silence_ms = silence })
    else (nothing, record v { level = level })

-- The threshold after a quiet time: lowered along the ramp, down to the floor.
unfoldable pub lowered : Settings → ℕ → ℕ → ℕ
lowered c quiet threshold =
    if ltb c.hunt_after_ms quiet
    then base c - (c.base_threshold - c.hunt_floor) * min c.hunt_ramp_ms (quiet - c.hunt_after_ms)
    else threshold

-- The second part: the hunt for quiet speech. The comparison is with the threshold before it.
unfoldable pub hunt : Settings → Bool → Signal → Vad → Vad
hunt c loud event v =
    if is_start event
    then record v { quiet_ms = 0; threshold = base c }
    else if v.in_speech && loud
    then record v { quiet_ms = 0; threshold = base c }
    else if v.in_speech
    then v
    else record v {
      quiet_ms = v.quiet_ms + c.frame_ms;
      threshold = lowered c (v.quiet_ms + c.frame_ms) v.threshold;
    }

-- `process`
unfoldable pub process : Settings → ℕ → Vad → Signal × Vad
process c level v = let g = gate c level v in (g.0, hunt c (is_loud c level v) g.0 g.1)
