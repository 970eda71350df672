-- ===== src/Vad/Gate.antt =====
-- What every frame keeps of the gate.
use ws_collab.Prelude.{
  ℕ, zero, suc, ◌+◌, ◌-◌, ◌*◌, ◌≤◌, ◌<◌, min, ◌≡◌, sym, ap, subst, ◌⊎◌, inl, inr, Bool, true, false,
  arith, ltb, Bool-cases, nat_eq,
}
use ws_collab.Vad.{
  Settings, Vad, Signal, gate, hunt, process, is_loud, nothing, speech_start, speech_end, base,
  lowered,
}

-- The level of the frame reaches the threshold.
abbrev pub IsLoud : Settings → ℕ → Vad → Type 0
IsLoud c level v = v.threshold ≤ level * c.hunt_ramp_ms

abbrev pub IsQuiet : Settings → ℕ → Vad → Type 0
IsQuiet c level v = level * c.hunt_ramp_ms < v.threshold

-- The silence up to this frame is long enough to end the speech.
abbrev pub IsOver : Settings → Vad → Type 0
IsOver c v = c.silence_ms ≤ v.silence_ms + c.frame_ms

-- What a frame of a level and its event say of the gate before and after it.
abbrev pub IsTurn : Settings → ℕ → Vad → Signal → Vad → Type 0
IsTurn c level v nothing w =
    ((v.in_speech ≡ false) × (w.in_speech ≡ false) × IsQuiet c level v)
    ⊎ ((v.in_speech ≡ true)
        × (w.in_speech ≡ true)
        × IsLoud c level v
        × (w.silence_ms ≡ 0)
        × (w.speech_ms ≡ v.speech_ms + c.frame_ms))
    ⊎ ((v.in_speech ≡ true)
        × (w.in_speech ≡ true)
        × IsQuiet c level v
        × (v.silence_ms + c.frame_ms < c.silence_ms)
        × (w.silence_ms ≡ v.silence_ms + c.frame_ms)
        × (w.speech_ms ≡ v.speech_ms))
    ⊎ ((v.in_speech ≡ true)
        × (w.in_speech ≡ false)
        × IsQuiet c level v
        × IsOver c v
        × (v.speech_ms < c.min_speech_ms))
IsTurn c level v speech_start w =
    (v.in_speech ≡ false)
    × (w.in_speech ≡ true)
    × IsLoud c level v
    × (w.silence_ms ≡ 0)
    × (w.speech_ms ≡ c.frame_ms)
IsTurn c level v speech_end w =
    (v.in_speech ≡ true)
    × (w.in_speech ≡ false)
    × IsQuiet c level v
    × IsOver c v
    × (c.min_speech_ms ≤ v.speech_ms)
    × (w.speech_ms ≡ v.speech_ms)

-- The hunt changes the threshold and the quiet time only.
record Alike (v w : Vad) : Type 0 where
  speaks : w.in_speech ≡ v.in_speech
  silent : w.silence_ms ≡ v.silence_ms
  spoke : w.speech_ms ≡ v.speech_ms

hunt-Alike : (c : Settings) (loud : Bool) (s : Signal) (v : Vad) → Alike v (hunt c loud s v)
unfolding hunt
hunt-Alike c loud s v = record {
  speaks = ground arith;
  silent = ground arith;
  spoke = ground arith;
}

hunt-IsTurn :
    (c : Settings) (level : ℕ) (s : Signal) (v w w' : Vad)
    → Alike w w'
    → IsTurn c level v s w
    → IsTurn c level v s w'
hunt-IsTurn c level nothing v w w' a h = rw (a.speaks, a.silent, a.spoke) h
hunt-IsTurn c level speech_start v w w' a h = rw (a.speaks, a.silent, a.spoke) h
hunt-IsTurn c level speech_end v w w' a h = rw (a.speaks, a.spoke) h

gate-IsTurn :
    (c : Settings) (level : ℕ) (v : Vad) → IsTurn c level v (gate c level v).0 (gate c level v).1
unfolding gate
gate-IsTurn c level v = ground arith

-- Every frame turns the gate as its level and the threshold say. Speech starts only where there was
-- none and the level reaches the threshold; it ends only where there was speech, long enough, and the
-- level has been below the threshold for long enough. Without an event the gate stays shut on a quiet
-- frame, counts a loud frame as speech and a quiet one as silence, or closes on speech that was too
-- short.
pub process-IsTurn :
    (c : Settings) (level : ℕ) (v : Vad)
    → IsTurn c level v (process c level v).0 (process c level v).1
unfolding process
process-IsTurn c level v =
    let g = gate c level v in
    hunt-IsTurn c level g.0 v g.1 (hunt c (is_loud c level v) g.0 g.1)
      (hunt-Alike c (is_loud c level v) g.0 g.1) (gate-IsTurn c level v)

mul_le : (d m n : ℕ) → m ≤ n → d * m ≤ d * n
mul_le zero m n h = omega arith
mul_le (suc d) m n h =
    let one : suc d * m ≡ m + d * m = grind arith in
    let two : suc d * n ≡ n + d * n = grind arith in omega (arith, one, two, mul_le d m n h)

-- The threshold is between the floor and the base.
abbrev pub IsWithin : Settings → ℕ → Type 0
IsWithin c t = (c.hunt_floor * c.hunt_ramp_ms ≤ t) × (t ≤ base c)

base-IsWithin : (c : Settings) → c.hunt_floor ≤ c.base_threshold → IsWithin c (base c)
base-IsWithin c h =
    let one : c.hunt_floor * c.hunt_ramp_ms ≡ c.hunt_ramp_ms * c.hunt_floor = grind arith in
    let two : base c ≡ c.hunt_ramp_ms * c.base_threshold = grind arith in
    (omega (arith, one, two, mul_le c.hunt_ramp_ms c.hunt_floor c.base_threshold h), omega arith)

lowered-IsWithin :
    (c : Settings) (quiet t : ℕ)
    → c.hunt_floor ≤ c.base_threshold
    → IsWithin c t
    → IsWithin c (lowered c quiet t)
unfolding lowered
lowered-IsWithin c quiet t h w = elim (Bool-cases (ltb c.hunt_after_ms quiet)) [
  | inl p ↦
      let d = c.base_threshold - c.hunt_floor in
      let most =
        mul_le d (min c.hunt_ramp_ms (quiet - c.hunt_after_ms)) c.hunt_ramp_ms (omega arith) in
      let whole : base c ≡ (d + c.hunt_floor) * c.hunt_ramp_ms =
        ap (λ (n : ℕ). n * c.hunt_ramp_ms) (omega arith) in
      let split : (d + c.hunt_floor) * c.hunt_ramp_ms
          ≡ d * c.hunt_ramp_ms + c.hunt_floor * c.hunt_ramp_ms =
        grind arith in
      rw p (omega (arith, most, whole, split), omega arith)
  | inr p ↦ rw p w
]

hunt-IsWithin :
    (c : Settings) (loud : Bool) (s : Signal) (v : Vad)
    → c.hunt_floor ≤ c.base_threshold
    → IsWithin c v.threshold
    → IsWithin c (hunt c loud s v).threshold
unfolding hunt
hunt-IsWithin c loud s v h w =
    ground
      (arith, base-IsWithin c h, lowered-IsWithin c (v.quiet_ms + c.frame_ms) v.threshold h w, w)

gate-threshold : (c : Settings) (level : ℕ) (v : Vad) → (gate c level v).1.threshold ≡ v.threshold
unfolding gate
gate-threshold c level v = ground arith

-- When the floor is at most the base, every frame keeps the threshold between the floor and the
-- base, however long the hunt goes on.
pub process-IsWithin :
    (c : Settings) (level : ℕ) (v : Vad)
    → c.hunt_floor ≤ c.base_threshold
    → IsWithin c v.threshold
    → IsWithin c (process c level v).1.threshold
unfolding process
process-IsWithin c level v h w =
    hunt-IsWithin c (is_loud c level v) (gate c level v).0 (gate c level v).1 h
      (subst (IsWithin c) (sym (gate-threshold c level v)) w)
