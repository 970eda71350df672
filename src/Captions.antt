-- ===== src/Captions.antt =====
-- src/ws_collab/meet_bridge/tracker.py, `CaptionTracker`: the captions of a meeting, row by row. The
-- clock of a call is an argument, and a call returns what it emits; the clock does not go back.
pub mod Rows
pub mod Updates
pub mod Sentences
pub mod Within
pub mod Bounds
pub mod Seen
use ws_collab.Prelude.{
  ℕ, zero, suc, ◌+◌, Bool, true, ◌&&◌, ◌||◌, Option, none, some, List, [], ◌∷◌, ◌++◌, map,
  if◌then◌else◌, length, take, drop, ◌==◌, nat_eq, Text, text_eq,
}
use mathlib.Core.Option
use ws_collab.Dict
use ws_collab.Dict.{Dict}
use ws_collab.Texts.{strip, decimal, is_space_char}

-- What is dished out: `(active_key, speaker, sentence, True, replaces)`.
pub record Ready : Type 0 where
  pub key : Text
  pub speaker : Text
  pub sentence : Text
  pub replaces : Option Text

pub record Row : Type 0 where
  pub key : Text
  pub speaker : Text
  pub text : Text

pub record Tracker : Type 0 where
  pub raw : Dict Text Text
  pub settled_len : Dict Text ℕ
  pub active_key : Dict Text Text
  pub clone_seq : Dict Text ℕ
  pub speakers : Dict Text Text
  pub changed_at : Dict Text ℕ
  pub replaces : Dict Text (Option Text)
  pub ready : List Ready
  pub baselined : Bool
  pub baseline_warming : Bool
  pub baseline_changed_at : ℕ
  pub baseline_snapshot : List (Text × Text)

-- d.get(k, default)
abbrev pub or_default {ℓ} : {A : Type ℓ} → A → Option A → A
or_default d none = d
or_default d (some a) = a

-- `_SENTENCE_END_RE`: a mark, and then a space or the end.
abbrev pub is_mark : ℕ → Bool
is_mark c = c == 46 || c == 33 || c == 63

unfoldable pub at_end : Text → Bool
at_end [] = true
at_end (c ∷ cs) = is_space_char c

-- `_first_sentence_boundary`: a run of marks ends a sentence where its last mark does.
unfoldable pub first_sentence_boundary : Text → Option ℕ
first_sentence_boundary [] = none
first_sentence_boundary (c ∷ cs) =
    let rest = Option.map suc (first_sentence_boundary cs) in
    if is_mark c && at_end cs then some 1 else rest

-- The local variables of `_queue_completed`, with `self.clone_seq[dom_key]` and `self.ready`.
pub record Progress : Type 0 where
  pub settled : ℕ
  pub active : Text
  pub clones : ℕ
  pub behind : Option Text
  pub queue : List Ready

-- f"{dom_key}#{n}"
abbrev pub clone_key : Text → ℕ → Text
clone_key dom_key n = dom_key ++ 35 ∷ decimal n

-- The body of the loop, behind a boundary.
unfoldable pub settle_one : Text → Text → Text → ℕ → Progress → Progress
settle_one dom_key speaker pending boundary p =
    let sentence = strip (take boundary pending) in
    record {
      settled = p.settled + boundary;
      active = clone_key dom_key (suc p.clones);
      clones = suc p.clones;
      behind = some p.active;
      queue =
          if sentence == []
          then p.queue
          else p.queue
            ++ record {
              key = p.active;
              speaker = speaker;
              sentence = sentence;
              replaces = p.behind;
            }
              ∷ [];
    }

-- The loop, with at most as many rounds as there is fuel.
unfoldable pub settle_loop : ℕ → Text → Text → Text → Progress → Option Progress
settle_loop zero dom_key speaker text p = none
settle_loop (suc fuel) dom_key speaker text p =
    let pending = drop p.settled text in
    elim (first_sentence_boundary pending) [
      | none ↦ some p
      | some boundary ↦
          settle_loop fuel dom_key speaker text (settle_one dom_key speaker pending boundary p)
    ]

abbrev pub begin_progress : Text → Tracker → Progress
begin_progress dom_key t = record {
  settled = or_default 0 (Dict.get t.settled_len dom_key);
  active = or_default dom_key (Dict.get t.active_key dom_key);
  clones = or_default 0 (Dict.get t.clone_seq dom_key);
  behind = or_default none (Dict.get t.replaces dom_key);
  queue = t.ready;
}

abbrev pub end_progress : Text → Progress → Tracker → Tracker
end_progress dom_key p t = record t {
  settled_len = Dict.put t.settled_len dom_key p.settled;
  active_key = Dict.put t.active_key dom_key p.active;
  clone_seq =
      if p.clones == or_default 0 (Dict.get t.clone_seq dom_key)
      then t.clone_seq
      else Dict.put t.clone_seq dom_key p.clones;
  replaces = Dict.put t.replaces dom_key p.behind;
  ready = p.queue;
}

-- `_queue_completed`; a round settles a character at least, so the fuel is enough.
unfoldable pub queue_completed : Text → Text → Text → Tracker → Tracker
queue_completed dom_key speaker text t =
    elim (settle_loop (suc (length text)) dom_key speaker text (begin_progress dom_key t)) [
      | none ↦ t
      | some p ↦ end_progress dom_key p t
    ]
