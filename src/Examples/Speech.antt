-- ===== src/Examples/Speech.antt =====
-- Runs of the speech queue and of the alignment, on small inputs.
use ws_collab.Accuracy.Distance.{ref_words, hyp_words, cost}
use ws_collab.Prelude.{
  ◌≤◌, ◌≡◌, refl, ◌≢◌, true, false, ◌&&◌, none, some, [], ◌∷◌, arith, leb, if◌then◌else◌, keep_if,
  nat_eq, codes, text_eq,
}
use ws_collab.Dict
use ws_collab.Texts.{is_in, Unicode}
use ws_collab.Tts.{sort_items, insert_item, Item, Engine, is_blocked}
use ws_collab.Tts.Speak.{
  speak_text, Request, admit, prune_recent, first_where, duplicate, candidate, interrupted,
  waits_in, is_duplicate, enqueue, consumes_floor,
}
use ws_collab.Tts.Playback.{begin, begin_item, next_from, choose, next_item, finish}
use ws_collab.Tts.Sound.{IsSound}
use ws_collab.Tts.Steps.{
  Reach, Reach-IsSound, new_engine, spoken, begun, finished, fresh, called, speaks,
}
use ws_collab.Tts.Turns.{next_item-first_where, is_eligible}
use ws_collab.Tts.Drain.{rounds-IsSpent, rounds, IsSpent}
use ws_collab.Tts.Repeats.{admit-admit}
use ws_collab.Accuracy.{errors, edit_align, EditResult, sub}
use ws_collab.Accuracy.Least.{edit_align-IsAlignment, edit_align-least, IsAlignment}

-- Tables for texts of lower-case letters.
abbrev pub letters : Unicode
letters = record { nfkc = λ t. t; lower = λ t. t; is_word = λ c. leb 97 c && leb c 122 }

abbrev request : Request
request = record {
  agent_id = codes "a";
  text = codes "hi";
  voice_id = codes "v";
  destination = codes "local";
  meeting_url = [];
  artifact_source = codes "agent";
  priority = 5;
  interrupt = false;
  dedupe = true;
  wait_for_floor = false;
  floor_test_profile = [];
  floor_role = [];
}

abbrev queued_one : Engine
queued_one = (speak_text letters 2 true none 7 (codes "i") request (codes "hi") new_engine).1

plays : (begin 8 none none queued_one).0 ≡ true
unfolding begin begin_item next_item next_from choose speak_text candidate is_blocked admit
    is_duplicate prune_recent waits_in enqueue interrupted keep_if sort_items insert_item Dict.get
    is_in consumes_floor
plays = refl

abbrev run_of_one : Reach letters 2 true false (finish (begin 8 none none queued_one).1)
run_of_one =
    finished
      (begun true 8 none none (called fresh (spoken none 7 (codes "i") request (codes "hi"))) plays)

Reach-IsSound_example :
    IsSound (finish (begin 8 none none queued_one).1)
    × (speaks (finish (begin 8 none none queued_one).1).current ≡ false)
Reach-IsSound_example =
    Reach-IsSound letters 2 true false (finish (begin 8 none none queued_one).1) run_of_one

abbrev hello : Item
hello = record {
  priority = 5;
  enqueued_at = 7;
  id = codes "i";
  agent_id = codes "a";
  text = codes "hi";
  voice_id = codes "v";
  destination = codes "local";
  meeting_url = [];
  artifact_source = codes "agent";
  interrupt = false;
  cancelled = false;
  requires_floor = false;
  floor_test_profile = [];
  floor_role = [];
}

abbrev waiting : Engine
waiting = record new_engine { pending = hello ∷ hello ∷ [] }

next_item-first_where_example : (next_item none waiting).0 ≡ (
    if waiting.paused_global then none else first_where (is_eligible none waiting) waiting.pending)
next_item-first_where_example = next_item-first_where none waiting tt

can_speak : is_eligible none waiting hello ≡ true
unfolding is_blocked is_in
can_speak = refl

rounds-IsSpent_example : IsSpent none [] (hello ∷ hello ∷ []) (rounds none (8 ∷ 9 ∷ []) waiting)
rounds-IsSpent_example =
    rounds-IsSpent none (8 ∷ 9 ∷ []) waiting refl refl refl (can_speak, (can_speak, tt))

is_queued : (admit letters 2 true true 7 hello new_engine).0 ≢ duplicate
unfolding admit is_duplicate prune_recent waits_in enqueue keep_if Dict.get interrupted
is_queued h = cc

admit-admit_example :
    admit letters 2 true true 8 hello (admit letters 2 true true 7 hello new_engine).1 ≡ (
      duplicate,
      record (admit letters 2 true true 7 hello new_engine).1 {
        recent = prune_recent letters 2 8 (admit letters 2 true true 7 hello new_engine).1.recent;
      },
    )
admit-admit_example =
    admit-admit letters 2 true true 7 8 hello hello new_engine is_queued refl refl (omega arith)

edit_align-IsAlignment_example :
    (result : EditResult) × ((edit_align (codes "a" ∷ []) (codes "b" ∷ codes "a" ∷ [])
        ≡ some result)
      × IsAlignment (codes "a" ∷ []) (codes "b" ∷ codes "a" ∷ []) result)
edit_align-IsAlignment_example =
    edit_align-IsAlignment (codes "a" ∷ []) (codes "b" ∷ codes "a" ∷ [])

edit_align-least_example :
    (result : EditResult) × ((edit_align
          (ref_words (sub (codes "a") (codes "b") ∷ []))
          (hyp_words (sub (codes "a") (codes "b") ∷ []))
        ≡ some result)
      × (errors result ≤ cost (sub (codes "a") (codes "b") ∷ [])))
edit_align-least_example = edit_align-least (sub (codes "a") (codes "b") ∷ []) (tt, tt)
