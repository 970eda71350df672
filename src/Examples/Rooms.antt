-- ===== src/Examples/Rooms.antt =====
-- Runs of the caption tracker, the classification and the routes, on small inputs.
use ws_collab.Dict.{keys, Dict}
use ws_collab.Disambiguator
use ws_collab.Disambiguator.{Hypothesis, majority_exact, is_good}
use ws_collab.Disambiguator.Majority.{resolve-majority, texts_of}
use ws_collab.Disambiguator.Support.{occurs}
use ws_collab.Texts.{is_in}
use ws_collab.Captions.Rows.{stabilize_keys}
use ws_collab.Captions.Updates.{relay, update}
use ws_collab.Prelude.{
  ◌≤◌, ◌≡◌, refl, true, false, none, List, [], ◌∷◌, map, arith, drop, keep_if, All, nat_eq, Text,
  codes, text_eq,
}
use ws_collab.Examples.Speech.{letters}
use ws_collab.Captions.{Tracker, Row, begin_progress, end_progress, queue_completed}
use ws_collab.Captions.Sentences.{queue_completed-pieces, pieces, settle_pieces}
use ws_collab.Captions.Bounds.{update-IsWithin}
use ws_collab.Captions.Within.{IsWithin}
use ws_collab.Captions.Seen.{relay-seen, IsForgotten}
use ws_collab.Classify.{Segment, best_match, echo_of, classify_source, classify}
use ws_collab.Classify.Commands.{classify-IsCommand, IsCommand}
use ws_collab.Routing.{Manager, key, load, load_value, set_route, resolve}
use ws_collab.Routing.Reload.{load-saved, left_by, started, set}
use ws_collab.Dict
use ws_collab.Errors.{ok}
use ws_collab.Examples.Codec.{python, python-IsJsonLines}
use ws_collab.Json.Values.{read_file}

abbrev new_tracker : Tracker
new_tracker = record {
  raw = [];
  settled_len = [];
  active_key = [];
  clone_seq = [];
  speakers = [];
  changed_at = [];
  replaces = [];
  ready = [];
  baselined = true;
  baseline_warming = false;
  baseline_changed_at = 0;
  baseline_snapshot = [];
}

abbrev said : Text
said = codes "Hi. Yes"

abbrev row : Row
row = record { key = codes "r"; speaker = codes "S"; text = said }

queue_completed-pieces_example :
    queue_completed (codes "r") (codes "S") said new_tracker
    ≡ end_progress
        (codes "r")
        (settle_pieces
          (codes "r")
          (codes "S")
          (pieces (drop (begin_progress (codes "r") new_tracker).settled said)).0
          (begin_progress (codes "r") new_tracker))
        new_tracker
queue_completed-pieces_example = queue_completed-pieces (codes "r") (codes "S") said new_tracker

nothing_settled : IsWithin new_tracker
unfolding Dict.get
nothing_settled key = omega arith

update-IsWithin_example : IsWithin (update 2 5 (row ∷ []) (codes "r" ∷ []) new_tracker).1
update-IsWithin_example =
    update-IsWithin 2 5 (row ∷ []) (codes "r" ∷ []) new_tracker nothing_settled

-- A row that is not shown any more.
abbrev left_behind : Tracker
left_behind = record new_tracker {
  raw = (codes "q", codes "Old. New") ∷ [];
  speakers = (codes "q", codes "S") ∷ [];
}

relay-seen_example :
    ((relay 2 5 (row ∷ []) (codes "r" ∷ []) left_behind).1.ready ≡ [])
    × All
        (λ e.
          is_in
            (map (λ (r : Row). r.key) (stabilize_keys (row ∷ []) (codes "r" ∷ []) left_behind).0)
            e.0
          ≡ true)
        (relay 2 5 (row ∷ []) (codes "r" ∷ []) left_behind).1.raw
    × ((k : Text)
        → is_in (keys left_behind.raw) k ≡ true
        → is_in
            (map (λ (r : Row). r.key) (stabilize_keys (row ∷ []) (codes "r" ∷ []) left_behind).0)
            k
          ≡ false
        → IsForgotten k (relay 2 5 (row ∷ []) (codes "r" ∷ []) left_behind).1)
relay-seen_example = relay-seen 2 5 (row ∷ []) (codes "r" ∷ []) left_behind

abbrev spoken_by_operator : Segment
spoken_by_operator = record {
  source_kind = codes "operator";
  is_loopback = false;
  is_diagnostic = false;
  expected_tts_text = none;
  tts_event_id = none;
}

may_execute :
    (classify letters
      (codes "listen_and_filter_tts")
      (40, 100)
      spoken_by_operator
      (codes "stop")
      []).should_execute
    ≡ true
unfolding classify echo_of best_match classify_source
may_execute = refl

classify-IsCommand_example :
    IsCommand letters (codes "listen_and_filter_tts") (40, 100) spoken_by_operator (codes "stop") []
classify-IsCommand_example =
    classify-IsCommand letters (codes "listen_and_filter_tts") (40, 100) spoken_by_operator
      (codes "stop") [] may_execute

abbrev no_routes : Manager
no_routes = record { routes = []; saved = none; audits = [] }

nothing_saved : load python none ≡ ok []
unfolding load load_value read_file
nothing_saved = refl

abbrev one_route : Manager
one_route =
    left_by no_routes (set_route (codes "m") (codes "e") (codes "d") (codes "o") [] no_routes)

load-saved_example : load python one_route.saved ≡ ok one_route.routes
load-saved_example =
    load-saved python one_route python-IsJsonLines
      (set (codes "m") (codes "e") (codes "d") (codes "o") [] (started none [] nothing_saved))

abbrev heard : List Hypothesis
heard =
    map
      (λ t. record {
        raw_text = t;
        normalized_text = t;
        confidence = 500;
        language = codes "en";
        error = [];
      })
      (codes "go" ∷ codes "no" ∷ codes "no" ∷ [])

resolve-majority_example :
    ((Disambiguator.resolve heard).method ≡ majority_exact)
    × ((u : Text)
        → occurs u (texts_of (keep_if is_good heard))
          ≤ occurs (Disambiguator.resolve heard).normalized_text (texts_of (keep_if is_good heard)))
resolve-majority_example =
    resolve-majority heard (codes "no") (unfold occurs keep_if in omega arith)
