-- ===== src/Tts/Sound.antt =====
-- What each call on the engine of src/ws_collab/tts/engine.py keeps of the order of the queue and of the
-- turns of the utterances.
use ws_collab.Texts.{Unicode}
use ws_collab.Dict.Keys.{All-put, All-pop}
use ws_collab.Tts.Speak.{
  open_floor, admit, give_floor, invalidate_all_floors, interrupted, invalidate_floor,
  consumes_floor, prune_recent, is_duplicate, enqueue, may_have_floor, first_where, is_repeated,
}
use ws_collab.Dict.{Dict}
use ws_collab.Prelude.{
  ℕ, ◌≡◌, refl, sym, ap, subst, ◌∙◌, inl, inr, Bool, true, false, Option, none, some, List, [], ◌∷◌,
  ◌++◌, map, arith, if◌then◌else◌, Bool-cases, Option-cases, All, ◌==◌, nat_eq, Text, text_eq,
}
use ws_collab.Dict
use ws_collab.Tts.{
  floor_eq, Item, Notice, Engine, dropped, started, speech_started, ended, has_id, cancel_first,
  cancel_current, cancel, cancel_where, Grant, scope,
}
use ws_collab.Tts.Order.{
  IsQueue, place, IsOrdered, cancel_first-place, sort_items-IsQueue, cancel_where-place,
  release_first-place,
}
use ws_collab.Tts.Turns.{IsScope}

-- Who speaks after a notice, or none where the notice is out of turn.
unfoldable pub follow : Option Text → Notice → Option (Option Text)
follow speaking (dropped id) = some speaking
follow speaking (speech_started id) = some speaking
follow none (started id) = some (some id)
follow (some x) (started id) = none
follow none (ended id cancelled) = none
follow (some x) (ended id cancelled) = if x == id then some none else none

unfoldable pub follow_all : Option Text → List Notice → Option (Option Text)
follow_all speaking [] = some speaking
follow_all speaking (n ∷ ns) = elim (follow speaking n) [
  | none ↦ none
  | some next ↦ follow_all next ns
]

pub follow_all-append :
    (s : Option Text) (ms ns : List Notice)
    → follow_all s (ms ++ ns) ≡ elim (follow_all s ms) [ none ↦ none | some t ↦ follow_all t ns ]
unfolding follow_all
follow_all-append s [] ns = refl
follow_all-append s (m ∷ ms) ns = elim (Option-cases (follow s m)) [
  | inl p ↦ rw (follow_all, p) refl
  | inr (next, p) ↦ rw (follow_all, p) (follow_all-append next ms ns)
]

abbrev pub id_of : Option Item → Option Text
id_of none = none
id_of (some item) = some item.id

-- The notices follow one another in turn, up to the utterance that is spoken.
abbrev pub InTurn : List Notice → Option Item → Type 0
InTurn published current = follow_all none published ≡ some (id_of current)

pub record IsSound (e : Engine) : Type 0 where
  pub in_order : IsQueue e.pending
  pub scoped : All IsScope e.floor_open
  pub in_turn : InTurn e.published e.current

pub InTurn-append :
    (ms ns : List Notice) (c c' : Option Item)
    → InTurn ms c
    → follow_all (id_of c) ns ≡ some (id_of c')
    → InTurn (ms ++ ns) c'
InTurn-append ms ns c c' h k = rw (follow_all-append none ms ns, h) k

pub cancel_current-IsSound :
    (has_route : Bool) (item : Item) (e : Engine)
    → e.current ≡ some item
    → IsSound e
    → IsSound (cancel_current has_route item e)
unfolding cancel_current
cancel_current-IsSound has_route item e h s = record {
  in_order = s.in_order;
  scoped = s.scoped;
  in_turn = s.in_turn ∙ ap (λ c. some (id_of c)) h;
}

-- A queue with the same places is in order too.
pub same_places : (xs ys : List Item) → map place ys ≡ map place xs → IsQueue xs → IsQueue ys
same_places xs ys h k = subst IsOrdered (sym h) k

pub cancel-IsSound :
    (has_route : Bool) (id : Text) (e : Engine) → IsSound e → IsSound (cancel has_route id e).1
unfolding cancel follow_all follow
cancel-IsSound has_route id e s = elim (Bool-cases (has_id id e.pending)) [
  | inl p ↦
      rw (cancel, p)
        (record {
          in_order =
              same_places e.pending (cancel_first id e.pending) (cancel_first-place id e.pending)
                s.in_order;
          scoped = s.scoped;
          in_turn =
              InTurn-append e.published (dropped id ∷ []) e.current e.current s.in_turn
                (ground (arith));
        })
  | inr p ↦ elim (Option-cases e.current) [
    | inl q ↦ rw (cancel, p, q) s
    | inr (item, q) ↦ elim (Bool-cases (item.id == id)) [
      | inl r ↦ rw (cancel, p, q, r) (cancel_current-IsSound has_route item e q s)
      | inr r ↦ rw (cancel, p, q, r) s
    ]
  ]
]

enqueue-IsSound :
    (u : Unicode) (now : ℕ) (item : Item) (e : Engine)
    → IsSound e
    → IsSound (enqueue u now item e).1
unfolding enqueue
enqueue-IsSound u now item e s = record {
  in_order = sort_items-IsQueue _;
  scoped = elim (Bool-cases (consumes_floor item e)) [
    | inl p ↦
        rw p
          (All-pop IsScope e.floor_open (scope item.meeting_url item.floor_test_profile) s.scoped)
    | inr p ↦ rw p s.scoped
  ];
  in_turn = s.in_turn;
}

interrupted-IsSound :
    (has_route interrupt : Bool) (e : Engine)
    → IsSound e
    → IsSound (interrupted has_route interrupt e)
unfolding interrupted
interrupted-IsSound has_route true e s = elim (Option-cases e.current) [
  | inl q ↦ rw (interrupted, q) s
  | inr (item, q) ↦ rw (interrupted, q) (cancel-IsSound has_route item.id e s)
]
interrupted-IsSound has_route false e s = elim (Option-cases e.current) [
  | inl q ↦ rw (interrupted, q) s
  | inr (item, q) ↦ rw (interrupted, q) s
]

-- What the table of recent speech holds does not matter.
forgotten : (e : Engine) (recent : Dict Text ℕ) → IsSound e → IsSound (record e { recent = recent })
forgotten e recent s = record { in_order = s.in_order; scoped = s.scoped; in_turn = s.in_turn }

pub admit-IsSound :
    (u : Unicode) (window : ℕ) (has_route dedupe : Bool) (now : ℕ) (item : Item) (e : Engine)
    → IsSound e
    → IsSound (admit u window has_route dedupe now item e).1
unfolding admit is_duplicate
admit-IsSound u window has_route true now item e s =
    let pruned = forgotten e (prune_recent u window now e.recent) s in
    elim (Bool-cases (is_duplicate u window now item.agent_id item.text e).0) [
      | inl p ↦ rw (admit, p) pruned
      | inr p ↦
          rw (admit, p)
            (interrupted-IsSound has_route item.interrupt _ (enqueue-IsSound u now item _ pruned))
    ]
admit-IsSound u window has_route false now item e s =
    interrupted-IsSound has_route item.interrupt _ (enqueue-IsSound u now item e s)

give_floor-IsSound :
    (meeting_url : Text) (grant : Grant) (e : Engine)
    → IsSound e
    → IsSound (give_floor meeting_url grant e).1
unfolding give_floor
give_floor-IsSound meeting_url grant e s =
    let key = scope meeting_url grant.test_profile in
    elim (Option-cases (first_where (may_have_floor meeting_url grant) e.pending)) [
      | inl p ↦
          rw (give_floor, p)
            (record {
              in_order = s.in_order;
              scoped = All-put IsScope e.floor_open key grant tt s.scoped;
              in_turn = s.in_turn;
            })
      | inr (item, p) ↦
          rw (give_floor, p)
            (record {
              in_order = same_places e.pending _ (release_first-place _ e.pending) s.in_order;
              scoped = All-pop IsScope e.floor_open key s.scoped;
              in_turn = s.in_turn;
            })
    ]

pub open_floor-IsSound :
    (meeting_url : Text) (grant : Grant) (e : Engine)
    → IsSound e
    → IsSound (open_floor meeting_url grant e).1
unfolding open_floor
open_floor-IsSound meeting_url grant e s =
    elim (Bool-cases (
      is_repeated grant.event_key (Dict.get e.floor_open (scope meeting_url grant.test_profile)))) [
        | inl p ↦ rw (open_floor, p) s
        | inr p ↦ elim (Option-cases e.current) [
          | inl q ↦ rw (open_floor, p, q) (give_floor-IsSound meeting_url grant e s)
          | inr (item, q) ↦ rw (open_floor, p, q) s
        ]
      ]

pub cancel_where-IsQueue :
    (p : Item → Bool) (xs : List Item) → IsQueue xs → IsQueue (cancel_where p xs).1
cancel_where-IsQueue p xs = same_places xs _ (cancel_where-place p xs)

pub invalidate_floor-IsSound :
    (meeting_url : Text) (waiters : Bool) (profile : Text) (e : Engine)
    → IsSound e
    → IsSound (invalidate_floor meeting_url waiters profile e).1
unfolding invalidate_floor
invalidate_floor-IsSound meeting_url true profile e s = record {
  in_order = cancel_where-IsQueue _ e.pending s.in_order;
  scoped = All-pop IsScope e.floor_open (scope meeting_url profile) s.scoped;
  in_turn = s.in_turn;
}
invalidate_floor-IsSound meeting_url false profile e s = record {
  in_order = s.in_order;
  scoped = All-pop IsScope e.floor_open (scope meeting_url profile) s.scoped;
  in_turn = s.in_turn;
}

pub invalidate_all-IsSound :
    (waiters : Bool) (e : Engine) → IsSound e → IsSound (invalidate_all_floors waiters e).1
unfolding invalidate_all_floors
invalidate_all-IsSound true e s = record {
  in_order = cancel_where-IsQueue _ e.pending s.in_order;
  scoped = tt;
  in_turn = s.in_turn;
}
invalidate_all-IsSound false e s = record {
  in_order = s.in_order;
  scoped = tt;
  in_turn = s.in_turn;
}
