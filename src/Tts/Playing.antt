-- ===== src/Tts/Playing.antt =====
-- The playback keeps the queue in order and the notices in turn.
use ws_collab.Dict.Keys.{All-pop}
use ws_collab.Tts.Sound.{InTurn-append, follow_all, follow, id_of, IsSound}
use ws_collab.Prelude.{
  ℕ, ◌≡◌, refl, ap, ◌∙◌, ◌⊎◌, inl, inr, Bool, true, false, Option, none, some, List, [], ◌∷◌, arith,
  if◌then◌else◌, Bool-cases, Option-cases, nat_eq, text_eq,
}
use ws_collab.Tts.{floor_eq, Item, Engine, remove_item, is_blocked}
use ws_collab.Tts.Playback.{
  next_from, next_key, choose, next_item, begin_item, begin, finish, Choice, drop_it, pass_over,
  take_it, take_with_floor,
}
use ws_collab.Tts.Order.{sort_items-IsQueue, remove_item-IsQueue}
use ws_collab.Tts.Turns.{IsScope}

Choice-cases :
    (guard : Option (Item → Bool)) (c : Choice guard)
    → ((c ≡ drop_it) ⊎ (c ≡ pass_over)) ⊎ ((c ≡ take_it) ⊎ (c ≡ take_with_floor))
Choice-cases guard drop_it = inl (inl refl)
Choice-cases guard pass_over = inl (inr refl)
Choice-cases guard take_it = inr (inl refl)
Choice-cases guard take_with_floor = inr (inr refl)

-- A queue that one item has left.
removed-IsSound :
    (item : Item) (e : Engine)
    → IsSound e
    → IsSound (record e { pending = remove_item item e.pending })
removed-IsSound item e s = record {
  in_order = remove_item-IsQueue item e.pending s.in_order;
  scoped = s.scoped;
  in_turn = s.in_turn;
}

next_from-IsSound :
    (guard : Option (Item → Bool)) (items : List Item) (e : Engine)
    → IsSound e
    → IsSound (next_from guard items e).1 × ((next_from guard items e).1.current ≡ e.current)
unfolding next_from
next_from-IsSound guard [] e s = (s, refl)
next_from-IsSound guard (item ∷ items) e s =
    let left = removed-IsSound item e s in
    elim (Choice-cases guard (choose guard item e)) [
      | inl (inl p) ↦ rw (next_from, p) (next_from-IsSound guard items _ left)
      | inl (inr p) ↦ rw (next_from, p) (next_from-IsSound guard items e s)
      | inr (inl p) ↦ rw (next_from, p) (left, refl)
      | inr (inr p) ↦
          rw (next_from, p)
            (
              (record {
                in_order = left.in_order;
                scoped = All-pop IsScope e.floor_open (next_key item) s.scoped;
                in_turn = left.in_turn;
              }),
              refl,
            )
    ]

pub next_item-IsSound :
    (guard : Option (Item → Bool)) (e : Engine)
    → IsSound e
    → IsSound (next_item guard e).1 × ((next_item guard e).1.current ≡ e.current)
unfolding next_item
next_item-IsSound guard e s =
    elim e.paused_global
      as (λ b.
        let n = if b then (none, e) else next_from guard e.pending e in
        IsSound n.1 × (n.1.current ≡ e.current)) [
          | true ↦ (s, refl)
          | false ↦ next_from-IsSound guard e.pending e s
        ]

begin_item-IsSound :
    (now : ℕ) (guard : Option (Item → Bool)) (o : Option Item) (e : Engine)
    → e.current ≡ none
    → IsSound e
    → IsSound (begin_item now guard o e).1
unfolding begin_item follow_all follow
begin_item-IsSound now guard none e h s = s
begin_item-IsSound now guard (some item) e h s = elim (Bool-cases (is_blocked guard item)) [
  | inl p ↦
      rw (begin_item, p)
        (record {
          in_order = sort_items-IsQueue _;
          scoped = s.scoped;
          in_turn = s.in_turn ∙ ap (λ c. some (id_of c)) h;
        })
  | inr p ↦
      rw (begin_item, p)
        (record {
          in_order = s.in_order;
          scoped = s.scoped;
          in_turn =
              InTurn-append e.published _ none (some item) (s.in_turn ∙ ap (λ c. some (id_of c)) h)
                refl;
        })
]

pub begin-IsSound :
    (now : ℕ) (guard again : Option (Item → Bool)) (e : Engine)
    → e.current ≡ none
    → IsSound e
    → IsSound (begin now guard again e).1
unfolding begin
begin-IsSound now guard again e h s =
    let n = next_item-IsSound guard e s in begin_item-IsSound now again _ _ (n.1 ∙ h) n.0

pub finish-IsSound : (e : Engine) → IsSound e → IsSound (finish e)
unfolding finish follow_all follow
finish-IsSound e s = elim (Option-cases e.current) [
  | inl p ↦ rw (finish, p) s
  | inr (item, p) ↦
      rw (finish, p)
        (record {
          in_order = s.in_order;
          scoped = s.scoped;
          in_turn =
              InTurn-append e.published _ (some item) none (s.in_turn ∙ ap (λ c. some (id_of c)) p)
                (ground (arith, text_eq.same_iff item.id item.id));
        })
]
