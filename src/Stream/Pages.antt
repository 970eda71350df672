-- ===== src/Stream/Pages.antt =====
-- The loop of `read` over what an iterator yields: what a page holds, and where the next one starts.
use ws_collab.Prelude.{
  ℕ, ◌+◌, ◌≤◌, ◌<◌, ◌≡◌, refl, ap, ◌∙◌, inl, inr, Bool, true, false, List, [], ◌∷◌, ◌++◌,
  append_assoc, arith, leb, if◌then◌else◌, Bool-cases, length, length-append, nat_eq,
}
use ws_collab.Errors.{ok}
use ws_collab.Event.{Event}
use ws_collab.Stream.Read.{Item, event, malformed, crash, Page, collect}

-- The events have rising numbers, above `lo` and up to `hi`, and no record raises.
abbrev pub Chain : ℕ → List Item → ℕ → Type 0
Chain lo [] hi = lo ≤ hi
Chain lo (malformed ∷ items) hi = Chain lo items hi
Chain lo (crash ∷ items) hi = ⊥
Chain lo (event e n stop gen ∷ items) hi = (lo < n) × Chain n items hi

-- The events that a reader keeps.
unfoldable pub matching : (Event → Bool) → List Item → List Event
matching keep [] = []
matching keep (malformed ∷ items) = matching keep items
matching keep (crash ∷ items) = matching keep items
matching keep (event e n stop gen ∷ items) =
    let rest = matching keep items in if keep e then e ∷ rest else rest

-- The events behind a position.
unfoldable pub behind : ℕ → List Item → List Item
behind a [] = []
behind a (malformed ∷ items) = malformed ∷ behind a items
behind a (crash ∷ items) = crash ∷ behind a items
behind a (event e n stop gen ∷ items) =
    let rest = behind a items in if leb n a then rest else event e n stop gen ∷ rest

pub Chain-le : (lo hi : ℕ) (items : List Item) → Chain lo items hi → lo ≤ hi
Chain-le lo hi [] h = h
Chain-le lo hi (malformed ∷ items) h = Chain-le lo hi items h
Chain-le lo hi (crash ∷ items) h = absurd h
Chain-le lo hi (event e n stop gen ∷ items) h = omega (arith, Chain-le n hi items h.1)

-- Nothing is dropped behind a position below the chain.
pub behind_below :
    (a lo hi : ℕ) (items : List Item) → a ≤ lo → Chain lo items hi → behind a items ≡ items
unfolding behind
behind_below a lo hi [] p h = refl
behind_below a lo hi (malformed ∷ items) p h = ap (◌∷◌ malformed) (behind_below a lo hi items p h)
behind_below a lo hi (crash ∷ items) p h = absurd h
behind_below a lo hi (event e n stop gen ∷ items) p h = ground (arith, behind_below a n hi items)

-- Behind the last number nothing is kept.
pub matching-behind_end :
    (keep : Event → Bool) (lo hi a : ℕ) (items : List Item)
    → hi ≤ a
    → Chain lo items hi
    → matching keep (behind a items) ≡ []
unfolding matching behind
matching-behind_end keep lo hi a [] p h = refl
matching-behind_end keep lo hi a (malformed ∷ items) p h =
    matching-behind_end keep lo hi a items p h
matching-behind_end keep lo hi a (crash ∷ items) p h = absurd h
matching-behind_end keep lo hi a (event e n stop gen ∷ items) p h =
    ground (arith, Chain-le n hi items, matching-behind_end keep n hi a items)

-- What a page owes its reader: `p` is the page before the loop and `q` the one behind it.
pub record IsPage (limit : ℕ) (keep : Event → Bool) (items : List Item) (p q : Page) : Type 0 where
  -- Nothing is lost and nothing comes twice.
  pub complete :
      q.events ++ matching keep (behind q.last_seq items) ≡ p.events ++ matching keep items
  pub forward : p.last_seq ≤ q.last_seq
  pub bounded : length p.events ≤ limit → length q.events ≤ limit
  -- Without more to come, the page holds all that was left.
  pub finished : q.has_more ≡ false → matching keep (behind q.last_seq items) ≡ []

behind_first :
    (a : ℕ) (e : Event) (n stop gen : ℕ) (items : List Item)
    → n ≤ a
    → behind a (event e n stop gen ∷ items) ≡ behind a items
unfolding behind
behind_first a e n stop gen items h = ground arith

unfoldable pub taken : (Event → Bool) → Event → ℕ → ℕ → ℕ → Page → Page
taken keep e n stop gen p = record p {
  events = if keep e then p.events ++ e ∷ [] else p.events;
  last_seq = n;
  last_offset = stop;
  last_gen = gen;
}

taken-events :
    (keep : Event → Bool) (e : Event) (n stop gen : ℕ) (p : Page) (items : List Item)
    → (taken keep e n stop gen p).events ++ matching keep items
      ≡ p.events ++ matching keep (event e n stop gen ∷ items)
unfolding taken matching
taken-events keep e n stop gen p items =
    ground (arith, append_assoc p.events (e ∷ []) (matching keep items))

taken-length :
    (limit : ℕ) (keep : Event → Bool) (e : Event) (n stop gen : ℕ) (p : Page)
    → length p.events < limit
    → length (taken keep e n stop gen p).events ≤ limit
unfolding taken
taken-length limit keep e n stop gen p h = ground (arith, length-append p.events (e ∷ []))

-- The loop ends with such a page on every chain of records.
pub collect-IsPage :
    (limit : ℕ) (keep : Event → Bool) (lo hi : ℕ) (items : List Item) (p : Page)
    → p.last_seq ≤ lo
    → p.has_more ≡ false
    → Chain lo items hi
    → (q : Page) × (collect limit keep items p ≡ ok q) × IsPage limit keep items p q
unfolding collect matching behind taken
collect-IsPage limit keep lo hi [] p l m h = (
  p,
  refl,
  record { complete = refl; forward = omega arith; bounded = λ b. b; finished = λ _. refl },
)
collect-IsPage limit keep lo hi (malformed ∷ items) p l m h =
    let (q, e, g) =
      collect-IsPage limit keep lo hi items (record p { malformed_lines = p.malformed_lines + 1 }) l
        m h in
    (
      q,
      e,
      record {
        complete = g.complete;
        forward = g.forward;
        bounded = g.bounded;
        finished = g.finished;
      },
    )
collect-IsPage limit keep lo hi (crash ∷ items) p l m h = absurd h
collect-IsPage limit keep lo hi (event e n stop gen ∷ items) p l m h =
    let first = event e n stop gen ∷ items in
    elim (Bool-cases (leb limit (length p.events))) [
      | inl full ↦ (
        record p { has_more = true },
        rw full,
        record {
          complete =
              ap (λ z. p.events ++ matching keep z) (behind_below p.last_seq lo hi first l h);
          forward = omega arith;
          bounded = λ b. b;
          finished = λ t. cc;
        },
      )
      | inr room ↦
          let p' = taken keep e n stop gen p in
          let (q, done, g) = collect-IsPage limit keep n hi items p' (omega arith) (m) h.1 in
          let drop_e : behind q.last_seq first ≡ behind q.last_seq items =
            behind_first q.last_seq e n stop gen items (g.forward) in
          (
            q,
            rw room (done),
            record {
              complete =
                  ap (λ z. q.events ++ matching keep z) drop_e
                  ∙ g.complete
                  ∙ taken-events keep e n stop gen p items;
              forward = let f : n ≤ q.last_seq = g.forward in omega arith;
              bounded = λ b. g.bounded (taken-length limit keep e n stop gen p (ground arith));
              finished = λ t. ap (matching keep) drop_e ∙ g.finished t;
            },
          )
    ]
