-- ===== src/Lifecycle/Once.antt =====
-- However many requests arrive, one action is taken, and it is the first that the host supports.
use ws_collab.Prelude.{
  ◌≡◌, refl, ap, ◌∙◌, inl, inr, none, some, List, [], ◌∷◌, ◌++◌, Bool-cases, Option-cases,
}
use ws_collab.Lifecycle.{
  Action, Controller, request, callback, reserve, execute, reserve_pending, same,
}

module _ {ℓ} {Callback : Type ℓ} where
  -- The requests of a list, one after the other.
  unfoldable pub requests : Controller Callback → List Action → Controller Callback
  requests c [] = c
  requests c (a ∷ rest) = requests (request c a) rest

  -- Once an action is pending, requests change nothing.
  pub request-pending :
      (c : Controller Callback) (a b : Action) → c.pending ≡ some b → request c a ≡ c
  unfolding request reserve execute reserve_pending callback
  request-pending c a b h = elim (Option-cases (callback c a)) [
    | inl p ↦ rw (request, reserve, p) refl
    | inr (f, p) ↦ elim (Bool-cases (same b a)) [
      | inl q ↦ simp (request, reserve, p, reserve_pending, h, q, execute)
      | inr q ↦ simp (request, reserve, p, reserve_pending, h, q, execute)
    ]
  ]

  pub requests-pending :
      (c : Controller Callback) (rest : List Action) (b : Action)
      → c.pending ≡ some b
      → requests c rest ≡ c
  unfolding requests
  requests-pending c [] b h = refl
  requests-pending c (a ∷ rest) b h = rw (request-pending c a b h) (requests-pending c rest b h)

  request_first :
      (c : Controller Callback) (a : Action) (f : Callback)
      → c.pending ≡ none
      → callback c a ≡ some f
      → request c a ≡ record c { pending = some a; called = c.called ++ f ∷ [] }
  unfolding request reserve execute reserve_pending callback
  request_first c Action.shutdown f h k =
      rw (request, reserve, callback, k, reserve_pending, h, execute, callback, k)
        (ap
          (λ z. record c {
            on_shutdown = z;
            pending = some Action.shutdown;
            called = c.called ++ f ∷ [];
          })
          k)
  request_first c Action.restart f h k =
      rw (request, reserve, callback, k, reserve_pending, h, execute, callback, k)
        (ap
          (λ z. record c {
            on_restart = z;
            pending = some Action.restart;
            called = c.called ++ f ∷ [];
          })
          k)

  -- When nothing is pending and the host has given a callback for the first request, then that
  -- callback is called once, and whatever is requested afterwards calls nothing.
  pub requests-first :
      (c : Controller Callback) (a : Action) (rest : List Action) (f : Callback)
      → c.pending ≡ none
      → callback c a ≡ some f
      → (requests c (a ∷ rest)).called ≡ c.called ++ f ∷ []
  unfolding requests
  requests-first c a rest f h k =
      ap (λ z. (requests z rest).called) (request_first c a f h k)
      ∙ ap (λ z. z.called) (requests-pending _ rest a refl)
