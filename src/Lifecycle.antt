-- ===== src/Lifecycle.antt =====
-- src/ws_collab/lifecycle.py: the shutdown and the restart of the server. The host's callbacks are
-- values of a type of its own, and a call of one is an entry of a log.
pub mod Once
use ws_collab.Prelude.{Bool, true, false, Option, none, some, if◌then◌else◌, List, ◌∷◌, ◌++◌, []}
use ws_collab.Errors.{Error, Result, ok, raise}

pub data Action : Type 0 where
  shutdown restart : Action

abbrev pub same : Action → Action → Bool
same Action.shutdown Action.shutdown = true
same Action.restart Action.restart = true
same _ _ = false

pub record Reservation : Type 0 where
  pub action : Action
  pub accepted : Bool

pub data Status : Type 0 where
  scheduled already_scheduled : Status

unfoldable pub status : Reservation → Status
status r = if r.accepted then scheduled else already_scheduled

pub record Controller {ℓ} (Callback : Type ℓ) : Type ℓ where
  pub on_shutdown : Option Callback
  pub on_restart : Option Callback
  pub pending : Option Action
  -- the callbacks that were called
  pub called : List Callback

module _ {ℓ} {Callback : Type ℓ} where
  unfoldable pub callback : Controller Callback → Action → Option Callback
  callback c Action.shutdown = c.on_shutdown
  callback c Action.restart = c.on_restart

  unfoldable pub reserve_pending :
      Controller Callback → Action → Option Action → Result (Reservation × Controller Callback)
  reserve_pending c a none =
      ok (record { action = a; accepted = true }, record c { pending = some a })
  reserve_pending c a (some b) =
      if same b a then ok (record { action = a; accepted = false }, c) else raise Error.conflict

  -- `reserve`
  unfoldable pub reserve : Controller Callback → Action → Result (Reservation × Controller Callback)
  reserve c a = elim (callback c a) [
    | none ↦ raise Error.conflict
    | some f ↦ reserve_pending c a c.pending
  ]

  -- `execute`
  unfoldable pub execute : Controller Callback → Reservation → Controller Callback
  execute c r =
      if r.accepted
      then elim (callback c r.action) [
        | none ↦ c
        | some f ↦ record c { called = c.called ++ f ∷ [] }
      ]
      else c

  -- One request: a reservation and, when it is granted, its execution.
  unfoldable pub request : Controller Callback → Action → Controller Callback
  request c a = elim (reserve c a) [ ok p ↦ execute p.1 p.0 | _ ↦ c ]
