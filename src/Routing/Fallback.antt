-- ===== src/Routing/Fallback.antt =====
-- No device stands in for another unless the route says so.
use ws_collab.Prelude.{◌≡◌, ◌≢◌, true, false, Option, none, some, List, nat_eq, Text, codes}
use ws_collab.Texts.{is_in}
use ws_collab.Errors.{Error, Result, ok, raise}
use ws_collab.Dict
use ws_collab.Routing.{Manager, Route, Resolved, no_route, no_fallback, device}

-- The answers that the routes allow.
abbrev pub IsAllowed : Option Route → List Text → Result (Resolved × Manager) → Type 0
IsAllowed none available (ok (no_route, m)) = Unit
IsAllowed (some r) available (ok (no_fallback, m)) =
    (is_in available r.device_id ≡ false) × (r.fallback_policy ≢ codes "fail")
IsAllowed (some r) available (ok (device d r' false, m)) =
    (r' ≡ r) × ((d ≡ r.device_id) × (is_in available d ≡ true))
IsAllowed (some r) available (ok (device d r' true, m)) =
    (r' ≡ r)
    × ((d ≡ r.fallback_device_id)
        × ((is_in available d ≡ true)
            × ((is_in available r.device_id ≡ false)
                × (r.fallback_policy ≡ codes "explicit_device"))))
IsAllowed (some r) available (raise e) =
    (e ≡ Error.conflict)
    × ((is_in available r.device_id ≡ false) × (r.fallback_policy ≡ codes "fail"))
IsAllowed _ _ _ = ⊥
