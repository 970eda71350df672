-- ===== src/Security/Access.antt =====
-- src/ws_collab/security.py: which clients are let in by their address, and who a caller without
-- credentials is. Python's `ipaddress` module is a parameter.
use ws_collab.Prelude.{
  Bool, true, false, Option, none, some, List, [], ◌∷◌, if◌then◌else◌, Text, codes,
}
use ws_collab.Errors.{Error, Result, ok, raise}
use ws_collab.Security.{Config, Principal}

-- Whether a text is an address, whether that address is a loopback one, and whether it is in a
-- network, which comes first.
pub record Addresses : Type 0 where
  pub is_address : Text → Bool
  pub is_loopback : Text → Bool
  pub is_within : Text → Text → Bool

-- `default_principal`, by whether authentication is disabled.
unfoldable pub default_principal : Bool → Option Principal
default_principal true =
    some (record {
      is_session = false;
      id = codes "admin";
      role = codes "admin";
      label = codes "local";
    })
default_principal false = none

module _ (ip : Addresses) where
  -- `any(address in network for network in self._allowlist)`
  unfoldable pub is_in_any : List Text → Text → Bool
  is_in_any [] client = false
  is_in_any (network ∷ networks) client =
      if ip.is_within network client then true else is_in_any networks client

  unfoldable pub check_client : List Text → Text → Result {0} Unit
  check_client networks client =
      if ip.is_address client
      then if is_in_any networks client then ok tt else raise Error.authorization
      else raise Error.authorization

  -- `check_allowlist`; without an allow-list everyone is let in.
  unfoldable pub check_allowlist : List Text → Option Text → Result {0} Unit
  check_allowlist [] client = ok tt
  check_allowlist (n ∷ networks) none = raise Error.authorization
  check_allowlist (n ∷ networks) (some []) = raise Error.authorization
  check_allowlist (n ∷ networks) (some (c ∷ cs)) = check_client (n ∷ networks) (c ∷ cs)

  -- `is_loopback_client`
  unfoldable pub is_loopback_client : Option Text → Bool
  is_loopback_client none = false
  is_loopback_client (some []) = false
  is_loopback_client (some (c ∷ cs)) =
      if ip.is_address (c ∷ cs) then ip.is_loopback (c ∷ cs) else false

  -- `is_admin_client_allowed`
  unfoldable pub is_admin_client_allowed : Config → Option Text → Bool
  is_admin_client_allowed c client = if c.admin_remote then true else is_loopback_client client
