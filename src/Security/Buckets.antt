-- ===== src/Security/Buckets.antt =====
-- What a bucket grants over time.
use ws_collab.Prelude.{ℕ, ◌+◌, List, [], ◌∷◌, if◌then◌else◌, nat_eq}
use ws_collab.Security.{TokenBucket, take_tokens}

-- The units that are granted to a list of calls, each the time that passed before it and its cost.
unfoldable pub granted : TokenBucket → List (ℕ × ℕ) → ℕ
granted b [] = 0
granted b ((wait, amount) ∷ calls) =
    let t = take_tokens (b.updated + wait) amount b in
    (if t.0 then amount else 0) + granted t.1 calls

unfoldable pub waited : List (ℕ × ℕ) → ℕ
waited [] = 0
waited ((wait, amount) ∷ calls) = wait + waited calls
