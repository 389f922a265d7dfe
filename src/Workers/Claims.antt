-- ===== src/Workers/Claims.antt =====
-- workers/locks.py: the claims on endpoints, as keys of Redis with a time to live. A key that has
-- expired is as good as absent. Task ids, which `uuid4` draws, are numbers.
use global_news_intelligence.Prelude.{
  ℕ, ◌+◌, ◌==◌, Bool, true, false, not, ◌&&◌, Option, none, some, List, ◌∷◌, find?, filter, Time,
  ltb,
}

-- A key with its value.
pub record Claim : Type 0 where
  pub endpoint_id : ℕ
  pub owner : ℕ
  pub expires_at : Time

abbrev pub is_live : Time → ℕ → Claim → Bool
is_live now endpoint c = c.endpoint_id == endpoint && ltb now c.expires_at

abbrev pub is_other : ℕ → Claim → Bool
is_other endpoint c = not (c.endpoint_id == endpoint)

abbrev pub owner_of : Option Claim → Option ℕ
owner_of none = none
owner_of (some c) = some c.owner

-- `get_endpoint_claim_owner`
unfoldable pub get_owner : Time → ℕ → List Claim → Option ℕ
get_owner now endpoint cs = owner_of (find? (is_live now endpoint) cs)

unfoldable pub set_if_absent : Time → ℕ → ℕ → ℕ → Option ℕ → List Claim → Bool × List Claim
set_if_absent now ttl endpoint owner (some _) cs = (false, cs)
set_if_absent now ttl endpoint owner none cs = (
  true,
  record { endpoint_id = endpoint; owner = owner; expires_at = now + ttl }
      ∷ filter (is_other endpoint) cs,
)

-- `acquire_endpoint_claim`: `SET key owner NX EX ttl`
unfoldable pub acquire : Time → ℕ → ℕ → ℕ → List Claim → Bool × List Claim
unfolding set_if_absent
acquire now ttl endpoint owner cs =
    set_if_absent now ttl endpoint owner (get_owner now endpoint cs) cs

unfoldable pub delete_if : Bool → ℕ → List Claim → Bool × List Claim
delete_if false endpoint cs = (false, cs)
delete_if true endpoint cs = (true, filter (is_other endpoint) cs)

abbrev pub is_owner : Option ℕ → ℕ → Bool
is_owner none owner = false
is_owner (some x) owner = x == owner

-- `release_endpoint_claim`: the script compares and deletes
unfoldable pub release : Time → ℕ → ℕ → List Claim → Bool × List Claim
unfolding delete_if
release now endpoint owner cs = delete_if (is_owner (get_owner now endpoint cs) owner) endpoint cs
