-- ===== src/RateLimit/Targets.antt =====
-- `_targets`: the scopes that bear on a request of an endpoint. `urlsplit` is Python's; it gives
-- the scheme and the host in lower case.
use global_news_intelligence.Prelude.{
  ℕ, suc, String, str_eq, not, ◌||◌, Option, none, some, List, [], ◌∷◌, ◌++◌, map, find?, Result,
  ok, ◌>>=◌, ◌>>◌, or_raise, raise_if, rate_limit_error, ◌==◌, ltb, if◌then◌else◌,
}
use global_news_intelligence.Lease.{EndpointConfiguration, is_active_configuration}
use global_news_intelligence.RateLimit.Tables.{Scope}

-- `SourceEndpoint`, as far as it is read here
pub record Endpoint : Type 0 where
  pub id : ℕ
  pub source_id : ℕ
  pub url : String
  pub platform : Option String

-- `IngestionRun`, as far as it is read here
pub record Run : Type 0 where
  pub id : ℕ
  pub source_endpoint_id : ℕ

-- The other tables, which the rate service only reads.
pub record Registry : Type 0 where
  pub endpoints : List Endpoint
  pub configurations : List EndpointConfiguration
  pub runs : List Run

-- The parts of `urllib.parse.SplitResult` that the service reads.
pub record SplitUrl : Type 0 where
  pub scheme : String
  pub hostname : Option String
  pub port : Option ℕ

-- `split.port or (443 if split.scheme == "https" else 80)`
port_or_default : Option ℕ → String → ℕ
port_or_default (some (suc n)) scheme = suc n
port_or_default _ scheme = if str_eq scheme "https" then 443 else 80

-- `split.hostname`, none if it is empty
nonempty : Option String → Option String
nonempty none = none
nonempty (some host) = if str_eq host "" then none else some host

insert_sorted : ℕ → List ℕ → List ℕ
insert_sorted n [] = n ∷ []
insert_sorted n (m ∷ ms) =
    if n == m then m ∷ ms else if ltb n m then n ∷ m ∷ ms else m ∷ insert_sorted n ms

-- `sorted(set(values))`
sorted_set : List ℕ → List ℕ
unfolding insert_sorted
sorted_set [] = []
sorted_set (n ∷ ns) = insert_sorted n (sorted_set ns)

platform_scope : Option String → List Scope
platform_scope none = []
platform_scope (some p) = Scope.platform p ∷ []

unfoldable pub targets : (String → SplitUrl) → Registry → ℕ → List ℕ → Result (List Scope)
unfolding port_or_default nonempty sorted_set platform_scope
targets urlsplit g endpoint_id secrets = do
  endpoint ← or_raise (find? (λ (e : Endpoint). e.id == endpoint_id) g.endpoints) rate_limit_error
  configuration ←
      or_raise (find? (is_active_configuration endpoint_id) g.configurations) rate_limit_error
  let split = urlsplit endpoint.url
  raise_if (not (str_eq split.scheme "http" || str_eq split.scheme "https")) rate_limit_error
  host ← or_raise (nonempty split.hostname) rate_limit_error
  ok (
      Scope.installation
      ∷ Scope.adapter configuration.adapter_id
      ∷ (platform_scope endpoint.platform
          ++ (Scope.origin split.scheme host (port_or_default split.port split.scheme)
              ∷ Scope.source endpoint.source_id
              ∷ Scope.endpoint endpoint.id
              ∷ map Scope.credential (sorted_set secrets))))
