-- ===== src/Alerts/Destinations.antt =====
-- `create_destination` and `update_destination` of app/services/alert_service.py with the
-- constraints of `AlertDestination` of app/models/alert.py. The channel, which is always ntfy, and
-- the metadata are left out. The length and the format of an input are tested by its schema.
use global_news_intelligence.Prelude.{
  ℕ, String, str_eq, ◌==◌, Bool, not, ◌&&◌, ◌||◌, Option, none, some, [], ◌∷◌, ◌++◌, any, find?,
  update, Result, ok, ◌>>=◌, ◌>>◌, raise_if, or_raise, not_found, conflict, invalid_update,
  type_error, ltb,
}
use global_news_intelligence.Lease.{is_blank}
use global_news_intelligence.Monitors.Tables.{is_slug}
use global_news_intelligence.Alerts.Tables.{Destination, AlertDb, satisfies_snapshot}

-- The checks on the row of a destination
unfoldable pub satisfies_checks : Destination → Bool
satisfies_checks d =
    is_slug d.slug
    && not (is_blank d.name)
    && satisfies_snapshot d.base_url d.topic d.auth_token_env_var d.request_timeout_seconds
        d.max_attempts d.retry_base_seconds d.retry_max_seconds

-- Two rows with one slug or with one endpoint
abbrev pub clashes : Destination → Destination → Bool
clashes a b = str_eq a.slug b.slug || (str_eq a.base_url b.base_url && str_eq a.topic b.topic)

-- A changed row against the others
abbrev pub clashes_other : Destination → Destination → Bool
clashes_other a b = not (b.id == a.id) && clashes a b

-- `get_destination_by_slug`
abbrev pub has_slug : String → Destination → Bool
has_slug slug d = str_eq slug d.slug

-- The row, whose id the sequence of the database gives, has the values of the input.
unfoldable pub create_destination : Destination → AlertDb → Result (AlertDb × Destination)
unfolding satisfies_checks
create_destination d s = do
  raise_if (any (has_slug d.slug) s.destinations) conflict
  raise_if (not (satisfies_checks d) || any (clashes d) s.destinations) conflict
  ok (record s { destinations = s.destinations ++ d ∷ [] }, d)

-- `AlertDestinationUpdate`: a field may be unset, and a field that is set may be null.
pub record DestinationUpdate : Type 0 where
  pub name : Option (Option String)
  pub base_url : Option (Option String)
  pub topic : Option (Option String)
  pub auth_token_env_var : Option (Option String)
  pub is_active : Option (Option Bool)
  pub request_timeout_seconds : Option (Option ℕ)
  pub max_attempts : Option (Option ℕ)
  pub retry_base_seconds : Option (Option ℕ)
  pub retry_max_seconds : Option (Option ℕ)

-- `values.get(field_name, current)`
abbrev pub value_or {ℓ} : {A : Type ℓ} → Option (Option A) → A → Option A
value_or none current = some current
value_or (some v) current = v

abbrev pub nullable_or {ℓ} : {A : Type ℓ} → Option (Option A) → Option A → Option A
nullable_or none current = current
nullable_or (some v) current = v

-- The fields are assigned and written; null in a column that admits none violates its constraint.
unfoldable pub assigned : DestinationUpdate → Destination → ℕ → ℕ → Result Destination
assigned input d base maximum = do
  name ← or_raise (value_or input.name d.name) conflict
  base_url ← or_raise (value_or input.base_url d.base_url) conflict
  topic ← or_raise (value_or input.topic d.topic) conflict
  active ← or_raise (value_or input.is_active d.is_active) conflict
  timeout ← or_raise (value_or input.request_timeout_seconds d.request_timeout_seconds) conflict
  attempts ← or_raise (value_or input.max_attempts d.max_attempts) conflict
  ok (record d {
    name = name;
    base_url = base_url;
    topic = topic;
    auth_token_env_var = nullable_or input.auth_token_env_var d.auth_token_env_var;
    is_active = active;
    request_timeout_seconds = timeout;
    max_attempts = attempts;
    retry_base_seconds = base;
    retry_max_seconds = maximum;
  })

-- A comparison with a null raises a `TypeError`.
unfoldable pub update_destination : ℕ → DestinationUpdate → AlertDb → Result (AlertDb × Destination)
unfolding assigned satisfies_checks
update_destination id input s = do
  d ← or_raise (find? (λ (x : Destination). x.id == id) s.destinations) not_found
  base ← or_raise (value_or input.retry_base_seconds d.retry_base_seconds) type_error
  maximum ← or_raise (value_or input.retry_max_seconds d.retry_max_seconds) type_error
  raise_if (ltb maximum base) invalid_update
  d' ← assigned input d base maximum
  raise_if (not (satisfies_checks d') || any (clashes_other d') s.destinations) conflict
  ok (
    record s { destinations = update (λ (x : Destination). x.id == id) (λ _. d') s.destinations },
    d',
  )
