-- ===== src/Alerts/Administration.antt =====
-- What the creation and the update of a destination do to its table, for
-- app/services/alert_service.py.
use mathlib.Core.Path.{◌≡◌, refl, subst, ap, sym, ◌∙◌}
use native.Mathlib.Omega.{arith}
use global_news_intelligence.Prelude.{
  ℕ, ◌==◌, Bool, true, false, not, ◌||◌, some, [], ◌∷◌, ◌++◌, any, find?, update, ok, found-ok,
  guard-ok, bind-ok, eq_iff, ok-injective, ltb, find?-update, find?-holds, find?-append_one,
  find?_of_any,
}
use global_news_intelligence.Alerts.Tables.{Destination, AlertDb}
use global_news_intelligence.Alerts.Destinations.{
  DestinationUpdate, satisfies_checks, clashes, clashes_other, has_slug, create_destination,
  value_or, nullable_or, assigned, update_destination,
}

not_or-left : (a b : Bool) → (not a || b) ≡ false → a ≡ true
not_or-left a b h = ground arith

not_or-right : (a b : Bool) → (not a || b) ≡ false → b ≡ false
not_or-right a b h = ground arith

-- What an assignment that succeeds has made of a row.
record Assigned (input : DestinationUpdate) (d : Destination) (base maximum : ℕ) (d' : Destination)
    : Type 0 where
  pub id : d'.id ≡ d.id
  pub slug : d'.slug ≡ d.slug
  pub name : value_or input.name d.name ≡ some d'.name
  pub base_url : value_or input.base_url d.base_url ≡ some d'.base_url
  pub topic : value_or input.topic d.topic ≡ some d'.topic
  pub auth_token_env_var :
      nullable_or input.auth_token_env_var d.auth_token_env_var ≡ d'.auth_token_env_var
  pub is_active : value_or input.is_active d.is_active ≡ some d'.is_active
  pub request_timeout_seconds :
      value_or input.request_timeout_seconds d.request_timeout_seconds
      ≡ some d'.request_timeout_seconds
  pub max_attempts : value_or input.max_attempts d.max_attempts ≡ some d'.max_attempts
  pub retry_base_seconds : d'.retry_base_seconds ≡ base
  pub retry_max_seconds : d'.retry_max_seconds ≡ maximum

assigned-Assigned :
    (input : DestinationUpdate) (d : Destination) (base maximum : ℕ) (d' : Destination)
    → assigned input d base maximum ≡ ok d'
    → Assigned input d base maximum d'
unfolding assigned
assigned-Assigned input d base maximum d' h =
    let (name, e1, h1) = found-ok (value_or input.name d.name) _ _ _ h in
    let (base_url, e2, h2) = found-ok (value_or input.base_url d.base_url) _ _ _ h1 in
    let (topic, e3, h3) = found-ok (value_or input.topic d.topic) _ _ _ h2 in
    let (active, e4, h4) = found-ok (value_or input.is_active d.is_active) _ _ _ h3 in
    let (timeout, e5, h5) =
      found-ok (value_or input.request_timeout_seconds d.request_timeout_seconds) _ _ _ h4 in
    let (attempts, e6, h6) = found-ok (value_or input.max_attempts d.max_attempts) _ _ _ h5 in
    subst (Assigned input d base maximum) (ok-injective _ _ h6) record {
      id = refl;
      slug = refl;
      name = e1;
      base_url = e2;
      topic = e3;
      auth_token_env_var = refl;
      is_active = e4;
      request_timeout_seconds = e5;
      max_attempts = e6;
      retry_base_seconds = refl;
      retry_max_seconds = refl;
    }

-- After an update that succeeds the look-up of the destination gives its row with the values that
-- were set, its id, its slug and its other values kept; the row satisfies its checks and clashes
-- with no other row.
update_destination-row :
    (id : ℕ) (input : DestinationUpdate) (s s' : AlertDb) (d' : Destination)
    → update_destination id input s ≡ ok (s', d')
    → (d : Destination) × (find? (λ (x : Destination). x.id == id) s.destinations ≡ some d)
      × (find? (λ (x : Destination). x.id == id) s'.destinations ≡ some d')
      × (base : ℕ) × (maximum : ℕ) × (value_or input.retry_base_seconds d.retry_base_seconds
          ≡ some base)
      × (value_or input.retry_max_seconds d.retry_max_seconds ≡ some maximum)
      × Assigned input d base maximum d'
      × (satisfies_checks d' ≡ true)
      × (any (clashes_other d') s.destinations ≡ false)
unfolding update_destination
update_destination-row id input s s' d' h =
    let (d, found, h1) =
      found-ok (find? (λ (x : Destination). x.id == id) s.destinations) _ _ _ h in
    let (base, e1, h2) =
      found-ok (value_or input.retry_base_seconds d.retry_base_seconds) _ _ _ h1 in
    let (maximum, e2, h3) =
      found-ok (value_or input.retry_max_seconds d.retry_max_seconds) _ _ _ h2 in
    let (ordered, h4) = guard-ok (ltb maximum base) _ _ _ h3 in
    let (e, written, h5) = bind-ok (assigned input d base maximum) _ _ h4 in
    let (accepted, h6) =
      guard-ok (not (satisfies_checks e) || any (clashes_other e) s.destinations) _ _ _ h5 in
    let same : (
      record s { destinations = update (λ (x : Destination). x.id == id) (λ _. e) s.destinations },
      e,
    )
        ≡ (s', d') =
      ok-injective _ _ h6 in
    let row : Assigned input d base maximum e = assigned-Assigned input d base maximum e written in
    let key : (d.id == id) ≡ true =
      find?-holds (λ (x : Destination). x.id == id) s.destinations d found in
    let stays : (e.id == id) ≡ true = ap (λ n. n == id) row.id ∙ key in
    let kept : find? (λ (x : Destination). x.id == id)
          (update (λ (x : Destination). x.id == id) (λ _. e) s.destinations)
        ≡ some e =
      find?-update (λ (x : Destination). x.id == id) (λ _. e) s.destinations d (λ _ _. stays)
        found in
    let (now_kept, now_row, now_checked, now_alone) =
      subst
        (λ (z : AlertDb × Destination).
          (find? (λ (x : Destination). x.id == id) z.0.destinations ≡ some z.1)
          × Assigned input d base maximum z.1
          × (satisfies_checks z.1 ≡ true)
          × (any (clashes_other z.1) s.destinations ≡ false))
        same (kept, row, not_or-left _ _ accepted, not_or-right _ _ accepted) in
    (d, found, now_kept, base, maximum, e1, e2, now_row, now_checked, now_alone)

-- A destination that is created satisfies its checks and clashes with no row, and the look-up of
-- its slug gives it.
create_destination-row :
    (d d' : Destination) (s s' : AlertDb)
    → create_destination d s ≡ ok (s', d')
    → (d' ≡ d)
      × (satisfies_checks d ≡ true)
      × (any (clashes d) s.destinations ≡ false)
      × (find? (has_slug d.slug) s'.destinations ≡ some d)
unfolding create_destination
create_destination-row d d' s s' h =
    let (fresh, h1) = guard-ok (any (has_slug d.slug) s.destinations) _ _ _ h in
    let (accepted, h2) =
      guard-ok (not (satisfies_checks d) || any (clashes d) s.destinations) _ _ _ h1 in
    let key : has_slug d.slug d ≡ true = (eq_iff d.slug d.slug).1 refl in
    let new : find? (has_slug d.slug) (s.destinations ++ d ∷ []) ≡ some d = ground (
      arith,
      find?-append_one (has_slug d.slug) s.destinations d
          (find?_of_any (has_slug d.slug) s.destinations fresh),
      key,
    ) in
    let same : (record s { destinations = s.destinations ++ d ∷ [] }, d) ≡ (s', d') =
      ok-injective _ _ h2 in
    (
      sym (ap (λ (z : AlertDb × Destination). z.1) same),
      not_or-left _ _ accepted,
      not_or-right _ _ accepted,
      subst (λ (z : AlertDb × Destination). find? (has_slug d.slug) z.0.destinations ≡ some d) same
          new,
    )
