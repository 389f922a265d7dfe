-- ===== src/Alerts/Routing.antt =====
-- `set_monitor_destination` of app/services/alert_service.py with `get_monitor_binding` of
-- app/repositories/alert_repository.py: the destinations to which the alerts of a monitor go.
use mathlib.Core.Path.{◌≡◌, refl, ap, sym, subst, ◌∙◌}
use native.Mathlib.Omega.{arith}
use mathlib.Core.Logic.{inl, inr}
use global_news_intelligence.Prelude.{
  ℕ, ◌==◌, Bool, true, false, ◌&&◌, Option, none, some, List, [], ◌∷◌, ◌++◌, find?, update, Result,
  ok, ◌>>=◌, or_raise, not_found, Bool-cases, if◌then◌else◌, found-ok, ok-injective,
  find?-append_one, find?-update,
}
use global_news_intelligence.Alerts.Tables.{Priority, Destination, Monitor, Route, AlertDb}
use global_news_intelligence.Alerts.Creation.{links}

-- `MonitorAlertDestinationInput`
pub record RouteInput : Type 0 where
  pub destination_id : ℕ
  pub is_enabled : Bool
  pub priority : Option Priority

-- The primary key of a route.
abbrev pub binds : ℕ → ℕ → Route → Bool
binds monitor destination r = r.monitor_id == monitor && r.destination_id == destination

abbrev pub assign : RouteInput → Route → Route
assign input r = record r { is_enabled = input.is_enabled; priority = input.priority }

abbrev new_route : ℕ → RouteInput → Route
new_route monitor input = record {
  monitor_id = monitor;
  destination_id = input.destination_id;
  is_enabled = input.is_enabled;
  priority = input.priority;
}

-- The row is added, or the one that was found is changed.
unfoldable pub put_route : ℕ → RouteInput → Option Route → List Route → List Route × Route
put_route monitor input none routes =
    (routes ++ new_route monitor input ∷ [], new_route monitor input)
put_route monitor input (some r) routes =
    (update (binds monitor input.destination_id) (assign input) routes, assign input r)

unfoldable pub set_monitor_destination : ℕ → RouteInput → AlertDb → Result (AlertDb × Route)
unfolding put_route
set_monitor_destination monitor input s = do
  _ ← or_raise (find? (λ (m : Monitor). m.id == monitor) s.monitors) not_found
  _ ← or_raise (find? (λ (d : Destination). d.id == input.destination_id) s.destinations) not_found
  let found = find? (binds monitor input.destination_id) s.routes
  let written = put_route monitor input found s.routes
  ok (record s { routes = written.0 }, written.1)

-- Another row is not found in a row that is changed or added.
find?-update_other :
    (q p : Route → Bool) (f : Route → Route) (routes : List Route)
    → ((r : Route) → p r ≡ true → q r ≡ false)
    → ((r : Route) → p r ≡ true → q (f r) ≡ false)
    → find? q (update p f routes) ≡ find? q routes
unfolding find? update
find?-update_other q p f [] h k = refl
find?-update_other q p f (x ∷ xs) h k = ground (arith, h x, k x, find?-update_other q p f xs h k)

find?-append_other :
    (q : Route → Bool) (routes : List Route) (y : Route)
    → q y ≡ false
    → find? q (routes ++ y ∷ []) ≡ find? q routes
unfolding find?
find?-append_other q [] y h = ground arith
find?-append_other q (x ∷ xs) y h = ground (arith, find?-append_other q xs y h)

-- Two different keys are not those of one row.
binds-other :
    (m d monitor destination : ℕ) (r : Route)
    → (m == monitor && d == destination) ≡ false
    → binds monitor destination r ≡ true
    → binds m d r ≡ false
binds-other m d monitor destination r h k = ground arith

put_route-found :
    (monitor : ℕ) (input : RouteInput) (o : Option Route) (routes : List Route)
    → find? (binds monitor input.destination_id) routes ≡ o
    → find? (binds monitor input.destination_id) ((put_route monitor input o routes).0)
      ≡ some ((put_route monitor input o routes).1)
unfolding put_route
put_route-found monitor input none routes e = ground (
  arith,
  find?-append_one (binds monitor input.destination_id) routes (new_route monitor input) e,
)
put_route-found monitor input (some r) routes e =
    find?-update (binds monitor input.destination_id) (assign input) routes r (λ x k. k) e

put_route-other :
    (monitor : ℕ) (input : RouteInput) (o : Option Route) (routes : List Route) (m d : ℕ)
    → (m == monitor && d == input.destination_id) ≡ false
    → find? (binds m d) ((put_route monitor input o routes).0) ≡ find? (binds m d) routes
unfolding put_route
put_route-other monitor input none routes m d h =
    find?-append_other (binds m d) routes (new_route monitor input) (ground arith)
put_route-other monitor input (some r) routes m d h =
    find?-update_other (binds m d) (binds monitor input.destination_id) (assign input) routes
      (λ x k. binds-other m d monitor input.destination_id x h k)
      (λ x k. binds-other m d monitor input.destination_id x h k)

find?-unlinked :
    (monitor d : ℕ) (routes : List Route)
    → find? (binds monitor d) routes ≡ none
    → find? (links monitor d) routes ≡ none
unfolding find?
find?-unlinked monitor d [] e = refl
find?-unlinked monitor d (x ∷ xs) e = ground (arith, find?-unlinked monitor d xs)

find?-disabled :
    (monitor : ℕ) (input : RouteInput) (routes : List Route)
    → input.is_enabled ≡ false
    → find?
        (links monitor input.destination_id)
        (update (binds monitor input.destination_id) (assign input) routes)
      ≡ none
unfolding find? update
find?-disabled monitor input [] e = refl
find?-disabled monitor input (x ∷ xs) e = ground (arith, find?-disabled monitor input xs e)

find?-enabled :
    (monitor : ℕ) (input : RouteInput) (routes : List Route) (r : Route)
    → input.is_enabled ≡ true
    → find? (binds monitor input.destination_id) routes ≡ some r
    → find?
        (links monitor input.destination_id)
        (update (binds monitor input.destination_id) (assign input) routes)
      ≡ some (assign input r)
unfolding find? update
find?-enabled monitor input [] r e h = absurd (cc)
find?-enabled monitor input (x ∷ xs) r e h =
    elim (Bool-cases (binds monitor input.destination_id x)) [
      | inl hit ↦
          let same : x ≡ r = ground arith in
          subst
            (λ y.
              find? (links monitor input.destination_id)
                (update (binds monitor input.destination_id) (assign input) (x ∷ xs))
              ≡ some (assign input y))
            same (ground arith)
      | inr miss ↦
          let found : find? (binds monitor input.destination_id) xs ≡ some r = ground arith in
          ground (arith, find?-enabled monitor input xs r e found)
    ]

-- The join of `list_active_routes` finds the row that was written, when that is enabled.
put_route-linked :
    (monitor : ℕ) (input : RouteInput) (o : Option Route) (routes : List Route)
    → find? (binds monitor input.destination_id) routes ≡ o
    → find? (links monitor input.destination_id) ((put_route monitor input o routes).0)
      ≡ (if input.is_enabled then some ((put_route monitor input o routes).1) else none)
unfolding put_route
put_route-linked monitor input none routes e = ground (
  arith,
  find?-append_one (links monitor input.destination_id) routes (new_route monitor input)
      (find?-unlinked monitor input.destination_id routes e),
)
put_route-linked monitor input (some r) routes e = elim (Bool-cases input.is_enabled) [
  | inl on ↦
      find?-enabled monitor input routes r on e
      ∙ sym (ap (λ b. if b then some (assign input r) else none) on)
  | inr off ↦
      find?-disabled monitor input routes off
      ∙ sym (ap (λ b. if b then some (assign input r) else none) off)
]

put_route-values :
    (monitor : ℕ) (input : RouteInput) (o : Option Route) (routes : List Route)
    → ((put_route monitor input o routes).1.is_enabled ≡ input.is_enabled)
      × ((put_route monitor input o routes).1.priority ≡ input.priority)
unfolding put_route
put_route-values monitor input none routes = (refl, refl)
put_route-values monitor input (some r) routes = (refl, refl)

-- After the change the look-up of the route gives it with the new values, the look-up of an enabled
-- route to the same destination gives it exactly when it was enabled, and the look-up of any other
-- route gives what it gave before.
pub set_monitor_destination-routes :
    (monitor : ℕ) (input : RouteInput) (s s' : AlertDb) (r : Route)
    → set_monitor_destination monitor input s ≡ ok (s', r)
    → (find? (binds monitor input.destination_id) s'.routes ≡ some r)
      × (r.is_enabled ≡ input.is_enabled)
      × (r.priority ≡ input.priority)
      × (find? (links monitor input.destination_id) s'.routes
          ≡ (if input.is_enabled then some r else none))
      × ((m d : ℕ)
          → (m == monitor && d == input.destination_id) ≡ false
          → find? (binds m d) s'.routes ≡ find? (binds m d) s.routes)
unfolding set_monitor_destination
set_monitor_destination-routes monitor input s s' r h =
    let (monitor_row, found, h1) =
      found-ok (find? (λ (m : Monitor). m.id == monitor) s.monitors) _ _ _ h in
    let (destination_row, found', h2) =
      found-ok (find? (λ (d : Destination). d.id == input.destination_id) s.destinations) _ _ _
        h1 in
    let o : Option Route = find? (binds monitor input.destination_id) s.routes in
    let written : List Route × Route = put_route monitor input o s.routes in
    let same : (record s { routes = written.0 }, written.1) ≡ (s', r) = ok-injective _ _ h2 in
    subst
      (λ (z : AlertDb × Route).
        (find? (binds monitor input.destination_id) z.0.routes ≡ some z.1)
        × (z.1.is_enabled ≡ input.is_enabled)
        × (z.1.priority ≡ input.priority)
        × (find? (links monitor input.destination_id) z.0.routes
            ≡ (if input.is_enabled then some z.1 else none))
        × ((m d : ℕ)
            → (m == monitor && d == input.destination_id) ≡ false
            → find? (binds m d) z.0.routes ≡ find? (binds m d) s.routes))
      same
      (
        put_route-found monitor input o s.routes refl,
        (put_route-values monitor input o s.routes).0,
        (put_route-values monitor input o s.routes).1,
        put_route-linked monitor input o s.routes refl,
        put_route-other monitor input o s.routes,
      )
