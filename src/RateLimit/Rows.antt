-- ===== src/RateLimit/Rows.antt =====
-- The rows of `reserve`: the join of buckets, bindings in force on the targets, and policies; the
-- release of abandoned reservations; the refreshed windows; and the row that has to wait longest.
use global_news_intelligence.Prelude.{
  ℕ, ◌-◌, Bool, ◌&&◌, Option, none, some, List, [], ◌∷◌, find?, update, filter, any, all, Time,
  ◌==◌, ltb, leb, if◌then◌else◌,
}
use global_news_intelligence.RateLimit.Tables.{
  Scope, same_scope, Policy, Binding, Bucket, ReservationStatus, Reservation, Membership, RateDb,
  is_active, is_null, holds_open,
}
use global_news_intelligence.RateLimit.Windows.{refresh_windows, next_eligible}

-- A row of the join in `reserve`.
pub record Row : Type 0 where
  pub bucket : Bucket
  pub binding : Binding
  pub policy : Policy

abbrev pub has_id : ℕ → Bucket → Bool
has_id id b = b.id == id

-- A binding in force whose scope is one of the targets.
abbrev pub bears_on : List Scope → Binding → Bool
bears_on scopes b = is_null b.valid_to && any (same_scope b.scope) scopes

-- The join of buckets, bindings in force on the targets, and policies.
unfoldable pub join_policy : Bucket → Binding → Option Policy → List Row → List Row
join_policy bucket binding none rows = rows
join_policy bucket binding (some p) rows =
    record { bucket = bucket; binding = binding; policy = p } ∷ rows

unfoldable pub join_binding : List Policy → Bucket → Option Binding → List Row → List Row
unfolding join_policy
join_binding policies bucket none rows = rows
join_binding policies bucket (some b) rows =
    join_policy bucket b (find? (λ (p : Policy). p.id == b.policy_id) policies) rows

unfoldable pub joined : List Policy → List Binding → List Scope → List Bucket → List Row
unfolding join_binding
joined policies bindings scopes [] = []
joined policies bindings scopes (b ∷ bs) =
    join_binding policies b
      (find? (λ (x : Binding). x.id == b.binding_id && bears_on scopes x) bindings)
      (joined policies bindings scopes bs)

unfoldable pub rows_of : List Scope → RateDb → List Row
unfolding joined
rows_of scopes s = joined s.policies s.bindings scopes s.buckets

-- `present == expected`
unfoldable pub is_complete : List Scope → List Row → Bool
is_complete scopes rows =
    all (λ t. any (λ (r : Row). same_scope r.binding.scope t) rows) scopes
    && all (λ (r : Row). any (same_scope r.binding.scope) scopes) rows

-- `bucket.active_concurrency = max(0, bucket.active_concurrency - 1)`
abbrev pub decrement : Bucket → Bucket
decrement b = record b { active_concurrency = b.active_concurrency - 1 }

abbrev pub release : Time → Membership → Membership
release now m = record m { released_at = some now }

abbrev pub close : ReservationStatus → Time → Reservation → Reservation
close status now r = record r { status = status; finalized_at = some now }

-- One decrement for each open membership.
unfoldable pub decrement_each : List Membership → List Bucket → List Bucket
decrement_each [] bs = bs
decrement_each (m ∷ ms) bs = decrement_each ms (update (has_id m.bucket_id) decrement bs)

-- The body of the loop of `_expire_abandoned`.
unfoldable pub expire_reservation : Time → Reservation → RateDb → RateDb
unfolding decrement_each
expire_reservation now r s = record s {
  buckets = decrement_each (filter (holds_open r.id) s.memberships) s.buckets;
  memberships = update (holds_open r.id) (release now) s.memberships;
  reservations = update (λ x. x.id == r.id) (close ReservationStatus.expired now) s.reservations;
}

-- An active reservation past its end that holds one of the buckets.
unfoldable pub is_abandoned : Time → List Row → List Membership → Reservation → Bool
is_abandoned now rows ms r =
    is_active r.status
    && leb r.expires_at now
    && any
        (λ (m : Membership).
          m.reservation_id == r.id && any (λ (x : Row). x.bucket.id == m.bucket_id) rows)
        ms

unfoldable pub expire_each : Time → List Reservation → RateDb → RateDb
unfolding expire_reservation
expire_each now [] s = s
expire_each now (r ∷ rs) s = expire_each now rs (expire_reservation now r s)

unfoldable pub expire_abandoned : Time → List Row → RateDb → RateDb
unfolding expire_each is_abandoned
expire_abandoned now rows s =
    expire_each now (filter (is_abandoned now rows s.memberships) s.reservations) s

-- `_refresh_windows` on the bucket of each row
unfoldable pub refresh_rows : Time → List Row → List Bucket → List Bucket
refresh_rows now [] bs = bs
refresh_rows now (r ∷ rows) bs =
    refresh_rows now rows (update (has_id r.bucket.id) (λ b. refresh_windows b r.policy now) bs)

-- When the row's bucket, once refreshed, is eligible.
unfoldable pub eligible_at : Time → Row → Option Time
eligible_at now r = next_eligible (refresh_windows r.bucket r.policy now) r.policy now

-- `controlling is None or eligible > controlling[2]`
unfoldable pub later : Row → Option Time → Option (Row × Time) → Option (Row × Time)
later r none best = best
later r (some t) none = some (r, t)
later r (some t) (some (q, u)) = if ltb u t then some (r, t) else some (q, u)

-- The first row that has to wait longest.
unfoldable pub controlling_from : Time → Option (Row × Time) → List Row → Option (Row × Time)
unfolding later eligible_at
controlling_from now best [] = best
controlling_from now best (r ∷ rows) = controlling_from now (later r (eligible_at now r) best) rows
