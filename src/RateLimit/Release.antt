-- ===== src/RateLimit/Release.antt =====
-- `finalize` and `observe_hold` of app/services/acquisition_rate_limit_service.py: what becomes of a
-- reservation after its request.
use global_news_intelligence.Prelude.{
  ℕ, max, String, str_eq, Bool, true, ◌&&◌, Option, none, some, List, [], ◌∷◌, ◌++◌, find?, update,
  filter, any, Result, ok, err, ◌>>=◌, or_raise, rate_limit_error, value_error, integrity_error,
  Time, ◌==◌, leb, if◌then◌else◌,
}
use global_news_intelligence.RateLimit.Tables.{
  Bucket, ReservationStatus, Reservation, Membership, ObservationType, RateDb, is_active,
  holds_open,
}
use global_news_intelligence.RateLimit.Rows.{has_id, decrement, release, close}

-- `outcome not in {"completed", "failed"}`
unfoldable pub parse_outcome : String → Option ReservationStatus
parse_outcome outcome =
    if str_eq outcome "completed"
    then some ReservationStatus.completed
    else if str_eq outcome "failed"
    then some ReservationStatus.failed
    else none

-- The part after the status check: each bucket of an open membership is decremented once.
unfoldable pub close_reservation :
    ReservationStatus → Time → Reservation → RateDb → RateDb × Reservation
close_reservation status now r s =
    let memberships = filter (holds_open r.id) s.memberships in
    (
      record s {
        buckets =
            update (λ (b : Bucket). any (λ (m : Membership). m.bucket_id == b.id) memberships)
              decrement s.buckets;
        memberships = update (holds_open r.id) (release now) s.memberships;
        reservations = update (λ x. x.id == r.id) (close status now) s.reservations;
      },
      close status now r,
    )

unfoldable pub finalize : ℕ → String → Time → RateDb → Result (RateDb × Reservation)
unfolding parse_outcome close_reservation
finalize id outcome now s = do
  status ← or_raise (parse_outcome outcome) value_error
  r ← or_raise (find? (λ (r : Reservation). r.id == id) s.reservations) rate_limit_error
  ok (if is_active r.status then close_reservation status now r s else (s, r))

pub record Hold : Type 0 where
  pub observation_type : ObservationType
  pub retry_after_at : Option Time
  pub provider_reset_at : Option Time
  pub http_status : Option ℕ

-- The later of two times, of which either may be missing.
unfoldable pub later_of : Option Time → Option Time → Option Time
later_of none o = o
later_of (some t) none = some t
later_of (some t) (some u) = some (max t u)

unfoldable pub hold_bucket : Hold → Bucket → Bucket
unfolding later_of
hold_bucket h b = record b {
  blocked_until = later_of b.blocked_until (later_of h.retry_after_at h.provider_reset_at);
  provider_reset_at = (elim h.provider_reset_at [ none ↦ b.provider_reset_at | some t ↦ some t ]);
}

-- The check on `http_status`.
unfoldable pub is_http_status : Option ℕ → Bool
is_http_status none = true
is_http_status (some n) = leb 100 n && leb n 599

unfoldable pub observe_row : Hold → Membership → RateDb → RateDb
unfolding hold_bucket
observe_row h m s = record s {
  buckets = update (has_id m.bucket_id) (hold_bucket h) s.buckets;
  observations =
      s.observations
      ++ record {
        bucket_id = m.bucket_id;
        observation_type = h.observation_type;
        http_status = h.http_status;
        retry_after_at = h.retry_after_at;
        provider_reset_at = h.provider_reset_at;
      }
        ∷ [];
}

unfoldable pub observe_each : Hold → List Membership → RateDb → Result RateDb
unfolding observe_row is_http_status
observe_each h [] s = ok s
observe_each h (m ∷ ms) s =
    let rest = observe_each h ms (observe_row h m s) in
    if any (has_id m.bucket_id) s.buckets
    then (if is_http_status h.http_status then rest else err integrity_error)
    else err rate_limit_error

unfoldable pub observe_hold : ℕ → Hold → RateDb → Result RateDb
unfolding observe_each
observe_hold id h s =
    observe_each h (filter (λ (m : Membership). m.reservation_id == id) s.memberships) s
