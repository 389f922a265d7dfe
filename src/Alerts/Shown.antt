-- ===== src/Alerts/Shown.antt =====
-- What the row that `_finalize_delivery` leaves tells of the answer.
use global_news_intelligence.Prelude.{
  ◌+◌, ◌≤◌, ◌<◌, ◌≡◌, refl, true, false, none, some, Time, seconds, ltb, arith, Bool-cases, inl,
  inr,
}
use global_news_intelligence.Alerts.Tables.{Delivery, DeliveryStatus}
use global_news_intelligence.Alerts.{
  HeaderReader, Report, Outcome, succeeded, retryable_failure, permanent_failure, retry_delay,
  finished_delivery,
}

-- What the row of a delivery shows of the report on its request.
pub record Shows (r : Report) (now : Time) (d d' : Delivery) : Type 0 where
  pub delivered :
      r.outcome ≡ succeeded → (d'.status ≡ DeliveryStatus.delivered) × (d'.delivered_at ≡ some now)
  pub retried :
      r.outcome ≡ retryable_failure
      → d.cycle_attempt_count < d.max_attempts
      → (d'.status ≡ DeliveryStatus.retry_scheduled)
        × ((t : Time) × (d'.next_attempt_at ≡ some t) × (now ≤ t))
  pub exhausted :
      r.outcome ≡ retryable_failure
      → d.max_attempts ≤ d.cycle_attempt_count
      → d'.status ≡ DeliveryStatus.permanent_failure
  pub failed : r.outcome ≡ permanent_failure → d'.status ≡ DeliveryStatus.permanent_failure
  pub answer : d'.last_http_status ≡ r.http_status
  pub unclaimed : d'.claim_token ≡ none

pub finished_delivery-Shows :
    (h : HeaderReader) (r : Report) (now retry_now : Time) (d : Delivery)
    → Shows r now d (finished_delivery h r now retry_now d)
unfolding finished_delivery
finished_delivery-Shows h r now retry_now d = record {
  delivered = λ e. rw e (refl, refl);
  retried = λ e more.
      let less : ltb d.cycle_attempt_count d.max_attempts ≡ true = ground arith in
      rw (e, less)
        (refl, (now + seconds (retry_delay h d retry_now r.retry_after), refl, omega arith));
  exhausted = λ e spent.
      let over : ltb d.cycle_attempt_count d.max_attempts ≡ false = ground arith in
      rw (e, over) refl;
  failed = λ e. rw e refl;
  answer = by_outcome r.outcome refl;
  unclaimed = by_outcome' r.outcome refl;
}
  where
    by_outcome :
        (o : Outcome)
        → r.outcome ≡ o
        → (finished_delivery h r now retry_now d).last_http_status ≡ r.http_status
    by_outcome succeeded e = rw e refl
    by_outcome permanent_failure e = rw e refl
    by_outcome retryable_failure e = elim (Bool-cases (ltb d.cycle_attempt_count d.max_attempts)) [
      | inl more ↦ rw (e, more) refl
      | inr last ↦ rw (e, last) refl
    ]

    by_outcome' :
        (o : Outcome) → r.outcome ≡ o → (finished_delivery h r now retry_now d).claim_token ≡ none
    by_outcome' succeeded e = rw e refl
    by_outcome' permanent_failure e = rw e refl
    by_outcome' retryable_failure e = elim (Bool-cases (ltb d.cycle_attempt_count d.max_attempts)) [
      | inl more ↦ rw (e, more) refl
      | inr last ↦ rw (e, last) refl
    ]
