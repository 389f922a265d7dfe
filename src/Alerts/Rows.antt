-- ===== src/Alerts/Rows.antt =====
-- The rows that `_prepare_delivery`, `_finalize_delivery` and `retry_delivery` write, against the
-- constraints of the delivery table.
use global_news_intelligence.Prelude.{
  ℕ, ◌≤◌, ◌≡◌, refl, true, false, Option, none, Time, ltb, arith, Bool-cases, inl, inr,
}
use global_news_intelligence.Alerts.Tables.{
  Delivery, DeliveryStatus, is_processing, satisfies_checks, is_http_status,
}
use global_news_intelligence.Alerts.{
  claim_row, drop_claim, HeaderReader, Report, finished_delivery, restart, Outcome, succeeded,
  retryable_failure, permanent_failure,
}

pub claim_row-checks :
    (now : Time) (token : ℕ) (d : Delivery)
    → satisfies_checks d ≡ true
    → satisfies_checks (claim_row now token d) ≡ true
unfolding satisfies_checks claim_row
claim_row-checks now token d h = ground arith

-- The claim is dropped for a status that neither waits nor has been delivered.
pub cancel-checks :
    (e : Option _) (d : Delivery)
    → satisfies_checks d ≡ true
    → satisfies_checks (drop_claim DeliveryStatus.cancelled e d) ≡ true
unfolding satisfies_checks
cancel-checks e d h = ground arith

pub exhaust-checks :
    (e : Option _) (d : Delivery)
    → satisfies_checks d ≡ true
    → satisfies_checks (drop_claim DeliveryStatus.permanent_failure e d) ≡ true
unfolding satisfies_checks
exhaust-checks e d h = ground arith

pub restart-checks :
    (now : Time) (d : Delivery)
    → satisfies_checks d ≡ true
    → satisfies_checks (restart now d) ≡ true
unfolding satisfies_checks restart
restart-checks now d h = ground arith

-- What a finished delivery keeps of its row, and what it no longer has.
pub record Finished (d d' : Delivery) : Type 0 where
  pub checks : satisfies_checks d' ≡ true
  pub id : d'.id ≡ d.id
  pub attempts : d'.attempt_count ≡ d.attempt_count
  pub budget : d'.cycle_attempt_count ≤ d'.max_attempts
  pub status : is_processing d'.status ≡ false
  pub token : d'.claim_token ≡ none

pub finished_delivery-Finished :
    (h : HeaderReader) (r : Report) (now retry_now : Time) (d : Delivery)
    → satisfies_checks d ≡ true
    → d.cycle_attempt_count ≤ d.max_attempts
    → is_http_status r.http_status ≡ true
    → Finished d (finished_delivery h r now retry_now d)
unfolding satisfies_checks finished_delivery
finished_delivery-Finished h r now retry_now d c b k = by_outcome r.outcome refl
  where
    by_outcome : (o : Outcome) → r.outcome ≡ o → Finished d (finished_delivery h r now retry_now d)
    by_outcome succeeded e = rw e (record {
      checks = ground arith;
      id = refl;
      attempts = refl;
      budget = b;
      status = refl;
      token = refl;
    })
    by_outcome permanent_failure e = rw e (record {
      checks = ground arith;
      id = refl;
      attempts = refl;
      budget = b;
      status = refl;
      token = refl;
    })
    by_outcome retryable_failure e = elim (Bool-cases (ltb d.cycle_attempt_count d.max_attempts)) [
      | inl more ↦
          rw (e, more)
            (record {
              checks = ground arith;
              id = refl;
              attempts = refl;
              budget = b;
              status = refl;
              token = refl;
            })
      | inr last ↦
          rw (e, last)
            (record {
              checks = ground arith;
              id = refl;
              attempts = refl;
              budget = b;
              status = refl;
              token = refl;
            })
    ]
