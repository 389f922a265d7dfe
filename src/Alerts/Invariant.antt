-- ===== src/Alerts/Invariant.antt =====
-- `_prepare_delivery`, `_finalize_delivery` and `retry_delivery` on rows and their attempts.
use global_news_intelligence.Prelude.{
  ℕ, ◌≡◌, refl, subst, true, false, ◌&&◌, some, find?, ok, Time, arith, Bool-cases, Option-cases,
  inl, inr,
}
use global_news_intelligence.Alerts.Tables.{
  Delivery, AlertDb, is_processing, is_waiting, is_final, is_running, is_http_status, has_id, runs,
  put_delivery, put_attempt,
}
use global_news_intelligence.Alerts.{
  Preparation, PreparedDelivery, DeliveryResult, HeaderReader, Report, close_stale, claim, prepare,
  finalize, finish, finished_delivery, finished_attempt, attempt_status, holds_claim, retry,
  restart, is_held, is_ahead, Outcome, succeeded, retryable_failure, permanent_failure,
}
use global_news_intelligence.Alerts.Sound.{IsSound, freed, put_delivery-IsSound}
use global_news_intelligence.Alerts.Attempts.{rewritten-IsFreed}
use global_news_intelligence.Alerts.Rows.{restart-checks, finished_delivery-Finished}
use global_news_intelligence.Alerts.Opening.{
  read, claimed, close_stale-IsFreed, close_stale-below, open_attempt-IsSound,
}

claim-IsSound :
    (id : ℕ) (now : Time) (token : ℕ) (d : Delivery) (s s' : AlertDb) (r : Preparation)
    → IsSound s
    → find? (has_id id) s.deliveries ≡ some d
    → claim now token d s ≡ ok (s', r)
    → IsSound s'
unfolding claim
claim-IsSound id now token d s s' r v k h = elim (Bool-cases (is_final d.status)) [
  | inl over ↦ let same : s ≡ s' = ground arith in subst IsSound same v
  | inr unfinished ↦ elim (Bool-cases (is_waiting d.status && is_ahead d.next_attempt_at now)) [
    | inl early ↦ let same : s ≡ s' = ground arith in subst IsSound same v
    | inr due ↦ elim (Bool-cases (is_processing d.status)) [
      | inr free ↦
          let l = read id d s v k in
          open_attempt-IsSound now token d s s' r (freed d s (has_id id) v k free) l.below l.checks
            l.budget (ground arith)
      | inl taken ↦ elim (Bool-cases (is_held d.claim_expires_at now)) [
        | inl busy ↦ let same : s ≡ s' = ground arith in subst IsSound same v
        | inr stale ↦
            let l = read id d s v k in
            open_attempt-IsSound now token d (close_stale now d.id d.claim_token s) s' r
              (close_stale-IsFreed now id d s v k taken) (close_stale-below now d s l.below)
              l.checks l.budget (ground arith)
      ]
    ]
  ]
]

pub prepare-IsSound :
    (id : ℕ) (now : Time) (token : ℕ) (s s' : AlertDb) (r : Preparation)
    → IsSound s
    → prepare id now token s ≡ ok (s', r)
    → IsSound s'
unfolding prepare
prepare-IsSound id now token s s' r v h = elim (Option-cases (find? (has_id id) s.deliveries)) [
  | inl k ↦ absurd (ground arith)
  | inr (d, k) ↦ claim-IsSound id now token d s s' r v k (rw k at h)
]

finish-IsSound :
    (id : ℕ) (w : HeaderReader) (p : PreparedDelivery) (r : Report) (now retry_now : Time)
    (d : Delivery) (s s' : AlertDb) (x : DeliveryResult)
    → IsSound s
    → find? (has_id id) s.deliveries ≡ some d
    → is_processing d.status ≡ true
    → finish w p r now retry_now d s ≡ ok (s', x)
    → IsSound s'
unfolding finish attempt_status
finish-IsSound id w p r now retry_now d s s' x v k live h =
    elim (Option-cases (find? (runs d.id p.claim_token) s.attempts)) [
      | inl m ↦ absurd (ground arith)
      | inr (a, m) ↦ elim (Bool-cases (is_http_status r.http_status)) [
        | inr odd ↦ absurd (ground arith)
        | inl fine ↦
            let l = read id d s v k in
            let c = claimed d.id p.claim_token s a m in
            let f = finished_delivery-Finished w r now retry_now d l.checks l.budget fine in
            let same : put_delivery (finished_delivery w r now retry_now d)
                  (put_attempt (finished_attempt r now a) s)
                ≡ s' =
              ground arith in
            subst IsSound same (
              put_delivery-IsSound d (finished_delivery w r now retry_now d)
                (put_attempt (finished_attempt r now a) s)
                (unfold finished_attempt in
                  rewritten-IsFreed s (runs d.id p.claim_token) a (finished_attempt r now a) v m
                    refl refl c.1 (attempt_over r.outcome) d c.0 l.linked live)
                l.below f.checks f.budget f.id f.attempts f.status f.token)
      ]
    ]
  where
    attempt_over : (o : Outcome) → is_running (attempt_status o) ≡ false
    attempt_over succeeded = refl
    attempt_over retryable_failure = refl
    attempt_over permanent_failure = refl

pub finalize-IsSound :
    (w : HeaderReader) (p : PreparedDelivery) (r : Report) (now retry_now : Time) (s s' : AlertDb)
    (x : DeliveryResult)
    → IsSound s
    → finalize w p r now retry_now s ≡ ok (s', x)
    → IsSound s'
unfolding finalize
finalize-IsSound w p r now retry_now s s' x v h =
    elim (Option-cases (find? (has_id p.delivery_id) s.deliveries)) [
      | inl k ↦ absurd (ground arith)
      | inr (d, k) ↦ elim (Bool-cases (holds_claim p.claim_token d)) [
        | inr lost ↦ let same : s ≡ s' = ground arith in subst IsSound same v
        | inl mine ↦
            finish-IsSound p.delivery_id w p r now retry_now d s s' x v k (ground arith)
              (rw (k, mine) at h)
      ]
    ]

pub retry-IsSound :
    (id : ℕ) (now : Time) (s s' : AlertDb) (d : Delivery)
    → IsSound s
    → retry id now s ≡ ok (s', d)
    → IsSound s'
unfolding retry
retry-IsSound id now s s' e v h = elim (Option-cases (find? (has_id id) s.deliveries)) [
  | inl k ↦ absurd (ground arith)
  | inr (d, k) ↦
      let l = read id d s v k in
      let free : is_processing d.status ≡ false = ground arith in
      let same : put_delivery (restart now d) s ≡ s' = ground arith in
      subst IsSound same (
        unfold restart in
        put_delivery-IsSound d (restart now d) s (freed d s (has_id id) v k free) l.below
          (restart-checks now d l.checks) (omega arith) refl refl refl refl)
]
