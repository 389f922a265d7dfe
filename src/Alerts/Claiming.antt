-- ===== src/Alerts/Claiming.antt =====
-- Workers that claim one delivery: `_prepare_delivery` and `_finalize_delivery` of several workers.
use global_news_intelligence.Prelude.{
  ℕ, ◌+◌, ◌<◌, ◌≡◌, ◌≢◌, refl, sym, subst, ◌==◌, true, false, ◌&&◌, Option, none, some, find?,
  find?-update, find?-holds, count-find?-none, update, ok, Time, seconds, max, leb, ltb, arith,
  Bool-cases, Option-cases, inl, inr, guard-ok, any, All, All-find?, ◌≤◌,
}
use global_news_intelligence.Alerts.Tables.{
  Delivery, Attempt, is_reversed, Alert, Document, Destination, AlertDb, is_processing, is_waiting,
  is_final, has_id, runs, put_delivery, put_attempt, truncate, create_attempt, is_http_status,
}
use global_news_intelligence.Alerts.Sound.{IsSound, held, one}
use global_news_intelligence.Alerts.Rows.{finished_delivery-Finished}
use global_news_intelligence.Alerts.Opening.{read}
use global_news_intelligence.Alerts.Shown.{Shows, finished_delivery-Shows}
use global_news_intelligence.Alerts.Invariant.{prepare-IsSound}
use global_news_intelligence.Alerts.{
  prepared, reported, PreparedDelivery, DeliveryResult, HeaderReader, Report, World,
  already_processing, claim_superseded, superseded, claim_row, start, open_bundle, open_attempt,
  claim, close_stale, abandon_found, prepare, holds_claim, is_held, is_ahead, finish, finalize,
  finished_delivery, finished_attempt, max_text, send, reached, complete, settle, deliver,
}

-- What a claim that was granted did.
record Claimed (id : ℕ) (now : Time) (token : ℕ) (d : Delivery) (s' : AlertDb)
    (p : PreparedDelivery) : Type 0 where
  row : find? (has_id id) s'.deliveries ≡ some (claim_row now token d)
  delivery_id : p.delivery_id ≡ id
  claim_token : p.claim_token ≡ token
  budget : d.cycle_attempt_count < d.max_attempts

start-Claimed :
    (id : ℕ) (now : Time) (token : ℕ) (d : Delivery) (alert : Alert) (x : Destination)
    (document : Document) (s s' : AlertDb) (p : PreparedDelivery)
    → find? (has_id id) s.deliveries ≡ some d
    → open_bundle now token d alert x document s ≡ ok (s', prepared p)
    → Claimed id now token d s' p
unfolding open_bundle start create_attempt
start-Claimed id now token d alert x document s s' p k h =
    let key : d.id ≡ id = ground (arith, find?-holds (has_id id) s.deliveries d k) in
    let written : find? (has_id id) (update (has_id d.id) (λ _. claim_row now token d) s.deliveries)
        ≡ some (claim_row now token d) =
      subst
        (λ i.
          find? (has_id id) (update (has_id i) (λ _. claim_row now token d) s.deliveries)
          ≡ some (claim_row now token d))
        (sym key)
        (find?-update (has_id id) (λ _. claim_row now token d) s.deliveries d
          (λ y e. unfold claim_row in ground (arith, key)) k) in
    elim (Bool-cases x.is_active) [
      | inr off ↦ absurd (ground arith)
      | inl on ↦ elim (Bool-cases (leb d.max_attempts d.cycle_attempt_count)) [
        | inl spent ↦ absurd (ground arith)
        | inr more ↦
            let rows : update (has_id d.id) (λ _. claim_row now token d) s.deliveries
                ≡ s'.deliveries =
              ground arith in
            record {
              row = subst (λ ds. find? (has_id id) ds ≡ some (claim_row now token d)) rows written;
              delivery_id = ground arith;
              claim_token = ground arith;
              budget = ground arith;
            }
      ]
    ]

open-Claimed :
    (id : ℕ) (now : Time) (token : ℕ) (d : Delivery) (s s' : AlertDb) (p : PreparedDelivery)
    → find? (has_id id) s.deliveries ≡ some d
    → open_attempt now token d s ≡ ok (s', prepared p)
    → Claimed id now token d s' p
unfolding open_attempt
open-Claimed id now token d s s' p k opened =
    let (_, h) = guard-ok (any is_reversed s.attempts) _ _ _ opened in
    elim (Option-cases (find? (λ (a : Alert). a.id == d.alert_id) s.alerts)) [
      | inl n ↦ absurd (ground arith)
      | inr (alert, n) ↦
          elim (Option-cases
            (find? (λ (x : Destination). x.id == d.destination_id) s.destinations)) [
              | inl m ↦ absurd (ground arith)
              | inr (x, m) ↦
                  elim (Option-cases
                    (find? (λ (x : Document). x.id == alert.document_id) s.documents)) [
                      | inl o ↦ absurd (ground arith)
                      | inr (document, o) ↦
                          start-Claimed id now token d alert x document s s' p k (rw (n, m, o) at h)
                    ]
            ]
    ]

close_stale-deliveries :
    (now : Time) (id : ℕ) (o : Option ℕ) (s : AlertDb)
    → (close_stale now id o s).deliveries ≡ s.deliveries
unfolding close_stale abandon_found
close_stale-deliveries now id none s = refl
close_stale-deliveries now id (some t) s = elim (Option-cases (find? (runs id t) s.attempts)) [
  | inl e ↦ rw e refl
  | inr (a, e) ↦ rw e refl
]

prepare-Claimed :
    (id : ℕ) (now : Time) (token : ℕ) (s s' : AlertDb) (p : PreparedDelivery)
    → prepare id now token s ≡ ok (s', prepared p)
    → (d : Delivery) × (find? (has_id id) s.deliveries ≡ some d) × Claimed id now token d s' p
unfolding prepare claim
prepare-Claimed id now token s s' p h = elim (Option-cases (find? (has_id id) s.deliveries)) [
  | inl k ↦ absurd (ground arith)
  | inr (d, k) ↦ elim (Bool-cases (is_final d.status)) [
    | inl over ↦ absurd (ground arith)
    | inr unfinished ↦ elim (Bool-cases (is_waiting d.status && is_ahead d.next_attempt_at now)) [
      | inl early ↦ absurd (ground arith)
      | inr due ↦ elim (Bool-cases (is_processing d.status)) [
        | inr free ↦ (d, k, open-Claimed id now token d s s' p k (ground arith))
        | inl taken ↦ elim (Bool-cases (is_held d.claim_expires_at now)) [
          | inl busy ↦ absurd (ground arith)
          | inr stale ↦ (
            d,
            k,
            open-Claimed id now token d (close_stale now d.id d.claim_token s) s' p
                (rw (close_stale-deliveries now d.id d.claim_token s) k) (ground arith),
          )
        ]
      ]
    ]
  ]
]

-- Once a worker has been given a delivery, then in any tables that still have the row of this
-- delivery as the worker's claim left it, every other worker that asks within two minutes is told
-- that it is already being processed, and nothing changes.
pub prepare_excludes :
    (id : ℕ) (now later : Time) (token other : ℕ) (s s' u : AlertDb) (p : PreparedDelivery)
    → prepare id now token s ≡ ok (s', prepared p)
    → find? (has_id id) u.deliveries ≡ find? (has_id id) s'.deliveries
    → later < now + seconds 120
    → (x : DeliveryResult) × (prepare id later other u ≡ ok (u, reported x))
      × (x.delivery_id ≡ id)
      × (x.status ≡ already_processing)
unfolding prepare claim claim_row
prepare_excludes id now later token other s s' u p h same early =
    let (d, k, c) = prepare-Claimed id now token s s' p h in
    let held : ltb later (now + seconds (max 120 (d.request_timeout_seconds + 30))) ≡ true =
      ground arith in
    (
      record {
        delivery_id = d.id;
        status = already_processing;
        attempt_number = none;
        http_status = none;
        error = none;
      },
      rw (same, c.row, held) refl,
      ground (arith, find?-holds (has_id id) s.deliveries d k),
      refl,
    )

-- When a delivery has been given to a worker under another token, the result of the one that had it
-- before is refused as superseded, and nothing changes.
pub prepare_fences :
    (id : ℕ) (now later retry_now : Time) (token : ℕ) (s s' : AlertDb) (p old : PreparedDelivery)
    (w : HeaderReader) (r : Report)
    → prepare id now token s ≡ ok (s', prepared p)
    → old.delivery_id ≡ id
    → old.claim_token ≢ token
    → (x : DeliveryResult) × (finalize w old r later retry_now s' ≡ ok (s', x))
      × (x.status ≡ claim_superseded)
unfolding finalize claim_row
prepare_fences id now later retry_now token s s' p old w r h same other =
    let (d, k, c) = prepare-Claimed id now token s s' p h in
    let lost : (token == old.claim_token) ≡ false = ground (arith, other) in
    (superseded (claim_row now token d), rw (same, c.row, lost) refl, refl)

-- What a transaction leaves that finds its claim in place.
finish_records :
    (w : HeaderReader) (r : Report) (p : PreparedDelivery) (id : ℕ) (now retry_now : Time)
    (s : AlertDb) (row : Delivery)
    → IsSound s
    → find? (has_id id) s.deliveries ≡ some row
    → is_processing row.status ≡ true
    → row.claim_token ≡ some p.claim_token
    → p.delivery_id ≡ id
    → is_http_status r.http_status ≡ true
    → All (λ (a : Attempt). a.started_at ≤ now) s.attempts
    → (t : AlertDb) × (x : DeliveryResult) × (d : Delivery) × (finalize w p r now retry_now s
        ≡ ok (t, x))
      × (find? (has_id id) t.deliveries ≡ some d)
      × (x.status ≡ reached d.status)
      × Shows r now row d
unfolding finalize finish
finish_records w r p id now retry_now s row v k live token same fine begun =
    let l = read id row s v k in
    let (owns, active, claim_held) = l.linked in
    let one_held : held row.id (some p.claim_token) s.attempts ≡ one (is_processing row.status) =
      rw token at claim_held in
    elim (Option-cases (find? (runs row.id p.claim_token) s.attempts)) [
      | inl none_left ↦
          absurd (ground (arith, count-find?-none (runs row.id p.claim_token) s.attempts none_left))
      | inr (a, found) ↦
          let f = finished_delivery-Finished w r now retry_now row l.checks l.budget fine in
          let d : Delivery = finished_delivery w r now retry_now row in
          let t : AlertDb = put_attempt (finished_attempt r now a) (put_delivery d s) in
          let key : d.id ≡ id = ground (arith, f.id, find?-holds (has_id id) s.deliveries row k) in
          let early : a.started_at ≤ now =
            All-find? (λ (b : Attempt). b.started_at ≤ now) (runs row.id p.claim_token) s.attempts a
              begun found in
          let ordered : is_reversed (finished_attempt r now a) ≡ false =
            unfold finished_attempt in ground arith in
          let mine : holds_claim p.claim_token row ≡ true = rw (live, token) (ground arith) in
          (
            t,
            record {
              delivery_id = row.id;
              status = reached d.status;
              attempt_number = some a.attempt_number;
              http_status = r.http_status;
              error = truncate r.error max_text;
            },
            d,
            rw (same, k, mine, found, fine, ordered) refl,
            subst (λ i. find? (has_id id) (update (has_id i) (λ _. d) s.deliveries) ≡ some d)
                (sym key)
                (find?-update (has_id id) (λ _. d) s.deliveries row (λ y e. ground (arith, key)) k),
            refl,
            finished_delivery-Shows w r now retry_now row,
          )
    ]

-- In sound tables, a worker that has been given a delivery, and that nobody interrupts, records what
-- its request came to, if the request raises no exception that the code does not handle, the answer
-- has a valid HTTP status, and no attempt has started later than the worker's clock shows at the
-- end. The row that it leaves has no claim and has the status of the answer; it is delivered, at
-- that time, after a success, waits for a retry at that time or later after a failure that may pass
-- while the budget is not spent, and has failed for good otherwise. The result tells its status.
pub deliver_records :
    (w : World) (id token : ℕ) (claimed now retry_now : Time) (s s' : AlertDb)
    (p : PreparedDelivery) (r : Report)
    → IsSound s
    → prepare id claimed token s ≡ ok (s', prepared p)
    → send w p p.auth_token_env_var ≡ ok r
    → is_http_status r.http_status ≡ true
    → All (λ (a : Attempt). a.started_at ≤ now) s'.attempts
    → (t : AlertDb) × (x : DeliveryResult) × (row d : Delivery) × (deliver w
          (λ u. u)
          id
          token
          claimed
          now
          retry_now
          s
        ≡ (t, ok x))
      × (find? (has_id id) s'.deliveries ≡ some row)
      × (find? (has_id id) t.deliveries ≡ some d)
      × (x.status ≡ reached d.status)
      × Shows r now row d
unfolding deliver complete settle finalize
deliver_records w id token claimed now retry_now s s' p r v h sent fine begun =
    let (d, k, c) = prepare-Claimed id claimed token s s' p h in
    let (t, x, e, done, stored, status, shows) =
      finish_records w.headers r p id now retry_now s' (claim_row claimed token d)
        (prepare-IsSound id claimed token s s' (prepared p) v h) c.row (unfold claim_row in refl)
        (unfold claim_row in ground (arith, c.claim_token)) c.delivery_id fine begun in
    (t, x, claim_row claimed token d, e, rw (h, sent, done) refl, c.row, stored, status, shows)
