-- ===== src/Alerts/Opening.antt =====
-- A claim is opened: the attempt of a stale claim is closed, and a new one begins.
use global_news_intelligence.Prelude.{
  ℕ, ◌+◌, ◌≤◌, ◌<◌, ◌≡◌, refl, subst, ◌==◌, true, false, Option, none, some, List, [], ◌∷◌, ◌++◌,
  find?, count, count-append, count-fresh, count-le, count-find?-none, All-mono, All-update_to,
  All-append, All-find?, find?-holds, ok, Time, leb, arith, Bool-cases, Option-cases, inl, inr,
  guard-ok, any,
}
use global_news_intelligence.Alerts.Tables.{
  Delivery, Attempt, Alert, Document, DeliveryStatus, AlertDb, is_processing, is_running,
  Destination, has_id, runs, put_delivery, put_attempt, satisfies_checks, create_attempt,
  is_reversed,
}
use global_news_intelligence.Alerts.{
  Preparation, abandon, abandon_found, close_stale, claim_row, new_attempt, start, open_bundle,
  open_attempt, drop_claim, inactive_error, exhausted_error,
}
use global_news_intelligence.Alerts.Sound.{
  owned, active_of, held, one, Linked, IsKept, IsSound, IsFreed, put_delivery-IsKept,
  put_delivery-IsSound,
}
use global_news_intelligence.Alerts.Attempts.{rewritten-IsFreed}
use global_news_intelligence.Alerts.Rows.{claim_row-checks, cancel-checks, exhaust-checks}

-- The tables after a new attempt under a new claim.
abbrev started : Time → ℕ → Delivery → AlertDb → AlertDb
started now token d s = record (put_delivery (claim_row now token d) s) {
  attempts = s.attempts ++ new_attempt s.next_attempt_id token s.db_now d ∷ [];
  next_attempt_id = s.next_attempt_id + 1;
}

no_claim :
    (d : Delivery) (s : AlertDb) (token : ℕ) → IsFreed d s → count (runs d.id token) s.attempts ≡ 0
no_claim d s token v =
    ground
      (arith, v.idle, count-le (runs d.id token) (active_of d.id) s.attempts (λ a h. ground arith))

held-append :
    (x : Delivery) (a : Attempt) (o : Option ℕ) (ms : List Attempt)
    → (a.delivery_id == x.id) ≡ false
    → held x.id o (ms ++ a ∷ []) ≡ held x.id o ms
unfolding count
held-append x a none ms e = refl
held-append x a (some t) ms e = ground (arith, count-append (runs x.id t) ms (a ∷ []))

started-IsSound :
    (now : Time) (token : ℕ) (d : Delivery) (s : AlertDb)
    → IsFreed d s
    → d.id < s.next_delivery_id
    → satisfies_checks d ≡ true
    → d.cycle_attempt_count < d.max_attempts
    → IsSound (started now token d s)
unfolding claim_row new_attempt count
started-IsSound now token d s v below c b = record {
  kept = record {
    checks = kept.checks;
    budget = kept.budget;
    delivery_ids = kept.delivery_ids;
    owners = All-append _ s.attempts _ v.kept.owners (below, tt);
    attempt_ids =
        All-append _ s.attempts _ (All-mono _ _ s.attempts (λ a h. omega arith) v.kept.attempt_ids)
          (omega arith, tt);
    attempt_keys = λ i. ground (
      arith,
      v.kept.attempt_keys i,
      count-fresh (λ (a : Attempt). a.id) s.next_attempt_id s.attempts v.kept.attempt_ids,
      count-append (λ (a : Attempt). a.id == i) s.attempts
          (new_attempt s.next_attempt_id token s.db_now d ∷ []),
    );
  };
  linked =
      All-update_to (λ (x : Delivery). has_id d.id x ≡ false → Linked s.attempts x) (Linked _)
        (has_id d.id) (λ _. claim_row now token d) s.deliveries
        (λ x hit l. (
          ground (
            arith,
            v.attempts,
            count-append (owned d.id) s.attempts
                (new_attempt s.next_attempt_id token s.db_now d ∷ []),
          ),
          ground (
            arith,
            v.idle,
            count-append (active_of d.id) s.attempts
                (new_attempt s.next_attempt_id token s.db_now d ∷ []),
          ),
          ground (
            arith,
            no_claim d s token v,
            count-append (runs d.id token) s.attempts
                (new_attempt s.next_attempt_id token s.db_now d ∷ []),
          ),
        ))
        (λ x miss l.
          let (n, k, t) = l miss in
          (
            ground (
              arith,
              count-append (owned x.id) s.attempts
                  (new_attempt s.next_attempt_id token s.db_now d ∷ []),
            ),
            ground (
              arith,
              count-append (active_of x.id) s.attempts
                  (new_attempt s.next_attempt_id token s.db_now d ∷ []),
            ),
            rw
                (held-append x (new_attempt s.next_attempt_id token s.db_now d) x.claim_token
                  s.attempts (ground arith))
                t,
          ))
        v.others;
}
  where
    kept : IsKept (put_delivery (claim_row now token d) s)
    kept =
        put_delivery-IsKept d (claim_row now token d) s v.kept below
          (claim_row-checks now token d c) (omega arith) refl

-- What is known of the row that a transaction reads.
pub record Read (d : Delivery) (s : AlertDb) : Type 0 where
  pub below : d.id < s.next_delivery_id
  pub checks : satisfies_checks d ≡ true
  pub budget : d.cycle_attempt_count ≤ d.max_attempts
  pub linked : Linked s.attempts d

pub read :
    (id : ℕ) (d : Delivery) (s : AlertDb)
    → IsSound s
    → find? (has_id id) s.deliveries ≡ some d
    → Read d s
read id d s v h = record {
  below =
      All-find? (λ (x : Delivery). x.id < s.next_delivery_id) (has_id id) s.deliveries d
        v.kept.delivery_ids h;
  checks =
      All-find? (λ (x : Delivery). satisfies_checks x ≡ true) (has_id id) s.deliveries d
        v.kept.checks h;
  budget =
      All-find? (λ (x : Delivery). x.cycle_attempt_count ≤ x.max_attempts) (has_id id) s.deliveries
        d v.kept.budget h;
  linked = All-find? (Linked s.attempts) (has_id id) s.deliveries d v.linked h;
}

-- The running attempt under the claim of a row belongs to it.
pub claimed :
    (id token : ℕ) (s : AlertDb) (a : Attempt)
    → find? (runs id token) s.attempts ≡ some a
    → (a.delivery_id ≡ id) × (is_running a.status ≡ true)
claimed id token s a h =
    let hit = find?-holds (runs id token) s.attempts a h in (ground arith, ground arith)

-- A row under a claim is freed when its attempt is closed as stale.
pub close_stale-IsFreed :
    (now : Time) (id : ℕ) (d : Delivery) (s : AlertDb)
    → IsSound s
    → find? (has_id id) s.deliveries ≡ some d
    → is_processing d.status ≡ true
    → IsFreed d (close_stale now d.id d.claim_token s)
unfolding close_stale abandon_found
close_stale-IsFreed now id d s v h e = elim (Option-cases d.claim_token) [
  | inl n ↦
      let l = read id d s v h in
      let none_held : held d.id d.claim_token s.attempts ≡ 0 = rw n refl in
      absurd (ground (arith, l.linked))
  | inr (t, n) ↦ elim (Option-cases (find? (runs d.id t) s.attempts)) [
    | inl k ↦
        let l = read id d s v h in
        let (owns, active, claim_held) = l.linked in
        let one_held : held d.id (some t) s.attempts ≡ one (is_processing d.status) =
          rw n at claim_held in
        absurd (ground (arith, count-find?-none (runs d.id t) s.attempts k))
    | inr (a, k) ↦
        let l = read id d s v h in
        let c = claimed d.id t s a k in
        let same : put_attempt (abandon now a) s ≡ close_stale now d.id d.claim_token s =
          rw (n, k) refl in
        subst (IsFreed d) same (
          rewritten-IsFreed s (runs d.id t) a (abandon now a) v k refl refl c.1 refl d c.0 l.linked
            e)
  ]
]

open_bundle-IsSound :
    (now : Time) (token : ℕ) (d : Delivery) (alert : Alert) (x : Destination) (document : Document)
    (s s' : AlertDb) (r : Preparation)
    → IsFreed d s
    → d.id < s.next_delivery_id
    → satisfies_checks d ≡ true
    → d.cycle_attempt_count ≤ d.max_attempts
    → open_bundle now token d alert x document s ≡ ok (s', r)
    → IsSound s'
unfolding open_bundle start create_attempt
open_bundle-IsSound now token d alert x document s s' r v below c b h =
    elim (Bool-cases x.is_active) [
      | inr off ↦
          let same : put_delivery (drop_claim DeliveryStatus.cancelled inactive_error d) s ≡ s' =
            ground arith in
          subst IsSound same (
            put_delivery-IsSound d _ s v below (cancel-checks inactive_error d c) b refl refl refl
              refl)
      | inl on ↦ elim (Bool-cases (leb d.max_attempts d.cycle_attempt_count)) [
        | inl spent ↦
            let same : put_delivery (drop_claim DeliveryStatus.permanent_failure exhausted_error d)
                  s
                ≡ s' =
              ground arith in
            subst IsSound same (
              put_delivery-IsSound d _ s v below (exhaust-checks exhausted_error d c) b refl refl
                refl refl)
        | inr more ↦
            let same : started now token d s ≡ s' = ground arith in
            subst IsSound same (started-IsSound now token d s v below c (ground arith))
      ]
    ]

pub open_attempt-IsSound :
    (now : Time) (token : ℕ) (d : Delivery) (s s' : AlertDb) (r : Preparation)
    → IsFreed d s
    → d.id < s.next_delivery_id
    → satisfies_checks d ≡ true
    → d.cycle_attempt_count ≤ d.max_attempts
    → open_attempt now token d s ≡ ok (s', r)
    → IsSound s'
unfolding open_attempt
open_attempt-IsSound now token d s s' r v below c b opened =
    let (_, h) = guard-ok (any is_reversed s.attempts) _ _ _ opened in
    elim (Option-cases (find? (λ (a : Alert). a.id == d.alert_id) s.alerts)) [
      | inl k ↦ absurd (ground arith)
      | inr (alert, k) ↦
          elim (Option-cases
            (find? (λ (x : Destination). x.id == d.destination_id) s.destinations)) [
              | inl m ↦ absurd (ground arith)
              | inr (x, m) ↦
                  elim (Option-cases
                    (find? (λ (x : Document). x.id == alert.document_id) s.documents)) [
                      | inl n ↦ absurd (ground arith)
                      | inr (document, n) ↦
                          open_bundle-IsSound now token d alert x document s s' r v below c b
                            (rw (k, m, n) at h)
                    ]
            ]
    ]

-- A closed attempt leaves the numbering of deliveries alone.
pub close_stale-below :
    (now : Time) (d : Delivery) (s : AlertDb)
    → d.id < s.next_delivery_id
    → d.id < (close_stale now d.id d.claim_token s).next_delivery_id
unfolding close_stale abandon_found
close_stale-below now d s h = elim (Option-cases d.claim_token) [
  | inl n ↦ rw n h
  | inr (t, n) ↦ elim (Option-cases (find? (runs d.id t) s.attempts)) [
    | inl k ↦ rw (n, k) h
    | inr (a, k) ↦ rw (n, k) h
  ]
]
