-- ===== src/Alerts/History.antt =====
-- Sequences of transactions on alerts and deliveries, by any number of workers.
use global_news_intelligence.Prelude.{
  ℕ, ◌≡◌, refl, subst, ◌==◌, Option, none, some, List, [], ◌∷◌, find?, count, count-fresh, count-le,
  All-mono, All-append, ok, after, Bool, true, bind-ok, found-ok, guard-ok, ok-injective, Time,
  arith, Result-cases, inl, inr,
}
use global_news_intelligence.Alerts.Tables.{
  Delivery, Attempt, Alert, Document, Destination, Route, Monitor, Match, AlertDb, satisfies_checks,
}
use global_news_intelligence.Alerts.{
  PreparedDelivery, HeaderReader, Report, prepare, finalize, retry,
}
use global_news_intelligence.Alerts.Creation.{
  Summary, new_alert, of_match, add_alert, create_alert_once, active_routes, new_delivery,
  add_delivery, delivers, create_each, summarize, create_alert_for_match,
}
use global_news_intelligence.Alerts.Again.{once-parts, each-parts}
use global_news_intelligence.Alerts.Sound.{owned, active_of, IsSound}
use global_news_intelligence.Alerts.Invariant.{prepare-IsSound, finalize-IsSound, retry-IsSound}

-- A new delivery has no attempt, because its number is new.
add_delivery-IsSound :
    (db_now : Time) (a : Alert) (r : Route) (x : Destination) (o : Option Delivery) (s : AlertDb)
    → satisfies_checks (new_delivery db_now s.next_delivery_id a r x) ≡ true
    → IsSound s
    → IsSound (add_delivery (new_delivery db_now s.next_delivery_id a r x) o s).0
unfolding add_delivery new_delivery
add_delivery-IsSound db_now a r x (some e) s c v = v
add_delivery-IsSound db_now a r x none s c v = record {
  kept = record {
    checks = All-append _ s.deliveries _ v.kept.checks (c, tt);
    budget = All-append _ s.deliveries _ v.kept.budget (omega arith, tt);
    delivery_ids =
        All-append _ s.deliveries _
          (All-mono _ _ s.deliveries (λ d h. omega arith) v.kept.delivery_ids) (omega arith, tt);
    owners = All-mono _ _ s.attempts (λ m h. omega arith) v.kept.owners;
    attempt_ids = v.kept.attempt_ids;
    attempt_keys = v.kept.attempt_keys;
  };
  linked = All-append _ s.deliveries _ v.linked ((unowned, idle, refl), tt);
}
  where
    unowned : count (owned s.next_delivery_id) s.attempts ≡ 0
    unowned =
        count-fresh (λ (m : Attempt). m.delivery_id) s.next_delivery_id s.attempts v.kept.owners

    idle : count (active_of s.next_delivery_id) s.attempts ≡ 0
    idle = ground (
      arith,
      unowned,
      count-le (active_of s.next_delivery_id) (owned s.next_delivery_id) s.attempts
          (λ m h. ground arith),
    )

create_each-IsSound :
    (db_now : Time) (a : Alert) (rs : List (Route × Destination)) (s : AlertDb)
    (y : AlertDb × List Delivery)
    → create_each db_now a rs s ≡ ok y
    → IsSound s
    → IsSound y.0
unfolding create_each
create_each-IsSound db_now a [] s y h v =
    subst (λ (z : AlertDb × List Delivery). IsSound z.0) (ok-injective _ _ h) v
create_each-IsSound db_now a ((r, x) ∷ rest) s y h v =
    let (z, w, once, each, same) = each-parts db_now a r x rest s y h in
    let (checks, added) = once-parts db_now a r x s z once in
    let sound : IsSound z.0 =
      subst (λ (q : AlertDb × Delivery). IsSound q.0) added
        (add_delivery-IsSound db_now a r x (find? (delivers a.id x.id) s.deliveries) s checks v) in
    subst (λ (q : AlertDb × List Delivery). IsSound q.0) same
      (create_each-IsSound db_now a rest z.0 w each sound)

add_alert-IsSound :
    (a : Alert) (o : Option Alert) (s : AlertDb) → IsSound s → IsSound (add_alert a o s).0
unfolding add_alert
add_alert-IsSound a (some b) s v = v
add_alert-IsSound a none s v = record {
  kept = record {
    checks = v.kept.checks;
    budget = v.kept.budget;
    delivery_ids = v.kept.delivery_ids;
    owners = v.kept.owners;
    attempt_ids = v.kept.attempt_ids;
    attempt_keys = v.kept.attempt_keys;
  };
  linked = v.linked;
}

create-IsSound :
    (db_now : Time) (id : ℕ) (s s' : AlertDb) (m : Summary)
    → IsSound s
    → create_alert_for_match db_now id s ≡ ok (s', m)
    → IsSound s'
unfolding create_alert_for_match create_alert_once summarize
create-IsSound db_now id s s' m v h =
    let (x, k, h1) = found-ok (find? (λ (x : Match). x.id == id) s.matches) _ _ _ h in
    let (y, n, h2) = found-ok (find? (λ (y : Monitor). y.id == x.monitor_id) s.monitors) _ _ _ h1 in
    let (z, p, h3) =
      found-ok (find? (λ (z : Document). z.id == x.document_id) s.documents) _ _ _ h2 in
    let a : Alert = new_alert x y z s.next_alert_id in
    let (w, once, h4) = bind-ok (create_alert_once a s) _ _ h3 in
    let (_, added) = guard-ok _ _ _ _ once in
    let base : IsSound w.0 =
      subst (λ (q : AlertDb × (Alert × Bool)). IsSound q.0) (ok-injective _ _ added)
        (add_alert-IsSound a (find? (of_match a.monitor_match_id) s.alerts) s v) in
    let rs : List (Route × Destination) = active_routes x.monitor_id w.0.routes w.0.destinations in
    let (u, each, last) = bind-ok (create_each db_now w.1.0 rs w.0) _ _ h4 in
    subst (λ (q : AlertDb × Summary). IsSound q.0) (ok-injective _ _ last)
      (create_each-IsSound db_now w.1.0 rs w.0 u each base)

pub data Transaction : Type 0 where
  creates : (db_now : Time) (match_id : ℕ) → Transaction
  prepares : (id : ℕ) (now : Time) (token : ℕ) → Transaction
  finalizes : HeaderReader → PreparedDelivery → Report → (now retry_now : Time) → Transaction
  retries : (id : ℕ) (now : Time) → Transaction
  ticks : (db_now : Time) → Transaction

-- A transaction that raises is rolled back. Between two of them the clock of the database moves.
pub step : AlertDb → Transaction → AlertDb
step s (creates db_now id) = after s (create_alert_for_match db_now id s)
step s (prepares id now token) = after s (prepare id now token s)
step s (finalizes w p r now retry_now) = after s (finalize w p r now retry_now s)
step s (retries id now) = after s (retry id now s)
step s (ticks db_now) = record s { db_now = db_now }

pub run : AlertDb → List Transaction → AlertDb
run s [] = s
run s (t ∷ ts) = run (step s t) ts

step-IsSound : (s : AlertDb) (t : Transaction) → IsSound s → IsSound (step s t)
unfolding step
step-IsSound s (creates db_now id) v = elim (Result-cases (create_alert_for_match db_now id s)) [
  | inl (e, p) ↦ rw p v
  | inr ((s', x), p) ↦ rw p (create-IsSound db_now id s s' x v p)
]
step-IsSound s (prepares id now token) v = elim (Result-cases (prepare id now token s)) [
  | inl (e, p) ↦ rw p v
  | inr ((s', x), p) ↦ rw p (prepare-IsSound id now token s s' x v p)
]
step-IsSound s (finalizes w q r now retry_now) v =
    elim (Result-cases (finalize w q r now retry_now s)) [
      | inl (e, p) ↦ rw p v
      | inr ((s', x), p) ↦ rw p (finalize-IsSound w q r now retry_now s s' x v p)
    ]
step-IsSound s (retries id now) v = elim (Result-cases (retry id now s)) [
  | inl (e, p) ↦ rw p v
  | inr ((s', x), p) ↦ rw p (retry-IsSound id now s s' x v p)
]
step-IsSound s (ticks db_now) v = record {
  kept = record {
    checks = v.kept.checks;
    budget = v.kept.budget;
    delivery_ids = v.kept.delivery_ids;
    owners = v.kept.owners;
    attempt_ids = v.kept.attempt_ids;
    attempt_keys = v.kept.attempt_keys;
  };
  linked = v.linked;
}

-- From sound tables, through any sequence of transactions, failed ones included, every delivery
-- satisfies the check constraints of its table, its attempts of the cycle stay within its maximum, its counter is the
-- number of its attempts, and one of these is running, under the claim of the delivery, exactly
-- while the delivery is being processed.
pub run-IsSound : (s : AlertDb) (ts : List Transaction) → IsSound s → IsSound (run s ts)
unfolding run
run-IsSound s [] v = v
run-IsSound s (t ∷ ts) v = run-IsSound (step s t) ts (step-IsSound s t v)
