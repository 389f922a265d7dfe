-- ===== src/Alerts/Again.antt =====
-- `create_alert_for_match`, called twice for one match.
use global_news_intelligence.Prelude.{
  ℕ, ◌≡◌, refl, subst, ◌==◌, Bool, true, false, not, ◌||◌, bind-ok, found-ok, guard-ok,
  ok-injective, Option, none, some, List, [], ◌∷◌, find?, find?-append_one, find?-append_hit, ok,
  Time, arith, Option-cases, inl, inr,
}
use global_news_intelligence.Lease.{is_blank}
use global_news_intelligence.Alerts.Tables.{
  Delivery, Alert, Document, Destination, Route, Monitor, Match, AlertDb, satisfies_checks,
}
use global_news_intelligence.Alerts.Creation.{
  Summary, new_alert, of_match, add_alert, create_alert_once, active_routes, new_delivery,
  add_delivery, delivers, create_delivery_once, create_each, summarize, create_alert_for_match,
}

not-false : (b : Bool) → not b ≡ false → b ≡ true
not-false b h = ground arith

-- What a creation of a delivery that succeeds has checked and done.
pub once-parts :
    (db_now : Time) (a : Alert) (r : Route) (x : Destination) (s : AlertDb) (y : AlertDb × Delivery)
    → create_delivery_once db_now a r x s ≡ ok y
    → (satisfies_checks (new_delivery db_now s.next_delivery_id a r x) ≡ true)
      × (add_delivery
            (new_delivery db_now s.next_delivery_id a r x)
            (find? (delivers a.id x.id) s.deliveries)
            s
          ≡ y)
unfolding create_delivery_once
once-parts db_now a r x s y h =
    let (checks, added) = guard-ok _ _ _ _ h in (not-false _ checks, ok-injective _ _ added)

once_found :
    (db_now : Time) (a : Alert) (r : Route) (x : Destination) (s : AlertDb) (y : AlertDb × Delivery)
    → create_delivery_once db_now a r x s ≡ ok y
    → find? (delivers a.id x.id) y.0.deliveries ≡ some y.1
unfolding add_delivery new_delivery
once_found db_now a r x s y made =
    let (_, same) = once-parts db_now a r x s y made in
    subst (λ (z : AlertDb × Delivery). find? (delivers a.id x.id) z.0.deliveries ≡ some z.1) same
      (elim (Option-cases (find? (delivers a.id x.id) s.deliveries)) [
        | inr (d, h) ↦ rw h h
        | inl h ↦ rw h (
            ground (
              arith,
              find?-append_one (delivers a.id x.id) s.deliveries
                  (new_delivery db_now s.next_delivery_id a r x) h,
            ))
      ])

once_keeps :
    (db_now : Time) (a : Alert) (r : Route) (x : Destination) (s : AlertDb) (y : AlertDb × Delivery)
    (p : Delivery → Bool) (d : Delivery)
    → create_delivery_once db_now a r x s ≡ ok y
    → find? p s.deliveries ≡ some d
    → find? p y.0.deliveries ≡ some d
unfolding add_delivery
once_keeps db_now a r x s y p d made k =
    let (_, same) = once-parts db_now a r x s y made in
    subst (λ (z : AlertDb × Delivery). find? p z.0.deliveries ≡ some d) same
      (elim (Option-cases (find? (delivers a.id x.id) s.deliveries)) [
        | inr (e, h) ↦ rw h k
        | inl h ↦ rw h (find?-append_hit p s.deliveries _ d k)
      ])

-- What a creation for some routes that succeeds has done first and then.
pub each-parts :
    (db_now : Time) (a : Alert) (r : Route) (x : Destination) (rest : List (Route × Destination))
    (s : AlertDb) (y : AlertDb × List Delivery)
    → create_each db_now a ((r, x) ∷ rest) s ≡ ok y
    → (z : AlertDb × Delivery) × (w : AlertDb × List Delivery) × (create_delivery_once db_now a r x
          s
        ≡ ok z)
      × (create_each db_now a rest z.0 ≡ ok w)
      × ((w.0, z.1 ∷ w.1) ≡ y)
unfolding create_each
each-parts db_now a r x rest s y h =
    let (z, once, h1) = bind-ok (create_delivery_once db_now a r x s) _ _ h in
    let (w, each, h2) = bind-ok (create_each db_now a rest z.0) _ _ h1 in
    (z, w, once, each, ok-injective _ _ h2)

each_keeps :
    (db_now : Time) (a : Alert) (rs : List (Route × Destination)) (s : AlertDb)
    (y : AlertDb × List Delivery) (p : Delivery → Bool) (d : Delivery)
    → create_each db_now a rs s ≡ ok y
    → find? p s.deliveries ≡ some d
    → find? p y.0.deliveries ≡ some d
unfolding create_each
each_keeps db_now a [] s y p d h k =
    subst (λ (z : AlertDb × List Delivery). find? p z.0.deliveries ≡ some d) (ok-injective _ _ h) k
each_keeps db_now a ((r, x) ∷ rest) s y p d h k =
    let (z, w, once, each, same) = each-parts db_now a r x rest s y h in
    subst (λ (q : AlertDb × List Delivery). find? p q.0.deliveries ≡ some d) same
      (each_keeps db_now a rest z.0 w p d each (once_keeps db_now a r x s z p d once k))

-- Routes that have their deliveries get no more.
each_again :
    (db_now later : Time) (a : Alert) (rs : List (Route × Destination)) (s : AlertDb)
    (y : AlertDb × List Delivery)
    → create_each db_now a rs s ≡ ok y
    → create_each later a rs y.0 ≡ ok y
unfolding create_each
each_again db_now later a [] s y h =
    subst (λ (z : AlertDb × List Delivery). create_each later a [] z.0 ≡ ok z) (ok-injective _ _ h)
      refl
each_again db_now later a ((r, x) ∷ rest) s y h =
    let (z, w, once, each, last) = each-parts db_now a r x rest s y h in
    let (checks, _) = once-parts db_now a r x s z once in
    let stored : find? (delivers a.id x.id) w.0.deliveries ≡ some z.1 =
      each_keeps db_now a rest z.0 w (delivers a.id x.id) z.1 each
        (once_found db_now a r x s z once) in
    let fine : satisfies_checks (new_delivery later w.0.next_delivery_id a r x) ≡ true =
      unfold satisfies_checks new_delivery in checks in
    let same : create_delivery_once later a r x w.0 ≡ ok (w.0, z.1) =
      unfold create_delivery_once add_delivery in rw (fine, stored) refl in
    subst (λ (q : AlertDb × List Delivery). create_each later a ((r, x) ∷ rest) q.0 ≡ ok q) last
      (rw (same, each_again db_now later a rest z.0 w each) refl)

-- The tables that the creation of deliveries only reads.
record Reads (s t : AlertDb) : Type 0 where
  monitors : t.monitors ≡ s.monitors
  matches : t.matches ≡ s.matches
  documents : t.documents ≡ s.documents
  destinations : t.destinations ≡ s.destinations
  routes : t.routes ≡ s.routes
  alerts : t.alerts ≡ s.alerts

once-Reads :
    (db_now : Time) (a : Alert) (r : Route) (x : Destination) (s u : AlertDb)
    (y : AlertDb × Delivery)
    → create_delivery_once db_now a r x s ≡ ok y
    → Reads u s
    → Reads u y.0
unfolding add_delivery
once-Reads db_now a r x s u y made v =
    let (_, same) = once-parts db_now a r x s y made in
    subst (λ (z : AlertDb × Delivery). Reads u z.0) same
      (elim (Option-cases (find? (delivers a.id x.id) s.deliveries)) [
        | inr (e, h) ↦ rw h v
        | inl h ↦ rw h (record {
          monitors = v.monitors;
          matches = v.matches;
          documents = v.documents;
          destinations = v.destinations;
          routes = v.routes;
          alerts = v.alerts;
        })
      ])

each-Reads :
    (db_now : Time) (a : Alert) (rs : List (Route × Destination)) (s u : AlertDb)
    (y : AlertDb × List Delivery)
    → create_each db_now a rs s ≡ ok y
    → Reads u s
    → Reads u y.0
unfolding create_each
each-Reads db_now a [] s u y h v =
    subst (λ (z : AlertDb × List Delivery). Reads u z.0) (ok-injective _ _ h) v
each-Reads db_now a ((r, x) ∷ rest) s u y h v =
    let (z, w, once, each, same) = each-parts db_now a r x rest s y h in
    subst (λ (q : AlertDb × List Delivery). Reads u q.0) same
      (each-Reads db_now a rest z.0 u w each (once-Reads db_now a r x s u z once v))

alert_found :
    (a : Alert) (s : AlertDb)
    → find?
        (of_match a.monitor_match_id)
        (add_alert a (find? (of_match a.monitor_match_id) s.alerts) s).0.alerts
      ≡ some (add_alert a (find? (of_match a.monitor_match_id) s.alerts) s).1.0
unfolding add_alert
alert_found a s = elim (Option-cases (find? (of_match a.monitor_match_id) s.alerts)) [
  | inr (b, h) ↦ rw h h
  | inl h ↦ rw h (ground (arith, find?-append_one (of_match a.monitor_match_id) s.alerts a h))
]

alert-Reads :
    (a : Alert) (o : Option Alert) (s : AlertDb)
    → ((add_alert a o s).0.monitors ≡ s.monitors)
      × ((add_alert a o s).0.matches ≡ s.matches)
      × ((add_alert a o s).0.documents ≡ s.documents)
unfolding add_alert
alert-Reads a (some b) s = (refl, refl, refl)
alert-Reads a none s = (refl, refl, refl)

-- A call for a match whose alert and deliveries are there.
answered_again :
    (later : Time) (id : ℕ) (u : AlertDb) (x : Match) (y : Monitor) (z : Document) (b : Alert)
    (ds : List Delivery)
    → find? (λ (m : Match). m.id == id) u.matches ≡ some x
    → find? (λ (m : Monitor). m.id == x.monitor_id) u.monitors ≡ some y
    → find? (λ (d : Document). d.id == x.document_id) u.documents ≡ some z
    → (is_blank (new_alert x y z u.next_alert_id).title
        || is_blank (new_alert x y z u.next_alert_id).message)
      ≡ false
    → find? (of_match x.id) u.alerts ≡ some b
    → create_each later b (active_routes x.monitor_id u.routes u.destinations) u ≡ ok (u, ds)
    → create_alert_for_match later id u
      ≡ ok (u, record { alert = b; deliveries = ds; created = false })
unfolding create_alert_for_match create_alert_once summarize new_alert add_alert
answered_again later id u x y z b ds k n p text found each = rw (k, n, p, text, found, each) refl

-- When a match has got its alert, a second call for it changes nothing. It answers with the same
-- alert and the same deliveries, and says that the alert is not new.
pub create_again :
    (db_now later : Time) (id : ℕ) (s s' : AlertDb) (m : Summary)
    → create_alert_for_match db_now id s ≡ ok (s', m)
    → create_alert_for_match later id s'
      ≡ ok (s', record { alert = m.alert; deliveries = m.deliveries; created = false })
unfolding create_alert_for_match create_alert_once summarize new_alert
create_again db_now later id s s' m h =
    let (x, k, h1) = found-ok (find? (λ (x : Match). x.id == id) s.matches) _ _ _ h in
    let (y, n, h2) = found-ok (find? (λ (y : Monitor). y.id == x.monitor_id) s.monitors) _ _ _ h1 in
    let (z, p, h3) =
      found-ok (find? (λ (z : Document). z.id == x.document_id) s.documents) _ _ _ h2 in
    let a : Alert = new_alert x y z s.next_alert_id in
    let o : Option Alert = find? (of_match a.monitor_match_id) s.alerts in
    let (w, once, h4) = bind-ok (create_alert_once a s) _ _ h3 in
    let (text, added) = guard-ok (is_blank a.title || is_blank a.message) _ _ _ once in
    let base : add_alert a o s ≡ w = ok-injective _ _ added in
    let rs : List (Route × Destination) = active_routes x.monitor_id w.0.routes w.0.destinations in
    let (u, each, last) = bind-ok (create_each db_now w.1.0 rs w.0) _ _ h4 in
    let reads : Reads w.0 u.0 = each-Reads db_now w.1.0 rs w.0 w.0 u each (record {
      monitors = refl;
      matches = refl;
      documents = refl;
      destinations = refl;
      routes = refl;
      alerts = refl;
    }) in
    let (monitors, matches, documents) = alert-Reads a o s in
    let found : find? (of_match x.id) w.0.alerts ≡ some w.1.0 =
      subst (λ (q : AlertDb × (Alert × Bool)). find? (of_match x.id) q.0.alerts ≡ some q.1.0) base
        (alert_found a s) in
    subst
      (λ (q : AlertDb × Summary).
        create_alert_for_match later id q.0
        ≡ ok (q.0, record { alert = q.1.alert; deliveries = q.1.deliveries; created = false }))
      (ok-injective _ _ last)
      (answered_again later id u.0 x y z w.1.0 u.1
        (rw (reads.matches) (
          subst
            (λ (q : AlertDb × (Alert × Bool)).
              find? (λ (i : Match). i.id == id) q.0.matches ≡ some x)
            base (rw matches k)))
        (rw (reads.monitors) (
          subst
            (λ (q : AlertDb × (Alert × Bool)).
              find? (λ (i : Monitor). i.id == x.monitor_id) q.0.monitors ≡ some y)
            base (rw monitors n)))
        (rw (reads.documents) (
          subst
            (λ (q : AlertDb × (Alert × Bool)).
              find? (λ (i : Document). i.id == x.document_id) q.0.documents ≡ some z)
            base (rw documents p)))
        text (rw reads.alerts found)
        (rw (reads.routes, reads.destinations) (each_again db_now later w.1.0 rs w.0 u each)))
