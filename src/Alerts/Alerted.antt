-- ===== src/Alerts/Alerted.antt =====
-- The alerts after `create_alert_for_match` of app/services/alert_service.py.
use global_news_intelligence.Prelude.{
  ℕ, ◌≡◌, refl, sym, ap, subst, ◌∙◌, ◌==◌, Bool, true, Option, none, some, List, [], ◌∷◌, any,
  any-append, any_of_find?, find?, find?-holds, ok, ok-injective, bind-ok, found-ok, guard-ok, Time,
  arith,
}
use global_news_intelligence.Alerts.Tables.{
  Alert, Delivery, Route, Destination, AlertDb, Monitor, Match, Document,
}
use global_news_intelligence.Alerts.Creation.{
  Summary, of_match, new_alert, add_alert, create_alert_once, active_routes, delivers, new_delivery,
  add_delivery, create_delivery_once, create_each, summarize, create_alert_for_match,
}

abbrev pub is_alerted : AlertDb → ℕ → Bool
is_alerted s id = any (of_match id) s.alerts

add_delivery-alerts :
    (d : Delivery) (o : Option Delivery) (s : AlertDb) → (add_delivery d o s).0.alerts ≡ s.alerts
unfolding add_delivery
add_delivery-alerts d none s = refl
add_delivery-alerts d (some e) s = refl

create_each-alerts :
    (now : Time) (a : Alert) (rs : List (Route × Destination)) (s : AlertDb)
    (y : AlertDb × List Delivery)
    → create_each now a rs s ≡ ok y
    → y.0.alerts ≡ s.alerts
unfolding create_each create_delivery_once
create_each-alerts now a [] s y h =
    sym (ap (λ (z : AlertDb × List Delivery). z.0.alerts) (ok-injective _ _ h))
create_each-alerts now a ((r, x) ∷ rest) s y h =
    let (z, once, h1) = bind-ok (create_delivery_once now a r x s) _ _ h in
    let (_, added) = guard-ok _ _ _ _ once in
    let (w, each, h2) = bind-ok (create_each now a rest z.0) _ _ h1 in
    let o : Option Delivery = find? (delivers a.id x.id) s.deliveries in
    let stored : z.0.alerts ≡ s.alerts =
      sym (ap (λ (q : AlertDb × Delivery). q.0.alerts) (ok-injective _ _ added))
      ∙ add_delivery-alerts (new_delivery now s.next_delivery_id a r x) o s in
    sym (ap (λ (q : AlertDb × List Delivery). q.0.alerts) (ok-injective _ _ h2))
    ∙ create_each-alerts now a rest z.0 w each
    ∙ stored

-- The match has an alert, and no match has lost one.
abbrev pub Alerted : ℕ → AlertDb → AlertDb → Type 0
Alerted id s t =
    (is_alerted t id ≡ true) × ((j : ℕ) → is_alerted s j ≡ true → is_alerted t j ≡ true)

add_alert-Alerted :
    (a : Alert) (o : Option Alert) (s : AlertDb)
    → find? (of_match a.monitor_match_id) s.alerts ≡ o
    → Alerted a.monitor_match_id s (add_alert a o s).0
unfolding add_alert any
add_alert-Alerted a (some b) s h = (
  any_of_find? (of_match a.monitor_match_id) (of_match a.monitor_match_id) s.alerts b h
      (find?-holds (of_match a.monitor_match_id) s.alerts b h),
  λ j v. v,
)
add_alert-Alerted a none s h = (
  rw (any-append (of_match a.monitor_match_id) s.alerts (a ∷ [])) (ground arith),
  λ j v. rw (any-append (of_match j) s.alerts (a ∷ [])) (ground (arith, v)),
)

create_alert_once-Alerted :
    (a : Alert) (s : AlertDb) (y : AlertDb × (Alert × Bool))
    → create_alert_once a s ≡ ok y
    → Alerted a.monitor_match_id s y.0
unfolding create_alert_once
create_alert_once-Alerted a s y h =
    let (_, k) = guard-ok _ _ _ _ h in
    subst (λ (z : AlertDb × (Alert × Bool)). Alerted a.monitor_match_id s z.0) (ok-injective _ _ k)
      (add_alert-Alerted a (find? (of_match a.monitor_match_id) s.alerts) s refl)

pub create_alert_for_match-Alerted :
    (now : Time) (id : ℕ) (s : AlertDb) (y : AlertDb × Summary)
    → create_alert_for_match now id s ≡ ok y
    → Alerted id s y.0
unfolding create_alert_for_match new_alert summarize
create_alert_for_match-Alerted now id s y h =
    let (m, found, h1) = found-ok (find? (λ (x : Match). x.id == id) s.matches) _ _ _ h in
    let (monitor, _, h2) =
      found-ok (find? (λ (x : Monitor). x.id == m.monitor_id) s.monitors) _ _ _ h1 in
    let (document, _, h3) =
      found-ok (find? (λ (x : Document). x.id == m.document_id) s.documents) _ _ _ h2 in
    let a : Alert = new_alert m monitor document s.next_alert_id in
    let (z, once, h4) = bind-ok (create_alert_once a s) _ _ h3 in
    let same : m.id ≡ id =
      ground (arith, find?-holds (λ (x : Match). x.id == id) s.matches m found) in
    let (here, others) = create_alert_once-Alerted a s z once in
    let (v, each, last) =
      bind-ok (create_each now z.1.0 (active_routes m.monitor_id z.0.routes z.0.destinations) z.0) _
        _ h4 in
    let kept : v.0.alerts ≡ z.0.alerts =
      create_each-alerts now z.1.0 (active_routes m.monitor_id z.0.routes z.0.destinations) z.0 v
        each in
    subst (λ (w : AlertDb × Summary). Alerted id s w.0) (ok-injective _ _ last)
      (
        ap (any (of_match id)) kept ∙ subst (λ j. is_alerted z.0 j ≡ true) same here,
        λ j v. ap (any (of_match j)) kept ∙ others j v,
      )
