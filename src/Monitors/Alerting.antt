-- ===== src/Monitors/Alerting.antt =====
-- Matches of monitors and their alerts, which `_evaluate_monitor` of app/services/monitor_service.py
-- writes in one savepoint.
use global_news_intelligence.Prelude.{
  ℕ, suc, ◌≡◌, refl, ap, subst, ◌∙◌, ◌==◌, Bool, true, false, ◌&&◌, ◌||◌, Option, none, some, List,
  [], ◌∷◌, All, All-append, All-mono, All-update, any, find?, filter, ok-injective, guard-ok, ok,
  Time, ltb, Bool-cases, inl, inr, arith,
}
use global_news_intelligence.Alerts.Tables.{AlertDb}
use global_news_intelligence.Alerts.Alerted.{is_alerted, create_alert_for_match-Alerted}
use global_news_intelligence.Monitors.Tables.{Monitor, Revision, MonitorMatch, MonitorDb}
use global_news_intelligence.Monitors.Evaluation.{
  Plan, Clock, Matched, matches_document, new_match, observed, record_found, record_match,
  record_each, alert_each, view, add_new, document_ids, match_documents,
}
use global_news_intelligence.Monitors.Revisions.{MonitorCreate, RevisionInput, MonitorDetail}
use global_news_intelligence.Monitors.Parts.{Created, Revises, with_monitor, create_revision-parts}
use global_news_intelligence.Monitors.Moves.{Changes}
use global_news_intelligence.Monitors.Savepoints.{
  record_each-parts, alert_each-parts, match_documents-parts,
}
use global_news_intelligence.Monitors.Transactions.{Transaction, run}
use global_news_intelligence.Monitors.Valid.{
  IsValid, Created-IsValid, Revises-IsValid, Changes-IsValid,
}
use global_news_intelligence.Monitors.Invariant.{match_documents-IsValid, runs-IsValid}
use global_news_intelligence.Monitors.Keeping.{run-keeps}

abbrev mem : ℕ → List ℕ → Bool
mem id ids = any (λ j. j == id) ids

-- Every match has an alert, or is one that is still to get it.
abbrev Covered : (ℕ → Bool) → MonitorDb → Type 0
Covered pending s =
    All (λ (x : MonitorMatch). (is_alerted s.alerting x.id || pending x.id) ≡ true) s.matches

Covered-mono :
    (p q : ℕ → Bool) (s : MonitorDb)
    → ((j : ℕ) → p j ≡ true → q j ≡ true)
    → Covered p s
    → Covered q s
Covered-mono p q s h v = All-mono _ _ s.matches (λ a k. ground (arith, k, h a.id)) v

abbrev with_new : MonitorMatch × Bool → (ℕ → Bool) → ℕ → Bool
with_new x pending j = pending j || (x.1 && x.0.id == j)

record_found-Covered :
    (monitor d revision run : ℕ) (now : Time) (o : Option MonitorMatch) (p : ℕ → Bool)
    (s u : MonitorDb) (x : MonitorMatch × Bool)
    → Covered p s
    → record_found monitor d revision run now o s ≡ ok (u, x)
    → Covered (with_new x p) u
unfolding record_found new_match observed
record_found-Covered monitor d revision run now none p s u x v h =
    subst (λ (y : MonitorDb × (MonitorMatch × Bool)). Covered (with_new y.1 p) y.0)
      (ok-injective _ _ h)
      (All-append _ s.matches _ (All-mono _ _ s.matches (λ a k. ground (arith, k)) v)
        (ground arith, tt))
record_found-Covered monitor d revision run now (some y) p s u x v h =
    let (_, l) = guard-ok (ltb now y.first_matched_at) _ _ _ h in
    subst (λ (z : MonitorDb × (MonitorMatch × Bool)). Covered (with_new z.1 p) z.0)
      (ok-injective _ _ l)
      (All-update _ (matches_document monitor d) (observed revision run now) s.matches (λ a e k. k)
        (All-mono _ _ s.matches (λ a k. ground (arith, k)) v))

mem-add_new :
    (x : MonitorMatch × Bool) (rest : List ℕ × List ℕ) (j : ℕ)
    → mem j (add_new x rest).1 ≡ ((x.1 && x.0.id == j) || mem j rest.1)
unfolding any
mem-add_new (m, true) (a, b) j = refl
mem-add_new (m, false) (a, b) j = refl

record_match-Covered :
    (monitor d revision run : ℕ) (now : Time) (p : ℕ → Bool) (s u : MonitorDb)
    (x : MonitorMatch × Bool)
    → Covered p s
    → record_match monitor d revision run now s ≡ ok (u, x)
    → Covered (with_new x p) u
unfolding record_match
record_match-Covered monitor d revision run now p s u x v h =
    record_found-Covered monitor d revision run now (find? (matches_document monitor d) s.matches) p
      s u x v h

record_each-Covered :
    (monitor revision run : ℕ) (now : Time) (ds : List ℕ) (p : ℕ → Bool) (s t : MonitorDb)
    (new : List ℕ × List ℕ)
    → Covered p s
    → record_each monitor revision run now ds s ≡ ok (t, new)
    → Covered (λ j. p j || mem j new.1) t
unfolding record_each
record_each-Covered monitor revision run now [] p s t new v h =
    subst (λ (y : MonitorDb × (List ℕ × List ℕ)). Covered (λ j. p j || mem j y.1.1) y.0)
      (ok-injective _ _ h) (Covered-mono p _ s (λ j k. ground (arith, k)) v)
record_each-Covered monitor revision run now (d ∷ ds) p s t new v h =
    let (u, x, rest, first, later, same) =
      record_each-parts monitor revision run now d ds s t new h in
    let step : Covered (with_new x p) u =
      record_match-Covered monitor d revision run now p s u x v first in
    Covered-mono (λ j. with_new x p j || mem j rest.1) _ t
      (λ j k. ground (arith, k, ap (λ (y : List ℕ × List ℕ). mem j y.1) same, mem-add_new x rest j))
      (record_each-Covered monitor revision run now ds (with_new x p) u t rest step later)

alert_each-Covered :
    (db_now : Time) (ids : List ℕ) (s t : MonitorDb)
    → Covered (λ j. mem j ids) s
    → alert_each db_now ids s ≡ ok t
    → Covered (λ _. false) t
unfolding alert_each any
alert_each-Covered db_now [] s t v h = subst (Covered (λ _. false)) (ok-injective _ _ h) v
alert_each-Covered db_now (id ∷ ids) s t v h =
    let (a, x, made, later) = alert_each-parts db_now id ids s t h in
    let (here, others) = create_alert_for_match-Alerted db_now id (view s) (a, x) made in
    alert_each-Covered db_now ids (record s { alerting = a }) t
      (All-mono _ _ s.matches (λ y k. covered y.id a here (others y.id) k) v) later
  where
    covered :
        (j : ℕ) (a : AlertDb)
        → is_alerted a id ≡ true
        → (is_alerted s.alerting j ≡ true → is_alerted a j ≡ true)
        → (is_alerted s.alerting j || (id == j || mem j ids)) ≡ true
        → (is_alerted a j || mem j ids) ≡ true
    covered j a here others k = elim (Bool-cases (id == j)) [
      | inl e ↦
          let same : id ≡ j = ground arith in
          let alerted : is_alerted a j ≡ true = subst (λ i. is_alerted a i ≡ true) same here in
          rw alerted refl
      | inr e ↦ ground (arith, e, others, k)
    ]

-- Every match has an alert.
abbrev pub AreAlerted : MonitorDb → Type 0
AreAlerted s = All (λ (x : MonitorMatch). is_alerted s.alerting x.id ≡ true) s.matches

match_documents-AreAlerted :
    (plan : Plan) (t : Clock) (m : Monitor) (r : Revision) (run : ℕ) (document : Option ℕ)
    (s u : MonitorDb) (d : Matched)
    → AreAlerted s
    → match_documents plan t m r run document s ≡ ok (u, d)
    → AreAlerted u
match_documents-AreAlerted plan t m r run document s u d v h =
    let (matching, s', new, _, each, alerts, _, _, _) =
      match_documents-parts plan t m r run document s u d h in
    let start : Covered (λ _. false) s = All-mono _ _ s.matches (λ a k. ground (arith, k)) v in
    let pending : Covered (λ j. mem j new.1) s' =
      record_each-Covered m.id r.id run t.matched_at (filter matching (document_ids document s))
        (λ _. false) s s' new start each in
    All-mono _ _ u.matches (λ a k. ground (arith, k))
      (alert_each-Covered t.db_now new.1 s' u pending alerts)

-- The other transactions touch neither matches nor alerts.
abbrev SameMatches : MonitorDb → MonitorDb → Type 0
SameMatches s t = (s.matches ≡ t.matches) × (s.alerting ≡ t.alerting)

same-AreAlerted : (s t : MonitorDb) → SameMatches s t → AreAlerted s → AreAlerted t
same-AreAlerted s t (m, a) v =
    subst (λ xs. All (λ (x : MonitorMatch). is_alerted t.alerting x.id ≡ true) xs) m
      (subst (λ b. All (λ (x : MonitorMatch). is_alerted b x.id ≡ true) s.matches) a v)

Created-SameMatches :
    (now : Time) (d : MonitorCreate) (s : MonitorDb) (y : MonitorDb × MonitorDetail)
    → Created now d s y
    → SameMatches s y.0
Created-SameMatches now d s y (_, _, _, _, revised) =
    let (_, _, _, same) =
      create_revision-parts now y.1.monitor 1 d.revision (with_monitor y.1.monitor s)
        (y.0, (y.1.revision, y.1.criteria)) revised in
    (ap (λ (t : MonitorDb). t.matches) same, ap (λ (t : MonitorDb). t.alerting) same)

Revises-SameMatches :
    (now : Time) (id : ℕ) (d : RevisionInput) (s : MonitorDb) (y : MonitorDb × MonitorDetail)
    → Revises now id d s y
    → SameMatches s y.0
Revises-SameMatches now id d s y (m, u, _, _, revised, _, (_, _, _, _, _, same), _) =
    let (_, _, _, kept) =
      create_revision-parts now m (suc m.current_revision_number) d s
        (u, (y.1.revision, y.1.criteria)) revised in
    (
      ap (λ (t : MonitorDb). t.matches) kept ∙ ap (λ (t : MonitorDb). t.matches) same,
      ap (λ (t : MonitorDb). t.alerting) kept ∙ ap (λ (t : MonitorDb). t.alerting) same,
    )

Changes-SameMatches : (m x : Monitor) (s t : MonitorDb) → Changes m x s t → SameMatches s t
Changes-SameMatches m x s t (_, _, _, (_, _, _, _, _, same)) =
    (ap (λ (u : MonitorDb). u.matches) same, ap (λ (u : MonitorDb). u.alerting) same)

-- From valid tables in which every match has an alert, every sequence of transactions, failed
-- evaluations included, whatever the plan answers, leaves every match with an alert: matches and
-- their alerts are stored together or not at all.
pub run-AreAlerted :
    (plan : Plan) (s : MonitorDb) (ts : List Transaction)
    → IsValid s
    → AreAlerted s
    → AreAlerted (run plan s ts)
run-AreAlerted plan s ts v w =
    (run-keeps plan (λ t. IsValid t × AreAlerted t) (λ t k. k.0.ids)
      (λ now d t y c k. (
        Created-IsValid now d t y c k.0,
        same-AreAlerted t y.0 (Created-SameMatches now d t y c) k.1,
      ))
      (λ now i d t y c k. (
        Revises-IsValid now i d t y c k.0,
        same-AreAlerted t y.0 (Revises-SameMatches now i d t y c) k.1,
      ))
      (λ a x t u c k.
        (Changes-IsValid a x t u c k.0, same-AreAlerted t u (Changes-SameMatches a x t u c) k.1))
      (λ c m r n document a u d k h. (
        match_documents-IsValid plan c m r n document a u d k.0 h,
        match_documents-AreAlerted plan c m r n document a u d k.1 h,
      ))
      (λ rs n t k. (runs-IsValid rs n t k.0, k.1)) s ts (v, w)).1
