-- ===== src/Monitors/Evaluating.antt =====
-- What the evaluation of monitors keeps, shown from what the writes of its savepoint and of its runs
-- keep.
use global_news_intelligence.Prelude.{
  ℕ, suc, ◌≡◌, refl, subst, ◌==◌, not, Option, some, List, [], ◌∷◌, ◌++◌, find?, bind-ok, found-ok,
  guard-ok, ok-injective, Result, ok, err, Time, arith,
}
use global_news_intelligence.Alerts.Tables.{Document}
use global_news_intelligence.Monitors.Tables.{
  Trigger, Monitor, Revision, EvaluationRun, MonitorDb, is_revision,
}
use global_news_intelligence.Monitors.Evaluation.{
  Plan, Clock, EvaluationSummary, Matched, evaluate, match_documents, new_run, finish_run, finish,
  or_unusable, satisfies_run, has_document, succeeded_run, failed_run,
}
use global_news_intelligence.Monitors.{evaluate_document, evaluate_each, executable_monitors}

or_unusable-ok : (m : Result MonitorDb) (t : MonitorDb) → or_unusable m ≡ ok t → m ≡ ok t
or_unusable-ok (ok s) t h = h
or_unusable-ok (err e) t h = absurd (ground arith)

module _ (plan : Plan) (P : MonitorDb → Type 0)
    (fs : (t : Clock) (m : Monitor) (r : Revision) (run : ℕ) (document : Option ℕ) (s u : MonitorDb)
        (d : Matched)
      → P s
      → match_documents plan t m r run document s ≡ ok (u, d)
      → P u)
    (fn : (rs : List EvaluationRun) (n : ℕ) (s : MonitorDb)
      → P s
      → P (record s { runs = rs; next_run_id = n })) where
  finish-keeps : (r : EvaluationRun) (s t : MonitorDb) → P s → finish r s ≡ ok t → P t
  unfolding finish
  finish-keeps r s t v h =
      let (_, k) = guard-ok (not (satisfies_run r)) _ _ _ h in
      subst P (ok-injective _ _ k) (fn _ s.next_run_id s v)

  finish_run-keeps :
      (now : Time) (r : EvaluationRun) (s : MonitorDb) (m : Result (MonitorDb × Matched))
      → P s
      → ((u : MonitorDb) (d : Matched) → m ≡ ok (u, d) → P u)
      → (y : MonitorDb × EvaluationSummary) → finish_run now r s m ≡ ok y
      → P y.0
  unfolding finish_run
  finish_run-keeps now r s (ok (u, d)) v k y h =
      let (w, written, h1) = bind-ok (or_unusable (finish (succeeded_run now d r) u)) _ _ h in
      subst (λ (z : MonitorDb × EvaluationSummary). P z.0) (ok-injective _ _ h1)
        (finish-keeps (succeeded_run now d r) u w (k u d refl) (or_unusable-ok _ w written))
  finish_run-keeps now r s (err e) v k y h =
      let (w, written, h1) = bind-ok (finish (failed_run now r) s) _ _ h in
      subst (λ (z : MonitorDb × EvaluationSummary). P z.0) (ok-injective _ _ h1)
        (finish-keeps (failed_run now r) s w v written)

  pub evaluate-keeps :
      (clock : Clock) (m : Monitor) (trigger : Trigger) (document : Option ℕ) (s : MonitorDb)
      (y : MonitorDb × EvaluationSummary)
      → P s
      → evaluate plan clock m trigger document s ≡ ok y
      → P y.0
  unfolding evaluate
  evaluate-keeps clock m trigger document s y v h =
      let (r, found, h1) =
        found-ok (find? (is_revision m.id m.current_revision_number) s.revisions) _ _ _ h in
      let (_, h2) = guard-ok (not (has_document document s)) _ _ _ h1 in
      let started : EvaluationRun = new_run m.id r.id document trigger clock.db_now s.next_run_id in
      let s' : MonitorDb = record s {
        runs = s.runs ++ started ∷ [];
        next_run_id = suc s.next_run_id;
      } in
      let v' : P s' = fn _ (suc s.next_run_id) s v in
      finish_run-keeps clock.completed_at started s'
        (match_documents plan clock m r started.id document s') v'
        (λ u d k. fs clock m r started.id document s' u d v' k) y h2

  evaluate_each-keeps :
      (clock : ℕ → Clock) (trigger : Trigger) (document : ℕ) (ms : List Monitor) (s : MonitorDb)
      (y : MonitorDb × List EvaluationSummary)
      → P s
      → evaluate_each plan clock trigger document ms s ≡ ok y
      → P y.0
  unfolding evaluate_each
  evaluate_each-keeps clock trigger document [] s y v h =
      subst (λ (z : MonitorDb × List EvaluationSummary). P z.0) (ok-injective _ _ h) v
  evaluate_each-keeps clock trigger document (m ∷ ms) s y v h =
      let ((u, x), first, h1) =
        bind-ok (evaluate plan (clock m.id) m trigger (some document) s) _ _ h in
      let ((t, xs), rest, h2) = bind-ok (evaluate_each plan clock trigger document ms u) _ _ h1 in
      subst (λ (z : MonitorDb × List EvaluationSummary). P z.0) (ok-injective _ _ h2)
        (evaluate_each-keeps clock trigger document ms u (t, xs)
          (evaluate-keeps (clock m.id) m trigger (some document) s (u, x) v first) rest)

  pub evaluate_document-keeps :
      (clock : ℕ → Clock) (now : Time) (document : ℕ) (trigger : Trigger) (s : MonitorDb)
      (y : MonitorDb × List EvaluationSummary)
      → P s
      → evaluate_document plan clock now document trigger s ≡ ok y
      → P y.0
  unfolding evaluate_document
  evaluate_document-keeps clock now document trigger s y v h =
      let (_, _, h1) =
        found-ok (find? (λ (d : Document). d.id == document) s.alerting.documents) _ _ _ h in
      evaluate_each-keeps clock trigger document (executable_monitors now s) s y v h1
