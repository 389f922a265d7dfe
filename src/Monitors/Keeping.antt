-- ===== src/Monitors/Keeping.antt =====
-- What all the transactions on monitors keep, shown from what each of their writes keeps.
use global_news_intelligence.Prelude.{
  ℕ, All-both, All-miss, ◌≤◌, ◌≡◌, refl, sym, subst, ◌==◌, Bool, true, false, Option, List, [], ◌∷◌,
  All, All-mono, count, bind-ok, ok-injective, Result, ok, err, after, Time, arith,
}
use global_news_intelligence.Monitors.Tables.{
  MonitorStatus, Monitor, Revision, EvaluationRun, MonitorDb, has_monitor_id, is_active_status,
  put_monitor,
}
use global_news_intelligence.Monitors.Evaluation.{Plan, Clock, Matched, match_documents}
use global_news_intelligence.Monitors.Revisions.{
  MonitorCreate, MonitorUpdate, RevisionInput, MonitorDetail, create_monitor, update_monitor,
  add_monitor_revision,
}
use global_news_intelligence.Monitors.{
  activate_monitor, pause_monitor, archive_monitor, evaluate_monitor, evaluate_document,
  expire_due_monitors, expire_each, due_monitors, mark_expired,
}
use global_news_intelligence.Monitors.Transactions.{
  Transaction, creates, updates, revises, activates, pauses, archives, evaluates, matches, expires,
  step, run,
}
use global_news_intelligence.Monitors.Evaluating.{evaluate-keeps, evaluate_document-keeps}
use global_news_intelligence.Monitors.Parts.{
  Created, create_monitor-parts, update_monitor-parts, Revises, add_monitor_revision-parts,
  put_monitor-parts,
}
use global_news_intelligence.Monitors.Moves.{
  Moves, stays, expires as moves_expired, Changes, Effect, nothing, changes, Evaluates, Activation,
  only, evaluated, pause_monitor-Effect, archive_monitor-Effect, activate_monitor-Activation,
  evaluate_monitor-Evaluates, is_active-Moves,
}
use global_news_intelligence.Monitors.Expiring.{
  Expiring, due_monitors-Expiring, due_monitors-count, find?-written,
}

-- `P` holds after every sequence of transactions if each write keeps it.
module _ (plan : Plan) (P : MonitorDb → Type 0)
    (one : (s : MonitorDb) → P s → (n : ℕ) → count (has_monitor_id n) s.monitors ≤ 1)
    (fc : (now : Time) (d : MonitorCreate) (s : MonitorDb) (y : MonitorDb × MonitorDetail)
      → Created now d s y
      → P s
      → P y.0)
    (fr : (now : Time) (id : ℕ) (d : RevisionInput) (s : MonitorDb) (y : MonitorDb × MonitorDetail)
      → Revises now id d s y
      → P s
      → P y.0)
    (fw : (m x : Monitor) (s t : MonitorDb) → Changes m x s t → P s → P t)
    (fs : (t : Clock) (m : Monitor) (r : Revision) (run : ℕ) (document : Option ℕ) (s u : MonitorDb)
        (d : Matched)
      → P s
      → match_documents plan t m r run document s ≡ ok (u, d)
      → P u)
    (fn : (rs : List EvaluationRun) (n : ℕ) (s : MonitorDb)
      → P s
      → P (record s { runs = rs; next_run_id = n })) where
  expire_each-keeps :
      (locked : ℕ → Bool) (now : Time) (ms : List Monitor) (s t : MonitorDb)
      → All (Expiring locked now s) ms
      → ((n : ℕ) → count (has_monitor_id n) ms ≤ 1)
      → P s
      → expire_each now ms s ≡ ok t
      → P t
  unfolding expire_each count
  expire_each-keeps locked now [] s t due alone v h = subst P (ok-injective _ _ h) v
  expire_each-keeps locked now (m ∷ ms) s t due alone v h =
      let (u, put, h1) = bind-ok (put_monitor (mark_expired now m) s) _ _ h in
      let (checks, same) = put_monitor-parts (mark_expired now m) s u put in
      let active : is_active_status m.status ≡ true = ground (arith, due.0.1) in
      let others : All (λ x. (x.id == m.id) ≡ false) ms =
        All-miss (has_monitor_id m.id) ms (ground (arith, alone m.id)) in
      let later : All (Expiring locked now u) ms =
        subst (λ w. All (Expiring locked now w) ms) same
          (All-mono _ _ ms (λ x k. (find?-written (mark_expired now m) x s k.0 k.1.0, k.1.1))
            (All-both _ (Expiring locked now s) ms others due.1)) in
      expire_each-keeps locked now ms u t later (λ n. ground (arith, alone n))
        (fw m (mark_expired now m) s u
          (
            ground arith,
            refl,
            is_active-Moves m.status MonitorStatus.expired active moves_expired,
            (due.0.0, refl, refl, refl, checks, same),
          )
          v)
        h1

  Effect-keeps : (s t : MonitorDb) → Effect s t → P s → P t
  Effect-keeps s _ nothing v = v
  Effect-keeps s _ (changes m x t c) v = fw m x s t c v

  Evaluates-keeps : (s t : MonitorDb) → Evaluates plan s t → P s → P t
  Evaluates-keeps s t (clock, m, trigger, document, x, h) v =
      evaluate-keeps plan P fs fn clock m trigger document s (t, x) v h

  Activation-keeps : (s t : MonitorDb) → Activation plan s t → P s → P t
  Activation-keeps s _ (only t e) v = Effect-keeps s t e v
  Activation-keeps s _ (evaluated u t e x) v = Evaluates-keeps u t x (Effect-keeps s u e v)

  update_monitor-keeps :
      (now : Time) (id : ℕ) (d : MonitorUpdate) (s : MonitorDb) (y : MonitorDb × Monitor)
      → P s
      → update_monitor now id d s ≡ ok y
      → P y.0
  update_monitor-keeps now id d s y v h =
      let (m, _, unarchived, number, status, write) = update_monitor-parts now id d s y h in
      fw m y.1 s y.0 (unarchived, number, subst (Moves m.status) (sym status) stays, write) v

  expire_due_monitors-keeps :
      (locked : ℕ → Bool) (now : Time) (limit : ℕ) (s : MonitorDb) (y : MonitorDb × List ℕ)
      → P s
      → expire_due_monitors locked now limit s ≡ ok y
      → P y.0
  unfolding expire_due_monitors
  expire_due_monitors-keeps locked now limit s y v h =
      let (t, expired, h1) = bind-ok (expire_each now (due_monitors locked now limit s) s) _ _ h in
      subst (λ (z : MonitorDb × List ℕ). P z.0) (ok-injective _ _ h1)
        (expire_each-keeps locked now (due_monitors locked now limit s) s t
          (due_monitors-Expiring locked now limit s (one s v))
          (λ n. omega (arith, one s v n, due_monitors-count locked now limit s n)) v expired)

  after-keeps {ℓ} :
      {A : Type ℓ} (s : MonitorDb) (m : Result (MonitorDb × A))
      → P s
      → ((y : MonitorDb × A) → m ≡ ok y → P y.0)
      → P (after s m)
  after-keeps s (ok y) v k = k y refl
  after-keeps s (err e) v k = v

  step-keeps : (s : MonitorDb) (t : Transaction) → P s → P (step plan s t)
  unfolding step
  step-keeps s (creates now d) v =
      after-keeps s (create_monitor now d s) v
        (λ y h. fc now d s y (create_monitor-parts now d s y h) v)
  step-keeps s (updates now id d) v =
      after-keeps s (update_monitor now id d s) v (λ y. update_monitor-keeps now id d s y v)
  step-keeps s (revises now id d) v =
      after-keeps s (add_monitor_revision now id d s) v
        (λ y h. fr now id d s y (add_monitor_revision-parts now id d s y h) v)
  step-keeps s (activates t now id) v =
      after-keeps s (activate_monitor plan t now id s) v
        (λ y h. Activation-keeps s y.0 (activate_monitor-Activation plan t now id s y h) v)
  step-keeps s (pauses now id) v =
      after-keeps s (pause_monitor now id s) v
        (λ y h. Effect-keeps s y.0 (pause_monitor-Effect now id s y h) v)
  step-keeps s (archives now id) v =
      after-keeps s (archive_monitor now id s) v
        (λ y h. Effect-keeps s y.0 (archive_monitor-Effect now id s y h) v)
  step-keeps s (evaluates t now id document) v =
      after-keeps s (evaluate_monitor plan t now id document s) v
        (λ y h. Evaluates-keeps s y.0 (evaluate_monitor-Evaluates plan t now id document s y h) v)
  step-keeps s (matches clock now document trigger) v =
      after-keeps s (evaluate_document plan clock now document trigger s) v
        (λ y. evaluate_document-keeps plan P fs fn clock now document trigger s y v)
  step-keeps s (expires locked now limit) v =
      after-keeps s (expire_due_monitors locked now limit s) v
        (λ y. expire_due_monitors-keeps locked now limit s y v)

  pub run-keeps : (s : MonitorDb) (ts : List Transaction) → P s → P (run plan s ts)
  unfolding run
  run-keeps s [] v = v
  run-keeps s (t ∷ ts) v = run-keeps (step plan s t) ts (step-keeps s t v)
