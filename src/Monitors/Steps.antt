-- ===== src/Monitors/Steps.antt =====
-- What one transaction of app/services/monitor_service.py does to the state of a monitor.
use global_news_intelligence.Prelude.{
  ℕ, suc, ◌≡◌, refl, sym, ap, subst, ◌∙◌, ◌==◌, Bool, true, some, List, [], ◌∷◌, any, All, find?,
  find?-append_hit, Result, ok, err, after, Time, Bool-cases, inl, inr, arith,
}
use global_news_intelligence.Monitors.Tables.{
  Monitor, MonitorStatus, MonitorDb, has_monitor_id, is_active_status,
}
use global_news_intelligence.Monitors.Evaluation.{Plan}
use global_news_intelligence.Monitors.Revisions.{
  MonitorCreate, RevisionInput, MonitorDetail, create_monitor, update_monitor, add_monitor_revision,
}
use global_news_intelligence.Monitors.{
  activate_monitor, pause_monitor, archive_monitor, evaluate_monitor, evaluate_document,
  expire_due_monitors,
}
use global_news_intelligence.Monitors.Transactions.{
  Transaction, creates, updates, revises, activates, pauses, archives, evaluates, matches, expires,
  step,
}
use global_news_intelligence.Monitors.Evaluating.{evaluate-keeps, evaluate_document-keeps}
use global_news_intelligence.Monitors.Parts.{
  written, Created, create_monitor-parts, update_monitor-parts, Revises, add_monitor_revision-parts,
  create_revision-parts, with_monitor,
}
use global_news_intelligence.Monitors.Moves.{
  Moves, stays, expires as moves_expired, Changes, Effect, nothing, changes, Evaluates, Activation,
  only, evaluated, pause_monitor-Effect, archive_monitor-Effect, activate_monitor-Activation,
  evaluate_monitor-Evaluates, is_active-Moves,
}
use global_news_intelligence.Monitors.Expiry.{HasExpired, expire_due_monitors-count}
use global_news_intelligence.Monitors.Lifecycle.{match_documents-monitors, written-Related}
use global_news_intelligence.Monitors.Valid.{IsValid}

-- Each monitor is there with its state or after one move.
abbrev pub HaveMoved : MonitorDb → MonitorDb → Type 0
HaveMoved s t =
    (id : ℕ) (m : Monitor)
    → find? (has_monitor_id id) s.monitors ≡ some m
    → (x : Monitor) × (find? (has_monitor_id id) t.monitors ≡ some x) × Moves m.status x.status

HaveMoved-refl : (s : MonitorDb) → HaveMoved s s
HaveMoved-refl s id m h = (m, h, stays)

-- A table with the same monitors
HaveMoved-same : (s u t : MonitorDb) → HaveMoved s u → u.monitors ≡ t.monitors → HaveMoved s t
HaveMoved-same s u t v same id m h =
    let (x, found, move) = v id m h in
    (x, subst (λ xs. find? (has_monitor_id id) xs ≡ some x) same found, move)

written-HaveMoved :
    (m x : Monitor) (s : MonitorDb)
    → find? (has_monitor_id m.id) s.monitors ≡ some m
    → x.id ≡ m.id
    → Moves m.status x.status
    → HaveMoved s (written x s)
written-HaveMoved = written-Related (λ a b. Moves a.status b.status) (λ a. stays)

Changes-HaveMoved : (m x : Monitor) (s t : MonitorDb) → Changes m x s t → HaveMoved s t
Changes-HaveMoved m x s t (_, _, move, (found, id, _, _, _, same)) =
    subst (HaveMoved s) same (written-HaveMoved m x s found id move)

Effect-HaveMoved : (s t : MonitorDb) → Effect s t → HaveMoved s t
Effect-HaveMoved s _ nothing = HaveMoved-refl s
Effect-HaveMoved s _ (changes m x t c) = Changes-HaveMoved m x s t c

Created-HaveMoved :
    (now : Time) (d : MonitorCreate) (s : MonitorDb) (y : MonitorDb × MonitorDetail)
    → Created now d s y
    → HaveMoved s y.0
Created-HaveMoved now d s y (_, _, _, _, revised) =
    let (_, _, _, same) =
      create_revision-parts now y.1.monitor 1 d.revision (with_monitor y.1.monitor s)
        (y.0, (y.1.revision, y.1.criteria)) revised in
    subst (HaveMoved s) same
      (λ id m h. (m, find?-append_hit (has_monitor_id id) s.monitors (y.1.monitor ∷ []) m h, stays))

Revises-HaveMoved :
    (now : Time) (id : ℕ) (d : RevisionInput) (s : MonitorDb) (y : MonitorDb × MonitorDetail)
    → Revises now id d s y
    → HaveMoved s y.0
Revises-HaveMoved now id d s y
      (m, u, _, _, revised, row, (found, same_id, slug, profile, _, same), _) =
    let (_, _, _, kept) =
      create_revision-parts now m (suc m.current_revision_number) d s
        (u, (y.1.revision, y.1.criteria)) revised in
    let monitors : u.monitors ≡ s.monitors = ap (λ (t : MonitorDb). t.monitors) (sym kept) in
    let status : Moves m.status y.1.monitor.status =
      subst (Moves m.status) (sym (ap (λ (x : Monitor). x.status) row)) stays in
    λ i a h.
      let h' : find? (has_monitor_id i) u.monitors ≡ some a =
        subst (λ xs. find? (has_monitor_id i) xs ≡ some a) (sym monitors) h in
      subst (HaveMoved u) same (written-HaveMoved m y.1.monitor u found same_id status) i a h'

module _ (plan : Plan) where
  evaluate-HaveMoved : (s u t : MonitorDb) → HaveMoved s u → Evaluates plan u t → HaveMoved s t
  evaluate-HaveMoved s u t v (clock, m, trigger, document, x, h) = HaveMoved-same s u t v (
      evaluate-keeps plan (λ w. u.monitors ≡ w.monitors)
        (λ t m r n document a b d k e. k ∙ match_documents-monitors plan t m r n document a b d e)
        (λ rs n a k. k) clock m trigger document u (t, x) refl h)

  Activation-HaveMoved : (s t : MonitorDb) → Activation plan s t → HaveMoved s t
  Activation-HaveMoved s _ (only t e) = Effect-HaveMoved s t e
  Activation-HaveMoved s _ (evaluated u t e x) = evaluate-HaveMoved s u t (Effect-HaveMoved s u e) x

  listed-HasExpired :
      (P : ℕ → Type 0) (ids : List ℕ) (i : ℕ) → All P ids → any (λ j. j == i) ids ≡ true → P i
  unfolding any
  listed-HasExpired P [] i v h = absurd (cc)
  listed-HasExpired P (j ∷ js) i v h = elim (Bool-cases (j == i)) [
    | inl e ↦ let same : j ≡ i = ground arith in subst P same v.0
    | inr e ↦ listed-HasExpired P js i v.1 (ground arith)
  ]

  expires-HaveMoved :
      (locked : ℕ → Bool) (now : Time) (limit : ℕ) (s : MonitorDb)
      → IsValid s
      → HaveMoved s (after s (expire_due_monitors locked now limit s))
  expires-HaveMoved locked now limit s v =
      let (t, ids, done, _, _, expired, kept) = expire_due_monitors-count locked now limit s v in
      rw done (λ i m h. elim (Bool-cases (any (λ j. j == i) ids)) [
        | inr other ↦ (m, kept i other ∙ h, stays)
        | inl listed ↦
            let (a, found, due, marked) =
              listed-HasExpired (HasExpired locked now s t) ids i expired listed in
            let same : a ≡ m = ground (arith, found, h) in
            let active : is_active_status m.status ≡ true =
              subst (λ (b : Monitor). is_active_status b.status ≡ true) same (ground arith) in
            (_, marked, is_active-Moves m.status MonitorStatus.expired active moves_expired)
      ])

  after-HaveMoved {ℓ} :
      {A : Type ℓ} (s : MonitorDb) (m : Result (MonitorDb × A))
      → ((y : MonitorDb × A) → m ≡ ok y → HaveMoved s y.0)
      → HaveMoved s (after s m)
  after-HaveMoved s (ok y) k = k y refl
  after-HaveMoved s (err e) k = HaveMoved-refl s

  -- On valid tables, one transaction, failed or not, takes each monitor through at most one move of
  -- the life cycle: from draft, paused or expired to active, from active to paused or to expired,
  -- and from any state to archived. No monitor is deleted.
  pub step-HaveMoved : (s : MonitorDb) (t : Transaction) → IsValid s → HaveMoved s (step plan s t)
  unfolding step
  step-HaveMoved s (creates now d) v =
      after-HaveMoved s (create_monitor now d s)
        (λ y h. Created-HaveMoved now d s y (create_monitor-parts now d s y h))
  step-HaveMoved s (updates now id d) v = after-HaveMoved s (update_monitor now id d s) (λ y h.
      let (m, _, unarchived, number, status, write) = update_monitor-parts now id d s y h in
      Changes-HaveMoved m y.1 s y.0
        (unarchived, number, subst (Moves m.status) (sym status) stays, write))
  step-HaveMoved s (revises now id d) v =
      after-HaveMoved s (add_monitor_revision now id d s)
        (λ y h. Revises-HaveMoved now id d s y (add_monitor_revision-parts now id d s y h))
  step-HaveMoved s (activates t now id) v =
      after-HaveMoved s (activate_monitor plan t now id s)
        (λ y h. Activation-HaveMoved s y.0 (activate_monitor-Activation plan t now id s y h))
  step-HaveMoved s (pauses now id) v =
      after-HaveMoved s (pause_monitor now id s)
        (λ y h. Effect-HaveMoved s y.0 (pause_monitor-Effect now id s y h))
  step-HaveMoved s (archives now id) v =
      after-HaveMoved s (archive_monitor now id s)
        (λ y h. Effect-HaveMoved s y.0 (archive_monitor-Effect now id s y h))
  step-HaveMoved s (evaluates t now id document) v =
      after-HaveMoved s (evaluate_monitor plan t now id document s) (λ y h.
        evaluate-HaveMoved s s y.0 (HaveMoved-refl s)
          (evaluate_monitor-Evaluates plan t now id document s y h))
  step-HaveMoved s (matches clock now document trigger) v =
      after-HaveMoved s (evaluate_document plan clock now document trigger s) (λ y h.
        HaveMoved-same s s y.0 (HaveMoved-refl s) (
          evaluate_document-keeps plan (λ w. s.monitors ≡ w.monitors)
            (λ t m r n document a b d k e.
              k ∙ match_documents-monitors plan t m r n document a b d e)
            (λ rs n a k. k) clock now document trigger s y refl h))
  step-HaveMoved s (expires locked now limit) v = expires-HaveMoved locked now limit s v
