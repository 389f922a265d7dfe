-- ===== src/Monitors/Moves.antt =====
-- The states of a monitor and the moves between them, and what the transactions of
-- app/services/monitor_service.py that change its state write.
use global_news_intelligence.Prelude.{
  ℕ, ◌≡◌, refl, sym, subst, ◌∙◌, true, false, not, Option, none, some, find?, bind-ok, guard-ok,
  found-ok, ok-injective, ◌>>=◌, ok, Time, Bool-cases, inl, inr, arith,
}
use global_news_intelligence.Monitors.Tables.{
  MonitorStatus, Trigger, Monitor, MonitorDb, has_monitor_id, is_revision, is_active_status,
  is_archived, is_paused, is_due, put_monitor,
}
use global_news_intelligence.Monitors.Evaluation.{Plan, Clock, EvaluationSummary, evaluate}
use global_news_intelligence.Monitors.Revisions.{require_profile}
use global_news_intelligence.Monitors.{
  activate_monitor, activate, backfill, pause_monitor, pause, archive_monitor, archive,
  evaluate_monitor, manual,
}
use global_news_intelligence.Monitors.Parts.{Writes, find?-monitor_id, put_monitor-parts}

pub data Moves : MonitorStatus → MonitorStatus → Type 0 where
  stays : {a : MonitorStatus} → Moves a a
  starts : Moves MonitorStatus.draft MonitorStatus.active
  resumes : Moves MonitorStatus.paused MonitorStatus.active
  renews : Moves MonitorStatus.expired MonitorStatus.active
  pauses : Moves MonitorStatus.active MonitorStatus.paused
  expires : Moves MonitorStatus.active MonitorStatus.expired
  archives : {a : MonitorStatus} → Moves a MonitorStatus.archived

-- A write of a row that is not archived, which moves it with the same current revision.
abbrev pub Changes : Monitor → Monitor → MonitorDb → MonitorDb → Type 0
Changes m x s t =
    (is_archived m.status ≡ false)
    × (x.current_revision_number ≡ m.current_revision_number)
    × Moves m.status x.status
    × Writes m x s t

active-Moves :
    (a : MonitorStatus)
    → is_active_status a ≡ false
    → is_archived a ≡ false
    → Moves a MonitorStatus.active
active-Moves MonitorStatus.draft h k = starts
active-Moves MonitorStatus.active h k = absurd (ground arith)
active-Moves MonitorStatus.paused h k = resumes
active-Moves MonitorStatus.expired h k = renews
active-Moves MonitorStatus.archived h k = absurd (ground arith)

pub is_active-Moves :
    (a b : MonitorStatus) → is_active_status a ≡ true → Moves MonitorStatus.active b → Moves a b
is_active-Moves MonitorStatus.draft b h v = absurd (ground arith)
is_active-Moves MonitorStatus.active b h v = v
is_active-Moves MonitorStatus.paused b h v = absurd (ground arith)
is_active-Moves MonitorStatus.expired b h v = absurd (ground arith)
is_active-Moves MonitorStatus.archived b h v = absurd (ground arith)

-- A transaction that changes the state of one monitor, or nothing.
pub data Effect (s : MonitorDb) : MonitorDb → Type 0 where
  nothing : Effect s s
  changes : (m x : Monitor) (t : MonitorDb) → Changes m x s t → Effect s t

put-Effect :
    (id : ℕ) (m x : Monitor) (s t : MonitorDb)
    → find? (has_monitor_id id) s.monitors ≡ some m
    → x.id ≡ m.id
    → x.slug ≡ m.slug
    → x.coverage_profile_id ≡ m.coverage_profile_id
    → x.current_revision_number ≡ m.current_revision_number
    → is_archived m.status ≡ false
    → Moves m.status x.status
    → put_monitor x s ≡ ok t
    → Effect s t
put-Effect id m x s t found i l p n unarchived move put =
    let (checks, same) = put_monitor-parts x s t put in
    changes m x t
      (unarchived, n, move, (find?-monitor_id id s.monitors m found, i, l, p, checks, same))

pub pause_monitor-Effect :
    (now : Time) (id : ℕ) (s : MonitorDb) (y : MonitorDb × Monitor)
    → pause_monitor now id s ≡ ok y
    → Effect s y.0
unfolding pause_monitor pause
pause_monitor-Effect now id s y h =
    let (m, found, h1) = found-ok (find? (has_monitor_id id) s.monitors) _ _ _ h in
    elim (Bool-cases (is_paused m.status)) [
      | inl e ↦
          let same : (s, m) ≡ y = ok-injective _ _ (sym (rw e refl) ∙ h1) in
          subst (λ (z : MonitorDb × Monitor). Effect s z.0) same nothing
      | inr e ↦
          let h2 : pause now m s ≡ ok y = sym (rw e refl) ∙ h1 in
          let (active, h3) = guard-ok (not (is_active_status m.status)) _ _ _ h2 in
          let (t, put, h4) = bind-ok (put_monitor _ s) _ _ h3 in
          subst (λ (z : MonitorDb × Monitor). Effect s z.0) (ok-injective _ _ h4)
            (put-Effect id m _ s t found refl refl refl refl (ground arith)
              (is_active-Moves m.status MonitorStatus.paused (ground arith) pauses) put)
    ]

pub archive_monitor-Effect :
    (now : Time) (id : ℕ) (s : MonitorDb) (y : MonitorDb × Monitor)
    → archive_monitor now id s ≡ ok y
    → Effect s y.0
unfolding archive_monitor archive
archive_monitor-Effect now id s y h =
    let (m, found, h1) = found-ok (find? (has_monitor_id id) s.monitors) _ _ _ h in
    elim (Bool-cases (is_archived m.status)) [
      | inl e ↦
          let same : (s, m) ≡ y = ok-injective _ _ (sym (rw e refl) ∙ h1) in
          subst (λ (z : MonitorDb × Monitor). Effect s z.0) same nothing
      | inr e ↦
          let h2 : archive now m s ≡ ok y = sym (rw e refl) ∙ h1 in
          let (t, put, h4) = bind-ok (put_monitor _ s) _ _ h2 in
          subst (λ (z : MonitorDb × Monitor). Effect s z.0) (ok-injective _ _ h4)
            (put-Effect id m _ s t found refl refl refl refl e archives put)
    ]

-- An activation is a move, and the evaluation that may follow.
abbrev pub Evaluates : Plan → MonitorDb → MonitorDb → Type 0
Evaluates plan s t =
    (clock : Clock) × (m : Monitor) × (trigger : Trigger) × (document : Option ℕ)
    × (x : EvaluationSummary) × (evaluate plan clock m trigger document s ≡ ok (t, x))

pub data Activation (plan : Plan) (s : MonitorDb) : MonitorDb → Type 0 where
  only : (t : MonitorDb) → Effect s t → Activation plan s t
  evaluated : (u t : MonitorDb) → Effect s u → Evaluates plan u t → Activation plan s t

backfill-Activation :
    (plan : Plan) (clock : Clock) (m : Monitor) (s u : MonitorDb)
    (y : MonitorDb × Option EvaluationSummary)
    → Effect s u
    → backfill plan clock m u ≡ ok y
    → Activation plan s y.0
unfolding backfill
backfill-Activation plan clock m s u y v h = elim (Bool-cases m.match_existing_on_activation) [
  | inl e ↦
      let h1 : (evaluate plan clock m Trigger.activation_backfill none u
            >>= (λ (z : MonitorDb × EvaluationSummary). ok (z.0, some z.1)))
          ≡ ok y =
        sym (rw e refl) ∙ h in
      let ((t, x), run, h2) = bind-ok _ _ _ h1 in
      subst (λ (z : MonitorDb × Option EvaluationSummary). Activation plan s z.0)
        (ok-injective _ _ h2)
        (evaluated u t v (clock, m, Trigger.activation_backfill, none, x, run))
  | inr e ↦
      let same : (u, none) ≡ y = ok-injective _ _ (sym (rw e refl) ∙ h) in
      subst (λ (z : MonitorDb × Option EvaluationSummary). Activation plan s z.0) same (only u v)
]

pub activate_monitor-Activation :
    (plan : Plan) (clock : Clock) (now : Time) (id : ℕ) (s : MonitorDb)
    (y : MonitorDb × Option EvaluationSummary)
    → activate_monitor plan clock now id s ≡ ok y
    → Activation plan s y.0
unfolding activate_monitor activate
activate_monitor-Activation plan clock now id s y h =
    let (m, found, h1) = found-ok (find? (has_monitor_id id) s.monitors) _ _ _ h in
    elim (Bool-cases (is_active_status m.status)) [
      | inl e ↦
          let same : (s, none) ≡ y = ok-injective _ _ (sym (rw e refl) ∙ h1) in
          subst (λ (z : MonitorDb × Option EvaluationSummary). Activation plan s z.0) same
            (only s nothing)
      | inr e ↦
          let h2 : activate plan clock now m s ≡ ok y = sym (rw e refl) ∙ h1 in
          let (unarchived, h3) = guard-ok (is_archived m.status) _ _ _ h2 in
          let (_, _, h4) = bind-ok (require_profile (some m.coverage_profile_id) s) _ _ h3 in
          let (_, _, h5) =
            found-ok (find? (is_revision m.id m.current_revision_number) s.revisions) _ _ _ h4 in
          let (_, h6) = guard-ok _ _ _ _ h5 in
          let (_, h7) = guard-ok (is_due m.expires_at now) _ _ _ h6 in
          let m' : Monitor = record m { status = MonitorStatus.active; activated_at = some now } in
          let (u, put, h8) = bind-ok (put_monitor m' s) _ _ h7 in
          backfill-Activation plan clock m' s u y
            (put-Effect id m m' s u found refl refl refl refl unarchived
              (active-Moves m.status e unarchived) put)
            h8
    ]

pub evaluate_monitor-Evaluates :
    (plan : Plan) (clock : Clock) (now : Time) (id : ℕ) (document : Option ℕ) (s : MonitorDb)
    (y : MonitorDb × EvaluationSummary)
    → evaluate_monitor plan clock now id document s ≡ ok y
    → Evaluates plan s y.0
unfolding evaluate_monitor
evaluate_monitor-Evaluates plan clock now id document s y h =
    let (m, found, h1) = found-ok (find? (has_monitor_id id) s.monitors) _ _ _ h in
    let (_, h2) = guard-ok (not (is_active_status m.status)) _ _ _ h1 in
    let (_, _, h3) = bind-ok (require_profile (some m.coverage_profile_id) s) _ _ h2 in
    let (_, h4) = guard-ok (is_due m.expires_at now) _ _ _ h3 in
    (clock, m, manual document, document, y.1, h4)
