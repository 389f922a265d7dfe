-- ===== src/Monitors.antt =====
-- app/services/monitor_service.py: the activation, the pauses, the end and the evaluation of
-- monitors. Every function is one transaction, which locks the monitors that it changes. Times that
-- it reads from the clock are arguments.
pub mod Tables
pub mod CriteriaTables
pub mod Evaluation
pub mod Revisions
pub mod Savepoints
pub mod Transactions
pub mod Parts
pub mod Moves
pub mod Expiring
pub mod Evaluating
pub mod Keeping
pub mod Expiry
pub mod Valid
pub mod Invariant
pub mod Lifecycle
pub mod Steps
pub mod Roundtrip
pub mod Recording
pub mod Outcome
mod Examples
pub mod Alerting
use global_news_intelligence.Prelude.{
  ℕ, suc, String, ◌==◌, Bool, true, false, not, ◌&&◌, ◌||◌, Option, none, some, List, [], ◌∷◌, ◌++◌,
  map, filter, find?, any, update, Result, ok, err, ◌>>=◌, ◌>>◌, raise_if, or_raise, zero,
  not_found, invalid_update, unavailable, Time, ltb, leb, if◌then◌else◌,
}
use global_news_intelligence.Alerts.Tables.{Document}
use Tables.{
  MonitorStatus, Trigger, Monitor, Revision, Profile, MonitorDb, is_active_status, is_archived,
  is_paused, has_monitor_id, is_revision, is_due, put_monitor,
}
use CriteriaTables.{has_explicit_filter, load_revision_criteria}
use Evaluation.{Plan, Clock, EvaluationSummary, evaluate}
use Revisions.{require_profile}

-- `if monitor.match_existing_on_activation`
unfoldable pub backfill :
    Plan → Clock → Monitor → MonitorDb → Result (MonitorDb × Option EvaluationSummary)
backfill plan t m s = elim m.match_existing_on_activation [
  | true ↦ do
    (s', summary) ← evaluate plan t m Trigger.activation_backfill none s
    ok (s', some summary)
  | false ↦ ok (s, none)
]

-- `activate_monitor` from the check of the profile on
unfoldable pub activate :
    Plan → Clock → Time → Monitor → MonitorDb → Result (MonitorDb × Option EvaluationSummary)
unfolding require_profile backfill
activate plan t now m s = do
  raise_if (is_archived m.status) invalid_update
  _ ← require_profile (some m.coverage_profile_id) s
  r ← or_raise (find? (is_revision m.id m.current_revision_number) s.revisions) unavailable
  raise_if (not (has_explicit_filter (load_revision_criteria m r s)) && not r.match_all_in_profile)
      invalid_update
  raise_if (is_due m.expires_at now) invalid_update
  let m' = record m { status = MonitorStatus.active; activated_at = some now }
  s' ← put_monitor m' s
  backfill plan t m' s'

unfoldable pub activate_monitor :
    Plan → Clock → Time → ℕ → MonitorDb → Result (MonitorDb × Option EvaluationSummary)
unfolding activate
activate_monitor plan t now id s = do
  m ← or_raise (find? (has_monitor_id id) s.monitors) not_found
  elim (is_active_status m.status) [ true ↦ ok (s, none) | false ↦ activate plan t now m s ]

unfoldable pub pause : Time → Monitor → MonitorDb → Result (MonitorDb × Monitor)
pause now m s = do
  raise_if (not (is_active_status m.status)) invalid_update
  let m' = record m { status = MonitorStatus.paused; paused_at = some now }
  s' ← put_monitor m' s
  ok (s', m')

unfoldable pub pause_monitor : Time → ℕ → MonitorDb → Result (MonitorDb × Monitor)
unfolding pause
pause_monitor now id s = do
  m ← or_raise (find? (has_monitor_id id) s.monitors) not_found
  elim (is_paused m.status) [ true ↦ ok (s, m) | false ↦ pause now m s ]

unfoldable pub archive : Time → Monitor → MonitorDb → Result (MonitorDb × Monitor)
archive now m s = do
  let m' = record m { status = MonitorStatus.archived; archived_at = some now }
  s' ← put_monitor m' s
  ok (s', m')

unfoldable pub archive_monitor : Time → ℕ → MonitorDb → Result (MonitorDb × Monitor)
unfolding archive
archive_monitor now id s = do
  m ← or_raise (find? (has_monitor_id id) s.monitors) not_found
  elim (is_archived m.status) [ true ↦ ok (s, m) | false ↦ archive now m s ]

abbrev pub manual : Option ℕ → Trigger
manual none = Trigger.manual_backfill
manual (some _) = Trigger.manual_document

unfoldable pub evaluate_monitor :
    Plan → Clock → Time → ℕ → Option ℕ → MonitorDb → Result (MonitorDb × EvaluationSummary)
unfolding require_profile
evaluate_monitor plan t now id document s = do
  m ← or_raise (find? (has_monitor_id id) s.monitors) not_found
  raise_if (not (is_active_status m.status)) invalid_update
  _ ← require_profile (some m.coverage_profile_id) s
  raise_if (is_due m.expires_at now) invalid_update
  evaluate plan t m (manual document) document s

abbrev pub has_active_profile : ℕ → MonitorDb → Bool
has_active_profile id s = any (λ (p : Profile). p.id == id && p.is_active) s.profiles

-- `list_executable_monitors`
unfoldable pub executable_monitors : Time → MonitorDb → List Monitor
executable_monitors now s =
    filter
      (λ (m : Monitor).
        is_active_status m.status
        && has_active_profile m.coverage_profile_id s
        && not (is_due m.expires_at now))
      s.monitors

unfoldable pub evaluate_each :
    Plan
    → (ℕ → Clock)
    → Trigger
    → ℕ
    → List Monitor
    → MonitorDb
    → Result (MonitorDb × List EvaluationSummary)
evaluate_each plan clock trigger document [] s = ok (s, [])
evaluate_each plan clock trigger document (m ∷ ms) s = do
  (s', x) ← evaluate plan (clock m.id) m trigger (some document) s
  (s'', xs) ← evaluate_each plan clock trigger document ms s'
  ok (s'', x ∷ xs)

-- The clock is read anew for each monitor.
unfoldable pub evaluate_document :
    Plan
    → (ℕ → Clock)
    → Time
    → ℕ
    → Trigger
    → MonitorDb
    → Result (MonitorDb × List EvaluationSummary)
unfolding executable_monitors evaluate_each
evaluate_document plan clock now document trigger s = do
  _ ← or_raise (find? (λ (d : Document). d.id == document) s.alerting.documents) not_found
  evaluate_each plan clock trigger document (executable_monitors now s) s

-- `ORDER BY expires_at, id`
abbrev pub expires_before : Option Time → ℕ → Option Time → ℕ → Bool
expires_before none i none j = ltb i j
expires_before none i (some b) j = false
expires_before (some a) i none j = true
expires_before (some a) i (some b) j = ltb a b || (a == b && ltb i j)

unfoldable pub insert_due : Monitor → List Monitor → List Monitor
insert_due m [] = m ∷ []
insert_due m (x ∷ xs) =
    let rest = insert_due m xs in
    if expires_before x.expires_at x.id m.expires_at m.id then x ∷ rest else m ∷ x ∷ xs

unfoldable pub order_due : List Monitor → List Monitor
unfolding insert_due
order_due [] = []
order_due (m ∷ ms) = insert_due m (order_due ms)

-- The rows that another transaction has locked are skipped.
abbrev pub must_expire : (ℕ → Bool) → Time → Monitor → Bool
must_expire locked now m =
    (is_active_status m.status && is_due m.expires_at now) && not (locked m.id)

unfoldable pub take {ℓ} : {A : Type ℓ} → ℕ → List A → List A
take n [] = []
take zero (x ∷ xs) = []
take (suc n) (x ∷ xs) = x ∷ take n xs

-- `list_due_monitors_for_update`; `locked` tells the ids of the rows that are locked.
unfoldable pub due_monitors : (ℕ → Bool) → Time → ℕ → MonitorDb → List Monitor
unfolding order_due take
due_monitors locked now limit s =
    take limit (order_due (filter (must_expire locked now) s.monitors))

abbrev pub mark_expired : Time → Monitor → Monitor
mark_expired now m = record m { status = MonitorStatus.expired; expired_at = some now }

unfoldable pub expire_each : Time → List Monitor → MonitorDb → Result MonitorDb
expire_each now [] s = ok s
expire_each now (m ∷ ms) s = do s' ← put_monitor (mark_expired now m) s; expire_each now ms s'

unfoldable pub expire_due_monitors : (ℕ → Bool) → Time → ℕ → MonitorDb → Result (MonitorDb × List ℕ)
unfolding due_monitors expire_each
expire_due_monitors locked now limit s = do
  s' ← expire_each now (due_monitors locked now limit s) s
  ok (s', map (λ (m : Monitor). m.id) (due_monitors locked now limit s))
