-- ===== src/Monitors/Transactions.antt =====
-- Sequences of transactions on monitors, in app/services/monitor_service.py, and a way to show what
-- all of them keep: what each write of a row keeps.
use global_news_intelligence.Prelude.{ℕ, Bool, Option, List, [], ◌∷◌, after, Time}
use global_news_intelligence.Monitors.Tables.{Trigger, MonitorDb}
use global_news_intelligence.Monitors.Evaluation.{Plan, Clock}
use global_news_intelligence.Monitors.Revisions.{
  RevisionInput, MonitorCreate, MonitorUpdate, create_monitor, update_monitor, add_monitor_revision,
}
use global_news_intelligence.Monitors.{
  activate_monitor, pause_monitor, archive_monitor, evaluate_monitor, evaluate_document,
  expire_due_monitors,
}

-- A transaction, with the readings of the clock.
pub data Transaction : Type 0 where
  creates : Time → MonitorCreate → Transaction
  updates : Time → ℕ → MonitorUpdate → Transaction
  revises : Time → ℕ → RevisionInput → Transaction
  activates : Clock → Time → ℕ → Transaction
  pauses : Time → ℕ → Transaction
  archives : Time → ℕ → Transaction
  evaluates : Clock → Time → ℕ → Option ℕ → Transaction
  matches : (ℕ → Clock) → Time → ℕ → Trigger → Transaction
  expires : (locked : ℕ → Bool) → Time → (limit : ℕ) → Transaction

module _ (plan : Plan) where
  unfoldable pub step : MonitorDb → Transaction → MonitorDb
  step s (creates now d) = after s (create_monitor now d s)
  step s (updates now id d) = after s (update_monitor now id d s)
  step s (revises now id d) = after s (add_monitor_revision now id d s)
  step s (activates t now id) = after s (activate_monitor plan t now id s)
  step s (pauses now id) = after s (pause_monitor now id s)
  step s (archives now id) = after s (archive_monitor now id s)
  step s (evaluates t now id document) = after s (evaluate_monitor plan t now id document s)
  step s (matches clock now document trigger) =
      after s (evaluate_document plan clock now document trigger s)
  step s (expires locked now limit) = after s (expire_due_monitors locked now limit s)

  unfoldable pub run : MonitorDb → List Transaction → MonitorDb
  unfolding step
  run s [] = s
  run s (t ∷ ts) = run (step s t) ts
