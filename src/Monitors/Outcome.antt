-- ===== src/Monitors/Outcome.antt =====
-- What `_evaluate_monitor` of app/services/monitor_service.py leaves, on each of its two ends.
use global_news_intelligence.Prelude.{
  ℕ, suc, ◌≤◌, ◌≡◌, ◌==◌, Bool, true, false, Option, some, [], ◌∷◌, ◌++◌, All, find?, filter,
  length, ok, is_some,
}
use global_news_intelligence.Monitors.Tables.{
  Trigger, RunStatus, Monitor, Revision, EvaluationRun, MonitorDb,
}
use global_news_intelligence.Monitors.CriteriaTables.{load_revision_criteria}
use global_news_intelligence.Monitors.Evaluation.{
  Plan, Clock, EvaluationSummary, document_ids, new_run,
}
use global_news_intelligence.Monitors.Recording.{is_matched}

-- A run that failed has undone everything but itself.
abbrev pub Undone : MonitorDb → MonitorDb × EvaluationSummary → Type 0
Undone s y =
    (y.1.run.status ≡ RunStatus.failed)
    × (y.1.run.has_error ≡ true)
    × (y.1.matched_document_ids ≡ [])
    × (y.0.matches ≡ s.matches)
    × (y.0.alerting ≡ s.alerting)

-- The tables once the run has started
abbrev pub started : Clock → Monitor → Revision → Option ℕ → Trigger → MonitorDb → MonitorDb
started t m r document trigger s = record s {
  runs = s.runs ++ new_run m.id r.id document trigger t.db_now s.next_run_id ∷ [];
  next_run_id = suc s.next_run_id;
}

-- A run that succeeded has a match for every document that the plan selects, and tells which of
-- them had none before.
abbrev pub Done :
    Plan
    → Clock
    → Monitor
    → Revision
    → Option ℕ
    → Trigger
    → MonitorDb
    → MonitorDb × EvaluationSummary
    → Type 0
Done plan t m r document trigger s y =
    ((matching : ℕ → Bool) × (plan (load_revision_criteria m r s) (started t m r document trigger s)
        ≡ ok matching)
      × (y.1.matched_document_ids ≡ filter matching (document_ids document s)))
    × (y.1.run.status ≡ RunStatus.succeeded)
    × (y.1.run.new_match_count ≤ y.1.run.matched_count)
    × (y.1.run.matched_count ≤ y.1.run.candidate_count)
    × (y.1.run.matched_count ≡ length y.1.matched_document_ids)
    × All (λ d. is_matched m.id y.0.matches d ≡ true) y.1.matched_document_ids
    × All (λ d. is_matched m.id s.matches d ≡ false) y.1.new_match_document_ids

-- The run is stored as it is answered, and complete.
abbrev pub Stored : MonitorDb × EvaluationSummary → Type 0
Stored y =
    (find? (λ (x : EvaluationRun). x.id == y.1.run.id) y.0.runs ≡ some y.1.run)
    × (is_some y.1.run.completed_at ≡ true)
