-- ===== src/Monitors/Evaluation.antt =====
-- `record_match` of app/repositories/monitor_repository.py and `_evaluate_monitor` of
-- app/services/monitor_service.py. The plan of the matching service is a parameter: for criteria it
-- raises or tells which documents match.
use global_news_intelligence.Prelude.{
  ℕ, suc, ◌==◌, Bool, true, false, ◌&&◌, Option, none, some, List, [], ◌∷◌, ◌++◌, map, filter,
  find?, length, update, Result, ok, err, ◌>>=◌, ◌>>◌, raise_if, or_raise, integrity_error,
  unavailable, session_error, Time, ltb, leb, not, any,
}
use global_news_intelligence.Alerts.Tables.{Document, AlertDb}
use global_news_intelligence.Alerts.Creation.{create_alert_for_match}
use global_news_intelligence.Monitors.Tables.{
  Trigger, RunStatus, Monitor, Revision, EvaluationRun, MonitorMatch, MonitorDb, is_revision,
}
use global_news_intelligence.Monitors.CriteriaTables.{Criteria, load_revision_criteria}

-- `build_document_match_plan` with the test that its predicates make of a document
abbrev pub Plan : Type 0
Plan = Criteria → MonitorDb → Result (ℕ → Bool)

-- The clock's readings when documents are matched and when the run completes, and the database's.
pub record Clock : Type 0 where
  pub matched_at : Time
  pub completed_at : Time
  pub db_now : Time

abbrev pub matches_document : ℕ → ℕ → MonitorMatch → Bool
matches_document monitor document m = m.monitor_id == monitor && m.document_id == document

unfoldable pub new_match : ℕ → ℕ → ℕ → ℕ → Time → ℕ → MonitorMatch
new_match monitor document revision run now id = record {
  id = id;
  monitor_id = monitor;
  document_id = document;
  first_monitor_revision_id = revision;
  last_monitor_revision_id = revision;
  first_evaluation_run_id = some run;
  last_evaluation_run_id = some run;
  first_matched_at = now;
  last_matched_at = now;
  observation_count = 1;
}

unfoldable pub observed : ℕ → ℕ → Time → MonitorMatch → MonitorMatch
observed revision run now m = record m {
  last_monitor_revision_id = revision;
  last_evaluation_run_id = some run;
  last_matched_at = now;
  observation_count = suc m.observation_count;
}

-- The insertion, or the update under the check `last_after_first`
unfoldable pub record_found :
    ℕ
    → ℕ
    → ℕ
    → ℕ
    → Time
    → Option MonitorMatch
    → MonitorDb
    → Result (MonitorDb × (MonitorMatch × Bool))
unfolding new_match observed
record_found monitor document revision run now none s =
    let m = new_match monitor document revision run now s.next_match_id in
    ok (record s { matches = s.matches ++ m ∷ []; next_match_id = suc s.next_match_id }, (m, true))
record_found monitor document revision run now (some m) s = do
  raise_if (ltb now m.first_matched_at) integrity_error
  ok (
    record s {
      matches = update (matches_document monitor document) (observed revision run now) s.matches;
    },
    (observed revision run now m, false),
  )

unfoldable pub record_match :
    ℕ → ℕ → ℕ → ℕ → Time → MonitorDb → Result (MonitorDb × (MonitorMatch × Bool))
unfolding record_found
record_match monitor document revision run now s =
    record_found monitor document revision run now
      (find? (matches_document monitor document) s.matches) s

-- `(new_ids, new_match_ids)`, one longer if the match is new
abbrev pub add_new : MonitorMatch × Bool → List ℕ × List ℕ → List ℕ × List ℕ
add_new (m, true) (documents, ids) = (m.document_id ∷ documents, m.id ∷ ids)
add_new (m, false) (documents, ids) = (documents, ids)

-- The loop over the matched documents
unfoldable pub record_each :
    ℕ → ℕ → ℕ → Time → List ℕ → MonitorDb → Result (MonitorDb × (List ℕ × List ℕ))
unfolding record_match
record_each monitor revision run now [] s = ok (s, ([], []))
record_each monitor revision run now (d ∷ ds) s = do
  (s', found) ← record_match monitor d revision run now s
  (s'', new) ← record_each monitor revision run now ds s'
  ok (s'', add_new found new)

-- The tables of alerts with the monitors and the matches as they are now
unfoldable pub view : MonitorDb → AlertDb
view s = record s.alerting {
  monitors = map (λ (m : Monitor). record { id = m.id; name = m.name }) s.monitors;
  matches =
      map
        (λ (m : MonitorMatch). record {
          id = m.id;
          monitor_id = m.monitor_id;
          document_id = m.document_id;
          first_monitor_revision_id = m.first_monitor_revision_id;
          first_matched_at = m.first_matched_at;
        })
        s.matches;
}

-- The loop over the new matches
unfoldable pub alert_each : Time → List ℕ → MonitorDb → Result MonitorDb
unfolding view
alert_each db_now [] s = ok s
alert_each db_now (id ∷ ids) s = do
  (a, _) ← create_alert_for_match db_now id (view s)
  alert_each db_now ids (record s { alerting = a })

abbrev pub is_wanted : Option ℕ → ℕ → Bool
is_wanted none id = true
is_wanted (some d) id = id == d

-- What the savepoint keeps: the number of candidates, the matched documents and the new ones.
pub record Matched : Type 0 where
  pub candidate_count : ℕ
  pub matched_ids : List ℕ
  pub new_ids : List ℕ

-- The ids of the documents in the order of their table
abbrev pub document_ids : Option ℕ → MonitorDb → List ℕ
document_ids document s =
    filter (is_wanted document) (map (λ (d : Document). d.id) s.alerting.documents)

-- `async with session.begin_nested()`
unfoldable pub match_documents :
    Plan → Clock → Monitor → Revision → ℕ → Option ℕ → MonitorDb → Result (MonitorDb × Matched)
unfolding load_revision_criteria record_each alert_each
match_documents plan t m r run document s = do
  matching ← plan (load_revision_criteria m r s) s
  let ids = filter matching (document_ids document s)
  (s', (new_ids, new_match_ids)) ← record_each m.id r.id run t.matched_at ids s
  s'' ← alert_each t.db_now new_match_ids s'
  ok (
    s'',
    record {
      candidate_count = length (document_ids document s);
      matched_ids = ids;
      new_ids = new_ids;
    },
  )

-- The clock of the database fills `started_at`.
unfoldable pub new_run : ℕ → ℕ → Option ℕ → Trigger → Time → ℕ → EvaluationRun
new_run monitor revision document trigger db_now id = record {
  id = id;
  monitor_id = monitor;
  monitor_revision_id = revision;
  document_id = document;
  trigger_type = trigger;
  status = RunStatus.running;
  started_at = db_now;
  completed_at = none;
  candidate_count = 0;
  matched_count = 0;
  new_match_count = 0;
  has_error = false;
}

-- The checks `count_order` and `completed_after_started`. The others hold of every value of the
-- columns' types, or, as `completion_state`, of every row that is written.
unfoldable pub satisfies_run : EvaluationRun → Bool
satisfies_run run =
    (leb run.matched_count run.candidate_count && leb run.new_match_count run.matched_count)
    && (elim run.completed_at [ none ↦ true | some t ↦ leb run.started_at t ])

-- `finish_evaluation_run`
unfoldable pub finish : EvaluationRun → MonitorDb → Result MonitorDb
unfolding satisfies_run
finish run s = do
  raise_if (not (satisfies_run run)) integrity_error
  ok (record s { runs = update (λ x. x.id == run.id) (λ _. run) s.runs })

-- After a write that failed the session is unusable, so that the handler's write raises too.
abbrev pub or_unusable : Result MonitorDb → Result MonitorDb
or_unusable (err _) = err session_error
or_unusable (ok s) = ok s

-- `MonitorEvaluationSummary`
pub record EvaluationSummary : Type 0 where
  pub run : EvaluationRun
  pub matched_document_ids : List ℕ
  pub new_match_document_ids : List ℕ

-- The run with what is written at its end
abbrev pub succeeded_run : Time → Matched → EvaluationRun → EvaluationRun
succeeded_run now d run = record run {
  status = RunStatus.succeeded;
  completed_at = some now;
  candidate_count = d.candidate_count;
  matched_count = length d.matched_ids;
  new_match_count = length d.new_ids;
}

abbrev pub failed_run : Time → EvaluationRun → EvaluationRun
failed_run now run = record run {
  status = RunStatus.failed;
  completed_at = some now;
  candidate_count = 0;
  matched_count = 0;
  new_match_count = 0;
  has_error = true;
}

-- The rest of the run: a failure undoes the savepoint and is stored in the run.
unfoldable pub finish_run :
    Time
    → EvaluationRun
    → MonitorDb
    → Result (MonitorDb × Matched)
    → Result (MonitorDb × EvaluationSummary)
unfolding finish
finish_run now run s (ok (s', d)) = do
  s'' ← or_unusable (finish (succeeded_run now d run) s')
  ok (
    s'',
    record {
      run = succeeded_run now d run;
      matched_document_ids = d.matched_ids;
      new_match_document_ids = d.new_ids;
    },
  )
finish_run now run s (err _) = do
  s' ← finish (failed_run now run) s
  ok (
    s',
    record { run = failed_run now run; matched_document_ids = []; new_match_document_ids = [] },
  )

-- The foreign key of a run on its document
abbrev pub has_document : Option ℕ → MonitorDb → Bool
has_document none s = true
has_document (some id) s = any (λ (d : Document). d.id == id) s.alerting.documents

unfoldable pub evaluate :
    Plan → Clock → Monitor → Trigger → Option ℕ → MonitorDb → Result (MonitorDb × EvaluationSummary)
unfolding new_run match_documents finish_run
evaluate plan t m trigger document s = do
  r ← or_raise (find? (is_revision m.id m.current_revision_number) s.revisions) unavailable
  raise_if (not (has_document document s)) integrity_error
  let run = new_run m.id r.id document trigger t.db_now s.next_run_id
  let s' = record s { runs = s.runs ++ run ∷ []; next_run_id = suc s.next_run_id }
  finish_run t.completed_at run s' (match_documents plan t m r run.id document s')
