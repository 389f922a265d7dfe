-- ===== src/Monitors/Invariant.antt =====
-- The tables of monitors through sequences of transactions of app/services/monitor_service.py.
use global_news_intelligence.Prelude.{
  ℕ, suc, ◌≤◌, ◌≡◌, refl, ap, subst, ◌==◌, Bool, ◌&&◌, Option, none, some, List, All, All-append,
  find?, All-find?, All-update_one, count, count-append, count-update_kept, count-find?-none,
  ok-injective, guard-ok, ok, Time, ltb, Bool-cases, inl, inr, arith,
}
use global_news_intelligence.Monitors.Tables.{
  Monitor, Revision, EvaluationRun, MonitorMatch, MonitorDb,
}
use global_news_intelligence.Alerts.Tables.{AlertDb}
use global_news_intelligence.Monitors.Evaluation.{
  Plan, Clock, Matched, match_documents, matches_document, record_match, record_found, new_match,
  observed,
}
use global_news_intelligence.Monitors.Transactions.{Transaction, run}
use global_news_intelligence.Monitors.Valid.{
  IsValid, IsObserved, Created-IsValid, Revises-IsValid, Changes-IsValid,
}
use global_news_intelligence.Monitors.Savepoints.{match_documents-induction}
use global_news_intelligence.Monitors.Keeping.{run-keeps}

with_matches-IsValid :
    (s : MonitorDb) (xs : List MonitorMatch) (n : ℕ)
    → IsValid s
    → ((m d : ℕ) → count (matches_document m d) xs ≤ 1)
    → All IsObserved xs
    → IsValid (record s { matches = xs; next_match_id = n })
with_matches-IsValid s xs n v pairs observations = record {
  fresh = v.fresh;
  ids = v.ids;
  slugs = v.slugs;
  checks = v.checks;
  currents = v.currents;
  pairs = pairs;
  observations = observations;
}

record_found-IsValid :
    (monitor document revision run : ℕ) (now : Time) (o : Option MonitorMatch) (s u : MonitorDb)
    (x : MonitorMatch × Bool)
    → find? (matches_document monitor document) s.matches ≡ o
    → IsValid s
    → record_found monitor document revision run now o s ≡ ok (u, x)
    → IsValid u
unfolding record_found new_match observed count
record_found-IsValid monitor document revision run now none s u x h v k =
    subst IsValid (ap (λ (y : MonitorDb × (MonitorMatch × Bool)). y.0) (ok-injective _ _ k)) (
      with_matches-IsValid s _ (suc s.next_match_id) v
        (λ m d.
          rw (count-append (matches_document m d) s.matches _)
            (elim (Bool-cases (monitor == m && document == d)) [
              | inl e ↦
                  let first : monitor ≡ m = ground arith in
                  let second : document ≡ d = ground arith in
                  let unused : count (matches_document m d) s.matches ≡ 0 =
                    subst (λ a. count (matches_document a d) s.matches ≡ 0) first
                      (subst (λ a. count (matches_document monitor a) s.matches ≡ 0) second
                        (count-find?-none (matches_document monitor document) s.matches h)) in
                  ground (arith, unused)
              | inr e ↦ ground (arith, v.pairs m d)
            ]))
        (All-append _ s.matches _ v.observations ((omega arith, omega arith), tt)))
record_found-IsValid monitor document revision run now (some y) s u x h v k =
    let (ordered, l) = guard-ok (ltb now y.first_matched_at) _ _ _ k in
    let (first, count) =
      All-find? IsObserved (matches_document monitor document) s.matches y v.observations h in
    subst IsValid (ap (λ (z : MonitorDb × (MonitorMatch × Bool)). z.0) (ok-injective _ _ l)) (
      with_matches-IsValid s _ s.next_match_id v
        (λ m d.
          rw
            (count-update_kept (matches_document m d) (matches_document monitor document)
              (observed revision run now) s.matches (λ a. refl))
            (v.pairs m d))
        (All-update_one IsObserved (matches_document monitor document) (observed revision run now)
          s.matches y h (v.pairs monitor document) (ground (arith, ordered), omega arith)
          v.observations))

pub record_match-IsValid :
    (monitor document revision run : ℕ) (now : Time) (s u : MonitorDb) (x : MonitorMatch × Bool)
    → IsValid s
    → record_match monitor document revision run now s ≡ ok (u, x)
    → IsValid u
unfolding record_match
record_match-IsValid monitor document revision run now s u x v h =
    record_found-IsValid monitor document revision run now
      (find? (matches_document monitor document) s.matches) s u x refl v h

pub alerting-IsValid :
    (a : AlertDb) (s : MonitorDb) → IsValid s → IsValid (record s { alerting = a })
alerting-IsValid a s v = record {
  fresh = v.fresh;
  ids = v.ids;
  slugs = v.slugs;
  checks = v.checks;
  currents = v.currents;
  pairs = v.pairs;
  observations = v.observations;
}

pub runs-IsValid :
    (rs : List EvaluationRun) (n : ℕ) (s : MonitorDb)
    → IsValid s
    → IsValid (record s { runs = rs; next_run_id = n })
runs-IsValid rs n s v = record {
  fresh = v.fresh;
  ids = v.ids;
  slugs = v.slugs;
  checks = v.checks;
  currents = v.currents;
  pairs = v.pairs;
  observations = v.observations;
}

pub match_documents-IsValid :
    (plan : Plan) (t : Clock) (m : Monitor) (r : Revision) (run : ℕ) (document : Option ℕ)
    (s u : MonitorDb) (d : Matched)
    → IsValid s
    → match_documents plan t m r run document s ≡ ok (u, d)
    → IsValid u
match_documents-IsValid = match_documents-induction IsValid record_match-IsValid alerting-IsValid

-- From valid tables, whatever the plan of the matching service answers, every sequence of
-- transactions, failed ones included, leaves valid tables: ids and slugs are unique, every monitor
-- satisfies the checks of its table with the time stamp of its state, its current revision exists
-- and is sealed, and a monitor has at most one match with a document, last observed no earlier than
-- first.
pub run-IsValid :
    (plan : Plan) (s : MonitorDb) (ts : List Transaction) → IsValid s → IsValid (run plan s ts)
run-IsValid plan =
    run-keeps plan IsValid (λ s v. v.ids) Created-IsValid Revises-IsValid Changes-IsValid
      (match_documents-IsValid plan) runs-IsValid
