-- ===== src/Monitors/Savepoints.antt =====
-- What the savepoint of `_evaluate_monitor` in app/services/monitor_service.py keeps and returns.
use global_news_intelligence.Prelude.{
  ℕ, suc, ◌≤◌, ◌≡◌, sym, ap, subst, ◌∙◌, Bool, true, false, Option, List, [], ◌∷◌, filter, length,
  ok, Time, Result-cases, inl, inr, arith,
}
use global_news_intelligence.Alerts.Tables.{AlertDb}
use global_news_intelligence.Alerts.Creation.{Summary, create_alert_for_match}
use global_news_intelligence.Monitors.Tables.{Monitor, Revision, MonitorMatch, MonitorDb}
use global_news_intelligence.Monitors.CriteriaTables.{load_revision_criteria}
use global_news_intelligence.Monitors.Evaluation.{
  Plan, Clock, Matched, add_new, record_match, record_each, alert_each, view, document_ids,
  match_documents,
}

-- A call of `record_each` that succeeds, taken apart.
pub record_each-parts :
    (monitor revision run : ℕ) (now : Time) (d : ℕ) (ds : List ℕ) (s t : MonitorDb)
    (new : List ℕ × List ℕ)
    → record_each monitor revision run now (d ∷ ds) s ≡ ok (t, new)
    → (u : MonitorDb) × (found : MonitorMatch × Bool) × (rest : List ℕ × List ℕ) × (record_match
          monitor d revision run now s
        ≡ ok (u, found))
      × (record_each monitor revision run now ds u ≡ ok (t, rest))
      × (add_new found rest ≡ new)
unfolding record_each
record_each-parts monitor revision run now d ds s t new h =
    elim (Result-cases (record_match monitor d revision run now s)) [
      | inl (e, k) ↦ absurd (ground arith)
      | inr ((u, found), k) ↦ elim (Result-cases (record_each monitor revision run now ds u)) [
        | inl (e, m) ↦ absurd (ground arith)
        | inr ((t', rest), m) ↦
            let same : t' ≡ t = ground arith in
            (u, found, rest, k, m ∙ ap (λ x. ok (x, rest)) same, ground arith)
      ]
    ]

pub alert_each-parts :
    (db_now : Time) (id : ℕ) (ids : List ℕ) (s t : MonitorDb)
    → alert_each db_now (id ∷ ids) s ≡ ok t
    → (a : AlertDb) × (x : Summary) × (create_alert_for_match db_now id (view s) ≡ ok (a, x))
      × (alert_each db_now ids (record s { alerting = a }) ≡ ok t)
unfolding alert_each
alert_each-parts db_now id ids s t h =
    elim (Result-cases (create_alert_for_match db_now id (view s))) [
      | inl (e, k) ↦ absurd (ground arith)
      | inr ((a, x), k) ↦ (a, x, k, ground arith)
    ]

-- A savepoint that succeeds, taken apart.
pub match_documents-parts :
    (plan : Plan) (t : Clock) (m : Monitor) (r : Revision) (run : ℕ) (document : Option ℕ)
    (s u : MonitorDb) (d : Matched)
    → match_documents plan t m r run document s ≡ ok (u, d)
    → (matching : ℕ → Bool) × (s' : MonitorDb) × (new : List ℕ × List ℕ) × (plan
          (load_revision_criteria m r s)
          s
        ≡ ok matching)
      × (record_each m.id r.id run t.matched_at (filter matching (document_ids document s)) s
          ≡ ok (s', new))
      × (alert_each t.db_now new.1 s' ≡ ok u)
      × (d.candidate_count ≡ length (document_ids document s))
      × (d.matched_ids ≡ filter matching (document_ids document s))
      × (d.new_ids ≡ new.0)
unfolding match_documents
match_documents-parts plan t m r run document s u d h =
    elim (Result-cases (plan (load_revision_criteria m r s) s)) [
      | inl (e, k) ↦ absurd (ground arith)
      | inr (matching, k) ↦
          elim (Result-cases (
            record_each m.id r.id run t.matched_at (filter matching (document_ids document s)) s)) [
              | inl (e, l) ↦ absurd (ground arith)
              | inr ((s', new), l) ↦ elim (Result-cases (alert_each t.db_now new.1 s')) [
                | inl (e, n) ↦ absurd (ground arith)
                | inr (u', n) ↦
                    let same : u' ≡ u = ground arith in
                    (
                      matching,
                      s',
                      new,
                      k,
                      l,
                      n ∙ ap ok same,
                      ground arith,
                      ground arith,
                      ground arith,
                    )
              ]
            ]
    ]

-- What each record of a match keeps, and does not depend on alerts, the savepoint keeps.
module _ {ℓ} (P : MonitorDb → Type ℓ)
    (f : (monitor document revision run : ℕ) (now : Time) (s u : MonitorDb)
        (x : MonitorMatch × Bool)
      → P s
      → record_match monitor document revision run now s ≡ ok (u, x)
      → P u)
    (g : (a : AlertDb) (s : MonitorDb) → P s → P (record s { alerting = a })) where
  pub record_each-induction :
      (monitor revision run : ℕ) (now : Time) (ds : List ℕ) (s t : MonitorDb)
      (new : List ℕ × List ℕ)
      → P s
      → record_each monitor revision run now ds s ≡ ok (t, new)
      → P t
  unfolding record_each
  record_each-induction monitor revision run now [] s t new v h = subst P (ground arith) v
  record_each-induction monitor revision run now (d ∷ ds) s t new v h =
      let (u, found, rest, k, l, _) = record_each-parts monitor revision run now d ds s t new h in
      record_each-induction monitor revision run now ds u t rest
        (f monitor d revision run now s u found v k) l

  pub alert_each-induction :
      (db_now : Time) (ids : List ℕ) (s t : MonitorDb) → P s → alert_each db_now ids s ≡ ok t → P t
  unfolding alert_each
  alert_each-induction db_now [] s t v h = subst P (ground arith) v
  alert_each-induction db_now (id ∷ ids) s t v h =
      let (a, x, k, l) = alert_each-parts db_now id ids s t h in
      alert_each-induction db_now ids (record s { alerting = a }) t (g a s v) l

  pub match_documents-induction :
      (plan : Plan) (t : Clock) (m : Monitor) (r : Revision) (run : ℕ) (document : Option ℕ)
      (s u : MonitorDb) (d : Matched)
      → P s
      → match_documents plan t m r run document s ≡ ok (u, d)
      → P u
  match_documents-induction plan t m r run document s u d v h =
      let (matching, s', new, k, l, n, _, _, _) =
        match_documents-parts plan t m r run document s u d h in
      alert_each-induction t.db_now new.1 s' u
        (record_each-induction m.id r.id run t.matched_at
          (filter matching (document_ids document s)) s s' new v l)
        n

-- The numbers of a run are in order.
length-add_new :
    (found : MonitorMatch × Bool) (rest : List ℕ × List ℕ)
    → length (add_new found rest).0 ≤ suc (length rest.0)
length-add_new (m, true) (a, b) = omega arith
length-add_new (m, false) (a, b) = omega arith

pub record_each-length :
    (monitor revision run : ℕ) (now : Time) (ds : List ℕ) (s t : MonitorDb) (new : List ℕ × List ℕ)
    → record_each monitor revision run now ds s ≡ ok (t, new)
    → length new.0 ≤ length ds
unfolding record_each
record_each-length monitor revision run now [] s t new h =
    let same : new ≡ ([], []) = ground arith in subst (λ x. length x.0 ≤ 0) (sym same) (omega arith)
record_each-length monitor revision run now (d ∷ ds) s t new h =
    let (u, found, rest, k, l, n) = record_each-parts monitor revision run now d ds s t new h in
    let less : length (add_new found rest).0 ≤ suc (length rest.0) = length-add_new found rest in
    subst (λ x. length x.0 ≤ suc (length ds)) n
      (omega (arith, less, record_each-length monitor revision run now ds u t rest l))

length-filter_le : {A : Type 0} (p : A → Bool) (xs : List A) → length (filter p xs) ≤ length xs
unfolding filter
length-filter_le p [] = omega arith
length-filter_le p (x ∷ xs) = ground (arith, length-filter_le p xs)

pub match_documents-counts :
    (plan : Plan) (t : Clock) (m : Monitor) (r : Revision) (run : ℕ) (document : Option ℕ)
    (s u : MonitorDb) (d : Matched)
    → match_documents plan t m r run document s ≡ ok (u, d)
    → (length d.matched_ids ≤ d.candidate_count) × (length d.new_ids ≤ length d.matched_ids)
match_documents-counts plan t m r run document s u d h =
    let (matching, s', new, k, l, n, a, b, c) =
      match_documents-parts plan t m r run document s u d h in
    let first : length d.matched_ids ≡ length (filter matching (document_ids document s)) =
      ap length b in
    let second : length d.new_ids ≡ length new.0 = ap length c in
    (
      omega (arith, first, a, length-filter_le matching (document_ids document s)),
      omega (
        arith,
        first,
        second,
        record_each-length m.id r.id run t.matched_at (filter matching (document_ids document s)) s
            s' new l,
      ),
    )
