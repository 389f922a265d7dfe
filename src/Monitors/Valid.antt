-- ===== src/Monitors/Valid.antt =====
-- Valid tables of monitors, revisions and matches: what app/services/monitor_service.py relies on.
use global_news_intelligence.Prelude.{
  ℕ, suc, ◌+◌, ◌≤◌, ◌<◌, ◌≡◌, refl, sym, ap, subst, ◌∙◌, String, str_eq, eq_iff, ◌==◌, Bool, true,
  false, some, List, [], ◌∷◌, ◌++◌, All, All-append, All-mono, All-update, All-find?, any, find?,
  find?-append_one, find?-append_hit, find?_of_any, update, count, count-append, count-fresh,
  count_of_any, count-replace, Time, is_some, Bool-cases, inl, inr, arith,
}
use global_news_intelligence.Monitors.Tables.{
  Monitor, Revision, MonitorMatch, MonitorDb, has_monitor_id, has_slug, is_revision,
  satisfies_checks, stored_revision,
}
use global_news_intelligence.Monitors.CriteriaTables.{Criteria}
use global_news_intelligence.Monitors.Evaluation.{matches_document}
use global_news_intelligence.Monitors.Revisions.{
  MonitorCreate, RevisionInput, MonitorDetail, new_monitor, new_revision,
}
use global_news_intelligence.Monitors.Parts.{
  Created, Revises, Revised, create_revision-parts, Writes, with_revision, with_monitor,
}
use global_news_intelligence.Monitors.Moves.{Changes}

-- The current revision of a monitor exists and is sealed.
abbrev pub HasRevision : List Revision → Monitor → Type 0
HasRevision rs m =
    (r : Revision) × (find? (is_revision m.id m.current_revision_number) rs ≡ some r)
    × (is_some r.sealed_at ≡ true)

abbrev pub IsObserved : MonitorMatch → Type 0
IsObserved x = (x.first_matched_at ≤ x.last_matched_at) × (1 ≤ x.observation_count)

pub record IsValid (s : MonitorDb) : Type 0 where
  pub fresh : All (λ (m : Monitor). m.id < s.next_monitor_id) s.monitors
  pub ids : (n : ℕ) → count (has_monitor_id n) s.monitors ≤ 1
  pub slugs : (slug : String) → count (has_slug slug) s.monitors ≤ 1
  pub checks : All (λ m. satisfies_checks m ≡ true) s.monitors
  pub currents : All (HasRevision s.revisions) s.monitors
  pub pairs : (m d : ℕ) → count (matches_document m d) s.matches ≤ 1
  pub observations : All IsObserved s.matches

-- A later revision does not hide a current one.
append-HasRevision :
    (rs : List Revision) (r : Revision) (m : Monitor)
    → HasRevision rs m
    → HasRevision (rs ++ r ∷ []) m
append-HasRevision rs r m (x, h, k) =
    (x, find?-append_hit (is_revision m.id m.current_revision_number) rs (r ∷ []) x h, k)

new-HasRevision :
    (rs : List Revision) (r : Revision) (m : Monitor)
    → any (is_revision m.id m.current_revision_number) rs ≡ false
    → is_revision m.id m.current_revision_number r ≡ true
    → is_some r.sealed_at ≡ true
    → HasRevision (rs ++ r ∷ []) m
new-HasRevision rs r m new here sealed = (
  r,
  find?-append_one (is_revision m.id m.current_revision_number) rs r
        (find?_of_any (is_revision m.id m.current_revision_number) rs new)
      ∙ rw here refl,
  sealed,
)

with_revision-IsValid :
    (r : Revision) (c : Criteria) (s : MonitorDb) → IsValid s → IsValid (with_revision r c s)
with_revision-IsValid r c s v = record {
  fresh = v.fresh;
  ids = v.ids;
  slugs = v.slugs;
  checks = v.checks;
  currents =
      All-mono (HasRevision s.revisions) _ s.monitors
        (append-HasRevision s.revisions (stored_revision r)) v.currents;
  pairs = v.pairs;
  observations = v.observations;
}

-- A write of a found row, its revision being there.
pub written-IsValid :
    (m x : Monitor) (s t : MonitorDb)
    → Writes m x s t
    → HasRevision s.revisions x
    → IsValid s
    → IsValid t
written-IsValid m x s t (found, id, slug, _, checks, same) current v =
    subst IsValid
      (ap (λ n. record s { monitors = update (has_monitor_id n) (λ _. x) s.monitors }) (sym id)
        ∙ same)
      (record {
        fresh =
            All-update _ (has_monitor_id m.id) (λ _. x) s.monitors
              (λ a e k.
                omega (arith, id, All-find? _ (has_monitor_id m.id) s.monitors m v.fresh found))
              v.fresh;
        ids = λ n. omega (arith, kept (has_monitor_id n) (ap (λ i. i == n) id), v.ids n);
        slugs = λ text.
            omega (arith, kept (has_slug text) (ap (λ i. str_eq i text) slug), v.slugs text);
        checks = All-update _ (has_monitor_id m.id) (λ _. x) s.monitors (λ a e k. checks) v.checks;
        currents =
            All-update _ (has_monitor_id m.id) (λ _. x) s.monitors (λ a e k. current) v.currents;
        pairs = v.pairs;
        observations = v.observations;
      })
  where
    kept :
        (q : Monitor → Bool)
        → q x ≡ q m
        → count q (update (has_monitor_id m.id) (λ _. x) s.monitors) ≡ count q s.monitors
    kept q h = ground (
      arith,
      count-replace (λ (a : Monitor). a.id) q (has_monitor_id m.id) s.monitors m x found
          (v.ids m.id),
      h,
    )

pub Changes-IsValid : (m x : Monitor) (s t : MonitorDb) → Changes m x s t → IsValid s → IsValid t
Changes-IsValid m x s t (_, number, _, write) v =
    let (r, h, k) =
      All-find? (HasRevision s.revisions) (has_monitor_id m.id) s.monitors m v.currents write.0 in
    written-IsValid m x s t write (r, rw (write.1, number) h, k) v

-- A revision under a number that its monitor has not used yet.
Revised-HasRevision :
    (now : Time) (m : Monitor) (number : ℕ) (d : RevisionInput) (s : MonitorDb)
    (y : MonitorDb × (Revision × Criteria)) (x : Monitor)
    → Revised now m number d s y
    → x.id ≡ m.id
    → x.current_revision_number ≡ number
    → HasRevision y.0.revisions x
unfolding new_revision
Revised-HasRevision now m number d s y x (made, _, new, same) id current =
    subst (λ (t : MonitorDb). HasRevision t.revisions x) same
      (new-HasRevision s.revisions (stored_revision y.1.0) x (rw (id, current) new)
        (subst (λ (r : Revision). is_revision x.id x.current_revision_number r ≡ true) made
          (ground (arith, id, current)))
        (subst (λ (r : Revision). is_some r.sealed_at ≡ true) made refl))

pub Revises-IsValid :
    (now : Time) (id : ℕ) (d : RevisionInput) (s : MonitorDb) (y : MonitorDb × MonitorDetail)
    → Revises now id d s y
    → IsValid s
    → IsValid y.0
Revises-IsValid now id d s y (m, u, _, _, revised, row, write, _) v =
    let (_, _, _, same) = parts in
    written-IsValid m y.1.monitor u y.0 write
      (Revised-HasRevision now m (suc m.current_revision_number) d s
        (u, (y.1.revision, y.1.criteria)) y.1.monitor parts write.1
        (ap (λ (x : Monitor). x.current_revision_number) row))
      (subst IsValid same (with_revision-IsValid y.1.revision y.1.criteria s v))
  where
    parts : Revised now m (suc m.current_revision_number) d s (u, (y.1.revision, y.1.criteria))
    parts =
        create_revision-parts now m (suc m.current_revision_number) d s
          (u, (y.1.revision, y.1.criteria)) revised

pub Created-IsValid :
    (now : Time) (d : MonitorCreate) (s : MonitorDb) (y : MonitorDb × MonitorDetail)
    → Created now d s y
    → IsValid s
    → IsValid y.0
unfolding new_monitor count
Created-IsValid now d s y (p, row, fresh_slug, checks, revised) v =
    let parts : Revised now m 1 d.revision (with_monitor m s) (y.0, (y.1.revision, y.1.criteria)) =
      create_revision-parts now m 1 d.revision (with_monitor m s)
        (y.0, (y.1.revision, y.1.criteria)) revised in
    let (_, _, _, same) = parts in
    let id : m.id ≡ s.next_monitor_id = ap (λ (x : Monitor). x.id) row in
    let slug : m.slug ≡ d.slug = ap (λ (x : Monitor). x.slug) row in
    let number : m.current_revision_number ≡ 1 =
      ap (λ (x : Monitor). x.current_revision_number) row in
    let revision : HasRevision y.0.revisions m =
      Revised-HasRevision now m 1 d.revision (with_monitor m s) (y.0, (y.1.revision, y.1.criteria))
        m parts refl number in
    subst IsValid same (record {
      fresh =
          All-append _ s.monitors _ (All-mono _ _ s.monitors (λ a k. omega arith) v.fresh)
            (omega (arith, id), tt);
      ids = λ n. rw (count-append (has_monitor_id n) s.monitors (m ∷ [])) (one_id n id);
      slugs = λ text. rw (count-append (has_slug text) s.monitors (m ∷ [])) (one_slug text slug);
      checks = All-append _ s.monitors _ v.checks (checks, tt);
      currents =
          All-append _ s.monitors _
            (All-mono (HasRevision s.revisions) _ s.monitors
              (append-HasRevision s.revisions (stored_revision y.1.revision)) v.currents)
            (subst (λ (t : MonitorDb). HasRevision t.revisions m) (sym same) revision, tt);
      pairs = v.pairs;
      observations = v.observations;
    })
  where
    m : Monitor
    m = y.1.monitor

    one_id :
        (n : ℕ)
        → m.id ≡ s.next_monitor_id
        → count (has_monitor_id n) s.monitors + count (has_monitor_id n) (m ∷ []) ≤ 1
    one_id n id = elim (Bool-cases (m.id == n)) [
      | inl e ↦
          let same : s.next_monitor_id ≡ n = ground (arith, id) in
          let unused : count (has_monitor_id n) s.monitors ≡ 0 =
            subst (λ k. count (has_monitor_id k) s.monitors ≡ 0) same
              (count-fresh (λ (x : Monitor). x.id) s.next_monitor_id s.monitors v.fresh) in
          ground (arith, unused)
      | inr e ↦ ground (arith, v.ids n)
    ]

    one_slug :
        (text : String)
        → m.slug ≡ d.slug
        → count (has_slug text) s.monitors + count (has_slug text) (m ∷ []) ≤ 1
    one_slug text slug = elim (Bool-cases (str_eq m.slug text)) [
      | inl e ↦
          let same : d.slug ≡ text = sym slug ∙ (eq_iff m.slug text).0 e in
          let unused : count (has_slug text) s.monitors ≡ 0 =
            subst (λ k. count (has_slug k) s.monitors ≡ 0) same
              (count_of_any (has_slug d.slug) s.monitors fresh_slug) in
          ground (arith, unused)
      | inr e ↦ ground (arith, v.slugs text)
    ]
