-- ===== src/Monitors/Parts.antt =====
-- The writes of the transactions on monitors in app/services/monitor_service.py, taken apart.
use global_news_intelligence.Prelude.{
  count, ℕ, suc, ◌≡◌, refl, sym, ap, subst, ◌∙◌, ◌==◌, true, false, not, some, List, [], ◌∷◌, ◌++◌,
  any, find?, update, bind-ok, guard-ok, found-ok, ok-injective, find?-holds, Result, ok, err, Time,
  Bool-cases, inl, inr, arith,
}
use global_news_intelligence.Monitors.Tables.{
  Monitor, Revision, MonitorMatch, Profile, MonitorDb, has_monitor_id, has_slug, is_revision,
  is_archived, is_revisable, insert_monitor, insert_revision, stored_revision, put_monitor,
  satisfies_checks,
}
use global_news_intelligence.Monitors.CriteriaTables.{
  Criteria, criteria_for_profile, add_selectors, add_rows,
}
use global_news_intelligence.Monitors.Revisions.{
  RevisionInput, MonitorCreate, MonitorUpdate, MonitorDetail, create_monitor, update_monitor,
  add_monitor_revision, create_monitor_in_transaction, create_revision, new_monitor, new_revision,
  require_profile, revise, as_conflict, set_required,
}

pub put_monitor-parts :
    (m : Monitor) (s t : MonitorDb)
    → put_monitor m s ≡ ok t
    → (satisfies_checks m ≡ true)
      × (record s { monitors = update (has_monitor_id m.id) (λ _. m) s.monitors } ≡ t)
unfolding put_monitor
put_monitor-parts m s t h = elim (Bool-cases (satisfies_checks m)) [
  | inl e ↦ (e, ground arith)
  | inr e ↦ absurd (ground arith)
]

-- The tables after a monitor, or its next revision, is written.
abbrev pub with_revision : Revision → Criteria → MonitorDb → MonitorDb
with_revision r c s = record s {
  revisions = s.revisions ++ stored_revision r ∷ [];
  next_revision_id = suc s.next_revision_id;
  selectors = add_rows r.id c s.selectors;
}

abbrev pub with_monitor : Monitor → MonitorDb → MonitorDb
with_monitor m s = record s {
  monitors = s.monitors ++ m ∷ [];
  next_monitor_id = suc s.next_monitor_id;
}

abbrev pub written : Monitor → MonitorDb → MonitorDb
written m s = record s { monitors = update (has_monitor_id m.id) (λ _. m) s.monitors }

criteria_for_profile-parts :
    (c d : Criteria) (profile : ℕ)
    → criteria_for_profile c profile ≡ ok d
    → record c { coverage_profile_id = some profile } ≡ d
unfolding criteria_for_profile
criteria_for_profile-parts c d profile h = let (_, k) = guard-ok _ _ _ _ h in ok-injective _ _ k

insert_revision-parts :
    (r : Revision) (s t : MonitorDb)
    → insert_revision r s ≡ ok t
    → (any (is_revision r.monitor_id r.revision_number) s.revisions ≡ false)
      × (record s {
        revisions = s.revisions ++ stored_revision r ∷ [];
        next_revision_id = suc s.next_revision_id;
      }
          ≡ t)
unfolding insert_revision
insert_revision-parts r s t h =
    let (_, k) = guard-ok _ _ _ _ h in
    let (new, l) = guard-ok _ _ _ _ k in (new, ok-injective _ _ l)

add_selectors-parts :
    (revision : ℕ) (c : Criteria) (s t : MonitorDb)
    → add_selectors revision c s ≡ ok t
    → record s { selectors = add_rows revision c s.selectors } ≡ t
unfolding add_selectors
add_selectors-parts revision c s t h = let (_, k) = guard-ok _ _ _ _ h in ok-injective _ _ k

-- What a revision that is stored has: the row, its criteria and the tables.
abbrev pub Revised :
    Time → Monitor → ℕ → RevisionInput → MonitorDb → MonitorDb × (Revision × Criteria) → Type 0
Revised now m number d s y =
    (new_revision m number d y.1.1 now s.next_revision_id ≡ y.1.0)
    × (record d.criteria { coverage_profile_id = some m.coverage_profile_id } ≡ y.1.1)
    × (any (is_revision m.id number) s.revisions ≡ false)
    × (with_revision y.1.0 y.1.1 s ≡ y.0)

pub create_revision-parts :
    (now : Time) (m : Monitor) (number : ℕ) (d : RevisionInput) (s : MonitorDb)
    (y : MonitorDb × (Revision × Criteria))
    → create_revision now m number d s ≡ ok y
    → Revised now m number d s y
unfolding create_revision new_revision
create_revision-parts now m number d s y h =
    let (c, for_profile, h1) =
      bind-ok (criteria_for_profile d.criteria m.coverage_profile_id) _ _ h in
    let (_, h2) = guard-ok _ _ _ _ h1 in
    let (s1, inserted, h3) = bind-ok _ _ _ h2 in
    let (s2, selected, h4) = bind-ok _ _ _ h3 in
    let (new, first) = insert_revision-parts _ s s1 inserted in
    let second : record s1 { selectors = add_rows s.next_revision_id c s1.selectors } ≡ s2 =
      add_selectors-parts _ c s1 s2 selected in
    subst (Revised now m number d s) (ok-injective _ _ h4) (
      refl,
      criteria_for_profile-parts _ _ _ for_profile,
      new,
      ap (λ (u : MonitorDb). record u { selectors = add_rows s.next_revision_id c u.selectors })
            first
          ∙ second,
    )

as_conflict-ok {ℓ} : {A : Type ℓ} (m : Result A) (a : A) → as_conflict m ≡ ok a → m ≡ ok a
unfolding as_conflict
as_conflict-ok (ok b) a h = h
as_conflict-ok (err e) a h = absurd (ground arith)

insert_monitor-parts :
    (m : Monitor) (s t : MonitorDb)
    → insert_monitor m s ≡ ok t
    → (satisfies_checks m ≡ true) × (with_monitor m s ≡ t)
unfolding insert_monitor
insert_monitor-parts m s t h =
    let (checks, k) = guard-ok (not (satisfies_checks m)) _ _ _ h in
    let (_, l) = guard-ok (any (has_slug m.slug) s.monitors) _ _ _ k in
    (ground (arith, checks), ok-injective _ _ l)

abbrev pub Created : Time → MonitorCreate → MonitorDb → MonitorDb × MonitorDetail → Type 0
Created now d s y =
    (p : Profile) × (y.1.monitor ≡ new_monitor d p s.next_monitor_id)
    × (any (has_slug d.slug) s.monitors ≡ false)
    × (satisfies_checks y.1.monitor ≡ true)
    × (create_revision now y.1.monitor 1 d.revision (with_monitor y.1.monitor s)
        ≡ ok (y.0, (y.1.revision, y.1.criteria)))

pub create_monitor-parts :
    (now : Time) (d : MonitorCreate) (s : MonitorDb) (y : MonitorDb × MonitorDetail)
    → create_monitor now d s ≡ ok y
    → Created now d s y
unfolding create_monitor create_monitor_in_transaction
create_monitor-parts now d s y h =
    let (fresh, h1) = guard-ok _ _ _ _ (as_conflict-ok _ _ h) in
    let (p, _, h2) = bind-ok (require_profile d.revision.criteria.coverage_profile_id s) _ _ h1 in
    let m : Monitor = new_monitor d p s.next_monitor_id in
    let (s1, inserted, h3) = bind-ok (insert_monitor m s) _ _ h2 in
    let (made, revised, h4) = bind-ok (create_revision now m 1 d.revision s1) _ _ h3 in
    let (checks, first) = insert_monitor-parts m s s1 inserted in
    subst (Created now d s) (ok-injective _ _ h4) (
      p,
      refl,
      fresh,
      checks,
      subst (λ u. create_revision now m 1 d.revision u ≡ ok made) (sym first) revised,
    )

-- A write of a row under its checks, which keeps the id, the slug and the profile.
abbrev pub Writes : Monitor → Monitor → MonitorDb → MonitorDb → Type 0
Writes m x s t =
    (find? (has_monitor_id m.id) s.monitors ≡ some m)
    × (x.id ≡ m.id)
    × (x.slug ≡ m.slug)
    × (x.coverage_profile_id ≡ m.coverage_profile_id)
    × (satisfies_checks x ≡ true)
    × (written x s ≡ t)

pub find?-monitor_id :
    (id : ℕ) (xs : List Monitor) (m : Monitor)
    → find? (has_monitor_id id) xs ≡ some m
    → find? (has_monitor_id m.id) xs ≡ some m
find?-monitor_id id xs m h =
    let same : m.id ≡ id = ground (arith, find?-holds (has_monitor_id id) xs m h) in
    subst (λ n. find? (has_monitor_id n) xs ≡ some m) (sym same) h

abbrev pub Updated : ℕ → MonitorDb → MonitorDb × Monitor → Type 0
Updated id s y =
    (m : Monitor) × (m.id ≡ id)
    × (is_archived m.status ≡ false)
    × (y.1.current_revision_number ≡ m.current_revision_number)
    × (y.1.status ≡ m.status)
    × Writes m y.1 s y.0

pub has_id-found :
    (id : ℕ) (xs : List Monitor) (m : Monitor) → find? (has_monitor_id id) xs ≡ some m → m.id ≡ id
has_id-found id xs m h = ground (arith, find?-holds (has_monitor_id id) xs m h)

pub update_monitor-parts :
    (now : Time) (id : ℕ) (d : MonitorUpdate) (s : MonitorDb) (y : MonitorDb × Monitor)
    → update_monitor now id d s ≡ ok y
    → Updated id s y
unfolding update_monitor
update_monitor-parts now id d s y h =
    let (m, found, h1) = found-ok _ _ _ _ h in
    let (unarchived, h2) = guard-ok _ _ _ _ h1 in
    let (_, h3) = guard-ok _ _ _ _ h2 in
    let (name, _, h4) = bind-ok (set_required d.name m.name) _ _ h3 in
    let (existing, _, h5) =
      bind-ok (set_required d.match_existing_on_activation m.match_existing_on_activation) _ _ h4 in
    let (s1, put, h6) = bind-ok (put_monitor _ s) _ _ h5 in
    let (checks, same) = put_monitor-parts _ s s1 put in
    subst (Updated id s) (ok-injective _ _ h6) (
      m,
      has_id-found id s.monitors m found,
      unarchived,
      refl,
      refl,
      (find?-monitor_id id s.monitors m found, refl, refl, refl, checks, same),
    )

abbrev pub Revises : Time → ℕ → RevisionInput → MonitorDb → MonitorDb × MonitorDetail → Type 0
Revises now id d s y =
    (m : Monitor) × (u : MonitorDb) × (m.id ≡ id)
    × (is_revisable m.status ≡ true)
    × (create_revision now m (suc m.current_revision_number) d s
        ≡ ok (u, (y.1.revision, y.1.criteria)))
    × (y.1.monitor ≡ record m { current_revision_number = suc m.current_revision_number })
    × Writes m y.1.monitor u y.0
    × (y.1.match_count ≡ count (λ (x : MonitorMatch). x.monitor_id == m.id) y.0.matches)

pub add_monitor_revision-parts :
    (now : Time) (id : ℕ) (d : RevisionInput) (s : MonitorDb) (y : MonitorDb × MonitorDetail)
    → add_monitor_revision now id d s ≡ ok y
    → Revises now id d s y
unfolding add_monitor_revision revise
add_monitor_revision-parts now id d s y h =
    let (m, found, h1) = found-ok _ _ _ _ (as_conflict-ok _ _ h) in
    let (revisable, h2) = guard-ok _ _ _ _ h1 in
    let ((u, (r, c)), revised, h3) =
      bind-ok (create_revision now m (suc m.current_revision_number) d s) _ _ h2 in
    let (s1, put, h4) = bind-ok (put_monitor _ u) _ _ h3 in
    let (checks, same) = put_monitor-parts _ u s1 put in
    let (_, _, _, kept) = create_revision-parts now m _ d s (u, (r, c)) revised in
    let rows : s.monitors ≡ u.monitors = ap (λ (t : MonitorDb). t.monitors) kept in
    subst (Revises now id d s) (ok-injective _ _ h4) (
      m,
      u,
      has_id-found id s.monitors m found,
      ground arith,
      revised,
      refl,
      (
        subst (λ xs. find? (has_monitor_id m.id) xs ≡ some m) rows
            (find?-monitor_id id s.monitors m found),
        refl,
        refl,
        refl,
        checks,
        same,
      ),
      refl,
    )
