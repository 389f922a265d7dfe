-- ===== src/Monitors/Lifecycle.antt =====
-- The life of one monitor through sequences of transactions of app/services/monitor_service.py.
use global_news_intelligence.Prelude.{
  ℕ, suc, ok-injective, guard-ok, ltb, none, ◌≤◌, ◌≡◌, refl, sym, ap, subst, ◌∙◌, ◌==◌, Bool, true,
  Option, some, List, [], ◌∷◌, ◌++◌, find?, find?-append_hit, find?-update, find?-update_apart, ok,
  Time, Bool-cases, inl, inr, arith,
}
use global_news_intelligence.Monitors.Tables.{
  Monitor, MonitorStatus, Revision, MonitorMatch, MonitorDb, has_monitor_id, is_archived,
}
use global_news_intelligence.Monitors.Evaluation.{
  Plan, Clock, Matched, match_documents, record_match, record_found, matches_document,
}
use global_news_intelligence.Monitors.Revisions.{MonitorCreate, RevisionInput, MonitorDetail}
use global_news_intelligence.Monitors.Transactions.{Transaction, run}
use global_news_intelligence.Monitors.Parts.{
  Created, Revises, written, create_revision-parts, with_monitor,
}
use global_news_intelligence.Monitors.Moves.{Moves, Changes}
use global_news_intelligence.Monitors.Valid.{
  IsValid, Created-IsValid, Revises-IsValid, Changes-IsValid,
}
use global_news_intelligence.Monitors.Invariant.{match_documents-IsValid, runs-IsValid}
use global_news_intelligence.Monitors.Savepoints.{match_documents-induction}
use global_news_intelligence.Monitors.Keeping.{run-keeps}

pub data Life : MonitorStatus → MonitorStatus → Type 0 where
  born : {a : MonitorStatus} → Life a a
  moves : {a b c : MonitorStatus} → Life a b → Moves b c → Life a c

Life-trans : (a b c : MonitorStatus) → Life a b → Life b c → Life a c
Life-trans a b _ p born = p
Life-trans a b _ p (moves q m) = moves (Life-trans a b _ p q) m

-- What a monitor keeps, and where it may have moved.
pub record Follows (m x : Monitor) : Type 0 where
  pub id : x.id ≡ m.id
  pub slug : x.slug ≡ m.slug
  pub profile : x.coverage_profile_id ≡ m.coverage_profile_id
  pub revision : m.current_revision_number ≤ x.current_revision_number
  pub status : Life m.status x.status
  pub frozen : is_archived m.status ≡ true → x ≡ m

abbrev pub Evolves : List Monitor → List Monitor → Type 0
Evolves xs ys =
    (id : ℕ) (m : Monitor)
    → find? (has_monitor_id id) xs ≡ some m
    → (x : Monitor) × (find? (has_monitor_id id) ys ≡ some x) × Follows m x

Follows-refl : (m : Monitor) → Follows m m
Follows-refl m = record {
  id = refl;
  slug = refl;
  profile = refl;
  revision = omega arith;
  status = born;
  frozen = λ h. refl;
}

Follows-trans : (m x y : Monitor) → Follows m x → Follows x y → Follows m y
Follows-trans m x y v w = record {
  id = w.id ∙ v.id;
  slug = w.slug ∙ v.slug;
  profile = w.profile ∙ v.profile;
  revision = omega (arith, v.revision, w.revision);
  status = Life-trans m.status x.status y.status v.status w.status;
  frozen = λ h.
      let same : x ≡ m = v.frozen h in
      w.frozen (ap (λ (a : Monitor). is_archived a.status) same ∙ h) ∙ same;
}

Evolves-trans : (xs ys zs : List Monitor) → Evolves xs ys → Evolves ys zs → Evolves xs zs
Evolves-trans xs ys zs v w id m h =
    let (x, k, f) = v id m h in let (y, l, g) = w id x k in (y, l, Follows-trans m x y f g)

append-Evolves : (xs : List Monitor) (x : Monitor) → Evolves xs (xs ++ x ∷ [])
append-Evolves xs x id m h =
    (m, find?-append_hit (has_monitor_id id) xs (x ∷ []) m h, Follows-refl m)

-- A table after the write of one row, by a relation that each row has to itself.
pub written-Related :
    (R : Monitor → Monitor → Type 0) (R-refl : (a : Monitor) → R a a) (m x : Monitor)
    (s : MonitorDb)
    → find? (has_monitor_id m.id) s.monitors ≡ some m
    → x.id ≡ m.id
    → R m x
    → (id : ℕ) (a : Monitor) → find? (has_monitor_id id) s.monitors ≡ some a
    → (b : Monitor) × (find? (has_monitor_id id) (written x s).monitors ≡ some b) × R a b
written-Related R R-refl m x s found same f id a h = elim (Bool-cases (id == x.id)) [
  | inl e ↦
      let here : id ≡ x.id = ground arith in
      let at : id ≡ m.id = here ∙ same in
      let row : m ≡ a =
        ground (arith, found, subst (λ n. find? (has_monitor_id n) s.monitors ≡ some a) at h) in
      let new : find? (has_monitor_id x.id) (written x s).monitors ≡ some x =
        find?-update (has_monitor_id x.id) (λ _. x) s.monitors a (λ b k. ground arith)
          (subst (λ n. find? (has_monitor_id n) s.monitors ≡ some a) here h) in
      (
        x,
        subst (λ n. find? (has_monitor_id n) (written x s).monitors ≡ some x) (sym here) new,
        subst (λ b. R b x) row f,
      )
  | inr e ↦ (
    a,
    find?-update_apart (has_monitor_id id) (has_monitor_id x.id) (λ _. x) s.monitors
          (λ b k. ground arith) (λ b k. ground arith)
        ∙ h,
    R-refl a,
  )
]

written-Evolves :
    (m x : Monitor) (s : MonitorDb)
    → find? (has_monitor_id m.id) s.monitors ≡ some m
    → x.id ≡ m.id
    → Follows m x
    → Evolves s.monitors (written x s).monitors
written-Evolves = written-Related Follows Follows-refl

Changes-Evolves :
    (m x : Monitor) (s t : MonitorDb) → Changes m x s t → Evolves s.monitors t.monitors
Changes-Evolves m x s t (unarchived, number, move, (found, id, slug, profile, _, same)) =
    subst (λ (u : MonitorDb). Evolves s.monitors u.monitors) same
      (written-Evolves m x s found id (record {
        id = id;
        slug = slug;
        profile = profile;
        revision = omega (arith, number);
        status = moves born move;
        frozen = λ h. absurd (ground (arith, unarchived));
      }))

Created-Evolves :
    (now : Time) (d : MonitorCreate) (s : MonitorDb) (y : MonitorDb × MonitorDetail)
    → Created now d s y
    → Evolves s.monitors y.0.monitors
Created-Evolves now d s y (_, _, _, _, revised) =
    let (_, _, _, same) =
      create_revision-parts now y.1.monitor 1 d.revision (with_monitor y.1.monitor s)
        (y.0, (y.1.revision, y.1.criteria)) revised in
    subst (λ (u : MonitorDb). Evolves s.monitors u.monitors) same
      (append-Evolves s.monitors y.1.monitor)

Revises-Evolves :
    (now : Time) (id : ℕ) (d : RevisionInput) (s : MonitorDb) (y : MonitorDb × MonitorDetail)
    → Revises now id d s y
    → Evolves s.monitors y.0.monitors
Revises-Evolves now id d s y
      (m, u, _, revisable, revised, row, (found, same_id, slug, profile, _, same), _) =
    let (_, _, _, kept) =
      create_revision-parts now m (suc m.current_revision_number) d s
        (u, (y.1.revision, y.1.criteria)) revised in
    subst (λ (t : MonitorDb). Evolves s.monitors t.monitors) same
      (subst (λ (t : MonitorDb). Evolves t.monitors (written y.1.monitor u).monitors) (sym kept)
        (written-Evolves m y.1.monitor u found same_id (record {
          id = same_id;
          slug = slug;
          profile = profile;
          revision = omega (arith, ap (λ (x : Monitor). x.current_revision_number) row);
          status = subst (Life m.status) (sym (ap (λ (x : Monitor). x.status) row)) born;
          frozen = λ h. absurd (ground (arith, revisable));
        })))

record_found-monitors :
    (monitor document revision run : ℕ) (now : Time) (o : Option MonitorMatch) (s u : MonitorDb)
    (x : MonitorMatch × Bool)
    → record_found monitor document revision run now o s ≡ ok (u, x)
    → s.monitors ≡ u.monitors
unfolding record_found
record_found-monitors monitor document revision run now none s u x h =
    ap (λ (y : MonitorDb × (MonitorMatch × Bool)). y.0.monitors) (ok-injective _ _ h)
record_found-monitors monitor document revision run now (some y) s u x h =
    let (_, k) = guard-ok (ltb now y.first_matched_at) _ _ _ h in
    ap (λ (y : MonitorDb × (MonitorMatch × Bool)). y.0.monitors) (ok-injective _ _ k)

record_match-monitors :
    (monitor document revision run : ℕ) (now : Time) (s u : MonitorDb) (x : MonitorMatch × Bool)
    → record_match monitor document revision run now s ≡ ok (u, x)
    → s.monitors ≡ u.monitors
unfolding record_match
record_match-monitors monitor document revision run now s u x h =
    record_found-monitors monitor document revision run now
      (find? (matches_document monitor document) s.matches) s u x h

pub match_documents-monitors :
    (plan : Plan) (t : Clock) (m : Monitor) (r : Revision) (run : ℕ) (document : Option ℕ)
    (s u : MonitorDb) (d : Matched)
    → match_documents plan t m r run document s ≡ ok (u, d)
    → s.monitors ≡ u.monitors
match_documents-monitors plan t m r run document s u d =
    match_documents-induction (λ w. s.monitors ≡ w.monitors)
      (λ mo e v n now a b x k h. k ∙ record_match-monitors mo e v n now a b x h) (λ a w k. k) plan t
      m r run document s u d refl

-- From valid tables, through every sequence of transactions, failed ones included, a monitor keeps
-- its id, its slug and its profile, its revision number never falls, and its state is one that a
-- chain of moves of the life cycle leads to, of which none leads back to draft. The row of an
-- archived monitor never changes again.
pub run-Follows :
    (plan : Plan) (s : MonitorDb) (ts : List Transaction) (id : ℕ) (m : Monitor)
    → IsValid s
    → find? (has_monitor_id id) s.monitors ≡ some m
    → (x : Monitor) × (find? (has_monitor_id id) (run plan s ts).monitors ≡ some x) × Follows m x
run-Follows plan s ts id m v =
    (run-keeps plan (λ t. IsValid t × Evolves s.monitors t.monitors) (λ t w. w.0.ids)
        (λ now d t y c w. (
          Created-IsValid now d t y c w.0,
          Evolves-trans s.monitors t.monitors y.0.monitors w.1 (Created-Evolves now d t y c),
        ))
        (λ now i d t y c w. (
          Revises-IsValid now i d t y c w.0,
          Evolves-trans s.monitors t.monitors y.0.monitors w.1 (Revises-Evolves now i d t y c),
        ))
        (λ a x t u c w. (
          Changes-IsValid a x t u c w.0,
          Evolves-trans s.monitors t.monitors u.monitors w.1 (Changes-Evolves a x t u c),
        ))
        (λ t m r n document a u d w h. (
          match_documents-IsValid plan t m r n document a u d w.0 h,
          subst (λ xs. Evolves s.monitors xs)
              (match_documents-monitors plan t m r n document a u d h) w.1,
        ))
        (λ rs n t w. (runs-IsValid rs n t w.0, w.1)) s ts (v, λ i a h. (a, h, Follows-refl a))).1
      id m
