-- ===== src/Monitors/Roundtrip.antt =====
-- Criteria of a revision, stored by `_create_revision` of app/services/monitor_service.py and loaded
-- by `load_revision_criteria` of app/repositories/monitor_repository.py.
use global_news_intelligence.Prelude.{
  ℕ, suc, ◌<◌, ◌≡◌, refl, sym, ap, subst, ◌∙◌, ◌==◌, Bool, true, false, ◌&&◌, Option, some, List,
  [], ◌∷◌, ◌++◌, map, All, any, find?, find?-update, find?-append_one, find?_of_any, filter, count,
  ok, Time, if◌then◌else◌, arith,
}
use global_news_intelligence.Monitors.Tables.{
  Monitor, Revision, Member, TreeMember, Selectors, MonitorMatch, MonitorDb, has_monitor_id,
  is_revision, rounded_confidence, stored_revision,
}
use global_news_intelligence.Monitors.CriteriaTables.{
  HierarchyMatch, Criteria, is_nonempty, members, tree_members, add_rows, belongs, tree_belongs,
  load, load_tree, load_revision_criteria,
}
use global_news_intelligence.Monitors.Revisions.{
  RevisionInput, MonitorDetail, new_revision, add_monitor_revision, get_monitor_detail,
}
use global_news_intelligence.Monitors.Parts.{
  add_monitor_revision-parts, Revised, create_revision-parts, Writes, written, with_revision,
}

-- Without ids, the flag of a hierarchy is not stored.
abbrev pub normal : {Key : Type 0} → HierarchyMatch Key → HierarchyMatch Key
normal h = record h { include_descendants = is_nonempty h.ids && h.include_descendants }

abbrev pub normalized : Criteria → Criteria
normalized c = record c {
  geographies = normal c.geographies;
  topics = normal c.topics;
  document_types = normal c.document_types;
  source_types = normal c.source_types;
  minimum_confidence = rounded_confidence c.minimum_confidence;
}

-- Selected rows belong to revisions that exist.
pub record AreStored (n : ℕ) (s : Selectors) : Type 0 where
  pub geographies : All (λ m. m.revision_id < n) s.geographies
  pub topics : All (λ m. m.revision_id < n) s.topics
  pub entities : All (λ m. m.revision_id < n) s.entities
  pub entity_roles : All (λ m. m.revision_id < n) s.entity_roles
  pub document_types : All (λ m. m.revision_id < n) s.document_types
  pub content_formats : All (λ m. m.revision_id < n) s.content_formats
  pub sources : All (λ m. m.revision_id < n) s.sources
  pub source_types : All (λ m. m.revision_id < n) s.source_types
  pub languages : All (λ m. m.revision_id < n) s.languages

module _ {Key : Type 0} (n : ℕ) where
  load-members : (keys : List Key) → load n (members n keys) ≡ keys
  unfolding filter
  load-members [] = refl
  load-members (k ∷ keys) = rw (same n) (ap (λ t. k ∷ t) (load-members keys))
    where
      same : (m : ℕ) → (m == m) ≡ true
      same m = ground arith

  load-append :
      (xs : List (Member Key)) (keys : List Key)
      → All (λ m. m.revision_id < n) xs
      → load n (xs ++ members n keys) ≡ keys
  unfolding filter
  load-append [] keys v = load-members keys
  load-append (x ∷ xs) keys v =
      let other : belongs n x ≡ false = ground (arith, v.0) in rw other (load-append xs keys v.1)

  abbrev tree_rows : Bool → List Key → List (TreeMember Key)
  tree_rows flag keys = tree_members n (record { ids = keys; include_descendants = flag })

  filter-tree_rows :
      (flag : Bool) (keys : List Key)
      → filter (tree_belongs n) (tree_rows flag keys) ≡ tree_rows flag keys
  unfolding filter
  filter-tree_rows flag [] = refl
  filter-tree_rows flag (k ∷ keys) = rw (same n) (
      ap (λ t. record { revision_id = n; resource = k; include_descendants = flag } ∷ t)
        (filter-tree_rows flag keys))
    where
      same : (m : ℕ) → (m == m) ≡ true
      same m = ground arith

  filter-append :
      (xs : List (TreeMember Key)) (flag : Bool) (keys : List Key)
      → All (λ m. m.revision_id < n) xs
      → filter (tree_belongs n) (xs ++ tree_rows flag keys) ≡ tree_rows flag keys
  unfolding filter
  filter-append [] flag keys v = filter-tree_rows flag keys
  filter-append (x ∷ xs) flag keys v =
      let other : tree_belongs n x ≡ false = ground (arith, v.0) in
      rw other (filter-append xs flag keys v.1)

  map-tree_rows :
      (flag : Bool) (keys : List Key) → map (λ m. m.resource) (tree_rows flag keys) ≡ keys
  map-tree_rows flag [] = refl
  map-tree_rows flag (k ∷ keys) = ap (λ t. k ∷ t) (map-tree_rows flag keys)

  any-tree_rows :
      (flag : Bool) (keys : List Key)
      → any (λ m. m.include_descendants) (tree_rows flag keys) ≡ (is_nonempty keys && flag)
  unfolding any
  any-tree_rows flag [] = refl
  any-tree_rows true (k ∷ keys) = refl
  any-tree_rows false (k ∷ []) = refl
  any-tree_rows false (k ∷ l ∷ keys) = any-tree_rows false (l ∷ keys)

  load_tree-append :
      (xs : List (TreeMember Key)) (h : HierarchyMatch Key)
      → All (λ m. m.revision_id < n) xs
      → load_tree n (xs ++ tree_members n h) ≡ normal h
  load_tree-append xs h v =
      rw
        (
          filter-append xs h.include_descendants h.ids v,
          map-tree_rows h.include_descendants h.ids,
          any-tree_rows h.include_descendants h.ids,
        )
        refl

load-stored :
    (m a : Monitor) (number : ℕ) (d : RevisionInput) (c : Criteria) (now : Time) (s : MonitorDb)
    → AreStored s.next_revision_id s.selectors
    → c.coverage_profile_id ≡ some m.coverage_profile_id
    → load_revision_criteria m
        (stored_revision (new_revision a number d c now s.next_revision_id))
        (with_revision (new_revision a number d c now s.next_revision_id) c s)
      ≡ normalized c
unfolding load_revision_criteria new_revision add_rows
load-stored m a number d c now s v h =
    rw
      (
        load_tree-append s.next_revision_id s.selectors.geographies c.geographies v.geographies,
        load_tree-append s.next_revision_id s.selectors.topics c.topics v.topics,
        load-append s.next_revision_id s.selectors.entities c.entity_ids v.entities,
        load-append s.next_revision_id s.selectors.entity_roles c.entity_roles v.entity_roles,
        load_tree-append s.next_revision_id s.selectors.document_types c.document_types
            v.document_types,
        load-append s.next_revision_id s.selectors.content_formats c.content_format_slugs
            v.content_formats,
        load-append s.next_revision_id s.selectors.sources c.source_ids v.sources,
        load_tree-append s.next_revision_id s.selectors.source_types c.source_types v.source_types,
        load-append s.next_revision_id s.selectors.languages c.language_tags v.languages,
      )
      (ap (λ p. record (normalized c) { coverage_profile_id = p }) (sym h))

-- The stored revision of a monitor, as a later look-up finds it.
stored-found :
    (now : Time) (m : Monitor) (number : ℕ) (d : RevisionInput) (s : MonitorDb)
    (y : MonitorDb × (Revision × Criteria))
    → Revised now m number d s y
    → find? (is_revision m.id number) y.0.revisions ≡ some (stored_revision y.1.0)
unfolding new_revision
stored-found now m number d s y (made, _, new, same) =
    subst
      (λ (t : MonitorDb).
        find? (is_revision m.id number) t.revisions ≡ some (stored_revision y.1.0))
      same
      (find?-append_one (is_revision m.id number) s.revisions (stored_revision y.1.0)
          (find?_of_any (is_revision m.id number) s.revisions new)
        ∙ subst
            (λ (r : Revision).
              (if is_revision m.id number r then some (stored_revision r) else Option.none)
              ≡ some (stored_revision r))
            made (ground arith))

stored-load :
    (now : Time) (m x : Monitor) (number : ℕ) (d : RevisionInput) (s : MonitorDb)
    (y : MonitorDb × (Revision × Criteria))
    → AreStored s.next_revision_id s.selectors
    → x.coverage_profile_id ≡ m.coverage_profile_id
    → Revised now m number d s y
    → load_revision_criteria x (stored_revision y.1.0) y.0 ≡ normalized y.1.1
stored-load now m x number d s y v p (made, criteria, _, same) =
    subst (λ (t : MonitorDb). load_revision_criteria x (stored_revision y.1.0) t ≡ normalized y.1.1)
      same
      (subst
        (λ (r : Revision).
          load_revision_criteria x (stored_revision r) (with_revision r y.1.1 s) ≡ normalized y.1.1)
        made
        (load-stored x m number d y.1.1 now s v
          (sym (ap (λ (c : Criteria). c.coverage_profile_id) criteria) ∙ ap some (sym p))))

written-load :
    (m x : Monitor) (s : MonitorDb) (r : Revision)
    → load_revision_criteria m r (written x s) ≡ load_revision_criteria m r s
unfolding load_revision_criteria
written-load m x s r = refl

written-found :
    (m x : Monitor) (s t : MonitorDb)
    → Writes m x s t
    → find? (has_monitor_id x.id) t.monitors ≡ some x
written-found m x s t (found, id, _, _, _, same) =
    subst (λ (u : MonitorDb). find? (has_monitor_id x.id) u.monitors ≡ some x) same
      (find?-update (has_monitor_id x.id) (λ _. x) s.monitors m (λ a k. ground arith)
        (subst (λ n. find? (has_monitor_id n) s.monitors ≡ some m) (sym id) found))

-- If the rows of a revision are read in the order of their insertion, the criteria of a revision that
-- is added are those that were given, for the monitor's profile, and the detail that is answered is
-- what a later call reads, with two differences: a confidence is read as its column has rounded it,
-- and the flag of a hierarchy without ids is read as false. The selected rows belong to revisions
-- that exist.
pub add_monitor_revision-detail :
    (now : Time) (id : ℕ) (d : RevisionInput) (s : MonitorDb) (y : MonitorDb × MonitorDetail)
    → AreStored s.next_revision_id s.selectors
    → add_monitor_revision now id d s ≡ ok y
    → (get_monitor_detail id y.0
        ≡ ok (record y.1 {
          revision = stored_revision y.1.revision;
          criteria = normalized y.1.criteria;
        }))
      × (y.1.criteria
          ≡ record d.criteria { coverage_profile_id = some y.1.monitor.coverage_profile_id })
unfolding get_monitor_detail
add_monitor_revision-detail now id d s y v h =
    let (m, u, here, _, revised, row, write, matches) = add_monitor_revision-parts now id d s y h in
    let parts : Revised now m (suc m.current_revision_number) d s
        (u, (y.1.revision, y.1.criteria)) =
      create_revision-parts now m (suc m.current_revision_number) d s
        (u, (y.1.revision, y.1.criteria)) revised in
    let (found, same_id, _, profile, _, kept) = write in
    let number : y.1.monitor.current_revision_number ≡ suc m.current_revision_number =
      ap (λ (x : Monitor). x.current_revision_number) row in
    let monitor : find? (has_monitor_id id) y.0.monitors ≡ some y.1.monitor =
      subst (λ n. find? (has_monitor_id n) y.0.monitors ≡ some y.1.monitor) (same_id ∙ here)
        (written-found m y.1.monitor u y.0 write) in
    let revision : find? (is_revision y.1.monitor.id y.1.monitor.current_revision_number)
          y.0.revisions
        ≡ some (stored_revision y.1.revision) =
      rw (same_id, number)
        (sym (
            ap
              (λ (t : MonitorDb).
                find? (is_revision m.id (suc m.current_revision_number)) t.revisions)
              kept)
          ∙ stored-found now m (suc m.current_revision_number) d s (u, (y.1.revision, y.1.criteria))
              parts) in
    let loaded : load_revision_criteria y.1.monitor (stored_revision y.1.revision) y.0
        ≡ normalized y.1.criteria =
      sym (ap (load_revision_criteria y.1.monitor (stored_revision y.1.revision)) kept)
      ∙ written-load y.1.monitor y.1.monitor u (stored_revision y.1.revision)
      ∙ stored-load now m y.1.monitor (suc m.current_revision_number) d s
          (u, (y.1.revision, y.1.criteria)) v profile parts in
    let counted : count (λ (x : MonitorMatch). x.monitor_id == y.1.monitor.id) y.0.matches
        ≡ y.1.match_count =
      ap (λ n. count (λ (x : MonitorMatch). x.monitor_id == n) y.0.matches) same_id ∙ sym matches in
    (
      rw (monitor, revision, loaded, counted) refl,
      sym parts.1 ∙ ap (λ p. record d.criteria { coverage_profile_id = some p }) (sym profile),
    )
