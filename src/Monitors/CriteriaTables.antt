-- ===== src/Monitors/CriteriaTables.antt =====
-- `DocumentMatchCriteria` of app/schemas/document_match.py, its references, and how
-- app/services/monitor_service.py and app/repositories/monitor_repository.py store and load it. The
-- queries for the rows of a revision have no order; they are read here in the order of their insertion.
use global_news_intelligence.Prelude.{
  ℕ, String, str_eq, ◌==◌, Bool, true, false, not, ◌&&◌, ◌||◌, Option, none, some, List, [], ◌∷◌,
  ◌++◌, map, any, all, filter, Result, ok, ◌>>◌, raise_if, invalid_update, integrity_error, Time,
  is_some,
}
use global_news_intelligence.Lease.{is_blank}
use global_news_intelligence.Monitors.Tables.{
  Decimal, Monitor, Revision, Member, TreeMember, Selectors, Resource, Resources, MonitorDb,
}

-- `HierarchyIdMatch` and `HierarchySlugMatch`
pub record HierarchyMatch (Key : Type 0) : Type 0 where
  pub ids : List Key
  pub include_descendants : Bool

-- `DocumentMatchCriteria`
pub record Criteria : Type 0 where
  pub coverage_profile_id : Option ℕ
  pub geographies : HierarchyMatch ℕ
  pub topics : HierarchyMatch ℕ
  pub entity_ids : List ℕ
  pub entity_roles : List String
  pub document_types : HierarchyMatch ℕ
  pub content_format_slugs : List String
  pub source_ids : List ℕ
  pub source_types : HierarchyMatch String
  pub language_tags : List String
  pub minimum_confidence : Option Decimal
  pub effective_from : Option Time
  pub text_query : Option String

-- `bool(values)`
abbrev pub is_nonempty {ℓ} : {A : Type ℓ} → List A → Bool
is_nonempty [] = false
is_nonempty (_ ∷ _) = true

-- `_criteria_has_explicit_filter`
unfoldable pub has_explicit_filter : Criteria → Bool
has_explicit_filter c =
    is_nonempty c.geographies.ids
    || is_nonempty c.topics.ids
    || is_nonempty c.entity_ids
    || is_nonempty c.entity_roles
    || is_nonempty c.document_types.ids
    || is_nonempty c.content_format_slugs
    || is_nonempty c.source_ids
    || is_nonempty c.source_types.ids
    || is_nonempty c.language_tags
    || is_some c.effective_from
    || is_some c.text_query

-- `_active_values` and `_missing`: each requested value is the key of an active row.
unfoldable pub all_active :
    {Key : Type 0} → (Key → Key → Bool) → List (Resource Key) → List Key → Bool
all_active eq rows requested = all (λ k. any (λ r. eq r.key k && r.is_active) rows) requested

-- `_validate_criteria_references`
unfoldable pub references_exist : Resources → Criteria → Bool
unfolding all_active
references_exist r c =
    all_active ◌==◌ r.geographies c.geographies.ids
    && all_active ◌==◌ r.topics c.topics.ids
    && all_active ◌==◌ r.entities c.entity_ids
    && all_active ◌==◌ r.document_types c.document_types.ids
    && all_active str_eq r.content_formats c.content_format_slugs
    && all_active str_eq r.source_types c.source_types.ids
    && all_active str_eq r.languages c.language_tags
    && all (λ k. any (λ id. id == k) r.sources) c.source_ids

abbrev pub is_other_profile : Option ℕ → ℕ → Bool
is_other_profile none profile = false
is_other_profile (some id) profile = not (id == profile)

-- `_criteria_for_profile`
unfoldable pub criteria_for_profile : Criteria → ℕ → Result Criteria
criteria_for_profile c profile = do
  raise_if (is_other_profile c.coverage_profile_id profile) invalid_update
  ok (record c { coverage_profile_id = some profile })

abbrev pub members : {Key : Type 0} → ℕ → List Key → List (Member Key)
members revision keys = map (λ k. record { revision_id = revision; resource = k }) keys

abbrev pub tree_members : {Key : Type 0} → ℕ → HierarchyMatch Key → List (TreeMember Key)
tree_members revision h =
    map
      (λ k. record {
        revision_id = revision;
        resource = k;
        include_descendants = h.include_descendants;
      })
      h.ids

-- `_revision_selector_rows` and `session.add_all`
unfoldable pub add_rows : ℕ → Criteria → Selectors → Selectors
add_rows revision c s = record {
  geographies = s.geographies ++ tree_members revision c.geographies;
  topics = s.topics ++ tree_members revision c.topics;
  entities = s.entities ++ members revision c.entity_ids;
  entity_roles = s.entity_roles ++ members revision c.entity_roles;
  document_types = s.document_types ++ tree_members revision c.document_types;
  content_formats = s.content_formats ++ members revision c.content_format_slugs;
  sources = s.sources ++ members revision c.source_ids;
  source_types = s.source_types ++ tree_members revision c.source_types;
  languages = s.languages ++ members revision c.language_tags;
}

-- The primary keys: no resource twice in one revision, which is new.
unfoldable pub has_repeats : {Key : Type 0} → (Key → Key → Bool) → List Key → Bool
has_repeats eq [] = false
has_repeats eq (k ∷ ks) = any (eq k) ks || has_repeats eq ks

unfoldable pub keys_repeat : Criteria → Bool
unfolding has_repeats
keys_repeat c =
    has_repeats ◌==◌ c.geographies.ids
    || has_repeats ◌==◌ c.topics.ids
    || has_repeats ◌==◌ c.entity_ids
    || has_repeats str_eq c.entity_roles
    || has_repeats ◌==◌ c.document_types.ids
    || has_repeats str_eq c.content_format_slugs
    || has_repeats ◌==◌ c.source_ids
    || has_repeats str_eq c.source_types.ids
    || has_repeats str_eq c.language_tags

-- `add_revision_selectors`, under the primary keys and the check on a role
unfoldable pub add_selectors : ℕ → Criteria → MonitorDb → Result MonitorDb
unfolding add_rows keys_repeat
add_selectors revision c s = do
  raise_if (keys_repeat c || any is_blank c.entity_roles) integrity_error
  ok (record s { selectors = add_rows revision c s.selectors })

abbrev pub belongs : {Key : Type 0} → ℕ → Member Key → Bool
belongs revision m = m.revision_id == revision

abbrev pub tree_belongs : {Key : Type 0} → ℕ → TreeMember Key → Bool
tree_belongs revision m = m.revision_id == revision

abbrev pub load : {Key : Type 0} → ℕ → List (Member Key) → List Key
load revision rows = map (λ m. m.resource) (filter (belongs revision) rows)

abbrev pub load_tree : {Key : Type 0} → ℕ → List (TreeMember Key) → HierarchyMatch Key
load_tree revision rows = record {
  ids = map (λ m. m.resource) (filter (tree_belongs revision) rows);
  include_descendants = any (λ m. m.include_descendants) (filter (tree_belongs revision) rows);
}

unfoldable pub load_revision_criteria : Monitor → Revision → MonitorDb → Criteria
load_revision_criteria m r s = record {
  coverage_profile_id = some m.coverage_profile_id;
  geographies = load_tree r.id s.selectors.geographies;
  topics = load_tree r.id s.selectors.topics;
  entity_ids = load r.id s.selectors.entities;
  entity_roles = load r.id s.selectors.entity_roles;
  document_types = load_tree r.id s.selectors.document_types;
  content_format_slugs = load r.id s.selectors.content_formats;
  source_ids = load r.id s.selectors.sources;
  source_types = load_tree r.id s.selectors.source_types;
  language_tags = load r.id s.selectors.languages;
  minimum_confidence = r.minimum_confidence;
  effective_from = r.effective_from;
  text_query = r.text_query;
}
