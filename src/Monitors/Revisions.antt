-- ===== src/Monitors/Revisions.antt =====
-- Revisions of monitors in app/services/monitor_service.py: `create_monitor`, `update_monitor` and
-- `add_monitor_revision`, each one transaction, which locks the monitor that it changes. Times that
-- they read from the clock are arguments.
use global_news_intelligence.Prelude.{
  ℕ, suc, String, ◌==◌, Bool, not, ◌&&◌, Option, none, some, find?, any, count, Result, Error, ok,
  err, ◌>>=◌, ◌>>◌, raise_if, or_raise, or_else, not_found, invalid_update, conflict, unavailable,
  integrity_error, Time,
}
use global_news_intelligence.Monitors.Tables.{
  MonitorStatus, Monitor, Revision, MonitorMatch, Profile, MonitorDb, is_active_status, is_archived,
  is_revisable, has_monitor_id, has_slug, is_revision, is_due, insert_monitor, insert_revision,
  put_monitor,
}
use global_news_intelligence.Monitors.CriteriaTables.{
  Criteria, references_exist, criteria_for_profile, add_selectors, load_revision_criteria,
}

-- `MonitorRevisionInput`
pub record RevisionInput : Type 0 where
  pub criteria : Criteria
  pub match_all_in_profile : Bool
  pub change_reason : Option String

-- `MonitorCreate`, validated
pub record MonitorCreate : Type 0 where
  pub slug : String
  pub name : String
  pub description : Option String
  pub revision : RevisionInput
  pub match_existing_on_activation : Bool
  pub expires_at : Option Time

-- `MonitorUpdate`: a field that is not set, one that is set to null, or a value
pub record MonitorUpdate : Type 0 where
  pub name : Option (Option String)
  pub description : Option (Option String)
  pub match_existing_on_activation : Option (Option Bool)
  pub expires_at : Option (Option Time)

-- `MonitorDetail`
pub record MonitorDetail : Type 0 where
  pub monitor : Monitor
  pub revision : Revision
  pub criteria : Criteria
  pub match_count : ℕ

abbrev find_profile : Option ℕ → MonitorDb → Option Profile
find_profile none s = find? (λ (p : Profile). p.is_default) s.profiles
find_profile (some id) s = find? (λ (p : Profile). p.id == id) s.profiles

abbrev missing_profile : Option ℕ → Error
missing_profile none = unavailable
missing_profile (some _) = not_found

-- `_require_profile`
unfoldable pub require_profile : Option ℕ → MonitorDb → Result Profile
require_profile id s = do
  p ← or_raise (find_profile id s) (missing_profile id)
  raise_if (not p.is_active) invalid_update
  ok p

unfoldable pub new_revision : Monitor → ℕ → RevisionInput → Criteria → Time → ℕ → Revision
new_revision m number d c now id = record {
  id = id;
  monitor_id = m.id;
  revision_number = number;
  minimum_confidence = c.minimum_confidence;
  effective_from = c.effective_from;
  text_query = c.text_query;
  match_all_in_profile = d.match_all_in_profile;
  change_reason = d.change_reason;
  sealed_at = some now;
}

-- `_create_revision`, which seals the revision in the same transaction
unfoldable pub create_revision :
    Time → Monitor → ℕ → RevisionInput → MonitorDb → Result (MonitorDb × (Revision × Criteria))
unfolding new_revision
create_revision now m number d s = do
  c ← criteria_for_profile d.criteria m.coverage_profile_id
  raise_if (not (references_exist s.resources c)) not_found
  let r = new_revision m number d c now s.next_revision_id
  s' ← insert_revision r s
  s'' ← add_selectors r.id c s'
  ok (s'', (r, c))

unfoldable pub new_monitor : MonitorCreate → Profile → ℕ → Monitor
new_monitor d p id = record {
  id = id;
  slug = d.slug;
  name = d.name;
  description = d.description;
  coverage_profile_id = p.id;
  status = MonitorStatus.draft;
  current_revision_number = 1;
  match_existing_on_activation = d.match_existing_on_activation;
  expires_at = d.expires_at;
  activated_at = none;
  paused_at = none;
  expired_at = none;
  archived_at = none;
}

unfoldable pub create_monitor_in_transaction :
    Time → MonitorCreate → MonitorDb → Result (MonitorDb × MonitorDetail)
unfolding require_profile new_monitor create_revision
create_monitor_in_transaction now d s = do
  raise_if (any (has_slug d.slug) s.monitors) conflict
  p ← require_profile d.revision.criteria.coverage_profile_id s
  let m = new_monitor d p s.next_monitor_id
  s' ← insert_monitor m s
  (s'', (r, c)) ← create_revision now m 1 d.revision s'
  ok (s'', record { monitor = m; revision = r; criteria = c; match_count = 0 })

-- `except IntegrityError`
unfoldable pub as_conflict {ℓ} : {A : Type ℓ} → Result A → Result A
as_conflict (ok a) = ok a
as_conflict (err integrity_error) = err conflict
as_conflict (err e) = err e

unfoldable pub create_monitor :
    Time → MonitorCreate → MonitorDb → Result (MonitorDb × MonitorDetail)
unfolding create_monitor_in_transaction as_conflict
create_monitor now d s = as_conflict (create_monitor_in_transaction now d s)

abbrev pub count_monitor_matches : ℕ → MonitorDb → ℕ
count_monitor_matches id s = count (λ (m : MonitorMatch). m.monitor_id == id) s.matches

unfoldable pub get_monitor_detail : ℕ → MonitorDb → Result MonitorDetail
get_monitor_detail id s = do
  m ← or_raise (find? (has_monitor_id id) s.monitors) not_found
  r ← or_raise (find? (is_revision m.id m.current_revision_number) s.revisions) unavailable
  ok (record {
    monitor = m;
    revision = r;
    criteria = load_revision_criteria m r s;
    match_count = count_monitor_matches m.id s;
  })

-- `setattr` of a column that may not be null
abbrev pub set_required {ℓ} : {A : Type ℓ} → Option (Option A) → A → Result A
set_required none a = ok a
set_required (some none) a = err integrity_error
set_required (some (some b)) a = ok b

unfoldable pub update_monitor : Time → ℕ → MonitorUpdate → MonitorDb → Result (MonitorDb × Monitor)
update_monitor now id d s = do
  m ← or_raise (find? (has_monitor_id id) s.monitors) not_found
  raise_if (is_archived m.status) invalid_update
  raise_if (is_active_status m.status && is_due (or_else d.expires_at none) now) invalid_update
  name ← set_required d.name m.name
  matches ← set_required d.match_existing_on_activation m.match_existing_on_activation
  let m' = record m {
    name = name;
    description = or_else d.description m.description;
    match_existing_on_activation = matches;
    expires_at = or_else d.expires_at m.expires_at;
  }
  s' ← put_monitor m' s
  ok (s', m')

-- The transaction of `add_monitor_revision`
unfoldable pub revise : Time → ℕ → RevisionInput → MonitorDb → Result (MonitorDb × MonitorDetail)
unfolding create_revision
revise now id d s = do
  m ← or_raise (find? (has_monitor_id id) s.monitors) not_found
  raise_if (not (is_revisable m.status)) invalid_update
  (s', (r, c)) ← create_revision now m (suc m.current_revision_number) d s
  let m' = record m { current_revision_number = suc m.current_revision_number }
  s'' ← put_monitor m' s'
  ok (
    s'',
    record {
      monitor = m';
      revision = r;
      criteria = c;
      match_count = count_monitor_matches m.id s'';
    },
  )

unfoldable pub add_monitor_revision :
    Time → ℕ → RevisionInput → MonitorDb → Result (MonitorDb × MonitorDetail)
unfolding revise as_conflict
add_monitor_revision now id d s = as_conflict (revise now id d s)
