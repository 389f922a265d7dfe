-- ===== src/CalendarPolicy.antt =====
-- app/services/calendar_policy_service.py: the policy of an event for a profile, what one occurrence
-- of the event overrides, and the history of the overrides. A policy and an occurrence are locked by
-- each transaction that changes their override, so that these transactions follow each other; `now`
-- is the time that the database gives a transaction.
pub mod Tables
pub mod Changes
pub mod Transactions
pub mod Refinement
pub mod Reading
mod Examples
pub mod Listing
pub mod Restoring
pub mod Specification
use global_news_intelligence.Prelude.{
  ℕ, String, ◌==◌, Bool, true, false, not, ◌&&◌, ◌||◌, Option, none, some, List, [], ◌∷◌, ◌++◌, map,
  filter, find?, update, Result, ok, err, ◌>>=◌, ◌>>◌, raise_if, or_raise, or_else, not_found,
  invalid_update, Time, ltb, if◌then◌else◌,
}
use global_news_intelligence.Alerts.Tables.{Priority}
use Tables.{
  WatchState, ActionKind, Actor, Policy, Occurrence, Values, Override, HistoryEntry, PolicyDb,
  nulls, overrides_at, changes_at, strip, insert_override, insert_history,
}

-- `CalendarOccurrencePolicyOverrideInput`, validated
pub record OverrideInput : Type 0 where
  pub values : Values
  pub reason : String
  pub actor : Actor

-- `CalendarOccurrencePolicyOverrideDelete`
pub record OverrideDelete : Type 0 where
  pub reason : String
  pub actor : Actor

-- `CalendarOccurrencePolicyRead`
pub record PolicyRead : Type 0 where
  pub event_id : ℕ
  pub policy_id : ℕ
  pub profile_id : ℕ
  pub occurrence_id : ℕ
  pub base_monitoring_priority : Priority
  pub base_expected_news_importance : Priority
  pub base_is_watched : Bool
  pub override_id : Option ℕ
  pub override_values : Values
  pub effective_monitoring_priority : Priority
  pub effective_expected_news_importance : Priority
  pub effective_is_watched : Bool
  pub history : List HistoryEntry

-- `_scope`
unfoldable pub scope : ℕ → ℕ → ℕ → PolicyDb → Result (Policy × Occurrence)
scope event policy occurrence s = do
  p ← or_raise (find? (λ (p : Policy). p.id == policy) s.policies) not_found
  o ← or_raise (find? (λ (o : Occurrence). o.id == occurrence) s.occurrences) not_found
  raise_if (not (p.event_id == event) || not (o.event_id == event)) invalid_update
  ok (p, o)

abbrev pub is_watch : WatchState → Bool
is_watch WatchState.watch = true
is_watch WatchState.ignore = false

-- `old.monitoring_priority if old is not None else None`, and the same for the two others
abbrev pub values_of : Option Override → Values
values_of none = nulls
values_of (some x) = x.values

abbrev pub id_of : Option Override → Option ℕ
id_of none = none
id_of (some x) = some x.id

-- `ORDER BY changed_at, id`
abbrev pub is_before : HistoryEntry → HistoryEntry → Bool
is_before a b = ltb a.changed_at b.changed_at || (a.changed_at == b.changed_at && ltb a.id b.id)

unfoldable pub insert_ordered : HistoryEntry → List HistoryEntry → List HistoryEntry
insert_ordered e [] = e ∷ []
insert_ordered e (x ∷ xs) =
    let rest = insert_ordered e xs in if is_before x e then x ∷ rest else e ∷ x ∷ xs

unfoldable pub ordered : List HistoryEntry → List HistoryEntry
unfolding insert_ordered
ordered [] = []
ordered (e ∷ es) = insert_ordered e (ordered es)

unfoldable pub read_policy : ℕ → ℕ → Policy → Option Override → List HistoryEntry → PolicyRead
read_policy event occurrence p x history = record {
  event_id = event;
  policy_id = p.id;
  profile_id = p.profile_id;
  occurrence_id = occurrence;
  base_monitoring_priority = p.monitoring_priority;
  base_expected_news_importance = p.expected_news_importance;
  base_is_watched = is_watch p.watch_state;
  override_id = id_of x;
  override_values = values_of x;
  effective_monitoring_priority = or_else (values_of x).monitoring_priority p.monitoring_priority;
  effective_expected_news_importance =
      or_else (values_of x).expected_news_importance p.expected_news_importance;
  effective_is_watched = or_else (values_of x).is_watched (is_watch p.watch_state);
  history = history;
}

unfoldable pub get_occurrence_policy : ℕ → ℕ → ℕ → PolicyDb → Result PolicyRead
unfolding scope read_policy ordered
get_occurrence_policy event policy occurrence s = do
  (p, _) ← scope event policy occurrence s
  ok (
      read_policy event occurrence p (find? (overrides_at policy occurrence) s.overrides)
        (ordered (filter (changes_at policy occurrence) s.history)))

-- `_history`
unfoldable pub new_entry :
    Time → ℕ → ℕ → ActionKind → Option Override → Values → String → Actor → PolicyDb → HistoryEntry
unfolding strip
new_entry now policy occurrence action old new reason actor s = record {
  id = s.next_history_id;
  policy_id = policy;
  occurrence_id = occurrence;
  action_kind = action;
  old_values = values_of old;
  new_values = new;
  reason = strip reason;
  actor = actor;
  changed_at = now;
}

-- `"update" if override is not None else "create"`
abbrev pub action_of : Option Override → ActionKind
action_of none = ActionKind.create
action_of (some _) = ActionKind.update

unfoldable pub write_override : ℕ → ℕ → OverrideInput → Option Override → PolicyDb → Result PolicyDb
unfolding insert_override
write_override policy occurrence d none s =
    insert_override
      (record {
        id = s.next_override_id;
        policy_id = policy;
        occurrence_id = occurrence;
        values = d.values;
        actor = d.actor;
      })
      s
write_override policy occurrence d (some x) s = ok (record s {
  overrides =
      update (λ y. y.id == x.id) (λ y. record y { values = d.values; actor = d.actor }) s.overrides;
})

-- The transaction of `set_occurrence_policy`
unfoldable pub set_override : Time → ℕ → ℕ → ℕ → OverrideInput → PolicyDb → Result PolicyDb
unfolding scope new_entry insert_history write_override
set_override now event policy occurrence d s = do
  _ ← scope event policy occurrence s
  let x = find? (overrides_at policy occurrence) s.overrides
  s' ←
      insert_history (new_entry now policy occurrence (action_of x) x d.values d.reason d.actor s) s
  write_override policy occurrence d x s'

unfoldable pub set_occurrence_policy :
    Time → ℕ → ℕ → ℕ → OverrideInput → PolicyDb → Result (PolicyDb × PolicyRead)
unfolding set_override get_occurrence_policy
set_occurrence_policy now event policy occurrence d s = do
  s' ← set_override now event policy occurrence d s
  r ← get_occurrence_policy event policy occurrence s'
  ok (s', r)

-- The transaction of `delete_occurrence_policy`
unfoldable pub delete_override : Time → ℕ → ℕ → ℕ → OverrideDelete → PolicyDb → Result PolicyDb
unfolding scope new_entry insert_history
delete_override now event policy occurrence d s = do
  _ ← scope event policy occurrence s
  x ← or_raise (find? (overrides_at policy occurrence) s.overrides) invalid_update
  s' ←
      insert_history
        (new_entry now policy occurrence ActionKind.delete (some x) nulls d.reason d.actor s) s
  ok (record s' { overrides = filter (λ y. not (y.id == x.id)) s'.overrides })

unfoldable pub delete_occurrence_policy :
    Time → ℕ → ℕ → ℕ → OverrideDelete → PolicyDb → Result (PolicyDb × PolicyRead)
unfolding delete_override get_occurrence_policy
delete_occurrence_policy now event policy occurrence d s = do
  s' ← delete_override now event policy occurrence d s
  r ← get_occurrence_policy event policy occurrence s'
  ok (s', r)

-- The two loops of the comprehension in `list_event_occurrence_policies`
unfoldable pub read_each : ℕ → ℕ → List ℕ → PolicyDb → Result (List PolicyRead)
unfolding get_occurrence_policy
read_each event policy [] s = ok []
read_each event policy (o ∷ os) s = do
  r ← get_occurrence_policy event policy o s
  rs ← read_each event policy os s
  ok (r ∷ rs)

unfoldable pub read_all : ℕ → List ℕ → List ℕ → PolicyDb → Result (List PolicyRead)
unfolding read_each
read_all event [] os s = ok []
read_all event (p ∷ ps) os s = do
  rs ← read_each event p os s
  rest ← read_all event ps os s
  ok (rs ++ rest)

unfoldable pub list_event_occurrence_policies : ℕ → PolicyDb → Result (List PolicyRead)
unfolding read_all
list_event_occurrence_policies event s =
    read_all event
      (map (λ (p : Policy). p.id) (filter (λ (p : Policy). p.event_id == event) s.policies))
      (map (λ (o : Occurrence). o.id)
        (filter (λ (o : Occurrence). o.event_id == event) s.occurrences))
      s
