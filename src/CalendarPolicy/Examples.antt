-- ===== src/CalendarPolicy/Examples.antt =====
-- One event with two policies and two occurrences.
use global_news_intelligence.Prelude.{
  ℕ, ◌+◌, ◌*◌, ◌≤◌, ◌≡◌, refl, ◌==◌, true, false, none, some, List, [], ◌∷◌, any, filter, find?,
  update, count, length, ok, err, integrity_error, arith,
}
use global_news_intelligence.Lease.{is_blank}
use global_news_intelligence.Alerts.Tables.{Priority}
use global_news_intelligence.CalendarPolicy.Tables.{
  WatchState, ActorKind, ActionKind, Actor, Policy, Occurrence, PolicyDb, nulls, strip, strip_left,
  strip_right, is_space, insert_override, insert_history,
}
use global_news_intelligence.CalendarPolicy.{
  OverrideInput, OverrideDelete, PolicyRead, scope, read_policy, ordered, insert_ordered,
  get_occurrence_policy, new_entry, write_override, set_override, set_occurrence_policy,
  delete_override, delete_occurrence_policy, list_event_occurrence_policies,
}
use global_news_intelligence.CalendarPolicy.Changes.{IsKeyed, current, current_values}
use global_news_intelligence.CalendarPolicy.Transactions.{
  Change, sets, deletes, step, run, found_at,
}
use global_news_intelligence.CalendarPolicy.Refinement.{IsRecorded, IsAudit, replay, run-IsRecorded}
use global_news_intelligence.CalendarPolicy.Specification.{overridden, specified_run, run-refines}
use global_news_intelligence.CalendarPolicy.Reading.{Reads, set-Reads}
use global_news_intelligence.CalendarPolicy.Restoring.{delete-set_restores}
use global_news_intelligence.CalendarPolicy.Listing.{list_event_occurrence_policies-length}

abbrev policy_of : ℕ → Priority → Policy
policy_of id priority = record {
  id = id;
  event_id = 1;
  profile_id = id;
  watch_state = WatchState.watch;
  monitoring_priority = priority;
  expected_news_importance = Priority.normal;
}

abbrev calendar : PolicyDb
calendar = record {
  policies = policy_of 1 Priority.normal ∷ policy_of 2 Priority.low ∷ [];
  occurrences = record { id = 5; event_id = 1 } ∷ record { id = 6; event_id = 1 } ∷ [];
  overrides = [];
  history = [];
  next_override_id = 1;
  next_history_id = 1;
}

abbrev desk : Actor
desk = record { actor_kind = ActorKind.operator; actor_ref = some "desk"; actor_label = none }

abbrev raised : OverrideInput
raised = record {
  values = record {
    monitoring_priority = some Priority.critical;
    expected_news_importance = none;
    is_watched = some false;
  };
  reason = " summit ";
  actor = desk;
}

abbrev done : OverrideDelete
done = record { reason = "over"; actor = desk }

abbrev changes : List Change
changes =
    sets 10 1 1 5 raised ∷ deletes 11 1 2 5 done ∷ sets 12 1 1 5 raised ∷ deletes 13 1 1 5 done ∷ []

calendar-IsKeyed : IsKeyed calendar
unfolding count
calendar-IsKeyed = record { fresh = tt; ids = λ n. omega arith; keys = λ p o. omega arith }

calendar-IsRecorded : IsRecorded calendar
unfolding current current_values replay IsAudit find?
calendar-IsRecorded = record { keyed = calendar-IsKeyed; replayed = λ p o. refl; audit = λ p o. tt }

run-IsRecorded_example : IsRecorded (run calendar changes)
run-IsRecorded_example = run-IsRecorded calendar changes calendar-IsRecorded

run-refines_example :
    overridden (run calendar changes) 1 5 ≡ specified_run calendar (overridden calendar) changes 1 5
run-refines_example = run-refines calendar changes 1 5 calendar-IsKeyed

-- The reason is stripped, and one of white space only is refused.
strip_example : strip raised.reason ≡ "summit"
unfolding strip strip_left strip_right is_space
strip_example = refl

blank_reason :
    set_override 10 1 1 5 (record raised { reason = "  " }) calendar ≡ err integrity_error
unfolding set_override scope new_entry insert_history is_blank strip strip_left strip_right is_space
    find?
blank_reason = refl

-- Two entries of the history stand for the two settings, one for the deletion.
history_length : length (run calendar changes).history ≡ 3
unfolding run step set_override delete_override scope new_entry insert_history write_override
    insert_override any is_blank strip strip_left strip_right is_space find? filter update
history_length = refl

abbrev set_calendar : PolicyDb
set_calendar = record calendar {
  overrides =
      record { id = 1; policy_id = 1; occurrence_id = 5; values = raised.values; actor = desk }
      ∷ [];
  history =
      record {
        id = 1;
        policy_id = 1;
        occurrence_id = 5;
        action_kind = ActionKind.create;
        old_values = nulls;
        new_values = raised.values;
        reason = "summit";
        actor = desk;
        changed_at = 10;
      }
      ∷ [];
  next_override_id = 2;
  next_history_id = 2;
}

abbrev reading : PolicyRead
reading = record {
  event_id = 1;
  policy_id = 1;
  profile_id = 1;
  occurrence_id = 5;
  base_monitoring_priority = Priority.normal;
  base_expected_news_importance = Priority.normal;
  base_is_watched = true;
  override_id = some 1;
  override_values = raised.values;
  effective_monitoring_priority = Priority.critical;
  effective_expected_news_importance = Priority.normal;
  effective_is_watched = false;
  history = set_calendar.history;
}

first_setting : set_occurrence_policy 10 1 1 5 raised calendar ≡ ok (set_calendar, reading)
unfolding set_occurrence_policy set_override get_occurrence_policy read_policy ordered
    insert_ordered scope new_entry insert_history write_override insert_override any is_blank strip
    strip_left strip_right is_space find? filter update
first_setting = refl

set-Reads_example :
    (get_occurrence_policy 1 1 5 set_calendar ≡ ok reading) × Reads raised.values reading
set-Reads_example =
    set-Reads 10 1 1 5 raised calendar set_calendar reading calendar-IsKeyed first_setting

nothing_at : found_at 1 5 calendar ≡ none
unfolding find?
nothing_at = refl

over-has_text : is_blank (strip done.reason) ≡ false
unfolding is_blank strip strip_left strip_right is_space
over-has_text = refl

delete-set_restores_example :
    (s'' : PolicyDb) × (q : PolicyRead) × (delete_occurrence_policy 20 1 1 5 done set_calendar
      ≡ ok (s'', q))
    × (s''.overrides ≡ calendar.overrides)
    × (length s''.history ≡ length calendar.history + 2)
    × Reads nulls q
delete-set_restores_example =
    delete-set_restores 10 20 1 1 5 raised done calendar set_calendar reading calendar-IsKeyed
      nothing_at over-has_text first_setting

policy_ids : (n : ℕ) → count (λ (p : Policy). p.id == n) calendar.policies ≤ 1
unfolding count
policy_ids n = ground arith

occurrence_ids : (n : ℕ) → count (λ (o : Occurrence). o.id == n) calendar.occurrences ≤ 1
unfolding count
occurrence_ids n = ground arith

list_event_occurrence_policies-length_example :
    (rs : List PolicyRead) × (list_event_occurrence_policies 1 calendar ≡ ok rs)
    × (length rs
        ≡ count (λ (p : Policy). p.event_id == 1) calendar.policies
          * count (λ (o : Occurrence). o.event_id == 1) calendar.occurrences)
list_event_occurrence_policies-length_example =
    list_event_occurrence_policies-length 1 calendar policy_ids occurrence_ids
