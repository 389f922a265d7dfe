-- ===== src/CalendarPolicy/Tables.antt =====
-- The tables behind app/services/calendar_policy_service.py: coverage policies and occurrences of
-- app/models/calendar.py, the overrides with their unique constraint, and the history of
-- app/models/calendar_inference.py with its check. Columns that the service does not read are left
-- out, and so is the metadata of an override, which is always empty.
use Prim.Native.Char.{Char, code}
use global_news_intelligence.Prelude.{
  ℕ, ◌+◌, String, str_eq, ◌==◌, Bool, ◌&&◌, ◌||◌, Option, none, List, [], ◌∷◌, ◌++◌, any, Result,
  ok, ◌>>◌, raise_if, integrity_error, Time, leb, if◌then◌else◌,
}
use global_news_intelligence.Lease.{is_blank}
use global_news_intelligence.Alerts.Tables.{Priority}

pub data WatchState : Type 0 where
  watch ignore : WatchState

pub data ActorKind : Type 0 where
  operator system import internal_agent external_model : ActorKind

pub data ActionKind : Type 0 where
  create update delete : ActionKind

pub record Actor : Type 0 where
  pub actor_kind : ActorKind
  pub actor_ref : Option String
  pub actor_label : Option String

-- `IntelligenceCalendarEventCoveragePolicy`
pub record Policy : Type 0 where
  pub id : ℕ
  pub event_id : ℕ
  pub profile_id : ℕ
  pub watch_state : WatchState
  pub monitoring_priority : Priority
  pub expected_news_importance : Priority

-- `IntelligenceCalendarEventOccurrence`
pub record Occurrence : Type 0 where
  pub id : ℕ
  pub event_id : ℕ

-- The three columns that an occurrence may override, null where it does not.
pub record Values : Type 0 where
  pub monitoring_priority : Option Priority
  pub expected_news_importance : Option Priority
  pub is_watched : Option Bool

pub record Override : Type 0 where
  pub id : ℕ
  pub policy_id : ℕ
  pub occurrence_id : ℕ
  pub values : Values
  pub actor : Actor

-- A row of the history, with the old and the new values.
pub record HistoryEntry : Type 0 where
  pub id : ℕ
  pub policy_id : ℕ
  pub occurrence_id : ℕ
  pub action_kind : ActionKind
  pub old_values : Values
  pub new_values : Values
  pub reason : String
  pub actor : Actor
  pub changed_at : Time

pub record PolicyDb : Type 0 where
  pub policies : List Policy
  pub occurrences : List Occurrence
  pub overrides : List Override
  pub history : List HistoryEntry
  pub next_override_id : ℕ
  pub next_history_id : ℕ

abbrev pub nulls : Values
nulls = record { monitoring_priority = none; expected_news_importance = none; is_watched = none }

-- The `WHERE` clauses on a policy and an occurrence.
abbrev pub overrides_at : ℕ → ℕ → Override → Bool
overrides_at policy occurrence x = x.policy_id == policy && x.occurrence_id == occurrence

abbrev pub changes_at : ℕ → ℕ → HistoryEntry → Bool
changes_at policy occurrence e = e.policy_id == policy && e.occurrence_id == occurrence

-- The characters for which `str.isspace` holds.
unfoldable pub is_space : Char → Bool
is_space c =
    (leb 9 (code c) && leb (code c) 13)
    || (leb 28 (code c) && leb (code c) 32)
    || code c == 133
    || code c == 160
    || code c == 5760
    || (leb 8192 (code c) && leb (code c) 8202)
    || code c == 8232
    || code c == 8233
    || code c == 8239
    || code c == 8287
    || code c == 12288

unfoldable pub strip_left : String → String
unfolding is_space
strip_left String.[] = ""
strip_left (String.◌∷◌ c text) =
    let rest = strip_left text in if is_space c then rest else String.◌∷◌ c text

unfoldable pub strip_right : String → String
unfolding is_space
strip_right String.[] = ""
strip_right (String.◌∷◌ c text) =
    let rest = strip_right text in if is_space c && str_eq rest "" then "" else String.◌∷◌ c rest

-- `value.strip()`
unfoldable pub strip : String → String
unfolding strip_left strip_right
strip text = strip_right (strip_left text)

-- The unique constraint on the policy and the occurrence
unfoldable pub insert_override : Override → PolicyDb → Result PolicyDb
insert_override x s = do
  raise_if (any (overrides_at x.policy_id x.occurrence_id) s.overrides) integrity_error
  ok (record s { overrides = s.overrides ++ x ∷ []; next_override_id = s.next_override_id + 1 })

-- The check on the reason
unfoldable pub insert_history : HistoryEntry → PolicyDb → Result PolicyDb
insert_history e s = do
  raise_if (is_blank e.reason) integrity_error
  ok (record s { history = s.history ++ e ∷ []; next_history_id = s.next_history_id + 1 })
