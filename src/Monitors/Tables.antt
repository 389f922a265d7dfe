-- ===== src/Monitors/Tables.antt =====
-- The tables of app/models/monitor.py with their constraints, and of the other tables the columns
-- that app/services/monitor_service.py reads. Metadata and the columns that are only displayed are
-- left out.
use Prim.Native.Char.{Char, code}
use Prim.Native.String.{count as length_of}
use global_news_intelligence.Prelude.{
  ℕ, suc, ◌+◌, ◌*◌, ◌^◌, ◌/◌, String, str_eq, ◌==◌, Bool, true, false, not, ◌&&◌, ◌||◌, Option,
  none, some, List, [], ◌∷◌, ◌++◌, any, update, Result, ok, ◌>>◌, raise_if, integrity_error, Time,
  is_some, leb, ltb,
}
use global_news_intelligence.Lease.{is_blank}
use global_news_intelligence.Alerts.Tables.{AlertDb}

pub data MonitorStatus : Type 0 where
  draft active paused expired archived : MonitorStatus

pub data Trigger : Type 0 where
  activation_backfill manual_backfill manual_document ingestion enrichment : Trigger

pub data RunStatus : Type 0 where
  running succeeded failed : RunStatus

pub record Monitor : Type 0 where
  pub id : ℕ
  pub slug : String
  pub name : String
  pub description : Option String
  pub coverage_profile_id : ℕ
  pub status : MonitorStatus
  pub current_revision_number : ℕ
  pub match_existing_on_activation : Bool
  pub expires_at : Option Time
  pub activated_at : Option Time
  pub paused_at : Option Time
  pub expired_at : Option Time
  pub archived_at : Option Time

-- A `Decimal` that is not negative: `coefficient` / 10 ^ `scale`
pub record Decimal : Type 0 where
  pub coefficient : ℕ
  pub scale : ℕ

-- `MonitorRevision`
pub record Revision : Type 0 where
  pub id : ℕ
  pub monitor_id : ℕ
  pub revision_number : ℕ
  pub minimum_confidence : Option Decimal
  pub effective_from : Option Time
  pub text_query : Option String
  pub match_all_in_profile : Bool
  pub change_reason : Option String
  pub sealed_at : Option Time

-- `_MonitorRevisionMemberMixin` with the column of the selected resource
pub record Member (Key : Type 0) : Type 0 where
  pub revision_id : ℕ
  pub resource : Key

-- `_HierarchicalMonitorRevisionMemberMixin`
pub record TreeMember (Key : Type 0) : Type 0 where
  pub revision_id : ℕ
  pub resource : Key
  pub include_descendants : Bool

-- The nine tables of `REVISION_SELECTOR_MODELS`
pub record Selectors : Type 0 where
  pub geographies : List (TreeMember ℕ)
  pub topics : List (TreeMember ℕ)
  pub entities : List (Member ℕ)
  pub entity_roles : List (Member String)
  pub document_types : List (TreeMember ℕ)
  pub content_formats : List (Member String)
  pub sources : List (Member ℕ)
  pub source_types : List (TreeMember String)
  pub languages : List (Member String)

-- `MonitorEvaluationRun`
pub record EvaluationRun : Type 0 where
  pub id : ℕ
  pub monitor_id : ℕ
  pub monitor_revision_id : ℕ
  pub document_id : Option ℕ
  pub trigger_type : Trigger
  pub status : RunStatus
  pub started_at : Time
  pub completed_at : Option Time
  pub candidate_count : ℕ
  pub matched_count : ℕ
  pub new_match_count : ℕ
  pub has_error : Bool

pub record MonitorMatch : Type 0 where
  pub id : ℕ
  pub monitor_id : ℕ
  pub document_id : ℕ
  pub first_monitor_revision_id : ℕ
  pub last_monitor_revision_id : ℕ
  pub first_evaluation_run_id : Option ℕ
  pub last_evaluation_run_id : Option ℕ
  pub first_matched_at : Time
  pub last_matched_at : Time
  pub observation_count : ℕ

-- `CoverageProfile`
pub record Profile : Type 0 where
  pub id : ℕ
  pub is_default : Bool
  pub is_active : Bool

-- A row that criteria may refer to. A source has no flag, so that its rows are all active.
pub record Resource (Key : Type 0) : Type 0 where
  pub key : Key
  pub is_active : Bool

pub record Resources : Type 0 where
  pub geographies : List (Resource ℕ)
  pub topics : List (Resource ℕ)
  pub entities : List (Resource ℕ)
  pub document_types : List (Resource ℕ)
  pub content_formats : List (Resource String)
  pub source_types : List (Resource String)
  pub languages : List (Resource String)
  pub sources : List ℕ

-- `alerting` has the tables of alerts and the documents; its monitors and matches are those of this
-- record, in the columns that alerts read.
pub record MonitorDb : Type 0 where
  pub profiles : List Profile
  pub resources : Resources
  pub monitors : List Monitor
  pub revisions : List Revision
  pub selectors : Selectors
  pub runs : List EvaluationRun
  pub matches : List MonitorMatch
  pub alerting : AlertDb
  pub next_monitor_id : ℕ
  pub next_revision_id : ℕ
  pub next_run_id : ℕ
  pub next_match_id : ℕ

abbrev pub is_active_status : MonitorStatus → Bool
is_active_status MonitorStatus.active = true
is_active_status _ = false

abbrev pub is_archived : MonitorStatus → Bool
is_archived MonitorStatus.archived = true
is_archived _ = false

abbrev pub is_paused : MonitorStatus → Bool
is_paused MonitorStatus.paused = true
is_paused _ = false

-- `status in {"draft", "paused"}`
abbrev pub is_revisable : MonitorStatus → Bool
is_revisable MonitorStatus.draft = true
is_revisable MonitorStatus.paused = true
is_revisable _ = false

-- The checks `active_timestamp`, `paused_timestamp`, `expired_timestamp` and `archived_timestamp`
abbrev pub has_timestamp : Monitor → Bool
has_timestamp m = elim m.status [
  | MonitorStatus.draft ↦ true
  | MonitorStatus.active ↦ is_some m.activated_at
  | MonitorStatus.paused ↦ is_some m.paused_at
  | MonitorStatus.expired ↦ is_some m.expired_at
  | MonitorStatus.archived ↦ is_some m.archived_at
]

-- `expires_at is not None and expires_at <= now`
abbrev pub is_due : Option Time → Time → Bool
is_due none now = false
is_due (some t) now = leb t now

-- `[a-z0-9]`
abbrev pub is_word : Char → Bool
is_word c = (leb 97 (code c) && leb (code c) 122) || (leb 48 (code c) && leb (code c) 57)

-- `^[a-z0-9]+(_[a-z0-9]+)*$`, and what may follow one of its words
unfoldable pub continues_slug : Bool → String → Bool
continues_slug started String.[] = started
continues_slug started (String.◌∷◌ c text) =
    let word = continues_slug true text in
    let next = continues_slug false text in (is_word c && word) || (started && code c == 95 && next)

unfoldable pub is_slug : String → Bool
unfolding continues_slug
is_slug text = continues_slug false text

-- The checks on a monitor's row
unfoldable pub satisfies_checks : Monitor → Bool
unfolding is_slug
satisfies_checks m =
    is_slug m.slug && not (is_blank m.name) && ltb 0 m.current_revision_number && has_timestamp m

abbrev pub has_monitor_id : ℕ → Monitor → Bool
has_monitor_id id m = m.id == id

abbrev pub has_slug : String → Monitor → Bool
has_slug slug m = str_eq m.slug slug

-- `get_revision`
abbrev pub is_revision : ℕ → ℕ → Revision → Bool
is_revision monitor number r = r.monitor_id == monitor && r.revision_number == number

-- The check `text_query`
unfoldable pub is_query : Option String → Bool
is_query none = true
is_query (some text) = not (is_blank text) && leb (length_of text) 500

-- `Numeric(5, 4)` rounds to four decimals, halves up; the value is not negative.
unfoldable pub rounded : Decimal → Decimal
rounded d = record {
  coefficient = (2 * d.coefficient * 10000 + 10 ^ d.scale) / (2 * 10 ^ d.scale);
  scale = 4;
}

unfoldable pub rounded_confidence : Option Decimal → Option Decimal
unfolding rounded
rounded_confidence none = none
rounded_confidence (some d) = some (rounded d)

-- The row of a revision, whose object keeps the confidence that it was given.
abbrev pub stored_revision : Revision → Revision
stored_revision r = record r { minimum_confidence = rounded_confidence r.minimum_confidence }

-- `minimum_confidence BETWEEN 0 AND 1`, for a stored value
unfoldable pub is_confidence : Option Decimal → Bool
is_confidence none = true
is_confidence (some d) = leb d.coefficient (10 ^ d.scale)

-- `create_monitor` of the repository
unfoldable pub insert_monitor : Monitor → MonitorDb → Result MonitorDb
unfolding satisfies_checks
insert_monitor m s = do
  raise_if (not (satisfies_checks m)) integrity_error
  raise_if (any (has_slug m.slug) s.monitors) integrity_error
  ok (record s { monitors = s.monitors ++ m ∷ []; next_monitor_id = suc s.next_monitor_id })

-- `create_revision` of the repository
unfoldable pub insert_revision : Revision → MonitorDb → Result MonitorDb
unfolding is_query is_confidence rounded_confidence
insert_revision r s = do
  raise_if
      (not (
        ltb 0 r.revision_number
        && is_query r.text_query
        && is_confidence (rounded_confidence r.minimum_confidence)))
      integrity_error
  raise_if (any (is_revision r.monitor_id r.revision_number) s.revisions) integrity_error
  ok (record s {
    revisions = s.revisions ++ stored_revision r ∷ [];
    next_revision_id = suc s.next_revision_id;
  })

-- The row is written back, under its checks.
unfoldable pub put_monitor : Monitor → MonitorDb → Result MonitorDb
unfolding satisfies_checks
put_monitor m s = do
  raise_if (not (satisfies_checks m)) integrity_error
  ok (record s { monitors = update (has_monitor_id m.id) (λ _. m) s.monitors })
