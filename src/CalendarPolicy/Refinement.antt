-- ===== src/CalendarPolicy/Refinement.antt =====
-- The overrides as a map from policies and occurrences to values, and the history as its record.
use global_news_intelligence.Prelude.{
  ℕ, ◌≡◌, refl, sym, ap, subst, ◌∙◌, Bool, true, not, Option, none, some, List, [], ◌∷◌, ◌++◌, Time,
  is_some, if◌then◌else◌, Option-cases, inl, inr, arith, or_else, is_some,
}
use global_news_intelligence.CalendarPolicy.Tables.{
  ActionKind, Values, Override, HistoryEntry, PolicyDb, nulls, changes_at,
}
use global_news_intelligence.CalendarPolicy.{
  OverrideInput, OverrideDelete, values_of, new_entry, action_of,
}
use global_news_intelligence.CalendarPolicy.Changes.{
  IsKeyed, current, current_values, is_at, overwritten-current, overwritten-IsKeyed,
  deleted-current, deleted-IsKeyed,
}
use global_news_intelligence.CalendarPolicy.Transactions.{
  Change, step, run, step-induction, after_set, after_delete, found_at, set_entry, delete_entry,
  logged, logged-IsKeyed, overwritten-history,
}

-- What one entry of the history makes of the values.
abbrev pub outcome : HistoryEntry → Option Values
outcome e = elim e.action_kind [ ActionKind.delete ↦ none | _ ↦ some e.new_values ]

unfoldable pub replay : ℕ → ℕ → Option Values → List HistoryEntry → Option Values
replay p o v [] = v
replay p o v (e ∷ es) = replay p o (if changes_at p o e then outcome e else v) es

-- An entry that creates finds nothing, and one that updates or deletes finds a row.
abbrev pub fits : ActionKind → Option Values → Bool
fits ActionKind.create v = not (is_some v)
fits ActionKind.update v = is_some v
fits ActionKind.delete v = is_some v

-- Each entry at a policy and an occurrence tells the values that the ones before it left.
unfoldable pub IsAudit : ℕ → ℕ → Option Values → List HistoryEntry → Type 0
IsAudit p o v [] = Unit
IsAudit p o v (e ∷ es) =
    (changes_at p o e ≡ true → (e.old_values ≡ or_else v nulls) × (fits e.action_kind v ≡ true))
    × IsAudit p o (if changes_at p o e then outcome e else v) es

pub replay-append :
    (p o : ℕ) (v : Option Values) (es : List HistoryEntry) (e : HistoryEntry)
    → replay p o v (es ++ e ∷ []) ≡ (if changes_at p o e then outcome e else replay p o v es)
unfolding replay
replay-append p o v [] e = refl
replay-append p o v (x ∷ es) e = replay-append p o (if changes_at p o x then outcome x else v) es e

append-IsAudit :
    (p o : ℕ) (v : Option Values) (es : List HistoryEntry) (e : HistoryEntry)
    → IsAudit p o v es
    → (changes_at p o e ≡ true
        → (e.old_values ≡ or_else (replay p o v es) nulls)
          × (fits e.action_kind (replay p o v es) ≡ true))
    → IsAudit p o v (es ++ e ∷ [])
unfolding replay IsAudit
append-IsAudit p o v [] e a k = (k, tt)
append-IsAudit p o v (x ∷ es) e a k =
    (a.0, append-IsAudit p o (if changes_at p o x then outcome x else v) es e a.1 k)

-- The overrides are what the history replays to, and the history is an audit of them.
pub record IsRecorded (s : PolicyDb) : Type 0 where
  pub keyed : IsKeyed s
  pub replayed : (p o : ℕ) → current p o s.overrides ≡ replay p o none s.history
  pub audit : (p o : ℕ) → IsAudit p o none s.history

values_of-current : (x : Option Override) → values_of x ≡ or_else (current_values x) nulls
unfolding current_values
values_of-current none = refl
values_of-current (some x) = refl

fits-action_of : (x : Option Override) → fits (action_of x) (current_values x) ≡ true
unfolding current_values
fits-action_of none = refl
fits-action_of (some x) = refl

outcome-set :
    (now : Time) (p o : ℕ) (d : OverrideInput) (s : PolicyDb)
    → outcome (set_entry now p o d s) ≡ some d.values
unfolding new_entry
outcome-set now p o d s = elim (Option-cases (found_at p o s)) [
  | inl k ↦ rw k refl
  | inr (x, k) ↦ rw k refl
]

found_at-replay :
    (p o p' o' : ℕ) (s : PolicyDb)
    → IsRecorded s
    → is_at p o p' o' ≡ true
    → current_values (found_at p o s) ≡ replay p' o' none s.history
unfolding current
found_at-replay p o p' o' s v h =
    let first : p ≡ p' = ground arith in
    let second : o ≡ o' = ground arith in
    v.replayed p o
    ∙ ap (λ a. replay a o none s.history) first
    ∙ ap (λ a. replay p' a none s.history) second

set-IsRecorded :
    (now : Time) (event p o : ℕ) (d : OverrideInput) (s : PolicyDb)
    → IsRecorded s
    → IsRecorded (after_set now p o d s)
unfolding new_entry
set-IsRecorded now event p o d s v = record {
  keyed = overwritten-IsKeyed p o d (found_at p o s) before (logged-IsKeyed entry s v.keyed) refl;
  replayed = λ p' o'.
      overwritten-current p o p' o' d (found_at p o s) before (logged-IsKeyed entry s v.keyed) refl
      ∙ sym (
          rw
            (
              same_history,
              replay-append p' o' none s.history entry,
              outcome-set now p o d s,
              v.replayed p' o',
            )
            refl);
  audit = λ p' o'. subst (IsAudit p' o' none) (sym same_history) (
      append-IsAudit p' o' none s.history entry (v.audit p' o') (λ here.
        let now_at : current_values (found_at p o s) ≡ replay p' o' none s.history =
          found_at-replay p o p' o' s v here in
        (
          values_of-current (found_at p o s) ∙ ap (λ a. or_else a nulls) now_at,
          subst (λ a. fits (action_of (found_at p o s)) a ≡ true) now_at
              (fits-action_of (found_at p o s)),
        )));
}
  where
    entry : HistoryEntry
    entry = set_entry now p o d s

    before : PolicyDb
    before = logged entry s

    same_history : (after_set now p o d s).history ≡ s.history ++ entry ∷ []
    same_history = overwritten-history p o d (found_at p o s) before

delete-IsRecorded :
    (now : Time) (event p o : ℕ) (d : OverrideDelete) (x : Override) (s : PolicyDb)
    → found_at p o s ≡ some x
    → IsRecorded s
    → IsRecorded (after_delete now p o d x s)
unfolding new_entry current_values
delete-IsRecorded now event p o d x s k v = record {
  keyed = deleted-IsKeyed x before (logged-IsKeyed entry s v.keyed);
  replayed = λ p' o'.
      deleted-current p o p' o' x before (logged-IsKeyed entry s v.keyed) k
      ∙ sym (rw (replay-append p' o' none s.history entry, v.replayed p' o') refl);
  audit = λ p' o'. append-IsAudit p' o' none s.history entry (v.audit p' o') (λ here.
      let now_at : some x.values ≡ replay p' o' none s.history =
        sym (ap current_values k) ∙ found_at-replay p o p' o' s v here in
      (ap (λ a. or_else a nulls) now_at, subst (λ a. is_some a ≡ true) now_at refl));
}
  where
    entry : HistoryEntry
    entry = delete_entry now p o d x s

    before : PolicyDb
    before = logged entry s

-- From tables whose overrides the history accounts for, every sequence of settings and deletions,
-- failed ones included, leaves such tables: at each policy and occurrence there is at most one
-- override, its values are those to which the entries of the history replay, and each entry tells
-- as its old values what the entries before it left, with the action that fits.
pub run-IsRecorded : (s : PolicyDb) (cs : List Change) → IsRecorded s → IsRecorded (run s cs)
unfolding run
run-IsRecorded s [] v = v
run-IsRecorded s (c ∷ cs) v =
    run-IsRecorded (step s c) cs (step-induction IsRecorded set-IsRecorded delete-IsRecorded s c v)
