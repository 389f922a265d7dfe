-- ===== src/CalendarPolicy/Reading.antt =====
-- What `get_occurrence_policy` and `list_event_occurrence_policies` read, and round trips through
-- `set_occurrence_policy` and `delete_occurrence_policy`.
use global_news_intelligence.Prelude.{
  ℕ, ◌≡◌, refl, ap, subst, ◌∙◌, some, filter, ok, Time, or_else, Option-cases, Result-cases, inl,
  inr, arith,
}
use global_news_intelligence.CalendarPolicy.Tables.{Values, PolicyDb, changes_at}
use global_news_intelligence.CalendarPolicy.{
  OverrideInput, PolicyRead, scope, read_policy, ordered, set_override, set_occurrence_policy,
  get_occurrence_policy, values_of,
}
use global_news_intelligence.CalendarPolicy.Changes.{
  IsKeyed, current, current_values, overwritten-current,
}
use global_news_intelligence.CalendarPolicy.Transactions.{
  after_set, found_at, logged, set_entry, set_override-value, set_override-err, logged-IsKeyed,
}

-- The part of a reading that depends on the base policy and the override's values.
abbrev pub Reads : Values → PolicyRead → Type 0
Reads v r =
    (r.override_values ≡ v)
    × (r.effective_monitoring_priority ≡ or_else v.monitoring_priority r.base_monitoring_priority)
    × (r.effective_expected_news_importance
        ≡ or_else v.expected_news_importance r.base_expected_news_importance)
    × (r.effective_is_watched ≡ or_else v.is_watched r.base_is_watched)

current-values_of :
    (p o : ℕ) (s : PolicyDb) (v : Values)
    → current p o s.overrides ≡ some v
    → values_of (found_at p o s) ≡ v
unfolding current current_values
current-values_of p o s v h = elim (Option-cases (found_at p o s)) [
  | inl k ↦ absurd (ground arith)
  | inr (x, k) ↦ rw k (ground arith)
]

pub get-Reads :
    (event p o : ℕ) (s : PolicyDb) (v : Values) (r : PolicyRead)
    → values_of (found_at p o s) ≡ v
    → get_occurrence_policy event p o s ≡ ok r
    → Reads v r
unfolding get_occurrence_policy read_policy
get-Reads event p o s v r h k = elim (Result-cases (scope event p o s)) [
  | inl (e, m) ↦ absurd (ground arith)
  | inr ((a, b), m) ↦
      let same : read_policy event o a (found_at p o s)
            (ordered (filter (changes_at p o) s.history))
          ≡ r =
        ground arith in
      subst (Reads v) same (rw h (refl, refl, refl, refl))
]

-- The transaction and the reading of a setting that succeeds.
pub set-parts :
    (now : Time) (event p o : ℕ) (d : OverrideInput) (s s' : PolicyDb) (r : PolicyRead)
    → set_occurrence_policy now event p o d s ≡ ok (s', r)
    → (set_override now event p o d s ≡ ok s') × (get_occurrence_policy event p o s' ≡ ok r)
unfolding set_occurrence_policy
set-parts now event p o d s s' r h = elim (Result-cases (set_override now event p o d s)) [
  | inl (e, k) ↦ absurd (ground arith)
  | inr (t, k) ↦ elim (Result-cases (get_occurrence_policy event p o t)) [
    | inl (e, m) ↦ absurd (ground arith)
    | inr (q, m) ↦
        let same : t ≡ s' = ground arith in
        let read : q ≡ r = ground arith in
        (
          k ∙ ap ok same,
          subst (λ u. get_occurrence_policy event p o u ≡ ok r) same (m ∙ ap ok read),
        )
  ]
]

pub set-after_set :
    (now : Time) (event p o : ℕ) (d : OverrideInput) (s s' : PolicyDb)
    → set_override now event p o d s ≡ ok s'
    → after_set now p o d s ≡ s'
set-after_set now event p o d s s' h = elim (Result-cases (scope event p o s)) [
  | inl (e, k) ↦ absurd (ground (arith, set_override-err now event p o d s e k))
  | inr (w, k) ↦ ground (arith, set_override-value now event p o d s w k)
]

-- A setting that succeeds answers with what a later call reads, and both show the values that were
-- set, each effective value being the one that was set or else the one of the policy. The ids and
-- the keys of the overrides are unique before.
pub set-Reads :
    (now : Time) (event p o : ℕ) (d : OverrideInput) (s s' : PolicyDb) (r : PolicyRead)
    → IsKeyed s
    → set_occurrence_policy now event p o d s ≡ ok (s', r)
    → (get_occurrence_policy event p o s' ≡ ok r) × Reads d.values r
set-Reads now event p o d s s' r v h =
    let (done, read) = set-parts now event p o d s s' r h in
    let here : current p o (after_set now p o d s).overrides ≡ some d.values =
      overwritten-current p o p o d (found_at p o s) (logged (set_entry now p o d s) s)
        (logged-IsKeyed (set_entry now p o d s) s v) refl
      ∙ ground arith in
    let written : current p o s'.overrides ≡ some d.values =
      subst (λ t. current p o t.overrides ≡ some d.values) (set-after_set now event p o d s s' done)
        here in
    (read, get-Reads event p o s' d.values r (current-values_of p o s' d.values written) read)
