-- ===== src/CalendarPolicy/Restoring.antt =====
-- A deletion after a setting, in app/services/calendar_policy_service.py.
use global_news_intelligence.Prelude.{
  ℕ, ◌+◌, ◌<◌, ◌≡◌, refl, ap, subst, ◌∙◌, ◌==◌, Bool, true, false, not, none, some, List, [], ◌∷◌,
  ◌++◌, length, length-append, All, find?, filter, find?-append_one, ok, Time, Result-cases, inl,
  inr, arith,
}
use global_news_intelligence.Lease.{is_blank}
use global_news_intelligence.CalendarPolicy.Tables.{
  Policy, Occurrence, Override, PolicyDb, nulls, overrides_at, changes_at, strip,
}
use global_news_intelligence.CalendarPolicy.{
  OverrideInput, OverrideDelete, PolicyRead, scope, read_policy, ordered, set_override,
  delete_override, set_occurrence_policy, delete_occurrence_policy, get_occurrence_policy,
  values_of,
}
use global_news_intelligence.CalendarPolicy.Changes.{IsKeyed, overwritten}
use global_news_intelligence.CalendarPolicy.Transactions.{
  after_delete, found_at, set_entry, delete_entry, delete_override-value, set_override-err,
}
use global_news_intelligence.CalendarPolicy.Specification.{HasScope, scope-HasScope}
use global_news_intelligence.CalendarPolicy.Reading.{set-parts, set-after_set, Reads, get-Reads}

abbrev is_not : ℕ → Override → Bool
is_not id y = not (y.id == id)

filter-fresh :
    (n : ℕ) (x : Override) (xs : List Override)
    → x.id ≡ n
    → All (λ (y : Override). y.id < n) xs
    → filter (is_not x.id) (xs ++ x ∷ []) ≡ xs
unfolding filter
filter-fresh n x [] h v = rw (same) refl
  where
    same : (x.id == x.id) ≡ true
    same = ground arith
filter-fresh n x (y ∷ ys) h v =
    let kept : is_not x.id y ≡ true = ground (arith, v.0) in
    rw kept (ap (λ t. y ∷ t) (filter-fresh n x ys h v.1))

set_scope :
    (now : Time) (event p o : ℕ) (d : OverrideInput) (s s' : PolicyDb)
    → set_override now event p o d s ≡ ok s'
    → (w : Policy × Occurrence) × (scope event p o s ≡ ok w)
set_scope now event p o d s s' h = elim (Result-cases (scope event p o s)) [
  | inl (e, k) ↦ absurd (ground (arith, set_override-err now event p o d s e k))
  | inr (w, k) ↦ (w, k)
]

new_override : ℕ → ℕ → OverrideInput → PolicyDb → Override
new_override p o d s = record {
  id = s.next_override_id;
  policy_id = p;
  occurrence_id = o;
  values = d.values;
  actor = d.actor;
}

get_in_scope :
    (event p o : ℕ) (s : PolicyDb) (w : Policy × Occurrence)
    → scope event p o s ≡ ok w
    → (q : PolicyRead) × (get_occurrence_policy event p o s ≡ ok q)
unfolding get_occurrence_policy
get_in_scope event p o s w h = (
  read_policy event o w.0 (found_at p o s) (ordered (filter (changes_at p o) s.history)),
  rw h refl,
)

-- A first setting adds one row, under a new id.
first_set :
    (now : Time) (event p o : ℕ) (d : OverrideInput) (s s' : PolicyDb)
    → found_at p o s ≡ none
    → set_override now event p o d s ≡ ok s'
    → (s'.overrides ≡ s.overrides ++ new_override p o d s ∷ [])
      × (s'.history ≡ s.history ++ set_entry now p o d s ∷ [])
      × HasScope s s'
unfolding overwritten new_override
first_set now event p o d s s' k h =
    subst
      (λ t.
        (t.overrides ≡ s.overrides ++ new_override p o d s ∷ [])
        × (t.history ≡ s.history ++ set_entry now p o d s ∷ [])
        × HasScope s t)
      (set-after_set now event p o d s s' h) (rw k (refl, refl, (refl, refl)))

-- An override that is set where there was none, and then deleted with a reason, leaves the
-- overrides as they were, and the deletion answers with the policy's own values. The two changes
-- stay in the history.
pub delete-set_restores :
    (now later : Time) (event p o : ℕ) (d : OverrideInput) (c : OverrideDelete) (s s' : PolicyDb)
    (r : PolicyRead)
    → IsKeyed s
    → found_at p o s ≡ none
    → is_blank (strip c.reason) ≡ false
    → set_occurrence_policy now event p o d s ≡ ok (s', r)
    → (s'' : PolicyDb) × (q : PolicyRead) × (delete_occurrence_policy later event p o c s'
        ≡ ok (s'', q))
      × (s''.overrides ≡ s.overrides)
      × (length s''.history ≡ length s.history + 2)
      × Reads nulls q
unfolding delete_occurrence_policy new_override
delete-set_restores now later event p o d c s s' r v k text h =
    let (done, _) = set-parts now event p o d s s' r h in
    let (w, inside) = set_scope now event p o d s s' done in
    let (rows, entries, tables) = first_set now event p o d s s' k done in
    let x : Override = new_override p o d s in
    let found : found_at p o s' ≡ some x =
      ap (find? (overrides_at p o)) rows
      ∙ find?-append_one (overrides_at p o) s.overrides x k
      ∙ ground arith in
    let inside' : scope event p o s' ≡ ok w = scope-HasScope s s' event p o tables ∙ inside in
    let s'' : PolicyDb = after_delete later p o c x s' in
    let deleted : delete_override later event p o c s' ≡ ok s'' =
      rw (delete_override-value later event p o c s' w x inside' found, text) refl in
    let back : s''.overrides ≡ s.overrides =
      ap (filter (is_not x.id)) rows ∙ filter-fresh s.next_override_id x s.overrides refl v.fresh in
    let gone : values_of (found_at p o s'') ≡ nulls =
      ap values_of (ap (find? (overrides_at p o)) back ∙ k) in
    let (q, read) =
      get_in_scope event p o s'' w (scope-HasScope s' s'' event p o (refl, refl) ∙ inside') in
    let more : length s''.history ≡ length s.history + 2 = omega (
      arith,
      length-append s'.history (delete_entry later p o c x s' ∷ []),
      ap length entries,
      length-append s.history (set_entry now p o d s ∷ []),
    ) in
    (s'', q, rw (deleted, read) refl, back, more, get-Reads event p o s'' nulls q gone read)
