-- ===== src/CalendarPolicy/Specification.antt =====
-- The overrides as one map from policies and occurrences to values, which a change writes at its
-- place.
use global_news_intelligence.Prelude.{
  ℕ, ◌≡◌, refl, ◌∙◌, Bool, true, false, not, ◌&&◌, Option, none, some, List, [], ◌∷◌, Result, ok,
  err, is_some, if◌then◌else◌, Bool-cases, Option-cases, Result-cases, inl, inr,
}
use global_news_intelligence.Lease.{is_blank}
use global_news_intelligence.CalendarPolicy.Tables.{Values, Override, PolicyDb, strip}
use global_news_intelligence.CalendarPolicy.{OverrideInput, scope}
use global_news_intelligence.CalendarPolicy.Changes.{
  IsKeyed, current, current_values, is_at, overwritten, overwritten-current, overwritten-IsKeyed,
  deleted-current, deleted-IsKeyed,
}
use global_news_intelligence.CalendarPolicy.Transactions.{
  Change, sets, deletes, step, run, step-induction, found_at, logged, set_entry, delete_entry,
  set_override-value, delete_override-value, delete_override-none, set_override-err,
  delete_override-err, logged-IsKeyed,
}

abbrev pub Overridden : Type 0
Overridden = ℕ → ℕ → Option Values

abbrev pub assign : ℕ → ℕ → Option Values → Overridden → Overridden
assign p o v m p' o' = if is_at p o p' o' then v else m p' o'

abbrev pub succeeds {ℓ} : {A : Type ℓ} → Result A → Bool
succeeds (ok _) = true
succeeds (err _) = false

-- A setting is accepted in its scope if it gives a reason, a deletion also needs an override.
unfoldable pub specified : PolicyDb → Overridden → Change → Overridden
specified s m (sets now event p o d) =
    if succeeds (scope event p o s) && not (is_blank (strip d.reason))
    then assign p o (some d.values) m
    else m
specified s m (deletes now event p o d) =
    if succeeds (scope event p o s) && is_some (m p o) && not (is_blank (strip d.reason))
    then assign p o none m
    else m

unfoldable pub specified_run : PolicyDb → Overridden → List Change → Overridden
unfolding specified
specified_run s m [] = m
specified_run s m (c ∷ cs) = specified_run s (specified s m c) cs

abbrev pub overridden : PolicyDb → Overridden
overridden s p o = current p o s.overrides

overridden-none : (p o : ℕ) (s : PolicyDb) → found_at p o s ≡ none → overridden s p o ≡ none
unfolding current current_values
overridden-none p o s k = rw k refl

overridden-some :
    (p o : ℕ) (s : PolicyDb) (x : Override)
    → found_at p o s ≡ some x
    → overridden s p o ≡ some x.values
unfolding current current_values
overridden-some p o s x k = rw k refl

step-specified :
    (s : PolicyDb) (c : Change) (p' o' : ℕ)
    → IsKeyed s
    → overridden (step s c) p' o' ≡ specified s (overridden s) c p' o'
unfolding step specified
step-specified s (sets now event p o d) p' o' v = elim (Result-cases (scope event p o s)) [
  | inl (e, h) ↦ rw (set_override-err now event p o d s e h, h) refl
  | inr (w, h) ↦
      rw (set_override-value now event p o d s w h, h)
        (elim (Bool-cases (is_blank (strip d.reason))) [
          | inl blank ↦ rw blank refl
          | inr text ↦ rw text (
              overwritten-current p o p' o' d (found_at p o s) (logged (set_entry now p o d s) s)
                (logged-IsKeyed (set_entry now p o d s) s v) refl)
        ])
]
step-specified s (deletes now event p o d) p' o' v = elim (Result-cases (scope event p o s)) [
  | inl (e, h) ↦ rw (delete_override-err now event p o d s e h, h) refl
  | inr (w, h) ↦ elim (Option-cases (found_at p o s)) [
    | inl k ↦
        let absent : overridden s p o ≡ none = overridden-none p o s k in
        rw (delete_override-none now event p o d s w h k, h, absent) refl
    | inr (x, k) ↦
        let present : overridden s p o ≡ some x.values = overridden-some p o s x k in
        rw (delete_override-value now event p o d s w x h k, h, present)
          (elim (Bool-cases (is_blank (strip d.reason))) [
            | inl blank ↦ rw blank refl
            | inr text ↦ rw text (
                deleted-current p o p' o' x (logged (delete_entry now p o d x s) s)
                  (logged-IsKeyed (delete_entry now p o d x s) s v) k)
          ])
  ]
]

step-IsKeyed : (s : PolicyDb) (c : Change) → IsKeyed s → IsKeyed (step s c)
step-IsKeyed =
    step-induction IsKeyed
      (λ now event p o d s v.
        overwritten-IsKeyed p o d (found_at p o s) (logged (set_entry now p o d s) s)
          (logged-IsKeyed (set_entry now p o d s) s v) refl)
      (λ now event p o d x s k v.
        deleted-IsKeyed x (logged (delete_entry now p o d x s) s)
          (logged-IsKeyed (delete_entry now p o d x s) s v))

-- No change touches what the scope is read from.
abbrev pub HasScope : PolicyDb → PolicyDb → Type 0
HasScope t s = (s.policies ≡ t.policies) × (s.occurrences ≡ t.occurrences)

pub overwritten-HasScope :
    (t : PolicyDb) (p o : ℕ) (d : OverrideInput) (x : Option Override) (s : PolicyDb)
    → HasScope t s
    → HasScope t (overwritten p o d x s)
unfolding overwritten
overwritten-HasScope t p o d none s v = v
overwritten-HasScope t p o d (some x) s v = v

step-HasScope : (t s : PolicyDb) (c : Change) → HasScope t s → HasScope t (step s c)
step-HasScope t =
    step-induction (HasScope t)
      (λ now event p o d s v.
        overwritten-HasScope t p o d (found_at p o s) (logged (set_entry now p o d s) s) v)
      (λ now event p o d x s k v. v)

pub scope-HasScope :
    (t s : PolicyDb) (event p o : ℕ) → HasScope t s → scope event p o s ≡ scope event p o t
unfolding scope
scope-HasScope t s event p o v = rw (v.0, v.1) refl

-- A change reads the map at its place only.
specified-same :
    (t s : PolicyDb) (m n : Overridden) (c : Change) (p' o' : ℕ)
    → HasScope t s
    → ((p o : ℕ) → m p o ≡ n p o)
    → specified s m c p' o' ≡ specified t n c p' o'
unfolding specified
specified-same t s m n (sets now event p o d) p' o' v h =
    rw (scope-HasScope t s event p o v)
      (elim (Bool-cases (succeeds (scope event p o t) && not (is_blank (strip d.reason)))) [
        | inl e ↦ rw (e, h p' o') refl
        | inr e ↦ rw (e, h p' o') refl
      ])
specified-same t s m n (deletes now event p o d) p' o' v h =
    rw (scope-HasScope t s event p o v, h p o)
      (elim (Bool-cases
        (succeeds (scope event p o t) && is_some (n p o) && not (is_blank (strip d.reason)))) [
          | inl e ↦ rw (e, h p' o') refl
          | inr e ↦ rw (e, h p' o') refl
        ])

run-specified :
    (t s : PolicyDb) (m : Overridden) (cs : List Change)
    → IsKeyed s
    → HasScope t s
    → ((p o : ℕ) → overridden s p o ≡ m p o)
    → (p o : ℕ) → overridden (run s cs) p o ≡ specified_run t m cs p o
unfolding run specified_run
run-specified t s m [] v w h p o = h p o
run-specified t s m (c ∷ cs) v w h p o =
    run-specified t (step s c) (specified t m c) cs (step-IsKeyed s c v) (step-HasScope t s c w)
      (λ p' o'. step-specified s c p' o' v ∙ specified-same t s (overridden s) m c p' o' w h) p o

-- With unique ids and keys, the overrides behave as one map from policies and occurrences to
-- values under every sequence of settings and deletions: a setting whose scope exists and whose
-- reason is not blank writes its values at its place, a deletion clears a place that has some, and
-- everything else changes nothing anywhere.
pub run-refines :
    (s : PolicyDb) (cs : List Change) (p o : ℕ)
    → IsKeyed s
    → overridden (run s cs) p o ≡ specified_run s (overridden s) cs p o
run-refines s cs p o v = run-specified s s (overridden s) cs v (refl, refl) (λ p' o'. refl) p o
