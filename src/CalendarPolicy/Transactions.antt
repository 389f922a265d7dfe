-- ===== src/CalendarPolicy/Transactions.antt =====
-- The transactions of `set_occurrence_policy` and `delete_occurrence_policy`, one after another, and
-- what they come to.
use global_news_intelligence.Prelude.{
  ℕ, ◌+◌, ◌≡◌, refl, ◌==◌, not, Option, none, some, List, [], ◌∷◌, ◌++◌, find?, filter, Result,
  Error, ok, err, Time, if◌then◌else◌, Bool-cases, Option-cases, Result-cases, inl, inr,
  integrity_error, invalid_update,
}
use global_news_intelligence.Lease.{is_blank}
use global_news_intelligence.CalendarPolicy.Tables.{
  ActionKind, Policy, Occurrence, Override, HistoryEntry, PolicyDb, nulls, overrides_at, strip,
  insert_history,
}
use global_news_intelligence.CalendarPolicy.{
  OverrideInput, OverrideDelete, scope, new_entry, action_of, set_override, delete_override,
}
use global_news_intelligence.CalendarPolicy.Changes.{
  IsKeyed, overwritten, write_override-overwritten,
}

abbrev pub found_at : ℕ → ℕ → PolicyDb → Option Override
found_at p o s = find? (overrides_at p o) s.overrides

-- The history with one more entry.
abbrev pub logged : HistoryEntry → PolicyDb → PolicyDb
logged e s = record s { history = s.history ++ e ∷ []; next_history_id = s.next_history_id + 1 }

abbrev pub set_entry : Time → ℕ → ℕ → OverrideInput → PolicyDb → HistoryEntry
set_entry now p o d s =
    new_entry now p o (action_of (found_at p o s)) (found_at p o s) d.values d.reason d.actor s

abbrev pub delete_entry : Time → ℕ → ℕ → OverrideDelete → Override → PolicyDb → HistoryEntry
delete_entry now p o d x s = new_entry now p o ActionKind.delete (some x) nulls d.reason d.actor s

abbrev pub after_set : Time → ℕ → ℕ → OverrideInput → PolicyDb → PolicyDb
after_set now p o d s = overwritten p o d (found_at p o s) (logged (set_entry now p o d s) s)

abbrev pub after_delete : Time → ℕ → ℕ → OverrideDelete → Override → PolicyDb → PolicyDb
after_delete now p o d x s =
    let s' = logged (delete_entry now p o d x s) s in
    record s' { overrides = filter (λ y. not (y.id == x.id)) s'.overrides }

pub logged-IsKeyed : (e : HistoryEntry) (s : PolicyDb) → IsKeyed s → IsKeyed (logged e s)
logged-IsKeyed e s v = record { fresh = v.fresh; ids = v.ids; keys = v.keys }

pub overwritten-history :
    (p o : ℕ) (d : OverrideInput) (x : Option Override) (s : PolicyDb)
    → (overwritten p o d x s).history ≡ s.history
unfolding overwritten
overwritten-history p o d none s = refl
overwritten-history p o d (some x) s = refl

-- Both come to one of these results.
pub set_override-value :
    (now : Time) (event p o : ℕ) (d : OverrideInput) (s : PolicyDb) (v : Policy × Occurrence)
    → scope event p o s ≡ ok v
    → set_override now event p o d s
      ≡ (if is_blank (strip d.reason) then err integrity_error else ok (after_set now p o d s))
unfolding set_override new_entry insert_history
set_override-value now event p o d s v h = rw h (elim (Bool-cases (is_blank (strip d.reason))) [
  | inl blank ↦ rw blank refl
  | inr text ↦
      rw text
        (write_override-overwritten p o d (found_at p o s) (logged (set_entry now p o d s) s) refl)
])

pub delete_override-value :
    (now : Time) (event p o : ℕ) (d : OverrideDelete) (s : PolicyDb) (v : Policy × Occurrence)
    (x : Override)
    → scope event p o s ≡ ok v
    → found_at p o s ≡ some x
    → delete_override now event p o d s
      ≡ (if is_blank (strip d.reason) then err integrity_error else ok (after_delete now p o d x s))
unfolding delete_override new_entry insert_history
delete_override-value now event p o d s v x h k =
    rw (h, k)
      (elim (Bool-cases (is_blank (strip d.reason))) [
        | inl blank ↦ rw blank refl
        | inr text ↦ rw text refl
      ])

pub delete_override-none :
    (now : Time) (event p o : ℕ) (d : OverrideDelete) (s : PolicyDb) (v : Policy × Occurrence)
    → scope event p o s ≡ ok v
    → found_at p o s ≡ none
    → delete_override now event p o d s ≡ err invalid_update
unfolding delete_override
delete_override-none now event p o d s v h k = rw (h, k) refl

-- Outside its scope, a transaction raises what `_scope` raises.
pub set_override-err :
    (now : Time) (event p o : ℕ) (d : OverrideInput) (s : PolicyDb) (e : Error)
    → scope event p o s ≡ err e
    → set_override now event p o d s ≡ err e
unfolding set_override
set_override-err now event p o d s e h = rw h refl

pub delete_override-err :
    (now : Time) (event p o : ℕ) (d : OverrideDelete) (s : PolicyDb) (e : Error)
    → scope event p o s ≡ err e
    → delete_override now event p o d s ≡ err e
unfolding delete_override
delete_override-err now event p o d s e h = rw h refl

-- A transaction, as the caller asks for it.
pub data Change : Type 0 where
  sets : (now : Time) (event policy occurrence : ℕ) → OverrideInput → Change
  deletes : (now : Time) (event policy occurrence : ℕ) → OverrideDelete → Change

abbrev pub commit : PolicyDb → Result PolicyDb → PolicyDb
commit s (ok s') = s'
commit s (err _) = s

-- A transaction that raises is rolled back.
unfoldable pub step : PolicyDb → Change → PolicyDb
step s (sets now event p o d) = commit s (set_override now event p o d s)
step s (deletes now event p o d) = commit s (delete_override now event p o d s)

unfoldable pub run : PolicyDb → List Change → PolicyDb
unfolding step
run s [] = s
run s (c ∷ cs) = run (step s c) cs

-- A property of the tables that each accepted transaction keeps holds after every run.
pub step-induction {ℓ} :
    (P : PolicyDb → Type ℓ)
    → ((now : Time) (event p o : ℕ) (d : OverrideInput) (s : PolicyDb)
        → P s
        → P (after_set now p o d s))
    → ((now : Time) (event p o : ℕ) (d : OverrideDelete) (x : Override) (s : PolicyDb)
        → found_at p o s ≡ some x
        → P s
        → P (after_delete now p o d x s))
    → (s : PolicyDb) (c : Change) → P s
    → P (step s c)
unfolding step
step-induction P f g s (sets now event p o d) v = elim (Result-cases (scope event p o s)) [
  | inl (e, h) ↦ rw (set_override-err now event p o d s e h) v
  | inr (w, h) ↦
      rw (set_override-value now event p o d s w h) (elim (Bool-cases (is_blank (strip d.reason))) [
        | inl blank ↦ rw blank v
        | inr text ↦ rw text (f now event p o d s v)
      ])
]
step-induction P f g s (deletes now event p o d) v = elim (Result-cases (scope event p o s)) [
  | inl (e, h) ↦ rw (delete_override-err now event p o d s e h) v
  | inr (w, h) ↦ elim (Option-cases (found_at p o s)) [
    | inl k ↦ rw (delete_override-none now event p o d s w h k) v
    | inr (x, k) ↦
        rw (delete_override-value now event p o d s w x h k)
          (elim (Bool-cases (is_blank (strip d.reason))) [
            | inl blank ↦ rw blank v
            | inr text ↦ rw text (g now event p o d x s k v)
          ])
  ]
]
