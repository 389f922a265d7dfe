-- ===== src/CalendarPolicy/Listing.antt =====
-- `list_event_occurrence_policies` of app/services/calendar_policy_service.py.
use global_news_intelligence.Prelude.{
  ℕ, suc, ◌*◌, ◌≤◌, ◌≡◌, refl, ap, ◌∙◌, ◌==◌, Bool, true, some, List, [], ◌∷◌, ◌++◌, map, length,
  length-append, length-map, length-filter, All, All-mono, All-map, All-filter_both, find?,
  find?-key, filter, count, ok, arith,
}
use global_news_intelligence.CalendarPolicy.Tables.{
  Policy, Occurrence, PolicyDb, overrides_at, changes_at,
}
use global_news_intelligence.CalendarPolicy.{
  PolicyRead, scope, read_policy, ordered, get_occurrence_policy, read_each, read_all,
  list_event_occurrence_policies,
}

-- An id of the event's policies, and one of its occurrences.
abbrev IsPolicy : ℕ → PolicyDb → ℕ → Type 0
IsPolicy event s id =
    (p : Policy) × (find? (λ (x : Policy). x.id == id) s.policies ≡ some p)
    × ((p.event_id == event) ≡ true)

abbrev IsOccurrence : ℕ → PolicyDb → ℕ → Type 0
IsOccurrence event s id =
    (o : Occurrence) × (find? (λ (x : Occurrence). x.id == id) s.occurrences ≡ some o)
    × ((o.event_id == event) ≡ true)

read_each-ok :
    (event p : ℕ) (os : List ℕ) (s : PolicyDb)
    → IsPolicy event s p
    → All (IsOccurrence event s) os
    → (rs : List PolicyRead) × (read_each event p os s ≡ ok rs) × (length rs ≡ length os)
unfolding read_each get_occurrence_policy scope
read_each-ok event p [] s v w = ([], refl, refl)
read_each-ok event p (o ∷ os) s (x, found, at) ((y, here, in_event), w) =
    let (rs, h, n) = read_each-ok event p os s (x, found, at) w in
    (
      read_policy event o x (find? (overrides_at p o) s.overrides)
            (ordered (filter (changes_at p o) s.history))
          ∷ rs,
      rw (found, here, at, in_event, h) refl,
      ap suc n,
    )

read_all-ok :
    (event : ℕ) (ps os : List ℕ) (s : PolicyDb)
    → All (IsPolicy event s) ps
    → All (IsOccurrence event s) os
    → (rs : List PolicyRead) × (read_all event ps os s ≡ ok rs)
      × (length rs ≡ length ps * length os)
unfolding read_all
read_all-ok event [] os s v w = ([], refl, omega arith)
read_all-ok event (p ∷ ps) os s v w =
    let (rs, h, n) = read_each-ok event p os s v.0 w in
    let (rest, k, m) = read_all-ok event ps os s v.1 w in
    (rs ++ rest, rw (h, k) refl, length-append rs rest ∙ omega (arith, n, m))

-- If ids are unique, listing an event never raises, and gives one reading for each policy of the
-- event and each of its occurrences.
pub list_event_occurrence_policies-length :
    (event : ℕ) (s : PolicyDb)
    → ((n : ℕ) → count (λ (p : Policy). p.id == n) s.policies ≤ 1)
    → ((n : ℕ) → count (λ (o : Occurrence). o.id == n) s.occurrences ≤ 1)
    → (rs : List PolicyRead) × (list_event_occurrence_policies event s ≡ ok rs)
      × (length rs
          ≡ count (λ (p : Policy). p.event_id == event) s.policies
            * count (λ (o : Occurrence). o.event_id == event) s.occurrences)
unfolding list_event_occurrence_policies
list_event_occurrence_policies-length event s v w =
    let (rs, h, n) = read_all-ok event ps os s policies occurrences in
    (
      rs,
      h,
      n
          ∙ rw
              (
                length-map (λ (p : Policy). p.id) (filter of_event s.policies),
                length-map (λ (o : Occurrence). o.id) (filter at_event s.occurrences),
                length-filter of_event s.policies,
                length-filter at_event s.occurrences,
              )
              refl,
    )
  where
    of_event : Policy → Bool
    of_event p = p.event_id == event

    at_event : Occurrence → Bool
    at_event o = o.event_id == event

    ps : List ℕ
    ps = map (λ (p : Policy). p.id) (filter of_event s.policies)

    os : List ℕ
    os = map (λ (o : Occurrence). o.id) (filter at_event s.occurrences)

    policies : All (IsPolicy event s) ps
    policies =
        All-map _ (λ (p : Policy). p.id) (filter of_event s.policies)
          (All-mono _ _ (filter of_event s.policies) (λ p h. (p, h.0, h.1))
            (All-filter_both _ of_event s.policies (find?-key (λ (p : Policy). p.id) s.policies v)))

    occurrences : All (IsOccurrence event s) os
    occurrences =
        All-map _ (λ (o : Occurrence). o.id) (filter at_event s.occurrences)
          (All-mono _ _ (filter at_event s.occurrences) (λ o h. (o, h.0, h.1))
            (All-filter_both _ at_event s.occurrences
              (find?-key (λ (o : Occurrence). o.id) s.occurrences w)))
