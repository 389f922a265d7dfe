-- ===== src/RateLimit/Windows/Bounds.antt =====
-- When a bucket admits a request, and what its counters are afterwards.
use global_news_intelligence.Prelude.{
  ℕ, ◌+◌, ◌-◌, ◌≤◌, ◌<◌, ◌≡◌, refl, ◌↔◌, Bool, true, false, Option, none, some, List, [], ◌∷◌, ◌++◌,
  Time, seconds, one_day, All, All-append, ltb, leb, if◌then◌else◌, arith, Option-cases, inl, inr,
  Bool-cases,
}
use global_news_intelligence.RateLimit.Tables.{Bucket, Policy}
use global_news_intelligence.RateLimit.Windows.{
  refresh_windows, hold, over_budget, spacing, candidates, maximum, next_eligible, count_request,
}

abbrev HasPassed : Option Time → Time → Type 0
HasPassed none now = Unit {0}
HasPassed (some t) now = t ≤ now

abbrev IsBelow : ℕ → Option ℕ → Type 0
IsBelow n none = Unit {0}
IsBelow n (some budget) = n < budget

abbrev IsSpaced : Option Time → ℕ → Time → Type 0
IsSpaced none gap now = Unit {0}
IsSpaced (some t) gap now = t + seconds gap ≤ now

abbrev IsAtMost : ℕ → Option ℕ → Type 0
IsAtMost n none = Unit {0}
IsAtMost n (some budget) = n ≤ budget

below_budget : (o : Option ℕ) (n : ℕ) → IsBelow n o → IsAtMost (n + 1) o
below_budget none n h = tt
below_budget (some budget) n h = omega arith

-- Every limit of the policy leaves room for one more request, and no hold is in force.
pub record HasRoom (b : Bucket) (p : Policy) (now : Time) : Type 0 where
  pub unblocked : HasPassed b.blocked_until now
  pub reset : HasPassed b.provider_reset_at now
  pub concurrency : b.active_concurrency < p.max_concurrency
  pub rate : b.request_count < p.requests_per_period + p.burst_size - 1
  pub budget : IsBelow b.daily_request_count p.daily_request_budget
  pub spaced : IsSpaced b.last_request_at p.minimum_request_spacing_seconds now

maximum-none : (ts : List Time) → maximum ts ≡ none → ts ≡ []
unfolding maximum
maximum-none [] h = refl
maximum-none (t ∷ ts) h = elim (Option-cases (maximum ts)) [
  | inl e ↦ ground arith
  | inr (u, e) ↦ ground arith
]

append_nil : (xs ys : List Time) → xs ++ ys ≡ [] → (xs ≡ []) × (ys ≡ [])
append_nil [] ys h = (refl, h)
append_nil (x ∷ xs) ys h = absurd (ground arith)

-- The candidates that come of one column are none exactly when its limit leaves room.
hold_nil : (o : Option Time) (now : Time) → (hold o now ≡ []) ↔ HasPassed o now
unfolding hold
hold_nil none now = (λ _. tt, λ _. refl)
hold_nil (some t) now = (λ h. ground arith, λ h. ground arith)

spacing_nil :
    (o : Option Time) (gap : ℕ) (now : Time) → (spacing o gap now ≡ []) ↔ IsSpaced o gap now
unfolding spacing
spacing_nil none gap now = (λ _. tt, λ _. refl)
spacing_nil (some t) gap now = hold_nil (some (t + seconds gap)) now

test_nil : (a n : ℕ) (t : Time) → ((if leb a n then t ∷ [] else []) ≡ []) ↔ (n < a)
test_nil a n t = (λ h. ground arith, λ h. ground arith)

budget_nil :
    (o : Option ℕ) (n : ℕ) (t : Time)
    → ((if over_budget o n then t ∷ [] else []) ≡ []) ↔ IsBelow n o
unfolding over_budget
budget_nil none n t = (λ _. tt, λ _. refl)
budget_nil (some budget) n t = test_nil budget n t

room : (b : Bucket) (p : Policy) (now : Time) → candidates b p now ≡ [] → HasRoom b p now
unfolding candidates
room b p now h =
    let (e₁, h₁) = append_nil (hold b.blocked_until now) _ h in
    let (e₂, h₂) = append_nil (hold b.provider_reset_at now) _ h₁ in
    let (e₃, h₃) = append_nil _ _ h₂ in
    let (e₄, h₄) = append_nil _ _ h₃ in
    let (e₅, e₆) = append_nil _ _ h₄ in
    record {
      unblocked = (hold_nil b.blocked_until now).0 e₁;
      reset = (hold_nil b.provider_reset_at now).0 e₂;
      concurrency = (test_nil p.max_concurrency b.active_concurrency _).0 e₃;
      rate = (test_nil (p.requests_per_period + p.burst_size - 1) b.request_count _).0 e₄;
      budget = (budget_nil p.daily_request_budget b.daily_request_count _).0 e₅;
      spaced = (spacing_nil b.last_request_at p.minimum_request_spacing_seconds now).0 e₆;
    }

no_candidates : (b : Bucket) (p : Policy) (now : Time) → HasRoom b p now → candidates b p now ≡ []
unfolding candidates
no_candidates b p now r =
    rw
      (
        (hold_nil b.blocked_until now).1 r.unblocked,
        (hold_nil b.provider_reset_at now).1 r.reset,
        (test_nil p.max_concurrency b.active_concurrency _).1 r.concurrency,
        (test_nil (p.requests_per_period + p.burst_size - 1) b.request_count _).1 r.rate,
        (budget_nil p.daily_request_budget b.daily_request_count _).1 r.budget,
      )
      ((spacing_nil b.last_request_at p.minimum_request_spacing_seconds now).1 r.spaced)

-- A bucket is eligible at once exactly when no hold lies ahead, the concurrency, the requests of the
-- period and the daily budget leave room for one more, and the last request lies far enough back.
pub next_eligible-none :
    (b : Bucket) (p : Policy) (now : Time) → (next_eligible b p now ≡ none) ↔ HasRoom b p now
unfolding next_eligible
next_eligible-none b p now = (
  λ h. room b p now (maximum-none (candidates b p now) h),
  λ r. rw (no_candidates b p now r) (unfold maximum in refl),
)

-- Counters within the policy.
pub record IsWithin (b : Bucket) (p : Policy) : Type 0 where
  pub concurrency : b.active_concurrency ≤ p.max_concurrency
  pub rate : b.request_count + 1 ≤ p.requests_per_period + p.burst_size
  pub budget : IsAtMost b.daily_request_count p.daily_request_budget

-- A bucket that was eligible still keeps its policy when the request has been counted.
pub count_request-IsWithin :
    (b : Bucket) (p : Policy) (now : Time)
    → next_eligible b p now ≡ none
    → IsWithin (count_request now b) p
unfolding count_request
count_request-IsWithin b p now h =
    let r = (next_eligible-none b p now).0 h in
    record {
      concurrency = omega (arith, r.concurrency);
      rate = omega (arith, r.rate);
      budget = below_budget p.daily_request_budget b.daily_request_count r.budget;
    }

maximum_above :
    (now : Time) (ts : List Time) (t : Time) → All (λ u. now < u) ts → maximum ts ≡ some t → now < t
unfolding maximum
maximum_above now [] t a h = absurd (cc)
maximum_above now (u ∷ ts) t a h = elim (Option-cases (maximum ts)) [
  | inl e ↦ ground arith
  | inr (w, e) ↦ ground (arith, maximum_above now ts w a.1 e)
]

hold_ahead : (o : Option Time) (now : Time) → All (λ u. now < u) (hold o now)
unfolding hold
hold_ahead none now = tt
hold_ahead (some t) now = elim (Bool-cases (ltb now t)) [
  | inl e ↦ rw e (ground arith, tt)
  | inr e ↦ rw e tt
]

test_ahead : (b : Bool) (now t : Time) → now < t → All (λ u. now < u) (if b then t ∷ [] else [])
test_ahead true now t h = (h, tt)
test_ahead false now t h = tt

spacing_ahead : (o : Option Time) (gap : ℕ) (now : Time) → All (λ u. now < u) (spacing o gap now)
unfolding spacing
spacing_ahead none gap now = tt
spacing_ahead (some t) gap now = hold_ahead (some (t + seconds gap)) now

-- After a refresh both windows cover the present.
windows_cover :
    (b : Bucket) (p : Policy) (now : Time)
    → 0 < p.period_seconds
    → (now < (refresh_windows b p now).window_started_at + seconds p.period_seconds)
      × (now < (refresh_windows b p now).daily_window_started_at + one_day)
unfolding refresh_windows
windows_cover b p now pos = ground arith

candidates_ahead :
    (b : Bucket) (p : Policy) (now : Time)
    → now < b.window_started_at + seconds p.period_seconds
    → now < b.daily_window_started_at + one_day
    → All (λ u. now < u) (candidates b p now)
unfolding candidates
candidates_ahead b p now period daily =
    All-append _ (hold b.blocked_until now) _ (hold_ahead b.blocked_until now) (
      All-append _ (hold b.provider_reset_at now) _ (hold_ahead b.provider_reset_at now) (
        All-append _ _ _
          (test_ahead (leb p.max_concurrency b.active_concurrency) now _ (omega arith))
          (All-append _ _ _
            (test_ahead (leb (p.requests_per_period + p.burst_size - 1) b.request_count) now _
              period)
            (All-append _ _ _
              (test_ahead (over_budget p.daily_request_budget b.daily_request_count) now _ daily)
              (spacing_ahead b.last_request_at p.minimum_request_spacing_seconds now)))))

-- Under a policy with a positive period, a refreshed bucket that has to wait is told a time that
-- lies ahead.
pub next_eligible_ahead :
    (b : Bucket) (p : Policy) (now t : Time)
    → 0 < p.period_seconds
    → next_eligible (refresh_windows b p now) p now ≡ some t
    → now < t
unfolding next_eligible
next_eligible_ahead b p now t pos h =
    maximum_above now (candidates (refresh_windows b p now) p now) t
      (candidates_ahead (refresh_windows b p now) p now (windows_cover b p now pos).0
        (windows_cover b p now pos).1)
      h
