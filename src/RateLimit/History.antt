-- ===== src/RateLimit/History.antt =====
-- Sequences of calls of the rate service.
mod Examples
use global_news_intelligence.Prelude.{
  ℕ, ◌+◌, ◌-◌, String, ◌≡◌, ◌≢◌, refl, sym, ap, ◌∙◌, subst, Bool, true, false, Option, none, some,
  List, [], ◌∷◌, find?, find?-holds, find?-update, update, any, filter, Result, ok, err, after,
  Time, ◌==◌, if◌then◌else◌, arith, Bool-cases, Option-cases, Result-cases, inl, inr,
}
use global_news_intelligence.RateLimit.Tables.{
  Bucket, Membership, Reservation, ReservationStatus, RateDb, is_active,
}
use global_news_intelligence.RateLimit.Targets.{SplitUrl, Registry}
use global_news_intelligence.RateLimit.Balance.{IsBalanced}
use global_news_intelligence.RateLimit.Preserved.{update_buckets-IsBalanced, finalize-IsBalanced}
use global_news_intelligence.RateLimit.Reserving.{reserve-IsBalanced}
use global_news_intelligence.RateLimit.{
  ReserveRequest, RateDecision, Hold, reserve, finalize, parse_outcome, close, close_reservation,
  observe_hold, observe_each, observe_row, hold_bucket, has_id,
}

observe_row-IsBalanced :
    (h : Hold) (m : Membership) (s : RateDb) → IsBalanced s → IsBalanced (observe_row h m s)
unfolding observe_row
observe_row-IsBalanced h m s v =
    let w =
      update_buckets-IsBalanced (has_id m.bucket_id) (hold_bucket h) s
        (λ b. unfold hold_bucket in (refl, refl)) v in
    record {
      balanced = w.balanced;
      bucket_ids = w.bucket_ids;
      membership_ids = w.membership_ids;
      single = w.single;
    }

observe_each-IsBalanced :
    (h : Hold) (ms : List Membership) (s s' : RateDb)
    → IsBalanced s
    → observe_each h ms s ≡ ok s'
    → IsBalanced s'
unfolding observe_each
observe_each-IsBalanced h [] s s' v e = let same : s ≡ s' = ground arith in subst IsBalanced same v
observe_each-IsBalanced h (m ∷ ms) s s' v e =
    observe_each-IsBalanced h ms (observe_row h m s) s' (observe_row-IsBalanced h m s v)
      (ground arith)

pub data Call : Type 0 where
  reserves : Registry → ReserveRequest → Call
  finalizes : ℕ → String → Time → Call
  observes : ℕ → Hold → Call

abbrev after_observe : RateDb → Result RateDb → RateDb
after_observe s (ok s') = s'
after_observe s (err e) = s

-- A call that raises is rolled back.
pub step : (String → SplitUrl) → RateDb → Call → RateDb
step urlsplit s (reserves g q) = after s (reserve urlsplit g q s)
step urlsplit s (finalizes id outcome now) = after s (finalize id outcome now s)
step urlsplit s (observes id h) = after_observe s (observe_hold id h s)

pub run : (String → SplitUrl) → RateDb → List Call → RateDb
run urlsplit s [] = s
run urlsplit s (c ∷ cs) = run urlsplit (step urlsplit s c) cs

step-IsBalanced :
    (urlsplit : String → SplitUrl) (s : RateDb) (c : Call)
    → IsBalanced s
    → IsBalanced (step urlsplit s c)
unfolding step observe_hold
step-IsBalanced urlsplit s (reserves g q) v = elim (Result-cases (reserve urlsplit g q s)) [
  | inl (e, p) ↦ rw p v
  | inr ((s', d), p) ↦ rw p (reserve-IsBalanced urlsplit g q s s' d v p)
]
step-IsBalanced urlsplit s (finalizes id outcome now) v =
    elim (Result-cases (finalize id outcome now s)) [
      | inl (e, p) ↦ rw p v
      | inr ((s', r), p) ↦ rw p (finalize-IsBalanced id outcome now s s' r v p)
    ]
step-IsBalanced urlsplit s (observes id h) v =
    let ms : List Membership = filter (λ (m : Membership). m.reservation_id == id) s.memberships in
    elim (Result-cases (observe_each h ms s)) [
      | inl (e, p) ↦ rw p v
      | inr (s', p) ↦ rw p (observe_each-IsBalanced h ms s s' v p)
    ]

-- From balanced tables, through any sequence of calls, failed ones included, the concurrency
-- counter of every bucket stays equal to the number of its memberships that are not released.
pub run-IsBalanced :
    (urlsplit : String → SplitUrl) (s : RateDb) (cs : List Call)
    → IsBalanced s
    → IsBalanced (run urlsplit s cs)
unfolding run
run-IsBalanced urlsplit s [] v = v
run-IsBalanced urlsplit s (c ∷ cs) v =
    run-IsBalanced urlsplit (step urlsplit s c) cs (step-IsBalanced urlsplit s c v)

abbrev has_key : ℕ → Reservation → Bool
has_key id r = r.id == id

outcome_inactive :
    (outcome : String) (st : ReservationStatus)
    → parse_outcome outcome ≡ some st
    → is_active st ≡ false
unfolding parse_outcome
outcome_inactive outcome st h = ground arith

-- A reservation that is finalized is stored as it is returned, and is over.
finalized_row :
    (id : ℕ) (outcome : String) (now : Time) (s s' : RateDb) (r : Reservation)
    → finalize id outcome now s ≡ ok (s', r)
    → (find? (has_key id) s'.reservations ≡ some r) × (is_active r.status ≡ false)
unfolding finalize
finalized_row id outcome now s s' r h = elim (Option-cases (parse_outcome outcome)) [
  | inl e ↦ absurd (ground arith)
  | inr (st, e) ↦ elim (Option-cases (find? (has_key id) s.reservations)) [
    | inl p ↦ absurd (ground arith)
    | inr (x, p) ↦ elim (Bool-cases (is_active x.status)) [
      | inr closed ↦
          let same_db : s ≡ s' = ground arith in
          let same_row : x ≡ r = ground arith in
          (rw (← same_db, ← same_row) p, rw (← same_row) closed)
      | inl live ↦
          let key : x.id ≡ id = ground (arith, find?-holds (has_key id) s.reservations x p) in
          let same_db : (close_reservation st now x s).0 ≡ s' = ground arith in
          let same_row : close st now x ≡ r = ground arith in
          let stored : find? (has_key id) (update (has_key x.id) (close st now) s.reservations)
              ≡ some r =
            subst
              (λ k. find? (has_key id) (update (has_key k) (close st now) s.reservations) ≡ some r)
              (sym key)
              (find?-update (has_key id) (close st now) s.reservations x (λ y hit. hit) p
                ∙ ap some same_row) in
          (
            subst (λ (t : RateDb). find? (has_key id) t.reservations ≡ some r) same_db
                (unfold close_reservation in stored),
            rw (← same_row) (outcome_inactive outcome st e),
          )
    ]
  ]
]

-- A second `finalize` of a reservation, with any known outcome, succeeds and changes nothing: its
-- capacity is given back once.
pub finalize_again :
    (id : ℕ) (outcome outcome' : String) (now now' : Time) (s s' : RateDb) (r : Reservation)
    → finalize id outcome now s ≡ ok (s', r)
    → parse_outcome outcome' ≢ none
    → finalize id outcome' now' s' ≡ ok (s', r)
unfolding finalize
finalize_again id outcome outcome' now now' s s' r h k =
    elim (Option-cases (parse_outcome outcome')) [
      | inl n ↦ absurd (k n)
      | inr (st, n) ↦
          let (stored, over) = finalized_row id outcome now s s' r h in rw (n, stored, over)
    ]
