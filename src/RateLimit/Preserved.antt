-- ===== src/RateLimit/Preserved.antt =====
-- The concurrency counters under `_ensure_default_buckets`, `_refresh_windows` and `finalize`.
use global_news_intelligence.Prelude.{
  ℕ, ◌+◌, ◌≤◌, ◌<◌, String, ◌≡◌, subst, Bool, false, none, List, [], ◌∷◌, ◌++◌, find?, update,
  filter, any, count, count-append, count_of_any, count-filter_le, any-one_le_count, All,
  All-append, All-update, All-update_to, ok, Time, ◌==◌, arith, Bool-cases, Option-cases, inl, inr,
}
use global_news_intelligence.RateLimit.Tables.{
  Bucket, Reservation, ReservationStatus, Membership, RateDb, holds_open, is_open_on, is_active,
}
use global_news_intelligence.RateLimit.Windows.{refresh_windows, count_request}
use global_news_intelligence.RateLimit.Balance.{
  Balanced, IsBalanced, count-release, count-pair_release, expire_reservation-IsBalanced,
}
use global_news_intelligence.RateLimit.{
  Row, has_id, decrement, release, expire_each, refresh_rows, charge, charge_row, is_member,
  close_reservation, finalize, parse_outcome,
}

-- A write to buckets that leaves their keys and their concurrency alone.
pub update_buckets-IsBalanced :
    (p : Bucket → Bool) (f : Bucket → Bucket) (s : RateDb)
    → ((b : Bucket) → ((f b).id ≡ b.id) × ((f b).active_concurrency ≡ b.active_concurrency))
    → IsBalanced s
    → IsBalanced (record s { buckets = update p f s.buckets })
update_buckets-IsBalanced p f s h v = record {
  balanced = All-update _ p f s.buckets (λ b e k. rw ((h b).0, (h b).1) k) v.balanced;
  bucket_ids = All-update _ p f s.buckets (λ b e k. rw ((h b).0) k) v.bucket_ids;
  membership_ids = v.membership_ids;
  single = v.single;
}

pub refresh_rows-IsBalanced :
    (now : Time) (rows : List Row) (s : RateDb)
    → IsBalanced s
    → IsBalanced (record s { buckets = refresh_rows now rows s.buckets })
unfolding refresh_rows
refresh_rows-IsBalanced now [] s v = v
refresh_rows-IsBalanced now (r ∷ rows) s v =
    refresh_rows-IsBalanced now rows
      (record s { buckets = update (has_id r.bucket.id) f s.buckets })
      (update_buckets-IsBalanced (has_id r.bucket.id) f s
        (λ b. unfold refresh_windows in (ground arith, ground arith)) v)
  where
    f : Bucket → Bucket
    f b = refresh_windows b r.policy now

pub expire_each-IsBalanced :
    (now : Time) (rs : List Reservation) (s : RateDb)
    → IsBalanced s
    → IsBalanced (expire_each now rs s)
unfolding expire_each
expire_each-IsBalanced now [] s v = v
expire_each-IsBalanced now (r ∷ rs) s v =
    expire_each-IsBalanced now rs _ (expire_reservation-IsBalanced now r s v)

-- The reservation's buckets each have one open membership of it, so one decrement is right.
close_reservation-IsBalanced :
    (st : ReservationStatus) (now : Time) (r : Reservation) (s : RateDb)
    → IsBalanced s
    → IsBalanced (close_reservation st now r s).0
unfolding close_reservation
close_reservation-IsBalanced st now r s v = record {
  balanced =
      All-update_to _ _ (λ (b : Bucket). any (λ (m : Membership). m.bucket_id == b.id) open_ones)
        decrement s.buckets
        (λ b e h. omega (
          arith,
          count-release r.id b.id now s.memberships,
          any-one_le_count (λ (m : Membership). m.bucket_id == b.id) open_ones e,
          at_most_one b,
        ))
        (λ b e h. omega (
          arith,
          count-release r.id b.id now s.memberships,
          count_of_any (λ (m : Membership). m.bucket_id == b.id) open_ones e,
        ))
        v.balanced;
  bucket_ids = All-update _ _ decrement s.buckets (λ b e h. h) v.bucket_ids;
  membership_ids =
      All-update _ (holds_open r.id) (release now) s.memberships (λ m e h. h) v.membership_ids;
  single = λ a b. rw (count-pair_release a b r.id now s.memberships) (v.single a b);
}
  where
    open_ones : List Membership
    open_ones = filter (holds_open r.id) s.memberships

    at_most_one : (b : Bucket) → count (λ (m : Membership). m.bucket_id == b.id) open_ones ≤ 1
    at_most_one b = omega (
      arith,
      v.single r.id b.id,
      count-filter_le (λ (m : Membership). m.bucket_id == b.id) (holds_open r.id)
          (is_member r.id b.id) s.memberships (λ m. ground arith),
    )

pub finalize-IsBalanced :
    (id : ℕ) (outcome : String) (now : Time) (s s' : RateDb) (r : Reservation)
    → IsBalanced s
    → finalize id outcome now s ≡ ok (s', r)
    → IsBalanced s'
unfolding finalize
finalize-IsBalanced id outcome now s s' r v h = elim (Option-cases (parse_outcome outcome)) [
  | inl e ↦ absurd (ground arith)
  | inr (st, e) ↦ elim (Option-cases (find? (λ (x : Reservation). x.id == id) s.reservations)) [
    | inl k ↦ absurd (ground arith)
    | inr (x, k) ↦ elim (Bool-cases (is_active x.status)) [
      | inl live ↦
          let same : (close_reservation st now x s).0 ≡ s' = ground arith in
          subst IsBalanced same (close_reservation-IsBalanced st now x s v)
      | inr closed ↦ let same : s ≡ s' = ground arith in subst IsBalanced same v
    ]
  ]
]

-- One more request on a bucket, with its membership.
charge_row-IsBalanced :
    (now : Time) (id : ℕ) (r : Row) (s : RateDb)
    → r.bucket.id < s.next_bucket_id
    → any (is_member id r.bucket.id) s.memberships ≡ false
    → IsBalanced s
    → IsBalanced (charge_row now id r s)
unfolding charge_row count_request count
charge_row-IsBalanced now id r s k e v = record {
  balanced =
      All-update_to (Balanced s.memberships) (Balanced (s.memberships ++ m ∷ []))
        (has_id r.bucket.id) (count_request now) s.buckets
        (λ b hit h. rw (count-append (is_open_on b.id) s.memberships (m ∷ [])) (ground arith))
        (λ b no_hit h. rw (count-append (is_open_on b.id) s.memberships (m ∷ [])) (ground arith))
        v.balanced;
  bucket_ids =
      All-update _ (has_id r.bucket.id) (count_request now) s.buckets (λ b _ h. h) v.bucket_ids;
  membership_ids = All-append _ s.memberships (m ∷ []) v.membership_ids (k, tt);
  single = λ a b. rw (count-append (is_member a b) s.memberships (m ∷ [])) (single_after a b);
}
  where
    m : Membership
    m = record { reservation_id = id; bucket_id = r.bucket.id; released_at = none }

    single_after :
        (a b : ℕ) → count (is_member a b) s.memberships + count (is_member a b) (m ∷ []) ≤ 1
    single_after a b = elim (Bool-cases (is_member a b m)) [
      | inr other ↦ rw other (omega (arith, v.single a b))
      | inl hit ↦
          let same_reservation : id ≡ a = ground arith in
          let same_bucket : r.bucket.id ≡ b = ground arith in
          let fresh : any (is_member a b) s.memberships ≡ false =
            rw (← same_reservation, ← same_bucket) e in
          rw hit (omega (arith, count_of_any (is_member a b) s.memberships fresh))
    ]

pub charge-IsBalanced :
    (now : Time) (id : ℕ) (rows : List Row) (s s' : RateDb)
    → All (λ (r : Row). r.bucket.id < s.next_bucket_id) rows
    → IsBalanced s
    → charge now id rows s ≡ ok s'
    → IsBalanced s'
unfolding charge
charge-IsBalanced now id [] s s' k v h = let same : s ≡ s' = ground arith in subst IsBalanced same v
charge-IsBalanced now id (r ∷ rows) s s' k v h =
    elim (Bool-cases (any (is_member id r.bucket.id) s.memberships)) [
      | inl e ↦ absurd (ground arith)
      | inr e ↦
          charge-IsBalanced now id rows (charge_row now id r s) s' k.1
            (charge_row-IsBalanced now id r s k.0 e v) (ground arith)
    ]
