-- ===== src/RateLimit/Balance.antt =====
-- The concurrency counters of the buckets against the open memberships, with the release of an
-- abandoned reservation (`_expire_abandoned`).
use global_news_intelligence.Prelude.{
  ℕ, ◌+◌, ◌-◌, ◌≤◌, ◌<◌, ◌≡◌, refl, List, [], ◌∷◌, update, filter, count, All, All-update,
  All-update_to, All-mono, Time, ◌==◌, if◌then◌else◌, arith,
}
use global_news_intelligence.RateLimit.Tables.{
  Bucket, Reservation, Membership, RateDb, holds_open, is_open_on,
}
use global_news_intelligence.RateLimit.{
  has_id, decrement, release, decrement_each, expire_reservation, is_member,
}

-- As many requests are counted as running on the bucket as it has open memberships.
abbrev pub Balanced : List Membership → Bucket → Type 0
Balanced ms b = b.active_concurrency ≡ count (is_open_on b.id) ms

pub record IsBalanced (s : RateDb) : Type 0 where
  pub balanced : All (Balanced s.memberships) s.buckets
  pub bucket_ids : All (λ (b : Bucket). b.id < s.next_bucket_id) s.buckets
  pub membership_ids : All (λ (m : Membership). m.bucket_id < s.next_bucket_id) s.memberships
  pub single : (r b : ℕ) → count (is_member r b) s.memberships ≤ 1

-- One decrement for each membership of a list.
decrement_each-All :
    (g : ℕ → ℕ) (ms : List Membership) (bs : List Bucket)
    → All (λ (b : Bucket). b.active_concurrency ≡ g b.id) bs
    → All
        (λ (b : Bucket).
          b.active_concurrency ≡ g b.id - count (λ (m : Membership). m.bucket_id == b.id) ms)
        (decrement_each ms bs)
unfolding decrement_each count
decrement_each-All g [] bs v = All-mono _ _ bs (λ b e. omega arith) v
decrement_each-All g (m ∷ ms) bs v =
    All-mono _ _ _ (λ b e. omega arith)
      (decrement_each-All (λ id. g id - (if m.bucket_id == id then 1 else 0)) ms
        (update (has_id m.bucket_id) decrement bs)
        (All-update_to _ _ (has_id m.bucket_id) decrement bs (λ b e h. ground arith)
          (λ b e h. ground arith) v))

decrement_each-ids :
    (n : ℕ) (ms : List Membership) (bs : List Bucket)
    → All (λ (b : Bucket). b.id < n) bs
    → All (λ (b : Bucket). b.id < n) (decrement_each ms bs)
unfolding decrement_each
decrement_each-ids n [] bs v = v
decrement_each-ids n (m ∷ ms) bs v =
    decrement_each-ids n ms (update (has_id m.bucket_id) decrement bs)
      (All-update _ (has_id m.bucket_id) decrement bs (λ b e h. h) v)

-- What is released is what was open.
pub count-release :
    (r id : ℕ) (now : Time) (ms : List Membership)
    → count (is_open_on id) (update (holds_open r) (release now) ms)
        + count (λ (m : Membership). m.bucket_id == id) (filter (holds_open r) ms)
      ≡ count (is_open_on id) ms
unfolding count update filter
count-release r id now [] = omega arith
count-release r id now (m ∷ ms) = ground (arith, count-release r id now ms)

pub count-pair_release :
    (r b q : ℕ) (now : Time) (ms : List Membership)
    → count (is_member r b) (update (holds_open q) (release now) ms) ≡ count (is_member r b) ms
unfolding count update
count-pair_release r b q now [] = refl
count-pair_release r b q now (m ∷ ms) = ground (arith, count-pair_release r b q now ms)

pub expire_reservation-IsBalanced :
    (now : Time) (r : Reservation) (s : RateDb)
    → IsBalanced s
    → IsBalanced (expire_reservation now r s)
unfolding expire_reservation
expire_reservation-IsBalanced now r s v = record {
  balanced =
      All-mono _ _ _ (λ b e. omega (arith, count-release r.id b.id now s.memberships))
        (decrement_each-All (λ id. count (is_open_on id) s.memberships)
          (filter (holds_open r.id) s.memberships) s.buckets v.balanced);
  bucket_ids =
      decrement_each-ids s.next_bucket_id (filter (holds_open r.id) s.memberships) s.buckets
        v.bucket_ids;
  membership_ids =
      All-update _ (holds_open r.id) (release now) s.memberships (λ m e h. h) v.membership_ids;
  single = λ a b. rw (count-pair_release a b r.id now s.memberships) (v.single a b);
}
