-- ===== src/RateLimit/Reserving.antt =====
-- `reserve` keeps the counters equal to the open memberships.
use global_news_intelligence.Prelude.{
  ℕ, ◌<◌, String, ◌≡◌, refl, sym, subst, ◌&&◌, Option, none, some, List, [], ◌∷◌, find?, update,
  filter, count, All, All-append, All-mono, ok, Time, ◌==◌, arith, is_positive, Bool-cases,
  Option-cases, Result-cases, inl, inr,
}
use global_news_intelligence.RateLimit.Tables.{
  Bucket, Binding, Policy, Scope, Membership, RateDb, is_open_on,
}
use global_news_intelligence.RateLimit.Targets.{SplitUrl, Registry, Run, targets}
use global_news_intelligence.RateLimit.Balance.{Balanced, IsBalanced}
use global_news_intelligence.RateLimit.Preserved.{
  update_buckets-IsBalanced, refresh_rows-IsBalanced, expire_each-IsBalanced, charge-IsBalanced,
}
use global_news_intelligence.RateLimit.{
  Row, RateDecision, has_id, expire_abandoned, rows_of, joined, join_policy, bears_on, add_binding,
  ensure_binding, add_bucket, with_reservation, ensure_each, ensure_default_buckets, charge,
  ReserveRequest, grant, decide, settle, controlling_from, is_complete, is_abandoned, is_replay,
  is_installation_default, authorize, reserve,
}

-- What the joined rows take from the buckets.
joined-All :
    (n : ℕ) (ps : List Policy) (bs : List Binding) (scopes : List Scope) (buckets : List Bucket)
    → All (λ (b : Bucket). b.id < n) buckets
    → All (λ (r : Row). r.bucket.id < n) (joined ps bs scopes buckets)
unfolding joined
joined-All n ps bs scopes [] v = tt
joined-All n ps bs scopes (b ∷ rest) v =
    elim (Option-cases (find? (λ (x : Binding). x.id == b.binding_id && bears_on scopes x) bs)) [
      | inl e ↦ rw e (joined-All n ps bs scopes rest v.1)
      | inr (x, e) ↦ elim (Option-cases (find? (λ (p : Policy). p.id == x.policy_id) ps)) [
        | inl k ↦ rw e (unfold join_policy in rw k (joined-All n ps bs scopes rest v.1))
        | inr (p, k) ↦ rw e (unfold join_policy in rw k (v.0, joined-All n ps bs scopes rest v.1))
      ]
    ]

-- A new bucket has a key that no membership has.
count_above :
    (n : ℕ) (ms : List Membership)
    → All (λ (m : Membership). m.bucket_id < n) ms
    → count (is_open_on n) ms ≡ 0
unfolding count
count_above n [] v = refl
count_above n (m ∷ ms) v = ground (arith, v, count_above n ms v.1)

add_bucket-IsBalanced :
    (db_now : Time) (scope : Scope) (b : Binding) (s : RateDb) (o : Option Bucket)
    → IsBalanced s
    → IsBalanced (add_bucket db_now scope b s o)
unfolding add_bucket
add_bucket-IsBalanced db_now scope b s (some _) v = v
add_bucket-IsBalanced db_now scope b s none v = record {
  balanced =
      All-append (Balanced s.memberships) s.buckets _ v.balanced
        (sym (count_above s.next_bucket_id s.memberships v.membership_ids), tt);
  bucket_ids =
      All-append _ s.buckets _ (All-mono _ _ s.buckets (λ x h. omega arith) v.bucket_ids)
        (omega arith, tt);
  membership_ids = All-mono _ _ s.memberships (λ m h. omega arith) v.membership_ids;
  single = v.single;
}

add_binding-IsBalanced :
    (p : Policy) (scope : Scope) (s : RateDb) (o : Option Binding)
    → IsBalanced s
    → IsBalanced (add_binding p scope s o).1
unfolding add_binding
add_binding-IsBalanced p scope s (some b) v = v
add_binding-IsBalanced p scope s none v = record {
  balanced = v.balanced;
  bucket_ids = v.bucket_ids;
  membership_ids = v.membership_ids;
  single = v.single;
}

ensure_each-IsBalanced :
    (db_now : Time) (p : Policy) (ts : List Scope) (s : RateDb)
    → IsBalanced s
    → IsBalanced (ensure_each db_now p ts s)
unfolding ensure_each
ensure_each-IsBalanced db_now p [] s v = v
ensure_each-IsBalanced db_now p (t ∷ ts) s v =
    ensure_each-IsBalanced db_now p ts _ (
      add_bucket-IsBalanced db_now t (ensure_binding p t s).0 _ _
        (add_binding-IsBalanced p t s _ v))

grant-IsBalanced :
    (g : Registry) (q : ReserveRequest) (rows : List Row) (s s' : RateDb) (d : RateDecision)
    → All (λ (r : Row). r.bucket.id < s.next_bucket_id) rows
    → IsBalanced s
    → grant g q rows s ≡ ok (s', d)
    → IsBalanced s'
unfolding grant
grant-IsBalanced g q rows s s' d k v h =
    elim (Option-cases (find? (λ (r : Run). r.id == q.ingestion_run_id) g.runs)) [
      | inl e ↦ absurd (ground arith)
      | inr (run, e) ↦
          elim (Result-cases (charge q.now s.next_reservation_id rows (with_reservation q s))) [
            | inl (x, c) ↦ absurd (ground arith)
            | inr (t, c) ↦
                let same : t ≡ s' = ground arith in
                subst IsBalanced same (
                  charge-IsBalanced q.now s.next_reservation_id rows (with_reservation q s) t k
                    (record {
                      balanced = v.balanced;
                      bucket_ids = v.bucket_ids;
                      membership_ids = v.membership_ids;
                      single = v.single;
                    })
                    c)
          ]
    ]

decide-IsBalanced :
    (g : Registry) (q : ReserveRequest) (rows : List Row) (c : Option (Row × Time)) (s s' : RateDb)
    (d : RateDecision)
    → All (λ (r : Row). r.bucket.id < s.next_bucket_id) rows
    → IsBalanced s
    → decide g q rows c s ≡ ok (s', d)
    → IsBalanced s'
unfolding decide
decide-IsBalanced g q rows none s s' d k v h = grant-IsBalanced g q rows s s' d k v h
decide-IsBalanced g q rows (some (r, t)) s s' d k v h =
    let same : record s {
      buckets = update (has_id r.bucket.id) (λ b. record b { next_eligible_at = some t }) s.buckets;
    }
        ≡ s' =
      ground arith in
    subst IsBalanced same (update_buckets-IsBalanced (has_id r.bucket.id) _ s (λ b. (refl, refl)) v)

settle-IsBalanced :
    (g : Registry) (q : ReserveRequest) (scopes : List Scope) (s s' : RateDb) (d : RateDecision)
    → IsBalanced s
    → settle g q scopes s ≡ ok (s', d)
    → IsBalanced s'
unfolding settle rows_of
settle-IsBalanced g q scopes s s' d v h =
    decide-IsBalanced g q (rows_of scopes s) (controlling_from q.now none (rows_of scopes s)) _ s' d
      (joined-All s.next_bucket_id s.policies s.bindings scopes s.buckets v.bucket_ids)
      (refresh_rows-IsBalanced q.now (rows_of scopes s) s v) h

authorize-IsBalanced :
    (g : Registry) (q : ReserveRequest) (scopes : List Scope) (s s' : RateDb) (d : RateDecision)
    → IsBalanced s
    → authorize g q scopes s ≡ ok (s', d)
    → IsBalanced s'
unfolding authorize expire_abandoned
authorize-IsBalanced g q scopes s s' d v h =
    elim (Bool-cases (is_complete scopes (rows_of scopes s))) [
      | inr e ↦ absurd (ground arith)
      | inl e ↦
          settle-IsBalanced g q scopes (expire_abandoned q.now (rows_of scopes s) s) s' d
            (expire_each-IsBalanced q.now
              (filter (is_abandoned q.now (rows_of scopes s) s.memberships) s.reservations) s v)
            (rw e at h)
    ]

pub reserve-IsBalanced :
    (urlsplit : String → SplitUrl) (g : Registry) (q : ReserveRequest) (s s' : RateDb)
    (d : RateDecision)
    → IsBalanced s
    → reserve urlsplit g q s ≡ ok (s', d)
    → IsBalanced s'
unfolding reserve ensure_default_buckets
reserve-IsBalanced urlsplit g q s s' d v h = elim (Bool-cases (is_positive q.reservation_ttl)) [
  | inr e ↦ absurd (ground arith)
  | inl e ↦ elim (Option-cases (find? (is_replay q) s.reservations)) [
    | inr (r, k) ↦ let same : s ≡ s' = ground arith in subst IsBalanced same v
    | inl k ↦ elim (Result-cases (targets urlsplit g q.source_endpoint_id q.secret_reference_ids)) [
      | inl (x, t) ↦ absurd (ground arith)
      | inr (scopes, t) ↦ elim (Option-cases (find? is_installation_default s.policies)) [
        | inl p ↦ absurd (ground arith)
        | inr (p, f) ↦
            authorize-IsBalanced g q scopes (ensure_each q.db_now p scopes s) s' d
              (ensure_each-IsBalanced q.db_now p scopes s v) (ground arith)
      ]
    ]
  ]
]
