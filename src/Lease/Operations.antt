-- ===== src/Lease/Operations.antt =====
-- Sequences of transactions of the lease service, and the rule by which a property of the lease
-- table outlives them: it survives an insert that the constraints admit and any update that
-- reactivates nothing.
use global_news_intelligence.Prelude.{
  ℕ, String, ◌≡◌, refl, inl, inr, Bool, true, false, ◌&&◌, Option, none, some, List, [], ◌∷◌, ◌++◌,
  any, find?, update, ok, after, Time, ℤ, shift, is_positive, str_eq, ltb, arith, Bool-cases,
  Option-cases, Result-cases, ◌+◌, ◌>>=◌,
}
use global_news_intelligence.Lease.{
  Lease, LeaseDb, LeaseStatus, EndpointConfiguration, AcquireRequest, DecisionState, is_active,
  holds_identity, holds_active, has_token, has_id, satisfies_checks, insert_lease, log_event,
  is_active_configuration, new_lease, create, expire, expired_by, passes_trigger, is_blank,
  take_over, acquire_new, replay, acquire, heartbeat, has_authority, parse_outcome, finalize, mark,
}

pub data Operation : Type 0 where
  acquires : AcquireRequest → Operation
  heartbeats : ℕ → String → ℤ → Time → Operation
  finalizes : ℕ → String → String → Time → Operation

-- A transaction that raises is rolled back.
unfoldable pub step : LeaseDb → Operation → LeaseDb
step s (acquires r) = after s (acquire r s)
step s (heartbeats token owner ttl now) = after s (heartbeat token owner ttl now s)
step s (finalizes token owner outcome now) = after s (finalize token owner outcome now s)

unfoldable pub run : LeaseDb → List Operation → LeaseDb
run s [] = s
run s (op ∷ ops) = run (step s op) ops

-- What the constraints have checked when a row has gone in.
pub record Inserted (l : Lease) (s s' : LeaseDb) : Type 0 where
  pub checked : satisfies_checks l ≡ true
  pub new_identity : any (holds_identity l.source_endpoint_id l.execution_identity) s.leases ≡ false
  pub only_active : (is_active l.status && any (holds_active l.source_endpoint_id) s.leases) ≡ false
  pub new_token : any (has_token l.lease_token) s.leases ≡ false
  pub stored : s'.leases ≡ s.leases ++ l ∷ []

pub insert-Inserted : (l : Lease) (s s' : LeaseDb) → insert_lease l s ≡ ok s' → Inserted l s s'
unfolding insert_lease
insert-Inserted l s s' h = ground arith

-- What a call of `heartbeat` or `finalize` that returns has found and done.
pub record Beaten (token : ℕ) (owner : String) (ttl : ℤ) (now : Time) (s s' : LeaseDb) (l' : Lease)
    : Type 0 where
  pub positive : is_positive ttl ≡ true
  pub before : Lease
  pub found : find? (has_token token) s.leases ≡ some before
  pub authority : has_authority owner now before ≡ true
  pub returned : l' ≡ record before { heartbeat_at = now; expires_at = shift now ttl }
  pub checked : satisfies_checks l' ≡ true
  pub stored :
      s'.leases
      ≡ update
          (has_id before.id)
          (λ x. record x { heartbeat_at = now; expires_at = shift now ttl })
          s.leases

pub heartbeat-Beaten :
    (token : ℕ) (owner : String) (ttl : ℤ) (now : Time) (s s' : LeaseDb) (l' : Lease)
    → heartbeat token owner ttl now s ≡ ok (s', l')
    → Beaten token owner ttl now s s' l'
unfolding heartbeat log_event
heartbeat-Beaten token owner ttl now s s' l' h =
    elim (Option-cases (find? (has_token token) s.leases)) [
      | inl p ↦ absurd (ground arith)
      | inr (l, p) ↦ record {
        positive = ground arith;
        before = l;
        found = p;
        authority = ground arith;
        returned = ground arith;
        checked = ground arith;
        stored = ground arith;
      }
    ]

pub record Finalized (token : ℕ) (owner outcome : String) (now : Time) (s s' : LeaseDb) (l' : Lease)
    : Type 0 where
  pub status : LeaseStatus
  pub parsed : parse_outcome outcome ≡ some status
  pub before : Lease
  pub found : find? (has_token token) s.leases ≡ some before
  pub authority : (is_active before.status && str_eq before.owner_identifier owner) ≡ true
  pub returned : l' ≡ mark status now before
  pub stored : s'.leases ≡ update (has_id before.id) (mark status now) s.leases

pub finalize-Finalized :
    (token : ℕ) (owner outcome : String) (now : Time) (s s' : LeaseDb) (l' : Lease)
    → finalize token owner outcome now s ≡ ok (s', l')
    → Finalized token owner outcome now s s' l'
unfolding finalize log_event
finalize-Finalized token owner outcome now s s' l' h = elim (Option-cases (parse_outcome outcome)) [
  | inl q ↦ absurd (ground arith)
  | inr (st, q) ↦ elim (Option-cases (find? (has_token token) s.leases)) [
    | inl p ↦ absurd (ground arith)
    | inr (l, p) ↦ record {
      status = st;
      parsed = q;
      before = l;
      found = p;
      authority = ground arith;
      returned = ground arith;
      stored = ground arith;
    }
  ]
]

-- No outcome makes a lease active.
pub parse_outcome-inactive :
    (outcome : String) (st : LeaseStatus) → parse_outcome outcome ≡ some st → is_active st ≡ false
unfolding parse_outcome
parse_outcome-inactive outcome st h = ground arith

-- An update that keeps the keys and reactivates nothing.
pub record Harmless (f : Lease → Lease) : Type 0 where
  pub endpoint : (x : Lease) → (f x).source_endpoint_id ≡ x.source_endpoint_id
  pub identity : (x : Lease) → (f x).execution_identity ≡ x.execution_identity
  pub token : (x : Lease) → (f x).lease_token ≡ x.lease_token
  pub status : (x : Lease) → is_active x.status ≡ false → is_active (f x).status ≡ false

module _ (P : List Lease → Type 0)
    (keep_update : (p : Lease → Bool) (f : Lease → Lease) (xs : List Lease)
      → Harmless f
      → P xs
      → P (update p f xs))
    (keep_insert : (l : Lease) (s s' : LeaseDb) → Inserted l s s' → P s.leases → P s'.leases) where
  create_rule :
      (r : AcquireRequest) (c : EndpointConfiguration) (state : DecisionState) (n : ℕ)
      (s0 s : LeaseDb)
      → P s0.leases
      → P s.leases
      → P (after s0 (create r c state n s)).leases
  unfolding create
  create_rule r c state n s0 s h k =
      let lease = new_lease r c n s in
      elim (Result-cases (insert_lease lease s)) [
        | inl (e, p) ↦ rw p h
        | inr (s', p) ↦
            rw p (unfold log_event in keep_insert lease s s' (insert-Inserted lease s s' p) k)
      ]

  expire_rule :
      (r : AcquireRequest) (c : EndpointConfiguration) (n : ℕ) (l : Lease) (s : LeaseDb)
      → P s.leases
      → P (after s (create r c DecisionState.taken_over n (expired_by r l s))).leases
      → P (after s (expire r l s >>= (λ s'. create r c DecisionState.taken_over n s'))).leases
  unfolding expire
  expire_rule r c n l s h k = elim (Bool-cases (passes_trigger l s)) [
    | inr fails ↦ rw fails h
    | inl passes ↦ elim (Bool-cases (is_blank r.owner_identifier)) [
      | inl blank ↦ rw (passes, blank) h
      | inr named ↦ rw (passes, named) k
    ]
  ]

  take_over_rule :
      (r : AcquireRequest) (c : EndpointConfiguration) (o : Option Lease) (s : LeaseDb)
      → P s.leases
      → P (after s (take_over r c o s)).leases
  unfolding take_over
  take_over_rule r c none s h = create_rule r c DecisionState.acquired 0 s s h h
  take_over_rule r c (some l) s h = elim (Bool-cases (ltb r.now l.expires_at)) [
    | inl running ↦ rw running h
    | inr lapsed ↦ rw lapsed (
        expire_rule r c (l.takeover_count + 1) l s h (
          create_rule r c DecisionState.taken_over (l.takeover_count + 1) s (expired_by r l s) h (
            unfold expired_by log_event in
            keep_update (has_id l.id) _ s.leases
              (record {
                endpoint = λ x. refl;
                identity = λ x. refl;
                token = λ x. refl;
                status = λ x e. refl;
              })
              h)))
  ]

  acquire_new_rule :
      (r : AcquireRequest) (s : LeaseDb) → P s.leases → P (after s (acquire_new r s)).leases
  unfolding acquire_new
  acquire_new_rule r s h =
      elim (Option-cases (find? (is_active_configuration r.source_endpoint_id) s.configurations)) [
        | inl p ↦ rw p h
        | inr (c, p) ↦ rw p (take_over_rule r c _ s h)
      ]

  replay_rule :
      (r : AcquireRequest) (l : Lease) (s : LeaseDb)
      → P s.leases
      → P (after s (replay r (some l) s)).leases
  unfolding replay log_event
  replay_rule r l s h = elim (Bool-cases (is_blank r.owner_identifier)) [
    | inl blank ↦ rw blank h
    | inr named ↦ rw named h
  ]

  acquire_rule : (r : AcquireRequest) (s : LeaseDb) → P s.leases → P (after s (acquire r s)).leases
  unfolding acquire
  acquire_rule r s h =
      elim (Option-cases
        (find? (holds_identity r.source_endpoint_id r.execution_identity) s.leases)) [
          | inr (l, p) ↦ rw p (replay_rule r l s h)
          | inl p ↦ rw p (acquire_new_rule r s h)
        ]

  pub step_rule : (s : LeaseDb) (op : Operation) → P s.leases → P (step s op).leases
  unfolding step
  step_rule s (acquires r) h = acquire_rule r s h
  step_rule s (heartbeats token owner ttl now) h =
      elim (Result-cases (heartbeat token owner ttl now s)) [
        | inl (e, p) ↦ rw p h
        | inr ((s', l'), p) ↦
            let b = heartbeat-Beaten token owner ttl now s s' l' p in
            rw p (
              rw b.stored (
                keep_update (has_id b.before.id) _ s.leases
                  (record {
                    endpoint = λ x. refl;
                    identity = λ x. refl;
                    token = λ x. refl;
                    status = λ x e. e;
                  })
                  h))
      ]
  step_rule s (finalizes token owner outcome now) h =
      elim (Result-cases (finalize token owner outcome now s)) [
        | inl (e, p) ↦ rw p h
        | inr ((s', l'), p) ↦
            let b = finalize-Finalized token owner outcome now s s' l' p in
            rw p (
              rw b.stored (
                keep_update (has_id b.before.id) _ s.leases
                  (record {
                    endpoint = λ x. refl;
                    identity = λ x. refl;
                    token = λ x. refl;
                    status = λ x _. parse_outcome-inactive outcome b.status b.parsed;
                  })
                  h))
      ]

  pub run_rule : (s : LeaseDb) (ops : List Operation) → P s.leases → P (run s ops).leases
  unfolding run
  run_rule s [] h = h
  run_rule s (op ∷ ops) h = run_rule (step s op) ops (step_rule s op h)
