-- ===== src/Lease/Constraints.antt =====
-- When `acquire` cannot meet a constraint of the lease table.
use global_news_intelligence.Prelude.{
  ℕ, ◌+◌, ◌≡◌, ◌≢◌, refl, true, false, Option, none, some, any, find?, any-update, any-find?-none,
  any_of_find?, find?-holds, eq_refl, Result, trigger_error, arith, Bool-cases, Option-cases, inl,
  inr, err, integrity_error, is_positive, ltb, lt-shift,
}
use global_news_intelligence.Lease.{
  Lease, LeaseDb, LeaseDecision, EndpointConfiguration, AcquireRequest, DecisionState,
  passes_trigger, expire, acquired, taken_over, has_token, has_id, holds_active, holds_identity,
  is_active_configuration, is_blank, satisfies_checks, insert_lease, log_event, new_lease, create,
  mark, LeaseStatus, expired_by, take_over, acquire,
}
use global_news_intelligence.Lease.Tables.{is_exact, has_run}
use global_news_intelligence.Lease.Invariant.{IsConsistent}
use global_news_intelligence.Lease.Grants.{lapse, lapse-none_active}

-- A positive duration, identifiers that are not blank and a token that no row has.
pub record IsWellFormed (r : AcquireRequest) (s : LeaseDb) : Type 0 where
  pub positive : is_positive r.ttl ≡ true
  pub identity : is_blank r.execution_identity ≡ false
  pub owner : is_blank r.owner_identifier ≡ false
  pub versions :
      (c : EndpointConfiguration)
      → find? (is_active_configuration r.source_endpoint_id) s.configurations ≡ some c
      → is_blank c.configuration_version ≡ false
  pub fresh : any (has_token r.token) s.leases ≡ false
  pub run : has_run r.ingestion_run_id r.source_endpoint_id s.runs ≡ true
  pub current :
      (l : Lease)
      → find? (holds_active r.source_endpoint_id) s.leases ≡ some l
      → passes_trigger l s ≡ true

-- The call meets neither a constraint nor the trigger.
MeetsNone : Result (LeaseDb × LeaseDecision) → Type 0
MeetsNone m = (m ≢ err integrity_error) × (m ≢ err trigger_error)

-- The configuration that was found is the exact one of the new row.
new_lease-passes :
    (r : AcquireRequest) (c : EndpointConfiguration) (n : ℕ) (s0 s : LeaseDb)
    → IsWellFormed r s0
    → find? (is_active_configuration r.source_endpoint_id) s0.configurations ≡ some c
    → s.configurations ≡ s0.configurations
    → s.runs ≡ s0.runs
    → passes_trigger (new_lease r c n s) s ≡ true
unfolding passes_trigger new_lease
new_lease-passes r c n s0 s w q same runs =
    let active : is_active_configuration r.source_endpoint_id c ≡ true =
      find?-holds (is_active_configuration r.source_endpoint_id) s0.configurations c q in
    let exact : is_exact (new_lease r c n s) c ≡ true =
      ground (arith, eq_refl c.configuration_version, active) in
    let named : any (is_exact (new_lease r c n s)) s0.configurations ≡ true =
      any_of_find? (is_active_configuration r.source_endpoint_id) _ s0.configurations c q exact in
    rw (same, runs, named) w.run

-- The row that a well-formed call makes passes the constraints of a table without its keys.
create-MeetsNone :
    (r : AcquireRequest) (c : EndpointConfiguration) (state : DecisionState) (n : ℕ)
    (s0 s : LeaseDb)
    → IsWellFormed r s0
    → is_blank c.configuration_version ≡ false
    → any (holds_identity r.source_endpoint_id r.execution_identity) s.leases ≡ false
    → any (holds_active r.source_endpoint_id) s.leases ≡ false
    → any (has_token r.token) s.leases ≡ false
    → passes_trigger (new_lease r c n s) s ≡ true
    → MeetsNone (create r c state n s)
unfolding create insert_lease satisfies_checks new_lease MeetsNone
create-MeetsNone r c state n s0 s w b i a t p =
    (ground (arith, w.positive, w.identity, w.owner, lt-shift r.now r.ttl, p), ground (arith, p))

take_over-MeetsNone :
    (r : AcquireRequest) (c : EndpointConfiguration) (o : Option Lease) (s : LeaseDb)
    → IsWellFormed r s
    → find? (is_active_configuration r.source_endpoint_id) s.configurations ≡ some c
    → find? (holds_identity r.source_endpoint_id r.execution_identity) s.leases ≡ none
    → any (holds_active r.source_endpoint_id) (lapse r o s).leases ≡ false
    → ((l : Lease) → o ≡ some l → passes_trigger l s ≡ true)
    → MeetsNone (take_over r c o s)
unfolding take_over expire MeetsNone
take_over-MeetsNone r c none s w q p a k =
    create-MeetsNone r c acquired 0 s s w (w.versions c q) (any-find?-none _ _ p) a w.fresh
      (new_lease-passes r c 0 s s w q refl refl)
take_over-MeetsNone r c (some l) s w q p a k = elim (Bool-cases (ltb r.now l.expires_at)) [
  | inl running ↦ (ground arith, ground arith)
  | inr lapsed ↦
      rw (lapsed, k l refl, w.owner)
        (create-MeetsNone r c taken_over (l.takeover_count + 1) s (expired_by r l s) w
          (w.versions c q)
          (unfold expired_by log_event in
            rw (any-update _ (has_id l.id) (mark LeaseStatus.expired r.now) s.leases (λ x. refl))
              (any-find?-none _ _ p))
          a
          (unfold expired_by log_event in
            rw (any-update _ (has_id l.id) (mark LeaseStatus.expired r.now) s.leases (λ x. refl))
              w.fresh)
          (new_lease-passes r c (l.takeover_count + 1) s (expired_by r l s) w q
            (unfold expired_by log_event in refl) (unfold expired_by log_event in refl)))
]

-- In a consistent table a well-formed call meets neither a constraint nor the trigger of the leases:
-- its duration is positive, its identifiers are not blank, its token is new, its run, if it names
-- one, is of the endpoint, and the lease that it may take over still passes the trigger.
pub acquire-ne-integrity :
    (r : AcquireRequest) (s : LeaseDb)
    → IsConsistent s.leases
    → IsWellFormed r s
    → (acquire r s ≢ err integrity_error) × (acquire r s ≢ err trigger_error)
unfolding acquire MeetsNone
acquire-ne-integrity r s v w =
    elim (Option-cases (find? (holds_identity e r.execution_identity) s.leases)) [
      | inr (l, p) ↦ rw (p, w.owner) (ground arith, ground arith)
      | inl p ↦ elim (Option-cases (find? (is_active_configuration e) s.configurations)) [
        | inl q ↦ rw (p, q) (ground arith, ground arith)
        | inr (c, q) ↦
            rw (p, q)
              (take_over-MeetsNone r c (find? (holds_active e) s.leases) s w q p
                (lapse-none_active r s v) w.current)
      ]
    ]
  where
    open r use {source_endpoint_id as e}
