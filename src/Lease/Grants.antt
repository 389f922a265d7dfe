-- ===== src/Lease/Grants.antt =====
-- What a call of `acquire` that grants a lease has found and done, and when it refuses.
use global_news_intelligence.Prelude.{
  ℕ, ◌+◌, ◌<◌, subst, ◌≡◌, refl, Bool, true, false, Option, none, some, [], ◌∷◌, any, find?, count,
  count-append, count-update_lt, any_of_count, any-find?-none, find?_of_any, find?-holds,
  find?-append_one, count_of_any, eq_refl, arith, Bool-cases, Option-cases, Result-cases, inl, inr,
  ok, shift, ltb, leb, Time,
}
use global_news_intelligence.Lease.{
  Lease, LeaseDb, EndpointConfiguration, AcquireRequest, LeaseDecision, DecisionState, replayed,
  acquired, taken_over, is_acquired, has_id, holds_active, holds_identity, is_active_configuration,
  insert_lease, log_event, new_lease, create, mark, LeaseStatus, LeaseEventType, EventDetails,
  expire, expired_by, is_blank, take_over, acquire,
}
use global_news_intelligence.Lease.Operations.{Inserted, insert-Inserted}
use global_news_intelligence.Lease.Invariant.{IsConsistent}

-- The tables once the lapsed lease, if there is one, is marked expired.
abbrev pub lapse : AcquireRequest → Option Lease → LeaseDb → LeaseDb
lapse r none s = s
lapse r (some l) s = expired_by r l s

abbrev pub takeovers : Option Lease → ℕ
takeovers none = 0
takeovers (some l) = l.takeover_count + 1

abbrev pub is_over : Time → Option Lease → Bool
is_over now none = true
is_over now (some l) = leb l.expires_at now

pub record Granted (r : AcquireRequest) (s s' : LeaseDb) (d : LeaseDecision) : Type 0 where
  pub configuration : EndpointConfiguration
  pub configured :
      find? (is_active_configuration r.source_endpoint_id) s.configurations ≡ some configuration
  pub unseen : find? (holds_identity r.source_endpoint_id r.execution_identity) s.leases ≡ none
  pub before : Option Lease
  pub found : find? (holds_active r.source_endpoint_id) s.leases ≡ before
  pub over : is_over r.now before ≡ true
  pub made : d.lease ≡ new_lease r configuration (takeovers before) (lapse r before s)
  pub inserted : Inserted d.lease (lapse r before s) s'

-- A `create` that returns has stored the row and returns it.
create-ok :
    (r : AcquireRequest) (c : EndpointConfiguration) (state : DecisionState) (n : ℕ)
    (s s' : LeaseDb) (d : LeaseDecision)
    → create r c state n s ≡ ok (s', d)
    → (d.lease ≡ new_lease r c n s) × Inserted (new_lease r c n s) s s'
unfolding create log_event
create-ok r c state n s s' d h = elim (Result-cases (insert_lease (new_lease r c n s) s)) [
  | inl (e, p) ↦ absurd (ground arith)
  | inr (t, p) ↦
      let i = insert-Inserted (new_lease r c n s) s t p in
      (
        ground arith,
        record {
          checked = i.checked;
          new_identity = i.new_identity;
          only_active = i.only_active;
          new_token = i.new_token;
          stored = ground (arith, i.stored);
        },
      )
]

take_over-Granted :
    (r : AcquireRequest) (c : EndpointConfiguration) (o : Option Lease) (s s' : LeaseDb)
    (d : LeaseDecision)
    → take_over r c o s ≡ ok (s', d)
    → is_acquired d.state ≡ true
    → (is_over r.now o ≡ true)
      × (d.lease ≡ new_lease r c (takeovers o) (lapse r o s))
      × Inserted (new_lease r c (takeovers o) (lapse r o s)) (lapse r o s) s'
unfolding take_over expire is_acquired
take_over-Granted r c none s s' d h g =
    let (made, put) = create-ok r c acquired 0 s s' d h in (refl, made, put)
take_over-Granted r c (some l) s s' d h g = elim (Bool-cases (ltb r.now l.expires_at)) [
  | inl running ↦ absurd (ground arith)
  | inr lapsed ↦
      let (made, put) =
        create-ok r c taken_over (l.takeover_count + 1) (expired_by r l s) s' d (ground arith) in
      (ground arith, made, put)
]

pub acquire-Granted :
    (r : AcquireRequest) (s s' : LeaseDb) (d : LeaseDecision)
    → acquire r s ≡ ok (s', d)
    → is_acquired d.state ≡ true
    → Granted r s s' d
unfolding acquire is_acquired
acquire-Granted r s s' d h g =
    elim (Option-cases
      (find? (holds_identity r.source_endpoint_id r.execution_identity) s.leases)) [
        | inr (l, p) ↦ absurd (ground arith)
        | inl p ↦
            elim (Option-cases
              (find? (is_active_configuration r.source_endpoint_id) s.configurations)) [
                | inl q ↦ absurd (ground arith)
                | inr (c, q) ↦
                    let o : Option Lease = find? (holds_active r.source_endpoint_id) s.leases in
                    let taken : take_over r c o s ≡ ok (s', d) = ground arith in
                    let (over, made, put) = take_over-Granted r c o s s' d taken g in
                    record {
                      configuration = c;
                      configured = q;
                      unseen = p;
                      before = o;
                      found = refl;
                      over = over;
                      made = made;
                      inserted = rw made put;
                    }
              ]
      ]

-- The holder that a grant replaces is marked expired in the resulting table.
pub lapse-none_active :
    (r : AcquireRequest) (s : LeaseDb)
    → IsConsistent s.leases
    → any
        (holds_active r.source_endpoint_id)
        (lapse r (find? (holds_active r.source_endpoint_id) s.leases) s).leases
      ≡ false
unfolding expired_by log_event
lapse-none_active r s v = elim (Option-cases (find? (holds_active r.source_endpoint_id) s.leases)) [
  | inl p ↦ rw p (any-find?-none (holds_active r.source_endpoint_id) s.leases p)
  | inr (l, p) ↦ rw p (
      any_of_count (holds_active e) _ (
        omega (
          arith,
          v.one_active e,
          count-update_lt (holds_active e) (holds_active e) (has_id l.id)
              (mark LeaseStatus.expired r.now) s.leases l (λ b. ground arith) p
              (find?-holds (holds_active e) s.leases l p) (ground arith),
        )))
]
  where
    open r use {source_endpoint_id as e}

-- After a grant in a consistent table the new lease is the endpoint's one active lease, held by the caller until the end
-- of its duration.
pub granted_exclusive :
    (r : AcquireRequest) (s s' : LeaseDb) (d : LeaseDecision)
    → IsConsistent s.leases
    → acquire r s ≡ ok (s', d)
    → is_acquired d.state ≡ true
    → (find? (holds_active r.source_endpoint_id) s'.leases ≡ some d.lease)
      × (count (holds_active r.source_endpoint_id) s'.leases ≡ 1)
      × (d.lease.owner_identifier ≡ r.owner_identifier)
      × (d.lease.lease_token ≡ r.token)
      × (d.lease.expires_at ≡ shift r.now r.ttl)
unfolding new_lease count
granted_exclusive r s s' d v h g =
    let n = acquire-Granted r s s' d h g in
    let none_active : any (holds_active e) (lapse r n.before s).leases ≡ false =
      subst (λ o. any (holds_active e) (lapse r o s).leases ≡ false) n.found
        (lapse-none_active r s v) in
    let hit : holds_active e d.lease ≡ true = ground (arith, n.made) in
    (
      rw (
        n.inserted.stored,
        find?-append_one (holds_active e) _ d.lease (find?_of_any _ _ none_active),
        hit,
      ),
      rw (
        n.inserted.stored,
        count-append (holds_active e) (lapse r n.before s).leases (d.lease ∷ []),
        count_of_any (holds_active e) _ none_active,
        hit,
      ),
      ground (arith, n.made),
      ground (arith, n.made),
      ground (arith, n.made),
    )
  where
    open r use {source_endpoint_id as e}

-- While another execution holds an unexpired lease, no call is granted one, and none changes the
-- lease table.
pub held_refuses :
    (r : AcquireRequest) (s s' : LeaseDb) (d : LeaseDecision) (l : Lease)
    → find? (holds_active r.source_endpoint_id) s.leases ≡ some l
    → r.now < l.expires_at
    → acquire r s ≡ ok (s', d)
    → (is_acquired d.state ≡ false) × (s'.leases ≡ s.leases)
unfolding acquire is_acquired log_event
held_refuses r s s' d l p t h =
    elim (Option-cases
      (find? (holds_identity r.source_endpoint_id r.execution_identity) s.leases)) [
        | inr (x, q) ↦ ground arith
        | inl q ↦
            elim (Option-cases
              (find? (is_active_configuration r.source_endpoint_id) s.configurations)) [
                | inl k ↦ absurd (ground arith)
                | inr (c, k) ↦ ground arith
              ]
      ]

-- An execution that was granted is answered by the lease that it has, whenever and by whichever
-- owner with a name that is not blank it asks again, and the lease table stays as it is.
pub acquire_again :
    (r r' : AcquireRequest) (s s' : LeaseDb) (d : LeaseDecision)
    → acquire r s ≡ ok (s', d)
    → is_acquired d.state ≡ true
    → r'.source_endpoint_id ≡ r.source_endpoint_id
    → r'.execution_identity ≡ r.execution_identity
    → is_blank r'.owner_identifier ≡ false
    → (t : LeaseDb) × (acquire r' s' ≡ ok (t, record { state = replayed; lease = d.lease }))
      × (t.leases ≡ s'.leases)
unfolding acquire log_event new_lease
acquire_again r r' s s' d h g e i b =
    let n = acquire-Granted r s s' d h g in
    let hit : holds_identity r.source_endpoint_id r.execution_identity d.lease ≡ true =
      rw n.made (ground (arith, eq_refl r.execution_identity)) in
    let fresh : any (holds_identity r.source_endpoint_id r.execution_identity)
          (lapse r n.before s).leases
        ≡ false =
      subst
        (λ l.
          any (holds_identity l.source_endpoint_id l.execution_identity) (lapse r n.before s).leases
          ≡ false)
        n.made n.inserted.new_identity in
    let held : find? (holds_identity r'.source_endpoint_id r'.execution_identity) s'.leases
        ≡ some d.lease =
      rw (e, i, n.inserted.stored, find?-append_one _ _ d.lease (find?_of_any _ _ fresh), hit) in
    (
      log_event d.lease.id LeaseEventType.replayed r'.owner_identifier
          (EventDetails.existing_status d.lease.status) s',
      rw (held, b),
      refl,
    )
