-- ===== src/Lease/Takeover.antt =====
-- Fencing: whoever loses a lease, by a takeover or by finalizing it, has lost it for good.
use global_news_intelligence.Prelude.{
  ℕ, String, ◌≡◌, ◌≢◌, refl, sym, ◌∙◌, subst, Bool, true, false, none, some, List, find?, update,
  any-update, any_of_count, any_of_find?, count-le, count-update_lt, find?-holds, ok, err,
  lease_error, Time, ℤ, is_positive, arith,
}
use global_news_intelligence.Lease.{
  Lease, LeaseDb, LeaseStatus, AcquireRequest, LeaseDecision, is_active, is_acquired, has_token,
  has_id, holds_active, mark, expired_by, log_event, acquire, heartbeat, finalize, parse_outcome,
}
use global_news_intelligence.Lease.Operations.{
  Operation, run, finalize-Finalized, parse_outcome-inactive,
}
use global_news_intelligence.Lease.Invariant.{IsConsistent}
use global_news_intelligence.Lease.Grants.{acquire-Granted, lapse}
use global_news_intelligence.Lease.Fencing.{
  Retired, is_current, insert-Retired, run-Retired, heartbeat-Retired, finalize-Retired,
}

-- An active row that a look-up finds is retired when it is marked with another status.
mark-Retired :
    (p : Lease → Bool) (xs : List Lease) (l : Lease) (st : LeaseStatus) (now : Time)
    → IsConsistent xs
    → find? p xs ≡ some l
    → is_active l.status ≡ true
    → is_active st ≡ false
    → Retired l.lease_token (update (has_id l.id) (mark st now) xs)
mark-Retired p xs l st now v found live dead = record {
  known =
      rw (any-update (has_token t) (has_id l.id) (mark st now) xs (λ x. refl))
        (any_of_find? p (has_token t) xs l found (ground arith));
  inactive = any_of_count (is_current t) _ (
      omega (
        arith,
        v.one_token t,
        count-le (is_current t) (has_token t) xs (λ a. ground arith),
        count-update_lt p (is_current t) (has_id l.id) (mark st now) xs l
            (λ b. ground (arith, dead)) found (ground arith) (ground arith),
      ));
}
  where
    open l use {lease_token as t}

-- Both calls that need a token refuse a retired one, now and after any further transactions.
refused :
    (token : ℕ) (s : LeaseDb) (ops : List Operation) (owner outcome : String) (ttl : ℤ) (now : Time)
    → Retired token s.leases
    → is_positive ttl ≡ true
    → parse_outcome outcome ≢ none
    → (heartbeat token owner ttl now (run s ops) ≡ err lease_error)
      × (finalize token owner outcome now (run s ops) ≡ err lease_error)
refused token s ops owner outcome ttl now v p q = (
  heartbeat-Retired token owner ttl now (run s ops) (run-Retired token s ops v) p,
  finalize-Retired token owner outcome now (run s ops) (run-Retired token s ops v) q,
)

-- In a consistent table, once a call is granted the lease of an endpoint whose active lease another
-- execution held, the token of that lease is refused by `heartbeat` and `finalize` after any
-- further transactions of the service, for every owner, positive duration and known outcome.
pub takeover_fences :
    (r : AcquireRequest) (s s' : LeaseDb) (d : LeaseDecision) (l : Lease) (ops : List Operation)
    (owner outcome : String) (ttl : ℤ) (now : Time)
    → IsConsistent s.leases
    → find? (holds_active r.source_endpoint_id) s.leases ≡ some l
    → acquire r s ≡ ok (s', d)
    → is_acquired d.state ≡ true
    → is_positive ttl ≡ true
    → parse_outcome outcome ≢ none
    → (heartbeat l.lease_token owner ttl now (run s' ops) ≡ err lease_error)
      × (finalize l.lease_token owner outcome now (run s' ops) ≡ err lease_error)
takeover_fences r s s' d l ops owner outcome ttl now v p h g =
    let n = acquire-Granted r s s' d h g in
    let lapsed : n.before ≡ some l = sym n.found ∙ p in
    let retired : Retired l.lease_token (lapse r n.before s).leases = rw lapsed (
      unfold expired_by log_event in
      mark-Retired (holds_active r.source_endpoint_id) s.leases l LeaseStatus.expired r.now v p
        (ground (arith, find?-holds (holds_active r.source_endpoint_id) s.leases l p)) refl) in
    refused l.lease_token s' ops owner outcome ttl now
      (insert-Retired l.lease_token d.lease (lapse r n.before s) s' n.inserted retired)

-- In a consistent table, a token that has been finalized is refused by `heartbeat` and by a second
-- `finalize` after any further transactions, for every owner, positive duration and known outcome.
pub finalize_fences :
    (token : ℕ) (owner outcome : String) (now : Time) (s s' : LeaseDb) (l : Lease)
    (ops : List Operation) (owner' outcome' : String) (ttl : ℤ) (now' : Time)
    → IsConsistent s.leases
    → finalize token owner outcome now s ≡ ok (s', l)
    → is_positive ttl ≡ true
    → parse_outcome outcome' ≢ none
    → (heartbeat token owner' ttl now' (run s' ops) ≡ err lease_error)
      × (finalize token owner' outcome' now' (run s' ops) ≡ err lease_error)
finalize_fences token owner outcome now s s' l ops owner' outcome' ttl now' v h =
    let b = finalize-Finalized token owner outcome now s s' l h in
    let same : b.before.lease_token ≡ token =
      ground (arith, find?-holds (has_token token) s.leases b.before b.found) in
    refused token s' ops owner' outcome' ttl now' (
      rw b.stored (
        subst (λ t. Retired t (update (has_id b.before.id) (mark b.status now) s.leases)) same
          (mark-Retired (has_token token) s.leases b.before b.status now v b.found
            (ground (arith, b.authority)) (parse_outcome-inactive outcome b.status b.parsed))))
