-- ===== src/Lease/Fencing.antt =====
-- A lease that has been expired, released or failed is over: its token authorises nothing again.
use global_news_intelligence.Prelude.{
  ℕ, String, ◌≡◌, ◌≢◌, inl, inr, refl, Bool, true, false, ◌&&◌, none, some, List, [], ◌∷◌, any,
  find?, update, any-append, any-update, err, lease_error, Time, ℤ, is_positive, ◌==◌, arith,
  Option-cases,
}
use global_news_intelligence.Lease.{
  Lease, LeaseDb, is_active, has_token, heartbeat, finalize, parse_outcome,
}
use global_news_intelligence.Lease.Operations.{Operation, run, Inserted, Harmless, run_rule}

abbrev pub is_current : ℕ → Lease → Bool
is_current token l = has_token token l && is_active l.status

-- The token is on record, and on no active lease.
pub record Retired (token : ℕ) (leases : List Lease) : Type 0 where
  pub known : any (has_token token) leases ≡ true
  pub inactive : any (is_current token) leases ≡ false

module _ (token : ℕ) where
  any-update_inactive :
      (p : Lease → Bool) (f : Lease → Lease) (xs : List Lease)
      → Harmless f
      → any (is_current token) xs ≡ false
      → any (is_current token) (update p f xs) ≡ false
  unfolding any update
  any-update_inactive p f [] h e = refl
  any-update_inactive p f (x ∷ xs) h e =
      ground (arith, h.token x, h.status x, any-update_inactive p f xs h)

  update-Retired :
      (p : Lease → Bool) (f : Lease → Lease) (xs : List Lease)
      → Harmless f
      → Retired token xs
      → Retired token (update p f xs)
  update-Retired p f xs h v = record {
    known = rw (any-update (has_token token) p f xs (λ x. rw (h.token x))) v.known;
    inactive = any-update_inactive p f xs h v.inactive;
  }

  any_same_token :
      (t : ℕ) (xs : List Lease)
      → any (has_token token) xs ≡ true
      → any (has_token t) xs ≡ false
      → (t == token) ≡ false
  unfolding any
  any_same_token t [] h k = absurd (cc)
  any_same_token t (x ∷ xs) h k = ground (arith, any_same_token t xs)

  pub insert-Retired :
      (l : Lease) (s s' : LeaseDb)
      → Inserted l s s'
      → Retired token s.leases
      → Retired token s'.leases
  unfolding any
  insert-Retired l s s' i v = rw i.stored (record {
    known = rw (any-append (has_token token) s.leases (l ∷ [])) (ground (arith, v));
    inactive =
        rw (any-append (is_current token) s.leases (l ∷ []))
          (ground (arith, v, any_same_token l.lease_token s.leases v.known i.new_token));
  })

  pub run-Retired :
      (s : LeaseDb) (ops : List Operation)
      → Retired token s.leases
      → Retired token (run s ops).leases
  run-Retired = run_rule (Retired token) update-Retired insert-Retired

  found_inactive :
      (xs : List Lease) (l : Lease)
      → any (is_current token) xs ≡ false
      → find? (has_token token) xs ≡ some l
      → is_active l.status ≡ false
  unfolding any find?
  found_inactive [] l h e = absurd (cc)
  found_inactive (x ∷ xs) l h e = ground (arith, found_inactive xs l)

-- The two calls that need a current token, on a positive duration and on an outcome that is known.
pub heartbeat-Retired :
    (token : ℕ) (owner : String) (ttl : ℤ) (now : Time) (s : LeaseDb)
    → Retired token s.leases
    → is_positive ttl ≡ true
    → heartbeat token owner ttl now s ≡ err lease_error
unfolding heartbeat
heartbeat-Retired token owner ttl now s v p =
    elim (Option-cases (find? (has_token token) s.leases)) [
      | inl q ↦ ground arith
      | inr (l, q) ↦ ground (arith, found_inactive token s.leases l v.inactive q)
    ]

pub finalize-Retired :
    (token : ℕ) (owner outcome : String) (now : Time) (s : LeaseDb)
    → Retired token s.leases
    → parse_outcome outcome ≢ none
    → finalize token owner outcome now s ≡ err lease_error
unfolding finalize
finalize-Retired token owner outcome now s v p =
    elim (Option-cases (find? (has_token token) s.leases)) [
      | inl q ↦ ground arith
      | inr (l, q) ↦ ground (arith, found_inactive token s.leases l v.inactive q)
    ]
