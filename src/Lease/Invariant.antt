-- ===== src/Lease/Invariant.antt =====
-- What the unique constraints keep true of the lease table through every transaction.
use global_news_intelligence.Prelude.{
  ℕ, ◌+◌, ◌≤◌, String, ◌≡◌, Bool, false, List, [], ◌∷◌, any, update, count, count-append,
  count-update_le, count_of_any, eq_iff, if◌then◌else◌, arith, Bool-cases, inl, inr,
}
use global_news_intelligence.Lease.{Lease, LeaseDb, has_token, holds_active, holds_identity}
use global_news_intelligence.Lease.Operations.{Operation, run, Inserted, Harmless, run_rule}

pub record IsConsistent (leases : List Lease) : Type 0 where
  pub one_active : (e : ℕ) → count (holds_active e) leases ≤ 1
  pub one_identity : (e : ℕ) (i : String) → count (holds_identity e i) leases ≤ 1
  pub one_token : (t : ℕ) → count (has_token t) leases ≤ 1

-- One new row raises a count by at most one, and by none if the row does not count.
count_after_insert :
    (p : Lease → Bool) (l : Lease) (s s' : LeaseDb)
    → Inserted l s s'
    → count p s'.leases ≡ count p s.leases + (if p l then 1 else 0)
unfolding count
count_after_insert p l s s' i = rw (i.stored, count-append p s.leases (l ∷ [])) (omega arith)

update-IsConsistent :
    (p : Lease → Bool) (f : Lease → Lease) (xs : List Lease)
    → Harmless f
    → IsConsistent xs
    → IsConsistent (update p f xs)
update-IsConsistent p f xs h v = record {
  one_active = λ e. omega (
    arith,
    v.one_active e,
    count-update_le (holds_active e) p f xs (λ a k. ground (arith, h.endpoint a, h.status a)),
  );
  one_identity = λ e i. omega (
    arith,
    v.one_identity e i,
    count-update_le (holds_identity e i) p f xs (λ a k. ground (arith, h.endpoint a, h.identity a)),
  );
  one_token = λ t. omega (
    arith,
    v.one_token t,
    count-update_le (has_token t) p f xs (λ a k. ground (arith, h.token a)),
  );
}

insert-IsConsistent :
    (l : Lease) (s s' : LeaseDb) → Inserted l s s' → IsConsistent s.leases → IsConsistent s'.leases
insert-IsConsistent l s s' i v = record {
  one_active = λ e.
      rw (count_after_insert (holds_active e) l s s' i) (elim (Bool-cases (holds_active e l)) [
        | inr no_hit ↦ rw no_hit (omega (arith, v.one_active e))
        | inl hit ↦
            let same : l.source_endpoint_id ≡ e = ground arith in
            let empty : any (holds_active e) s.leases ≡ false =
              rw (← same) (ground (arith, i.only_active)) in
            rw hit (omega (arith, count_of_any (holds_active e) s.leases empty))
      ]);
  one_identity = λ e x.
      rw (count_after_insert (holds_identity e x) l s s' i)
        (elim (Bool-cases (holds_identity e x l)) [
          | inr no_hit ↦ rw no_hit (omega (arith, v.one_identity e x))
          | inl hit ↦
              let same : l.source_endpoint_id ≡ e = ground arith in
              let same_text : l.execution_identity ≡ x =
                ground (arith, eq_iff l.execution_identity x) in
              let empty : any (holds_identity e x) s.leases ≡ false =
                rw (← same, ← same_text) i.new_identity in
              rw hit (omega (arith, count_of_any (holds_identity e x) s.leases empty))
        ]);
  one_token = λ t.
      rw (count_after_insert (has_token t) l s s' i) (elim (Bool-cases (has_token t l)) [
        | inr no_hit ↦ rw no_hit (omega (arith, v.one_token t))
        | inl hit ↦
            let same : l.lease_token ≡ t = ground arith in
            let empty : any (has_token t) s.leases ≡ false = rw (← same) i.new_token in
            rw hit (omega (arith, count_of_any (has_token t) s.leases empty))
      ]);
}

-- From a consistent table, no sequence of transactions of the service gives an endpoint two active
-- leases, an execution two leases, or a token two leases.
pub run-IsConsistent :
    (s : LeaseDb) (ops : List Operation) → IsConsistent s.leases → IsConsistent (run s ops).leases
run-IsConsistent = run_rule IsConsistent update-IsConsistent insert-IsConsistent
