-- ===== src/Alerts/Attempts.antt =====
-- What the two transactions of a delivery do to the attempts.
use global_news_intelligence.Prelude.{
  ℕ, ◌+◌, ◌<◌, ◌≡◌, refl, ◌==◌, Bool, true, false, Option, none, some, List, find?, update, count,
  count-replace, All-mono, All-update, All-find?, arith,
}
use global_news_intelligence.Alerts.Tables.{
  Delivery, Attempt, AlertDb, is_processing, is_running, runs,
}
use global_news_intelligence.Alerts.Sound.{
  owned, active_of, held, one, Linked, IsKept, IsSound, IsFreed,
}

-- The table of attempts after one of them is written.
abbrev pub rewritten : Attempt → Attempt → AlertDb → List Attempt
rewritten a b s = update (λ (x : Attempt). x.id == a.id) (λ _. b) s.attempts

module _ (s : AlertDb) (p : Attempt → Bool) (a b : Attempt) (v : IsSound s)
    (h : find? p s.attempts ≡ some a) (same : b.id ≡ a.id) (owner : b.delivery_id ≡ a.delivery_id)
    (live : is_running a.status ≡ true) (over : is_running b.status ≡ false) where
  count-rewritten :
      (q : Attempt → Bool) → count q (rewritten a b s) + one (q a) ≡ count q s.attempts + one (q b)
  count-rewritten q =
      count-replace (λ (x : Attempt). x.id) q p s.attempts a b h (v.kept.attempt_keys a.id)

  rewritten-IsKept : IsKept (record s { attempts = rewritten a b s })
  rewritten-IsKept = record {
    checks = v.kept.checks;
    budget = v.kept.budget;
    delivery_ids = v.kept.delivery_ids;
    owners =
        All-update _ (λ x. x.id == a.id) (λ _. b) s.attempts (λ x e k. rw owner below)
          v.kept.owners;
    attempt_ids =
        All-update _ (λ x. x.id == a.id) (λ _. b) s.attempts (λ x e k. rw same id_below)
          v.kept.attempt_ids;
    attempt_keys =
        λ i. ground (arith, same, count-rewritten (λ x. x.id == i), v.kept.attempt_keys i);
  }
    where
      below : a.delivery_id < s.next_delivery_id
      below =
          All-find? (λ (x : Attempt). x.delivery_id < s.next_delivery_id) p s.attempts a
            v.kept.owners h

      id_below : a.id < s.next_attempt_id
      id_below =
          All-find? (λ (x : Attempt). x.id < s.next_attempt_id) p s.attempts a v.kept.attempt_ids h

  held-rewritten :
      (id : ℕ) (o : Option ℕ)
      → (a.delivery_id == id) ≡ false
      → held id o (rewritten a b s) ≡ held id o s.attempts
  held-rewritten id none e = refl
  held-rewritten id (some t) e = ground (arith, owner, count-rewritten (runs id t))

  rewritten-Linked :
      (x : Delivery)
      → (a.delivery_id == x.id) ≡ false
      → Linked s.attempts x
      → Linked (rewritten a b s) x
  rewritten-Linked x e (n, k, t) = (
    ground (arith, owner, count-rewritten (owned x.id)),
    ground (arith, owner, count-rewritten (active_of x.id)),
    rw (held-rewritten x.id x.claim_token e) t,
  )

  pub rewritten-IsFreed :
      (d : Delivery)
      → a.delivery_id ≡ d.id
      → Linked s.attempts d
      → is_processing d.status ≡ true
      → IsFreed d (record s { attempts = rewritten a b s })
  rewritten-IsFreed d mine (n, k, t) e = record {
    kept = rewritten-IsKept;
    others =
        All-mono _ _ s.deliveries (λ x l other. rewritten-Linked x (ground (arith, mine)) l)
          v.linked;
    attempts = ground (arith, mine, owner, count-rewritten (owned d.id));
    idle = ground (arith, mine, owner, count-rewritten (active_of d.id));
  }
