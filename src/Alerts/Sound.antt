-- ===== src/Alerts/Sound.antt =====
-- The constraints of the delivery table, and how its rows and their attempts belong together.
use global_news_intelligence.Prelude.{
  ℕ, ◌≤◌, ◌<◌, ◌≡◌, refl, ◌==◌, Bool, true, false, ◌&&◌, Option, none, some, List, find?, count,
  All, All-mono, All-update_to, All-update, All-find?, if◌then◌else◌, arith,
}
use global_news_intelligence.Alerts.Tables.{
  Delivery, Attempt, AlertDb, is_processing, is_running, has_id, runs, put_delivery,
  satisfies_checks,
}

abbrev pub owned : ℕ → Attempt → Bool
owned id a = a.delivery_id == id

abbrev pub active_of : ℕ → Attempt → Bool
active_of id a = a.delivery_id == id && is_running a.status

-- The running attempts under the claim of a row.
abbrev pub held : ℕ → Option ℕ → List Attempt → ℕ
held id none ms = 0
held id (some token) ms = count (runs id token) ms

abbrev pub one : Bool → ℕ
one b = if b then 1 else 0

-- As many attempts as the row counts; and one of them is running, under the claim of the row,
-- exactly while the row is being processed.
abbrev pub Linked : List Attempt → Delivery → Type 0
Linked ms d =
    (count (owned d.id) ms ≡ d.attempt_count)
    × (count (active_of d.id) ms ≡ one (is_processing d.status))
    × (held d.id d.claim_token ms ≡ one (is_processing d.status))

-- The parts that do not compare rows and attempts.
pub record IsKept (s : AlertDb) : Type 0 where
  pub checks : All (λ (d : Delivery). satisfies_checks d ≡ true) s.deliveries
  pub budget : All (λ (d : Delivery). d.cycle_attempt_count ≤ d.max_attempts) s.deliveries
  pub delivery_ids : All (λ (d : Delivery). d.id < s.next_delivery_id) s.deliveries
  pub owners : All (λ (a : Attempt). a.delivery_id < s.next_delivery_id) s.attempts
  pub attempt_ids : All (λ (a : Attempt). a.id < s.next_attempt_id) s.attempts
  pub attempt_keys : (i : ℕ) → count (λ (a : Attempt). a.id == i) s.attempts ≤ 1

pub record IsSound (s : AlertDb) : Type 0 where
  pub kept : IsKept s
  pub linked : All (Linked s.attempts) s.deliveries

-- Sound but for one row, which has no running attempt.
pub record IsFreed (d : Delivery) (s : AlertDb) : Type 0 where
  pub kept : IsKept s
  pub others : All (λ (x : Delivery). has_id d.id x ≡ false → Linked s.attempts x) s.deliveries
  pub attempts : count (owned d.id) s.attempts ≡ d.attempt_count
  pub idle : count (active_of d.id) s.attempts ≡ 0

pub freed :
    (d : Delivery) (s : AlertDb) (p : Delivery → Bool)
    → IsSound s
    → find? p s.deliveries ≡ some d
    → is_processing d.status ≡ false
    → IsFreed d s
freed d s p v h e =
    let (n, a, k) = All-find? (Linked s.attempts) p s.deliveries d v.linked h in
    record {
      kept = v.kept;
      others = All-mono _ _ s.deliveries (λ x l _. l) v.linked;
      attempts = n;
      idle = ground arith;
    }

-- A row is written that fits what is there.
pub put_delivery-IsKept :
    (d d' : Delivery) (s : AlertDb)
    → IsKept s
    → d.id < s.next_delivery_id
    → satisfies_checks d' ≡ true
    → d'.cycle_attempt_count ≤ d'.max_attempts
    → d'.id ≡ d.id
    → IsKept (put_delivery d' s)
put_delivery-IsKept d d' s v below c b same = record {
  checks = All-update _ (has_id d'.id) (λ _. d') s.deliveries (λ x e h. c) v.checks;
  budget = All-update _ (has_id d'.id) (λ _. d') s.deliveries (λ x e h. b) v.budget;
  delivery_ids =
      All-update _ (has_id d'.id) (λ _. d') s.deliveries (λ x e h. rw same below) v.delivery_ids;
  owners = v.owners;
  attempt_ids = v.attempt_ids;
  attempt_keys = v.attempt_keys;
}

pub put_delivery-IsSound :
    (d d' : Delivery) (s : AlertDb)
    → IsFreed d s
    → d.id < s.next_delivery_id
    → satisfies_checks d' ≡ true
    → d'.cycle_attempt_count ≤ d'.max_attempts
    → d'.id ≡ d.id
    → d'.attempt_count ≡ d.attempt_count
    → is_processing d'.status ≡ false
    → d'.claim_token ≡ none
    → IsSound (put_delivery d' s)
put_delivery-IsSound d d' s v below c b same n e t = record {
  kept = put_delivery-IsKept d d' s v.kept below c b same;
  linked =
      All-update_to (λ (x : Delivery). has_id d.id x ≡ false → Linked s.attempts x)
        (Linked s.attempts) (has_id d'.id) (λ _. d') s.deliveries
        (λ x hit l. (rw (same, n) v.attempts, rw (same, e) v.idle, rw (t, e) refl))
        (λ x miss l. l (ground arith)) v.others;
}
