-- ===== src/Monitors/Expiring.antt =====
-- The list of due monitors in `list_due_monitors_for_update` of
-- app/repositories/monitor_repository.py.
use global_news_intelligence.Prelude.{
  ℕ, zero, suc, find?-update_apart, ◌+◌, ◌≤◌, ◌≡◌, refl, ◌∙◌, ◌==◌, Bool, true, false, some, List,
  [], ◌∷◌, All, All-filter_both, find?, find?-key, filter, count, count-filter_le, Time,
  if◌then◌else◌, Bool-cases, inl, inr, arith,
}
use global_news_intelligence.Monitors.Tables.{Monitor, MonitorDb, has_monitor_id}
use global_news_intelligence.Monitors.{
  due_monitors, order_due, insert_due, take, must_expire, expires_before,
}
use global_news_intelligence.Monitors.Parts.{written}

-- Ordering and cutting the due monitors takes no row twice.
module _ (q : Monitor → Bool) where
  count-insert_due :
      (m : Monitor) (xs : List Monitor)
      → count q (insert_due m xs) ≡ (if q m then 1 else 0) + count q xs
  unfolding count insert_due
  count-insert_due m [] = refl
  count-insert_due m (x ∷ xs) =
      elim (Bool-cases (expires_before x.expires_at x.id m.expires_at m.id)) [
        | inl e ↦ rw e (omega (arith, count-insert_due m xs))
        | inr e ↦ rw e refl
      ]

  count-order_due : (xs : List Monitor) → count q (order_due xs) ≡ count q xs
  unfolding count order_due
  count-order_due [] = refl
  count-order_due (x ∷ xs) = omega (arith, count-insert_due x (order_due xs), count-order_due xs)

  count-take_le : (n : ℕ) (xs : List Monitor) → count q (take n xs) ≤ count q xs
  unfolding count take
  count-take_le n [] = omega arith
  count-take_le zero (x ∷ xs) = omega arith
  count-take_le (suc n) (x ∷ xs) = omega (arith, count-take_le n xs)

module _ (P : Monitor → Type 0) where
  All-insert_due : (m : Monitor) (xs : List Monitor) → P m → All P xs → All P (insert_due m xs)
  unfolding insert_due
  All-insert_due m [] v w = (v, tt)
  All-insert_due m (x ∷ xs) v w =
      elim (Bool-cases (expires_before x.expires_at x.id m.expires_at m.id)) [
        | inl e ↦ rw e (w.0, All-insert_due m xs v w.1)
        | inr e ↦ rw e (v, w)
      ]

  All-order_due : (xs : List Monitor) → All P xs → All P (order_due xs)
  unfolding order_due
  All-order_due [] v = tt
  All-order_due (x ∷ xs) v = All-insert_due x (order_due xs) v.0 (All-order_due xs v.1)

  All-take : (n : ℕ) (xs : List Monitor) → All P xs → All P (take n xs)
  unfolding take
  All-take n [] v = tt
  All-take zero (x ∷ xs) v = tt
  All-take (suc n) (x ∷ xs) v = (v.0, All-take n xs v.1)

-- A row that expires, as its table has it.
abbrev pub Expiring : (ℕ → Bool) → Time → MonitorDb → Monitor → Type 0
Expiring locked now s m =
    (find? (has_monitor_id m.id) s.monitors ≡ some m) × (must_expire locked now m ≡ true)

pub due_monitors-Expiring :
    (locked : ℕ → Bool) (now : Time) (limit : ℕ) (s : MonitorDb)
    → ((n : ℕ) → count (has_monitor_id n) s.monitors ≤ 1)
    → All (Expiring locked now s) (due_monitors locked now limit s)
unfolding due_monitors
due_monitors-Expiring locked now limit s one =
    All-take (Expiring locked now s) limit (order_due (filter (must_expire locked now) s.monitors))
      (All-order_due (Expiring locked now s) (filter (must_expire locked now) s.monitors) (
        All-filter_both _ (must_expire locked now) s.monitors
          (find?-key (λ (m : Monitor). m.id) s.monitors one)))

pub due_monitors-count :
    (locked : ℕ → Bool) (now : Time) (limit : ℕ) (s : MonitorDb) (n : ℕ)
    → count (has_monitor_id n) (due_monitors locked now limit s)
      ≤ count (has_monitor_id n) s.monitors
unfolding due_monitors
due_monitors-count locked now limit s n = omega (
  arith,
  count-take_le (has_monitor_id n) limit (order_due (filter (must_expire locked now) s.monitors)),
  count-order_due (has_monitor_id n) (filter (must_expire locked now) s.monitors),
  count-filter_le (has_monitor_id n) (must_expire locked now) (has_monitor_id n) s.monitors
      (λ m e h. h),
)

-- Writing one row leaves the others.
pub find?-written :
    (x m : Monitor) (s : MonitorDb)
    → (m.id == x.id) ≡ false
    → find? (has_monitor_id m.id) s.monitors ≡ some m
    → find? (has_monitor_id m.id) (written x s).monitors ≡ some m
find?-written x m s h k =
    find?-update_apart (has_monitor_id m.id) (has_monitor_id x.id) (λ _. x) s.monitors
      (λ a e. ground arith) (λ a e. ground arith)
    ∙ k
