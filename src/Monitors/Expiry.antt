-- ===== src/Monitors/Expiry.antt =====
-- `expire_due_monitors` of app/services/monitor_service.py.
use global_news_intelligence.Prelude.{
  ℕ, zero, suc, min, ◌+◌, ◌≤◌, ◌≡◌, refl, sym, ap, ◌∙◌, Bool, some, any, any_of_count, find?,
  find?-update, find?-update_apart, ◌==◌, true, false, List, [], ◌∷◌, map, length, length-map,
  length-filter, All, All-mono, All-find?, All-both, All-miss, filter, count, count-replace, ok,
  Time, Bool-cases, inl, inr, arith,
}
use global_news_intelligence.Monitors.Tables.{
  Monitor, MonitorStatus, MonitorDb, has_monitor_id, is_active_status, put_monitor,
  satisfies_checks,
}
use global_news_intelligence.Monitors.{
  expire_due_monitors, expire_each, due_monitors, order_due, insert_due, take, must_expire,
  mark_expired, expires_before,
}
use global_news_intelligence.Monitors.Parts.{written}
use global_news_intelligence.Monitors.Moves.{expires, is_active-Moves, Changes}
use global_news_intelligence.Monitors.Valid.{IsValid, Changes-IsValid}
use global_news_intelligence.Monitors.Expiring.{
  Expiring, due_monitors-Expiring, due_monitors-count, find?-written,
}

-- Expiring a valid row keeps its checks.
mark_expired-checks :
    (now : Time) (m : Monitor)
    → satisfies_checks m ≡ true
    → satisfies_checks (mark_expired now m) ≡ true
unfolding satisfies_checks
mark_expired-checks now m h = ground (arith, h)

-- What expiring some rows leaves: each of them is marked, and any other is as it was.
abbrev pub Expired : Time → List Monitor → MonitorDb → MonitorDb → Type 0
Expired now ms s t =
    All (λ m. find? (has_monitor_id m.id) t.monitors ≡ some (mark_expired now m)) ms
    × ((i : ℕ)
        → any (has_monitor_id i) ms ≡ false
        → find? (has_monitor_id i) t.monitors ≡ find? (has_monitor_id i) s.monitors)

Expired-cons :
    (now : Time) (m : Monitor) (ms : List Monitor) (s t : MonitorDb)
    → find? (has_monitor_id m.id) s.monitors ≡ some m
    → any (has_monitor_id m.id) ms ≡ false
    → Expired now ms (written (mark_expired now m) s) t
    → Expired now (m ∷ ms) s t
unfolding any
Expired-cons now m ms s t found apart (marked, kept) = (
  (
    kept m.id apart
        ∙ find?-update (has_monitor_id m.id) (λ _. mark_expired now m) s.monitors m
            (λ _ _. ground arith) found,
    marked,
  ),
  λ i h.
      let other : (m.id == i) ≡ false = ground arith in
      let rest : any (has_monitor_id i) ms ≡ false = ground arith in
      kept i rest
      ∙ find?-update_apart (has_monitor_id i) (has_monitor_id m.id) (λ _. mark_expired now m)
          s.monitors (λ a k. ground arith) (λ a k. ground arith),
)

expire_each-count :
    (locked : ℕ → Bool) (now : Time) (ms : List Monitor) (s : MonitorDb)
    → IsValid s
    → All (Expiring locked now s) ms
    → ((n : ℕ) → count (has_monitor_id n) ms ≤ 1)
    → (t : MonitorDb) × (expire_each now ms s ≡ ok t)
      × (count (must_expire locked now) t.monitors + length ms
          ≡ count (must_expire locked now) s.monitors)
      × Expired now ms s t
unfolding expire_each count put_monitor
expire_each-count locked now [] s v due alone = (s, refl, omega arith, (tt, λ i h. refl))
expire_each-count locked now (m ∷ ms) s v due alone =
    let x : Monitor = mark_expired now m in
    let checks : satisfies_checks x ≡ true =
      mark_expired-checks now m (All-find? _ (has_monitor_id m.id) s.monitors m v.checks due.0.0) in
    let active : is_active_status m.status ≡ true = ground (arith, due.0.1) in
    let change : Changes m x s (written x s) = (
      ground arith,
      refl,
      is_active-Moves m.status MonitorStatus.expired active expires,
      (due.0.0, refl, refl, refl, checks, refl),
    ) in
    let others : All (λ y. (y.id == m.id) ≡ false) ms =
      All-miss (has_monitor_id m.id) ms (ground (arith, alone m.id)) in
    let later : All (Expiring locked now (written x s)) ms =
      All-mono _ _ ms (λ y k. (find?-written x y s k.0 k.1.0, k.1.1))
        (All-both _ (Expiring locked now s) ms others due.1) in
    let (t, done, left, expired) =
      expire_each-count locked now ms (written x s) (Changes-IsValid m x s (written x s) change v)
        later (λ n. ground (arith, alone n)) in
    let one_less : count (must_expire locked now) (written x s).monitors + 1
        ≡ count (must_expire locked now) s.monitors =
      ground (
        arith,
        count-replace (λ (a : Monitor). a.id) (must_expire locked now) (has_monitor_id m.id)
            s.monitors m x due.0.0 (v.ids m.id),
        due.0.1,
      ) in
    (
      t,
      rw checks done,
      omega (arith, left, one_less),
      Expired-cons now m ms s t due.0.0
          (any_of_count (has_monitor_id m.id) ms (ground (arith, alone m.id))) expired,
    )

length-insert_due : (m : Monitor) (xs : List Monitor) → length (insert_due m xs) ≡ suc (length xs)
unfolding insert_due
length-insert_due m [] = refl
length-insert_due m (x ∷ xs) =
    elim (Bool-cases (expires_before x.expires_at x.id m.expires_at m.id)) [
      | inl e ↦ rw e (ap suc (length-insert_due m xs))
      | inr e ↦ rw e refl
    ]

length-order_due : (xs : List Monitor) → length (order_due xs) ≡ length xs
unfolding order_due
length-order_due [] = refl
length-order_due (x ∷ xs) = length-insert_due x (order_due xs) ∙ ap suc (length-order_due xs)

length-take : {A : Type 0} (n : ℕ) (xs : List A) → length (take n xs) ≡ min n (length xs)
unfolding take
length-take n [] = omega arith
length-take zero (x ∷ xs) = omega arith
length-take (suc n) (x ∷ xs) = omega (arith, length-take n xs)

length-due_monitors :
    (locked : ℕ → Bool) (now : Time) (limit : ℕ) (s : MonitorDb)
    → length (due_monitors locked now limit s)
      ≡ min limit (count (must_expire locked now) s.monitors)
unfolding due_monitors
length-due_monitors locked now limit s =
    length-take limit (order_due (filter (must_expire locked now) s.monitors))
    ∙ ap (min limit) (
        length-order_due (filter (must_expire locked now) s.monitors)
        ∙ length-filter (must_expire locked now) s.monitors)

-- A row with this id was due, and is marked expired.
abbrev pub HasExpired : (ℕ → Bool) → Time → MonitorDb → MonitorDb → ℕ → Type 0
HasExpired locked now s t i =
    (m : Monitor) × (find? (has_monitor_id i) s.monitors ≡ some m)
    × (must_expire locked now m ≡ true)
    × (find? (has_monitor_id i) t.monitors ≡ some (mark_expired now m))

ids-HasExpired :
    (locked : ℕ → Bool) (now : Time) (s t : MonitorDb) (ms : List Monitor)
    → All (Expiring locked now s) ms
    → All (λ m. find? (has_monitor_id m.id) t.monitors ≡ some (mark_expired now m)) ms
    → All (HasExpired locked now s t) (map (λ (m : Monitor). m.id) ms)
ids-HasExpired locked now s t [] v w = tt
ids-HasExpired locked now s t (m ∷ ms) v w =
    ((m, v.0.0, v.0.1, w.0), ids-HasExpired locked now s t ms v.1 w.1)

any-ids :
    (i : ℕ) (ms : List Monitor)
    → any (λ j. j == i) (map (λ (m : Monitor). m.id) ms) ≡ any (has_monitor_id i) ms
unfolding any
any-ids i [] = refl
any-ids i (m ∷ ms) = ground (arith, any-ids i ms)

-- On valid tables a pass over the due monitors never raises. Of the active monitors whose time has
-- come and that no other transaction has locked it expires as many as there are, at most the limit:
-- each of the answered ids is that of such a monitor, which is now marked expired at this time, and
-- the row of any other id is as it was. It leaves the rest of them due, so that passes with a
-- positive limit come to an end with none due.
pub expire_due_monitors-count :
    (locked : ℕ → Bool) (now : Time) (limit : ℕ) (s : MonitorDb)
    → IsValid s
    → (t : MonitorDb) × (ids : List ℕ) × (expire_due_monitors locked now limit s ≡ ok (t, ids))
      × (length ids ≡ min limit (count (must_expire locked now) s.monitors))
      × (count (must_expire locked now) t.monitors + length ids
          ≡ count (must_expire locked now) s.monitors)
      × All (HasExpired locked now s t) ids
      × ((i : ℕ)
          → any (λ j. j == i) ids ≡ false
          → find? (has_monitor_id i) t.monitors ≡ find? (has_monitor_id i) s.monitors)
unfolding expire_due_monitors
expire_due_monitors-count locked now limit s v =
    let due : List Monitor = due_monitors locked now limit s in
    let expiring : All (Expiring locked now s) due =
      due_monitors-Expiring locked now limit s v.ids in
    let (t, done, left, (marked, kept)) =
      expire_each-count locked now due s v expiring
        (λ n. omega (arith, v.ids n, due_monitors-count locked now limit s n)) in
    let ids : List ℕ = map (λ (m : Monitor). m.id) due in
    let size : length ids ≡ length due = length-map (λ (m : Monitor). m.id) due in
    (
      t,
      ids,
      rw done refl,
      size ∙ length-due_monitors locked now limit s,
      omega (arith, left, size),
      ids-HasExpired locked now s t due expiring marked,
      λ i h. kept i (sym (any-ids i due) ∙ h),
    )
