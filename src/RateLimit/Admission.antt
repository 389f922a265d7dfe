-- ===== src/RateLimit/Admission.antt =====
-- When `reserve` admits a request, and what it answers when it does not.
use global_news_intelligence.Prelude.{
  ◌≤◌, ◌≡◌, refl, subst, ◌⊎◌, true, false, Option, none, some, List, [], ◌∷◌, All, ok, Time, ltb,
  arith, Bool-cases, Option-cases, inl, inr,
}
use global_news_intelligence.RateLimit.Tables.{Scope, RateDb}
use global_news_intelligence.RateLimit.Windows.{refresh_windows}
use global_news_intelligence.RateLimit.Windows.Bounds.{HasRoom, next_eligible-none}
use global_news_intelligence.RateLimit.Targets.{Registry}
use global_news_intelligence.RateLimit.{
  Row, RateDecision, eligible_at, later, controlling_from, rows_of, is_complete, expire_abandoned,
  ReserveRequest, grant, settle, authorize,
}

-- The row's bucket may take a request as soon as `t`.
abbrev pub IsReady : Time → Option Time → Type 0
IsReady t none = Unit {0}
IsReady t (some u) = u ≤ t

-- No bucket has to wait, or the answer is the time at which the last of them is ready.
abbrev pub Controls : Time → List Row → Option (Row × Time) → Type 0
Controls now rows none = All (λ (r : Row). eligible_at now r ≡ none) rows
Controls now rows (some (q, t)) =
    (eligible_at now q ≡ some t) × All (λ (r : Row). IsReady t (eligible_at now r)) rows

controlling_from-some :
    (now : Time) (q : Row) (t : Time) (rows : List Row)
    → eligible_at now q ≡ some t
    → (p : Row) × (u : Time) × (controlling_from now (some (q, t)) rows ≡ some (p, u))
      × (t ≤ u)
      × Controls now rows (some (p, u))
unfolding controlling_from later
controlling_from-some now q t [] e = (q, t, refl, omega arith, (e, tt))
controlling_from-some now q t (r ∷ rows) e = elim (Option-cases (eligible_at now r)) [
  | inl k ↦
      let (p, u, eq, le, c) = controlling_from-some now q t rows e in
      (p, u, rw k eq, le, (c.0, (rw k tt, c.1)))
  | inr (w, k) ↦ elim (Bool-cases (ltb t w)) [
    | inl longer ↦
        let (p, u, eq, le, c) = controlling_from-some now r w rows k in
        (p, u, rw (k, longer) eq, ground arith, (c.0, (rw k le, c.1)))
    | inr shorter ↦
        let (p, u, eq, le, c) = controlling_from-some now q t rows e in
        (p, u, rw (k, shorter) eq, le, (c.0, (rw k (ground arith), c.1)))
  ]
]

controlling-Controls :
    (now : Time) (rows : List Row) → Controls now rows (controlling_from now none rows)
unfolding controlling_from later
controlling-Controls now [] = tt
controlling-Controls now (r ∷ rows) = elim (Option-cases (eligible_at now r)) [
  | inl k ↦ rw k (skip (controlling_from now none rows) k (controlling-Controls now rows))
  | inr (w, k) ↦
      let (p, u, eq, le, c) = controlling_from-some now r w rows k in
      rw (k, eq) (c.0, (rw k le, c.1))
]
  where
    skip :
        (o : Option (Row × Time))
        → eligible_at now r ≡ none
        → Controls now rows o
        → Controls now (r ∷ rows) o
    skip none k c = (k, c)
    skip (some (p, u)) k c = (c.0, (rw k tt, c.1))

room_rows :
    (now : Time) (rows : List Row)
    → All (λ (r : Row). eligible_at now r ≡ none) rows
    → All (λ (r : Row). HasRoom (refresh_windows r.bucket r.policy now) r.policy now) rows
unfolding eligible_at
room_rows now [] v = tt
room_rows now (r ∷ rows) v = (
  (next_eligible-none (refresh_windows r.bucket r.policy now) r.policy now).0 v.0,
  room_rows now rows v.1,
)

-- How a decision and the tables after it answer the rows that `reserve` has read, where nothing was
-- replayed: every bucket had room; or the decision names the time at which the last bucket is
-- ready, and nothing was reserved.
pub Answers : Time → List Row → RateDb → RateDb → RateDecision → Type 0
Answers now rows s s' d =
    ((d.permitted ≡ true)
      × All (λ (r : Row). HasRoom (refresh_windows r.bucket r.policy now) r.policy now) rows)
    ⊎ ((t : Time) × (d.permitted ≡ false)
        × (d.next_eligible_at ≡ some t)
        × All (λ (r : Row). IsReady t (eligible_at now r)) rows
        × (s'.reservations ≡ s.reservations)
        × (s'.memberships ≡ s.memberships))

settle-Answers :
    (g : Registry) (q : ReserveRequest) (scopes : List Scope) (s s' : RateDb) (d : RateDecision)
    → settle g q scopes s ≡ ok (s', d)
    → Answers q.now (rows_of scopes s) s s' d
unfolding settle Answers grant
settle-Answers g q scopes s s' d h =
    elim (Option-cases (controlling_from q.now none (rows_of scopes s))) [
      | inl e ↦ inl (
        ground arith,
        room_rows q.now (rows_of scopes s) (
            subst (Controls q.now (rows_of scopes s)) e
              (controlling-Controls q.now (rows_of scopes s))),
      )
      | inr ((p, t), e) ↦ inr (
        t,
        ground arith,
        ground arith,
        (subst (Controls q.now (rows_of scopes s)) e
            (controlling-Controls q.now (rows_of scopes s))).1,
        ground arith,
        ground arith,
      )
    ]

-- `authorize` permits a request only if every bucket that bears on it has room under its policy
-- once its windows are refreshed and abandoned reservations are released. Otherwise it reserves
-- nothing and names a time that is not before the one that any of the buckets computes for itself.
pub authorize-Answers :
    (g : Registry) (q : ReserveRequest) (scopes : List Scope) (s s' : RateDb) (d : RateDecision)
    → authorize g q scopes s ≡ ok (s', d)
    → Answers q.now
        (rows_of scopes (expire_abandoned q.now (rows_of scopes s) s))
        (expire_abandoned q.now (rows_of scopes s) s)
        s'
        d
unfolding authorize
authorize-Answers g q scopes s s' d h = elim (Bool-cases (is_complete scopes (rows_of scopes s))) [
  | inr e ↦ absurd (ground arith)
  | inl e ↦ settle-Answers g q scopes (expire_abandoned q.now (rows_of scopes s) s) s' d (rw e at h)
]
