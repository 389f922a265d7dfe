-- ===== src/CalendarPolicy/Changes.antt =====
-- What a change of an override leaves at each policy and occurrence, and which changes go through.
use global_news_intelligence.Prelude.{
  ℕ, ◌+◌, ◌≤◌, ◌<◌, ◌≡◌, refl, sym, ap, subst, ◌∙◌, ◌==◌, Bool, true, false, not, ◌&&◌, Option,
  none, some, List, [], ◌∷◌, ◌++◌, All, All-append, All-mono, All-update, All-filter,
  any-find?-none, find?, find?-holds, find?-append_one, find?-append_hit, find?-update_kept,
  find?-same, find?-filter_kept, find?-filter-none, find?-filter_dropped, filter, update, count,
  count-append, count-fresh, count-find?-none, count-update_kept, count-filter_le, ok,
  if◌then◌else◌, Bool-cases, Option-cases, inl, inr, arith,
}
use global_news_intelligence.CalendarPolicy.Tables.{
  Values, Override, PolicyDb, overrides_at, insert_override,
}
use global_news_intelligence.CalendarPolicy.{OverrideInput, write_override}

-- What the overrides say at a policy and an occurrence.
unfoldable pub current_values : Option Override → Option Values
current_values none = none
current_values (some x) = some x.values

unfoldable pub current : ℕ → ℕ → List Override → Option Values
current policy occurrence xs = current_values (find? (overrides_at policy occurrence) xs)

-- Ids and keys are unique, and the next id is new.
pub record IsKeyed (s : PolicyDb) : Type 0 where
  pub fresh : All (λ (x : Override). x.id < s.next_override_id) s.overrides
  pub ids : (n : ℕ) → count (λ (x : Override). x.id == n) s.overrides ≤ 1
  pub keys : (p o : ℕ) → count (overrides_at p o) s.overrides ≤ 1

abbrev pub is_at : ℕ → ℕ → ℕ → ℕ → Bool
is_at p o p' o' = p == p' && o == o'

-- The overrides after a write, given the row that the transaction found.
unfoldable pub overwritten : ℕ → ℕ → OverrideInput → Option Override → PolicyDb → PolicyDb
overwritten p o d none s = record s {
  overrides =
      s.overrides
      ++ record {
        id = s.next_override_id;
        policy_id = p;
        occurrence_id = o;
        values = d.values;
        actor = d.actor;
      }
        ∷ [];
  next_override_id = s.next_override_id + 1;
}
overwritten p o d (some x) s = record s {
  overrides =
      update (λ y. y.id == x.id) (λ y. record y { values = d.values; actor = d.actor }) s.overrides;
}

pub write_override-overwritten :
    (p o : ℕ) (d : OverrideInput) (x : Option Override) (s : PolicyDb)
    → find? (overrides_at p o) s.overrides ≡ x
    → write_override p o d x s ≡ ok (overwritten p o d x s)
unfolding write_override insert_override overwritten
write_override-overwritten p o d none s h =
    rw (any-find?-none (overrides_at p o) s.overrides h) refl
write_override-overwritten p o d (some x) s h = refl

find?-is_at :
    (p o p' o' : ℕ) (xs : List Override)
    → is_at p o p' o' ≡ true
    → find? (overrides_at p o) xs ≡ find? (overrides_at p' o') xs
find?-is_at p o p' o' xs h =
    let first : p ≡ p' = ground arith in
    let second : o ≡ o' = ground arith in
    ap (λ a. find? (overrides_at a o) xs) first ∙ ap (λ a. find? (overrides_at p' a) xs) second

-- The rows at two places have different ids.
id-is_at :
    (p o p' o' : ℕ) (s : PolicyDb) (x y : Override)
    → IsKeyed s
    → find? (overrides_at p o) s.overrides ≡ some x
    → find? (overrides_at p' o') s.overrides ≡ some y
    → is_at p o p' o' ≡ false
    → (y.id == x.id) ≡ false
id-is_at p o p' o' s x y v h k apart = elim (Bool-cases (y.id == x.id)) [
  | inl e ↦
      let same : y ≡ x =
        find?-same (λ z. z.id == x.id) (overrides_at p' o') (overrides_at p o) s.overrides y x
          (v.ids x.id) k h e (ground arith) in
      let here : overrides_at p o y ≡ true =
        ap (overrides_at p o) same ∙ find?-holds (overrides_at p o) s.overrides x h in
      absurd (ground (arith, here, find?-holds (overrides_at p' o') s.overrides y k))
  | inr e ↦ e
]

pub overwritten-current :
    (p o p' o' : ℕ) (d : OverrideInput) (x : Option Override) (s : PolicyDb)
    → IsKeyed s
    → find? (overrides_at p o) s.overrides ≡ x
    → current p' o' (overwritten p o d x s).overrides
      ≡ (if is_at p o p' o' then some d.values else current p' o' s.overrides)
unfolding current current_values overwritten
overwritten-current p o p' o' d none s v h =
    elim (Option-cases (find? (overrides_at p' o') s.overrides)) [
      | inl miss ↦
          rw (find?-append_one (overrides_at p' o') s.overrides _ miss, miss) (ground arith)
      | inr (y, hit) ↦
          let other : is_at p o p' o' ≡ false = ground (arith, find?-is_at p o p' o' s.overrides) in
          rw (find?-append_hit (overrides_at p' o') s.overrides _ y hit, hit, other) refl
    ]
overwritten-current p o p' o' d (some x) s v h =
    rw
      (find?-update_kept (overrides_at p' o') (λ y. y.id == x.id)
        (λ y. record y { values = d.values; actor = d.actor }) s.overrides (λ y. refl))
      (elim (Option-cases (find? (overrides_at p' o') s.overrides)) [
        | inl miss ↦ rw miss (ground (arith, find?-is_at p o p' o' s.overrides))
        | inr (y, hit) ↦ rw hit (elim (Bool-cases (is_at p o p' o')) [
          | inl e ↦
              let same : y ≡ x = ground (arith, find?-is_at p o p' o' s.overrides e) in
              let id : (y.id == x.id) ≡ true = ground (arith, ap (λ (z : Override). z.id) same) in
              rw (e, id) refl
          | inr e ↦ rw (e, id-is_at p o p' o' s x y v h hit e) refl
        ])
      ])

pub deleted-current :
    (p o p' o' : ℕ) (x : Override) (s : PolicyDb)
    → IsKeyed s
    → find? (overrides_at p o) s.overrides ≡ some x
    → current p' o' (filter (λ y. not (y.id == x.id)) s.overrides)
      ≡ (if is_at p o p' o' then none else current p' o' s.overrides)
unfolding current current_values
deleted-current p o p' o' x s v h = elim (Option-cases (find? (overrides_at p' o') s.overrides)) [
  | inl miss ↦
      rw (find?-filter-none (overrides_at p' o') (λ y. not (y.id == x.id)) s.overrides miss, miss)
        (ground arith)
  | inr (y, hit) ↦ elim (Bool-cases (is_at p o p' o')) [
    | inl e ↦
        let same : y ≡ x = ground (arith, find?-is_at p o p' o' s.overrides e) in
        let gone : not (y.id == x.id) ≡ false = ground (arith, ap (λ (z : Override). z.id) same) in
        rw
          (
            e,
            find?-filter_dropped (overrides_at p' o') (λ z. not (z.id == x.id)) s.overrides y
                (v.keys p' o') hit gone,
          )
          refl
    | inr e ↦
        let kept : not (y.id == x.id) ≡ true = ground (arith, id-is_at p o p' o' s x y v h hit e) in
        rw
          (
            e,
            find?-filter_kept (overrides_at p' o') (λ z. not (z.id == x.id)) s.overrides y hit kept,
            hit,
          )
          refl
  ]
]

-- Both keep the keys.
pub overwritten-IsKeyed :
    (p o : ℕ) (d : OverrideInput) (x : Option Override) (s : PolicyDb)
    → IsKeyed s
    → find? (overrides_at p o) s.overrides ≡ x
    → IsKeyed (overwritten p o d x s)
unfolding overwritten count
overwritten-IsKeyed p o d none s v h = record {
  fresh =
      All-append _ s.overrides _ (All-mono _ _ s.overrides (λ x k. omega arith) v.fresh)
        (omega arith, tt);
  ids = λ n.
      rw (count-append (λ (x : Override). x.id == n) s.overrides _)
        (elim (Bool-cases (s.next_override_id == n)) [
          | inl e ↦
              let same : s.next_override_id ≡ n = ground arith in
              let none_has : count (λ (x : Override). x.id == n) s.overrides ≡ 0 =
                subst (λ m. count (λ (x : Override). x.id == m) s.overrides ≡ 0) same
                  (count-fresh (λ (x : Override). x.id) s.next_override_id s.overrides v.fresh) in
              ground (arith, none_has)
          | inr e ↦ ground (arith, v.ids n)
        ]);
  keys = λ p' o'.
      rw (count-append (overrides_at p' o') s.overrides _) (elim (Bool-cases (is_at p o p' o')) [
        | inl e ↦ ground (
          arith,
          count-find?-none (overrides_at p' o') s.overrides
              (sym (find?-is_at p o p' o' s.overrides e) ∙ h),
        )
        | inr e ↦ ground (arith, v.keys p' o')
      ]);
}
overwritten-IsKeyed p o d (some x) s v h = record {
  fresh = All-update _ _ _ s.overrides (λ y e k. k) v.fresh;
  ids = λ n.
      rw
        (count-update_kept (λ (y : Override). y.id == n) (λ y. y.id == x.id)
          (λ y. record y { values = d.values; actor = d.actor }) s.overrides (λ y. refl))
        (v.ids n);
  keys = λ p' o'.
      rw
        (count-update_kept (overrides_at p' o') (λ y. y.id == x.id)
          (λ y. record y { values = d.values; actor = d.actor }) s.overrides (λ y. refl))
        (v.keys p' o');
}

pub deleted-IsKeyed :
    (x : Override) (s : PolicyDb)
    → IsKeyed s
    → IsKeyed (record s { overrides = filter (λ y. not (y.id == x.id)) s.overrides })
deleted-IsKeyed x s v = record {
  fresh = All-filter _ _ s.overrides v.fresh;
  ids = λ n. ground (
    arith,
    count-filter_le (λ (y : Override). y.id == n) (λ y. not (y.id == x.id))
        (λ (y : Override). y.id == n) s.overrides (λ a e k. k),
    v.ids n,
  );
  keys = λ p o. ground (
    arith,
    count-filter_le (overrides_at p o) (λ y. not (y.id == x.id)) (overrides_at p o) s.overrides
        (λ a e k. k),
    v.keys p o,
  );
}
