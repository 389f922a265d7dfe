-- ===== src/Prelude/Table.antt =====
-- Tables as lists of rows: what the services do by `SELECT ... LIMIT 1`, `UPDATE` and `count(*)`.
use Prim.Native.Nat.{ℕ, ◌+◌, ◌≤◌, ◌<◌}
use mathlib.Core.Path.{◌≡◌, ap, refl, subst}
use mathlib.Core.Logic.{inl, inr}
use mathlib.Core.Bool.{Bool, true, false, ◌||◌}
use mathlib.Core.Option.{Option, none, some}
use mathlib.Core.List.{List, [], ◌∷◌, ◌++◌}
use native.Mathlib.Omega.{arith}
use global_news_intelligence.Prelude.Tests.{if◌then◌else◌, ◌==◌, Bool-cases}
use global_news_intelligence.Prelude.Lists.{any, All}

module _ {ℓ} {A : Type ℓ} where
  -- The first row that satisfies the condition.
  unfoldable pub find? : (A → Bool) → List A → Option A
  find? p [] = none
  find? p (x ∷ xs) = if p x then some x else find? p xs

  -- Writes to every row that satisfies the condition.
  unfoldable pub update : (A → Bool) → (A → A) → List A → List A
  update p f [] = []
  update p f (x ∷ xs) = (if p x then f x else x) ∷ update p f xs

  unfoldable pub filter : (A → Bool) → List A → List A
  filter p [] = []
  filter p (x ∷ xs) = if p x then x ∷ filter p xs else filter p xs

  unfoldable pub count : (A → Bool) → List A → ℕ
  count p [] = 0
  count p (x ∷ xs) = (if p x then 1 else 0) + count p xs

module _ {ℓ} {A : Type ℓ} where
  pub find?-holds : (p : A → Bool) (xs : List A) (a : A) → find? p xs ≡ some a → p a ≡ true
  unfolding find?
  find?-holds p [] a h = absurd (cc)
  find?-holds p (x ∷ xs) a h = ground (arith, find?-holds p xs a)

  pub count-append : (p : A → Bool) (xs ys : List A) → count p (xs ++ ys) ≡ count p xs + count p ys
  unfolding count
  count-append p [] ys = omega arith
  count-append p (x ∷ xs) ys = omega (arith, count-append p xs ys)

  pub any-append : (p : A → Bool) (xs ys : List A) → any p (xs ++ ys) ≡ (any p xs || any p ys)
  unfolding any
  any-append p [] ys = refl
  any-append p (x ∷ xs) ys = ground (arith, any-append p xs ys)

  -- A look-up that finds nothing, in the two other ways to say it.
  pub any-find?-none : (p : A → Bool) (xs : List A) → find? p xs ≡ none → any p xs ≡ false
  unfolding find? any
  any-find?-none p [] h = refl
  any-find?-none p (x ∷ xs) h = ground (arith, any-find?-none p xs)

  pub count-find?-none : (p : A → Bool) (xs : List A) → find? p xs ≡ none → count p xs ≡ 0
  unfolding find? count
  count-find?-none p [] h = refl
  count-find?-none p (x ∷ xs) h = ground (arith, count-find?-none p xs)

  pub any_of_count : (p : A → Bool) (xs : List A) → count p xs ≡ 0 → any p xs ≡ false
  unfolding any count
  any_of_count p [] h = refl
  any_of_count p (x ∷ xs) h = ground (arith, any_of_count p xs)

  -- An update that no row's test can see.
  pub any-update :
      (q p : A → Bool) (f : A → A) (xs : List A)
      → ((a : A) → q (f a) ≡ q a)
      → any q (update p f xs) ≡ any q xs
  unfolding any update
  any-update q p f [] h = refl
  any-update q p f (x ∷ xs) h = ground (arith, h x, any-update q p f xs h)

  pub All-update {κ} :
      (P : A → Type κ) (p : A → Bool) (f : A → A) (xs : List A)
      → ((a : A) → p a ≡ true → P a → P (f a))
      → All P xs
      → All P (update p f xs)
  unfolding update
  All-update P p f [] h v = tt
  All-update P p f (x ∷ xs) h v = elim (Bool-cases (p x)) [
    | inl e ↦ rw e (h x e v.0, All-update P p f xs h v.1)
    | inr e ↦ rw e (v.0, All-update P p f xs h v.1)
  ]

  pub All-append {κ} : (P : A → Type κ) (xs ys : List A) → All P xs → All P ys → All P (xs ++ ys)
  All-append P [] ys v w = w
  All-append P (x ∷ xs) ys v w = (v.0, All-append P xs ys v.1 w)

  pub All-find? {κ} :
      (P : A → Type κ) (p : A → Bool) (xs : List A) (a : A) → All P xs → find? p xs ≡ some a → P a
  unfolding find?
  All-find? P p [] a v h = absurd (cc)
  All-find? P p (x ∷ xs) a v h = elim (Bool-cases (p x)) [
    | inl e ↦ let same : x ≡ a = ground arith in subst P same v.0
    | inr e ↦ All-find? P p xs a v.1 (ground arith)
  ]

  -- An update that keeps rows out of the condition does not raise its count.
  pub count-update_le :
      (q p : A → Bool) (f : A → A) (xs : List A)
      → ((a : A) → q a ≡ false → q (f a) ≡ false)
      → count q (update p f xs) ≤ count q xs
  unfolding count update
  count-update_le q p f [] h = omega arith
  count-update_le q p f (x ∷ xs) h = ground (arith, h x, count-update_le q p f xs h)

  -- It lowers the count if it takes a row that a look-up finds out of the condition.
  pub count-update_lt :
      (r q p : A → Bool) (f : A → A) (xs : List A) (a : A)
      → ((b : A) → q (f b) ≡ false)
      → find? r xs ≡ some a
      → q a ≡ true
      → p a ≡ true
      → count q (update p f xs) + 1 ≤ count q xs
  unfolding count update find?
  count-update_lt r q p f [] a h e m k = absurd (cc)
  count-update_lt r q p f (x ∷ xs) a h e m k = elim (Bool-cases (r x)) [
    | inl here ↦
        let same : x ≡ a = ground arith in
        ground (arith, h x, same, count-update_le q p f xs (λ b _. h b))
    | inr later ↦ ground (arith, h x, count-update_lt r q p f xs a h)
  ]

  pub count-le :
      (p q : A → Bool) (xs : List A) → ((a : A) → p a ≡ true → q a ≡ true) → count p xs ≤ count q xs
  unfolding count
  count-le p q [] h = omega arith
  count-le p q (x ∷ xs) h = ground (arith, h x, count-le p q xs h)

  pub count_of_any : (p : A → Bool) (xs : List A) → any p xs ≡ false → count p xs ≡ 0
  unfolding any count
  count_of_any p [] h = refl
  count_of_any p (x ∷ xs) h = ground (arith, count_of_any p xs)

  -- A look-up with no match in the table finds a new last row if that matches.
  pub find?-append_one :
      (p : A → Bool) (xs : List A) (y : A)
      → find? p xs ≡ none
      → find? p (xs ++ y ∷ []) ≡ (if p y then some y else none)
  unfolding find?
  find?-append_one p [] y h = refl
  find?-append_one p (x ∷ xs) y h = ground (arith, find?-append_one p xs y)

  pub find?_of_any : (p : A → Bool) (xs : List A) → any p xs ≡ false → find? p xs ≡ none
  unfolding find? any
  find?_of_any p [] h = refl
  find?_of_any p (x ∷ xs) h = ground (arith, find?_of_any p xs)

  -- A row that a look-up finds witnesses any test that it passes.
  pub any_of_find? :
      (p q : A → Bool) (xs : List A) (a : A) → find? p xs ≡ some a → q a ≡ true → any q xs ≡ true
  unfolding find? any
  any_of_find? p q [] a h e = absurd (cc)
  any_of_find? p q (x ∷ xs) a h e = ground (arith, any_of_find? p q xs a)

  pub All-mono {κ μ} :
      (P : A → Type κ) (Q : A → Type μ) (xs : List A) → ((a : A) → P a → Q a) → All P xs → All Q xs
  All-mono P Q [] h v = tt
  All-mono P Q (x ∷ xs) h v = (h x v.0, All-mono P Q xs h v.1)

  -- An update under which the rows satisfy another predicate, changed or not.
  pub All-update_to {κ μ} :
      (P : A → Type κ) (Q : A → Type μ) (p : A → Bool) (f : A → A) (xs : List A)
      → ((a : A) → p a ≡ true → P a → Q (f a))
      → ((a : A) → p a ≡ false → P a → Q a)
      → All P xs
      → All Q (update p f xs)
  unfolding update
  All-update_to P Q p f [] h k v = tt
  All-update_to P Q p f (x ∷ xs) h k v = elim (Bool-cases (p x)) [
    | inl e ↦ rw e (h x e v.0, All-update_to P Q p f xs h k v.1)
    | inr e ↦ rw e (k x e v.0, All-update_to P Q p f xs h k v.1)
  ]

  pub any-one_le_count : (p : A → Bool) (xs : List A) → any p xs ≡ true → 1 ≤ count p xs
  unfolding any count
  any-one_le_count p [] h = absurd (cc)
  any-one_le_count p (x ∷ xs) h = ground (arith, any-one_le_count p xs)

  pub count-filter_le :
      (p q r : A → Bool) (xs : List A)
      → ((a : A) → q a ≡ true → p a ≡ true → r a ≡ true)
      → count p (filter q xs) ≤ count r xs
  unfolding count filter
  count-filter_le p q r [] h = omega arith
  count-filter_le p q r (x ∷ xs) h = ground (arith, h x, count-filter_le p q r xs h)

  -- A row that an update rewrites is found in its new form.
  pub find?-update :
      (p : A → Bool) (f : A → A) (xs : List A) (a : A)
      → ((x : A) → p x ≡ true → p (f x) ≡ true)
      → find? p xs ≡ some a
      → find? p (update p f xs) ≡ some (f a)
  unfolding find? update
  find?-update p f [] a h e = absurd (cc)
  find?-update p f (x ∷ xs) a h e = elim (Bool-cases (p x)) [
    | inl hit ↦ let same : x ≡ a = ground arith in rw (hit, h x hit, same)
    | inr miss ↦ rw (miss, miss) (find?-update p f xs a h (ground arith))
  ]

  update-no_match :
      (q p : A → Bool) (f : A → A) (xs : List A)
      → count p xs ≡ 0
      → count q (update p f xs) ≡ count q xs
  unfolding count update
  update-no_match q p f [] h = refl
  update-no_match q p f (x ∷ xs) h = ground (arith, update-no_match q p f xs)

  -- A found row is replaced by another one with its key, which no other row has: a count changes by
  -- that row only.
  pub count-replace :
      (k : A → ℕ) (q p : A → Bool) (xs : List A) (a b : A)
      → find? p xs ≡ some a
      → count (λ x. k x == k a) xs ≤ 1
      → count q (update (λ x. k x == k a) (λ _. b) xs) + (if q a then 1 else 0)
        ≡ count q xs + (if q b then 1 else 0)
  unfolding find? count update
  count-replace k q p [] a b h one = absurd (cc)
  count-replace k q p (x ∷ xs) a b h one = elim (Bool-cases (p x)) [
    | inl here ↦
        let same : x ≡ a = ground arith in
        let key : k x ≡ k a = ap k same in
        let value : q x ≡ q a = ap q same in
        let hit : (k x == k a) ≡ true = ground (arith, key) in
        let rest : count (λ x. k x == k a) xs ≡ 0 = ground (arith, key) in
        rw hit (ground (arith, value, update-no_match q (λ x. k x == k a) (λ _. b) xs rest))
    | inr later ↦
        let found : find? p xs ≡ some a = ground arith in
        let some_hit : 1 ≤ count (λ x. k x == k a) xs =
          any-one_le_count (λ x. k x == k a) xs
            (any_of_find? p (λ x. k x == k a) xs a found (ground arith)) in
        let miss : (k x == k a) ≡ false = ground arith in
        rw miss (ground (arith, count-replace k q p xs a b found (ground arith)))
  ]

  -- No row has a key that is above all of them.
  pub count-fresh :
      (k : A → ℕ) (n : ℕ) (xs : List A) → All (λ x. k x < n) xs → count (λ x. k x == n) xs ≡ 0
  unfolding count
  count-fresh k n [] v = refl
  count-fresh k n (x ∷ xs) v = ground (arith, v.0, count-fresh k n xs v.1)

  -- Later rows do not change what a look-up has found.
  pub find?-append_hit :
      (p : A → Bool) (xs ys : List A) (a : A) → find? p xs ≡ some a → find? p (xs ++ ys) ≡ some a
  unfolding find?
  find?-append_hit p [] ys a h = absurd (cc)
  find?-append_hit p (x ∷ xs) ys a h = ground (arith, find?-append_hit p xs ys a)
