-- ===== src/Prelude/Keys.antt =====
-- Look-ups in tables whose rows are changed or deleted by another key.
use Prim.Native.Nat.{ℕ, suc, ◌≤◌}
use mathlib.Core.Path.{◌≡◌, ap, refl, subst, sym, ◌∙◌}
use mathlib.Core.Logic.{inl, inr}
use mathlib.Core.Bool.{Bool, true, false}
use mathlib.Core.Option.{Option, none, some}
use mathlib.Core.List.{List, [], ◌∷◌, map}
use native.Mathlib.Omega.{arith}
use global_news_intelligence.Prelude.Tests.{if◌then◌else◌, ◌==◌, Bool-cases}
use global_news_intelligence.Prelude.Lists.{All, length}
use global_news_intelligence.Prelude.Table.{
  find?, update, filter, count, any-one_le_count, any_of_find?, All-mono,
}

module _ {ℓ} {A : Type ℓ} where
  -- What an update makes of the row that was found.
  abbrev pub updated : (A → Bool) → (A → A) → Option A → Option A
  updated p f none = none
  updated p f (some a) = some (if p a then f a else a)

  pub find?-update_kept :
      (q p : A → Bool) (f : A → A) (xs : List A)
      → ((a : A) → q (f a) ≡ q a)
      → find? q (update p f xs) ≡ updated p f (find? q xs)
  unfolding find? update
  find?-update_kept q p f [] h = refl
  find?-update_kept q p f (x ∷ xs) h = ground (arith, h x, find?-update_kept q p f xs h)

  -- Two look-ups that find rows with one key, which at most one row has.
  pub find?-same :
      (r q k : A → Bool) (xs : List A) (a b : A)
      → count r xs ≤ 1
      → find? q xs ≡ some a
      → find? k xs ≡ some b
      → r a ≡ true
      → r b ≡ true
      → a ≡ b
  unfolding find? count
  find?-same r q k [] a b one e g m n = absurd (cc)
  find?-same r q k (x ∷ xs) a b one e g m n = elim (Bool-cases (q x)) [
    | inl qx ↦ elim (Bool-cases (k x)) [
      | inl kx ↦ ground arith
      | inr kx ↦
          let same : x ≡ a = ground arith in
          let found : find? k xs ≡ some b = ground arith in
          let hit : r x ≡ true = ap r same ∙ m in
          absurd (ground (arith, hit, any-one_le_count r xs (any_of_find? k r xs b found n)))
    ]
    | inr qx ↦ elim (Bool-cases (k x)) [
      | inl kx ↦
          let same : x ≡ b = ground arith in
          let found : find? q xs ≡ some a = ground arith in
          let hit : r x ≡ true = ap r same ∙ n in
          absurd (ground (arith, hit, any-one_le_count r xs (any_of_find? q r xs a found m)))
      | inr kx ↦ find?-same r q k xs a b (ground arith) (ground arith) (ground arith) m n
    ]
  ]

  pub find?-filter_kept :
      (q p : A → Bool) (xs : List A) (a : A)
      → find? q xs ≡ some a
      → p a ≡ true
      → find? q (filter p xs) ≡ some a
  unfolding find? filter
  find?-filter_kept q p [] a e k = absurd (cc)
  find?-filter_kept q p (x ∷ xs) a e k = elim (Bool-cases (q x)) [
    | inl hit ↦
        let same : x ≡ a = ground arith in
        let kept : p x ≡ true = ap p same ∙ k in rw (kept, hit) (ap some same)
    | inr miss ↦ ground (arith, find?-filter_kept q p xs a)
  ]

  pub find?-filter-none :
      (q p : A → Bool) (xs : List A) → find? q xs ≡ none → find? q (filter p xs) ≡ none
  unfolding find? filter
  find?-filter-none q p [] e = refl
  find?-filter-none q p (x ∷ xs) e = ground (arith, find?-filter-none q p xs)

  count-none : (q p : A → Bool) (xs : List A) → count q xs ≡ 0 → find? q (filter p xs) ≡ none
  unfolding find? filter count
  count-none q p [] e = refl
  count-none q p (x ∷ xs) e = ground (arith, count-none q p xs)

  -- The only row that a look-up can find is deleted.
  pub find?-filter_dropped :
      (q p : A → Bool) (xs : List A) (a : A)
      → count q xs ≤ 1
      → find? q xs ≡ some a
      → p a ≡ false
      → find? q (filter p xs) ≡ none
  unfolding find? filter count
  find?-filter_dropped q p [] a one e d = absurd (cc)
  find?-filter_dropped q p (x ∷ xs) a one e d = elim (Bool-cases (q x)) [
    | inl hit ↦
        let same : x ≡ a = ground arith in
        let gone : p x ≡ false = ap p same ∙ d in rw gone (count-none q p xs (ground arith))
    | inr miss ↦ ground (arith, find?-filter_dropped q p xs a)
  ]

  pub count-update_kept :
      (q p : A → Bool) (f : A → A) (xs : List A)
      → ((a : A) → q (f a) ≡ q a)
      → count q (update p f xs) ≡ count q xs
  unfolding count update
  count-update_kept q p f [] h = refl
  count-update_kept q p f (x ∷ xs) h = ground (arith, h x, count-update_kept q p f xs h)

  pub All-filter {κ} :
      (P : A → Type κ) (p : A → Bool) (xs : List A) → All P xs → All P (filter p xs)
  unfolding filter
  All-filter P p [] v = tt
  All-filter P p (x ∷ xs) v = elim (Bool-cases (p x)) [
    | inl e ↦ rw e (v.0, All-filter P p xs v.1)
    | inr e ↦ rw e (All-filter P p xs v.1)
  ]

module _ {ℓ} {A : Type ℓ} (k : A → ℕ) where
  -- Under a unique key, the look-up by the key of a row finds this row.
  pub find?-key :
      (xs : List A)
      → ((n : ℕ) → count (λ x. k x == n) xs ≤ 1)
      → All (λ a. find? (λ x. k x == k a) xs ≡ some a) xs
  unfolding find? count
  find?-key [] one = tt
  find?-key (x ∷ xs) one = (
    rw (eq_refl_key (k x)) refl,
    All-mono _ _ xs
        (λ a h.
          let later : 1 ≤ count (λ y. k y == k a) xs =
            any-one_le_count (λ y. k y == k a) xs
              (any_of_find? (λ y. k y == k a) (λ y. k y == k a) xs a h (eq_refl_key (k a))) in
          let other : (k x == k a) ≡ false = ground (arith, one (k a)) in rw other h)
        (find?-key xs (λ n. ground (arith, one n))),
  )
    where
      eq_refl_key : (n : ℕ) → (n == n) ≡ true
      eq_refl_key n = ground arith

module _ {ℓ} {A : Type ℓ} where
  -- The rows that a filter keeps satisfy its condition.
  pub All-filter_both {κ} :
      (P : A → Type κ) (p : A → Bool) (xs : List A)
      → All P xs
      → All (λ a. P a × (p a ≡ true)) (filter p xs)
  unfolding filter
  All-filter_both P p [] v = tt
  All-filter_both P p (x ∷ xs) v = elim (Bool-cases (p x)) [
    | inl e ↦ rw e ((v.0, e), All-filter_both P p xs v.1)
    | inr e ↦ rw e (All-filter_both P p xs v.1)
  ]

  pub All-map {κ μ} :
      {B : Type κ} (P : B → Type μ) (f : A → B) (xs : List A)
      → All (λ a. P (f a)) xs
      → All P (map f xs)
  All-map P f [] v = tt
  All-map P f (x ∷ xs) v = (v.0, All-map P f xs v.1)

  pub length-map {κ} : {B : Type κ} (f : A → B) (xs : List A) → length (map f xs) ≡ length xs
  length-map f [] = refl
  length-map f (x ∷ xs) = ap suc (length-map f xs)

  pub length-filter : (p : A → Bool) (xs : List A) → length (filter p xs) ≡ count p xs
  unfolding filter count
  length-filter p [] = refl
  length-filter p (x ∷ xs) = ground (arith, length-filter p xs)

module _ {ℓ} {A : Type ℓ} where
  -- A look-up does not see changes of rows that it misses before and after.
  pub find?-update_apart :
      (q p : A → Bool) (f : A → A) (xs : List A)
      → ((a : A) → q a ≡ true → p a ≡ false)
      → ((a : A) → p a ≡ true → q (f a) ≡ false)
      → find? q (update p f xs) ≡ find? q xs
  unfolding find? update
  find?-update_apart q p f [] h k = refl
  find?-update_apart q p f (x ∷ xs) h k = ground (arith, h x, k x, find?-update_apart q p f xs h k)

  pub All-both {κ μ} :
      (P : A → Type κ) (Q : A → Type μ) (xs : List A)
      → All P xs
      → All Q xs
      → All (λ a. P a × Q a) xs
  All-both P Q [] v w = tt
  All-both P Q (x ∷ xs) v w = ((v.0, w.0), All-both P Q xs v.1 w.1)

  pub All-miss : (q : A → Bool) (xs : List A) → count q xs ≡ 0 → All (λ a. q a ≡ false) xs
  unfolding count
  All-miss q [] h = tt
  All-miss q (x ∷ xs) h = (ground arith, All-miss q xs (ground arith))

module _ {ℓ} {A : Type ℓ} where
  pub update-nothing :
      (p : A → Bool) (f : A → A) (xs : List A) → count p xs ≡ 0 → update p f xs ≡ xs
  unfolding update count
  update-nothing p f [] h = refl
  update-nothing p f (x ∷ xs) h =
      let miss : p x ≡ false = ground arith in
      rw miss (ap (λ t. x ∷ t) (update-nothing p f xs (ground arith)))

  -- An update of one row, which a look-up finds.
  pub All-update_one {κ} :
      (P : A → Type κ) (p : A → Bool) (f : A → A) (xs : List A) (y : A)
      → find? p xs ≡ some y
      → count p xs ≤ 1
      → P (f y)
      → All P xs
      → All P (update p f xs)
  unfolding update count find?
  All-update_one P p f [] y h one w v = tt
  All-update_one P p f (x ∷ xs) y h one w v = elim (Bool-cases (p x)) [
    | inl e ↦
        let same : x ≡ y = ground arith in
        rw (e, update-nothing p f xs (ground arith)) (subst (λ a. P (f a)) (sym same) w, v.1)
    | inr e ↦ rw e (v.0, All-update_one P p f xs y (ground arith) (ground arith) w v.1)
  ]
