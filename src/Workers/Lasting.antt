-- ===== src/Workers/Lasting.antt =====
-- Claims that last: what other rounds and tasks leave of them.
use global_news_intelligence.Prelude.{
  ℕ, ◌+◌, ◌<◌, ◌≡◌, refl, subst, ◌==◌, Bool, true, false, ◌&&◌, none, List, [], ◌∷◌, any,
  any-find?-none, find?, filter, Time, leb, arith, Bool-cases, Option-cases, inl, inr,
}
use global_news_intelligence.Workers.Claims.{
  Claim, is_live, is_other, get_owner, set_if_absent, acquire, delete_if, is_owner, release,
}

-- A claim on the endpoint that lasts until some time.
abbrev pub lasts : ℕ → Time → Claim → Bool
lasts endpoint until c = c.endpoint_id == endpoint && leb until c.expires_at

any-filter {ℓ} :
    {A : Type ℓ} (p q : A → Bool) (xs : List A)
    → ((a : A) → p a ≡ true → q a ≡ true)
    → any p (filter q xs) ≡ any p xs
unfolding any filter
any-filter p q [] h = refl
any-filter p q (x ∷ xs) h = ground (arith, h x, any-filter p q xs h)

live_of_lasts :
    (endpoint : ℕ) (now until : Time) (cs : List Claim)
    → now < until
    → any (lasts endpoint until) cs ≡ true
    → any (is_live now endpoint) cs ≡ true
unfolding any
live_of_lasts endpoint now until [] h k = absurd (cc)
live_of_lasts endpoint now until (c ∷ cs) h k =
    ground (arith, live_of_lasts endpoint now until cs h)

-- A claim that lasts is not acquired again.
pub acquire-refused :
    (now until : Time) (ttl endpoint owner : ℕ) (cs : List Claim)
    → now < until
    → any (lasts endpoint until) cs ≡ true
    → acquire now ttl endpoint owner cs ≡ (false, cs)
unfolding acquire get_owner set_if_absent
acquire-refused now until ttl endpoint owner cs h k =
    elim (Option-cases (find? (is_live now endpoint) cs)) [
      | inr (c, e) ↦ rw e refl
      | inl e ↦ absurd (
          ground (
            arith,
            any-find?-none (is_live now endpoint) cs e,
            live_of_lasts endpoint now until cs h k,
          ))
    ]

-- Other endpoints' claims come and go without it.
pub acquire_other :
    (now until : Time) (ttl endpoint other owner : ℕ) (cs : List Claim)
    → (other == endpoint) ≡ false
    → any (lasts endpoint until) cs ≡ true
    → any (lasts endpoint until) (acquire now ttl other owner cs).1 ≡ true
unfolding acquire set_if_absent
acquire_other now until ttl endpoint other owner cs e k =
    elim (Option-cases (get_owner now other cs)) [
      | inr (x, h) ↦ rw h k
      | inl h ↦ rw h (
          unfold any in
          ground
            (arith, any-filter (lasts endpoint until) (is_other other) cs (λ c m. ground arith)))
    ]

pub release_other :
    (now until : Time) (endpoint other owner : ℕ) (cs : List Claim)
    → (other == endpoint) ≡ false
    → any (lasts endpoint until) cs ≡ true
    → any (lasts endpoint until) (release now other owner cs).1 ≡ true
unfolding release delete_if
release_other now until endpoint other owner cs e k =
    elim (Bool-cases (is_owner (get_owner now other cs) owner)) [
      | inr h ↦ rw h k
      | inl h ↦ rw h (
          ground
            (arith, any-filter (lasts endpoint until) (is_other other) cs (λ c m. ground arith)))
    ]

pub acquire-lasts :
    (now : Time) (ttl endpoint owner : ℕ) (cs ds : List Claim)
    → acquire now ttl endpoint owner cs ≡ (true, ds)
    → any (lasts endpoint (now + ttl)) ds ≡ true
unfolding acquire set_if_absent any
acquire-lasts now ttl endpoint owner cs ds h = elim (Option-cases (get_owner now endpoint cs)) [
  | inr (x, e) ↦ absurd (ground arith)
  | inl e ↦
      let same : record { endpoint_id = endpoint; owner = owner; expires_at = now + ttl }
            ∷ filter (is_other endpoint) cs
          ≡ ds =
        ground arith in
      subst (λ es. any (lasts endpoint (now + ttl)) es ≡ true) same (ground arith)
]

pub none_live :
    (now : Time) (endpoint : ℕ) (cs : List Claim)
    → find? (is_live now endpoint) (filter (is_other endpoint) cs) ≡ none
unfolding filter find?
none_live now endpoint [] = refl
none_live now endpoint (c ∷ cs) = ground (arith, none_live now endpoint cs)
