-- ===== src/Matching/Text/Examples.antt =====
-- An operator that reads patterns as PostgreSQL's manual says, and a query with wild cards.
use Prim.Native.Char.{Char}
use global_news_intelligence.Prelude.{
  String, ◌≡◌, refl, Bool, true, false, ◌&&◌, ◌||◌, none, some, if◌then◌else◌, arith,
}
use global_news_intelligence.Matching.Text.{
  is_char, is_plain, backslash, percent, IsLike, matches_text, contains, contains_null, starts_with,
  matches_text-contains,
}

abbrev is_empty : String → Bool
is_empty String.[] = true
is_empty (String.◌∷◌ c text) = false

-- A percent sign before `rest`, and a character before it
rest_of : (String → Bool) → String → Bool
rest_of rest String.[] = rest ""
rest_of rest (String.◌∷◌ d text) = rest (String.◌∷◌ d text) || rest_of rest text

abbrev takes : Char → (String → Bool) → String → Bool
takes c rest String.[] = false
takes c rest (String.◌∷◌ d text) = is_char c d && rest text

reads : String → String → Bool
unfolding rest_of
reads String.[] text = is_empty text
reads (String.◌∷◌ c String.[]) text =
    if is_char percent c
    then rest_of is_empty text
    else if is_char backslash c
    then false
    else takes c is_empty text
reads (String.◌∷◌ c (String.◌∷◌ e p)) text =
    let rest = reads (String.◌∷◌ e p) in
    let escaped = reads p in
    if is_char percent c
    then rest_of rest text
    else if is_char backslash c
    then takes e escaped text
    else takes c rest text

not_special :
    (c : Char) → is_plain c ≡ true → (is_char percent c ≡ false) × (is_char backslash c ≡ false)
not_special c h = (ground (arith, h), ground (arith, h))

reads-IsLike : IsLike is_char reads
unfolding reads rest_of
reads-IsLike = record {
  empty = refl;
  too_long = λ d text. refl;
  any_end = λ p. elim p as (λ p. reads (String.◌∷◌ percent p) "" ≡ reads p "") [
    | String.[] ↦ refl
    | String.◌∷◌ c q ↦ refl
  ];
  any_text = λ p d text.
      elim p
        as (λ p.
          reads (String.◌∷◌ percent p) (String.◌∷◌ d text)
          ≡ (reads p (String.◌∷◌ d text) || reads (String.◌∷◌ percent p) text)) [
            | String.[] ↦ refl
            | String.◌∷◌ c q ↦ refl
          ];
  escaped_end = λ c p. refl;
  escaped = λ c p d text. refl;
  plain_end = λ c p h.
      let (a, b) = not_special c h in
      elim p as (λ p. reads (String.◌∷◌ c p) "" ≡ false) [
        | String.[] ↦ rw (a, b) refl
        | String.◌∷◌ e q ↦ rw (a, b) refl
      ];
  plain = λ c p d text h.
      let (a, b) = not_special c h in
      elim p as (λ p. reads (String.◌∷◌ c p) (String.◌∷◌ d text) ≡ (is_char c d && reads p text)) [
        | String.[] ↦ rw (a, b) refl
        | String.◌∷◌ e q ↦ rw (a, b) refl
      ];
}

matches_text-contains_example : matches_text reads "5%" "Rates at 5% again" none (some "x") ≡ (
    contains is_char "5%" "Rates at 5% again"
    || contains_null is_char "5%" none
    || contains_null is_char "5%" (some "x"))
matches_text-contains_example =
    matches_text-contains is_char reads "5%" "Rates at 5% again" none (some "x") reads-IsLike

finds : contains is_char "5%" "Rates at 5% again" ≡ true
unfolding contains starts_with
finds = refl

-- The percent sign is no wild card.
misses : contains is_char "5%" "Rates at 50 again" ≡ false
unfolding contains starts_with
misses = refl
