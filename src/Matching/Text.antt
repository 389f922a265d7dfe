-- ===== src/Matching/Text.antt =====
-- The text filter of `build_document_match_plan` in app/services/document_matching_service.py:
-- `_escape_like` and the pattern for `ILIKE ... ESCAPE '\'`, an operator of PostgreSQL that is a
-- parameter here.
mod Examples
use Prim.Native.Char.{Char, code}
use Prim.Native.String.{◌++◌ as append}
use text.Mathlib.TextLemmas.{cons-append}
use text.Mathlib.TextEquality.{Char-path}
use global_news_intelligence.Prelude.{
  ℕ, String, ◌≡◌, ◌≢◌, refl, sym, ap, ◌∙◌, ◌==◌, Bool, true, false, not, ◌&&◌, ◌||◌, Option, none,
  some, if◌then◌else◌, Bool-cases, inl, inr, arith,
}

abbrev pub backslash : Char
backslash = "\\"

abbrev pub percent : Char
percent = "%"

abbrev pub underscore : Char
underscore = "_"

abbrev pub is_char : Char → Char → Bool
is_char a c = code c == code a

-- `value.replace(a, "\\" + a)`
unfoldable pub replace_char : Char → String → String
replace_char a String.[] = ""
replace_char a (String.◌∷◌ c text) =
    let rest = replace_char a text in
    if is_char a c then String.◌∷◌ backslash (String.◌∷◌ a rest) else String.◌∷◌ c rest

-- `_escape_like`
unfoldable pub escape_like : String → String
unfolding replace_char
escape_like value = replace_char underscore (replace_char percent (replace_char backslash value))

-- `f"%{_escape_like(criteria.text_query)}%"`
unfoldable pub pattern_of : String → String
unfolding escape_like
pattern_of query = String.◌∷◌ percent (append (escape_like query) "%")

-- `Document.title_original.ilike(pattern, escape="\\")`, and the same for the summary and the
-- content, where null does not match
unfoldable pub ilike_null : (String → String → Bool) → String → Option String → Bool
ilike_null ilike pattern none = false
ilike_null ilike pattern (some text) = ilike pattern text

unfoldable pub matches_text :
    (String → String → Bool) → String → String → Option String → Option String → Bool
unfolding pattern_of ilike_null
matches_text ilike query title summary content =
    let pattern = pattern_of query in
    ilike pattern title || ilike_null ilike pattern summary || ilike_null ilike pattern content

-- A character that stands for itself in a pattern.
abbrev pub is_plain : Char → Bool
is_plain c = not (is_char backslash c || is_char percent c || is_char underscore c)

-- What PostgreSQL's manual says of `LIKE`, up to the comparison of characters, which `ILIKE` makes by
-- the locale: a backslash takes the next character as itself, a percent sign stands for any text,
-- another character for itself.
pub record IsLike (same : Char → Char → Bool) (like : String → String → Bool) : Type 0 where
  pub empty : like "" "" ≡ true
  pub too_long : (d : Char) (text : String) → like "" (String.◌∷◌ d text) ≡ false
  pub any_end : (p : String) → like (String.◌∷◌ percent p) "" ≡ like p ""
  pub any_text :
      (p : String) (d : Char) (text : String)
      → like (String.◌∷◌ percent p) (String.◌∷◌ d text)
        ≡ (like p (String.◌∷◌ d text) || like (String.◌∷◌ percent p) text)
  pub escaped_end :
      (c : Char) (p : String) → like (String.◌∷◌ backslash (String.◌∷◌ c p)) "" ≡ false
  pub escaped :
      (c : Char) (p : String) (d : Char) (text : String)
      → like (String.◌∷◌ backslash (String.◌∷◌ c p)) (String.◌∷◌ d text) ≡ (same c d && like p text)
  pub plain_end : (c : Char) (p : String) → is_plain c ≡ true → like (String.◌∷◌ c p) "" ≡ false
  pub plain :
      (c : Char) (p : String) (d : Char) (text : String)
      → is_plain c ≡ true
      → like (String.◌∷◌ c p) (String.◌∷◌ d text) ≡ (same c d && like p text)

-- The escaped query in one pass
escaped_text : String → String
escaped_text String.[] = ""
escaped_text (String.◌∷◌ c text) =
    let rest = escaped_text text in
    if is_plain c then String.◌∷◌ c rest else String.◌∷◌ backslash (String.◌∷◌ c rest)

same_char : (a c : Char) → is_char a c ≡ true → a ≡ c
same_char a c h = sym (Char-path c a (ground (arith, h)))

escaped_cons :
    (a c : Char) (text : String)
    → a ≡ c
    → escape_like text ≡ escaped_text text
    → String.◌∷◌ backslash (String.◌∷◌ a (escape_like text))
      ≡ String.◌∷◌ backslash (String.◌∷◌ c (escaped_text text))
escaped_cons a c text h ih =
    ap (λ t. String.◌∷◌ backslash (String.◌∷◌ a t)) ih
    ∙ ap (λ d. String.◌∷◌ backslash (String.◌∷◌ d (escaped_text text))) h

escape_like-escaped_text : (text : String) → escape_like text ≡ escaped_text text
unfolding escape_like replace_char escaped_text
escape_like-escaped_text String.[] = refl
escape_like-escaped_text (String.◌∷◌ c text) =
    let ih : escape_like text ≡ escaped_text text = escape_like-escaped_text text in
    elim (Bool-cases (is_char backslash c)) [
      | inl e ↦ rw e (escaped_cons backslash c text (same_char backslash c e) ih)
      | inr e ↦ elim (Bool-cases (is_char percent c)) [
        | inl f ↦ rw (e, f) (escaped_cons percent c text (same_char percent c f) ih)
        | inr f ↦ elim (Bool-cases (is_char underscore c)) [
          | inl g ↦ rw (e, f, g) (escaped_cons underscore c text (same_char underscore c g) ih)
          | inr g ↦ rw (e, f, g) (ap (λ t. String.◌∷◌ c t) ih)
        ]
      ]
    ]

-- The query stands at the start of a text, or somewhere in it.
unfoldable pub starts_with : (Char → Char → Bool) → String → String → Bool
starts_with same String.[] text = true
starts_with same (String.◌∷◌ c query) String.[] = false
starts_with same (String.◌∷◌ c query) (String.◌∷◌ d text) = same c d && starts_with same query text

unfoldable pub contains : (Char → Char → Bool) → String → String → Bool
unfolding starts_with
contains same query String.[] = starts_with same query ""
contains same query (String.◌∷◌ d text) =
    starts_with same query (String.◌∷◌ d text) || contains same query text

module _ (same : Char → Char → Bool) (like : String → String → Bool) (law : IsLike same like) where
  like-any : (text : String) → like (String.◌∷◌ percent "") text ≡ true
  like-any String.[] = law.any_end "" ∙ law.empty
  like-any (String.◌∷◌ d text) = ground (arith, law.any_text "" d text, like-any text)

  -- The rest of the pattern compares the query with the start of a text.
  like-starts_with :
      (query text : String)
      → like (append (escaped_text query) "%") text ≡ starts_with same query text
  unfolding escaped_text starts_with
  like-starts_with String.[] text = like-any text
  like-starts_with (String.◌∷◌ c query) String.[] = elim (Bool-cases (is_plain c)) [
    | inl e ↦
        rw (e, cons-append c (escaped_text query) "%")
          (law.plain_end c (append (escaped_text query) "%") e)
    | inr e ↦
        rw
          (
            e,
            cons-append backslash (String.◌∷◌ c (escaped_text query)) "%",
            cons-append c (escaped_text query) "%",
          )
          (law.escaped_end c (append (escaped_text query) "%"))
  ]
  like-starts_with (String.◌∷◌ c query) (String.◌∷◌ d text) =
      let ih : like (append (escaped_text query) "%") text ≡ starts_with same query text =
        like-starts_with query text in
      elim (Bool-cases (is_plain c)) [
        | inl e ↦
            rw (e, cons-append c (escaped_text query) "%")
              (law.plain c (append (escaped_text query) "%") d text e ∙ ap (λ b. same c d && b) ih)
        | inr e ↦
            rw
              (
                e,
                cons-append backslash (String.◌∷◌ c (escaped_text query)) "%",
                cons-append c (escaped_text query) "%",
              )
              (law.escaped c (append (escaped_text query) "%") d text ∙ ap (λ b. same c d && b) ih)
      ]

  like-contains :
      (query text : String)
      → like (String.◌∷◌ percent (append (escaped_text query) "%")) text ≡ contains same query text
  unfolding contains
  like-contains query String.[] =
      law.any_end (append (escaped_text query) "%") ∙ like-starts_with query ""
  like-contains query (String.◌∷◌ d text) =
      law.any_text (append (escaped_text query) "%") d text
      ∙ ground (arith, like-starts_with query (String.◌∷◌ d text), like-contains query text)

-- What a text filter selects, null columns not containing anything.
unfoldable pub contains_null : (Char → Char → Bool) → String → Option String → Bool
contains_null same query none = false
contains_null same query (some text) = contains same query text

pattern_of-contains :
    (same : Char → Char → Bool) (like : String → String → Bool) (query text : String)
    → IsLike same like
    → like (pattern_of query) text ≡ contains same query text
unfolding pattern_of
pattern_of-contains same like query text law =
    rw (escape_like-escaped_text query) (like-contains same like law query text)

ilike_null-contains :
    (same : Char → Char → Bool) (like : String → String → Bool) (query : String)
    (text : Option String)
    → IsLike same like
    → ilike_null like (pattern_of query) text ≡ contains_null same query text
unfolding ilike_null contains_null
ilike_null-contains same like query none law = refl
ilike_null-contains same like query (some text) law = pattern_of-contains same like query text law

-- For every operator that reads patterns as the manual says, the text filter of the query selects
-- the documents of which the title, the summary or the content contains the query literally, with
-- its percent signs, underscores and backslashes, up to the operator's comparison of characters.
pub matches_text-contains :
    (same : Char → Char → Bool) (like : String → String → Bool) (query title : String)
    (summary content : Option String)
    → IsLike same like
    → matches_text like query title summary content ≡ (
        contains same query title
        || contains_null same query summary
        || contains_null same query content)
unfolding matches_text
matches_text-contains same like query title summary content law =
    rw
      (
        pattern_of-contains same like query title law,
        ilike_null-contains same like query summary law,
        ilike_null-contains same like query content law,
      )
      refl
