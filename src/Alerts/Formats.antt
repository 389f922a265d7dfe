-- ===== src/Alerts/Formats.antt =====
-- The formats that the checks on destinations and deliveries of app/models/alert.py test.
use Prim.Native.Char.{Char, code}
use global_news_intelligence.Prelude.{
  String, ◌==◌, Bool, true, false, ◌&&◌, ◌||◌, Option, none, some, leb,
}

abbrev pub is_letter : Char → Bool
is_letter c =
    (leb 97 (code c) && leb (code c) 122) || (leb 65 (code c) && leb (code c) 90) || code c == 95

-- `[A-Za-z0-9_]`
abbrev pub is_name_char : Char → Bool
is_name_char c = is_letter c || (leb 48 (code c) && leb (code c) 57)

unfoldable pub all_chars : (Char → Bool) → String → Bool
all_chars p String.[] = true
all_chars p (String.◌∷◌ c text) = let rest = all_chars p text in p c && rest

-- `^[A-Za-z0-9_-]+$`
unfoldable pub is_topic : String → Bool
unfolding all_chars
is_topic String.[] = false
is_topic (String.◌∷◌ c text) = all_chars (λ x. is_name_char x || code x == 45) (String.◌∷◌ c text)

-- `auth_token_env_var IS NULL OR auth_token_env_var ~ '^[A-Za-z_][A-Za-z0-9_]*$'`
unfoldable pub is_variable : Option String → Bool
unfolding all_chars
is_variable none = true
is_variable (some String.[]) = false
is_variable (some (String.◌∷◌ c text)) = is_letter c && all_chars is_name_char text

unfoldable pub starts_with : String → String → Bool
starts_with String.[] text = true
starts_with (String.◌∷◌ c start) String.[] = false
starts_with (String.◌∷◌ c start) (String.◌∷◌ d text) =
    let rest = starts_with start text in code c == code d && rest
