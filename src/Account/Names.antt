-- ===== src/Account/Names.antt =====
-- The checks of core/security.rs on names, passwords and recovery phrases.
use lqxp.Common.{
  ℕ, ◌⊎◌, inl, inr, Bool, false, ◌&&◌, ◌||◌, not, List, [], ◌∷◌, ◌++◌, map, leb, nat_beq,
  if◌then◌else◌, is_empty, filter, any, all, contains, Text, text, text_Eq,
}
use Prim.Native.String.{String}
use lqxp.Common.Chars.{chars, concat, char_count, contains_text}

abbrev pub username_min : ℕ
username_min = 2

abbrev pub username_max : ℕ
username_max = 32

abbrev pub username_register_max : ℕ
username_register_max = 24

abbrev pub password_min : ℕ
password_min = 8

abbrev pub password_max : ℕ
password_max = 128

unfoldable pub reserved_usernames : List Text
unfolding text
reserved_usernames =
    text "system"
    ∷ text "official"
    ∷ text "official_qxchat"
    ∷ text "qxchat"
    ∷ text "qx_protocol"
    ∷ text "qxprotocol"
    ∷ text "admin"
    ∷ text "administrator"
    ∷ text "moderator"
    ∷ text "mod"
    ∷ text "staff"
    ∷ text "support"
    ∷ text "help"
    ∷ text "helpdesk"
    ∷ text "root"
    ∷ text "owner"
    ∷ text "team"
    ∷ text "noreply"
    ∷ text "no_reply"
    ∷ text "donotreply"
    ∷ text "welcome"
    ∷ text "dmca"
    ∷ text "abuse"
    ∷ text "security"
    ∷ text "press"
    ∷ text "contact"
    ∷ text "announce"
    ∷ text "announcement"
    ∷ text "server"
    ∷ text "bot"
    ∷ []

unfoldable pub reserved_username_substrings : List Text
unfolding text
reserved_username_substrings = text "qxchat" ∷ text "qx_protocol" ∷ text "qxprotocol" ∷ []

-- On one character.
unfoldable pub unleet : Text → Text
unleet (c ∷ []) =
    if nat_beq c b'0'
    then b'o' ∷ []
    else if (nat_beq c b'1') || ((nat_beq c b'!') || (nat_beq c b'|'))
    then b'i' ∷ []
    else if nat_beq c b'3'
    then b'e' ∷ []
    else if nat_beq c b'4'
    then b'a' ∷ []
    else if (nat_beq c b'5') || (nat_beq c b'$')
    then b's' ∷ []
    else if nat_beq c b'7'
    then b't' ∷ []
    else if nat_beq c b'@'
    then b'a' ∷ []
    else c ∷ []
unleet other = other

-- The characters of a name besides letters and digits.
punctuation : Text
punctuation =
    b'_' ∷ b'.' ∷ b'-' ∷ b' ' ∷ b'#' ∷ b'@' ∷ 39 ∷ b'"' ∷ b'(' ∷ b')' ∷ b'[' ∷ b']' ∷ b'!' ∷ b'?'
    ∷ []

is_punctuation : Text → Bool
unfolding punctuation
is_punctuation (c ∷ []) = any (λ p. nat_beq p c) punctuation
is_punctuation _ = false

join_with_space : List Text → Text
join_with_space [] = []
join_with_space (w ∷ []) = w
join_with_space (w ∷ v ∷ ws) = w ++ b' ' ∷ join_with_space (v ∷ ws)

-- A check that answers with a message that has numbers in it, or with one that has not.
pub data Refusal : Type 0 where
  message : String → Refusal
  between : String → ℕ → ℕ → Refusal

-- What the standard library does to Unicode texts and characters.
pub record Unicode : Type 0 where
  pub trim : Text → Text
  pub to_lowercase : Text → Text
  pub is_alphanumeric : Text → Bool
  pub is_control : Text → Bool
  pub is_whitespace : Text → Bool
  pub split_whitespace : Text → List Text

module _ (u : Unicode) where
  unfoldable pub normalize_username : Text → Text
  normalize_username username = u.to_lowercase (u.trim username)

  unfoldable pub reserved_username_keys : Text → List Text
  unfolding unleet
  reserved_username_keys username =
      let lowered = u.to_lowercase (u.trim username) in
      concat (filter u.is_alphanumeric (chars lowered))
      ∷ concat (filter u.is_alphanumeric (map unleet (chars lowered)))
      ∷ []

  unfoldable pub hits_reserved_username : Text → Bool
  unfolding reserved_username_keys
  hits_reserved_username username =
      any
        (λ key.
          not (is_empty key)
          && (contains reserved_usernames key
              || any (λ token. contains_text token key) reserved_username_substrings))
        (reserved_username_keys username)

  unfoldable pub normalize_recovery_phrase : Text → Text
  unfolding join_with_space
  normalize_recovery_phrase words = join_with_space (map u.to_lowercase (u.split_whitespace words))

  is_name_char : Text → Bool
  unfolding is_punctuation
  is_name_char ch = u.is_alphanumeric ch || is_punctuation ch

  unfoldable pub validate_username_with_max : Text → ℕ → Refusal ⊎ Text
  unfolding normalize_username hits_reserved_username is_name_char
  validate_username_with_max username max =
      let normalized = normalize_username username in
      let n = char_count normalized in
      if not (leb username_min n && leb n max)
      then inl (between "Username" username_min max)
      else if hits_reserved_username normalized
      then inl (message "Username is reserved.")
      else if not (all is_name_char (chars normalized))
      then inl (message "Username contains invalid characters.")
      else inr normalized

  unfoldable pub validate_username : Text → Refusal ⊎ Text
  unfolding validate_username_with_max
  validate_username username = validate_username_with_max username username_max

  unfoldable pub validate_registration_username : Text → Refusal ⊎ Text
  unfolding validate_username_with_max
  validate_registration_username username =
      validate_username_with_max username username_register_max

  unfoldable pub username_hits_blocklist : Text → List Text → Bool
  unfolding normalize_username
  username_hits_blocklist username blocklist =
      let normalized = normalize_username username in
      any
        (λ term.
          let term_norm = normalize_username term in
          not (is_empty term_norm) && contains_text term_norm normalized)
        blocklist

unfoldable pub validate_password : Text → Refusal ⊎ Unit {0}
validate_password password =
    let n = char_count password in
    if not (leb password_min n && leb n password_max)
    then inl (between "Password" password_min password_max)
    else inr tt
