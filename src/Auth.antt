-- ===== src/Auth.antt =====
-- internal/auth: passwords and user names (auth.go), one-time codes and recovery codes (totp.go).
pub mod Totp
pub mod Usernames
use portflow.Prelude.{
  ℕ, String, Bool, Option, none, some, ◌&&◌, ◌||◌, eqb, ltb, leb, if◌then◌else◌, on_option, Result,
  ok, err, trim_space, byte_length, lower, upper, without_char, all_chars,
}

abbrev pub min_password_length : ℕ
min_password_length = 12

abbrev pub max_password_length : ℕ
max_password_length = 128

pub data AuthError : Type 0 where
  password_too_short password_too_long hash_failed username_invalid : AuthError

unfoldable pub validate_password : String → Option AuthError
unfolding byte_length
validate_password password =
    if ltb (byte_length password) min_password_length
    then some password_too_short
    else if ltb max_password_length (byte_length password)
    then some password_too_long
    else none

-- `bcrypt` is bcrypt.GenerateFromPassword, none where it fails.
unfoldable pub hash_password : (String → Option String) → String → Result AuthError String
unfolding validate_password
hash_password bcrypt password =
    on_option (validate_password password)
      (on_option (bcrypt password) (err hash_failed) λ hash. ok hash) λ problem. err problem

abbrev pub is_username_character : ℕ → Bool
is_username_character c =
    (leb b'a' c && leb c b'z') || (leb b'0' c && leb c b'9') || eqb c b'_' || eqb c b'-'

-- The tests of NormalizeUsername, whose two errors are one.
unfoldable pub check_username : String → Result AuthError String
unfolding byte_length all_chars
check_username name =
    if ltb (byte_length name) 3 || ltb 32 (byte_length name)
    then err username_invalid
    else if all_chars is_username_character name
    then ok name
    else err username_invalid

unfoldable pub normalize_username : String → Result AuthError String
unfolding trim_space lower check_username
normalize_username username = check_username (lower (trim_space username))

unfoldable pub normalize_recovery_code : String → String
unfolding trim_space upper without_char
normalize_recovery_code code = upper (without_char b' ' (without_char b'-' (trim_space code)))

-- `token_hash` is TokenHash, a hexadecimal SHA-256 digest.
unfoldable pub recovery_code_hash : (String → String) → String → String
unfolding normalize_recovery_code
recovery_code_hash token_hash code = token_hash (normalize_recovery_code code)
