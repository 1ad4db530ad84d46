-- ===== src/Auth/Totp.antt =====
-- internal/auth/totp.go: one-time codes. What encoding/base32 and crypto/hmac compute are arguments;
-- a code is its six bytes. Times are from 1970 on.
pub mod Window
use Prim.Native.Nat.{bit_and}
use Prim.Native.Char.{code}
use portflow.Prelude.{
  ℕ, zero, suc, ◌+◌, ◌-◌, ◌*◌, ◌/◌, ◌%◌, ◌^◌, ◌≤◌, ◌<◌, ◌≡◌, ◌⊎◌, ◌↔◌, refl, sym, ap, subst, ◌∙◌,
  inl, inr, String, Bool, true, false, Option, none, some, List, [], ◌∷◌, ◌++◌, ◌&&◌, ◌||◌, eqb,
  leb, if◌then◌else◌, on_option, trim_space, without_char, length, take, drop, arith, Bool-cases,
  Option-cases,
}
use portflow.Store.{second}
use portflow.Store.Telemetry.{unix_of}

abbrev pub totp_period : ℕ
totp_period = 30 * second

abbrev pub totp_digits : ℕ
totp_digits = 6

-- The bytes of an ASCII text.
unfoldable pub codes : String → List ℕ
codes String.[] = []
codes (String.◌∷◌ c s) = code c ∷ codes s

-- binary.BigEndian.PutUint64: `n` bytes
unfoldable pub big_endian : ℕ → ℕ → List ℕ
big_endian zero value = []
big_endian (suc n) value = (value / 256 ^ n % 256) ∷ big_endian n value

-- binary.BigEndian.Uint32, of the four bytes at the front
unfoldable pub uint32_of : List ℕ → ℕ
uint32_of (a ∷ b ∷ c ∷ d ∷ bytes) = a * 2 ^ 24 + b * 2 ^ 16 + c * 2 ^ 8 + d
uint32_of bytes = 0

unfoldable pub last_byte : List ℕ → ℕ
last_byte [] = 0
last_byte (b ∷ []) = b
last_byte (b ∷ c ∷ bytes) = last_byte (c ∷ bytes)

-- fmt.Sprintf("%06d", value)
unfoldable pub six_digits : ℕ → List ℕ
six_digits value =
    (48 + value / 100000 % 10)
    ∷ (48 + value / 10000 % 10)
    ∷ (48 + value / 1000 % 10)
    ∷ (48 + value / 100 % 10)
    ∷ (48 + value / 10 % 10)
    ∷ (48 + value % 10)
    ∷ []

abbrev pub is_digit : ℕ → Bool
is_digit c = leb b'0' c && leb c b'9'

unfoldable pub all_digits : List ℕ → Bool
all_digits [] = true
all_digits (c ∷ bytes) = is_digit c && all_digits bytes

-- strconv.Atoi accepts these six bytes: digits, or a sign before digits.
unfoldable pub is_number : List ℕ → Bool
unfolding all_digits
is_number [] = false
is_number (c ∷ bytes) =
    all_digits (c ∷ bytes)
    || ((eqb c b'+' || eqb c b'-') && leb 1 (length bytes) && all_digits bytes)

-- subtle.ConstantTimeCompare
unfoldable pub same_bytes : List ℕ → List ℕ → Bool
same_bytes [] [] = true
same_bytes (a ∷ one) (b ∷ other) = eqb a b && same_bytes one other
same_bytes one other = false

-- The key of a secret (base32, none where it does not decode to a key), and HMAC-SHA1, whose digests
-- have 20 bytes.
pub record Hmac : Type 0 where
  pub key_of : String → Option (List ℕ)
  pub hmac_sha1 : List ℕ → List ℕ → List ℕ

-- The counter of a time.
abbrev pub counter_at : ℕ → ℕ
counter_at time = unix_of time / 30

-- The code of a key and a counter.
unfoldable pub code_of : Hmac → List ℕ → ℕ → List ℕ
unfolding big_endian uint32_of last_byte six_digits
code_of hmac key counter =
    let digest = hmac.hmac_sha1 key (big_endian 8 counter) in
    six_digits (uint32_of (drop (last_byte digest % 16) digest) % 2 ^ 31 % 1000000)

-- TOTPCode; none is an error.
unfoldable pub totp_code : Hmac → String → ℕ → Option (List ℕ)
unfolding code_of
totp_code hmac secret time =
    on_option (hmac.key_of secret) none λ key. some (code_of hmac key (counter_at time))

-- One offset of ValidateTOTP's loop.
unfoldable pub matches_at : Hmac → String → List ℕ → ℕ → Bool
unfolding totp_code same_bytes
matches_at hmac secret bytes time =
    on_option (totp_code hmac secret time) false λ expected. same_bytes expected bytes

unfoldable pub validate_totp : Hmac → String → String → ℕ → Bool
unfolding codes is_number matches_at
validate_totp hmac secret text time =
    let bytes = codes (without_char b' ' (trim_space text)) in
    eqb (length bytes) totp_digits
    && is_number bytes
    && (matches_at hmac secret bytes (time - totp_period)
        || matches_at hmac secret bytes time
        || matches_at hmac secret bytes (time + totp_period))
