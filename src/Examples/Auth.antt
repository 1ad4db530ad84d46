-- ===== src/Examples/Auth.antt =====
-- Codes under an HMAC whose digest holds its message.
use portflow.Prelude.{
  ℕ, ◌+◌, ◌*◌, ◌≡◌, ◌↔◌, refl, true, some, [], ◌∷◌, ◌++◌, trim_space, without_char, arith,
}
use portflow.Store.{second}
use portflow.Auth.Totp.{
  Hmac, codes, counter_at, code_of, totp_code, validate_totp, big_endian, uint32_of, last_byte,
  six_digits,
}
use portflow.Auth.Totp.Window.{FromWindow, validate_totp-true_iff, validate_totp-totp_code}

abbrev pub sample_hmac : Hmac
sample_hmac = record {
  key_of = λ secret. some (1 ∷ []);
  hmac_sha1 = λ key message. message ++ (0 ∷ 0 ∷ 0 ∷ 0 ∷ 0 ∷ 0 ∷ 0 ∷ 0 ∷ 0 ∷ 0 ∷ 0 ∷ 4 ∷ []);
}

-- The half minute 1234567, whose code is 234567 here.
abbrev issue_time : ℕ
issue_time = (62135596800 + 37037010) * second

validate_totp-totp_code_example :
    validate_totp sample_hmac "SECRET" " 234 567" (issue_time + 31 * second) ≡ true
unfolding totp_code code_of big_endian uint32_of last_byte six_digits codes without_char trim_space
validate_totp-totp_code_example =
    validate_totp-totp_code sample_hmac "SECRET" " 234 567" issue_time (issue_time + 31 * second)
      refl (omega arith) (omega arith) (omega arith)

validate_totp-true_iff_example :
    (validate_totp sample_hmac "SECRET" "234566" issue_time ≡ true)
    ↔ FromWindow sample_hmac
        (1 ∷ [])
        (codes (without_char b' ' (trim_space "234566")))
        (counter_at issue_time)
validate_totp-true_iff_example =
    validate_totp-true_iff sample_hmac "SECRET" "234566" (1 ∷ []) issue_time refl (omega arith)
