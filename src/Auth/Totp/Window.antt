-- ===== src/Auth/Totp/Window.antt =====
-- Which one-time codes are accepted, and when.
use portflow.Prelude.{
  ℕ, ◌+◌, ◌-◌, ◌*◌, ◌/◌, ◌%◌, ◌^◌, ◌≤◌, ◌≡◌, ◌⊎◌, ◌↔◌, refl, sym, ap, subst, ◌∙◌, inl, inr, String,
  Bool, true, some, List, [], ◌∷◌, ◌||◌, eqb, trim_space, without_char, length, drop, arith,
  Option-cases,
}
use portflow.Store.{second}
use portflow.Auth.Totp.{
  totp_period, totp_digits, codes, big_endian, uint32_of, last_byte, six_digits, is_digit,
  all_digits, is_number, same_bytes, Hmac, counter_at, code_of, totp_code, matches_at,
  validate_totp,
}

same_bytes_refl : (bytes : List ℕ) → same_bytes bytes bytes ≡ true
unfolding same_bytes
same_bytes_refl [] = refl
same_bytes_refl (b ∷ bytes) = ground (arith, same_bytes_refl bytes)

same_bytes-true : (one other : List ℕ) → same_bytes one other ≡ true → one ≡ other
unfolding same_bytes
same_bytes-true [] [] h = refl
same_bytes-true [] (b ∷ other) h = ground arith
same_bytes-true (a ∷ one) [] h = ground arith
same_bytes-true (a ∷ one) (b ∷ other) h = ground (arith, same_bytes-true one other)

digit_is : (n : ℕ) → is_digit (48 + n % 10) ≡ true
digit_is n = ground arith

six_digits-is_number :
    (value : ℕ)
    → (is_number (six_digits value) ≡ true) × (eqb (length (six_digits value)) totp_digits ≡ true)
unfolding is_number six_digits all_digits
six_digits-is_number value = (
  ground (
    arith,
    digit_is (value / 100000),
    digit_is (value / 10000),
    digit_is (value / 1000),
    digit_is (value / 100),
    digit_is (value / 10),
    digit_is value,
  ),
  refl,
)

matches_at-true_iff :
    (hmac : Hmac) (secret : String) (key bytes : List ℕ) (time : ℕ)
    → hmac.key_of secret ≡ some key
    → (matches_at hmac secret bytes time ≡ true) ↔ (code_of hmac key (counter_at time) ≡ bytes)
unfolding matches_at totp_code
matches_at-true_iff hmac secret key bytes time known = rw known (
  λ h. same_bytes-true (code_of hmac key (counter_at time)) bytes h,
  λ e.
      subst (λ b. same_bytes (code_of hmac key (counter_at time)) b ≡ true) e
        (same_bytes_refl (code_of hmac key (counter_at time))),
)

-- 30 seconds earlier and later, the counter is one less and one more.
counter_shift :
    (time : ℕ)
    → (62135596800 + 30) * second ≤ time
    → (counter_at (time - totp_period) ≡ counter_at time - 1)
      × (counter_at (time + totp_period) ≡ counter_at time + 1)
counter_shift time late = (omega arith, omega arith)

code_of-is_number :
    (hmac : Hmac) (key : List ℕ) (counter : ℕ)
    → (is_number (code_of hmac key counter) ≡ true)
      × (eqb (length (code_of hmac key counter)) totp_digits ≡ true)
unfolding code_of
code_of-is_number hmac key counter =
    let digest = hmac.hmac_sha1 key (big_endian 8 counter) in
    six_digits-is_number (uint32_of (drop (last_byte digest % 16) digest) % 2 ^ 31 % 1000000)

-- The code is that of one of three counters.
abbrev pub FromWindow : Hmac → List ℕ → List ℕ → ℕ → Type 0
FromWindow hmac key bytes counter =
    (code_of hmac key (counter - 1) ≡ bytes)
    ⊎ (code_of hmac key counter ≡ bytes)
    ⊎ (code_of hmac key (counter + 1) ≡ bytes)

number_in_window :
    (hmac : Hmac) (key bytes : List ℕ) (counter : ℕ)
    → FromWindow hmac key bytes counter
    → (is_number bytes ≡ true) × (eqb (length bytes) totp_digits ≡ true)
number_in_window hmac key bytes counter (inl e) =
    subst (λ b. (is_number b ≡ true) × (eqb (length b) totp_digits ≡ true)) e
      (code_of-is_number hmac key (counter - 1))
number_in_window hmac key bytes counter (inr (inl e)) =
    subst (λ b. (is_number b ≡ true) × (eqb (length b) totp_digits ≡ true)) e
      (code_of-is_number hmac key counter)
number_in_window hmac key bytes counter (inr (inr e)) =
    subst (λ b. (is_number b ≡ true) × (eqb (length b) totp_digits ≡ true)) e
      (code_of-is_number hmac key (counter + 1))

first_true : (a b c : Bool) → (a || b || c) ≡ true → (a ≡ true) ⊎ (b ≡ true) ⊎ (c ≡ true)
first_true a b c h = ground arith

neighbour : (m n : ℕ) → m ≤ n + 1 → n ≤ m + 1 → (m ≡ n - 1) ⊎ (m ≡ n) ⊎ (m ≡ n + 1)
neighbour m n above below = ground arith

-- With a secret that decodes, and from half a minute after the start of 1970 on, ValidateTOTP
-- accepts a text exactly when its bytes, without spaces, are the code of the present half minute,
-- of the one before or of the one after.
pub validate_totp-true_iff :
    (hmac : Hmac) (secret text : String) (key : List ℕ) (time : ℕ)
    → hmac.key_of secret ≡ some key
    → (62135596800 + 30) * second ≤ time
    → (validate_totp hmac secret text time ≡ true)
      ↔ FromWindow hmac key (codes (without_char b' ' (trim_space text))) (counter_at time)
unfolding validate_totp
validate_totp-true_iff hmac secret text key time known late =
    let bytes = codes (without_char b' ' (trim_space text)) in
    let shift = counter_shift time late in
    let before = matches_at-true_iff hmac secret key bytes (time - totp_period) known in
    let here = matches_at-true_iff hmac secret key bytes time known in
    let after = matches_at-true_iff hmac secret key bytes (time + totp_period) known in
    let to_before = ap (code_of hmac key) shift.0 in
    let to_after = ap (code_of hmac key) shift.1 in
    let well_formed = number_in_window hmac key bytes (counter_at time) in
    (
      λ h.
          elim (first_true (matches_at hmac secret bytes (time - totp_period))
            (matches_at hmac secret bytes time) (matches_at hmac secret bytes (time + totp_period))
            (ground (arith, h))) [
              | inl m ↦ inl (sym to_before ∙ before.0 m)
              | inr (inl m) ↦ inr (inl (here.0 m))
              | inr (inr m) ↦ inr (inr (sym to_after ∙ after.0 m))
            ],
      λ w. elim w [
        | inl e ↦
            ground
              (arith, (well_formed (inl e)).0, (well_formed (inl e)).1, before.1 (to_before ∙ e))
        | inr (inl e) ↦
            ground (arith, (well_formed (inr (inl e))).0, (well_formed (inr (inl e))).1, here.1 e)
        | inr (inr e) ↦ ground (
          arith,
          (well_formed (inr (inr e))).0,
          (well_formed (inr (inr e))).1,
          after.1 (to_after ∙ e),
        )
      ],
    )

-- A code that was issued for a secret is accepted, typed with any spaces, at every time whose half
-- minute is that of its issue or a neighbour.
pub validate_totp-totp_code :
    (hmac : Hmac) (secret text : String) (issued time : ℕ)
    → totp_code hmac secret issued ≡ some (codes (without_char b' ' (trim_space text)))
    → (62135596800 + 30) * second ≤ time
    → counter_at issued ≤ counter_at time + 1
    → counter_at time ≤ counter_at issued + 1
    → validate_totp hmac secret text time ≡ true
unfolding totp_code
validate_totp-totp_code hmac secret text issued time made late not_after not_before =
    let bytes = codes (without_char b' ' (trim_space text)) in
    elim (Option-cases (hmac.key_of secret)) [
      | inl unknown ↦ ground (arith, made, unknown)
      | inr (key, known) ↦
          let code : code_of hmac key (counter_at issued) ≡ bytes = ground (arith, made, known) in
          (validate_totp-true_iff hmac secret text key time known late).1
            (elim (neighbour (counter_at issued) (counter_at time) not_after not_before) [
              | inl e ↦ inl (sym (ap (code_of hmac key) e) ∙ code)
              | inr (inl e) ↦ inr (inl (sym (ap (code_of hmac key) e) ∙ code))
              | inr (inr e) ↦ inr (inr (sym (ap (code_of hmac key) e) ∙ code))
            ])
    ]
