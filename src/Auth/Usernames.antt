-- ===== src/Auth/Usernames.antt =====
-- What NormalizeUsername of internal/auth/auth.go gives.
use Prim.Native.Char.{code}
use portflow.Prelude.{
  ℕ, ◌≤◌, ◌≡◌, refl, sym, ap, subst, ◌∙◌, String, true, false, arith, ok, is_space, trim_left,
  trim_right, trim_space, lower_char, lower, all_chars, byte_length,
}
use portflow.Auth.{is_username_character, check_username, normalize_username}

not_space : (c : ℕ) → is_username_character c ≡ true → is_space c ≡ false
unfolding is_space
not_space c h = ground arith

trim_left-name : (s : String) → all_chars is_username_character s ≡ true → trim_left s ≡ s
unfolding trim_left all_chars
trim_left-name String.[] h = refl
trim_left-name (String.◌∷◌ c s) h =
    let solid : is_space (code c) ≡ false = not_space (code c) (ground (arith, h)) in rw solid

trim_right-name : (s : String) → all_chars is_username_character s ≡ true → trim_right s ≡ s
unfolding trim_right all_chars
trim_right-name String.[] h = refl
trim_right-name (String.◌∷◌ c s) h =
    let solid : is_space (code c) ≡ false = not_space (code c) (ground (arith, h)) in
    ground (arith, solid, trim_right-name s)

lower-name : (s : String) → all_chars is_username_character s ≡ true → lower s ≡ s
unfolding lower lower_char all_chars
lower-name String.[] h = refl
lower-name (String.◌∷◌ c s) h = ground (arith, lower-name s)

normal_name :
    (name : String) → all_chars is_username_character name ≡ true → lower (trim_space name) ≡ name
unfolding trim_space
normal_name name h =
    ap (λ s. lower (trim_right s)) (trim_left-name name h)
    ∙ ap lower (trim_right-name name h)
    ∙ lower-name name h

check_username-ok :
    (found name : String)
    → check_username found ≡ ok name
    → (all_chars is_username_character name ≡ true)
      × (3 ≤ byte_length name)
      × (byte_length name ≤ 32)
      × (check_username name ≡ ok name)
unfolding check_username
check_username-ok found name h =
    let same : found ≡ name = ground (arith, h) in
    subst
      (λ n.
        (all_chars is_username_character n ≡ true)
        × (3 ≤ byte_length n)
        × (byte_length n ≤ 32)
        × (check_username n ≡ ok n))
      same (ground (arith, h), ground (arith, h), ground (arith, h), h ∙ ap ok (sym same))

-- A name that NormalizeUsername gives has 3 to 32 bytes, all of them lower-case letters, digits,
-- underscores and hyphens, and normalising it again changes nothing.
normalize_username-ok :
    (username name : String)
    → normalize_username username ≡ ok name
    → (all_chars is_username_character name ≡ true)
      × (3 ≤ byte_length name)
      × (byte_length name ≤ 32)
      × (normalize_username name ≡ ok name)
unfolding normalize_username
normalize_username-ok username name h =
    let checked = check_username-ok (lower (trim_space username)) name h in
    (checked.0, checked.1, checked.2, ap check_username (normal_name name checked.0) ∙ checked.3)
