-- ===== src/Prelude/Text.antt =====
-- What the program uses of Go's package strings, on the native texts.
use Prim.Native.Nat.{ℕ, zero, suc, ◌+◌, ◌-◌}
use Prim.Native.Char.{Char, code, nul}
use Prim.Native.String.{String}
use mathlib.Core.Bool.{Bool, true, false, ◌&&◌, ◌||◌}
use mathlib.Core.Option.{Option, none, some}
use mathlib.Core.List.{List, [], ◌∷◌}
use text.Mathlib.Text.{◌==◌}
use portflow.Prelude.Tests.{ltb, leb, eqb, if◌then◌else◌}

-- unicode.IsSpace
unfoldable pub is_space : ℕ → Bool
is_space c =
    (leb 9 c && leb c 13)
    || eqb c 32
    || eqb c 0x85
    || eqb c 0xa0
    || eqb c 0x1680
    || (leb 0x2000 c && leb c 0x200a)
    || eqb c 0x2028
    || eqb c 0x2029
    || eqb c 0x202f
    || eqb c 0x205f
    || eqb c 0x3000

unfoldable pub trim_left : String → String
unfolding is_space
trim_left String.[] = String.[]
trim_left (String.◌∷◌ c s) = if is_space (code c) then trim_left s else String.◌∷◌ c s

unfoldable pub trim_right : String → String
unfolding is_space
trim_right String.[] = String.[]
trim_right (String.◌∷◌ c s) =
    let rest = trim_right s in
    if rest == "" && is_space (code c) then String.[] else String.◌∷◌ c rest

-- strings.TrimSpace
unfoldable pub trim_space : String → String
unfolding trim_left trim_right
trim_space s = trim_right (trim_left s)

-- Is a text among these?
unfoldable pub contains : String → List String → Bool
contains s [] = false
contains s (t ∷ ts) = t == s || contains s ts

-- len: the bytes of a text in UTF-8
unfoldable pub byte_length : String → ℕ
byte_length String.[] = 0
byte_length (String.◌∷◌ c s) =
    (if ltb (code c) 0x80
      then 1
      else if ltb (code c) 0x800
      then 2
      else if ltb (code c) 0x10000
      then 3
      else 4)
    + byte_length s

-- The letter at a place of an alphabet.
unfoldable pub letter_at : ℕ → String → Char
letter_at n String.[] = nul
letter_at zero (String.◌∷◌ c s) = c
letter_at (suc n) (String.◌∷◌ c s) = letter_at n s

-- strings.ToLower, as far as it yields letters of ASCII: A to Z, İ and the sign of the kelvin. A
-- letter whose lower case is outside ASCII stays as it is; the callers accept neither form.
unfoldable pub lower_char : Char → Char
unfolding letter_at
lower_char c =
    if leb 65 (code c) && leb (code c) 90
    then letter_at (code c - 65) "abcdefghijklmnopqrstuvwxyz"
    else if eqb (code c) 0x130
    then letter_at 0 "i"
    else if eqb (code c) 0x212a
    then letter_at 0 "k"
    else c

unfoldable pub lower : String → String
unfolding lower_char
lower String.[] = String.[]
lower (String.◌∷◌ c s) = String.◌∷◌ (lower_char c) (lower s)

-- strings.ToUpper in the same way: a to z, ı and ſ.
unfoldable pub upper_char : Char → Char
unfolding letter_at
upper_char c =
    if leb 97 (code c) && leb (code c) 122
    then letter_at (code c - 97) "ABCDEFGHIJKLMNOPQRSTUVWXYZ"
    else if eqb (code c) 0x131
    then letter_at 0 "I"
    else if eqb (code c) 0x17f
    then letter_at 0 "S"
    else c

unfoldable pub upper : String → String
unfolding upper_char
upper String.[] = String.[]
upper (String.◌∷◌ c s) = String.◌∷◌ (upper_char c) (upper s)

-- strings.ReplaceAll of one character by nothing
unfoldable pub without_char : ℕ → String → String
without_char n String.[] = String.[]
without_char n (String.◌∷◌ c s) =
    if eqb (code c) n then without_char n s else String.◌∷◌ c (without_char n s)

-- Do all characters pass?
unfoldable pub all_chars : (ℕ → Bool) → String → Bool
all_chars p String.[] = true
all_chars p (String.◌∷◌ c s) = p (code c) && all_chars p s

-- strings.HasPrefix and strings.TrimPrefix in one: the rest behind a prefix.
unfoldable pub after_prefix : String → String → Option String
after_prefix String.[] s = some s
after_prefix (String.◌∷◌ d p) String.[] = none
after_prefix (String.◌∷◌ d p) (String.◌∷◌ c s) =
    if eqb (code d) (code c) then after_prefix p s else none
