-- ===== src/Go/Text.antt =====
-- Go strings are sequences of bytes. `codes` gives those of a literal, which are all ASCII here.
use mftextractor.Base.{
  ℕ, ◌+◌, ◌-◌, ◌*◌, ◌/◌, ◌%◌, Bool, true, false, ◌&&◌, List, [], ◌∷◌, ◌++◌, ltb, leb, ◌==◌,
  if◌then◌else◌, ◌≡◌, refl, arith, Option, none, some,
}
use Prim.Native.Char.{code}
use Prim.Native.String.{String}

abbrev pub GoString : Type 0
GoString = List ℕ

abbrev pub empty_string : GoString
empty_string = []

abbrev pub codes : String → GoString
codes String.[] = []
codes (String.◌∷◌ c s) = code c ∷ codes s

-- a == b on strings
unfoldable pub str_eq : GoString → GoString → Bool
str_eq [] [] = true
str_eq [] (c ∷ t) = false
str_eq (b ∷ s) [] = false
str_eq (b ∷ s) (c ∷ t) = b == c && str_eq s t

-- strings.HasPrefix
unfoldable pub has_prefix : GoString → GoString → Bool
has_prefix s [] = true
has_prefix [] (c ∷ t) = false
has_prefix (b ∷ s) (c ∷ t) = b == c && has_prefix s t

-- The one-digit characters of encoding/hex and of the verb %x.
abbrev hex_digit : ℕ → ℕ
hex_digit d = if ltb d 10 then b'0' + d else b'a' + (d - 10)

-- hex.EncodeToString
unfoldable pub hex_string : List ℕ → GoString
hex_string [] = []
hex_string (b ∷ bs) = hex_digit (b / 16) ∷ hex_digit (b % 16) ∷ hex_string bs

-- The UTF-8 bytes of a code point, as in the conversion string([]rune).
unfoldable pub utf8 : ℕ → List ℕ
utf8 r =
    if ltb r 0x80
    then r ∷ []
    else if ltb r 0x800
    then (0xc0 + r / 0x40) ∷ (0x80 + r % 0x40) ∷ []
    else if ltb r 0x10000
    then (0xe0 + r / 0x1000) ∷ (0x80 + r / 0x40 % 0x40) ∷ (0x80 + r % 0x40) ∷ []
    else (0xf0 + r / 0x40000)
      ∷ (0x80 + r / 0x1000 % 0x40)
      ∷ (0x80 + r / 0x40 % 0x40)
      ∷ (0x80 + r % 0x40)
      ∷ []

abbrev within : ℕ → ℕ → ℕ → Bool
within lo hi u = leb lo u && ltb u hi

-- utf16.Decode followed by the conversion to a string; `high` is a high surrogate that waits for
-- its low half. A surrogate with no partner becomes U+FFFD.
utf16_from : Option ℕ → List ℕ → GoString
utf16_from none [] = []
utf16_from (some h) [] = utf8 0xfffd
utf16_from none (u ∷ us) =
    let plain = utf8 u ++ utf16_from none us in
    let lone = utf8 0xfffd ++ utf16_from none us in
    let wait = utf16_from (some u) us in
    if within 0xd800 0xdc00 u then wait else if within 0xdc00 0xe000 u then lone else plain
utf16_from (some h) (u ∷ us) =
    let pair = utf8 ((h - 0xd800) * 0x400 + (u - 0xdc00) + 0x10000) ++ utf16_from none us in
    let plain = utf8 0xfffd ++ (utf8 u ++ utf16_from none us) in
    let wait = utf8 0xfffd ++ utf16_from (some u) us in
    if within 0xdc00 0xe000 u then pair else if within 0xd800 0xdc00 u then wait else plain

unfoldable pub utf16_string : List ℕ → GoString
unfolding utf16_from utf8
utf16_string = utf16_from none

pub str_eq_refl : (s : GoString) → str_eq s s ≡ true
unfolding str_eq
str_eq_refl [] = refl
str_eq_refl (b ∷ s) = ground (arith, str_eq_refl s)

pub str_eq→eq : (s t : GoString) → str_eq s t ≡ true → s ≡ t
unfolding str_eq
str_eq→eq [] [] h = refl
str_eq→eq [] (c ∷ t) h = cc
str_eq→eq (b ∷ s) [] h = cc
str_eq→eq (b ∷ s) (c ∷ t) h = ground (arith, str_eq→eq s t)
