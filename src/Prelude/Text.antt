-- ===== src/Prelude/Text.antt =====
-- The functions of Go's `strings` that the program calls, over texts of Unicode characters.
pub mod Hex
use Prim.Native.Nat.{ℕ, suc, ◌/◌, ◌%◌}
use mathlib.Core.List.{List}
use mathlib.Core.Path.{◌≡◌, refl}
use Prim.Native.Char.{Char, code}
use Prim.Native.String.{String, [], ◌∷◌}
use mathlib.Core.Bool.{Bool, false, ◌&&◌, ◌||◌}
use praesidio.Prelude.Decimal.{digit}
use praesidio.Prelude.Tests.{leb, ◌==◌, if◌then◌else◌}

-- `unicode.IsSpace`
unfoldable pub is_space : Char → Bool
is_space ch =
    let c = code ch in
    (leb 9 c && leb c 13)
    || c == 32
    || c == 0x85
    || c == 0xa0
    || c == 0x1680
    || (leb 0x2000 c && leb c 0x200a)
    || c == 0x2028
    || c == 0x2029
    || c == 0x202f
    || c == 0x205f
    || c == 0x3000

unfoldable pub trim_left : String → String
unfolding is_space
trim_left [] = []
trim_left (c ∷ s) = let rest = trim_left s in if is_space c then rest else c ∷ s

-- A character in front of a trimmed end: it is kept unless it is a space before nothing.
keep : Char → String → String
unfolding is_space
keep c [] = if is_space c then [] else c ∷ []
keep c (d ∷ s) = c ∷ d ∷ s

unfoldable pub trim_right : String → String
unfolding keep
trim_right [] = []
trim_right (c ∷ s) = keep c (trim_right s)

-- `strings.TrimSpace`
unfoldable pub trim_space : String → String
unfolding trim_left trim_right
trim_space s = trim_right (trim_left s)

-- The text behind a prefix of two characters, as `strings.TrimPrefix(s, p)` gives it.
unfoldable pub has_prefix2 : ℕ → ℕ → String → Bool
has_prefix2 a b [] = false
has_prefix2 a b (c ∷ []) = false
has_prefix2 a b (c ∷ d ∷ s) = code c == a && code d == b

unfoldable pub drop2 : String → String
drop2 [] = []
drop2 (c ∷ []) = []
drop2 (c ∷ d ∷ s) = s

-- `strings.TrimPrefix(s, "0x")`
unfoldable pub trim_0x : String → String
unfolding has_prefix2 drop2
trim_0x s = if has_prefix2 b'0' b'x' s then drop2 s else s

-- The bytes of an ASCII text.
abbrev pub codes : String → List ℕ
codes [] = List.[]
codes (c ∷ s) = List.◌∷◌ (code c) (codes s)

-- The length of an ASCII text.
abbrev pub text_length : String → ℕ
text_length [] = 0
text_length (c ∷ s) = suc (text_length s)

-- `encoding/hex.EncodeToString`
unfoldable pub nibble : ℕ → Char
nibble d =
    if d == 10
    then "a"
    else if d == 11
    then "b"
    else if d == 12
    then "c"
    else if d == 13
    then "d"
    else if d == 14
    then "e"
    else if d == 15
    then "f"
    else digit d

unfoldable pub hex_encode : List ℕ → String
unfolding nibble digit
hex_encode List.[] = []
hex_encode (List.◌∷◌ b bs) = nibble (b / 16) ∷ nibble (b % 16) ∷ hex_encode bs

hex_bytes : hex_encode (List.◌∷◌ 0x0f (List.◌∷◌ 0xa0 List.[])) ≡ "0fa0"
unfolding hex_encode
hex_bytes = refl
