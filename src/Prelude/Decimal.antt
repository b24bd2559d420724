-- ===== src/Prelude/Decimal.antt =====
-- Decimal text: `big.Int.String`, `big.Int.SetString(s, 10)` and `strconv.ParseUint(s, 10, 64)`.
pub mod RoundTrip
use Prim.Native.Nat.{ℕ, zero, suc, ◌+◌, ◌-◌, ◌*◌, ◌/◌, ◌%◌}
use Prim.Native.Char.{Char, code}
use Prim.Native.String.{String, [], ◌∷◌}
use mathlib.Core.Bool.{Bool, ◌&&◌, ◌||◌}
use mathlib.Core.Option.{Option, none, some}
use mathlib.Core.Path.{◌≡◌, refl}
use praesidio.Prelude.Tests.{ltb, leb, ◌==◌, if◌then◌else◌, two_64, max_u64}

-- A `big.Int`; `negsuc n` is -(n + 1).
pub data ℤ : Type 0 where
  pos : ℕ → ℤ
  negsuc : ℕ → ℤ

abbrev pub abs : ℤ → ℕ
abs (pos n) = n
abs (negsuc n) = suc n

-- 0 - n
abbrev pub negate : ℕ → ℤ
negate zero = pos 0
negate (suc n) = negsuc n

unfoldable pub digit : ℕ → Char
digit zero = "0"
digit (suc zero) = "1"
digit (suc (suc zero)) = "2"
digit (suc (suc (suc zero))) = "3"
digit (suc (suc (suc (suc zero)))) = "4"
digit (suc (suc (suc (suc (suc zero))))) = "5"
digit (suc (suc (suc (suc (suc (suc zero)))))) = "6"
digit (suc (suc (suc (suc (suc (suc (suc zero))))))) = "7"
digit (suc (suc (suc (suc (suc (suc (suc (suc zero)))))))) = "8"
digit _ = "9"

-- The digits of `n` in front of `out`, the last one first; `n` rounds are enough.
unfoldable pub digits : ℕ → ℕ → String → String
digits zero n out = out
digits (suc fuel) zero out = out
digits (suc fuel) (suc n) out = digits fuel (suc n / 10) (digit (suc n % 10) ∷ out)

unfoldable pub decimal : ℕ → String
unfolding digits digit
decimal zero = "0"
decimal (suc n) = digits (suc n) (suc n) ""

abbrev pub is_digit : Char → Bool
is_digit c = leb b'0' (code c) && leb (code c) b'9'

pub data NumError : Type 0 where
  bad_syntax out_of_range : NumError

-- The loop of `ParseUint`: `cutoff` is the smallest number whose product with ten overflows.
abbrev pub cutoff : ℕ
cutoff = max_u64 / 10 + 1

unfoldable pub scan_uint : String → ℕ → ℕ × Option NumError
scan_uint [] n = (n, none)
scan_uint (c ∷ s) n =
    let n10 = n * 10 % two_64 in
    let n1 = (n10 + (code c - b'0')) % two_64 in
    let rest = scan_uint s n1 in
    if is_digit c
    then (if leb cutoff n || ltb n1 n10 then (max_u64, some out_of_range) else rest)
    else (0, some bad_syntax)

unfoldable pub parse_uint : String → ℕ × Option NumError
unfolding scan_uint
parse_uint [] = (0, some bad_syntax)
parse_uint (c ∷ s) = scan_uint (c ∷ s) 0

unfoldable pub scan_nat : String → ℕ → Option ℕ
scan_nat [] n = some n
scan_nat (c ∷ s) n = if is_digit c then scan_nat s (n * 10 + (code c - b'0')) else none

unfoldable pub unsigned : String → Option ℕ
unfolding scan_nat
unsigned [] = none
unsigned (c ∷ s) = scan_nat (c ∷ s) 0

map_sign : (ℕ → ℤ) → Option ℕ → Option ℤ
map_sign f none = none
map_sign f (some n) = some (f n)

-- `SetString` reads one sign, then digits up to the end of the text.
unfoldable pub set_string : String → Option ℤ
unfolding unsigned map_sign
set_string [] = none
set_string (c ∷ s) =
    if code c == b'-'
    then map_sign negate (unsigned s)
    else if code c == b'+'
    then map_sign pos (unsigned s)
    else map_sign pos (unsigned (c ∷ s))

decimal_max : decimal two_64 ≡ "18446744073709551616"
unfolding decimal
decimal_max = refl

parse_uint_max : parse_uint "18446744073709551615" ≡ (max_u64, none)
unfolding parse_uint
parse_uint_max = refl

parse_uint_over : parse_uint "18446744073709551616" ≡ (max_u64, some out_of_range)
unfolding parse_uint
parse_uint_over = refl

set_string_neg : set_string "-12" ≡ some (negsuc 11)
unfolding set_string
set_string_neg = refl
