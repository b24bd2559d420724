-- ===== src/Guard/Price.antt =====
pub mod ReadBack
-- `formatPrice` of tee/go/internal/extension/guard_rpc.go.
use praesidio.Prelude.{
  ℕ, zero, suc, ◌/◌, ◌%◌, ◌^◌, ◌≡◌, refl, Bool, false, ltb, ◌==◌, if◌then◌else◌, String,
}
use Prim.Native.String.{◌∷◌, ◌++◌}
use praesidio.Prelude.Text.{text_length}
use praesidio.Prelude.Decimal.{ℤ, pos, negsuc, decimal}

-- `for len(frac) < int(decimals) { frac = "0" + frac }`, in at most `decimals` rounds.
unfoldable pub pad_zeros : ℕ → ℕ → String → String
pad_zeros zero width frac = frac
pad_zeros (suc fuel) width frac =
    let rest = pad_zeros fuel width ("0" ∷ frac) in
    if ltb (text_length frac) width then rest else frac

-- `big.Int.Exp` with no modulus is 1 at an exponent of 0 or less.
unfoldable pub power_of_ten : ℤ → ℕ
power_of_ten (pos d) = 10 ^ d
power_of_ten (negsuc d) = 1

-- The width is compared as an `int`; a negative one is below every length.
unfoldable pub width_of : ℤ → ℕ
width_of (pos d) = d
width_of (negsuc d) = 0

abbrev is_zero : ℤ → Bool
is_zero (pos d) = d == 0
is_zero (negsuc d) = false

unfoldable pub format_price : ℕ → ℤ → String
format_price value decimals =
    let pow = power_of_ten decimals in
    let frac = pad_zeros (width_of decimals) (width_of decimals) (decimal (value % pow)) in
    if is_zero decimals then decimal value else decimal (value / pow) ++ "." ++ frac

price_1 : format_price 1010400 (pos 6) ≡ "1.010400"
unfolding format_price pad_zeros power_of_ten width_of decimal
price_1 = refl

price_2 : format_price 100 (pos 2) ≡ "1.00"
unfolding format_price pad_zeros power_of_ten width_of decimal
price_2 = refl

price_negative : format_price 5 (negsuc 1) ≡ "5.0"
unfolding format_price pad_zeros power_of_ten width_of decimal
price_negative = refl
