-- ===== src/Tools/Command/NewExtension/Printing.antt =====
-- The printed identifier has the form that verify-deploy asks for, and reads back.
use Prim.Native.Nat.{ℕ, zero, suc, ◌+◌, ◌-◌, ◌*◌, ◌/◌, ◌%◌, ◌<◌, ◌≤◌}
use Prim.Native.Char.{Char, code}
use Prim.Native.String.{String, ◌∷◌}
use mathlib.Core.Bool.{true}
use mathlib.Core.Option.{some}
use mathlib.Core.Path.{◌≡◌, refl, ap, ◌∙◌}
use native.Mathlib.Omega.{arith}
use praesidio.Prelude.{◌^◌}
use praesidio.Prelude.Text.{nibble, text_length, has_prefix2, drop2}
use praesidio.Prelude.Text.Hex.{nibble_value, nibble_value-nibble}
use praesidio.Validate.EnvFile.{
  is_hex_digit, all_hex, is_hex_text, is_extension_id, hex_value, hex_digit_value,
}
use praesidio.Tools.Command.NewExtension.{hex_digits, hex_zeros, padded_hex, extension_id_text}

-- What the one reader of digits takes, the other does too.
is_hex_digit-nibble_value :
    (c : Char) (d : ℕ) → nibble_value c ≡ some d → is_hex_digit (code c) ≡ true
unfolding nibble_value is_hex_digit
is_hex_digit-nibble_value c d h = ground arith

hex_digit_value-nibble_value :
    (c : Char) (d : ℕ) → nibble_value c ≡ some d → hex_digit_value (code c) ≡ d
unfolding nibble_value hex_digit_value
hex_digit_value-nibble_value c d h = ground arith

below_16 : (n : ℕ) → n % 16 < 16
below_16 n = omega arith

is_hex_digit-nibble : (n : ℕ) → is_hex_digit (code (nibble (n % 16))) ≡ true
is_hex_digit-nibble n =
    is_hex_digit-nibble_value (nibble (n % 16)) (n % 16) (nibble_value-nibble (n % 16) (below_16 n))

hex_digit_value-nibble : (n : ℕ) → hex_digit_value (code (nibble (n % 16))) ≡ n % 16
hex_digit_value-nibble n =
    hex_digit_value-nibble_value (nibble (n % 16)) (n % 16)
      (nibble_value-nibble (n % 16) (below_16 n))

all_hex-hex_digits :
    (fuel n : ℕ) (out : String) → all_hex out ≡ true → all_hex (hex_digits fuel n out) ≡ true
unfolding hex_digits all_hex
all_hex-hex_digits zero n out h = h
all_hex-hex_digits (suc fuel) zero out h = h
all_hex-hex_digits (suc fuel) (suc n) out h =
    all_hex-hex_digits fuel (suc n / 16) (nibble (suc n % 16) ∷ out)
      (rw (is_hex_digit-nibble (suc n)) h)

all_hex-hex_zeros : (k : ℕ) (s : String) → all_hex s ≡ true → all_hex (hex_zeros k s) ≡ true
unfolding hex_zeros all_hex is_hex_digit
all_hex-hex_zeros zero s h = h
all_hex-hex_zeros (suc k) s h = all_hex-hex_zeros k s h

hex_value-hex_digits :
    (fuel n : ℕ) (out : String) → n ≤ fuel → hex_value 0 (hex_digits fuel n out) ≡ hex_value n out
unfolding hex_digits hex_value
hex_value-hex_digits zero zero out h = refl
hex_value-hex_digits zero (suc n) out h = absurd (omega arith)
hex_value-hex_digits (suc fuel) zero out h = refl
hex_value-hex_digits (suc fuel) (suc n) out h =
    hex_value-hex_digits fuel (suc n / 16) (nibble (suc n % 16) ∷ out) (omega arith)
    ∙ ap (λ v. hex_value v out) (omega (arith, hex_digit_value-nibble (suc n)))

hex_value-hex_zeros : (k : ℕ) (s : String) → hex_value 0 (hex_zeros k s) ≡ hex_value 0 s
unfolding hex_zeros hex_value hex_digit_value
hex_value-hex_zeros zero s = refl
hex_value-hex_zeros (suc k) s = hex_value-hex_zeros k s

-- 16 ^ k
abbrev pow16 : ℕ → ℕ
pow16 zero = 1
pow16 (suc k) = 16 * pow16 k

length-hex_digits :
    (k fuel n : ℕ) (out : String)
    → n < pow16 k
    → text_length (hex_digits fuel n out) ≤ k + text_length out
unfolding hex_digits
length-hex_digits k zero n out h = omega arith
length-hex_digits k (suc fuel) zero out h = omega arith
length-hex_digits zero (suc fuel) (suc n) out h = absurd (omega (arith, h))
length-hex_digits (suc k) (suc fuel) (suc n) out h =
    omega
      (arith, length-hex_digits k fuel (suc n / 16) (nibble (suc n % 16) ∷ out) (omega (arith, h)))

length-hex_zeros : (k : ℕ) (s : String) → text_length (hex_zeros k s) ≡ k + text_length s
unfolding hex_zeros
length-hex_zeros zero s = omega arith
length-hex_zeros (suc k) s = omega (arith, length-hex_zeros k s)

length-padded_hex : (n : ℕ) → n < 2 ^ 256 → text_length (padded_hex n) ≡ 64
unfolding padded_hex
length-padded_hex n h =
    let digits = hex_digits n n "" in
    omega (arith, length-hex_zeros (64 - text_length digits) digits, length-hex_digits 64 n n "" h)

all_hex-padded_hex : (n : ℕ) → all_hex (padded_hex n) ≡ true
unfolding padded_hex all_hex
all_hex-padded_hex n = all_hex-hex_zeros _ _ (all_hex-hex_digits n n "" refl)

pub is_extension_id-text : (n : ℕ) → n < 2 ^ 256 → is_extension_id (extension_id_text n) ≡ true
unfolding is_extension_id is_hex_text has_prefix2 drop2
is_extension_id-text n h = rw (all_hex-padded_hex n, length-padded_hex n h) refl

padded-hex_value : (n : ℕ) → hex_value 0 (padded_hex n) ≡ n
unfolding padded_hex hex_value
padded-hex_value n =
    let digits = hex_digits n n "" in
    hex_value-hex_zeros (64 - text_length digits) digits ∙ hex_value-hex_digits n n "" (omega arith)

pub hex_value-text : (n : ℕ) → hex_value 0 (drop2 (extension_id_text n)) ≡ n
unfolding drop2
hex_value-text n = padded-hex_value n
