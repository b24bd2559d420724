-- ===== src/Prelude/Text/Hex.antt =====
-- `hex.DecodeString` of `encoding/hex`, and that it reads what `EncodeToString` writes.
use Prim.Native.Nat.{ℕ, zero, suc, ◌+◌, ◌-◌, ◌*◌, ◌<◌, ◌/◌, ◌%◌}
use Prim.Native.Char.{Char, code}
use Prim.Native.String.{String}
use mathlib.Core.Bool.{false, ◌&&◌}
use mathlib.Core.List.{[], ◌∷◌}
use mathlib.Core.Option.{Option, none, some}
use mathlib.Core.Path.{◌≡◌, refl, ap}
use native.Mathlib.Omega.{arith}
use praesidio.Prelude.Tests.{leb, ◌==◌, if◌then◌else◌}
use praesidio.Prelude.Lists.{Bytes, All}
use praesidio.Prelude.Decimal.{digit}
use praesidio.Prelude.Text.{nibble, hex_encode}

unfoldable pub nibble_value : Char → Option ℕ
nibble_value ch =
    let c = code ch in
    if leb b'0' c && leb c b'9'
    then some (c - b'0')
    else if leb b'a' c && leb c b'f'
    then some (c - b'a' + 10)
    else if leb b'A' c && leb c b'F'
    then some (c - b'A' + 10)
    else none

abbrev hex_byte : Option ℕ → Option ℕ → Option Bytes → Option Bytes
hex_byte (some a) (some b) (some bs) = some ((16 * a + b) ∷ bs)
hex_byte (some a) (some b) none = none
hex_byte (some a) none bs = none
hex_byte none b bs = none

unfoldable pub hex_decode : String → Option Bytes
unfolding nibble_value
hex_decode Prim.Native.String.[] = some []
hex_decode (Prim.Native.String.◌∷◌ c Prim.Native.String.[]) = none
hex_decode (Prim.Native.String.◌∷◌ c (Prim.Native.String.◌∷◌ d s)) =
    hex_byte (nibble_value c) (nibble_value d) (hex_decode s)

decode_example : hex_decode "0fA0" ≡ some (15 ∷ 160 ∷ [])
unfolding hex_decode
decode_example = refl

not-below_16 :
    (d : ℕ)
    → suc
        (suc (suc (suc (suc (suc (suc (suc (suc (suc (suc (suc (suc (suc (suc (suc d)))))))))))))))
      < 16
    → ⊥
not-below_16 d h = omega arith

pub nibble_value-nibble : (d : ℕ) → d < 16 → nibble_value (nibble d) ≡ some d
unfolding nibble_value nibble digit
nibble_value-nibble zero h = refl
nibble_value-nibble (suc zero) h = refl
nibble_value-nibble (suc (suc zero)) h = refl
nibble_value-nibble (suc (suc (suc zero))) h = refl
nibble_value-nibble (suc (suc (suc (suc zero)))) h = refl
nibble_value-nibble (suc (suc (suc (suc (suc zero))))) h = refl
nibble_value-nibble (suc (suc (suc (suc (suc (suc zero)))))) h = refl
nibble_value-nibble (suc (suc (suc (suc (suc (suc (suc zero))))))) h = refl
nibble_value-nibble (suc (suc (suc (suc (suc (suc (suc (suc zero)))))))) h = refl
nibble_value-nibble (suc (suc (suc (suc (suc (suc (suc (suc (suc zero))))))))) h = refl
nibble_value-nibble (suc (suc (suc (suc (suc (suc (suc (suc (suc (suc zero)))))))))) h = refl
nibble_value-nibble (suc (suc (suc (suc (suc (suc (suc (suc (suc (suc (suc zero))))))))))) h = refl
nibble_value-nibble (suc (suc (suc (suc (suc (suc (suc (suc (suc (suc (suc (suc zero)))))))))))) h =
    refl
nibble_value-nibble
      (suc (suc (suc (suc (suc (suc (suc (suc (suc (suc (suc (suc (suc zero))))))))))))) h =
    refl
nibble_value-nibble
      (suc (suc (suc (suc (suc (suc (suc (suc (suc (suc (suc (suc (suc (suc zero)))))))))))))) h =
    refl
nibble_value-nibble
      (suc (suc (suc (suc (suc (suc (suc (suc (suc (suc (suc (suc (suc (suc (suc zero)))))))))))))))
      h =
    refl
nibble_value-nibble
      (suc
        (suc (suc (suc (suc (suc (suc (suc (suc (suc (suc (suc (suc (suc (suc (suc d))))))))))))))))
      h =
    elim (not-below_16 d h) [ ]

-- No digit is an `x`.
pub nibble-hex : (d : ℕ) → d < 16 → (code (nibble d) == b'x') ≡ false
unfolding nibble digit
nibble-hex zero h = refl
nibble-hex (suc zero) h = refl
nibble-hex (suc (suc zero)) h = refl
nibble-hex (suc (suc (suc zero))) h = refl
nibble-hex (suc (suc (suc (suc zero)))) h = refl
nibble-hex (suc (suc (suc (suc (suc zero))))) h = refl
nibble-hex (suc (suc (suc (suc (suc (suc zero)))))) h = refl
nibble-hex (suc (suc (suc (suc (suc (suc (suc zero))))))) h = refl
nibble-hex (suc (suc (suc (suc (suc (suc (suc (suc zero)))))))) h = refl
nibble-hex (suc (suc (suc (suc (suc (suc (suc (suc (suc zero))))))))) h = refl
nibble-hex (suc (suc (suc (suc (suc (suc (suc (suc (suc (suc zero)))))))))) h = refl
nibble-hex (suc (suc (suc (suc (suc (suc (suc (suc (suc (suc (suc zero))))))))))) h = refl
nibble-hex (suc (suc (suc (suc (suc (suc (suc (suc (suc (suc (suc (suc zero)))))))))))) h = refl
nibble-hex (suc (suc (suc (suc (suc (suc (suc (suc (suc (suc (suc (suc (suc zero))))))))))))) h =
    refl
nibble-hex (suc (suc (suc (suc (suc (suc (suc (suc (suc (suc (suc (suc (suc (suc zero))))))))))))))
      h =
    refl
nibble-hex
      (suc (suc (suc (suc (suc (suc (suc (suc (suc (suc (suc (suc (suc (suc (suc zero)))))))))))))))
      h =
    refl
nibble-hex
      (suc
        (suc (suc (suc (suc (suc (suc (suc (suc (suc (suc (suc (suc (suc (suc (suc d))))))))))))))))
      h =
    elim (not-below_16 d h) [ ]

pub hex_decode-hex_encode :
    (bs : Bytes) → All (λ b. b < 256) bs → hex_decode (hex_encode bs) ≡ some bs
unfolding hex_decode hex_encode
hex_decode-hex_encode [] h = refl
hex_decode-hex_encode (b ∷ bs) (hb, h) = rw (nibble_value-nibble (b / 16) (omega arith)) (
    rw (nibble_value-nibble (b % 16) (omega arith))
      (rw (hex_decode-hex_encode bs h) (ap (λ x. some (x ∷ bs)) (omega arith))))
