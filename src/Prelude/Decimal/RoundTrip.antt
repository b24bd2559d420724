-- ===== src/Prelude/Decimal/RoundTrip.antt =====
-- What the two readers make of a printed number.
use Prim.Native.Nat.{ℕ, zero, suc, ◌+◌, ◌/◌, ◌%◌, ◌<◌, ◌≤◌}
use Prim.Native.Char.{code}
use Prim.Native.String.{String, [], ◌∷◌}
use mathlib.Core.Logic.{◌≢◌}
use mathlib.Core.Option.{Option, none, some}
use mathlib.Core.Path.{◌≡◌, refl, ◌∙◌, ap}
use native.Mathlib.Omega.{arith}
use text.Mathlib.TextLemmas.{cons-ne-nil}
use praesidio.Prelude.Tests.{leb, if◌then◌else◌, max_u64}
use praesidio.Prelude.Decimal.{
  pos, digit, digits, decimal, NumError, out_of_range, scan_uint, parse_uint, scan_nat, map_sign,
  set_string,
}

pub code-digit : (d : ℕ) → d < 10 → code (digit d) ≡ b'0' + d
unfolding digit
code-digit zero h = refl
code-digit (suc zero) h = refl
code-digit (suc (suc zero)) h = refl
code-digit (suc (suc (suc zero))) h = refl
code-digit (suc (suc (suc (suc zero)))) h = refl
code-digit (suc (suc (suc (suc (suc zero))))) h = refl
code-digit (suc (suc (suc (suc (suc (suc zero)))))) h = refl
code-digit (suc (suc (suc (suc (suc (suc (suc zero))))))) h = refl
code-digit (suc (suc (suc (suc (suc (suc (suc (suc zero)))))))) h = refl
code-digit (suc (suc (suc (suc (suc (suc (suc (suc (suc zero))))))))) h = refl
code-digit (suc (suc (suc (suc (suc (suc (suc (suc (suc (suc d)))))))))) h = absurd (omega arith)

-- The scan of `out` after the digits of `n`, and the answer once `n` is too large.
abbrev saturate : String → ℕ → ℕ × Option NumError
saturate out n = if leb n max_u64 then scan_uint out n else (max_u64, some out_of_range)

saturate_last : (n : ℕ) (out : String) → saturate (digit (n % 10) ∷ out) (n / 10) ≡ saturate out n
unfolding scan_uint
saturate_last n out = ground (arith, code-digit (n % 10))

scan_uint-digits :
    (fuel n : ℕ) (out : String) → n ≤ fuel → scan_uint (digits fuel n out) 0 ≡ saturate out n
unfolding digits
scan_uint-digits zero zero out h = refl
scan_uint-digits zero (suc n) out h = absurd (omega arith)
scan_uint-digits (suc fuel) zero out h = refl
scan_uint-digits (suc fuel) (suc n) out h =
    scan_uint-digits fuel (suc n / 10) (digit (suc n % 10) ∷ out) (omega arith)
    ∙ saturate_last (suc n) out

digits-ne-nil : (fuel n : ℕ) (out : String) → out ≢ [] → digits fuel n out ≢ []
unfolding digits
digits-ne-nil zero n out h = h
digits-ne-nil (suc fuel) zero out h = h
digits-ne-nil (suc fuel) (suc n) out h =
    digits-ne-nil fuel (suc n / 10) (digit (suc n % 10) ∷ out) (cons-ne-nil _ _)

pub decimal-ne-nil : (n : ℕ) → decimal n ≢ []
unfolding decimal
decimal-ne-nil zero = cons-ne-nil _ _
decimal-ne-nil (suc n) = digits-ne-nil n (suc n / 10) (digit (suc n % 10) ∷ []) (cons-ne-nil _ _)

parse_uint_cons : (s : String) → s ≢ [] → parse_uint s ≡ scan_uint s 0
unfolding parse_uint
parse_uint_cons [] h = absurd (h refl)
parse_uint_cons (c ∷ s) h = refl

scan_uint-decimal :
    (n : ℕ)
    → scan_uint (decimal n) 0 ≡ (if leb n max_u64 then (n, none) else (max_u64, some out_of_range))
unfolding decimal scan_uint
scan_uint-decimal zero = refl
scan_uint-decimal (suc n) = scan_uint-digits (suc n) (suc n) [] (omega arith)

-- A printed number reads back as itself, or as the largest `uint64` and a range error.
pub parse_uint-decimal :
    (n : ℕ)
    → parse_uint (decimal n) ≡ (if leb n max_u64 then (n, none) else (max_u64, some out_of_range))
parse_uint-decimal n = parse_uint_cons (decimal n) (decimal-ne-nil n) ∙ scan_uint-decimal n

scan_nat_last : (n : ℕ) (out : String) → scan_nat (digit (n % 10) ∷ out) (n / 10) ≡ scan_nat out n
unfolding scan_nat
scan_nat_last n out = ground (arith, code-digit (n % 10))

scan_nat-digits :
    (fuel n : ℕ) (out : String) → n ≤ fuel → scan_nat (digits fuel n out) 0 ≡ scan_nat out n
unfolding digits
scan_nat-digits zero zero out h = refl
scan_nat-digits zero (suc n) out h = absurd (omega arith)
scan_nat-digits (suc fuel) zero out h = refl
scan_nat-digits (suc fuel) (suc n) out h =
    scan_nat-digits fuel (suc n / 10) (digit (suc n % 10) ∷ out) (omega arith)
    ∙ scan_nat_last (suc n) out

scan_nat-decimal : (n : ℕ) → scan_nat (decimal n) 0 ≡ some n
unfolding decimal scan_nat
scan_nat-decimal zero = refl
scan_nat-decimal (suc n) = scan_nat-digits (suc n) (suc n) [] (omega arith)

-- The first character is a digit.
abbrev Leads : String → Type 0
Leads [] = ⊥
Leads (c ∷ s) = (b'0' ≤ code c) × (code c ≤ b'9')

digits-Leads : (fuel n : ℕ) (out : String) → Leads out → Leads (digits fuel n out)
unfolding digits
digits-Leads zero n out h = h
digits-Leads (suc fuel) zero out h = h
digits-Leads (suc fuel) (suc n) out h =
    digits-Leads fuel (suc n / 10) (digit (suc n % 10) ∷ out)
      (omega (arith, code-digit (suc n % 10) (omega arith)))

decimal-Leads : (n : ℕ) → Leads (decimal n)
unfolding decimal
decimal-Leads zero = omega arith
decimal-Leads (suc n) =
    digits-Leads n (suc n / 10) (digit (suc n % 10) ∷ [])
      (omega (arith, code-digit (suc n % 10) (omega arith)))

set_string-Leads : (s : String) → Leads s → set_string s ≡ map_sign pos (scan_nat s 0)
unfolding set_string
set_string-Leads [] h = absurd h
set_string-Leads (c ∷ s) h = ground arith

-- A printed number is read back by `SetString`, whatever its size.
pub set_string-decimal : (n : ℕ) → set_string (decimal n) ≡ some (pos n)
unfolding map_sign
set_string-decimal n =
    set_string-Leads (decimal n) (decimal-Leads n) ∙ ap (map_sign pos) (scan_nat-decimal n)
