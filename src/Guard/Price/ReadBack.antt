-- ===== src/Guard/Price/ReadBack.antt =====
-- A printed price, read back.
use Prim.Native.Char.{code}
use Prim.Native.String.{String, [], ◌∷◌, ◌++◌}
use text.Mathlib.TextLemmas.{nil-append, cons-append, append-nil}
use native.Mathlib.Nat.{pow-suc, mod-lt, div-add-mod'}
use praesidio.Prelude.{
  ℕ, zero, suc, ◌+◌, ◌-◌, ◌*◌, ◌/◌, ◌%◌, ◌^◌, ◌<◌, ◌≤◌, ◌≡◌, refl, ap, ap₂, ◌∙◌, sym, false, Option,
  none, some, arith, ltb, ltb→lt, ◌==◌, if◌then◌else◌, Bool-cases, inl, inr,
}
use praesidio.Prelude.Text.{text_length}
use praesidio.Prelude.Decimal.{pos, digit, digits, decimal, is_digit}
use praesidio.Prelude.Decimal.RoundTrip.{code-digit}
use praesidio.Guard.Price.{pad_zeros, power_of_ten, width_of, format_price}

-- A reader of decimal texts with an optional fraction: the number that all digits spell, and how many
-- of them stand behind the point.
unfoldable pub read_fraction : String → ℕ → ℕ → Option (ℕ × ℕ)
read_fraction [] n k = some (n, k)
read_fraction (c ∷ s) n k =
    if is_digit c then read_fraction s (n * 10 + (code c - b'0')) (k + 1) else none

unfoldable pub read_number : String → ℕ → Option (ℕ × ℕ)
unfolding read_fraction
read_number [] n = some (n, 0)
read_number (c ∷ s) n =
    let fraction = read_fraction s n 0 in
    let rest = read_number s (n * 10 + (code c - b'0')) in
    if code c == b'.' then fraction else if is_digit c then rest else none

read_number-digit :
    (n d : ℕ) (out : String) → d < 10 → read_number (digit d ∷ out) n ≡ read_number out (n * 10 + d)
unfolding read_number
read_number-digit n d out h = ground (arith, code-digit d h)

-- The digits of `n` before any text.
digits-append : (fuel n : ℕ) (s t : String) → digits fuel n s ++ t ≡ digits fuel n (s ++ t)
unfolding digits
digits-append zero n s t = refl
digits-append (suc fuel) zero s t = refl
digits-append (suc fuel) (suc n) s t =
    digits-append fuel (suc n / 10) (digit (suc n % 10) ∷ s) t
    ∙ ap (digits fuel (suc n / 10)) (cons-append (digit (suc n % 10)) s t)

read_number-digits :
    (fuel n : ℕ) (out : String) → n ≤ fuel → read_number (digits fuel n out) 0 ≡ read_number out n
unfolding digits
read_number-digits zero zero out h = refl
read_number-digits zero (suc n) out h = absurd (omega arith)
read_number-digits (suc fuel) zero out h = refl
read_number-digits (suc fuel) (suc n) out h =
    let whole : suc n / 10 * 10 + suc n % 10 ≡ suc n = omega arith in
    read_number-digits fuel (suc n / 10) (digit (suc n % 10) ∷ out) (omega arith)
    ∙ read_number-digit (suc n / 10) (suc n % 10) out (omega arith)
    ∙ ap (read_number out) whole

read_number-decimal : (n : ℕ) (t : String) → read_number (decimal n ++ t) 0 ≡ read_number t n
unfolding decimal
read_number-decimal zero t =
    ap (λ s. read_number s 0) (cons-append "0" [] t ∙ ap (λ s. "0" ∷ s) (nil-append t))
    ∙ read_number-digit 0 0 t (omega arith)
read_number-decimal (suc n) t =
    ap (λ s. read_number s 0)
      (digits-append (suc n) (suc n) [] t ∙ ap (digits (suc n) (suc n)) (nil-append t))
    ∙ read_number-digits (suc n) (suc n) t (omega arith)

-- The `d` lowest digits of `r` in front of `out`.
fixed : ℕ → ℕ → String → String
fixed zero r out = out
fixed (suc d) r out = fixed d (r / 10) (digit (r % 10) ∷ out)

read_fraction-digit :
    (n k d : ℕ) (out : String)
    → d < 10
    → read_fraction (digit d ∷ out) n k ≡ read_fraction out (n * 10 + d) (k + 1)
unfolding read_fraction
read_fraction-digit n k d out h = ground (arith, code-digit d h)

read_fraction-fixed :
    (d r n k : ℕ) (out : String)
    → r < 10 ^ d
    → read_fraction (fixed d r out) n k ≡ read_fraction out (n * 10 ^ d + r) (k + d)
unfolding fixed
read_fraction-fixed zero r n k out h =
    let e : n ≡ n * 10 ^ 0 + r = omega arith in
    let f : k ≡ k + 0 = omega arith in ap₂ (read_fraction out) e f
read_fraction-fixed (suc d) r n k out h =
    let p : 10 ^ suc d ≡ 10 ^ d * 10 = pow-suc 10 d in
    let e : (n * 10 ^ d + r / 10) * 10 + r % 10 ≡ n * 10 ^ suc d + r =
      omega (arith, ap (λ (t : ℕ). n * t) p) in
    let f : k + d + 1 ≡ k + suc d = omega arith in
    read_fraction-fixed d (r / 10) n k (digit (r % 10) ∷ out) (omega (arith, p))
    ∙ read_fraction-digit (n * 10 ^ d + r / 10) (k + d) (r % 10) out (omega arith)
    ∙ ap₂ (read_fraction out) e f

zeros : ℕ → String → String
zeros zero s = s
zeros (suc k) s = "0" ∷ zeros k s

zeros_in_front : (k : ℕ) (s : String) → zeros k ("0" ∷ s) ≡ zeros (suc k) s
unfolding zeros
zeros_in_front zero s = refl
zeros_in_front (suc k) s = ap (λ t. "0" ∷ t) (zeros_in_front k s)

pad_zeros-zeros :
    (fuel width : ℕ) (s : String)
    → width - text_length s ≤ fuel
    → pad_zeros fuel width s ≡ zeros (width - text_length s) s
unfolding pad_zeros
pad_zeros-zeros zero width s h =
    let e : width - text_length s ≡ 0 = omega arith in rw e (unfold zeros in refl)
pad_zeros-zeros (suc fuel) width s h = elim (Bool-cases (ltb (text_length s) width)) [
  | inl short ↦
      let lt : text_length s < width = ltb→lt _ _ short in
      let e : width - text_length s ≡ suc (width - suc (text_length s)) = omega arith in
      rw (short, e) (pad_zeros-zeros fuel width ("0" ∷ s) (omega arith) ∙ zeros_in_front _ s)
  | inr long ↦
      let le : width ≤ text_length s = ground arith in
      let e : width - text_length s ≡ 0 = omega arith in rw (long, e) (unfold zeros in refl)
]

zeros-fixed : (d : ℕ) (out : String) → zeros d out ≡ fixed d 0 out
unfolding fixed digit
zeros-fixed zero out = unfold zeros in refl
zeros-fixed (suc d) out = sym (zeros_in_front d out) ∙ zeros-fixed d ("0" ∷ out)

zeros-digits :
    (d fuel r : ℕ) (out : String)
    → r ≤ fuel
    → r < 10 ^ d
    → zeros (d + text_length out - text_length (digits fuel r out)) (digits fuel r out)
      ≡ fixed d r out
unfolding digits fixed
zeros-digits d zero zero out h p =
    let e : d + text_length out - text_length out ≡ d = omega arith in rw e (zeros-fixed d out)
zeros-digits d (suc fuel) zero out h p =
    let e : d + text_length out - text_length out ≡ d = omega arith in rw e (zeros-fixed d out)
zeros-digits d zero (suc r) out h p = absurd (omega arith)
zeros-digits zero (suc fuel) (suc r) out h p = absurd (omega arith)
zeros-digits (suc d) (suc fuel) (suc r) out h p =
    let e : suc d + text_length out ≡ d + suc (text_length out) = omega arith in
    rw e (
      zeros-digits d fuel (suc r / 10) (digit (suc r % 10) ∷ out) (omega arith)
        (omega (arith, pow-suc 10 d)))

pow-pos : (d : ℕ) → 0 < 10 ^ d
pow-pos zero = omega arith
pow-pos (suc d) = omega (arith, pow-pos d, pow-suc 10 d)

pad_zeros-decimal : (d r : ℕ) → 0 < d → r < 10 ^ d → pad_zeros d d (decimal r) ≡ fixed d r []
unfolding decimal
pad_zeros-decimal d zero h p =
    let e : d ≡ suc (d - 1) = omega arith in
    pad_zeros-zeros d d "0" (omega arith) ∙ zeros_in_front (d - 1) [] ∙ rw (← e) (zeros-fixed d [])
pad_zeros-decimal d (suc r) h p =
    let e : d + 0 ≡ d = omega arith in
    pad_zeros-zeros d d (digits (suc r) (suc r) []) (omega arith)
    ∙ (rw e at (zeros-digits d (suc r) (suc r) [] (omega arith) p))

read_number_point : (n : ℕ) (s : String) → read_number ("." ++ s) n ≡ read_fraction s n 0
unfolding read_number
read_number_point n s =
    ap (λ t. read_number t n) (cons-append "." [] s ∙ ap (λ t. "." ∷ t) (nil-append s))

suc-ne-zero : (d : ℕ) → (suc d == 0) ≡ false
suc-ne-zero d = ground arith

-- Reading a printed price back gives the raw feed value and its number of decimals, whenever that
-- number is not negative.
pub price_read_back : (value d : ℕ) → read_number (format_price value (pos d)) 0 ≡ some (value, d)
unfolding format_price power_of_ten width_of
price_read_back value zero =
    ap (λ s. read_number s 0) (sym (append-nil (decimal value)))
    ∙ read_number-decimal value []
    ∙ (unfold read_number in refl)
price_read_back value (suc d) = rw (suc-ne-zero d) (
    read_number-decimal (value / p) ("." ++ frac)
    ∙ read_number_point (value / p) frac
    ∙ ap (λ s. read_fraction s (value / p) 0)
        (pad_zeros-decimal (suc d) (value % p) (omega arith) small)
    ∙ read_fraction-fixed (suc d) (value % p) (value / p) 0 [] small
    ∙ (unfold read_fraction in (λ i. some (whole i, count i))))
  where
    p : ℕ
    p = 10 ^ suc d

    frac : String
    frac = pad_zeros (suc d) (suc d) (decimal (value % p))

    small : value % p < p
    small = mod-lt value (pow-pos (suc d))

    whole : value / p * p + value % p ≡ value
    whole = div-add-mod' value p

    count : 0 + suc d ≡ suc d
    count = omega arith
