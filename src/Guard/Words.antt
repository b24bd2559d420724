-- ===== src/Guard/Words.antt =====
-- `uintWord` and `leftPadWord` of tee/go/internal/extension/guard_rpc.go.
pub mod Encoding
use praesidio.Prelude.{
  ℕ, zero, suc, ◌+◌, ◌-◌, ◌/◌, ◌%◌, ◌≡◌, refl, List, [], ◌∷◌, ◌++◌, Bytes, length, replicate, ltb,
  if◌then◌else◌,
}
use praesidio.Prelude.Decimal.{ℤ, pos, negsuc, abs}
use praesidio.Prelude.Outcome.{Result, ok, panic}

-- `big.Int.Bytes`: the bytes of the absolute value, the highest first and not zero. `n` rounds are
-- enough.
unfoldable pub big_bytes : ℕ → ℕ → Bytes
big_bytes zero n = []
big_bytes (suc fuel) zero = []
big_bytes (suc fuel) (suc n) = big_bytes fuel (suc n / 256) ++ suc n % 256 ∷ []

-- `out[32-len(b):]` with a negative bound is a run-time panic.
pad_word : Bytes → Result Bytes
pad_word b = if ltb 32 (length b) then panic else ok (replicate (32 - length b) 0 ++ b)

unfoldable pub left_pad_word : ℤ → Result Bytes
unfolding big_bytes pad_word
left_pad_word v = pad_word (big_bytes (abs v) (abs v))

unfoldable pub uint_word : ℕ → Result Bytes
unfolding left_pad_word
uint_word v = left_pad_word (pos v)

word_of_770 : uint_word 770 ≡ ok (replicate 30 0 ++ 3 ∷ 2 ∷ [])
unfolding uint_word
word_of_770 = refl

word_of_minus_1 : left_pad_word (negsuc 0) ≡ uint_word 1
unfolding uint_word
word_of_minus_1 = refl
