-- ===== src/Guard/Words/Encoding.antt =====
-- A padded word against the fixed-width big-endian encoding that Solidity's `abi.encode` uses.
use praesidio.Prelude.{
  ℕ, zero, suc, ◌+◌, ◌-◌, ◌*◌, ◌/◌, ◌%◌, ◌<◌, ◌≤◌, ◌≡◌, refl, ap, ◌∙◌, sym, [], ◌∷◌, ◌++◌,
  append_assoc, append-nil, arith, Bytes, length, length-append, replicate, ltb, ltb→lt, lt→ltb,
  if◌then◌else◌, Bool-cases, inl, inr, true, false,
}
use praesidio.Prelude.Decimal.{ℤ, pos, abs}
use praesidio.Prelude.Outcome.{ok, panic}
use praesidio.Guard.Words.{big_bytes, left_pad_word, uint_word}

-- 256 ^ k
abbrev pub pow256 : ℕ → ℕ
pow256 zero = 1
pow256 (suc k) = 256 * pow256 k

-- The `k` lowest bytes of `n`, the highest first.
unfoldable pub be_bytes : ℕ → ℕ → Bytes
be_bytes zero n = []
be_bytes (suc k) n = be_bytes k (n / 256) ++ n % 256 ∷ []

-- The number that bytes spell behind `n`.
unfoldable pub be_value : Bytes → ℕ → ℕ
be_value [] n = n
be_value (b ∷ bs) n = be_value bs (n * 256 + b)

pub length-be_bytes : (k n : ℕ) → length (be_bytes k n) ≡ k
unfolding be_bytes
length-be_bytes zero n = refl
length-be_bytes (suc k) n =
    omega (arith, length-append (be_bytes k (n / 256)) (n % 256 ∷ []), length-be_bytes k (n / 256))

be_value-append : (xs ys : Bytes) (n : ℕ) → be_value (xs ++ ys) n ≡ be_value ys (be_value xs n)
unfolding be_value
be_value-append [] ys n = refl
be_value-append (x ∷ xs) ys n = be_value-append xs ys (n * 256 + x)

be_value_snoc : (xs : Bytes) (b n : ℕ) → be_value (xs ++ b ∷ []) n ≡ be_value xs n * 256 + b
unfolding be_value
be_value_snoc xs b n = be_value-append xs (b ∷ []) n

-- Decoding a fixed-width word gives the number back, if it fits.
pub be_value-be_bytes : (k n : ℕ) → n < pow256 k → be_value (be_bytes k n) 0 ≡ n
unfolding be_bytes be_value
be_value-be_bytes zero n h = omega arith
be_value-be_bytes (suc k) n h = omega (
  arith,
  be_value_snoc (be_bytes k (n / 256)) (n % 256) 0,
  be_value-be_bytes k (n / 256) (omega arith),
)

length-big_bytes-suc :
    (fuel n : ℕ) → length (big_bytes (suc fuel) (suc n)) ≡ length (big_bytes fuel (suc n / 256)) + 1
unfolding big_bytes
length-big_bytes-suc fuel n = length-append (big_bytes fuel (suc n / 256)) (suc n % 256 ∷ [])

pow256_pos : (k : ℕ) → 0 < pow256 k
pow256_pos zero = omega arith
pow256_pos (suc k) = omega (arith, pow256_pos k)

-- A number of at least 256 ^ k has more than `k` bytes.
big_bytes_long : (k fuel n : ℕ) → n ≤ fuel → pow256 k ≤ n → k < length (big_bytes fuel n)
big_bytes_long k fuel zero h p = absurd (omega (arith, pow256_pos k))
big_bytes_long k zero (suc n) h p = absurd (omega arith)
big_bytes_long zero (suc fuel) (suc n) h p = omega (arith, length-big_bytes-suc fuel n)
big_bytes_long (suc k) (suc fuel) (suc n) h p = omega (
  arith,
  length-big_bytes-suc fuel n,
  big_bytes_long k fuel (suc n / 256) (omega arith) (omega arith),
)

-- A number below 256 ^ k has at most `k` bytes.
big_bytes_short : (k fuel n : ℕ) → n < pow256 k → length (big_bytes fuel n) ≤ k
big_bytes_short k zero n h = unfold big_bytes in omega arith
big_bytes_short k (suc fuel) zero h = unfold big_bytes in omega arith
big_bytes_short zero (suc fuel) (suc n) h = absurd (omega arith)
big_bytes_short (suc k) (suc fuel) (suc n) h =
    omega (arith, length-big_bytes-suc fuel n, big_bytes_short k fuel (suc n / 256) (omega arith))

abbrev zeros : ℕ → Bytes
zeros k = replicate k 0

zeros_snoc : (k : ℕ) → zeros k ++ 0 ∷ [] ≡ zeros (suc k)
zeros_snoc zero = refl
zeros_snoc (suc k) = ap (λ r. 0 ∷ r) (zeros_snoc k)

zeros-be_bytes : (k : ℕ) → zeros k ++ [] ≡ be_bytes k 0
unfolding be_bytes
zeros-be_bytes zero = refl
zeros-be_bytes (suc k) =
    append-nil (zeros (suc k))
    ∙ sym (zeros_snoc k)
    ∙ ap (λ r. r ++ 0 ∷ []) (sym (append-nil (zeros k)) ∙ zeros-be_bytes k)

pad_zero : (k : ℕ) → zeros (k - 0) ++ [] ≡ be_bytes k 0
pad_zero k = let whole : k - 0 ≡ k = omega arith in rw whole (zeros-be_bytes k)

pad_step :
    (k : ℕ) (b r : Bytes) (x : ℕ)
    → zeros (k - length b) ++ b ≡ r
    → zeros (suc k - length (b ++ x ∷ [])) ++ (b ++ x ∷ []) ≡ r ++ x ∷ []
pad_step k b r x h =
    let size : suc k - length (b ++ x ∷ []) ≡ k - length b =
      omega (arith, length-append b (x ∷ [])) in
    rw size (sym (append_assoc (zeros (k - length b)) b (x ∷ [])) ∙ ap (λ l. l ++ x ∷ []) h)

pad_big_bytes :
    (k fuel n : ℕ)
    → n ≤ fuel
    → n < pow256 k
    → zeros (k - length (big_bytes fuel n)) ++ big_bytes fuel n ≡ be_bytes k n
unfolding big_bytes be_bytes
pad_big_bytes k zero zero h p = pad_zero k
pad_big_bytes k (suc fuel) zero h p = pad_zero k
pad_big_bytes k zero (suc n) h p = absurd (omega arith)
pad_big_bytes zero (suc fuel) (suc n) h p = absurd (omega arith)
pad_big_bytes (suc k) (suc fuel) (suc n) h p =
    pad_step k (big_bytes fuel (suc n / 256)) (be_bytes k (suc n / 256)) (suc n % 256)
      (pad_big_bytes k fuel (suc n / 256) (omega arith) (omega arith))

-- `leftPadWord` is the 32-byte big-endian word of the absolute value, and panics exactly when that
-- value does not fit in 256 bits.
pub left_pad_word_lem :
    (v : ℤ)
    → left_pad_word v ≡ (if ltb (abs v) (pow256 32) then ok (be_bytes 32 (abs v)) else panic)
unfolding left_pad_word
left_pad_word_lem v = elim (Bool-cases (ltb m (pow256 32))) [
  | inl fits ↦
      let small : m < pow256 32 = ltb→lt m (pow256 32) fits in
      rw (fits, short (big_bytes_short 32 m m small))
        (ap ok (pad_big_bytes 32 m m (omega arith) small))
  | inr over ↦ rw (over, long (big_bytes_long 32 m m (omega arith) (ground arith)))
]
  where
    m : ℕ
    m = abs v

    short : length (big_bytes m m) ≤ 32 → ltb 32 (length (big_bytes m m)) ≡ false
    short h = ground arith

    long : 32 < length (big_bytes m m) → ltb 32 (length (big_bytes m m)) ≡ true
    long h = ground arith

pub uint_word_lem : (n : ℕ) → n < pow256 32 → uint_word n ≡ ok (be_bytes 32 n)
unfolding uint_word
uint_word_lem n h = left_pad_word_lem (pos n) ∙ (rw (lt→ltb n (pow256 32) h))
