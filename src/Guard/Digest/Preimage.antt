-- ===== src/Guard/Digest/Preimage.antt =====
-- The hashed words against Solidity's `abi.encode` of five unsigned integers.
use praesidio.Prelude.{
  ℕ, zero, suc, ◌*◌, ◌≡◌, refl, ◌<◌, List, [], ◌∷◌, ◌++◌, append_assoc, append-nil, Bytes, arith,
  length, length-append, take, drop, take-append, drop-append, two_64, lt→ltb,
}
use praesidio.Prelude.Decimal.{pos, decimal}
use praesidio.Prelude.Decimal.RoundTrip.{set_string-decimal}
use praesidio.Prelude.Outcome.{ok}
use praesidio.Guard.Words.Encoding.{
  pow256, be_bytes, be_value, length-be_bytes, be_value-be_bytes, left_pad_word_lem, uint_word_lem,
}
use praesidio.Guard.Digest.{amount_value, registry_words}

-- `abi.encode` of unsigned integers: one 32-byte big-endian word after the other.
unfoldable pub abi_encode : List ℕ → Bytes
abi_encode [] = []
abi_encode (v ∷ vs) = be_bytes 32 v ++ abi_encode vs

-- `abi.decode` of `n` such words.
unfoldable pub abi_decode : ℕ → Bytes → List ℕ
abi_decode zero bs = []
abi_decode (suc n) bs = be_value (take 32 bs) 0 ∷ abi_decode n (drop 32 bs)

amount_value-decimal : (n : ℕ) → amount_value (decimal n) ≡ pos n
unfolding amount_value
amount_value-decimal n = rw (set_string-decimal, amount_value)

module _ (chain_id guard_id action_type nonce amount : ℕ) where
  -- For arguments of the widths that the code passes, the guard hashes exactly what the contract
  -- hashes, and it does not panic.
  pub registry_words-abi_encode :
      chain_id < two_64
      → guard_id < two_64
      → action_type < two_64
      → nonce < two_64
      → amount < pow256 32
      → registry_words chain_id guard_id action_type nonce (decimal amount)
        ≡ ok (abi_encode (chain_id ∷ guard_id ∷ action_type ∷ amount ∷ nonce ∷ []))
  unfolding registry_words abi_encode
  registry_words-abi_encode hc hg ht hn ha =
      rw
        (
          uint_word_lem chain_id (omega arith),
          uint_word_lem guard_id (omega arith),
          uint_word_lem action_type (omega arith),
          uint_word_lem nonce (omega arith),
          amount_value-decimal amount,
          left_pad_word_lem (pos amount),
          lt→ltb amount (pow256 32) ha,
        )
        (simp (append_assoc, append-nil))

abbrev pub AllBelow : ℕ → List ℕ → Type 0
AllBelow m [] = Unit
AllBelow m (v ∷ vs) = (v < m) × AllBelow m vs

take-be_bytes : (v : ℕ) (rest : Bytes) → take 32 (be_bytes 32 v ++ rest) ≡ be_bytes 32 v
take-be_bytes v rest = rw length-be_bytes at (take-append (be_bytes 32 v) rest)

drop-be_bytes : (v : ℕ) (rest : Bytes) → drop 32 (be_bytes 32 v ++ rest) ≡ rest
drop-be_bytes v rest = rw length-be_bytes at (drop-append (be_bytes 32 v) rest)

-- Decoding gives the numbers back, so no two lists of numbers share an encoding.
pub abi_decode-abi_encode :
    (vs : List ℕ) → AllBelow (pow256 32) vs → abi_decode (length vs) (abi_encode vs) ≡ vs
unfolding abi_encode abi_decode
abi_decode-abi_encode [] _ = refl
abi_decode-abi_encode (v ∷ vs) (hv, hvs) = rw (
  take-be_bytes v (abi_encode vs),
  drop-be_bytes v (abi_encode vs),
  be_value-be_bytes 32 v hv,
  abi_decode-abi_encode vs hvs,
)

pub length-abi_encode : (vs : List ℕ) → length (abi_encode vs) ≡ 32 * length vs
unfolding abi_encode
length-abi_encode [] = refl
length-abi_encode (v ∷ vs) = omega (
  arith,
  length-append (be_bytes 32 v) (abi_encode vs),
  length-be_bytes 32 v,
  length-abi_encode vs,
)

abi_encode-injective :
    (vs vs' : List ℕ)
    → AllBelow (pow256 32) vs
    → AllBelow (pow256 32) vs'
    → length vs ≡ length vs'
    → abi_encode vs ≡ abi_encode vs'
    → vs ≡ vs'
abi_encode-injective vs vs' h h' same e =
    cc (abi_decode-abi_encode vs h, abi_decode-abi_encode vs' h')

-- The bytes that are hashed determine the five numbers: no two actions share a preimage.
pub preimage_binds :
    (c g t n a c' g' t' n' a' : ℕ)
    → AllBelow two_64 (c ∷ g ∷ t ∷ n ∷ [])
    → AllBelow two_64 (c' ∷ g' ∷ t' ∷ n' ∷ [])
    → a < pow256 32
    → a' < pow256 32
    → registry_words c g t n (decimal a) ≡ registry_words c' g' t' n' (decimal a')
    → (c ∷ g ∷ t ∷ a ∷ n ∷ []) ≡ (c' ∷ g' ∷ t' ∷ a' ∷ n' ∷ [])
preimage_binds c g t n a c' g' t' n' a' (hc, (hg, (ht, (hn, _)))) (hc', (hg', (ht', (hn', _)))) ha
      ha' e =
    abi_encode-injective (c ∷ g ∷ t ∷ a ∷ n ∷ []) (c' ∷ g' ∷ t' ∷ a' ∷ n' ∷ []) (omega arith)
      (omega arith) refl same
  where
    same : abi_encode (c ∷ g ∷ t ∷ a ∷ n ∷ []) ≡ abi_encode (c' ∷ g' ∷ t' ∷ a' ∷ n' ∷ [])
    same = cc (
      e,
      registry_words-abi_encode c g t n a hc hg ht hn ha,
      registry_words-abi_encode c' g' t' n' a' hc' hg' ht' hn' ha',
    )
