-- ===== src/Guard/Digest.antt =====
-- `registryDigest` of tee/go/internal/extension/guard_rpc.go.
pub mod Preimage
use praesidio.Prelude.{ℕ, ◌≡◌, refl, List, [], ◌∷◌, ◌++◌, Bytes, Option, none, some, String}
use praesidio.Prelude.Text.{codes}
use praesidio.Prelude.Decimal.{ℤ, pos, set_string}
use praesidio.Prelude.Outcome.{Result, ok, ◌>>=◌}
use praesidio.Guard.Words.{left_pad_word, uint_word}
use praesidio.Guard.World.{World}

-- An amount that `SetString` does not read counts as 0.
unfoldable pub amount_value : String → ℤ
amount_value amount = elim (set_string amount) [ none ↦ pos 0 | some a ↦ a ]

unfoldable pub registry_words : ℕ → ℕ → ℕ → ℕ → String → Result Bytes
registry_words chain_id guard_id action_type nonce amount = do
  w1 ← uint_word chain_id
  w2 ← uint_word guard_id
  w3 ← uint_word action_type
  w4 ← left_pad_word (amount_value amount)
  w5 ← uint_word nonce
  ok ((((w1 ++ w2) ++ w3) ++ w4) ++ w5)

abbrev pub personal_prefix : Bytes
personal_prefix = 0x19 ∷ codes "Ethereum Signed Message:\n32"

unfoldable pub registry_digest : World → ℕ → ℕ → ℕ → ℕ → String → Result Bytes
registry_digest w chain_id guard_id action_type nonce amount = do
  words ← registry_words chain_id guard_id action_type nonce amount
  let inner = w.keccak256 words
  ok (w.keccak256 (personal_prefix ++ inner))
