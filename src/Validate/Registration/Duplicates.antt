-- ===== src/Validate/Registration/Duplicates.antt =====
-- Check R7: the extensions that have one instruction sender.
use Prim.Native.String.{String}
use praesidio.Prelude.{ℕ, ◌+◌, ◌≤◌, ◌<◌, ◌≡◌, true, Bytes, length}
use praesidio.Validate.Host.{Answer}
use praesidio.Validate.Registration.{is_sender, matching_ids}

module _ (sender_of : ℕ → Answer Bytes) (expected : Bytes) where
  -- The extension has the expected sender.
  abbrev pub Has : ℕ → Type 0
  Has i = is_sender expected (sender_of i) ≡ true

  -- No two extensions of a range have it.
  abbrev pub AtMostOne : ℕ → ℕ → Type 0
  AtMostOne n i = (j k : ℕ) → i ≤ j → j < i + n → i ≤ k → k < i + n → Has j → Has k → j ≡ k

  abbrev count : ℕ → ℕ → ℕ
  count n i = length (matching_ids sender_of expected n i)
