-- ===== src/Tools/Governance.antt =====
-- The governance of an extension: tee/tools/pkg/fccutils/governance.go, and the parsers of
-- tee/tools/cmd/set-governance/main.go.
pub mod Plan
use Prim.Native.String.{String, ◌++◌ as ◌+++◌}
use praesidio.Prelude.{
  ℕ, Bytes, Bool, false, List, [], ◌∷◌, Option, some, none, map, length, ltb, bytes_eq, ◌==◌, ◌||◌,
  ◌&&◌, if◌then◌else◌,
}
use praesidio.Prelude.Decimal.{decimal, NumError, parse_uint}
use praesidio.Prelude.Text.{trim_space}
use praesidio.Validate.Host.{Answer, ok, err}
use praesidio.Validate.Command.{parse_filter}
use praesidio.Tools.Chain.{Node, send, saying, check_tx}
use praesidio.Tools.Chain.Calls.{
  Tx, History, Action, call_set_governance, label, ask, pure, fail, lift, ◌>>=◌,
}

-- The chain, as far as the governance is set.
pub record Ledger : Type 0 where
  pub node : Node
  -- `GetLatestTeeGovernanceHash`, at an extension
  pub get_latest_hash : History → ℕ → Answer Bytes
  -- `types.GovernanceHash`
  pub governance_hash : List Bytes → ℕ → Answer Bytes
  -- `common.HexToAddress`
  pub hex_to_address : String → Bytes

-- `parseSigners`: the parts between the commas, trimmed, the empty ones left out.
abbrev or_fallback : Bytes → List Bytes → List Bytes
or_fallback fallback [] = fallback ∷ []
or_fallback fallback (signer ∷ signers) = signer ∷ signers

unfoldable pub parse_signers : Ledger → String → Bytes → List Bytes
parse_signers l raw fallback = or_fallback fallback (map l.hex_to_address (parse_filter raw))

-- `parseThreshold`
abbrev or_one : ℕ × Option NumError → ℕ
or_one (v, none) = if ltb 0 v then v else 1
or_one (v, some e) = 1

unfoldable pub parse_threshold : String → ℕ
parse_threshold raw = or_one (parse_uint (trim_space raw))

abbrev pub governance_tx : ℕ → List Bytes → ℕ → Tx
governance_tx extension_id signers threshold = record {
  method = call_set_governance extension_id signers threshold;
  value = 0;
}

-- Whether the chain answers with the desired hash; an error counts as a no.
unfoldable pub in_place : Bytes → Answer Bytes → Bool
in_place desired (ok current) = bytes_eq current desired
in_place desired (err e) = false

unfoldable pub send_governance : Ledger → Bytes → ℕ → List Bytes → ℕ → Action {0} Unit
send_governance l prv extension_id signers threshold = do
  _ ← lift (l.node.transactor prv)
  hash ←
      send l.node (governance_tx extension_id signers threshold)
        (saying "SetNewTeeGovernance failed: ")
  _ ← check_tx l.node hash
  pure tt

-- What follows the two guards.
unfoldable pub update_governance : Ledger → Bytes → ℕ → List Bytes → ℕ → Action {0} Unit
update_governance l prv extension_id signers threshold = do
  desired ← lift (label "computing governance hash: " (l.governance_hash signers threshold))
  current ← ask "getLatestTeeGovernanceHash" (λ h. l.get_latest_hash h extension_id)
  if in_place desired current then pure tt else send_governance l prv extension_id signers threshold

abbrev pub too_many : List Bytes → ℕ → String
too_many signers threshold =
    "invalid GOVERNANCE_THRESHOLD "
    +++ decimal threshold
    +++ " for "
    +++ decimal (length signers)
    +++ " signer(s)"

-- `SetTeeGovernance`
unfoldable pub set_tee_governance : Ledger → Bytes → ℕ → List Bytes → ℕ → Action {0} Unit
set_tee_governance l prv extension_id signers threshold =
    if length signers == 0
    then fail "at least one governance signer is required (set GOVERNANCE_SIGNERS)"
    else if threshold == 0 || ltb (length signers) threshold
    then fail (too_many signers threshold)
    else update_governance l prv extension_id signers threshold

-- The call of `main`: the texts of `GOVERNANCE_SIGNERS` and `GOVERNANCE_THRESHOLD`.
unfoldable pub set_governance : Ledger → Bytes → ℕ → Bytes → String → String → Action {0} Unit
set_governance l prv extension_id default_signer raw_signers raw_threshold =
    set_tee_governance l prv extension_id (parse_signers l raw_signers default_signer)
      (parse_threshold raw_threshold)
