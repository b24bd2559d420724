-- ===== src/Tools/Governance/Plan.antt =====
-- What the governance command sends.
use Prim.Native.String.{String, ◌++◌ as ◌+++◌}
use praesidio.Prelude.{ℕ, Bytes, Bool, true, false, List, [], ◌∷◌, length, ltb, ◌≡◌, if◌then◌else◌}
use praesidio.Validate.Host.{Answer, ok, err}
use praesidio.Tools.Chain.Calls.{Tx, Session}
use praesidio.Tools.Chain.Follows.{After, Follows}
use praesidio.Tools.Chain.Exactly.{exactly}
use praesidio.Tools.Chain.Offers.{OfferedFrom, Offers, prepared}
use praesidio.Tools.Governance.{
  Ledger, parse_signers, parse_threshold, governance_tx, in_place, too_many,
}

module _ (l : Ledger) (prv : Bytes) (extension_id : ℕ) where
  -- Nothing, if the hash cannot be computed or is the chain's latest, and else the transaction.
  abbrev pub due : Answer Bytes → Answer Bytes → Tx → List Tx
  due (ok desired) current tx = if in_place desired current then [] else tx ∷ []
  due (err e) current tx = []

module _ (l : Ledger) (prv : Bytes) (extension_id : ℕ) where
  -- What the two answers make of the result, where they decide it.
  abbrev pub Settled : Answer Bytes → Answer Bytes → Answer {0} Unit → Type 0
  Settled (err e) current r = r ≡ err ("computing governance hash: " +++ e)
  Settled (ok desired) current r = if in_place desired current then r ≡ ok tt else Unit

  -- From the hash on: the transactions that are sent, those that are given to the node, and the
  -- result.
  abbrev pub Updated : List Bytes → ℕ → Answer Bytes → Session → Answer {0} Unit × Session → Type 0
  Updated signers threshold desired s out =
      let tx = governance_tx extension_id signers threshold in
      let current = l.get_latest_hash s.history extension_id in
      After exactly (due l prv extension_id desired current tx) s out
      × OfferedFrom s (prepared (l.node.transactor prv) (due l prv extension_id desired current tx))
          out.1
      × Settled desired current out.0

-- One of two outcomes, by a test.
abbrev pub Outcome : Bool → Type 0 → Type 0 → Type 0
Outcome true rest refused = refused
Outcome false rest refused = rest

module _ (l : Ledger) (prv : Bytes) (extension_id : ℕ) (default_signer : Bytes)
    (raw_signers raw_threshold : String) where
  abbrev signers : List Bytes
  signers = parse_signers l raw_signers default_signer

  abbrev threshold : ℕ
  threshold = parse_threshold raw_threshold

  abbrev pub SetTo : Session → Answer {0} Unit × Session → Type 0
  SetTo s out =
      Outcome (ltb (length signers) threshold)
        (Updated l prv extension_id signers threshold (l.governance_hash signers threshold) s out)
        (out ≡ (err (too_many signers threshold), s))
