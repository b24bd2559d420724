-- ===== src/Tools/Chain.antt =====
-- What the tools meet: the chain node, with `CheckTx` and `getFailingMessage` of
-- tee/tools/pkg/support/support.go. The answers of the outside may depend on every call that was
-- made before.
pub mod Calls
pub mod Exactly
pub mod Follows
pub mod Offers
pub mod Revert
pub mod Sending
pub mod Yields
use Prim.Native.String.{◌++◌ as ◌+++◌}
use praesidio.Prelude.{
  ℕ, Bytes, String, List, [], ◌∷◌, Option, none, some, ltb, length, str_eq, ◌==◌, if◌then◌else◌,
}
use praesidio.Prelude.Text.{trim_0x, hex_encode}
use praesidio.Prelude.Text.Hex.{hex_decode}
use praesidio.Validate.Host.{Answer, ok, err}
use praesidio.Tools.Chain.Calls.{
  Tx, History, Action, accepted, refused, record_call, label, pure, fail, lift, ask, ◌>>=◌,
}

-- A Go error: its text, and the string that its `ErrorData()` gives, where it has one.
pub record GoError : Type 0 where
  pub text : String
  pub error_data : Option String

-- What a binding's method returns.
pub data Submission : Type 0 where
  submitted : Bytes → Submission
  rejected : GoError → Submission

-- What `client.CallContract` returns.
pub data Simulation : Type 0 where
  returned : Bytes → Simulation
  reverted : GoError → Simulation

pub record Receipt : Type 0 where
  pub status : ℕ
  pub logs : List Bytes
  pub tx_hash : Bytes

pub record Node : Type 0 where
  -- `bind.NewKeyedTransactorWithChainID`, at a private key
  pub transactor : Bytes → Answer {0} Unit
  -- a method of a binding
  pub submit : History → Tx → Submission
  -- `bind.WaitMined`, at a transaction's hash
  pub wait_mined : History → Bytes → Answer Receipt
  -- `client.TransactionByHash`
  pub transaction_by_hash : History → Bytes → Answer Bytes
  -- `types.Sender`
  pub sender : Bytes → Answer Bytes
  -- `client.CallContract` of a transaction from its sender, and of a call that is not sent
  pub replay : History → Bytes → Bytes → Simulation
  pub simulate : History → Tx → Simulation
  -- `abi.UnpackRevert`
  pub unpack_revert : Bytes → Option String
  pub hash_hex : Bytes → String
  -- `common.FromHex`
  pub from_hex : String → Bytes
  -- `crypto.PubkeyToAddress` of a private key's public key
  pub address_of : Bytes → Bytes

abbrev pub option_bind : {A B : Type 0} → Option A → (A → Option B) → Option B
option_bind none f = none
option_bind (some a) f = f a

-- `decodeRevertFromError`
abbrev pub reason_or_empty : Option String → String
reason_or_empty (some reason) = reason
reason_or_empty none = ""

unfoldable pub decode_revert_from_error : Node → GoError → String
decode_revert_from_error n e =
    reason_or_empty
      (option_bind e.error_data λ hex. option_bind (hex_decode (trim_0x hex)) n.unpack_revert)

-- What is shown of a call that came back: its reason, or its bytes.
abbrev pub failing_result : Option String → Bytes → String
failing_result (some reason) res = reason
failing_result none [] = "unknown revert reason"
failing_result none (b ∷ bs) = "0x" +++ hex_encode (b ∷ bs)

-- The end of `getFailingMessage`.
unfoldable pub failing_text : Node → Simulation → String
failing_text n (reverted e) =
    let reason = decode_revert_from_error n e in if str_eq reason "" then e.text else reason
failing_text n (returned res) = failing_result (n.unpack_revert res) res

unfoldable pub get_failing_message : Node → Bytes → Action String
get_failing_message n hash = do
  found ← ask "TransactionByHash" (λ h. n.transaction_by_hash h hash)
  tx ← lift found
  from ← lift (n.sender tx)
  res ← ask "CallContract" (λ h. n.replay h tx from)
  pure (failing_text n res)

-- `CheckTx`
unfoldable pub check_tx : Node → Bytes → Action Receipt
check_tx n hash = do
  mined ← ask "WaitMined" (λ h. n.wait_mined h hash)
  receipt ←
      lift
        (label ("transaction not mined within 2 minutes (tx: " +++ n.hash_hex hash +++ "): ") mined)
  if receipt.status == 0
      then (do reason ← get_failing_message n hash; fail ("error: Transaction fail: " +++ reason))
      else pure receipt

-- A binding's method, and the error that its caller makes of a refusal.
unfoldable pub after_submit : (GoError → Action String) → Tx → Submission → Action Bytes
after_submit explain tx (submitted hash) s = (ok hash, record_call (accepted tx) s)
after_submit explain tx (rejected e) s = (explain e >>= fail) (record_call (refused tx) s)

unfoldable pub send : Node → Tx → (GoError → Action String) → Action Bytes
send n tx explain s = after_submit explain tx (n.submit s.history tx) s

-- `errors.Errorf("…%s", err)`
abbrev pub saying : String → GoError → Action String
saying prefix e = pure (prefix +++ e.text)
