-- ===== src/Tools/Instructions.antt =====
-- tee/tools/pkg/utils/instructions.go: the instructions that are sent to an extension.
pub mod Trial
use Prim.Native.String.{String, ◌++◌ as ◌+++◌}
use praesidio.Prelude.{
  ℕ, Bytes, Bool, false, ◌||◌, List, [], ◌∷◌, Option, some, none, ltb, length, str_eq, ◌==◌,
  if◌then◌else◌,
}
use praesidio.Prelude.Decimal.{decimal, ℤ, pos, negsuc}
use praesidio.Validate.Host.{Answer, ok, err}
use praesidio.Tools.Chain.{Node, GoError, Receipt, send, saying}
use praesidio.Tools.Chain.Calls.{
  Tx, Method, History, Action, call_deploy_sender, call_set_extension_id, call_say_hello,
  call_say_goodbye, label, ask, pure, fail, lift, ◌>>=◌,
}
use praesidio.Tools.Chain.Revert.{decode_revert_reason, simulate_and_decode_revert}
use praesidio.Tools.Proxy.{Services, ActionResult, action_result, sleep}

-- What the calls meet: the services, the deployer's key, the instruction sender's binding and ABI.
pub record Senders : Type 0 where
  pub services : Services
  pub prv : Bytes
  pub flare_tee_manager : Bytes
  -- `NewHelloWorldInstructionSender`, at an address
  pub bind_sender : Bytes → Answer {0} Unit
  -- whether the ABI parses and packs a call
  pub packs : Method → Bool
  -- the address of the contract that a transaction creates
  pub created_by : Bytes → Bytes
  pub parse_tee_instructions_sent : Bytes → Answer Bytes
  -- `json`: the text and the number of a response
  pub decode_greeting : Bytes → Answer (String × ℤ)
  pub decode_farewell : Bytes → Answer (String × ℤ)

abbrev pub node_of : Senders → Node
node_of d = d.services.node

-- `bind.WaitMined` without `CheckTx`
unfoldable pub wait_mined : Senders → String → Bytes → Action Receipt
wait_mined d prefix hash = do
  mined ← ask "WaitMined" (λ h. (node_of d).wait_mined h hash)
  lift (label prefix mined)

abbrev pub plain_tx : Method → Tx
plain_tx m = record { method = m; value = 0 }

-- `DeployInstructionSender`: the address of the contract
unfoldable pub deploy_instruction_sender : Senders → Action Bytes
deploy_instruction_sender d = do
  _ ← lift (label "failed to create transactor: " ((node_of d).transactor d.prv))
  hash ←
      send (node_of d) (plain_tx (call_deploy_sender d.flare_tee_manager d.flare_tee_manager))
        (saying "failed to deploy contract: ")
  receipt ←
      wait_mined d
        ("deployment tx not mined within 2 minutes (tx: " +++ (node_of d).hash_hex hash +++ "): ")
        hash
  if receipt.status == 1 then pure (d.created_by hash) else fail "contract deployment failed"

-- The reason of a call that the chain refuses or reverts, as a simulation shows it.
unfoldable pub simulated : Senders → Tx → Action String
simulated d tx = if d.packs tx.method then simulate_and_decode_revert (node_of d) tx else pure ""

abbrev with_reason : String → String → String
with_reason text reason =
    if str_eq reason "" then text else text +++ " (revert reason: " +++ reason +++ ")"

-- The text of a refused call: what its error decodes to, else what a simulation shows.
unfoldable pub explain_call : Senders → String → Tx → GoError → Action String
explain_call d prefix tx e =
    let decoded = decode_revert_reason (node_of d) e in
    (do
      reason ← (if str_eq decoded "" then simulated d tx else pure decoded)
      pure (with_reason (prefix +++ e.text) reason))

-- What follows a receipt that tells of a failure: the text of the error, at a reason and without.
abbrev failure_text : String → String → String → String
failure_text plain text reason = if str_eq reason "" then plain else with_reason text reason

unfoldable pub explain_failure : Senders → String → String → Tx → Action {0} Unit
explain_failure d plain text tx = do reason ← simulated d tx; fail (failure_text plain text reason)

-- `SetExtensionId`
abbrev pub set_id_tx : Bytes → Tx
set_id_tx address = plain_tx (call_set_extension_id address)

unfoldable pub set_extension_id : Senders → Bytes → Action {0} Unit
set_extension_id d address = do
  _ ← lift (label "failed to bind contract: " (d.bind_sender address))
  _ ← lift (label "failed to create transactor: " ((node_of d).transactor d.prv))
  hash ←
      send (node_of d) (set_id_tx address)
        (explain_call d "failed to call setExtensionId: " (set_id_tx address))
  receipt ← wait_mined d "failed waiting for transaction: " hash
  if receipt.status == 1
      then pure tt
      else explain_failure d "setExtensionId transaction failed" "setExtensionId transaction failed"
          (set_id_tx address)

-- The fee of an instruction.
abbrev pub instruction_fee : ℕ
instruction_fee = 1000000

-- The identifier of the instruction in a receipt.
unfoldable pub instruction_of : Senders → Receipt → Answer (Bytes × Bytes)
instruction_of d receipt = from_logs receipt.logs
  where
    paired : Answer Bytes → Answer (Bytes × Bytes)
    paired (ok id) = ok (id, receipt.tx_hash)
    paired (err e) = err e

    from_logs : List Bytes → Answer (Bytes × Bytes)
    from_logs [] = err "no logs found in receipt"
    from_logs (log ∷ logs) =
        paired
          (label "failed to parse TeeInstructionsSent event: " (d.parse_tee_instructions_sent log))

abbrev pub hello_tx : Bytes → Bytes → Tx
hello_tx address message = record {
  method = call_say_hello address message;
  value = instruction_fee;
}

abbrev pub goodbye_tx : Bytes → String → String → Tx
goodbye_tx address name reason = record {
  method = call_say_goodbye address name reason;
  value = instruction_fee;
}

-- `SendSayHello`
unfoldable pub send_say_hello : Senders → Bytes → Bytes → Action (Bytes × Bytes)
send_say_hello d address message = do
  _ ← lift (label "failed to bind contract: " (d.bind_sender address))
  _ ← lift (label "failed to create transactor: " ((node_of d).transactor d.prv))
  hash ←
      send (node_of d) (hello_tx address message)
        (explain_call d "failed to send instruction: " (hello_tx address message))
  receipt ← wait_mined d "failed waiting for transaction: " hash
  _ ←
      (if receipt.status == 1
        then pure tt
        else explain_failure d ("transaction failed with status: " +++ decimal receipt.status)
            ("transaction failed with status " +++ decimal receipt.status)
            (hello_tx address message))
  lift (instruction_of d receipt)

-- `SendSayGoodbye`, which does not look for the reason of a refusal
unfoldable pub send_say_goodbye : Senders → Bytes → String → String → Action (Bytes × Bytes)
send_say_goodbye d address name reason = do
  _ ← lift (label "failed to bind contract: " (d.bind_sender address))
  _ ← lift (label "failed to create transactor: " ((node_of d).transactor d.prv))
  hash ← send (node_of d) (goodbye_tx address name reason) (saying "failed to send instruction: ")
  receipt ← wait_mined d "failed waiting for transaction: " hash
  if receipt.status == 1
      then lift (instruction_of d receipt)
      else fail ("transaction failed with status: " +++ decimal receipt.status)
