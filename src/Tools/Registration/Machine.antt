-- ===== src/Tools/Registration/Machine.antt =====
-- The transactions of tee/tools/pkg/fccutils/registration.go: `PreRegistration`,
-- `RequestTeeAttestation`, `RequestFTDCAvailabilityCheck` with the proof that answers it, and
-- `ToProduction`.
use Prim.Native.String.{◌++◌ as ◌+++◌}
use praesidio.Prelude.{
  ℕ, ◌+◌, ◌*◌, Bytes, not, String, List, [], ◌∷◌, Option, some, none, length, take, drop, ltb,
  str_eq, ◌==◌, if◌then◌else◌,
}
use praesidio.Validate.Host.{Answer, ok, err}
use praesidio.Tools.Chain.{GoError, send, saying, check_tx}
use praesidio.Tools.Chain.Calls.{
  MachineData, Signature, Tx, History, Action, call_register_machine, call_request_tee_attestation,
  label, pure, fail, lift, ◌>>=◌,
}
use praesidio.Tools.Chain.Revert.{
  CustomError, decode_revert_reason, simulate_and_decode_revert, match_custom_error,
}
use praesidio.Tools.Proxy.{Services, SignedTeeInfo}

-- `support.Support`, with the bindings that the registration calls.
pub record Bindings : Type 0 where
  pub services : Services
  -- the private key, and its address
  pub prv : Bytes
  -- `GetTeeMachine`: the identifier of the machine that it finds
  pub get_tee_machine : History → Bytes → Answer Bytes
  pub parse_tee_instructions_sent : Bytes → Answer Bytes
  pub parse_tee_attestation_requested : Bytes → Answer Bytes
  -- `TransformSignatureRSVtoVRS`: 65 bytes of 65
  pub transform_signature : Bytes → Answer Bytes
  -- the errors of the `machinemanager` ABI, if it parses
  pub machine_errors : Option (List CustomError)
  -- the errors of the ABIs that a refused availability check is looked up in
  pub contract_errors : List (String × Option (List CustomError))

abbrev pub fee : ℕ
fee = 1000000000

-- `big.Int.SetBytes`
unfoldable pub set_bytes : ℕ → Bytes → ℕ
set_bytes n [] = n
set_bytes n (b ∷ bs) = set_bytes (n * 256 + b) bs

unfoldable pub machine_data : SignedTeeInfo → MachineData
machine_data info = record {
  extension_id = set_bytes 0 info.extension_id;
  initial_owner = info.initial_owner;
  code_hash = info.code_hash;
  platform = info.platform;
  public_key = info.machine_key;
  governance_hash = info.governance_hash;
}

abbrev head_or : ℕ → Bytes → ℕ
head_or d [] = d
head_or d (b ∷ bs) = b

-- V, R and S of the transformed signature
unfoldable pub signature_of : Bytes → Signature
signature_of vrs = record { v = head_or 0 vrs; r = take 32 (drop 1 vrs); s = take 32 (drop 33 vrs) }

-- The check of the signature's length, and its transformation.
unfoldable pub machine_signature : Bindings → SignedTeeInfo → Answer Signature
machine_signature b info =
    if length info.data_signature == 65
    then after_transform (b.transform_signature info.data_signature)
    else err "signature error"
  where
    after_transform : Answer Bytes → Answer Signature
    after_transform (ok vrs) = ok (signature_of vrs)
    after_transform (err e) = err e

abbrev pub claim_back : Bindings → Bytes
claim_back b = b.services.node.address_of b.prv

-- The reason of a refused registration: the name of the custom error that a simulation shows, else
-- what the error decodes to, else the simulation's text.
unfoldable pub register_reason : String → String → String → String
register_reason reason named raw =
    if not (str_eq named "") then named else if str_eq reason "" then raw else reason

unfoldable pub simulated_reason : Bindings → Tx → String → Option (List CustomError) → Action String
simulated_reason b tx reason none = pure reason
simulated_reason b tx reason (some errors) = do
  raw ← simulate_and_decode_revert b.services.node tx
  pure (register_reason reason (match_custom_error errors raw) raw)

unfoldable pub explain_register : Bindings → Tx → GoError → Action String
explain_register b tx e = do
  reason ← simulated_reason b tx (decode_revert_reason b.services.node e) b.machine_errors
  pure ("register() reverted: " +++ (if str_eq reason "" then e.text else reason))

-- The identifier in a receipt's first log.
unfoldable pub sent_instruction : Bindings → List Bytes → Answer Bytes
sent_instruction b [] = err "no logs found in receipt"
sent_instruction b (log ∷ logs) =
    label "failed to parse TeeInstructionsSent event: " (b.parse_tee_instructions_sent log)

-- The challenge and the identifier in the logs of a registration.
unfoldable pub registration_logs : Bindings → List Bytes → Answer (Bytes × Bytes)
registration_logs b (log ∷ second ∷ logs) =
    both
      (label "failed to parse TeeAttestationRequested event: "
        (b.parse_tee_attestation_requested second))
      (sent_instruction b (log ∷ second ∷ logs))
  where
    both : Answer Bytes → Answer Bytes → Answer (Bytes × Bytes)
    both (ok challenge) (ok id) = ok (challenge, id)
    both (ok challenge) (err e) = err e
    both (err e) second = err e
registration_logs b logs = err "unexpected logs, this should not happen"

abbrev pub register_tx : Bindings → SignedTeeInfo → Signature → Bytes → String → Tx
register_tx b info signature proxy_id host_url = record {
  method = call_register_machine (machine_data info) signature proxy_id host_url (claim_back b);
  value = fee;
}

-- `PreRegistration`
unfoldable pub pre_registration :
    Bindings → String → Bytes → Bytes → SignedTeeInfo → Action (Bytes × Bytes)
pre_registration b host_url tee_id proxy_id info = do
  _ ← lift (b.services.node.transactor b.prv)
  signature ← lift (machine_signature b info)
  let tx = register_tx b info signature proxy_id host_url
  hash ← send b.services.node tx (explain_register b tx)
  receipt ← check_tx b.services.node hash
  lift (registration_logs b receipt.logs)

abbrev pub attestation_tx : Bindings → Bytes → Tx
attestation_tx b tee_id = record {
  method = call_request_tee_attestation tee_id (claim_back b);
  value = fee;
}

-- `RequestTeeAttestation`
unfoldable pub request_tee_attestation : Bindings → Bytes → Action Bytes
request_tee_attestation b tee_id = do
  _ ← lift (b.services.node.transactor b.prv)
  hash ← send b.services.node (attestation_tx b tee_id) (saying "error: ")
  receipt ← check_tx b.services.node hash
  if ltb (length receipt.logs) 2
      then fail "unexpected logs, this should not happen"
      else lift (sent_instruction b receipt.logs)
