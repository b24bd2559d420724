-- ===== src/Tools/Registration/Availability.antt =====
-- The availability check of tee/tools/pkg/fccutils/registration.go, the proof that answers it, and
-- the promotion to production.
use praesidio.Prelude.{Bytes, String, bytes_eq, if◌then◌else◌}
use praesidio.Validate.Host.{Answer, ok}
use praesidio.Tools.Chain.{GoError, send, saying, check_tx}
use praesidio.Tools.Chain.Calls.{
  Proof, Tx, Action, call_request_availability_check, call_to_production, ask, pure, fail, lift,
  ◌>>=◌,
}
use praesidio.Tools.Proxy.{Services, ProveResponse, answer_bind, action_result}
use praesidio.Tools.Registration.Machine.{Bindings, fee, claim_back, sent_instruction}
use praesidio.Tools.Registration.Diagnosis.{diagnose}

-- The refusal of an availability check is looked into with an `eth_call`, and then told.
unfoldable pub explain_availability : Bindings → Tx → GoError → Action String
explain_availability b tx e = do
  _ ←
      ask "CallContract"
        (λ h. diagnose b.services.node b.contract_errors (b.services.node.simulate h tx))
  pure e.text

abbrev pub availability_tx : Bindings → Bytes → Bytes → Bytes → Tx
availability_tx b tee_id external_tee_id attest_id = record {
  method =
      call_request_availability_check tee_id attest_id external_tee_id (claim_back b)
        (claim_back b);
  value = fee;
}

-- `RequestFTDCAvailabilityCheck`
unfoldable pub request_ftdc_availability_check : Bindings → Bytes → Bytes → Bytes → Action Bytes
request_ftdc_availability_check b tee_id external_tee_id attest_id = do
  _ ← lift (b.services.node.transactor b.prv)
  let tx = availability_tx b tee_id external_tee_id attest_id
  hash ← send b.services.node tx (explain_availability b tx)
  receipt ← check_tx b.services.node hash
  lift (sent_instruction b receipt.logs)

abbrev proof_of : Services → ProveResponse → Answer Proof
proof_of v p = answer_bind (v.decode_header p.response_header) λ header.
    answer_bind (v.decode_request p.encoded_request) λ request.
      answer_bind (v.decode_response p.encoded_response) λ response. ok (record {
        signatures = p.data_provider_signatures;
        header = header;
        request_body = request;
        response_body = response;
      })

-- `GetFTDCAvailabilityCheckResult`
unfoldable pub get_ftdc_availability_check_result : Bindings → String → Bytes → Action Proof
get_ftdc_availability_check_result b host_url instruction_id = do
  result ← action_result b.services host_url instruction_id
  response ← lift (b.services.decode_proof result.result_data)
  lift (proof_of b.services response)

abbrev pub promotion_tx : Proof → Tx
promotion_tx proof = record { method = call_to_production proof; value = 0 }

-- `ToProduction`
unfoldable pub to_production : Bindings → Proof → Action {0} Unit
to_production b proof = do
  _ ← lift (b.services.node.transactor b.prv)
  hash ← send b.services.node (promotion_tx proof) (saying "")
  _ ← check_tx b.services.node hash
  found ← ask "GetTeeMachine" (λ h. b.get_tee_machine h proof.request_body.tee_id)
  tee_id ← lift found
  if bytes_eq tee_id proof.request_body.tee_id
      then pure tt
      else fail "tee machine not set up correctly"
