-- ===== src/Examples/Registering.antt =====
-- A registration in a sample world: the first availability check is refused, and a second run
-- resumes.
use praesidio.Prelude.{
  Bytes, Bool, true, false, List, [], ◌∷◌, ◌++◌, some, none, ◌≡◌, refl, ltb, length, if◌then◌else◌,
  replicate, bytes_eq,
}
use praesidio.Validate.Host.{Answer, ok, err}
use praesidio.Tools.Chain.{Node, submitted, rejected, returned, send, after_submit, check_tx}
use praesidio.Tools.Chain.Calls.{
  Session, Method, RequestBody, ResponseBody, call_request_availability_check, ◌>>=◌,
}
use praesidio.Tools.Chain.Follows.{After, Served}
use praesidio.Tools.Proxy.{
  Services, SignedTeeInfo, ProveResponse, reply, tee_proxy_id, after_epoch, after_poll,
  check_ftdc_proxy_policy_consistency, compare_policy, policy_in_sync, poll, action_result,
}
use praesidio.Tools.Registration.{
  Request, register_node, run_steps, attest_step, attested, first_attestation, is_registered,
  availability_done, availability_step, checked_availability, promotion, promotion_step,
}
use praesidio.Tools.Registration.State.{
  load_state, read_state, contains, remove_state, save_or_warn, save_state, write_file,
}
use praesidio.Tools.Registration.Availability.{
  explain_availability, get_ftdc_availability_check_result, request_ftdc_availability_check,
  to_production,
}
use praesidio.Tools.Registration.Machine.{
  Bindings, pre_registration, machine_signature, registration_logs, request_tee_attestation,
  sent_instruction, set_bytes, signature_of, machine_data,
}
use praesidio.Tools.Registration.Plan.{Step, plan, Serves}
use praesidio.Tools.Registration.Plan.Run.{saved_letters, register_node-plan}
use praesidio.Tools.Registration.Plan.Parts.{loose}
use praesidio.Tools.Registration.Plan.Stages.{IsStart}
use praesidio.Tools.Registration.Plan.Resume.{register_node-LeavesOff}
use praesidio.Tools.Registration.Plan.LeavingOff.{LeavesOff}
use praesidio.Tools.Registration.Plan.Completion.{resumed_run_completes}
use praesidio.Examples.StateFiles.{demo_file, demo_file-IsReliable, demo_unmarshal}

abbrev is_check : Method → Bool
is_check (call_request_availability_check tee id external owner claim) = true
is_check _ = false

abbrev pub demo_node : Node
demo_node = record {
  transactor = λ prv. ok tt;
  submit = λ h tx.
      if is_check tx.method
      then (if ltb (length h) 16
          then rejected (record { text = "execution reverted"; error_data = none })
          else submitted (3 ∷ []))
      else submitted (3 ∷ []);
  wait_mined =
      λ h hash. ok (record { status = 1; logs = (4 ∷ []) ∷ (5 ∷ []) ∷ []; tx_hash = hash });
  transaction_by_hash = λ h hash. ok hash;
  sender = λ tx. ok (6 ∷ []);
  replay = λ h tx from. returned [];
  simulate = λ h tx. returned [];
  unpack_revert = λ bytes. none;
  hash_hex = λ hash. "0x00";
  from_hex = λ hex. [];
  address_of = λ prv. 6 ∷ [];
}

abbrev demo_info : SignedTeeInfo
demo_info = record {
  public_key = 1 ∷ [];
  chain_id = 114;
  last_signing_policy_id = 7;
  extension_id = 9 ∷ [];
  initial_owner = 6 ∷ [];
  code_hash = 10 ∷ [];
  platform = 11 ∷ [];
  machine_key = (12 ∷ [], 13 ∷ []);
  governance_hash = 14 ∷ [];
  data_signature = replicate 65 1;
  proxy_signature = 2 ∷ [];
  attestation = "token";
}

abbrev demo_request_body : RequestBody
demo_request_body = record { tee_id = 1 ∷ []; rest = [] }

abbrev demo_response_body : ResponseBody
demo_response_body = record {
  status = 0;
  tee_timestamp = 1;
  code_hash = 10 ∷ [];
  platform = 11 ∷ [];
  initial_signing_policy_id = 6;
  last_signing_policy_id = 7;
  state = [];
}

abbrev demo_proof : ProveResponse
demo_proof = record {
  response_header = [];
  encoded_request = [];
  encoded_response = [];
  data_provider_signatures = (1 ∷ []) ∷ [];
}

abbrev pub demo_services : Services
demo_services = record {
  node = demo_node;
  get = λ h url. reply 200 [];
  decode_info = λ body. ok demo_info;
  decode_action = λ body. ok (record { status = 1; log = "ok"; result_data = body });
  decode_proof = λ body. ok demo_proof;
  decode_header = λ body. ok body;
  decode_request = λ body. ok demo_request_body;
  decode_response = λ body. ok demo_response_body;
  parse_pub_key = λ key. ok key;
  pubkey_to_address = λ key. key;
  info_hash = λ info. ok [];
  proxy_payload_hash = λ chain hash. ok hash;
  text_hash = λ hash. hash;
  sig_to_pub = λ hash sig. ok sig;
  current_reward_epoch = λ h. ok (some 7);
}

-- The machine is not found before it is registered.
abbrev pub demo_bindings : Bindings
demo_bindings = record {
  services = demo_services;
  prv = 6 ∷ [];
  get_tee_machine = λ h id. if ltb (length h) 9 then err "not found" else ok id;
  parse_tee_instructions_sent = λ log. ok log;
  parse_tee_attestation_requested = λ log. ok log;
  transform_signature = λ sig. ok sig;
  machine_errors = none;
  contract_errors = [];
}

abbrev demo_registration : Request
demo_registration = record {
  info = demo_info;
  host_url = "http://localhost:6663";
  ftdc_url = "http://localhost:6662";
  ftdc_tee = 8 ∷ [];
  command = "rRap";
  given_instruction = [];
}

abbrev ids : Bytes × Bytes
ids = (1 ∷ [], 2 ∷ [])

demo_ids : tee_proxy_id demo_services demo_info ≡ ok ids
unfolding tee_proxy_id
demo_ids = refl

abbrev fresh : Session
fresh = record { history = []; file = none }

abbrev failed : Answer {0} Unit × Session
failed = register_node demo_bindings demo_file demo_registration fresh

register_node-plan_example :
    After
      (loose (Serves demo_bindings demo_registration ids))
      (plan "rRap" (saved_letters demo_file fresh))
      fresh
      failed
register_node-plan_example =
    register_node-plan demo_bindings demo_file demo_registration ids fresh demo_ids

register_node-LeavesOff_example :
    LeavesOff
      (Serves demo_bindings demo_registration ids)
      demo_file
      "rRap"
      (saved_letters demo_file fresh)
      fresh
      failed
register_node-LeavesOff_example =
    register_node-LeavesOff demo_file demo_file-IsReliable demo_bindings demo_registration (1 ∷ [])
      (2 ∷ []) fresh demo_ids

abbrev resumed : Answer {0} Unit × Session
resumed = register_node demo_bindings demo_file demo_registration failed.1

failed_lem : failed ≡ (err "execution reverted", failed.1)
unfolding register_node ◌>>=◌ tee_proxy_id load_state read_state run_steps attest_step contains
    attested first_attestation is_registered pre_registration machine_signature send after_submit
    check_tx registration_logs bytes_eq after_epoch after_poll check_ftdc_proxy_policy_consistency
    compare_policy policy_in_sync poll action_result explain_availability
    get_ftdc_availability_check_result request_ftdc_availability_check to_production
    request_tee_attestation sent_instruction set_bytes signature_of machine_data remove_state
    save_or_warn save_state write_file availability_done availability_step checked_availability
    promotion promotion_step
failed_lem = refl

resumed_lem : resumed ≡ (ok tt, resumed.1)
unfolding register_node ◌>>=◌ tee_proxy_id load_state read_state run_steps attest_step contains
    attested first_attestation is_registered pre_registration machine_signature send after_submit
    check_tx registration_logs bytes_eq after_epoch after_poll check_ftdc_proxy_policy_consistency
    compare_policy policy_in_sync poll action_result explain_availability
    get_ftdc_availability_check_result request_ftdc_availability_check to_production
    request_tee_attestation sent_instruction set_bytes signature_of machine_data remove_state
    save_or_warn save_state write_file availability_done availability_step checked_availability
    promotion promotion_step demo_unmarshal
resumed_lem = refl

resumed_run_completes_example :
    (done : List Step) × (extra : List Step) × (left : List Step) × (plan "rRap"
        (saved_letters demo_file fresh)
      ≡ done ++ left)
    × IsStart extra left
    × Served
        (loose (Serves demo_bindings demo_registration ids))
        (done ++ (extra ++ left))
        fresh
        resumed.1
    × (resumed.1.file ≡ none)
resumed_run_completes_example =
    resumed_run_completes demo_bindings demo_file demo_registration (λ h. refl) ids fresh failed.1
      resumed.1 "execution reverted" demo_file-IsReliable demo_ids failed_lem resumed_lem
