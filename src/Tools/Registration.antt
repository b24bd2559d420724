-- ===== src/Tools/Registration.antt =====
-- The registration of a TEE node: `RegisterNode` of tee/tools/pkg/fccutils/registration.go and the
-- state file that lets it resume.
pub mod Availability
pub mod Diagnosis
pub mod Machine
pub mod Plan
pub mod State
use Prim.Native.String.{◌++◌ as ◌+++◌}
use praesidio.Prelude.{
  ℕ, Bytes, Bool, true, false, not, ◌&&◌, ◌||◌, String, Option, some, none, ◌++◌, [], ◌∷◌,
  replicate, bytes_eq, ◌==◌, if◌then◌else◌,
}
use praesidio.Validate.Host.{Answer, ok, err, zero_address}
use praesidio.Tools.Chain.Calls.{
  History, Session, Action, asked, label, record_call, ask, pure, fail, lift, ◌>>=◌,
}
use praesidio.Tools.Proxy.{SignedTeeInfo, tee_proxy_id, sleep, check_ftdc_proxy_policy_consistency}
use praesidio.Tools.Registration.Machine.{Bindings, pre_registration, request_tee_attestation}
use praesidio.Tools.Registration.Availability.{
  request_ftdc_availability_check, get_ftdc_availability_check_result, to_production,
}
use praesidio.Tools.Registration.State.{
  RegistrationState, StateFile, zero_hash, contains, load_state, save_or_warn, remove_state,
}

-- The arguments of `RegisterNode`.
pub record Request : Type 0 where
  pub info : SignedTeeInfo
  pub host_url : String
  pub ftdc_url : String
  pub ftdc_tee : Bytes
  pub command : String
  -- `HexToHash` of the text given for the instruction
  pub given_instruction : Bytes

-- Whether `GetTeeMachine` found the machine.
unfoldable pub is_registered : Answer Bytes → Bool
is_registered (ok tee_id) = not (bytes_eq tee_id zero_address)
is_registered (err e) = false

-- A machine that is registered is only asked for a new attestation.
unfoldable pub first_attestation : Bindings → Request → Bytes → Bytes → Action Bytes
first_attestation b req tee_id proxy_id = do
  found ← ask "GetTeeMachine" (λ h. b.get_tee_machine h tee_id)
  if is_registered found then request_tee_attestation b tee_id else (do
    registered ← pre_registration b req.host_url tee_id proxy_id req.info
    pure registered.1)

-- A step of the attestation, with the state and the identifier so far: it is skipped if the state
-- has its letter, and otherwise done and saved.
unfoldable pub attested :
    StateFile → ℕ → String → Action Bytes → RegistrationState → Action (RegistrationState × Bytes)
attested f c letter act st =
    if contains c st.completed_steps then pure (st, st.tee_attest_instruction_id) else (do
      id ← act
      let st1 : RegistrationState = record st {
        completed_steps = st.completed_steps +++ letter;
        tee_attest_instruction_id = id;
      }
      _ ← save_or_warn f st1
      pure (st1, id))

unfoldable pub attest_step :
    StateFile
    → String
    → ℕ
    → String
    → Action Bytes
    → RegistrationState × Bytes
    → Action (RegistrationState × Bytes)
attest_step f command c letter act (st, id) =
    if contains c command
    then (do done ← attested f c letter act st; _ ← sleep; pure done)
    else pure (st, id)

-- The availability check, behind the check of the policy.
unfoldable pub checked_availability : Bindings → Request → Bytes → Bytes → Action Bytes
checked_availability b req tee_id attest_id = do
  _ ← check_ftdc_proxy_policy_consistency b.services req.ftdc_url
  request_ftdc_availability_check b tee_id req.ftdc_tee attest_id

unfoldable pub availability_done :
    StateFile → Action Bytes → RegistrationState → Action (RegistrationState × Bytes)
availability_done f act st =
    if contains b'a' st.completed_steps then pure (st, st.instruction_id) else (do
      id ← act
      let st1 : RegistrationState = record st {
        completed_steps = st.completed_steps +++ "a";
        instruction_id = id;
      }
      _ ← save_or_warn f st1
      pure (st1, id))

unfoldable pub availability_step :
    Bindings
    → StateFile
    → Request
    → Bytes
    → RegistrationState × Bytes
    → Action (RegistrationState × Bytes)
availability_step b f req tee_id (st, attest_id) =
    if contains b'a' req.command
    then (do
      done ← availability_done f (checked_availability b req tee_id attest_id) st
      _ ← sleep
      pure done)
    else pure (st, req.given_instruction)

unfoldable pub promotion : Bindings → Request → Bytes → Action {0} Unit
promotion b req instruction_id = do
  proof ← get_ftdc_availability_check_result b req.ftdc_url instruction_id
  to_production b proof

unfoldable pub promotion_step : Bindings → Request → Bytes → Action {0} Unit
promotion_step b req instruction_id =
    if contains b'p' req.command then promotion b req instruction_id else pure tt

-- The steps, from a loaded state on.
unfoldable pub run_steps :
    Bindings → StateFile → Request → Bytes × Bytes → RegistrationState → Action {0} Unit
run_steps b f req (tee_id, proxy_id) st = do
  first ←
      attest_step f req.command b'r' "r" (first_attestation b req tee_id proxy_id) (st, zero_hash)
  second ← attest_step f req.command b'R' "R" (request_tee_attestation b tee_id) first
  third ← availability_step b f req tee_id second
  _ ← promotion_step b req third.1
  remove_state f

-- `RegisterNode`
unfoldable pub register_node : Bindings → StateFile → Request → Action {0} Unit
register_node b f req = do
  ids ← lift (tee_proxy_id b.services req.info)
  st ← load_state f
  run_steps b f req ids st
