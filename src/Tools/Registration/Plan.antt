-- ===== src/Tools/Registration/Plan.antt =====
-- What a registration sends: the steps that are asked for and not yet saved, in their order.
pub mod Completion
pub mod LeavingOff
pub mod Parts
pub mod Resume
pub mod Run
pub mod Stages
pub mod Steps
use praesidio.Prelude.{
  ℕ, Bytes, Bool, true, false, String, List, [], ◌∷◌, ◌++◌, ◌≡◌, refl, sym, ap, ◌∙◌, ◌⊎◌, inl, inr,
  Option, none, some, if◌then◌else◌, ltb, length, bytes_eq, append-nil, ◌==◌, Bool-cases, subst,
}
use praesidio.Validate.Host.{Answer, ok, err}
use praesidio.Tools.Chain.{GoError, saying}
use praesidio.Tools.Chain.Calls.{Tx, Signature, Proof, Action, pure, ◌>>=◌}
use praesidio.Tools.Chain.Revert.{CustomError, simulate_and_decode_revert}
use praesidio.Tools.Chain.Follows.{
  Follows, Follows-pure, Follows-fail, Follows-lift, Follows-ask, Follows-if, Follows-if_same,
  Follows-bind, Follows-bind_quiet, Follows-bind_last,
}
use praesidio.Tools.Chain.Sending.{Follows-check_tx, Follows-send}
use praesidio.Tools.Chain.Yields.{Yields, Yields-pure, Yields-if, Yields-bind, Follows-bind_known}
use praesidio.Tools.Proxy.{Services}
use praesidio.Tools.Registration.{
  Request, first_attestation, is_registered, attested, attest_step, checked_availability,
  availability_done, availability_step, promotion, promotion_step, run_steps, register_node,
}
use praesidio.Tools.Registration.State.{RegistrationState, StateFile, contains, zero_hash}
use praesidio.Tools.Registration.Machine.{
  Bindings, register_tx, attestation_tx, pre_registration, request_tee_attestation,
  explain_register, simulated_reason,
}
use praesidio.Tools.Registration.Availability.{
  availability_tx, promotion_tx, request_ftdc_availability_check, explain_availability,
  get_ftdc_availability_check_result, to_production,
}

pub data Step : Type 0 where
  pre_register attest check_availability promote : Step

-- A step is wanted if the command names it and the saved letters do not.
abbrev pub wanted : ℕ → Step → String → String → List Step
wanted c k command done =
    if contains c command then (if contains c done then [] else k ∷ []) else []

abbrev pub to_promote : String → List Step
to_promote command = if contains b'p' command then promote ∷ [] else []

-- The steps of a run, from its command and the letters of the saved steps.
abbrev pub plan : String → String → List Step
plan command done =
    wanted b'r' pre_register command done
    ++ (wanted b'R' attest command done
        ++ (wanted b'a' check_availability command done ++ to_promote command))

-- The transactions that do a step of a request.
abbrev pub Serves : Bindings → Request → Bytes × Bytes → Step → Tx → Type 0
Serves b req (tee_id, proxy_id) pre_register tx =
    ((signature : Signature) × (tx ≡ register_tx b req.info signature proxy_id req.host_url))
    ⊎ (tx ≡ attestation_tx b tee_id)
Serves b req (tee_id, proxy_id) attest tx = tx ≡ attestation_tx b tee_id
Serves b req (tee_id, proxy_id) check_availability tx =
    (attest_id : Bytes) × (tx ≡ availability_tx b tee_id req.ftdc_tee attest_id)
Serves b req (tee_id, proxy_id) promote tx = (proof : Proof) × (tx ≡ promotion_tx proof)
