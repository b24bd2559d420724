-- ===== src/Examples/Deploying.antt =====
-- The set-up of an extension, its governance and the polling of a result in sample worlds.
use praesidio.Prelude.{
  ℕ, zero, suc, ◌<◌, Bytes, true, false, String, List, [], ◌∷◌, ◌++◌, none, ◌≡◌, refl, ltb, length,
  arith, if◌then◌else◌,
}
use praesidio.Validate.Host.{Answer, ok, err}
use praesidio.Tools.Chain.{send, after_submit, check_tx}
use praesidio.Tools.Chain.Calls.{Session, asked, ◌>>=◌, relabel}
use praesidio.Tools.Proxy.{
  Services, no_reply, reply, is_status_ok, result_url, action_result, repeats,
}
use praesidio.Tools.Proxy.Polling.{waited, action_result_in_time, action_result_too_late}
use praesidio.Tools.Extension.{
  Registries, setup_extension, register_extension, registered_id, set_permissions, ensure,
  half_done, allow_tee_machine_owners, allow_tee_project_manager_owners, add_supported_key_types,
}
use praesidio.Tools.Extension.Permissions.{SetUp, setup_extension-SetUp}
use praesidio.Tools.Governance.{Ledger, parse_signers, parse_threshold}
use praesidio.Examples.Registering.{demo_node, demo_services}

abbrev new_session : Session
new_session = record { history = []; file = none }

-- A result that is there from the third round on.
abbrev slow : Services
slow = record demo_services {
  get = λ h url. if ltb (length h) 4 then reply 404 [] else reply 200 (7 ∷ []);
}

slow_early :
    (j : ℕ)
    → j < 2
    → is_status_ok (slow.get (waited j []) (result_url slow "http://localhost:6662" (1 ∷ [])))
      ≡ false
slow_early zero h = refl
slow_early (suc zero) h = refl
slow_early (suc (suc j)) h = elim (not_early j h) [ ]
  where
    not_early : (j : ℕ) → suc (suc j) < 2 → ⊥
    not_early j h = omega arith

action_result_in_time_example : action_result slow "http://localhost:6662" (1 ∷ []) new_session ≡ (
  slow.decode_action (7 ∷ []),
  record new_session { history = waited 2 [] ++ asked "GET /action/result" ∷ [] },
)
action_result_in_time_example =
    action_result_in_time slow "http://localhost:6662" (1 ∷ []) new_session 2 (7 ∷ []) (omega arith)
      slow_early refl

abbrev silent : Services
silent = record demo_services { get = λ h url. no_reply "connection refused" }

action_result_too_late_example :
    (text : String) × (action_result silent "http://localhost:6662" (1 ∷ []) new_session
      ≡ (err text, record new_session { history = waited repeats [] }))
action_result_too_late_example =
    action_result_too_late silent "http://localhost:6662" (1 ∷ []) new_session (λ j h. refl)

-- The deployer owns machines already, and nothing else is set.
abbrev pub demo_registries : Registries
demo_registries = record {
  node = demo_node;
  prv = 6 ∷ [];
  is_allowed_machine_owner = λ h id owner. ok true;
  is_allowed_project_owner = λ h id owner. ok false;
  is_key_type_supported = λ h id key. ok false;
  parse_extension_registered = λ log. ok 10;
  parse_contracts_set = λ log. ok tt;
  parse_machine_owners_added = λ log. ok tt;
  parse_project_owners_added = λ log. ok tt;
  evm_type = 69 ∷ 86 ∷ 77 ∷ [];
}

abbrev set_up : Answer ℕ × Session
set_up = setup_extension demo_registries (20 ∷ []) (21 ∷ []) new_session

set_up_lem : set_up ≡ (ok 10, set_up.1)
unfolding setup_extension ◌>>=◌ register_extension registered_id set_permissions ensure half_done
    relabel allow_tee_machine_owners allow_tee_project_manager_owners add_supported_key_types send
    after_submit check_tx
set_up_lem = refl

setup_extension-SetUp_example : SetUp demo_registries (20 ∷ []) (21 ∷ []) new_session 10 set_up.1
setup_extension-SetUp_example =
    setup_extension-SetUp demo_registries (20 ∷ []) (21 ∷ []) 10 new_session set_up.1 set_up_lem

abbrev demo_ledger : Ledger
demo_ledger = record {
  node = demo_node;
  get_latest_hash = λ h id. ok (0 ∷ []);
  governance_hash = λ signers threshold. ok (threshold ∷ []);
  hex_to_address = λ text. 1 ∷ [];
}

abbrev two_signers : List Bytes
two_signers = parse_signers demo_ledger "0x01, 0x02" (6 ∷ [])

abbrev two_needed : ℕ
two_needed = parse_threshold " 2 "
