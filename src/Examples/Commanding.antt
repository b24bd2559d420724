-- ===== src/Examples/Commanding.antt =====
-- The commands that deploy and register, with the chain of the other examples.
use praesidio.Prelude.{
  Bytes, false, true, [], ◌∷◌, ◌≡◌, refl, arith, bytes_eq, subst, ap, ℕ, ◌<◌, ◌^◌, some,
}
use praesidio.Validate.Host.{Client, Answer, ok, err}
use praesidio.Tools.Chain.Calls.{Session}
use praesidio.Tools.Support.{
  Addresses, Environment, Dialer, Support, support_addresses, default_private_key, new_support,
  default_support,
}
use praesidio.Tools.Command.Deploying.{DeployFlags, Deployer, deploy_contract}
use praesidio.Tools.Command.Deploying.Preflight.{Run, deployable, deploy_contract-Run}
use praesidio.Tools.Command.NewExtension.{Registrar, registries_of, register_new_extension}
use praesidio.Tools.Command.NewExtension.ReadBack.{Printed, register_new_extension-Printed}
use praesidio.Tools.Command.RegisterTee.{RegisterFlags, Tools}
use praesidio.Examples.StateFiles.{demo_file}
use praesidio.Examples.Registering.{demo_bindings}
use praesidio.Examples.Deploying.{demo_registries}
use praesidio.Examples.Verifying.{machine}
use praesidio.Examples.Trying.{demo_senders, demo_environment, empty_session}

abbrev demo_client : Client
demo_client = record {
  code_at = λ a. ok (96 ∷ []);
  balance_at = λ a. ok 20000000000000000;
  chain_id = ok 114;
}

abbrev demo_dialer : Dialer
demo_dialer = record { dial = λ url. ok demo_client; bind_contract = λ client name a. ok tt }

abbrev demo_addresses : Addresses
demo_addresses = record {
  flare_system_manager = 41 ∷ [];
  fdc2_hub = 42 ∷ [];
  flare_tee_manager = 43 ∷ [];
}

abbrev environment : Environment
environment = record demo_environment { read_addresses = λ path. ok demo_addresses }

abbrev demo_support : Support
demo_support = record {
  prv = [];
  flare_system_manager = 41 ∷ [];
  fdc2_hub = 42 ∷ [];
  tee_machine_registry = 43 ∷ [];
  tee_wallet_project_manager = 43 ∷ [];
  tee_wallet_manager = 43 ∷ [];
  tee_wallet_key_manager = 43 ∷ [];
  tee_verification = 43 ∷ [];
  tee_extension_registry = 43 ∷ [];
  tee_extension_governance = 43 ∷ [];
  tee_owner_allowlist = 43 ∷ [];
  addresses = demo_addresses;
  chain_client = demo_client;
  chain_id = 114;
}

supported :
    default_support environment demo_dialer "addresses.json" "http://localhost:8545"
    ≡ ok demo_support
unfolding default_support support_addresses default_private_key new_support
supported = refl

abbrev demo_deployer : Deployer
demo_deployer = record {
  host = machine;
  environment = environment;
  dialer = demo_dialer;
  senders = demo_senders;
  public_of = λ prv. prv;
}

abbrev flags : DeployFlags
flags = record {
  addresses_file = "addresses.json";
  chain_url = "http://localhost:8545";
  out_file = "";
  preflight_only = false;
}

deploy_contract-Run_example :
    Run demo_deployer flags
      (default_support environment demo_dialer "addresses.json" "http://localhost:8545")
      empty_session
      (deploy_contract demo_deployer flags empty_session)
deploy_contract-Run_example = deploy_contract-Run demo_deployer flags empty_session

-- The run of the example may deploy.
demo_deployable : deployable demo_deployer demo_support ≡ true
unfolding bytes_eq
demo_deployable = refl

abbrev demo_registrar : Registrar
demo_registrar = record {
  host = machine;
  environment = environment;
  dialer = demo_dialer;
  registries = demo_registries;
}

abbrev value_of : Answer ℕ → ℕ
value_of (ok n) = n
value_of (err e) = 0

ten_fits :
    (log : Bytes) (id : ℕ) → demo_registries.parse_extension_registered log ≡ ok id → id < 2 ^ 256
ten_fits log id e = subst (λ n. n < 2 ^ 256) (ap value_of e) (omega arith)

register_new_extension-Printed_example :
    Printed
      (registries_of demo_registrar demo_support)
      (machine.hex_to_address "0x31")
      empty_session
      (register_new_extension demo_registrar "addresses.json" "http://localhost:8545" "0x31"
        empty_session)
register_new_extension-Printed_example =
    register_new_extension-Printed demo_registrar demo_support "addresses.json"
      "http://localhost:8545" "0x31" empty_session ten_fits supported

abbrev demo_tools : Tools
demo_tools = record {
  environment = environment;
  dialer = demo_dialer;
  bindings = demo_bindings;
  claims = record {
    parse_token = λ token. ok [];
    code_hash = λ claims. ok (10 ∷ []);
    platform = λ claims. ok (11 ∷ []);
  };
  state_file = demo_file;
}

abbrev register_flags : RegisterFlags
register_flags = record {
  addresses_file = "addresses.json";
  chain_url = "http://localhost:8545";
  proxy_url = "http://localhost:6664";
  host_url = "";
  external_proxy_url = "http://localhost:6662";
  instruction = [];
  command = "rRap";
  resume = false;
}

-- A file that an earlier run has left.
abbrev stale : Session
stale = record { history = []; file = some "rR" }
