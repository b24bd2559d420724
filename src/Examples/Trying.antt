-- ===== src/Examples/Trying.antt =====
-- A trial of an extension, a version that is packed, a revert that is named and a file of
-- addresses, in sample worlds.
use Prim.Native.String.{◌++◌ as ◌+++◌}
use praesidio.Prelude.{Bytes, true, some, none, List, [], ◌∷◌, ◌≡◌, refl, arith}
use praesidio.Prelude.Decimal.{pos}
use praesidio.Validate.Host.{ok, err}
use praesidio.Tools.Chain.Calls.{Session}
use praesidio.Tools.Instructions.{Senders}
use praesidio.Tools.Instructions.Trial.{run_test}
use praesidio.Tools.Instructions.Trial.Sent.{TrialSent, run_test-TrialSent}
use praesidio.Tools.Version.{string_to_bytes32}
use praesidio.Tools.Version.ReadBack.{ReadsBack, string_to_bytes32-ReadsBack}
use praesidio.Prelude.Text.{codes, hex_encode}
use praesidio.Tools.Chain.{returned}
use praesidio.Tools.Chain.Revert.{
  CustomError, match_custom_error, simulation_text, decode_revert_reason,
}
use praesidio.Tools.Chain.Revert.Naming.{simulated_revert-Names}
use praesidio.Tools.Chain.Revert.Selectors.{Names}
use praesidio.Tools.Support.{RawContract, Environment, no_addresses, parse_addresses}
use praesidio.Tools.Support.Addressing.{last_entries, parse_addresses-last_entries}
use praesidio.Examples.Registering.{demo_node, demo_services}

abbrev pub demo_senders : Senders
demo_senders = record {
  services = demo_services;
  prv = 6 ∷ [];
  flare_tee_manager = 30 ∷ [];
  bind_sender = λ address. ok tt;
  packs = λ m. true;
  created_by = λ hash. hash;
  parse_tee_instructions_sent = λ log. ok log;
  decode_greeting = λ bytes. ok ("Hello", pos 1);
  decode_farewell = λ bytes. ok ("Goodbye", pos 1);
}

abbrev pub empty_session : Session
empty_session = record { history = []; file = none }

run_test-TrialSent_example :
    TrialSent
      (31 ∷ [])
      (123 ∷ 125 ∷ [])
      empty_session
      (run_test demo_senders "http://localhost:6662" (31 ∷ []) (123 ∷ 125 ∷ []) empty_session)
run_test-TrialSent_example =
    run_test-TrialSent demo_senders "http://localhost:6662" (31 ∷ []) (123 ∷ 125 ∷ []) empty_session

string_to_bytes32-ReadsBack_example :
    ReadsBack
      (λ b. "v0.1")
      (118 ∷ 48 ∷ 46 ∷ 49 ∷ [])
      (string_to_bytes32 (λ b. "v0.1") (118 ∷ 48 ∷ 46 ∷ 49 ∷ []))
string_to_bytes32-ReadsBack_example =
    string_to_bytes32-ReadsBack (λ b. "v0.1") (λ b. "v0.1") (118 ∷ 48 ∷ 46 ∷ 49 ∷ [])
      (omega arith, (omega arith, (omega arith, (omega arith, tt))))

abbrev custom_data : Bytes
custom_data = 0xab ∷ 0xcd ∷ 0xef ∷ 0x12 ∷ []

abbrev custom_errors : List CustomError
custom_errors =
    record {
      name = "ChallengeExpired";
      id = custom_data;
      arguments = λ b. none;
      inputs = λ b. none;
    }
    ∷ []

simulated_revert-Names_example :
    Names custom_errors custom_data
      (match_custom_error custom_errors (simulation_text demo_node (returned custom_data)))
    × Names custom_errors custom_data (
        match_custom_error custom_errors (
          decode_revert_reason demo_node
            (record { text = "reverted"; error_data = some ("0x" +++ hex_encode custom_data) })))
simulated_revert-Names_example =
    simulated_revert-Names demo_node custom_errors custom_data
      (omega arith, (omega arith, (omega arith, (omega arith, tt)))) (omega arith) refl "reverted"

-- A name that stands twice, and one that no field has.
abbrev entries : List RawContract
entries =
    record { name = "Fdc2Hub"; address = "0x01" }
    ∷ record { name = "Relay"; address = "0x02" }
    ∷ record { name = "Fdc2Hub"; address = "0x03" }
    ∷ []

abbrev pub demo_environment : Environment
demo_environment = record {
  read_file = λ path. ok [];
  decode_contracts = λ file. ok entries;
  read_addresses = λ path. err "unknown format";
  hex_to_address = codes;
  hex_to_ecdsa = λ text. ok [];
  dev_key = [];
  getenv = λ name. "";
}

parse_addresses-last_entries_example :
    parse_addresses demo_environment "addresses.json"
    ≡ ok (last_entries demo_environment entries no_addresses)
parse_addresses-last_entries_example =
    parse_addresses-last_entries demo_environment "addresses.json" [] entries refl refl
