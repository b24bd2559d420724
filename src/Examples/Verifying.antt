-- ===== src/Examples/Verifying.antt =====
-- The deployment checks at a small configuration file.
use Prim.Native.String.{String}
use praesidio.Prelude.{
  map, Bool, ℕ, ◌+◌, ◌≤◌, ◌↔◌, ◌≡◌, refl, true, false, Bytes, List, [], ◌∷◌, Option, some, length,
  replicate, if◌then◌else◌, ◌==◌,
}
use praesidio.Validate.Report.{pass, fail, status_eq, Report, has_failures, counts}
use praesidio.Validate.Report.Totals.{count, counts_lem}
use praesidio.Validate.Report.{sections, CheckResult}
use praesidio.Validate.Report.Grouping.{Distinct, printed, sections_hold_all}
use praesidio.Validate.Host.{Host, Answer, ok, err}
use praesidio.Validate.EnvFile.{parse_extension_env, read_vars, get_var, is_extension_id}
use praesidio.Validate.EnvFile.Agreement.{or_empty, parse_agrees}
use praesidio.Validate.Deploy.{check, format_check}
use praesidio.Validate.Services.{
  services_id_check, version_id_check, register_services_checks, register_tee_version_checks,
}
use praesidio.Validate.Machine.{register_tee_machine_checks, register_test_checks}
use praesidio.Validate.Steps.{Adds, steps_add}
use praesidio.Validate.Services.IdAgreement.{passes, id_checks_agree}
use praesidio.Validate.Command.{finish}
use praesidio.Validate.Command.ExitStatus.{is_shown_failure, Some, exit_status}

abbrev lines : List String
lines = "# config" ∷ "EXTENSION_ID = 0x12" ∷ "INSTRUCTION_SENDER=" ∷ []

abbrev pub machine : Host
machine = record {
  getenv = λ name. "";
  lines_of = λ path. some lines;
  is_missing = λ path. false;
  http_get = λ url. some 200;
  dial_local = λ port. false;
  quote = λ s. s;
  address_hex = λ a. "0xaddress";
  hex_to_address = λ s. replicate 20 1;
  pubkey_to_address = λ k. replicate 20 2;
  evm_type = replicate 32 3;
}

abbrev two_results : Report
two_results =
    check "deploy" "D3" "FlareTeeManager address not zero" fail "it is zero" "redeploy"
    ∷ check "services" "S5" "extension port not in use" pass "port available" ""
    ∷ []

abbrev sender_of : ℕ → Answer Bytes
sender_of i = if i == 2 then err "timeout" else ok (replicate 20 1)

abbrev addresses : List (String × Bytes)
addresses = ("FlareTeeManager", replicate 20 0) ∷ []

parse_agrees_example :
    ((parse_extension_env (some lines)).extension_id
      ≡ or_empty (get_var (read_vars [] lines) "EXTENSION_ID"))
    × ((parse_extension_env (some lines)).instruction_sender
        ≡ or_empty (get_var (read_vars [] lines) "INSTRUCTION_SENDER"))
parse_agrees_example = parse_agrees lines

abbrev wanted : Option String
wanted = get_var (read_vars [] lines) "EXTENSION_ID"

id_checks_agree_example :
    (passes (services_id_check machine "extension.env")
      ≡ passes (format_check machine is_extension_id "EXTENSION_ID" wanted))
    × (passes (version_id_check machine "extension.env")
        ≡ passes (format_check machine is_extension_id "EXTENSION_ID" wanted))
    × (passes (services_id_check machine "extension.env") ≡ is_extension_id (or_empty wanted))
id_checks_agree_example = id_checks_agree machine "extension.env" lines refl refl

counts_lem_example :
    ((counts two_results).passed
        + (counts two_results).warning
        + (counts two_results).failed
        + (counts two_results).skipped
      ≡ length two_results)
    × ((counts two_results).passed ≡ count (λ res. status_eq res.status pass) two_results)
    × ((counts two_results).failed ≡ count (λ res. status_eq res.status fail) two_results)
    × ((has_failures two_results ≡ true) ↔ (1 ≤ (counts two_results).failed))
counts_lem_example = counts_lem two_results

exit_status_example :
    ((finish "D5, D3" (some two_results)).1 ≡ 1) ↔ Some (is_shown_failure "D5, D3") two_results
exit_status_example = exit_status "D5, D3" two_results

sections_hold_all_example :
    Distinct (map (λ (s : String × Report). s.0) (sections two_results))
    × ((q : CheckResult → Bool) → count q (printed (sections two_results)) ≡ count q two_results)
sections_hold_all_example = sections_hold_all two_results

steps_add_example :
    Adds "services"
      ("S2" ∷ "S5" ∷ "S7" ∷ "S9" ∷ "S10" ∷ [])
      two_results
      (register_services_checks machine two_results "extension.env")
    × Adds "tee-version"
        ("V2" ∷ "V4" ∷ "V6" ∷ [])
        two_results
        (register_tee_version_checks machine two_results "extension.env")
    × Adds "tee-machine"
        ("T1" ∷ "T5" ∷ "T10" ∷ [])
        two_results
        (register_tee_machine_checks machine two_results "extension.env")
    × Adds "test"
        ("E1" ∷ "E3" ∷ "E6" ∷ [])
        two_results
        (register_test_checks machine two_results "extension.env")
steps_add_example = steps_add machine two_results "extension.env"
