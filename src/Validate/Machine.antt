-- ===== src/Validate/Machine.antt =====
-- `RegisterTeeMachineChecks`, `RegisterTestChecks` and `RegisterStubChecks` of
-- tee/tools/pkg/validate/checks.go.
use Prim.Native.String.{String, ◌++◌ as ◌+++◌}
use praesidio.Prelude.{Bool, ◌&&◌, [], ◌∷◌, str_eq, if◌then◌else◌}
use praesidio.Validate.Report.{pass, warn, fail, skip, CheckResult, Report, add}
use praesidio.Validate.Host.{Host}
use praesidio.Validate.EnvFile.{parse_extension_env, is_address}
use praesidio.Validate.Deploy.{check, add_all}
use praesidio.Validate.Services.{reachable}

-- T1
unfoldable pub simulated_check : Host → CheckResult
simulated_check h =
    let simulated = str_eq (h.getenv "SIMULATED_TEE") "true" in
    if simulated && str_eq (h.getenv "LOCAL_MODE") "false"
    then check "tee-machine" "T1" "SIMULATED_TEE mode" warn
        "SIMULATED_TEE=true on non-local deployment — machine will be registered with test attestation values. Set SIMULATED_TEE=false for real TEE hardware"
        "Set SIMULATED_TEE=false in .env when deploying to a real GCP TEE"
    else if simulated
    then check "tee-machine" "T1" "SIMULATED_TEE mode" pass "simulated TEE mode (local)" ""
    else check "tee-machine" "T1" "SIMULATED_TEE mode" pass "real attestation mode" ""

-- T5
unfoldable pub normal_proxy_check : Host → CheckResult
normal_proxy_check h =
    let url = h.getenv "NORMAL_PROXY_URL" in
    if str_eq url ""
    then check "tee-machine" "T5" "NORMAL_PROXY_URL reachable" skip "NORMAL_PROXY_URL not set" ""
    else if reachable h url
    then check "tee-machine" "T5" "NORMAL_PROXY_URL reachable" pass
        ("normal proxy reachable at " +++ url) ""
    else check "tee-machine" "T5" "NORMAL_PROXY_URL reachable" warn
        ("normal proxy not reachable at " +++ url +++ " — required for FTDC availability check")
        "Ensure the normal/FTDC proxy is running and NORMAL_PROXY_URL is correct in .env"

-- T10
unfoldable pub host_url_check : Host → CheckResult
host_url_check h =
    let url = h.getenv "EXT_PROXY_URL" in
    if str_eq url ""
    then check "tee-machine" "T10" "host URL reachable" skip "EXT_PROXY_URL not set" ""
    else if reachable h url
    then check "tee-machine" "T10" "host URL reachable" pass ("host URL reachable at " +++ url) ""
    else check "tee-machine" "T10" "host URL reachable" warn
        ("host URL not reachable at " +++ url
          +++ " — machine will be registered with unreachable host. Data providers can't relay instructions")
        "Ensure the host is accessible and EXT_PROXY_URL or -h flag points to the right URL"

-- `RegisterTeeMachineChecks`
unfoldable pub register_tee_machine_checks : Host → Report → String → Report
register_tee_machine_checks h r path =
    add_all r (simulated_check h ∷ normal_proxy_check h ∷ host_url_check h ∷ [])

-- E1, of the sender that was read
unfoldable pub test_sender_result : Bool → String → CheckResult
test_sender_result is_missing instr_sender =
    if is_missing
    then check "test" "E1" "INSTRUCTION_SENDER valid" skip
        "extension.env not found — run pre-build.sh first" ""
    else if str_eq instr_sender ""
    then check "test" "E1" "INSTRUCTION_SENDER valid" fail
        "INSTRUCTION_SENDER not set — run pre-build.sh"
        "Run scripts/pre-build.sh to deploy and register the extension"
    else if is_address instr_sender
    then check "test" "E1" "INSTRUCTION_SENDER valid" pass instr_sender ""
    else check "test" "E1" "INSTRUCTION_SENDER valid" fail "INSTRUCTION_SENDER malformed"
        "Delete config/extension.env and re-run scripts/pre-build.sh"

-- E1
unfoldable pub test_sender_check : Host → String → CheckResult
test_sender_check h path =
    if str_eq path ""
    then check "test" "E1" "INSTRUCTION_SENDER valid" skip "no --config provided" ""
    else test_sender_result (h.is_missing path)
        (parse_extension_env (h.lines_of path)).instruction_sender

-- E3
unfoldable pub test_proxy_check : Host → CheckResult
test_proxy_check h =
    let url = h.getenv "EXT_PROXY_URL" in
    if str_eq url ""
    then check "test" "E3" "proxy reachable for test results" skip "EXT_PROXY_URL not set" ""
    else if reachable h url
    then check "test" "E3" "proxy reachable for test results" pass
        "proxy reachable for test result polling" ""
    else check "test" "E3" "proxy reachable for test results" warn
        "proxy not reachable — test results cannot be polled"
        "Start the proxy or check EXT_PROXY_URL"

-- E6
abbrev pub alignment_info : CheckResult
alignment_info =
    check "test" "E6" "OPType/OPCommand alignment info" pass
      "OPType/OPCommand hashes are validated at runtime — if a 501 error occurs, check the hash values in the error message"
      ""

-- `RegisterTestChecks`
unfoldable pub register_test_checks : Host → Report → String → Report
register_test_checks h r path =
    add_all r (test_sender_check h path ∷ test_proxy_check h ∷ alignment_info ∷ [])

-- `RegisterStubChecks`
unfoldable pub register_stub_checks : Report → String → String → String → Report
register_stub_checks r step id_range name =
    add r (check step id_range name skip "not yet implemented" "")
