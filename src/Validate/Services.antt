-- ===== src/Validate/Services.antt =====
-- `RegisterServicesChecks` and `RegisterTeeVersionChecks` of tee/tools/pkg/validate/checks.go.
pub mod IdAgreement
use Prim.Native.String.{String, ◌++◌ as ◌+++◌}
use praesidio.Prelude.{
  ℕ, Bool, true, false, not, ◌&&◌, ◌||◌, List, [], ◌∷◌, ◌++◌, Option, none, some, str_eq, ◌==◌,
  if◌then◌else◌,
}
use praesidio.Validate.Report.{Status, pass, warn, fail, skip, CheckResult, Report, add}
use praesidio.Validate.Host.{Host}
use praesidio.Validate.EnvFile.{ExtensionEnv, parse_extension_env, is_extension_id}
use praesidio.Validate.Deploy.{check, add_all}

-- `http.StatusOK`
unfoldable pub is_ok_status : Option ℕ → Bool
is_ok_status none = false
is_ok_status (some code) = code == 200

-- `httpClient.Get(url + "/info")` and the test of what it returns.
unfoldable pub reachable : Host → String → Bool
reachable h url = is_ok_status (h.http_get (url +++ "/info"))

-- S2, of the id that was read
unfoldable pub id_result : Host → String → CheckResult
id_result h ext_id =
    if str_eq ext_id ""
    then check "services" "S2" "EXTENSION_ID is set and well-formed" fail
        "EXTENSION_ID is empty or not found in extension.env"
        "Delete config/extension.env and re-run scripts/pre-build.sh"
    else if is_extension_id ext_id
    then check "services" "S2" "EXTENSION_ID is set and well-formed" pass ext_id ""
    else check "services" "S2" "EXTENSION_ID is set and well-formed" fail
        ("EXTENSION_ID has invalid format: " +++ h.quote ext_id)
        "Delete config/extension.env and re-run scripts/pre-build.sh"

-- S2
unfoldable pub services_id_check : Host → String → CheckResult
services_id_check h path =
    if str_eq path ""
    then check "services" "S2" "EXTENSION_ID is set and well-formed" skip "run pre-build.sh first"
        ""
    else id_result h (parse_extension_env (h.lines_of path)).extension_id

unfoldable pub or_default : String → String → String
or_default value default = if str_eq value "" then default else value

-- S5
unfoldable pub port_check : Host → CheckResult
port_check h =
    let port = or_default (h.getenv "EXTENSION_PORT") "7702" in
    if h.dial_local port
    then check "services" "S5" "extension port not in use" warn
        ("port " +++ port +++ " is already in use — extension server will fail to bind")
        "Stop the process using that port or change EXTENSION_PORT"
    else check "services" "S5" "extension port not in use" pass "port available" ""

-- S7
unfoldable pub port_configuration : Host → CheckResult
port_configuration h =
    let ext_port = h.getenv "EXTENSION_PORT" in
    let sign_port = h.getenv "SIGN_PORT" in
    if not (str_eq ext_port "") || not (str_eq sign_port "")
    then check "services" "S7" "port configuration" pass
        ("EXTENSION_PORT=" +++ ext_port +++ ", SIGN_PORT=" +++ sign_port) ""
    else check "services" "S7" "port configuration" pass
        "using defaults (standalone: 8080/9090, Docker: 7702/7701)" ""

-- S9
unfoldable pub proxy_check : Host → CheckResult
proxy_check h =
    let url = h.getenv "EXT_PROXY_URL" in
    if str_eq url ""
    then check "services" "S9" "EXT_PROXY_URL reachable" skip "EXT_PROXY_URL not set" ""
    else if reachable h url
    then check "services" "S9" "EXT_PROXY_URL reachable" pass ("proxy reachable at " +++ url) ""
    else check "services" "S9" "EXT_PROXY_URL reachable" warn
        ("proxy not reachable at " +++ url +++ " — is the proxy running?")
        "Start the proxy or check EXT_PROXY_URL"

-- S10
unfoldable pub proxy_key_check : Host → CheckResult
proxy_key_check h =
    let local_mode = h.getenv "LOCAL_MODE" in
    if str_eq local_mode "true" || str_eq local_mode ""
    then check "services" "S10" "PROXY_PRIVATE_KEY set on non-local" pass "local mode, dev key OK"
        ""
    else if str_eq local_mode "false" && str_eq (h.getenv "PROXY_PRIVATE_KEY") ""
    then check "services" "S10" "PROXY_PRIVATE_KEY set on non-local" warn
        "PROXY_PRIVATE_KEY not set in non-local mode — proxy will use default key"
        "Set PROXY_PRIVATE_KEY in .env for non-local deployments"
    else check "services" "S10" "PROXY_PRIVATE_KEY set on non-local" pass
        "PROXY_PRIVATE_KEY is configured" ""

-- `RegisterServicesChecks`
unfoldable pub register_services_checks : Host → Report → String → Report
register_services_checks h r path = add_all r (
    services_id_check h path
    ∷ port_check h
    ∷ port_configuration h
    ∷ proxy_check h
    ∷ proxy_key_check h
    ∷ [])

-- V2
unfoldable pub owner_key_check : Host → CheckResult
owner_key_check h =
    let local_mode = h.getenv "LOCAL_MODE" in
    if not (str_eq (h.getenv "EXTENSION_OWNER_KEY") "")
    then check "tee-version" "V2" "extension owner key" pass "EXTENSION_OWNER_KEY is configured" ""
    else if not (str_eq (h.getenv "DEPLOYMENT_PRIVATE_KEY") "")
    then check "tee-version" "V2" "extension owner key" pass
        "using DEPLOYMENT_PRIVATE_KEY (EXTENSION_OWNER_KEY not set)" ""
    else if not (str_eq local_mode "true") && not (str_eq local_mode "")
    then check "tee-version" "V2" "extension owner key" warn
        "neither EXTENSION_OWNER_KEY nor DEPLOYMENT_PRIVATE_KEY set — AddTeeVersion will use dev key which isn't the extension owner on Coston2"
        "Set EXTENSION_OWNER_KEY or DEPLOYMENT_PRIVATE_KEY in .env"
    else check "tee-version" "V2" "extension owner key" pass "using dev key (local mode)" ""

-- V4, of the id that was read
unfoldable pub version_id_result : Bool → String → CheckResult
version_id_result is_missing ext_id =
    if str_eq ext_id ""
    then (if is_missing
        then check "tee-version" "V4" "EXTENSION_ID valid" skip
            "extension.env not found — run pre-build.sh first" ""
        else check "tee-version" "V4" "EXTENSION_ID valid" fail "EXTENSION_ID not set"
            "Delete config/extension.env and re-run scripts/pre-build.sh")
    else if is_extension_id ext_id
    then check "tee-version" "V4" "EXTENSION_ID valid" pass ext_id ""
    else check "tee-version" "V4" "EXTENSION_ID valid" fail "EXTENSION_ID malformed"
        "Delete config/extension.env and re-run scripts/pre-build.sh"

-- V4
unfoldable pub version_id_check : Host → String → CheckResult
version_id_check h path =
    if str_eq path ""
    then check "tee-version" "V4" "EXTENSION_ID valid" skip "no --config provided" ""
    else version_id_result (h.is_missing path) (parse_extension_env (h.lines_of path)).extension_id

-- V6
unfoldable pub version_proxy_check : Host → CheckResult
version_proxy_check h =
    let url = h.getenv "EXT_PROXY_URL" in
    if str_eq url ""
    then check "tee-version" "V6" "proxy reachable" skip
        "EXT_PROXY_URL not set — allow-tee-version uses -p flag" ""
    else if reachable h url
    then check "tee-version" "V6" "proxy reachable" pass ("proxy reachable at " +++ url) ""
    else check "tee-version" "V6" "proxy reachable" warn
        ("proxy not reachable at " +++ url +++ " — start services first")
        "Start the proxy or check EXT_PROXY_URL"

-- `RegisterTeeVersionChecks`
unfoldable pub register_tee_version_checks : Host → Report → String → Report
register_tee_version_checks h r path =
    add_all r (owner_key_check h ∷ version_id_check h path ∷ version_proxy_check h ∷ [])
