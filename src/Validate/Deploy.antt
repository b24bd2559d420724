-- ===== src/Validate/Deploy.antt =====
-- The checks of the first step, in tee/tools/pkg/validate/checks.go. The source walks a Go map twice,
-- each time in some order of its own; the orders are two lists here.
use Prim.Native.String.{String, ◌++◌ as ◌+++◌}
use praesidio.Prelude.{
  ℕ, Bool, ◌||◌, Bytes, List, [], ◌∷◌, ◌++◌, Option, none, some, str_eq, ◌==◌, if◌then◌else◌,
}
use praesidio.Prelude.Decimal.{decimal}
use praesidio.Validate.Report.{Status, pass, warn, fail, skip, CheckResult, Report, add, elem}
use praesidio.Validate.Host.{
  Host, Client, Answer, ok, err, min_deploy_balance, address_not_zero, address_has_code,
  key_has_funds,
}
use praesidio.Validate.EnvFile.{read_vars, get_var, is_address, is_extension_id}

-- A result as the source writes it down: step, id, name, status, message, fix.
abbrev pub check : String → String → String → Status → String → String → CheckResult
check step id name status message fix = record {
  step = step;
  id = id;
  name = name;
  status = status;
  message = message;
  fix = fix;
}

-- `Add` for each of several results.
unfoldable pub add_all : Report → List CheckResult → Report
unfolding add
add_all r [] = r
add_all r (res ∷ rest) = add_all (add r res) rest

-- The two branches of `if err != nil`.
unfoldable pub report_error :
    {A : Type 0} → Answer A → (A → CheckResult) → (String → CheckResult) → List CheckResult
report_error (ok a) good bad = good a ∷ []
report_error (err e) good bad = bad e ∷ []

unfoldable pub zero_check : Host → String × Bytes → List CheckResult
zero_check h (label, addr) =
    report_error (address_not_zero h addr label)
      (λ u. check "deploy" "D3" (label +++ " address not zero") pass (h.address_hex addr) "")
      (λ e.
        check "deploy" "D3" (label +++ " address not zero") fail e
          "Re-run the deploy script or check deployed-addresses.json")

unfoldable pub zero_checks : Host → List (String × Bytes) → List CheckResult
zero_checks h [] = []
zero_checks h (entry ∷ rest) = zero_check h entry ++ zero_checks h rest

label_if_zero : String → Answer {0} Unit → List String
label_if_zero label (ok u) = []
label_if_zero label (err e) = label ∷ []

-- `zeroAddrs`
unfoldable pub zero_labels : Host → List (String × Bytes) → List String
unfolding label_if_zero
zero_labels h [] = []
zero_labels h ((label, addr) ∷ rest) =
    label_if_zero label (address_not_zero h addr label) ++ zero_labels h rest

unfoldable pub code_check : Host → Option Client → String × Bytes → List CheckResult
code_check h client (label, addr) =
    report_error (address_has_code h client addr label)
      (λ u.
        check "deploy" "D1" (label +++ " has deployed code") pass
          ("code found at " +++ h.address_hex addr) "")
      (λ e.
        check "deploy" "D1" (label +++ " has deployed code") fail e
          "Deploy contracts or check CHAIN_URL / deployed-addresses.json")

unfoldable pub code_checks :
    Host → Option Client → List String → List (String × Bytes) → List CheckResult
code_checks h client zero [] = []
code_checks h client zero (entry ∷ rest) =
    let others = code_checks h client zero rest in
    if elem entry.0 zero then others else code_check h client entry ++ others

-- `CheckDeployerKeySource`
unfoldable pub check_deployer_key_source : Host → CheckResult
check_deployer_key_source h =
    let local_mode = h.getenv "LOCAL_MODE" in
    if str_eq (h.getenv "DEPLOYMENT_PRIVATE_KEY") ""
    then (if str_eq local_mode "true" || str_eq local_mode ""
        then check "deploy" "D5" "deployer key source" pass "using Hardhat dev key (LOCAL_MODE)" ""
        else check "deploy" "D5" "deployer key source" warn
            "DEPLOYMENT_PRIVATE_KEY not set — using Hardhat dev key which has no funds on Coston2"
            "Set DEPLOYMENT_PRIVATE_KEY in .env to a funded account on the target network")
    else check "deploy" "D5" "deployer key source" pass "DEPLOYMENT_PRIVATE_KEY is set" ""

-- The check of the funds is left out without a key or a client.
unfoldable pub funds_check : Host → Option Client → Option Bytes → List CheckResult
funds_check h none key = []
funds_check h (some client) none = []
funds_check h (some client) (some key) =
    report_error (key_has_funds h (some client) key min_deploy_balance)
      (λ u.
        check "deploy" "D5" "deployer has sufficient funds" pass "balance above minimum threshold"
          "")
      (λ e.
        check "deploy" "D5" "deployer has sufficient funds" fail e
          "Fund the deployer account before deploying")

unfoldable pub chain_name : ℕ → String
chain_name id =
    if id == 31337
    then "Hardhat/Anvil (local devnet)"
    else if id == 114
    then "Coston2 (testnet)"
    else if id == 14
    then "Flare (mainnet)"
    else "unknown network"

-- `checkChainID`
unfoldable pub check_chain_id : Option Client → List CheckResult
check_chain_id none = []
check_chain_id (some client) =
    report_error client.chain_id
      (λ id.
        check "deploy" "D6" "chain ID" pass
          ("chain ID " +++ decimal id +++ " (" +++ chain_name id +++ ")") "")
      (λ e.
        check "deploy" "D6" "chain ID" fail ("failed to get chain ID: " +++ e) "Check CHAIN_URL")

-- One variable of `extension.env`.
unfoldable pub format_check : Host → (String → Bool) → String → Option String → CheckResult
format_check h well_formed key none =
    check "deploy" "D7" (key +++ " in extension.env") fail (key +++ " not found in extension.env")
      "Delete config/extension.env and re-run scripts/pre-build.sh"
format_check h well_formed key (some val) =
    if well_formed val
    then check "deploy" "D7" (key +++ " in extension.env") pass val ""
    else check "deploy" "D7" (key +++ " in extension.env") fail
        (key +++ " has invalid format: " +++ h.quote val)
        "Delete config/extension.env and re-run scripts/pre-build.sh"

unfoldable pub format_checks : Host → String → Option (List String) → List CheckResult
format_checks h path none =
    check "deploy" "D7" "extension.env exists" skip ("file not found: " +++ path) "" ∷ []
format_checks h path (some lines) =
    let vars = read_vars [] lines in
    format_check h is_address "INSTRUCTION_SENDER" (get_var vars "INSTRUCTION_SENDER")
    ∷ format_check h is_extension_id "EXTENSION_ID" (get_var vars "EXTENSION_ID")
    ∷ []

-- `CheckExtensionEnvFormat`
unfoldable pub check_extension_env_format : Host → String → List CheckResult
check_extension_env_format h path = format_checks h path (h.lines_of path)

-- `RegisterDeployChecks`
unfoldable pub register_deploy_checks :
    Host
    → Report
    → Option Client
    → Option Bytes
    → List (String × Bytes)
    → List (String × Bytes)
    → String
    → Report
register_deploy_checks h r client key addresses again path =
    let r1 = add_all r (zero_checks h addresses) in
    let r2 = add_all r1 (code_checks h client (zero_labels h addresses) again) in
    let r3 = add r2 (check_deployer_key_source h) in
    let r4 = add_all r3 (funds_check h client key) in
    let r5 = add_all r4 (check_chain_id client) in
    if str_eq path "" then r5 else add_all r5 (check_extension_env_format h path)
