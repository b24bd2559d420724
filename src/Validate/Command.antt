-- ===== src/Validate/Command.antt =====
-- tee/tools/cmd/verify-deploy/main.go
pub mod ExitStatus
use Prim.Native.Char.{code}
use Prim.Native.String.{String, [], ◌∷◌}
use mathlib.Core.List.{List}
use mathlib.Core.Option.{Option, none, some}
use mathlib.Core.Bool.{Bool, true, false, not, ◌&&◌, ◌||◌}
use praesidio.Prelude.{ℕ, Bytes, ◌==◌, str_eq, if◌then◌else◌}
use praesidio.Prelude.Text.{trim_space}
use praesidio.Validate.Report.{CheckResult, Report, elem, has_failures}
use praesidio.Validate.Host.{Host, Answer, ok, err, Client, ExtensionManager, OwnerAllowlist}
use praesidio.Validate.Deploy.{register_deploy_checks}
use praesidio.Validate.Registration.{register_registration_checks}
use praesidio.Validate.Services.{register_services_checks, register_tee_version_checks}
use praesidio.Validate.Machine.{register_tee_machine_checks, register_test_checks}

-- What `support.DefaultSupport` gives.
pub record Support : Type 0 where
  pub flare_tee_manager : Bytes
  pub client : Option Client
  pub key : Option Bytes
  pub registry : Option ExtensionManager
  pub allowlist : Option OwnerAllowlist

unfoldable pub needs_chain : String → Bool
needs_chain step = str_eq step "deploy" || str_eq step "register" || str_eq step "all"

unfoldable pub deploy_step : Host → Support → String → Report → Report
deploy_step h s path r =
    let addresses : List (String × Bytes) =
      List.◌∷◌ ("FlareTeeManager", s.flare_tee_manager) List.[] in
    register_deploy_checks h r s.client s.key addresses addresses path

unfoldable pub register_step : Host → Support → String → Report → Report
register_step h s path r =
    register_registration_checks h r s.client s.key s.registry s.allowlist path

-- The steps that need no chain, and the end of the program at an unknown step.
unfoldable pub local_report : Host → String → String → Option Report
local_report h step path =
    if str_eq step "services"
    then some (register_services_checks h List.[] path)
    else if str_eq step "tee-version"
    then some (register_tee_version_checks h List.[] path)
    else if str_eq step "tee-machine"
    then some (register_tee_machine_checks h List.[] path)
    else if str_eq step "test"
    then some (register_test_checks h List.[] path)
    else none

-- The steps that need one; without it the program ends.
unfoldable pub chain_report : Host → Answer Support → String → String → Option Report
chain_report h (ok s) step path =
    if str_eq step "deploy"
    then some (deploy_step h s path List.[])
    else if str_eq step "register"
    then some (register_step h s path List.[])
    else some (
        register_test_checks h
          (register_tee_machine_checks h
            (register_tee_version_checks h
              (register_services_checks h (register_step h s path (deploy_step h s path List.[]))
                path)
              path)
            path)
          path)
chain_report h (err e) step path = none

unfoldable pub report_of : Host → Answer Support → String → String → Option Report
report_of h support step path =
    if needs_chain step then chain_report h support step path else local_report h step path

-- `strings.Split(s, ",")`: the first piece and the others.
unfoldable pub split_comma : String → String × List String
split_comma [] = ([], List.[])
split_comma (c ∷ s) =
    let (piece, rest) = split_comma s in
    if code c == b',' then ([], List.◌∷◌ piece rest) else (c ∷ piece, rest)

-- The pieces that `allowed` takes: trimmed, and not empty.
unfoldable pub allowed_ids : List String → List String
allowed_ids List.[] = List.[]
allowed_ids (List.◌∷◌ id rest) =
    let t = trim_space id in
    let others = allowed_ids rest in if str_eq t "" then others else List.◌∷◌ t others

unfoldable pub parse_filter : String → List String
parse_filter checks = let (piece, rest) = split_comma checks in allowed_ids (List.◌∷◌ piece rest)

unfoldable pub keep_allowed : List String → Report → Report
keep_allowed allowed List.[] = List.[]
keep_allowed allowed (List.◌∷◌ res rest) =
    let others = keep_allowed allowed rest in
    if elem res.id allowed then List.◌∷◌ res others else others

-- `--checks`
unfoldable pub filter_report : String → Report → Report
filter_report checks r = if str_eq checks "" then r else keep_allowed (parse_filter checks) r

-- What is printed, if the program comes so far, and the status that it exits with.
unfoldable pub finish : String → Option Report → Option Report × ℕ
finish checks none = (none, 1)
finish checks (some r) =
    let shown = filter_report checks r in (some shown, (if has_failures shown then 1 else 0))

-- `main`
unfoldable pub verify_deploy : Host → Answer Support → String → String → String → Option Report × ℕ
verify_deploy h support step checks path = finish checks (report_of h support step path)
