-- ===== src/Validate/Registration.antt =====
-- `RegisterRegistrationChecks` of tee/tools/pkg/validate/checks.go.
pub mod Duplicates
use Prim.Native.String.{String, ◌++◌ as ◌+++◌}
use praesidio.Prelude.{
  ℕ, zero, suc, ◌+◌, ◌%◌, ◌^◌, Bool, true, false, ◌&&◌, Bytes, List, [], ◌∷◌, ◌++◌, Option, none,
  some, length, bytes_eq, ltb, str_eq, ◌==◌, two_64, if◌then◌else◌,
}
use praesidio.Prelude.Decimal.{decimal}
use praesidio.Prelude.Text.{drop2}
use praesidio.Validate.Report.{Status, pass, warn, fail, skip, CheckResult, Report, add}
use praesidio.Validate.Host.{Host, Answer, ok, err, Client, ExtensionManager, OwnerAllowlist}
use praesidio.Validate.EnvFile.{
  ExtensionEnv, parse_extension_env, is_address, is_extension_id, hex_value,
}
use praesidio.Validate.Deploy.{check, add_all, report_error}

-- Both are there.
unfoldable pub both : {A B : Type 0} → Option A → Option B → Option A
both none b = none
both (some a) none = none
both (some a) (some b) = some a

-- R1
unfoldable pub counter_check : Option ExtensionManager → List CheckResult
counter_check none = []
counter_check (some registry) =
    report_error registry.next_public_extension_id
      (λ counter.
        if counter == 0
        then check "register" "R1" "next public extension id" warn
            "nextPublicExtensionId is 0 — no public extensions registered yet" ""
        else check "register" "R1" "next public extension id" pass
            ("nextPublicExtensionId = " +++ decimal counter) "")
      (λ e.
        check "register" "R1" "next public extension id" fail
          ("failed to query nextPublicExtensionId: " +++ e) "")

-- The counter, where the call gave one.
unfoldable pub counter_of : Option ExtensionManager → Option ℕ
counter_of none = none
counter_of (some registry) = elim registry.next_public_extension_id [ ok n ↦ some n | err e ↦ none ]

-- The message for an id that is not well-formed, after which nothing else is checked.
unfoldable pub malformed_id : Host → String → CheckResult
malformed_id h ext_id =
    check "register" "R2" "EXTENSION_ID format" fail ("malformed EXTENSION_ID: " +++ h.quote ext_id)
      "Delete config/extension.env and re-run scripts/pre-build.sh"

-- R2
unfoldable pub sender_check : Host → Option ExtensionManager → ℕ → String → List CheckResult
sender_check h none extension_id instr_sender = []
sender_check h (some registry) extension_id instr_sender =
    let found =
      report_error (registry.get_tee_extension_instructions_sender extension_id)
        (λ on_chain.
          if bytes_eq on_chain (h.hex_to_address instr_sender)
          then check "register" "R2" "instruction sender matches on-chain" pass
              ("on-chain sender " +++ h.address_hex on_chain +++ " matches extension.env") ""
          else check "register" "R2" "instruction sender matches on-chain" fail
              ("on-chain sender "
                +++ h.address_hex on_chain
                +++ " != extension.env "
                +++ instr_sender)
              "Re-register the extension or update extension.env")
        (λ e.
          check "register" "R2" "instruction sender matches on-chain" fail
            ("failed to query instruction sender: " +++ e) "") in
    if is_address instr_sender then found else []

-- R3
unfoldable pub owner_check : Host → Option Bytes → Option OwnerAllowlist → ℕ → List CheckResult
owner_check h none allowlist extension_id = []
owner_check h (some key) none extension_id = []
owner_check h (some key) (some allowlist) extension_id =
    report_error (allowlist.is_allowed_tee_machine_owner extension_id (h.pubkey_to_address key))
      (λ allowed.
        if allowed
        then check "register" "R3" "deployer is allowed TEE machine owner" pass
            "deployer is on the TEE machine owner allowlist" ""
        else check "register" "R3" "deployer is allowed TEE machine owner" fail
            "deployer is NOT on the TEE machine owner allowlist"
            "Run the register step to add the deployer as a TEE machine owner")
      (λ e.
        check "register" "R3" "deployer is allowed TEE machine owner" fail
          ("failed to query allowlist: " +++ e) "")

-- R4
unfoldable pub key_type_check : Host → Option ExtensionManager → ℕ → List CheckResult
key_type_check h none extension_id = []
key_type_check h (some registry) extension_id =
    report_error (registry.is_key_type_supported extension_id h.evm_type)
      (λ supported.
        if supported
        then check "register" "R4" "EVM key type supported" pass
            "EVM key type is supported for this extension" ""
        else check "register" "R4" "EVM key type supported" fail
            "EVM key type is NOT supported for this extension"
            "Run the register step to add EVM key type support")
      (λ e.
        check "register" "R4" "EVM key type supported" fail
          ("failed to query key type support: " +++ e) "")

-- Whether a queried sender is the expected one; a failed query is passed over.
unfoldable pub is_sender : Bytes → Answer Bytes → Bool
is_sender expected (ok sender) = bytes_eq sender expected
is_sender expected (err e) = false

-- `counter.Int64()` as the bound of a loop that starts at 0: a negative one gives no round.
unfoldable pub rounds : ℕ → ℕ
rounds counter = let low = counter % two_64 in if ltb low (2 ^ 63) then low else 0

-- The ids from `i` on, `n` of them, whose sender is the expected one.
unfoldable pub matching_ids : (ℕ → Answer Bytes) → Bytes → ℕ → ℕ → List ℕ
matching_ids sender_of expected zero i = []
matching_ids sender_of expected (suc n) i =
    let rest = matching_ids sender_of expected n (i + 1) in
    if is_sender expected (sender_of i) then i ∷ rest else rest

-- `strings.Join(matchingIDs, ", ")`
unfoldable pub join_ids : List ℕ → String
join_ids [] = ""
join_ids (i ∷ []) = decimal i
join_ids (i ∷ j ∷ rest) = decimal i +++ ", " +++ join_ids (j ∷ rest)

unfoldable pub unique_result : String → List ℕ → CheckResult
unique_result instr_sender ids =
    if ltb 1 (length ids)
    then check "register" "R7" "unique instruction sender" warn
        ("INSTRUCTION_SENDER "
          +++ instr_sender
          +++ " is used by multiple extensions: "
          +++ join_ids ids)
        ""
    else check "register" "R7" "unique instruction sender" pass
        "instruction sender is unique across registered extensions" ""

-- R7
unfoldable pub unique_check : Host → Option ExtensionManager → Option ℕ → String → List CheckResult
unique_check h none counter instr_sender = []
unique_check h (some registry) none instr_sender = []
unique_check h (some registry) (some counter) instr_sender =
    let ids =
      matching_ids registry.get_tee_extension_instructions_sender (h.hex_to_address instr_sender)
        (rounds counter) 0 in
    if ltb 0 counter && is_address instr_sender then unique_result instr_sender ids ∷ [] else []

-- What is checked when the id is well-formed.
unfoldable pub chain_checks :
    Host
    → Option Client
    → Option Bytes
    → Option ExtensionManager
    → Option OwnerAllowlist
    → ExtensionEnv
    → List CheckResult
chain_checks h client key registry allowlist env =
    let reg = both registry client in
    let extension_id = hex_value 0 (drop2 env.extension_id) in
    sender_check h reg extension_id env.instruction_sender
    ++ (owner_check h key (both allowlist client) extension_id
        ++ (key_type_check h reg extension_id
            ++ unique_check h reg (counter_of reg) env.instruction_sender))

unfoldable pub registration_results :
    Host
    → Option Client
    → Option Bytes
    → Option ExtensionManager
    → Option OwnerAllowlist
    → ExtensionEnv
    → List CheckResult
registration_results h client key registry allowlist env =
    let counted = counter_check (both registry client) in
    if str_eq env.extension_id "" && str_eq env.instruction_sender ""
    then check "register" "R1-R7" "registration checks" skip
        "config/extension.env not found — run pre-build.sh first" ""
      ∷ []
    else if is_extension_id env.extension_id
    then counted ++ chain_checks h client key registry allowlist env
    else counted ++ malformed_id h env.extension_id ∷ []

-- `RegisterRegistrationChecks`
unfoldable pub register_registration_checks :
    Host
    → Report
    → Option Client
    → Option Bytes
    → Option ExtensionManager
    → Option OwnerAllowlist
    → String
    → Report
register_registration_checks h r client key registry allowlist path =
    if str_eq path ""
    then add r (check "register" "R1-R7" "registration checks" skip "no --config path provided" "")
    else add_all r (
        registration_results h client key registry allowlist
          (parse_extension_env (h.lines_of path)))
