-- ===== src/Tools/Audit/Replay.antt =====
-- tee/tools/cmd/audit-deploy/main.go: the replay of `addTeeVersion`, and the whole run.
use Prim.Native.String.{String, ◌++◌ as ◌+++◌}
use praesidio.Prelude.{
  ℕ, Bytes, not, ◌&&◌, List, [], ◌∷◌, ◌++◌, Option, some, none, map, take, drop, length, ltb,
  str_eq, bytes_eq, if◌then◌else◌,
}
use praesidio.Prelude.Decimal.{ℤ, pos, negsuc, decimal}
use praesidio.Prelude.Text.{hex_encode}
use praesidio.Validate.Host.{Answer, ok, err, Client, zero_address}
use praesidio.Tools.Chain.{Simulation, returned, reverted}
use praesidio.Tools.Chain.Revert.{CustomError}
use praesidio.Tools.Registration.Diagnosis.{extract_revert_data}
use praesidio.Tools.Support.{Addresses, parse_addresses}
use praesidio.Tools.Version.{string_to_bytes32}
use praesidio.Tools.Audit.{
  AuditFlags, Auditor, Printout, address_line, named_addresses, manager_lines, extension_lines,
}

-- The line for an error whose selector is found.
unfoldable pub error_line : Auditor → String → CustomError → Bytes → String
error_line u contract e data_bytes = unpacked (e.inputs (drop 4 data_bytes))
  where
    unpacked : Option String → String
    unpacked (some args) = "  revert -> " +++ contract +++ "." +++ e.name +++ args
    unpacked none =
        "  revert -> "
        +++ contract
        +++ "."
        +++ e.name
        +++ " (unpack failed: "
        +++ u.unpack_error e (drop 4 data_bytes)
        +++ ") data=0x"
        +++ hex_encode data_bytes

-- The first error of a contract with the selector, in the order in which the map gives them.
unfoldable pub error_found : Auditor → String → List CustomError → Bytes → Option String
error_found u contract [] data_bytes = none
error_found u contract (e ∷ es) data_bytes =
    let later = error_found u contract es data_bytes in
    if bytes_eq (take 4 e.id) (take 4 data_bytes)
    then some (error_line u contract e data_bytes)
    else later

abbrev first_line : Option String → String → String
first_line (some line) later = line
first_line none later = later

unfoldable pub contract_line : Auditor → List (String × Option (List CustomError)) → Bytes → String
contract_line u [] data_bytes =
    "  revert with unknown selector 0x"
    +++ hex_encode (take 4 data_bytes)
    +++ " (full: 0x"
    +++ hex_encode data_bytes
    +++ ")"
contract_line u ((contract, none) ∷ rest) data_bytes = contract_line u rest data_bytes
contract_line u ((contract, some errors) ∷ rest) data_bytes =
    first_line (error_found u contract errors data_bytes) (contract_line u rest data_bytes)

-- `Error(string)`, where it unpacks.
abbrev reason_or : Auditor → Option String → String → String
reason_or u (some reason) later = "  revert reason (string): " +++ u.quote reason
reason_or u none later = later

unfoldable pub revert_line : Auditor → String → Bytes → String
revert_line u text data_bytes =
    let custom = contract_line u u.contracts data_bytes in
    if ltb (length data_bytes) 4
    then "  no/short revert data: " +++ text
    else if bytes_eq (take 4 data_bytes) (0x08 ∷ 0xc3 ∷ 0x79 ∷ 0xa0 ∷ [])
    then reason_or u (u.node.unpack_revert data_bytes) custom
    else custom

unfoldable pub call_line : Auditor → Simulation → String
call_line u (returned result) = "  eth_call succeeded — tx-time-only revert (gas/state race?)"
call_line u (reverted e) = revert_line u e.text (extract_revert_data u.node e)

unfoldable pub packed_line : Auditor → Bytes → Bytes → Answer Bytes → String
packed_line u to from (err e) = "  pack: " +++ e
packed_line u to from (ok calldata) = call_line u (u.call_contract from to calldata)

unfoldable pub version_line : Auditor → Bytes → Bytes → ℕ → Bytes → Bytes → Answer Bytes → String
version_line u to from id code_hash platform (err e) = "  version: " +++ e
version_line u to from id code_hash platform (ok version) =
    packed_line u to from (u.pack id version code_hash platform)

-- `replayAddTeeVersion`
unfoldable pub replay_add_tee_version :
    Auditor → Bytes → Bytes → ℕ → Bytes → Bytes → Bytes → Answer {0} Unit → String
replay_add_tee_version u to from id version code_hash platform (err e) = "  load ABI: " +++ e
replay_add_tee_version u to from id version code_hash platform (ok loaded) =
    version_line u to from id code_hash platform (string_to_bytes32 u.quote_bytes version)

-- The replay is made where both hashes and an extension are given.
unfoldable pub replay_lines : Auditor → AuditFlags → Bytes → ℤ → List String
replay_lines u flags manager (negsuc n) = []
replay_lines u flags manager (pos id) =
    if not (str_eq flags.code_hash "") && not (str_eq flags.platform "")
    then ""
      ∷ "=== addTeeVersion eth_call replay (decoding revert) ==="
      ∷ replay_add_tee_version u manager (u.environment.hex_to_address flags.from) id flags.version
          (u.hex_to_hash flags.code_hash) (u.hex_to_hash flags.platform) u.load_abi
      ∷ []
    else []

-- What follows the addresses, on standard output and on standard error.
unfoldable pub manager_report :
    Auditor → AuditFlags → Bytes → Answer {0} Unit → List String × List String
manager_report u flags manager (err e) = ([], ("bind ExtensionManager: " +++ e) ∷ [])
manager_report u flags manager (ok b) = (
  manager_lines u manager
      ++ (extension_lines u flags.extension ++ replay_lines u flags manager flags.extension),
  [],
)

abbrev block_of : Answer ℕ → ℕ
block_of (ok n) = n
block_of (err e) = 0

unfoldable pub audit_chain : Auditor → AuditFlags → Addresses → Client → ℕ → Printout
audit_chain u flags a client chain_id =
    let manager = a.flare_tee_manager in
    let rest : List String × List String =
      if bytes_eq manager zero_address
      then ([], [])
      else manager_report u flags manager (u.bind_manager manager) in
    record {
      lines =
          ("Chain ID: " +++ decimal chain_id +++ "   block: " +++ decimal (block_of u.block_number))
          ∷ (map (address_line u client) (named_addresses a) ++ rest.0);
      errors = rest.1;
      exit_code = 0;
    }

abbrev exit_with : String → Printout
exit_with text = record { lines = []; errors = text ∷ []; exit_code = 1 }

-- `main`
unfoldable pub audit_with_chain : Auditor → AuditFlags → Addresses → Client → Answer ℕ → Printout
audit_with_chain u flags a client (err e) = exit_with ("chainId: " +++ e)
audit_with_chain u flags a client (ok chain_id) = audit_chain u flags a client chain_id

unfoldable pub audit_with_client : Auditor → AuditFlags → Addresses → Answer Client → Printout
audit_with_client u flags a (err e) = exit_with ("dial: " +++ e)
audit_with_client u flags a (ok client) = audit_with_chain u flags a client client.chain_id

unfoldable pub audit_addresses : Auditor → AuditFlags → Answer Addresses → Printout
audit_addresses u flags (err e) = exit_with ("parse addresses: " +++ e)
audit_addresses u flags (ok a) = audit_with_client u flags a (u.dial flags.rpc_url)

unfoldable pub audit_deploy : Auditor → AuditFlags → Printout
audit_deploy u flags = audit_addresses u flags (parse_addresses u.environment flags.addresses_file)
