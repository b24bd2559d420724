-- ===== src/Tools/Audit.antt =====
-- tee/tools/cmd/audit-deploy/main.go: the lines that it prints about the deployed addresses, the
-- extension manager, an extension, and a replayed `addTeeVersion`.
pub mod Replay
use Prim.Native.String.{String, ◌++◌ as ◌+++◌}
use praesidio.Prelude.{
  ℕ, zero, suc, ◌-◌, Bytes, Bool, false, not, ◌&&◌, List, [], ◌∷◌, ◌++◌, Option, some, none, map,
  take, drop, length, ltb, str_eq, bytes_eq, if◌then◌else◌,
}
use praesidio.Prelude.Decimal.{ℤ, pos, negsuc, decimal}
use praesidio.Prelude.Text.{hex_encode, text_length}
use praesidio.Validate.Host.{Answer, ok, err, Client, zero_address}
use praesidio.Tools.Chain.{Node, Simulation, returned, reverted}
use praesidio.Tools.Chain.Revert.{CustomError}
use praesidio.Tools.Registration.Diagnosis.{extract_revert_data}
use praesidio.Tools.Support.{Addresses, Environment, parse_addresses}
use praesidio.Tools.Version.{string_to_bytes32, bytes32_to_string}

-- The flags of the command; a version is its bytes.
pub record AuditFlags : Type 0 where
  pub addresses_file : String
  pub rpc_url : String
  pub extension : ℤ
  pub code_hash : String
  pub platform : String
  pub from : String
  pub version : Bytes

-- What the command meets.
pub record Auditor : Type 0 where
  pub environment : Environment
  pub node : Node
  pub dial : String → Answer Client
  pub block_number : Answer ℕ
  -- `NewExtensionManager`, and the calls of the binding
  pub bind_manager : Bytes → Answer {0} Unit
  pub system_platforms : Answer (List Bytes)
  pub next_public_extension_id : Answer ℕ
  pub extension_owner : ℕ → Answer Bytes
  pub code_hashes : ℕ → Answer (List Bytes)
  pub key_types : ℕ → Answer (List Bytes)
  -- the ABI of `addTeeVersion`: whether it loads, and the data of a call
  pub load_abi : Answer {0} Unit
  pub pack : ℕ → Bytes → Bytes → Bytes → Answer Bytes
  -- `CallContract`, from an address, to an address, with data
  pub call_contract : Bytes → Bytes → Bytes → Simulation
  -- the three contracts with the errors of their ABIs, those that load
  pub contracts : List (String × Option (List CustomError))
  -- the text of the error of a failed unpacking
  pub unpack_error : CustomError → Bytes → String
  -- `Hex`, `HexToHash`, the characters of bytes, and `%q`
  pub address_hex : Bytes → String
  pub hex_to_hash : String → Bytes
  pub text_of : Bytes → String
  pub quote : String → String
  pub quote_bytes : Bytes → String

-- The lines on standard output and on standard error, and the exit code.
pub record Printout : Type 0 where
  pub lines : List String
  pub errors : List String
  pub exit_code : ℕ

-- `%-25s`
unfoldable pub spaces : ℕ → String
spaces zero = ""
spaces (suc n) = " " +++ spaces n

abbrev pub pad_right : ℕ → String → String
pad_right width s = s +++ spaces (width - text_length s)

-- The status of an address.
unfoldable pub code_status : Bytes → String
code_status [] = "NO CODE"
code_status (b ∷ bs) = "ok (" +++ decimal (length (b ∷ bs)) +++ " bytes)"

unfoldable pub address_status : Bytes → Answer Bytes → String
address_status a (err e) = "ERROR " +++ e
address_status a (ok code) = if bytes_eq a zero_address then "ZERO ADDRESS" else code_status code

unfoldable pub address_line : Auditor → Client → String × Bytes → String
address_line u client (name, a) =
    "  "
    +++ pad_right 25 name
    +++ " "
    +++ u.address_hex a
    +++ "   "
    +++ address_status a (client.code_at a)

abbrev pub named_addresses : Addresses → List (String × Bytes)
named_addresses a =
    ("FlareTeeManager", a.flare_tee_manager)
    ∷ ("FlareSystemsManager", a.flare_system_manager)
    ∷ ("Fdc2Hub", a.fdc2_hub)
    ∷ []

-- A list of hashes with their texts, and one without.
abbrev pub labelled_line : Auditor → Bytes → String
labelled_line u hash =
    "    " +++ u.node.hash_hex hash +++ "   " +++ u.quote (bytes32_to_string u.text_of hash)

abbrev pub plain_line : Auditor → Bytes → String
plain_line u hash = "    " +++ u.node.hash_hex hash

abbrev pub listed : String → (Bytes → String) → List Bytes → List String
listed name line hashes =
    ("  " +++ name +++ " (" +++ decimal (length hashes) +++ "):") ∷ map line hashes

unfoldable pub platform_lines : Auditor → Answer (List Bytes) → List String
platform_lines u (err e) = ("  getSystemSupportedPlatforms ERROR: " +++ e) ∷ []
platform_lines u (ok platforms) = listed "systemSupportedPlatforms" (labelled_line u) platforms

unfoldable pub next_id_lines : Answer ℕ → List String
next_id_lines (err e) = []
next_id_lines (ok count) = ("  nextPublicExtensionId: " +++ decimal count) ∷ []

unfoldable pub manager_lines : Auditor → Bytes → List String
manager_lines u manager =
    ""
    ∷ ("=== ExtensionManager facet @ FlareTeeManager " +++ u.address_hex manager +++ " ===")
    ∷ (platform_lines u u.system_platforms ++ next_id_lines u.next_public_extension_id)

unfoldable pub owner_lines : Auditor → Answer Bytes → List String
owner_lines u (err e) = ("  getExtensionOwner ERROR: " +++ e) ∷ []
owner_lines u (ok owner) = ("  owner: " +++ u.address_hex owner) ∷ []

unfoldable pub code_hash_lines : Auditor → Answer (List Bytes) → List String
code_hash_lines u (err e) = ("  getSupportedCodeHashes ERROR: " +++ e) ∷ []
code_hash_lines u (ok hashes) = listed "supportedCodeHashes" (plain_line u) hashes

unfoldable pub key_type_lines : Auditor → Answer (List Bytes) → List String
key_type_lines u (err e) = []
key_type_lines u (ok types) = listed "supportedKeyTypes" (labelled_line u) types

-- The part about an extension, where its number is not negative.
unfoldable pub extension_lines : Auditor → ℤ → List String
extension_lines u (negsuc n) = []
extension_lines u (pos id) =
    ""
    ∷ ("=== Extension id=" +++ decimal id +++ " ===")
    ∷ (owner_lines u (u.extension_owner id)
        ++ (code_hash_lines u (u.code_hashes id) ++ key_type_lines u (u.key_types id)))
