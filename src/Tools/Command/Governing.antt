-- ===== src/Tools/Command/Governing.antt =====
-- tee/tools/cmd/set-governance/main.go and tee/tools/cmd/allow-tee-version/main.go: the keys and the
-- answers of the proxy that the two commands work with.
use Prim.Native.String.{String}
use praesidio.Prelude.{ℕ, Bytes, Bool, List, str_eq, if◌then◌else◌}
use praesidio.Prelude.Text.{has_prefix2, drop2, trim_space}
use praesidio.Validate.Host.{Answer, ok}
use praesidio.Tools.Chain.Calls.{History, Action, lift, ◌>>=◌}
use praesidio.Tools.Proxy.{Services, tee_info, tee_proxy_id}
use praesidio.Tools.Support.{Environment, Dialer, default_support, without_0x}
use praesidio.Tools.Governance.{Ledger, set_governance}
use praesidio.Tools.Registration.Machine.{set_bytes}
use praesidio.Tools.Version.{allow_tee_version}

-- What the commands meet.
pub record Owner : Type 0 where
  pub environment : Environment
  pub dialer : Dialer
  pub services : Services
  -- `GetLatestTeeGovernanceHash` and `types.GovernanceHash`
  pub get_latest_hash : History → ℕ → Answer Bytes
  pub governance_hash : List Bytes → ℕ → Answer Bytes
  -- `IsCodeHashPlatformSupported`
  pub is_supported : History → ℕ → Bytes → Bytes → Answer Bool
  -- `%q` of `fmt`
  pub quote : Bytes → String

-- `strings.TrimPrefix`, of two characters
abbrev trim_prefix : ℕ → ℕ → String → String
trim_prefix a b s = if has_prefix2 a b s then drop2 s else s

-- The key of set-governance: both prefixes are cut, one behind the other.
unfoldable pub governance_key : Environment → Bytes → Answer Bytes
governance_key e prv =
    let key = e.getenv "EXTENSION_OWNER_KEY" in
    if str_eq key ""
    then ok prv
    else e.hex_to_ecdsa (trim_prefix b'0' b'X' (trim_prefix b'0' b'x' key))

-- The key of allow-tee-version: one of the prefixes is cut.
unfoldable pub version_key : Environment → Bytes → Answer Bytes
version_key e prv =
    let key = e.getenv "EXTENSION_OWNER_KEY" in
    if str_eq key "" then ok prv else e.hex_to_ecdsa (without_0x key)

-- INITIAL_OWNER if it is set, else the deployer.
unfoldable pub default_signer : Environment → Bytes → Bytes
default_signer e deployer =
    let owner = trim_space (e.getenv "INITIAL_OWNER") in
    if str_eq owner "" then deployer else e.hex_to_address owner

abbrev pub ledger_of : Owner → Ledger
ledger_of o = record {
  node = o.services.node;
  get_latest_hash = o.get_latest_hash;
  governance_hash = o.governance_hash;
  hex_to_address = o.environment.hex_to_address;
}

-- `main` of set-governance, at its three flags
unfoldable pub set_governance_command : Owner → String → String → String → Action {0} Unit
set_governance_command o addresses_file chain_url proxy_url = do
  sup ← lift (default_support o.environment o.dialer addresses_file chain_url)
  prv ← lift (governance_key o.environment sup.prv)
  info ← tee_info o.services proxy_url
  set_governance (ledger_of o) prv (set_bytes 0 info.extension_id)
      (default_signer o.environment (o.services.node.address_of prv))
      (o.environment.getenv "GOVERNANCE_SIGNERS") (o.environment.getenv "GOVERNANCE_THRESHOLD")

-- `main` of allow-tee-version, at its four flags
unfoldable pub allow_version_command : Owner → String → String → String → Bytes → Action {0} Unit
allow_version_command o addresses_file chain_url proxy_url version = do
  sup ← lift (default_support o.environment o.dialer addresses_file chain_url)
  info ← tee_info o.services proxy_url
  prv ← lift (version_key o.environment sup.prv)
  _ ← lift (tee_proxy_id o.services info)
  allow_tee_version o.services.node o.quote
      (λ h. o.is_supported h (set_bytes 0 info.extension_id) info.code_hash info.platform) prv
      (set_bytes 0 info.extension_id) info.code_hash info.platform version
