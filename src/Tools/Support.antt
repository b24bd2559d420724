-- ===== src/Tools/Support.antt =====
-- tee/tools/pkg/support/support.go: the addresses file, the default key, and the set-up of clients.
pub mod Addressing
use Prim.Native.String.{String}
use praesidio.Prelude.{ℕ, Bytes, Bool, ◌||◌, List, [], ◌∷◌, str_eq, if◌then◌else◌}
use praesidio.Prelude.Text.{has_prefix2, drop2}
use praesidio.Validate.Host.{Answer, ok, err, Client, zero_address}
use praesidio.Tools.Proxy.{answer_bind}

-- `Addresses`
pub record Addresses : Type 0 where
  pub flare_system_manager : Bytes
  pub fdc2_hub : Bytes
  pub flare_tee_manager : Bytes

-- `RawContract`, as far as it is read
pub record RawContract : Type 0 where
  pub name : String
  pub address : String

pub record Environment : Type 0 where
  -- `os.ReadFile`, and `json.Unmarshal` of a list of contracts
  pub read_file : String → Answer Bytes
  pub decode_contracts : Bytes → Answer (List RawContract)
  -- `configs.ReadAddresses`
  pub read_addresses : String → Answer Addresses
  -- `common.HexToAddress`, `crypto.HexToECDSA` and the hardcoded key
  pub hex_to_address : String → Bytes
  pub hex_to_ecdsa : String → Answer Bytes
  pub dev_key : Bytes
  pub getenv : String → String

abbrev pub no_addresses : Addresses
no_addresses = record {
  flare_system_manager = zero_address;
  fdc2_hub = zero_address;
  flare_tee_manager = zero_address;
}

-- The field whose tag is the name is set, and none for a name without one.
unfoldable pub set_target : String → Bytes → Addresses → Addresses
set_target name addr a = record {
  flare_system_manager = if str_eq name "FlareSystemsManager" then addr else a.flare_system_manager;
  fdc2_hub = if str_eq name "Fdc2Hub" then addr else a.fdc2_hub;
  flare_tee_manager = if str_eq name "FlareTeeManager" then addr else a.flare_tee_manager;
}

-- The loop of `ParseAddresses`.
unfoldable pub set_targets : Environment → List RawContract → Addresses → Addresses
set_targets e [] a = a
set_targets e (c ∷ cs) a = set_targets e cs (set_target c.name (e.hex_to_address c.address) a)

-- `ParseAddresses`
unfoldable pub parse_addresses : Environment → String → Answer Addresses
parse_addresses e path =
    answer_bind (e.read_file path)
      λ file. answer_bind (e.decode_contracts file) λ raw. ok (set_targets e raw no_addresses)

-- The addresses that `DefaultSupport` starts with: those of the one format, else of the other.
abbrev or_else : Answer Addresses → Answer Addresses → Answer Addresses
or_else (ok a) other = ok a
or_else (err t) other = other

unfoldable pub support_addresses : Environment → String → Answer Addresses
support_addresses e path = or_else (e.read_addresses path) (parse_addresses e path)

-- `DefaultPrivateKey`
unfoldable pub without_0x : String → String
without_0x s = if has_prefix2 b'0' b'x' s || has_prefix2 b'0' b'X' s then drop2 s else s

unfoldable pub default_private_key : Environment → Answer Bytes
default_private_key e =
    let key = e.getenv "DEPLOYMENT_PRIVATE_KEY" in
    if str_eq key "" then ok e.dev_key else e.hex_to_ecdsa (without_0x key)

-- A chain that clients are made for.
pub record Dialer : Type 0 where
  -- `ethclient.Dial`, at a URL
  pub dial : String → Answer Client
  -- the constructor of a contract's binding, at the contract's name and an address
  pub bind_contract : Client → String → Bytes → Answer {0} Unit

-- `Support`; a binding stands as the address that it is bound to.
pub record Support : Type 0 where
  pub prv : Bytes
  pub flare_system_manager : Bytes
  pub fdc2_hub : Bytes
  pub tee_machine_registry : Bytes
  pub tee_wallet_project_manager : Bytes
  pub tee_wallet_manager : Bytes
  pub tee_wallet_key_manager : Bytes
  pub tee_verification : Bytes
  pub tee_extension_registry : Bytes
  pub tee_extension_governance : Bytes
  pub tee_owner_allowlist : Bytes
  pub addresses : Addresses
  pub chain_client : Client
  pub chain_id : ℕ

-- A binding of a contract at an address.
abbrev bound_at : Dialer → Client → String → Bytes → Answer Bytes
bound_at d client name address = answer_bind (d.bind_contract client name address) λ _. ok address

-- `NewSupport`
unfoldable pub new_support : Dialer → Bytes → Client → Addresses → Answer Support
new_support d prv client addresses =
    let diamond = addresses.flare_tee_manager in
    answer_bind (bound_at d client "MachineManager" diamond) λ tr.
      answer_bind (bound_at d client "WalletManager" diamond) λ twm.
        answer_bind (bound_at d client "WalletKeyManager" diamond) λ twkm.
          answer_bind (bound_at d client "WalletProjectManager" diamond) λ twpm.
            answer_bind (bound_at d client "FlareSystemsManager" addresses.flare_system_manager)
              λ sm. answer_bind (bound_at d client "Fdc2Hub" addresses.fdc2_hub) λ ftdc.
                answer_bind (bound_at d client "Verification" diamond) λ tv.
                  answer_bind (bound_at d client "ExtensionManager" diamond) λ ter.
                    answer_bind (bound_at d client "OwnerAllowlist" diamond) λ toal.
                      answer_bind (bound_at d client "ExtensionGovernance" diamond) λ teg.
                        answer_bind client.chain_id λ chain_id. ok (record {
                          prv = prv;
                          flare_system_manager = sm;
                          fdc2_hub = ftdc;
                          tee_machine_registry = tr;
                          tee_wallet_project_manager = twpm;
                          tee_wallet_manager = twm;
                          tee_wallet_key_manager = twkm;
                          tee_verification = tv;
                          tee_extension_registry = ter;
                          tee_extension_governance = teg;
                          tee_owner_allowlist = toal;
                          addresses = addresses;
                          chain_client = client;
                          chain_id = chain_id;
                        })

-- `DefaultSupport`
unfoldable pub default_support : Environment → Dialer → String → String → Answer Support
default_support e d path url = answer_bind (support_addresses e path) λ addresses.
    answer_bind (d.dial url)
      λ client. answer_bind (default_private_key e) λ prv. new_support d prv client addresses
