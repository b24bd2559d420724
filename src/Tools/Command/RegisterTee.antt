-- ===== src/Tools/Command/RegisterTee.antt =====
-- tee/tools/cmd/register-tee/main.go: the registration of the machine behind a proxy.
pub mod FreshStart
use Prim.Native.String.{String}
use praesidio.Prelude.{Bytes, Bool, str_eq, if◌then◌else◌}
use praesidio.Tools.Chain.Calls.{Action, pure, lift, ◌>>=◌}
use praesidio.Tools.Proxy.{SignedTeeInfo, Services, tee_info, tee_proxy_id}
use praesidio.Tools.Proxy.Identity.{Claims, get_tee_proxy_id, get_code_hash_and_platform}
use praesidio.Tools.Registration.{Request, register_node}
use praesidio.Tools.Registration.Machine.{Bindings}
use praesidio.Tools.Registration.State.{StateFile, remove_state}
use praesidio.Tools.Support.{Environment, Dialer, Support, default_support}

-- The flags of the command.
pub record RegisterFlags : Type 0 where
  pub addresses_file : String
  pub chain_url : String
  pub proxy_url : String
  pub host_url : String
  pub external_proxy_url : String
  -- `HexToHash` of the flag's text
  pub instruction : Bytes
  pub command : String
  pub resume : Bool

-- What the command meets.
pub record Tools : Type 0 where
  pub environment : Environment
  pub dialer : Dialer
  -- the bindings; their key comes from the support
  pub bindings : Bindings
  pub claims : Claims
  pub state_file : StateFile

abbrev pub bindings_of : Tools → Support → Bindings
bindings_of t sup = record t.bindings { prv = sup.prv }

-- The request that the flags and the answers of the proxies make.
abbrev pub request_of : RegisterFlags → SignedTeeInfo → Bytes × Bytes → Request
request_of flags info (ftdc_tee, ftdc_proxy) = record {
  info = info;
  host_url = if str_eq flags.host_url "" then flags.proxy_url else flags.host_url;
  ftdc_url = flags.external_proxy_url;
  ftdc_tee = ftdc_tee;
  command = flags.command;
  given_instruction = flags.instruction;
}

-- Without `-resume` the state file is removed; that it cannot be is only warned of.
unfoldable pub fresh_start : Tools → RegisterFlags → Action {0} Unit
fresh_start t flags = if flags.resume then pure tt else remove_state t.state_file

unfoldable pub is_simulated : Environment → Bool
is_simulated e = str_eq (e.getenv "SIMULATED_TEE") "true"

unfoldable pub register_machine : Tools → RegisterFlags → Support → Action {0} Unit
register_machine t flags sup = do
  info ← tee_info t.bindings.services flags.proxy_url
  _ ← lift (tee_proxy_id t.bindings.services info)
  ftdc ← get_tee_proxy_id t.bindings.services flags.external_proxy_url
  _ ←
      lift
        (get_code_hash_and_platform t.bindings.services t.claims (is_simulated t.environment) info)
  register_node (bindings_of t sup) t.state_file (request_of flags info ftdc)

-- `main`
unfoldable pub register_tee : Tools → RegisterFlags → Action {0} Unit
register_tee t flags = do
  _ ← fresh_start t flags
  sup ← lift (default_support t.environment t.dialer flags.addresses_file flags.chain_url)
  register_machine t flags sup
