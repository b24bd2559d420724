-- ===== src/Examples/Worlds.antt =====
-- A world whose vault is liquidatable, with its request, its state and what the check reads in it.
use Prim.Native.String.{String}
use praesidio.Prelude.{true, false, Bytes, [], ◌∷◌, ◌++◌, some, replicate, str_eq, if◌then◌else◌}
use praesidio.Prelude.Text.{codes}
use praesidio.Prelude.Decimal.{pos}
use praesidio.Prelude.Outcome.{ok}
use praesidio.Guard.Data.{
  CheckVaultRequest, CheckVaultResponse, VaultHealth, SignedAction, GuardPolicy, State,
}
use praesidio.Guard.World.{World, rpc_result}

abbrev pub agent : Bytes
agent = replicate 20 5

abbrev pub demo_guard : GuardPolicy
demo_guard = record {
  agent_vault = agent;
  owner = replicate 20 6;
  ratio_bips = 15000;
  top_up_amount_wei = 250;
  last_action_nonce = 4;
  created_at = 0;
  active = true;
}

abbrev demo_env : String → String
demo_env name =
    if str_eq name "GUARDIAN_KEY"
    then "0x01"
    else if str_eq name "CHAIN_ID"
    then "114"
    else if str_eq name "ASSET_MANAGER"
    then "0xa"
    else if str_eq name "FTSO_V2"
    then "0xb"
    else if str_eq name "GUARDIAN_REGISTRY"
    then "0xc"
    else ""

abbrev pub demo_signature : Bytes
demo_signature = replicate 64 1 ++ 0 ∷ []

abbrev pub demo : World
demo = record {
  getenv = demo_env;
  post = λ rpc to payload. rpc_result "0x00";
  is_hex_address = λ s. true;
  hex_to_address = λ s. agent;
  hex2bytes = λ s. [];
  hash_hex = λ bs. "0xhash";
  address_hex = λ bs. "0xsigner";
  keccak256 = λ bs. replicate 32 7;
  hex_to_ecdsa = λ s. ok (codes s);
  sign = λ digest priv. ok demo_signature;
  pubkey_to_address = λ priv. replicate 20 3;
  pack_factors = λ a. ok [];
  unpack_factors = λ bs. ok (11000, 0, 5);
  pack_collateral = λ a. ok [];
  unpack_collateral = λ bs. ok 100;
  pack_feed = λ a. ok [];
  unpack_feed = λ bs. ok (1010400, pos 6, 0);
  pack_guards = λ n. ok [];
  unpack_guards = λ bs. ok demo_guard;
  to_hash = codes;
}

abbrev pub demo_request : CheckVaultRequest
demo_request = record { agent_vault = "0xVault"; guard_id = 7 }

abbrev pub demo_state : State
demo_state = record {
  last_check_vault = "";
  last_decision = "";
  checks_performed = 3;
  actions_signed = 1;
}

abbrev pub demo_health : VaultHealth
demo_health = record {
  vault = "0xVault";
  vault_collateral_wei = "100";
  liq_factor_vault_bips = "11000";
  liq_factor_pool_bips = "0";
  max_liquidation_amount = "5";
  xrp_usd = "1.010400";
  collateral_ratio_bips = 0;
  liquidatable = true;
  below_policy_threshold = false;
}

abbrev pub demo_action : SignedAction
demo_action = record {
  guard_id = 7;
  action_type = 1;
  amount = "250";
  nonce = 5;
  chain_id = 114;
  digest = "0xhash";
  signature =
      "0x0101010101010101010101010101010101010101010101010101010101010101010101010101010101010101010101010101010101010101010101010101010100";
  signer = "0xsigner";
}

abbrev pub demo_response : CheckVaultResponse
demo_response = record {
  healthy = false;
  health = demo_health;
  decision = "TOP_UP_REQUIRED";
  signed = some demo_action;
}
