-- ===== src/Guard/Data.antt =====
-- tee/go/pkg/types/types.go and the constants of tee/go/internal/config/config.go.
use praesidio.Prelude.{ℕ, Bool, Bytes, Option, String}

-- `ActionHeartbeat`, `ActionVaultTopUp`, `ActionRedemptionHandled`
abbrev pub action_heartbeat : ℕ
action_heartbeat = 0

abbrev pub action_vault_top_up : ℕ
action_vault_top_up = 1

abbrev pub action_redemption_handled : ℕ
action_redemption_handled = 2

pub record CheckVaultRequest : Type 0 where
  pub agent_vault : String
  pub guard_id : ℕ

pub record VaultHealth : Type 0 where
  pub vault : String
  pub vault_collateral_wei : String
  pub liq_factor_vault_bips : String
  pub liq_factor_pool_bips : String
  pub max_liquidation_amount : String
  pub xrp_usd : String
  pub collateral_ratio_bips : ℕ
  pub liquidatable : Bool
  pub below_policy_threshold : Bool

pub record SignedAction : Type 0 where
  pub guard_id : ℕ
  pub action_type : ℕ
  pub amount : String
  pub nonce : ℕ
  pub chain_id : ℕ
  pub digest : String
  pub signature : String
  pub signer : String

pub record CheckVaultResponse : Type 0 where
  pub healthy : Bool
  pub health : VaultHealth
  pub decision : String
  pub signed : Option SignedAction

-- `types.State`, which is also the mutable part of `Extension`.
pub record State : Type 0 where
  pub last_check_vault : String
  pub last_decision : String
  pub checks_performed : ℕ
  pub actions_signed : ℕ

pub record StateResponse : Type 0 where
  pub state_version : Bytes
  pub state : State

-- `guardPolicy` of guard_rpc.go: what the registry holds for one guard.
pub record GuardPolicy : Type 0 where
  pub agent_vault : Bytes
  pub owner : Bytes
  pub ratio_bips : ℕ
  pub top_up_amount_wei : ℕ
  pub last_action_nonce : ℕ
  pub created_at : ℕ
  pub active : Bool

abbrev pub op_type_guard : String
op_type_guard = "GUARD"

abbrev pub op_command_check_vault : String
op_command_check_vault = "CHECK_VAULT"

abbrev pub version : String
version = "0.1.0-praesidio"
