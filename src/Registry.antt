-- ===== src/Registry.antt =====
-- contracts/src/GuardianRegistry.sol: the ledger that verifies the guard's actions.
pub mod Acceptance
pub mod Contract
pub mod Replay
use praesidio.Prelude.{
  ℕ, ◌+◌, ◌-◌, ◌%◌, two_64, ◌≡◌, refl, Bool, true, false, not, ◌&&◌, ◌||◌, Bytes, List, [], ◌∷◌,
  ◌++◌, Option, none, some, leb, ltb, ◌==◌, if◌then◌else◌, length, take, drop, bytes_eq, replicate,
}
use praesidio.Guard.Data.{GuardPolicy, action_redemption_handled}
use praesidio.Guard.Digest.{personal_prefix}
use praesidio.Guard.Digest.Preimage.{abi_encode}
use praesidio.Guard.Words.Encoding.{be_value}

pub data Revert : Type 0 where
  paused_error unknown_guard invalid_action_type invalid_nonce invalid_signature : Revert
  not_owner not_agent_owner duplicate_guard zero_address_error zero_amount : Revert
  -- the checked addition of Solidity, and a call of another contract that reverts
  overflow call_failed : Revert

pub record PostedAction : Type 0 where
  pub action_type : ℕ
  pub amount : ℕ
  pub nonce : ℕ
  pub timestamp : ℕ

pub record Registry : Type 0 where
  pub guardian_signer : Bytes
  pub paused : Bool
  pub guards : ℕ → GuardPolicy
  pub actions : ℕ → List PostedAction

-- The chain: its id, the block time, and the two precompiled functions that the contract calls.
pub record Chain : Type 0 where
  pub chain_id : ℕ
  pub timestamp : ℕ
  pub keccak256 : Bytes → Bytes
  pub ecrecover : Bytes → ℕ → ℕ → ℕ → Bytes

abbrev pub zero_address : Bytes
zero_address = replicate 20 0

abbrev pub half_order : ℕ
half_order = 0x7FFFFFFFFFFFFFFFFFFFFFFFFFFFFFFF5D576E7357A4501DDFE92F46681B20A0

pub data Outcome {ℓ} (A : Type ℓ) : Type ℓ where
  done : A → Outcome A
  revert : Revert → Outcome A

-- The last byte of a signature of 65 bytes, and what `if (v < 27) v += 27` makes of it.
unfoldable pub recovery_id : Bytes → ℕ
recovery_id [] = 0
recovery_id (v ∷ rest) = if ltb v 27 then v + 27 else v

-- `_recover`
unfoldable pub recover : Chain → Bytes → Bytes → Outcome Bytes
recover c digest signature =
    let r = be_value (take 32 signature) 0 in
    let s = be_value (take 32 (drop 32 signature)) 0 in
    let v = recovery_id (drop 64 signature) in
    if not (length signature == 65)
    then revert invalid_signature
    else if ltb half_order s
    then revert invalid_signature
    else if not (v == 27) && not (v == 28)
    then revert invalid_signature
    else done (c.ecrecover digest v r s)

abbrev pub update {ℓ} : {A : Type ℓ} → (ℕ → A) → ℕ → A → ℕ → A
update f k a j = if j == k then a else f j

unfoldable pub ledger_digest : Chain → ℕ → ℕ → ℕ → ℕ → Bytes
ledger_digest c guard_id action_type amount nonce = c.keccak256 (
    personal_prefix
    ++ c.keccak256 (abi_encode (c.chain_id ∷ guard_id ∷ action_type ∷ amount ∷ nonce ∷ [])))

-- The state that a posted action leaves.
unfoldable pub append_action : Chain → Registry → ℕ → PostedAction → Registry
append_action c g guard_id action = record g {
  guards =
      update g.guards guard_id (record (g.guards guard_id) { last_action_nonce = action.nonce });
  actions = update g.actions guard_id (g.actions guard_id ++ action ∷ []);
}

unfoldable pub checked_signer :
    Chain → Registry → ℕ → PostedAction → Outcome Bytes → Outcome Registry
unfolding append_action
checked_signer c g guard_id action (revert e) = revert e
checked_signer c g guard_id action (done recovered) =
    if bytes_eq recovered g.guardian_signer
    then done (append_action c g guard_id action)
    else revert invalid_signature

-- `postAction`
unfoldable pub post_action : Chain → Registry → ℕ → ℕ → ℕ → ℕ → Bytes → Outcome Registry
post_action c g guard_id action_type amount nonce signature =
    if g.paused
    then revert paused_error
    else if bytes_eq (g.guards guard_id).agent_vault zero_address
    then revert unknown_guard
    else if ltb action_redemption_handled action_type
    then revert invalid_action_type
    else if leb nonce (g.guards guard_id).last_action_nonce
    then revert invalid_nonce
    else checked_signer c g guard_id
        (record {
          action_type = action_type;
          amount = amount;
          nonce = nonce;
          timestamp = c.timestamp % two_64;
        })
        (recover c (ledger_digest c guard_id action_type amount nonce) signature)
