-- ===== src/Registry/Contract.antt =====
-- contracts/src/GuardianRegistry.sol: the whole contract, its state and every transaction on it.
pub mod Authority
pub mod Cases
pub mod Consistency
pub mod Consistent
pub mod Update
use praesidio.Prelude.{
  ℕ, ◌+◌, ◌%◌, ◌^◌, Bool, true, false, not, ◌||◌, Bytes, List, [], ◌∷◌, Option, none, some, ◌==◌,
  if◌then◌else◌, bytes_eq, two_64, ltb,
}
use praesidio.Guard.Data.{GuardPolicy}
use praesidio.Registry.{
  Registry, Chain, Outcome, done, revert, Revert, zero_address, update, post_action, not_owner,
  not_agent_owner, duplicate_guard, zero_address_error, zero_amount, overflow, call_failed,
  paused_error, unknown_guard,
}

-- The storage; the address of the asset manager never changes, and what it answers with stands in the
-- message.
pub record Contract : Type 0 where
  pub ledger : Registry
  pub owner : Bytes
  pub guard_count : ℕ
  pub guard_id_of_vault : Bytes → ℕ

-- The calls of the functions that are `external`.
pub data Request : Type 0 where
  sets_guardian_signer : Bytes → Request
  sets_paused : Bool → Request
  registers_agent_vault : Bytes → ℕ → ℕ → Request
  sets_policy : ℕ → ℕ → ℕ → Request
  sets_guard_active : ℕ → Bool → Request
  posts_action : ℕ → ℕ → ℕ → ℕ → Bytes → Request

-- A transaction: its sender, the block it stands in, and what the asset manager answers with as the
-- owner of a vault, if it does not revert.
pub record Message : Type 0 where
  pub sender : Bytes
  pub chain : Chain
  pub agent_vault_owner : Bytes → Option Bytes
  pub request : Request

abbrev pub empty_guard : GuardPolicy
empty_guard = record {
  agent_vault = zero_address;
  owner = zero_address;
  ratio_bips = 0;
  top_up_amount_wei = 0;
  last_action_nonce = 0;
  created_at = 0;
  active = false;
}

-- The storage of a contract before its constructor runs.
abbrev pub empty_ledger : Registry
empty_ledger = record {
  guardian_signer = zero_address;
  paused = false;
  guards = λ id. empty_guard;
  actions = λ id. [];
}

-- `constructor`
unfoldable pub construct : Bytes → Bytes → Outcome Contract
construct sender asset_manager =
    if bytes_eq asset_manager zero_address
    then revert zero_address_error
    else done (record {
      ledger = empty_ledger;
      owner = sender;
      guard_count = 0;
      guard_id_of_vault = λ vault. 0;
    })

-- `onlyOwner`
abbrev pub only_owner : Message → Contract → Outcome Contract → Outcome Contract
only_owner m c body = if bytes_eq m.sender c.owner then body else revert not_owner

-- `notPaused`
abbrev pub not_paused : Contract → Outcome Contract → Outcome Contract
not_paused c body = if c.ledger.paused then revert paused_error else body

-- `setGuardianSigner`
unfoldable pub set_guardian_signer : Message → Bytes → Contract → Outcome Contract
set_guardian_signer m signer c = only_owner m c (
    if bytes_eq signer zero_address
    then revert zero_address_error
    else done (record c { ledger = record c.ledger { guardian_signer = signer } }))

-- `setPaused`
unfoldable pub set_paused : Message → Bool → Contract → Outcome Contract
set_paused m paused c =
    only_owner m c (done (record c { ledger = record c.ledger { paused = paused } }))

-- The guard that a registration makes, and the state with it.
abbrev pub new_guard : Message → Bytes → ℕ → ℕ → GuardPolicy
new_guard m vault ratio amount = record {
  agent_vault = vault;
  owner = m.sender;
  ratio_bips = ratio;
  top_up_amount_wei = amount;
  last_action_nonce = 0;
  created_at = m.chain.timestamp % two_64;
  active = true;
}

abbrev pub update_vault : (Bytes → ℕ) → Bytes → ℕ → Bytes → ℕ
update_vault f k a j = if bytes_eq j k then a else f j

unfoldable pub add_guard : Message → Bytes → ℕ → ℕ → Contract → Contract
add_guard m vault ratio amount c =
    let guard_id = c.guard_count + 1 in
    record c {
      ledger = record c.ledger {
        guards = update c.ledger.guards guard_id (new_guard m vault ratio amount);
      };
      guard_count = guard_id;
      guard_id_of_vault = update_vault c.guard_id_of_vault vault guard_id;
    }

-- What follows the call of the asset manager.
unfoldable pub register_owned : Message → Bytes → ℕ → ℕ → Contract → Option Bytes → Outcome Contract
register_owned m vault ratio amount c none = revert call_failed
register_owned m vault ratio amount c (some vault_owner) =
    if not (bytes_eq vault_owner m.sender)
    then revert not_agent_owner
    else if ratio == 0
    then revert zero_amount
    else if amount == 0
    then revert zero_amount
    else if not (ltb (c.guard_count + 1) (2 ^ 256))
    then revert overflow
    else done (add_guard m vault ratio amount c)

-- `registerAgentVault`
unfoldable pub register_agent_vault : Message → Bytes → ℕ → ℕ → Contract → Outcome Contract
register_agent_vault m vault ratio amount c = not_paused c (
    if bytes_eq vault zero_address
    then revert zero_address_error
    else if not (c.guard_id_of_vault vault == 0)
    then revert duplicate_guard
    else register_owned m vault ratio amount c (m.agent_vault_owner vault))

-- A guard that its owner changes.
abbrev pub change_guard : Contract → ℕ → GuardPolicy → Contract
change_guard c guard_id guard = record c {
  ledger = record c.ledger { guards = update c.ledger.guards guard_id guard };
}

abbrev pub by_guard_owner : Message → Contract → ℕ → Outcome Contract → Outcome Contract
by_guard_owner m c guard_id body = not_paused c (
    if bytes_eq (c.ledger.guards guard_id).agent_vault zero_address
    then revert unknown_guard
    else if not (bytes_eq m.sender (c.ledger.guards guard_id).owner)
    then revert not_agent_owner
    else body)

-- `setPolicy`
unfoldable pub set_policy : Message → ℕ → ℕ → ℕ → Contract → Outcome Contract
set_policy m guard_id ratio amount c = by_guard_owner m c guard_id (
    if ratio == 0 || amount == 0
    then revert zero_amount
    else done (
        change_guard c guard_id
          (record (c.ledger.guards guard_id) { ratio_bips = ratio; top_up_amount_wei = amount })))

-- `setGuardActive`
unfoldable pub set_guard_active : Message → ℕ → Bool → Contract → Outcome Contract
set_guard_active m guard_id active c =
    by_guard_owner m c guard_id
      (done (change_guard c guard_id (record (c.ledger.guards guard_id) { active = active })))

-- `postAction`, on the part of the state that it reads and writes
abbrev pub with_ledger : Contract → Outcome Registry → Outcome Contract
with_ledger c (done g) = done (record c { ledger = g })
with_ledger c (revert e) = revert e

unfoldable pub execute : Message → Request → Contract → Outcome Contract
execute m (sets_guardian_signer signer) c = set_guardian_signer m signer c
execute m (sets_paused paused) c = set_paused m paused c
execute m (registers_agent_vault vault ratio amount) c = register_agent_vault m vault ratio amount c
execute m (sets_policy guard_id ratio amount) c = set_policy m guard_id ratio amount c
execute m (sets_guard_active guard_id active) c = set_guard_active m guard_id active c
execute m (posts_action guard_id action_type amount nonce signature) c =
    with_ledger c (post_action m.chain c.ledger guard_id action_type amount nonce signature)

-- A transaction that reverts leaves the state alone.
abbrev pub settled : Contract → Outcome Contract → Contract
settled c (done c') = c'
settled c (revert e) = c

abbrev pub run : Contract → List Message → Contract
run c [] = c
run c (m ∷ ms) = run (settled c (execute m m.request c)) ms

-- `P` holds of the state that a transaction leaves, if it does not revert.
abbrev pub After : (Contract → Type 0) → Outcome Contract → Type 0
After P (done c) = P c
After P (revert e) = Unit
