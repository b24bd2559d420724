-- ===== src/Tools/Extension.antt =====
-- tee/tools/pkg/fccutils/extension.go: the set-up of an extension.
pub mod Permissions
use Prim.Native.String.{◌++◌ as ◌+++◌}
use praesidio.Prelude.{
  ℕ, zero, suc, Bytes, Bool, String, List, [], ◌∷◌, length, ltb, bytes_eq, ◌==◌, ◌||◌,
  if◌then◌else◌,
}
use praesidio.Prelude.Decimal.{decimal}
use praesidio.Validate.Host.{Answer, ok, err}
use praesidio.Tools.Chain.{Node, Receipt, send, saying, check_tx}
use praesidio.Tools.Chain.Calls.{
  Tx, Method, History, Session, Action, call_register_extension, call_add_machine_owners,
  call_add_project_owners, call_add_key_types, call_set_governance, label, relabel, ask, pure, fail,
  lift, ◌>>=◌,
}

-- `support.Support`, with the bindings that the set-up calls.
pub record Registries : Type 0 where
  pub node : Node
  pub prv : Bytes
  pub is_allowed_machine_owner : History → ℕ → Bytes → Answer Bool
  pub is_allowed_project_owner : History → ℕ → Bytes → Answer Bool
  pub is_key_type_supported : History → ℕ → Bytes → Answer Bool
  -- the identifier in the event of a registration
  pub parse_extension_registered : Bytes → Answer ℕ
  -- whether the other events of these transactions parse
  pub parse_contracts_set : Bytes → Answer {0} Unit
  pub parse_machine_owners_added : Bytes → Answer {0} Unit
  pub parse_project_owners_added : Bytes → Answer {0} Unit
  -- `wallets.EVMType`
  pub evm_type : Bytes

abbrev pub call : Method → Tx
call m = record { method = m; value = 0 }

-- The identifier counts if the second event parses too.
abbrev pub with_contracts : Answer ℕ → Answer {0} Unit → Answer ℕ
with_contracts (ok id) (ok u) = ok id
with_contracts (ok id) (err e) = err e
with_contracts (err e) set = err e

-- The identifier in the two first logs of a registration.
unfoldable pub registered_id : Registries → List Bytes → Answer ℕ
registered_id r [] =
    err
      "expected at least 2 logs from Register() transaction, got 0 — the registry contract may have changed or be behind a proxy"
registered_id r (log ∷ []) =
    err
      "expected at least 2 logs from Register() transaction, got 1 — the registry contract may have changed or be behind a proxy"
registered_id r (log ∷ second ∷ logs) =
    with_contracts
      (label "failed to parse TeeExtensionRegistered event: " (r.parse_extension_registered log))
      (label "failed to parse TeeExtensionContractsSet event: " (r.parse_contracts_set second))

-- `registerExtension`
unfoldable pub register_extension : Registries → Bytes → Bytes → Action ℕ
register_extension r instructions_sender state_verifier = do
  hash ←
      send r.node (call (call_register_extension state_verifier instructions_sender))
        (saying "TeeExtensionRegistry.Register failed: ")
  receipt ← relabel "Register transaction failed: " (check_tx r.node hash)
  lift (registered_id r receipt.logs)

-- The event in the first log of an addition.
abbrev added : String → (Bytes → Answer {0} Unit) → List Bytes → Answer {0} Unit
added name parse [] = err ("no logs in Add" +++ name +++ " transaction — unexpected")
added name parse (log ∷ logs) = label ("failed to parse " +++ name +++ "Added event: ") (parse log)

-- `allowTeeMachineOwners`
unfoldable pub allow_tee_machine_owners : Registries → ℕ → List Bytes → Action {0} Unit
allow_tee_machine_owners r extension_id owners = do
  hash ←
      send r.node (call (call_add_machine_owners extension_id owners))
        (saying "AddAllowedTeeMachineOwners failed: ")
  receipt ← relabel "AddAllowedTeeMachineOwners transaction failed: " (check_tx r.node hash)
  lift (added "AllowedTeeMachineOwners" r.parse_machine_owners_added receipt.logs)

-- `allowTeeProjectManagerOwners`
unfoldable pub allow_tee_project_manager_owners : Registries → ℕ → List Bytes → Action {0} Unit
allow_tee_project_manager_owners r extension_id owners = do
  hash ←
      send r.node (call (call_add_project_owners extension_id owners))
        (saying "AddAllowedTeeWalletProjectOwners failed: ")
  receipt ← relabel "AddAllowedTeeWalletProjectOwners transaction failed: " (check_tx r.node hash)
  lift (added "AllowedTeeWalletProjectOwners" r.parse_project_owners_added receipt.logs)

-- `AddSupportedKeyTypes`, with `addSupportedKeyTypesTx`
unfoldable pub add_supported_key_types : Registries → ℕ → List Bytes → Action {0} Unit
add_supported_key_types r extension_id key_types = do
  _ ← lift (r.node.transactor r.prv)
  hash ← send r.node (call (call_add_key_types extension_id key_types)) (saying "")
  _ ← check_tx r.node hash
  pure tt

-- A permission that is asked for, and added if it is missing.
unfoldable pub ensure : String → (History → Answer Bool) → Action {0} Unit → Action {0} Unit
ensure prefix query add = do
  found ← ask "eth_call" query
  present ← lift (label prefix found)
  if present then pure tt else add

-- The error of an addition, which tells that the extension exists.
unfoldable pub half_done : String → ℕ → Action {0} Unit → Action {0} Unit
half_done what extension_id add =
    relabel
      ("failed adding "
        +++ what
        +++ " owners (extension exists as ID "
        +++ decimal extension_id
        +++ " but owners not set): ")
      add

-- The permissions of an extension that is registered.
unfoldable pub set_permissions : Registries → ℕ → Action {0} Unit
set_permissions r extension_id =
    let deployer = r.node.address_of r.prv in
    (do
      _ ←
          ensure "failed checking TEE machine owner status: "
            (λ h. r.is_allowed_machine_owner h extension_id deployer)
            (half_done "TEE machine" extension_id
              (allow_tee_machine_owners r extension_id (deployer ∷ [])))
      _ ←
          ensure "failed checking wallet project owner status: "
            (λ h. r.is_allowed_project_owner h extension_id deployer)
            (half_done "wallet project" extension_id
              (allow_tee_project_manager_owners r extension_id (deployer ∷ [])))
      ensure "" (λ h. r.is_key_type_supported h extension_id r.evm_type)
          (add_supported_key_types r extension_id (r.evm_type ∷ [])))

-- `SetupExtension`
unfoldable pub setup_extension : Registries → Bytes → Bytes → Action ℕ
setup_extension r instructions_sender state_verifier = do
  _ ← lift (r.node.transactor r.prv)
  extension_id ← register_extension r instructions_sender state_verifier
  _ ← set_permissions r extension_id
  pure extension_id
