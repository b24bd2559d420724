-- ===== src/Validate/Host.antt =====
-- What the checks meet outside the repository: the machine they run on, the chain client, and the
-- bindings of the deployed contracts. With tee/tools/pkg/validate/validate.go.
use Prim.Native.String.{String, ◌++◌ as ◌+++◌}
use praesidio.Prelude.{
  ℕ, Bool, Bytes, List, [], ◌∷◌, Option, none, some, ltb, bytes_eq, replicate, str_eq,
  if◌then◌else◌,
}
use praesidio.Prelude.Decimal.{decimal}

-- A call that returns `(T, error)`.
pub data Answer {ℓ} (A : Type ℓ) : Type ℓ where
  ok : A → Answer A
  err : String → Answer A

pub record Host : Type 0 where
  -- `os.Getenv`
  pub getenv : String → String
  -- the lines that a `bufio.Scanner` yields of a file, if `os.Open` opens it
  pub lines_of : String → Option (List String)
  -- `os.IsNotExist` of what `os.Stat` returns
  pub is_missing : String → Bool
  -- the status of the answer to an HTTP GET, if there is an answer in time
  pub http_get : String → Option ℕ
  -- whether a TCP connection to a local port is accepted
  pub dial_local : String → Bool
  -- `%q` of `fmt`
  pub quote : String → String
  -- packages `common` and `crypto`
  pub address_hex : Bytes → String
  pub hex_to_address : String → Bytes
  pub pubkey_to_address : Bytes → Bytes
  -- `wallets.EVMType`, padded to 32 bytes
  pub evm_type : Bytes

-- `ethclient.Client`, as far as the checks call it.
pub record Client : Type 0 where
  pub code_at : Bytes → Answer Bytes
  pub balance_at : Bytes → Answer ℕ
  pub chain_id : Answer ℕ

pub record ExtensionManager : Type 0 where
  pub next_public_extension_id : Answer ℕ
  pub get_tee_extension_instructions_sender : ℕ → Answer Bytes
  pub is_key_type_supported : ℕ → Bytes → Answer Bool

pub record OwnerAllowlist : Type 0 where
  pub is_allowed_tee_machine_owner : ℕ → Bytes → Answer Bool

abbrev pub zero_address : Bytes
zero_address = replicate 20 0

abbrev pub min_deploy_balance : ℕ
min_deploy_balance = 10000000000000000

-- `AddressNotZero`
unfoldable pub address_not_zero : Host → Bytes → String → Answer {0} Unit
address_not_zero h addr label =
    if bytes_eq addr zero_address
    then err
        (label +++ " is the zero address (" +++ h.address_hex addr +++ ") in the addresses file")
    else ok tt

-- The error for a contract without code.
unfoldable pub no_code : Host → Bytes → String → Answer Bytes → Answer {0} Unit
no_code h addr label (ok []) = err (
    label
    +++ " at "
    +++ h.address_hex addr
    +++ " has no deployed code. "
    +++ "This address will be set as immutable in the contract constructor and cannot be changed. "
    +++ "Check your deployed-addresses.json file — are you on the right network?")
no_code h addr label (ok (b ∷ bs)) = ok tt
no_code h addr label (err e) = err ("cannot check " +++ label +++ ": " +++ e)

-- `AddressHasCode`
unfoldable pub address_has_code : Host → Option Client → Bytes → String → Answer {0} Unit
address_has_code h none addr label =
    err ("cannot check " +++ label +++ ": no chain client connected")
address_has_code h (some client) addr label = no_code h addr label (client.code_at addr)

-- Whether a balance is enough.
unfoldable pub enough_funds : Host → Bytes → ℕ → Answer ℕ → Answer {0} Unit
enough_funds h addr min_wei (ok balance) =
    if ltb balance min_wei
    then err (
        "deployer "
        +++ h.address_hex addr
        +++ " has insufficient funds (balance: "
        +++ decimal balance
        +++ " wei, minimum required: "
        +++ decimal min_wei
        +++ " wei). Fund this account before deploying")
    else ok tt
enough_funds h addr min_wei (err e) = err ("cannot check deployer balance: " +++ e)

-- `KeyHasFunds`; a key is its public part.
unfoldable pub key_has_funds : Host → Option Client → Bytes → ℕ → Answer {0} Unit
key_has_funds h none key min_wei = err "cannot check deployer balance: no chain client connected"
key_has_funds h (some client) key min_wei =
    let addr = h.pubkey_to_address key in enough_funds h addr min_wei (client.balance_at addr)

-- `IsUsingDevKey`
unfoldable pub is_using_dev_key : Host → Bool
is_using_dev_key h = str_eq (h.getenv "DEPLOYMENT_PRIVATE_KEY") ""
