-- ===== src/Guard/World.antt =====
-- What the guard meets outside the repository: the process environment, the JSON-RPC node, and the
-- functions of go-ethereum and of the tee-node module that it calls.
use praesidio.Prelude.{ℕ, Bool, Bytes, String}
use praesidio.Prelude.Decimal.{ℤ}
use praesidio.Prelude.Outcome.{Result}
use praesidio.Guard.Data.{GuardPolicy}

-- How a JSON-RPC call ends: no HTTP answer, an answer that is not the expected JSON, the `error`
-- object's message, or the `result` text.
pub data RpcReply : Type 0 where
  unreachable malformed rpc_error rpc_result : String → RpcReply

pub record World : Type 0 where
  -- `os.Getenv`; a variable that is not set is the empty text
  pub getenv : String → String
  -- the node's answer to `eth_call` at an endpoint, a contract and call data
  pub post : String → String → Bytes → RpcReply
  -- package `common`
  pub is_hex_address : String → Bool
  pub hex_to_address : String → Bytes
  pub hex2bytes : String → Bytes
  pub hash_hex : Bytes → String
  pub address_hex : Bytes → String
  -- package `crypto`
  pub keccak256 : Bytes → Bytes
  pub hex_to_ecdsa : String → Result Bytes
  pub sign : Bytes → Bytes → Result Bytes
  pub pubkey_to_address : Bytes → Bytes
  -- package `abi`, at the three parsed ABIs
  pub pack_factors : Bytes → Result Bytes
  pub unpack_factors : Bytes → Result (ℕ × ℕ × ℕ)
  pub pack_collateral : Bytes → Result Bytes
  pub unpack_collateral : Bytes → Result ℕ
  pub pack_feed : Bytes → Result Bytes
  pub unpack_feed : Bytes → Result (ℕ × ℤ × ℕ)
  pub pack_guards : ℕ → Result Bytes
  pub unpack_guards : Bytes → Result GuardPolicy
  -- package `teeutils`
  pub to_hash : String → Bytes
