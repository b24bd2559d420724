-- ===== src/Guard/Rpc.antt =====
-- `ethCall`, `readVaultHealth` and `readGuard` of tee/go/internal/extension/guard_rpc.go.
use Prim.Native.String.{String}
use praesidio.Prelude.{
  ℕ, ◌≡◌, refl, Bool, false, ◌||◌, Bytes, ltb, if◌then◌else◌, str_eq, Bool-cases, inl, inr,
}
use praesidio.Prelude.Text.{trim_0x}
use praesidio.Prelude.Decimal.{decimal}
use praesidio.Prelude.Outcome.{Result, ok, err, ◌>>=◌, wrap, Ensures, Ensures-bind}
use praesidio.Guard.Data.{VaultHealth, GuardPolicy}
use praesidio.Guard.World.{World, RpcReply, unreachable, malformed, rpc_error, rpc_result}
use praesidio.Guard.Price.{format_price}

answer : World → RpcReply → Result Bytes
answer w (unreachable e) = err e
answer w (malformed e) = err e
answer w (rpc_error message) = wrap "rpc error: " (err message)
answer w (rpc_result result) = ok (w.hex2bytes (trim_0x result))

unfoldable pub eth_call : World → String → String → Bytes → Result Bytes
unfolding answer
eth_call w rpc to payload = answer w (w.post rpc to payload)

abbrev pub default_rpc : String
default_rpc = "https://coston2-api.flare.network/ext/C/rpc"

unfoldable pub rpc_url : World → String
rpc_url w = let rpc = w.getenv "COSTON2_RPC" in if str_eq rpc "" then default_rpc else rpc

abbrev pub xrp_usd_feed_id : String
xrp_usd_feed_id = "015852502f55534400000000000000000000000000"

unfoldable pub read_factors : World → String → Result (ℕ × ℕ × ℕ)
read_factors w vault = do
  payload ← wrap "packing factors call: " (w.pack_factors (w.hex_to_address vault))
  raw ← wrap "factors eth_call: " (eth_call w (rpc_url w) (w.getenv "ASSET_MANAGER") payload)
  wrap "unpacking factors: " (w.unpack_factors raw)

unfoldable pub read_collateral : World → String → Result ℕ
read_collateral w vault = do
  payload ← wrap "packing collateral call: " (w.pack_collateral (w.hex_to_address vault))
  raw ← wrap "collateral eth_call: " (eth_call w (rpc_url w) (w.getenv "ASSET_MANAGER") payload)
  wrap "unpacking collateral: " (w.unpack_collateral raw)

unfoldable pub read_price : World → Result String
read_price w = do
  payload ← wrap "packing feed call: " (w.pack_feed (w.hex2bytes xrp_usd_feed_id))
  raw ← wrap "feed eth_call: " (eth_call w (rpc_url w) (w.getenv "FTSO_V2") payload)
  (value, decimals, timestamp) ← wrap "unpacking feed: " (w.unpack_feed raw)
  ok (format_price value decimals)

-- `big.Int.Sign() > 0` of an unsigned number
abbrev positive : ℕ → Bool
positive n = ltb 0 n

unfoldable pub read_vault_health : World → String → Result VaultHealth
read_vault_health w vault =
    if str_eq (w.getenv "ASSET_MANAGER") "" || str_eq (w.getenv "FTSO_V2") ""
    then err "ASSET_MANAGER and FTSO_V2 env required"
    else (do
      (factor_vault, factor_pool, max_amount) ← read_factors w vault
      collateral ← read_collateral w vault
      price ← read_price w
      ok (record {
        vault = vault;
        vault_collateral_wei = decimal collateral;
        liq_factor_vault_bips = decimal factor_vault;
        liq_factor_pool_bips = decimal factor_pool;
        max_liquidation_amount = decimal max_amount;
        xrp_usd = price;
        collateral_ratio_bips = 0;
        liquidatable = positive factor_vault || positive factor_pool;
        below_policy_threshold = false;
      }))

unfoldable pub read_guard : World → ℕ → Result GuardPolicy
read_guard w guard_id =
    if str_eq (w.getenv "GUARDIAN_REGISTRY") "" then err "GUARDIAN_REGISTRY env required" else (do
      payload ← wrap "packing guards call: " (w.pack_guards guard_id)
      raw ← wrap "guards eth_call: " (eth_call w (rpc_url w) (w.getenv "GUARDIAN_REGISTRY") payload)
      wrap "unpacking guards: " (w.unpack_guards raw))

-- A report shows the two liquidation factors, and its flag says whether one is positive; the two
-- policy fields are never filled in.
pub record ReportsFactors (h : VaultHealth) : Type 0 where
  pub factor_vault : ℕ
  pub factor_pool : ℕ
  pub shows_vault : h.liq_factor_vault_bips ≡ decimal factor_vault
  pub shows_pool : h.liq_factor_pool_bips ≡ decimal factor_pool
  pub flag : h.liquidatable ≡ (ltb 0 factor_vault || ltb 0 factor_pool)
  pub no_ratio : h.collateral_ratio_bips ≡ 0
  pub no_threshold : h.below_policy_threshold ≡ false

pub read_vault_health-ReportsFactors :
    (w : World) (vault : String) → Ensures ReportsFactors (read_vault_health w vault)
unfolding read_vault_health
read_vault_health-ReportsFactors w vault =
    elim (Bool-cases (str_eq (w.getenv "ASSET_MANAGER") "" || str_eq (w.getenv "FTSO_V2") "")) [
      | inl unset ↦ rw unset tt
      | inr set ↦ rw set (
          Ensures-bind ReportsFactors (read_factors w vault) _ λ f.
            Ensures-bind ReportsFactors (read_collateral w vault) _ λ c.
              Ensures-bind ReportsFactors (read_price w) _ λ p. record {
                factor_vault = f.0;
                factor_pool = f.1;
                shows_vault = refl;
                shows_pool = refl;
                flag = refl;
                no_ratio = refl;
                no_threshold = refl;
              })
    ]
