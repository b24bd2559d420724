-- ===== src/Guard/Check.antt =====
pub mod Decision
pub mod Effects
-- `checkVaultJSON` and `signTopUpAction` of tee/go/internal/extension/extension.go. The state is the
-- mutable part of `Extension`; it comes back beside an error too.
use Prim.Native.String.{String, ◌++◌}
use praesidio.Prelude.{
  ℕ, ◌+◌, ◌%◌, Bool, not, ◌&&◌, ◌||◌, Option, none, some, ltb, ◌==◌, if◌then◌else◌, str_eq, two_64,
}
use praesidio.Prelude.Text.{trim_0x, hex_encode}
use praesidio.Prelude.Decimal.{decimal, NumError, parse_uint}
use praesidio.Prelude.Outcome.{Result, ok, err, panic, ◌>>=◌, wrap}
use praesidio.Guard.Data.{
  CheckVaultRequest, CheckVaultResponse, VaultHealth, GuardPolicy, SignedAction, State,
  action_vault_top_up,
}
use praesidio.Guard.World.{World}
use praesidio.Guard.Rpc.{read_vault_health, read_guard}
use praesidio.Guard.Digest.{registry_digest}

-- An unreadable `CHAIN_ID`, and 0, stand for Coston2.
unfoldable pub chain_id_of : ℕ × Option NumError → ℕ
chain_id_of (n, none) = if n == 0 then 114 else n
chain_id_of (n, some e) = 114

unfoldable pub sign_top_up_action : World → ℕ → ℕ → String → ℕ → Result SignedAction
sign_top_up_action w guard_id action_type amount nonce =
    let key_hex = w.getenv "GUARDIAN_KEY" in
    let chain_id = chain_id_of (parse_uint (w.getenv "CHAIN_ID")) in
    if str_eq key_hex "" then err "GUARDIAN_KEY not set inside the enclave" else (do
      priv ← wrap "parsing enclave key: " (w.hex_to_ecdsa (trim_0x key_hex))
      digest ← registry_digest w chain_id guard_id action_type nonce amount
      sig ← wrap "signing digest: " (w.sign digest priv)
      ok (record {
        guard_id = guard_id;
        action_type = action_type;
        amount = amount;
        nonce = nonce;
        chain_id = chain_id;
        digest = w.hash_hex digest;
        signature = "0x" ++ hex_encode sig;
        signer = w.address_hex (w.pubkey_to_address priv);
      }))

-- The two reads, before anything is decided.
unfoldable pub observe : World → CheckVaultRequest → Result (VaultHealth × GuardPolicy)
observe w req =
    if not (w.is_hex_address req.agent_vault) then err "agentVault must be a valid address" else (do
      health ← wrap "reading vault health: " (read_vault_health w req.agent_vault)
      guard ← wrap "reading guard policy: " (read_guard w req.guard_id)
      ok (health, guard))

-- A parse error of a factor is ignored, and the value that comes with it is used.
unfoldable pub in_danger : VaultHealth → Bool
in_danger health =
    ltb 0 (parse_uint health.liq_factor_vault_bips).0
    || ltb 0 (parse_uint health.liq_factor_pool_bips).0

unfoldable pub decision_of : Bool → String
decision_of danger = if danger then "TOP_UP_REQUIRED" else "WATCH"

-- `lastActionNonce + 1` in `uint64`
unfoldable pub next_nonce : GuardPolicy → ℕ
next_nonce guard = (guard.last_action_nonce + 1) % two_64

unfoldable pub record_check : CheckVaultRequest → String → State → State
record_check req decision s = record s {
  last_check_vault = req.agent_vault;
  last_decision = decision;
  checks_performed = (s.checks_performed + 1) % two_64;
}

unfoldable pub record_signature : State → State
record_signature s = record s { actions_signed = (s.actions_signed + 1) % two_64 }

-- What follows the call of `signTopUpAction`.
unfoldable pub attach :
    Result SignedAction → CheckVaultResponse → State → Result CheckVaultResponse × State
attach (ok signed) resp s = (ok (record resp { signed = some signed }), record_signature s)
attach (err e) resp s = (err ("signing action: " ++ e), s)
attach panic resp s = (panic, s)

unfoldable pub decide :
    World
    → CheckVaultRequest
    → VaultHealth
    → GuardPolicy
    → State
    → Result CheckVaultResponse × State
decide w req health guard s =
    let danger = in_danger health in
    let decision = decision_of danger in
    let resp : CheckVaultResponse = record {
      healthy = not danger;
      health = health;
      decision = decision;
      signed = none;
    } in
    let s1 = record_check req decision s in
    let signed =
      sign_top_up_action w req.guard_id action_vault_top_up (decimal guard.top_up_amount_wei)
        (next_nonce guard) in
    if danger && guard.active then attach signed resp s1 else (ok resp, s1)

unfoldable pub decide_read :
    World
    → CheckVaultRequest
    → Result (VaultHealth × GuardPolicy)
    → State
    → Result CheckVaultResponse × State
decide_read w req (ok (health, guard)) s = decide w req health guard s
decide_read w req (err e) s = (err e, s)
decide_read w req panic s = (panic, s)

unfoldable pub check_vault_json :
    World → CheckVaultRequest → State → Result CheckVaultResponse × State
check_vault_json w req s = decide_read w req (observe w req) s
