-- ===== src/Tools/Proxy.antt =====
-- The HTTP calls of tee/tools/pkg/fccutils: tee_calls.go and policy_consistency.go.
pub mod Configuring
pub mod Identity
pub mod Polling
pub mod Quiet
use Prim.Native.String.{◌++◌ as ◌+++◌}
use praesidio.Prelude.{
  ℕ, zero, suc, ◌+◌, ◌-◌, ◌%◌, Bytes, Bool, false, ◌||◌, String, List, Option, none, some, ltb,
  ◌==◌, two_64, if◌then◌else◌,
}
use praesidio.Prelude.Decimal.{decimal}
use praesidio.Validate.Host.{Answer, ok, err}
use praesidio.Tools.Chain.{Node}
use praesidio.Tools.Chain.Calls.{RequestBody, ResponseBody, History, Action, ask, pure, lift, ◌>>=◌}

-- `types.SignedTeeInfoResponse`, as far as the tools read it.
pub record SignedTeeInfo : Type 0 where
  pub public_key : Bytes
  pub chain_id : ℕ
  pub last_signing_policy_id : ℕ
  pub extension_id : Bytes
  pub initial_owner : Bytes
  pub code_hash : Bytes
  pub platform : Bytes
  pub machine_key : Bytes × Bytes
  pub governance_hash : Bytes
  pub data_signature : Bytes
  pub proxy_signature : Bytes
  pub attestation : String

-- What `http.Get` returns: an error, or a status with a body.
pub data Reply : Type 0 where
  no_reply : String → Reply
  reply : ℕ → Bytes → Reply

-- `types.ActionResult`, as far as the tools read it
pub record ActionResult : Type 0 where
  pub status : ℕ
  pub log : String
  pub result_data : Bytes

-- `fdc.ProveResponse`
pub record ProveResponse : Type 0 where
  pub response_header : Bytes
  pub encoded_request : Bytes
  pub encoded_response : Bytes
  pub data_provider_signatures : List Bytes

pub record Services : Type 0 where
  pub node : Node
  -- `http.Get`, at a URL
  pub get : History → String → Reply
  -- `json`: the answer of `/info`, of `/action/result/…`, and the proof in the latter
  pub decode_info : Bytes → Answer SignedTeeInfo
  pub decode_action : Bytes → Answer ActionResult
  pub decode_proof : Bytes → Answer ProveResponse
  -- packages `fdc` and `structs`
  pub decode_header : Bytes → Answer Bytes
  pub decode_request : Bytes → Answer RequestBody
  pub decode_response : Bytes → Answer ResponseBody
  -- packages `types`, `signing` and `crypto`
  pub parse_pub_key : Bytes → Answer Bytes
  pub pubkey_to_address : Bytes → Bytes
  pub info_hash : SignedTeeInfo → Answer Bytes
  pub proxy_payload_hash : ℕ → Bytes → Answer Bytes
  pub text_hash : Bytes → Bytes
  pub sig_to_pub : Bytes → Bytes → Answer Bytes
  -- `FlareSystemsManager.getCurrentRewardEpochId`, which may come as nil
  pub current_reward_epoch : History → Answer (Option ℕ)

abbrev pub repeats : ℕ
repeats = 15

-- The body of an answer, whatever its status.
abbrev body_of : Reply → Answer Bytes
body_of (no_reply e) = err e
body_of (reply status body) = ok body

-- `TeeInfo`
unfoldable pub tee_info : Services → String → Action SignedTeeInfo
tee_info v url = do
  result ← ask "GET /info" (λ h. v.get h (url +++ "/info"))
  body ← lift (body_of result)
  lift (v.decode_info body)

abbrev pub answer_bind : {A B : Type 0} → Answer A → (A → Answer B) → Answer B
answer_bind (ok a) f = f a
answer_bind (err e) f = err e

-- `TeeProxyId`
unfoldable pub tee_proxy_id : Services → SignedTeeInfo → Answer (Bytes × Bytes)
tee_proxy_id v info = answer_bind (v.parse_pub_key info.public_key) λ pub_key.
    answer_bind (v.info_hash info) λ hash.
      answer_bind (v.proxy_payload_hash info.chain_id hash) λ info_sign_hash.
        answer_bind (v.sig_to_pub (v.text_hash info_sign_hash) info.proxy_signature)
          λ proxy_pub_key. ok (v.pubkey_to_address pub_key, v.pubkey_to_address proxy_pub_key)

abbrev pub is_status_ok : Reply → Bool
is_status_ok (no_reply e) = false
is_status_ok (reply status body) = status == 200

abbrev pub sleep : Action {0} Unit
sleep = ask "time.Sleep" (λ h. tt)

abbrev pub result_url : Services → String → Bytes → String
result_url v url action_id = url +++ "/action/result/" +++ v.node.hash_hex action_id

-- The loop of `ActionResult`, with one round and `n` more.
unfoldable pub poll : Services → String → ℕ → Action Reply
poll v url zero = do
  result ← ask "GET /action/result" (λ h. v.get h url)
  if is_status_ok result then pure result else (do _ ← sleep; pure result)
poll v url (suc n) = do
  result ← ask "GET /action/result" (λ h. v.get h url)
  if is_status_ok result then pure result else (do _ ← sleep; poll v url n)

-- What `ActionResult` makes of the last answer.
unfoldable pub after_poll : Services → Reply → Answer ActionResult
after_poll v (no_reply e) = err e
after_poll v (reply status body) =
    if status == 200
    then v.decode_action body
    else err ("action result status not ok, got: " +++ decimal status)

-- `ActionResult`
unfoldable pub action_result : Services → String → Bytes → Action ActionResult
action_result v url action_id = do
  last ← poll v (result_url v url action_id) (repeats - 1)
  lift (after_poll v last)

-- `policyInSync`, in `uint64`
unfoldable pub policy_in_sync : ℕ → ℕ → Bool
policy_in_sync onchain_epoch proxy_policy_id =
    proxy_policy_id == onchain_epoch || proxy_policy_id == (onchain_epoch + 1) % two_64

-- `outOfSyncError`
unfoldable pub out_of_sync_error : ℕ → ℕ → String
out_of_sync_error onchain_epoch proxy_policy_id =
    let rel =
      if ltb proxy_policy_id onchain_epoch
      then "proxy is " +++ decimal (onchain_epoch - proxy_policy_id) +++ " epoch(s) behind"
      else "proxy is " +++ decimal (proxy_policy_id - onchain_epoch) +++ " epoch(s) ahead" in
    "FTDC proxy signing policy out of sync with on-chain reward epoch: proxy signing policy "
    +++ decimal proxy_policy_id
    +++ " vs on-chain current reward epoch "
    +++ decimal onchain_epoch
    +++ " ("
    +++ rel
    +++ "); data providers will reject the availability check with 404 \"no round\"; "
    +++ "wait for the proxy to catch up to the current signing policy, or check the proxy's "
    +++ "initial_signing_policy_offset and C-chain indexer sync"

-- What follows the two lookups; an epoch is cut to `uint64`.
unfoldable pub compare_policy : ℕ → Reply → Services → Answer {0} Unit
compare_policy onchain (no_reply e) v = ok tt
compare_policy onchain (reply status body) v = compared onchain (v.decode_info body)
  where
    compared : ℕ → Answer SignedTeeInfo → Answer {0} Unit
    compared onchain (err e) = ok tt
    compared onchain (ok info) =
        let onchain_epoch = onchain % two_64 in
        let proxy_policy_id = info.last_signing_policy_id in
        if policy_in_sync onchain_epoch proxy_policy_id
        then ok tt
        else err (out_of_sync_error onchain_epoch proxy_policy_id)

unfoldable pub after_epoch : Services → String → Answer (Option ℕ) → Action {0} Unit
after_epoch v url (err e) = pure tt
after_epoch v url (ok none) = pure tt
after_epoch v url (ok (some onchain)) = do
  info ← ask "GET /info" (λ h. v.get h (url +++ "/info"))
  lift (compare_policy onchain info v)

-- `CheckFTDCProxyPolicyConsistency`
unfoldable pub check_ftdc_proxy_policy_consistency : Services → String → Action {0} Unit
check_ftdc_proxy_policy_consistency v url = do
  epoch ← ask "getCurrentRewardEpochId" v.current_reward_epoch
  after_epoch v url epoch
