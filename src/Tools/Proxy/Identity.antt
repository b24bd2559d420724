-- ===== src/Tools/Proxy/Identity.antt =====
-- Which machine a proxy stands for, and what it runs: tee/tools/pkg/fccutils/common.go and
-- `CodeHashAndPlatform` of tee_calls.go.
use Prim.Native.String.{String, ◌++◌ as ◌+++◌}
use praesidio.Prelude.{Bytes, Bool, not, bytes_eq, if◌then◌else◌}
use praesidio.Guard.Words.Encoding.{be_bytes}
use praesidio.Validate.Host.{Answer, ok, err}
use praesidio.Tools.Chain.Calls.{Action, lift, ◌>>=◌}
use praesidio.Tools.Proxy.{SignedTeeInfo, Services, answer_bind, tee_info, tee_proxy_id}

-- Packages `googlecloud` and `attestation`: the claims of a token, and what they say.
pub record Claims : Type 0 where
  pub parse_token : String → Answer Bytes
  pub code_hash : Bytes → Answer Bytes
  pub platform : Bytes → Answer Bytes

-- `TeeCodeHash` and `TestPlatform`
unfoldable pub tee_code_hash : Bytes
tee_code_hash = be_bytes 32 0x194844cf417dde867073e5ab7199fa4d21fd82b5dbe2bdea8b3d7fc18d10fdc2

unfoldable pub test_platform : Bytes
test_platform = be_bytes 32 0x544553545f504c4154464f524d00000000000000000000000000000000000000

-- `GetTeeProxyID`
unfoldable pub get_tee_proxy_id : Services → String → Action (Bytes × Bytes)
get_tee_proxy_id v url = do info ← tee_info v url; lift (tee_proxy_id v info)

-- `CodeHashAndPlatform`
unfoldable pub code_hash_and_platform : Claims → String → Answer (Bytes × Bytes)
code_hash_and_platform c token = answer_bind (c.parse_token token) λ claims.
    answer_bind (c.code_hash claims)
      λ hash. answer_bind (c.platform claims) λ platform. ok (hash, platform)

-- What follows: the machine's own data has to name the same.
unfoldable pub same_machine : Services → SignedTeeInfo → Bytes × Bytes → Answer (Bytes × Bytes)
same_machine v info (hash, platform) =
    if not (bytes_eq hash info.code_hash)
    then err (
        "code hashes do not match: "
        +++ v.node.hash_hex hash
        +++ ", "
        +++ v.node.hash_hex info.code_hash)
    else if not (bytes_eq platform info.platform)
    then err (
        "platforms do not matc: "
        +++ v.node.hash_hex platform
        +++ ", "
        +++ v.node.hash_hex info.platform)
    else ok (hash, platform)

-- `GetCodeHashAndPlatform`; whether the machine is simulated is SIMULATED_TEE.
unfoldable pub get_code_hash_and_platform :
    Services → Claims → Bool → SignedTeeInfo → Answer (Bytes × Bytes)
get_code_hash_and_platform v c simulated_tee info =
    answer_bind
      (if simulated_tee
        then ok (tee_code_hash, test_platform)
        else code_hash_and_platform c info.attestation)
      (same_machine v info)
