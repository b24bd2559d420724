-- ===== src/Tools/Version.antt =====
-- The version of an extension: `StringToBytes32` and `AddTeeVersion` of
-- tee/tools/pkg/fccutils/registration.go, tee/tools/cmd/allow-tee-version/main.go from its query
-- on, and `bytes32ToString` of tee/tools/cmd/audit-deploy/main.go.
pub mod ReadBack
use Prim.Native.String.{String, ◌++◌ as ◌+++◌}
use praesidio.Prelude.{
  ℕ, ◌-◌, Bytes, Bool, List, [], ◌∷◌, ◌++◌, ltb, length, replicate, ◌==◌, if◌then◌else◌,
}
use praesidio.Prelude.Text.{trim_space}
use praesidio.Validate.Host.{Answer, ok, err}
use praesidio.Tools.Chain.{Node, send, saying, check_tx}
use praesidio.Tools.Chain.Calls.{Tx, History, Action, call_add_tee_version, ask, pure, lift, ◌>>=◌}
use praesidio.Tools.Instructions.Trial.{contains_text}

-- `StringToBytes32`: the bytes of a text, filled up with zeros; `%q` is a parameter.
unfoldable pub string_to_bytes32 : (Bytes → String) → Bytes → Answer Bytes
string_to_bytes32 quote s =
    if ltb 32 (length s)
    then err ("version " +++ quote s +++ " exceeds 32 bytes")
    else ok (s ++ replicate (32 - length s) 0)

-- `bytes32ToString`: the zeros at the end are cut off, from the last one on.
abbrev pub kept : ℕ → Bytes → Bytes
kept b [] = if b == 0 then [] else b ∷ []
kept b (c ∷ cs) = b ∷ c ∷ cs

unfoldable pub cut_zeros : Bytes → Bytes
cut_zeros [] = []
cut_zeros (b ∷ bs) = kept b (cut_zeros bs)

unfoldable pub bytes32_to_string : (Bytes → String) → Bytes → String
bytes32_to_string text_of bytes = trim_space (text_of (cut_zeros bytes))

-- `AddTeeVersion`
abbrev pub version_tx : ℕ → Bytes → Bytes → Bytes → Tx
version_tx extension_id version code_hash platform = record {
  method = call_add_tee_version extension_id version code_hash (platform ∷ []);
  value = 0;
}

unfoldable pub add_tee_version :
    Node → (Bytes → String) → Bytes → ℕ → Bytes → Bytes → Bytes → Action {0} Unit
add_tee_version n quote prv extension_id code_hash platform version = do
  _ ← lift (n.transactor prv)
  bytes ← lift (string_to_bytes32 quote version)
  hash ←
      send n (version_tx extension_id bytes code_hash platform)
        (saying "TeeExtensionRegistry.AddTeeVersion failed: ")
  _ ← check_tx n hash
  pure tt

-- An error that tells that the version exists is none.
unfoldable pub existing : Answer {0} Unit → Answer {0} Unit
existing (ok u) = ok tt
existing (err e) = if contains_text "VersionAlreadyExists" e then ok tt else err e

unfoldable pub allow_version : Action {0} Unit → Action {0} Unit
allow_version add s = let (r, s1) = add s in (existing r, s1)

-- `main` of allow-tee-version, behind the query of the proxy
unfoldable pub allow_tee_version :
    Node
    → (Bytes → String)
    → (History → Answer Bool)
    → Bytes
    → ℕ
    → Bytes
    → Bytes
    → Bytes
    → Action {0} Unit
allow_tee_version n quote is_supported prv extension_id code_hash platform version = do
  found ← ask "isCodeHashPlatformSupported" is_supported
  supported ← lift found
  if supported
      then pure tt
      else allow_version (add_tee_version n quote prv extension_id code_hash platform version)
