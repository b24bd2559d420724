-- ===== src/Tools/Chain/Revert.antt =====
-- tee/tools/pkg/fccutils/revert.go
pub mod Naming
pub mod Selectors
use Prim.Native.String.{◌++◌ as ◌+++◌}
use praesidio.Prelude.{
  Bytes, String, List, [], ◌∷◌, Option, none, some, take, length, ltb, bytes_eq, str_eq, ◌||◌,
  if◌then◌else◌,
}
use praesidio.Prelude.Text.{trim_0x, hex_encode}
use praesidio.Prelude.Text.Hex.{hex_decode}
use praesidio.Tools.Chain.{Node, GoError, Simulation, returned, reverted}
use praesidio.Tools.Chain.Calls.{Tx, Action, ask, pure, ◌>>=◌}

-- A revert that is long enough: its reason, or its bytes.
abbrev revert_text : String → Option String → String
revert_text hex (some reason) = reason
revert_text hex none = "0x" +++ hex

abbrev decoded_text : Node → String → Option Bytes → String
decoded_text n hex none = ""
decoded_text n hex (some bytes) =
    if ltb (length bytes) 4 then "" else revert_text hex (n.unpack_revert bytes)

-- `decodeRevertHex`
unfoldable pub decode_revert_hex : Node → String → String
decode_revert_hex n hex_str = let hex = trim_0x hex_str in decoded_text n hex (hex_decode hex)

abbrev data_text : Node → Option String → String
data_text n none = ""
data_text n (some hex) = decode_revert_hex n hex

-- `DecodeRevertReason`
unfoldable pub decode_revert_reason : Node → GoError → String
decode_revert_reason n e = data_text n e.error_data

-- `SimulateAndDecodeRevert`
unfoldable pub simulation_text : Node → Simulation → String
simulation_text n (reverted e) =
    let reason = decode_revert_reason n e in if str_eq reason "" then e.text else reason
simulation_text n (returned result) =
    if ltb (length result) 4 then "" else decode_revert_hex n (hex_encode result)

unfoldable pub simulate_and_decode_revert : Node → Tx → Action String
simulate_and_decode_revert n tx = do
  result ← ask "CallContract" (λ h. n.simulate h tx)
  pure (simulation_text n result)

-- A custom error of an ABI: its name, its identifier, and `%v` of the arguments that its `Unpack`
-- finds in revert data, and its `Inputs.Unpack` in what follows the selector.
pub record CustomError : Type 0 where
  pub name : String
  pub id : Bytes
  pub arguments : Bytes → Option String
  pub inputs : Bytes → Option String

abbrev pub named : String → Option String → String
named name none = name
named name (some text) = if str_eq text "[]" || str_eq text "<nil>" then name else name +++ text

-- The loop of `MatchCustomError`, over the errors in the order in which the map gives them.
unfoldable pub match_selector : List CustomError → Bytes → String
match_selector [] bytes = ""
match_selector (e ∷ es) bytes =
    let rest = match_selector es bytes in
    if bytes_eq (take 4 e.id) (take 4 bytes) then named e.name (e.arguments bytes) else rest

abbrev match_decoded : List CustomError → Option Bytes → String
match_decoded errors none = ""
match_decoded errors (some bytes) = if ltb (length bytes) 4 then "" else match_selector errors bytes

-- `MatchCustomError`
unfoldable pub match_custom_error : List CustomError → String → String
match_custom_error errors revert_hex = match_decoded errors (hex_decode (trim_0x revert_hex))
