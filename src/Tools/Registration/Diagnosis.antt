-- ===== src/Tools/Registration/Diagnosis.antt =====
-- tee/tools/pkg/fccutils/diag.go: what is logged of a refused availability check.
use praesidio.Prelude.{
  Bytes, String, List, [], ◌∷◌, Option, none, some, take, drop, length, ltb, bytes_eq,
  if◌then◌else◌,
}
use praesidio.Tools.Chain.{Node, GoError, Simulation, returned, reverted}
use praesidio.Tools.Chain.Revert.{CustomError}

-- The line that is logged.
pub data Diagnosis : Type 0 where
  succeeded : Diagnosis
  without_data : String → Diagnosis
  too_short : Bytes → Diagnosis
  revert_string : String → Diagnosis
  -- the contract, the error, and its arguments if they unpack
  custom_error : String → String → Option String → Diagnosis
  unknown_selector : Bytes → Bytes → Diagnosis

-- `ExtractRevertData`, at the errors whose data is a string
unfoldable pub extract_revert_data : Node → GoError → Bytes
extract_revert_data n e = from_data e.error_data
  where
    from_data : Option String → Bytes
    from_data none = []
    from_data (some hex) = n.from_hex hex

-- The first error of a contract with the selector.
unfoldable pub find_error : String → List CustomError → Bytes → Option Diagnosis
find_error contract [] data_bytes = none
find_error contract (e ∷ es) data_bytes =
    let rest = find_error contract es data_bytes in
    if bytes_eq (take 4 e.id) (take 4 data_bytes)
    then some (custom_error contract e.name (e.inputs (drop 4 data_bytes)))
    else rest

-- The contracts, in their order; one whose ABI does not load is left out.
unfoldable pub find_contract : List (String × Option (List CustomError)) → Bytes → Diagnosis
find_contract [] data_bytes = unknown_selector (take 4 data_bytes) data_bytes
find_contract ((contract, none) ∷ rest) data_bytes = find_contract rest data_bytes
find_contract ((contract, some errors) ∷ rest) data_bytes =
    first (find_error contract errors data_bytes) (find_contract rest data_bytes)
  where
    first : Option Diagnosis → Diagnosis → Diagnosis
    first (some d) later = d
    first none later = later

-- `Error(string)`
abbrev error_string : Bytes
error_string = 0x08 ∷ 0xc3 ∷ 0x79 ∷ 0xa0 ∷ []

abbrev reason_first : Option String → Diagnosis → Diagnosis
reason_first (some reason) later = revert_string reason
reason_first none later = later

unfoldable pub diagnose_data :
    Node → List (String × Option (List CustomError)) → String → Bytes → Diagnosis
diagnose_data n contracts text [] = without_data text
diagnose_data n contracts text (b ∷ bs) =
    let data_bytes = b ∷ bs in
    let custom = find_contract contracts data_bytes in
    if ltb (length data_bytes) 4
    then too_short data_bytes
    else if bytes_eq (take 4 data_bytes) error_string
    then reason_first (n.unpack_revert data_bytes) custom
    else custom

-- `diagAvailabilityCheckRevert`, from the `eth_call` on
unfoldable pub diagnose : Node → List (String × Option (List CustomError)) → Simulation → Diagnosis
diagnose n contracts (returned result) = succeeded
diagnose n contracts (reverted e) = diagnose_data n contracts e.text (extract_revert_data n e)
