-- ===== src/Validate/EnvFile.antt =====
-- How tee/tools/pkg/validate/checks.go reads `extension.env`, in two ways.
pub mod Agreement
use Prim.Native.Nat.{ℕ, ◌+◌, ◌*◌, ◌-◌}
use Prim.Native.Char.{Char, code}
use Prim.Native.String.{String, [], ◌∷◌}
use mathlib.Core.List.{List}
use mathlib.Core.Option.{Option, none, some}
use mathlib.Core.Bool.{Bool, true, false, ◌&&◌, ◌||◌}
use praesidio.Prelude.{str_eq, if◌then◌else◌, ◌==◌, leb}
use praesidio.Prelude.Text.{trim_space, has_prefix2, drop2, text_length}

unfoldable pub is_hex_digit : ℕ → Bool
is_hex_digit c = (leb 48 c && leb c 57) || (leb 65 c && leb c 70) || (leb 97 c && leb c 102)

unfoldable pub all_hex : String → Bool
all_hex [] = true
all_hex (c ∷ s) = is_hex_digit (code c) && all_hex s

-- The expressions `^0x[0-9a-fA-F]{n}$`.
unfoldable pub is_hex_text : ℕ → String → Bool
is_hex_text n s = has_prefix2 b'0' b'x' s && all_hex (drop2 s) && text_length (drop2 s) == n

-- `addressRegex` and `extensionIDRegex`
unfoldable pub is_address : String → Bool
is_address s = is_hex_text 40 s

unfoldable pub is_extension_id : String → Bool
is_extension_id s = is_hex_text 64 s

-- The parts in front of and behind the first `=`, as `strings.SplitN(line, "=", 2)` gives them where
-- there is one.
put : Char → String × String → String × String
put c (k, v) = (c ∷ k, v)

put_option : Char → Option (String × String) → Option (String × String)
unfolding put
put_option c none = none
put_option c (some p) = some (put c p)

unfoldable pub split_equals : String → Option (String × String)
unfolding put_option
split_equals [] = none
split_equals (c ∷ s) =
    let rest = split_equals s in if code c == b'=' then some ([], s) else put_option c rest

-- A blank line or a comment.
unfoldable pub is_ignored : String → Bool
is_ignored [] = true
is_ignored (c ∷ s) = code c == b'#'

unfoldable pub trim_both : Option (String × String) → Option (String × String)
trim_both none = none
trim_both (some (k, v)) = some (trim_space k, trim_space v)

-- The entry that a line stands for.
unfoldable pub entry_of : String → Option (String × String)
entry_of text =
    let line = trim_space text in if is_ignored line then none else trim_both (split_equals line)

-- The map that `CheckExtensionEnvFormat` fills: the newest entry in front.
abbrev pub Vars : Type 0
Vars = List (String × String)

unfoldable pub set_var : Option (String × String) → Vars → Vars
set_var none vars = vars
set_var (some e) vars = List.◌∷◌ e vars

unfoldable pub read_vars : Vars → List String → Vars
read_vars vars List.[] = vars
read_vars vars (List.◌∷◌ line rest) = read_vars (set_var (entry_of line) vars) rest

unfoldable pub get_var : Vars → String → Option String
get_var List.[] key = none
get_var (List.◌∷◌ (k, v) rest) key =
    let older = get_var rest key in if str_eq k key then some v else older

-- The two results of `parseExtensionEnv`.
pub record ExtensionEnv : Type 0 where
  pub extension_id : String
  pub instruction_sender : String

abbrev pub no_env : ExtensionEnv
no_env = record { extension_id = ""; instruction_sender = "" }

unfoldable pub set_field : Option (String × String) → ExtensionEnv → ExtensionEnv
set_field none env = env
set_field (some (k, v)) env =
    if str_eq k "EXTENSION_ID"
    then record env { extension_id = v }
    else if str_eq k "INSTRUCTION_SENDER"
    then record env { instruction_sender = v }
    else env

unfoldable pub parse_lines : ExtensionEnv → List String → ExtensionEnv
parse_lines env List.[] = env
parse_lines env (List.◌∷◌ line rest) = parse_lines (set_field (entry_of line) env) rest

-- `parseExtensionEnv`; its error is always nil.
unfoldable pub parse_extension_env : Option (List String) → ExtensionEnv
parse_extension_env none = no_env
parse_extension_env (some lines) = parse_lines no_env lines

-- The value of hexadecimal digits, as `SetString(s, 16)` reads it.
unfoldable pub hex_digit_value : ℕ → ℕ
hex_digit_value c = if leb c 57 then c - 48 else if leb c 70 then c - 55 else c - 87

unfoldable pub hex_value : ℕ → String → ℕ
hex_value acc [] = acc
hex_value acc (c ∷ s) = hex_value (acc * 16 + hex_digit_value (code c)) s
