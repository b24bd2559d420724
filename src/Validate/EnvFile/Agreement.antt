-- ===== src/Validate/EnvFile/Agreement.antt =====
-- The two readings of `extension.env` agree.
use Prim.Native.String.{String}
use praesidio.Prelude.{
  ◌≡◌, refl, List, [], ◌∷◌, Option, none, some, str_eq, Bool-cases, subst, sym, eq_iff, inl, inr,
}
use praesidio.Validate.EnvFile.{
  entry_of, Vars, set_var, read_vars, get_var, ExtensionEnv, no_env, set_field, parse_lines,
  parse_extension_env,
}

-- A missing variable is the empty text.
abbrev pub or_empty : Option String → String
or_empty none = ""
or_empty (some v) = v

-- The fields hold what the map holds.
record IsRead (vars : Vars) (env : ExtensionEnv) : Type 0 where
  id : env.extension_id ≡ or_empty (get_var vars "EXTENSION_ID")
  sender : env.instruction_sender ≡ or_empty (get_var vars "INSTRUCTION_SENDER")

set-IsRead :
    (e : Option (String × String)) (vars : Vars) (env : ExtensionEnv)
    → IsRead vars env
    → IsRead (set_var e vars) (set_field e env)
unfolding set_var set_field get_var
set-IsRead none vars env h = h
set-IsRead (some (k, v)) vars env h = elim (Bool-cases (str_eq k "EXTENSION_ID")) [
  | inl is_id ↦
      subst (λ k'. IsRead (set_var (some (k', v)) vars) (set_field (some (k', v)) env))
        (sym ((eq_iff k "EXTENSION_ID").0 is_id)) (record { id = refl; sender = h.sender })
  | inr other ↦ elim (Bool-cases (str_eq k "INSTRUCTION_SENDER")) [
    | inl is_sender ↦
        subst (λ k'. IsRead (set_var (some (k', v)) vars) (set_field (some (k', v)) env))
          (sym ((eq_iff k "INSTRUCTION_SENDER").0 is_sender)) (record { id = h.id; sender = refl })
    | inr another ↦
        rw (other, another) (record { id = rw other h.id; sender = rw another h.sender })
  ]
]

lines-IsRead :
    (lines : List String) (vars : Vars) (env : ExtensionEnv)
    → IsRead vars env
    → IsRead (read_vars vars lines) (parse_lines env lines)
unfolding read_vars parse_lines
lines-IsRead [] vars env h = h
lines-IsRead (line ∷ rest) vars env h =
    lines-IsRead rest (set_var (entry_of line) vars) (set_field (entry_of line) env)
      (set-IsRead (entry_of line) vars env h)

-- `parseExtensionEnv` of a file that opens gives for `EXTENSION_ID` and for `INSTRUCTION_SENDER` what
-- the map of `CheckExtensionEnvFormat` has under these names, and the empty text for a name it
-- lacks.
pub parse_agrees :
    (lines : List String)
    → ((parse_extension_env (some lines)).extension_id
        ≡ or_empty (get_var (read_vars [] lines) "EXTENSION_ID"))
      × ((parse_extension_env (some lines)).instruction_sender
          ≡ or_empty (get_var (read_vars [] lines) "INSTRUCTION_SENDER"))
unfolding parse_extension_env get_var
parse_agrees lines =
    let h = lines-IsRead lines [] no_env (record { id = refl; sender = refl }) in (h.id, h.sender)
