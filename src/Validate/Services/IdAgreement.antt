-- ===== src/Validate/Services/IdAgreement.antt =====
-- The checks of three steps that judge the extension id.
use Prim.Native.String.{String}
use praesidio.Prelude.{
  ◌≡◌, refl, sym, ap, ◌∙◌, Bool, true, false, List, [], Option, none, some, str_eq, eq_iff,
  Bool-cases, inl, inr, subst,
}
use praesidio.Validate.Report.{pass, status_eq, CheckResult}
use praesidio.Validate.Host.{Host}
use praesidio.Validate.EnvFile.{
  read_vars, get_var, is_extension_id, is_hex_text, parse_extension_env,
}
use praesidio.Prelude.Text.{has_prefix2}
use praesidio.Validate.EnvFile.Agreement.{or_empty, parse_agrees}
use praesidio.Validate.Deploy.{format_check}
use praesidio.Validate.Services.{id_result, services_id_check, version_id_result, version_id_check}

abbrev pub passes : CheckResult → Bool
passes res = status_eq res.status pass

empty_id : is_extension_id "" ≡ false
unfolding is_extension_id is_hex_text has_prefix2
empty_id = refl

id_result_lem : (h : Host) (id : String) → passes (id_result h id) ≡ is_extension_id id
unfolding id_result status_eq
id_result_lem h id = elim (Bool-cases (str_eq id "")) [
  | inl empty ↦
      subst (λ x. passes (id_result h x) ≡ is_extension_id x) (sym ((eq_iff id "").0 empty))
        (sym empty_id)
  | inr other ↦ elim (Bool-cases (is_extension_id id)) [
    | inl good ↦ rw (other, good) refl
    | inr bad ↦ rw (other, bad) refl
  ]
]

empty_version : (is_missing : Bool) → passes (version_id_result is_missing "") ≡ false
unfolding version_id_result status_eq
empty_version true = refl
empty_version false = refl

version_id_lem :
    (is_missing : Bool) (id : String)
    → passes (version_id_result is_missing id) ≡ is_extension_id id
unfolding version_id_result status_eq
version_id_lem is_missing id = elim (Bool-cases (str_eq id "")) [
  | inl empty ↦
      subst (λ x. passes (version_id_result is_missing x) ≡ is_extension_id x)
        (sym ((eq_iff id "").0 empty)) (empty_version is_missing ∙ sym empty_id)
  | inr other ↦ elim (Bool-cases (is_extension_id id)) [
    | inl good ↦ rw (other, good) refl
    | inr bad ↦ rw (other, bad) refl
  ]
]

format_check_lem :
    (h : Host) (o : Option String)
    → passes (format_check h is_extension_id "EXTENSION_ID" o) ≡ is_extension_id (or_empty o)
unfolding format_check status_eq
format_check_lem h none = sym empty_id
format_check_lem h (some val) = elim (Bool-cases (is_extension_id val)) [
  | inl good ↦ rw good refl
  | inr bad ↦ rw bad refl
]

-- For a configuration file that opens, the checks S2 of the services and V4 of the version step pass
-- exactly when the check D7 of the deployment step passes the file's `EXTENSION_ID`, that is, when
-- the last value given to it is an id.
pub id_checks_agree :
    (h : Host) (path : String) (lines : List String)
    → str_eq path "" ≡ false
    → h.lines_of path ≡ some lines
    → (let wanted = get_var (read_vars [] lines) "EXTENSION_ID" in
        (passes (services_id_check h path)
          ≡ passes (format_check h is_extension_id "EXTENSION_ID" wanted))
        × (passes (version_id_check h path)
            ≡ passes (format_check h is_extension_id "EXTENSION_ID" wanted))
        × (passes (services_id_check h path) ≡ is_extension_id (or_empty wanted)))
unfolding services_id_check version_id_check
id_checks_agree h path lines given opened =
    let wanted = get_var (read_vars [] lines) "EXTENSION_ID" in
    let read = (parse_agrees lines).0 in
    let s2 : passes (id_result h (parse_extension_env (some lines)).extension_id)
        ≡ is_extension_id (or_empty wanted) =
      id_result_lem h (parse_extension_env (some lines)).extension_id ∙ ap is_extension_id read in
    let v4 : passes
          (version_id_result (h.is_missing path) (parse_extension_env (some lines)).extension_id)
        ≡ is_extension_id (or_empty wanted) =
      version_id_lem (h.is_missing path) (parse_extension_env (some lines)).extension_id
      ∙ ap is_extension_id read in
    let d7 = format_check_lem h wanted in rw (given, opened) (s2 ∙ sym d7, v4 ∙ sym d7, s2)
