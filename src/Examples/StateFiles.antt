-- ===== src/Examples/StateFiles.antt =====
-- A state file with a text format that can be read back: the identifiers digit by digit, and then
-- the letters.
use Prim.Native.Char.{code}
use Prim.Native.String.{String}
use praesidio.Prelude.{
  ℕ, zero, suc, ◌+◌, Bytes, [], ◌∷◌, Option, some, none, true, false, ◌≡◌, refl, ap, ◌∙◌, ◌==◌,
  arith,
}
use praesidio.Validate.Host.{Answer, ok, err}
use praesidio.Tools.Registration.State.{RegistrationState, StateFile}
use praesidio.Tools.Registration.Plan.Stages.{IsReliable}

-- A number as so many `1` and a `0`, and a list of them up to an `e`.
abbrev write_number : ℕ → String → String
write_number zero t = Prim.Native.String.◌∷◌ "0" t
write_number (suc n) t = Prim.Native.String.◌∷◌ "1" (write_number n t)

abbrev write_bytes : Bytes → String → String
write_bytes [] t = Prim.Native.String.◌∷◌ "e" t
write_bytes (n ∷ ns) t = write_number n (write_bytes ns t)

abbrev in_front : ℕ → Option (Bytes × String) → Option (Bytes × String)
in_front n none = none
in_front n (some (ns, t)) = some (n ∷ ns, t)

unfoldable read_bytes : String → ℕ → Option (Bytes × String)
read_bytes Prim.Native.String.[] n = none
read_bytes (Prim.Native.String.◌∷◌ c t) n = elim (code c == b'1') [
  | true ↦ read_bytes t (suc n)
  | false ↦ elim (code c == b'0') [ true ↦ in_front n (read_bytes t 0) | false ↦ some ([], t) ]
]

read_bytes-write_number :
    (n k : ℕ) (t : String) → read_bytes (write_number n t) k ≡ in_front (n + k) (read_bytes t 0)
unfolding read_bytes
read_bytes-write_number zero k t = ap (λ m. in_front m (read_bytes t 0)) (omega arith)
read_bytes-write_number (suc n) k t =
    read_bytes-write_number n (suc k) t ∙ ap (λ m. in_front m (read_bytes t 0)) (omega arith)

read_bytes-write_bytes : (ns : Bytes) (t : String) → read_bytes (write_bytes ns t) 0 ≡ some (ns, t)
unfolding read_bytes
read_bytes-write_bytes [] t = refl
read_bytes-write_bytes (n ∷ ns) t =
    read_bytes-write_number n 0 (write_bytes ns t)
    ∙ ap (in_front (n + 0)) (read_bytes-write_bytes ns t)
    ∙ ap (λ m. some (m ∷ ns, t)) (omega arith)

abbrev pub bytes_text : Bytes → String
bytes_text ns = write_bytes ns ""

abbrev first_or : Option (Bytes × String) → Bytes
first_or none = []
first_or (some (ns, t)) = ns

unfoldable pub text_bytes : String → Bytes
unfolding read_bytes
text_bytes s = first_or (read_bytes s 0)

pub text_bytes-bytes_text : (ns : Bytes) → text_bytes (bytes_text ns) ≡ ns
unfolding text_bytes
text_bytes-bytes_text ns = ap first_or (read_bytes-write_bytes ns "")

abbrev demo_marshal : RegistrationState → Answer String
demo_marshal st =
    ok (write_bytes st.tee_attest_instruction_id (write_bytes st.instruction_id st.completed_steps))

abbrev with_second : Bytes → Option (Bytes × String) → Answer RegistrationState
with_second ids none = err "unexpected end of JSON input"
with_second ids (some (more, letters)) =
    ok
      (record { completed_steps = letters; tee_attest_instruction_id = ids; instruction_id = more })

abbrev with_first : Option (Bytes × String) → Answer RegistrationState
with_first none = err "unexpected end of JSON input"
with_first (some (ids, rest)) = with_second ids (read_bytes rest 0)

unfoldable pub demo_unmarshal : String → Answer RegistrationState
unfolding read_bytes
demo_unmarshal text = with_first (read_bytes text 0)

-- The file can always be read, written and removed.
abbrev pub demo_file : StateFile
demo_file = record {
  read_error = λ h. none;
  write_error = λ h. none;
  remove_error = λ h. none;
  torn = λ h. none;
  marshal = demo_marshal;
  unmarshal = demo_unmarshal;
}

pub demo_file-IsReliable : IsReliable demo_file
unfolding demo_unmarshal
demo_file-IsReliable = record {
  reads = λ h. refl;
  writes = λ h. refl;
  round_trip = λ st. (
    _,
    refl,
    ap with_first (read_bytes-write_bytes st.tee_attest_instruction_id _)
        ∙ ap (with_second st.tee_attest_instruction_id)
            (read_bytes-write_bytes st.instruction_id st.completed_steps),
  );
}
