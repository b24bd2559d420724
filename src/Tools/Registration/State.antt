-- ===== src/Tools/Registration/State.antt =====
-- The state file of tee/tools/pkg/fccutils/registration.go: `loadState`, `saveState` and its removal.
use Prim.Native.Char.{code}
use Prim.Native.String.{◌++◌ as ◌+++◌}
use text.Mathlib.TextLemmas.{nil-append, cons-append}
use praesidio.Prelude.{
  ℕ, Bytes, Bool, true, false, ◌≡◌, refl, sym, ap, ◌∙◌, ◌||◌, String, Option, some, none, replicate,
  ◌==◌,
}
use praesidio.Validate.Host.{Answer, ok, err}
use praesidio.Tools.Chain.Calls.{History, Action, asked, label, record_call}

-- `registrationState`
pub record RegistrationState : Type 0 where
  pub completed_steps : String
  pub tee_attest_instruction_id : Bytes
  pub instruction_id : Bytes

-- The file system, at the state file, and the texts that are written to it.
pub record StateFile : Type 0 where
  -- why a file that exists cannot be read, or a file not be written or removed
  pub read_error : History → Option String
  pub write_error : History → Option String
  pub remove_error : History → Option String
  -- what a write that failed leaves
  pub torn : History → Option String
  -- `json.MarshalIndent` and `json.Unmarshal`
  pub marshal : RegistrationState → Answer String
  pub unmarshal : String → Answer RegistrationState

abbrev pub zero_hash : Bytes
zero_hash = replicate 32 0

abbrev pub empty_state : RegistrationState
empty_state = record {
  completed_steps = "";
  tee_attest_instruction_id = zero_hash;
  instruction_id = zero_hash;
}

-- `strings.Contains` of one character
unfoldable pub contains : ℕ → String → Bool
contains c Prim.Native.String.[] = false
contains c (Prim.Native.String.◌∷◌ d s) = code d == c || contains c s

-- `loadState`: no file stands for the empty state.
abbrev pub parsed : StateFile → Option String → Answer RegistrationState
parsed f none = ok empty_state
parsed f (some text) = label "failed to parse state file: " (f.unmarshal text)

unfoldable pub read_state : StateFile → Option String → Option String → Answer RegistrationState
read_state f (some e) file = err ("failed to read state file: " +++ e)
read_state f none file = parsed f file

unfoldable pub load_state : StateFile → Action RegistrationState
load_state f s = (read_state f (f.read_error s.history) s.file, record_call (asked "ReadFile") s)

-- `saveState`
unfoldable pub write_file : StateFile → String → Option String → Action {0} Unit
write_file f text none s = (ok tt, record (record_call (asked "WriteFile") s) { file = some text })
write_file f text (some e) s = (
  err ("failed to write state file: " +++ e),
  record (record_call (asked "WriteFile") s) { file = f.torn s.history },
)

abbrev pub write_marshalled : StateFile → Answer String → Action {0} Unit
write_marshalled f (ok text) s = write_file f text (f.write_error s.history) s
write_marshalled f (err e) s = (err ("failed to marshal state: " +++ e), s)

unfoldable pub save_state : StateFile → RegistrationState → Action {0} Unit
save_state f st = write_marshalled f (f.marshal st)

-- A state that cannot be saved is only warned of.
unfoldable pub save_or_warn : StateFile → RegistrationState → Action {0} Unit
save_or_warn f st s = (ok tt, (save_state f st s).1)

-- `os.Remove`, its error ignored
abbrev pub left_file : Option String → Option String → Option String
left_file none file = none
left_file (some e) file = file

unfoldable pub remove_state : StateFile → Action {0} Unit
remove_state f s = (
  ok tt,
  record (record_call (asked "Remove") s) { file = left_file (f.remove_error s.history) s.file },
)

or_assoc : (a b c : Bool) → ((a || b) || c) ≡ (a || (b || c))
or_assoc true b c = refl
or_assoc false b c = refl

pub contains-append : (c : ℕ) (s t : String) → contains c (s +++ t) ≡ (contains c s || contains c t)
unfolding contains
contains-append c Prim.Native.String.[] t = ap (contains c) (nil-append t)
contains-append c (Prim.Native.String.◌∷◌ d s) t =
    ap (contains c) (cons-append d s t)
    ∙ ap (λ x. (code d == c) || x) (contains-append c s t)
    ∙ sym (or_assoc (code d == c) (contains c s) (contains c t))

or-true : (a : Bool) → (a || true) ≡ true
or-true true = refl
or-true false = refl

or-false : (a : Bool) → (a || false) ≡ a
or-false true = refl
or-false false = refl

-- A letter at the end is found, and no other is.
pub contains-append_same :
    (c : ℕ) (s t : String) → contains c t ≡ true → contains c (s +++ t) ≡ true
contains-append_same c s t h =
    contains-append c s t ∙ ap (λ x. contains c s || x) h ∙ or-true (contains c s)

pub contains-append_other :
    (c : ℕ) (s t : String) → contains c t ≡ false → contains c (s +++ t) ≡ contains c s
contains-append_other c s t h =
    contains-append c s t ∙ ap (λ x. contains c s || x) h ∙ or-false (contains c s)
