-- ===== src/Tools/Registration/Plan/Parts.antt =====
-- The parts of a registration that the steps share, against their plan.
use praesidio.Prelude.{
  ℕ, Bytes, false, String, [], ◌∷◌, ◌≡◌, refl, ap, Option, none, some, if◌then◌else◌,
}
use praesidio.Validate.Host.{Answer, ok, err}
use praesidio.Tools.Chain.Calls.{Tx, Session, Action, asked, sent-append}
use praesidio.Tools.Chain.Follows.{
  Frame, Served, Follows, Served-nil, Follows-pure, Follows-ask, Follows-if, Follows-bind_quiet,
  Follows-bind_last,
}
use praesidio.Tools.Chain.Yields.{Yields, Yields-pure, Yields-if, Yields-bind, Yields-bind_known}
use praesidio.Tools.Registration.{attested, attest_step}
use praesidio.Tools.Registration.State.{
  RegistrationState, StateFile, contains, contains-append_other, save_or_warn, save_state,
  write_file, write_marshalled, remove_state,
}
use praesidio.Tools.Registration.Plan.{Step, wanted}

-- No letter but those of the step is added to the saved ones.
abbrev pub Unaffected : String → RegistrationState → RegistrationState × Bytes → Type 0
Unaffected letter st (st1, id) =
    (c : ℕ)
    → contains c letter ≡ false
    → contains c st1.completed_steps ≡ contains c st.completed_steps

pub wanted_same :
    (c : ℕ) (k : Step) (command s t : String)
    → contains c s ≡ contains c t
    → wanted c k command s ≡ wanted c k command t
wanted_same c k command s t e =
    ap (λ x. if contains c command then (if x then [] else k ∷ []) else []) e

-- The letters of the steps differ.
pub letters_apart :
    (contains b'R' "r" ≡ false) × (contains b'a' "r" ≡ false) × (contains b'a' "R" ≡ false)
unfolding contains
letters_apart = (refl, refl, refl)

module _ (f : StateFile) where
  Yields-attested :
      (c : ℕ) (letter : String) (act : Action Bytes) (st : RegistrationState)
      → Yields (Unaffected letter st) (attested f c letter act st)
  unfolding attested
  Yields-attested c letter act st =
      Yields-if _ (contains c st.completed_steps) _ _ (Yields-pure _ _ λ d e. refl) (
        Yields-bind _ _ _ λ id.
          Yields-bind _ _ _
            λ _. Yields-pure _ _ λ d e. contains-append_other d st.completed_steps letter e)

  pub Yields-attest_step :
      (command : String) (c : ℕ) (letter : String) (act : Action Bytes) (st : RegistrationState)
      (id : Bytes)
      → Yields (Unaffected letter st) (attest_step f command c letter act (st, id))
  unfolding attest_step
  Yields-attest_step command c letter act st id =
      Yields-if _ (contains c command) _ _
        (Yields-bind_known (Unaffected letter st) _ _ _ (Yields-attested c letter act st)
          λ p h. Yields-bind _ _ _ λ _. Yields-pure _ p h)
        (Yields-pure _ _ λ d e. refl)

-- A frame that lets the file change.
abbrev pub loose : {K : Type 0} → (K → Tx → Type 0) → Frame K
loose serves = record { serves = serves; keeps_file = false }

module _ {K : Type 0} (R : K → Tx → Type 0) (f : StateFile) where
  abbrev L : Frame K
  L = loose R

  Served-write_file :
      (text : String) (e : Option String) (s : Session) → Served L [] s (write_file f text e s).1
  unfolding write_file
  Served-write_file text none s = ([], sent-append s.history (asked "WriteFile" ∷ []), tt, tt)
  Served-write_file text (some e) s = ([], sent-append s.history (asked "WriteFile" ∷ []), tt, tt)

  Served-write_marshalled :
      (r : Answer String) (s : Session) → Served L [] s (write_marshalled f r s).1
  Served-write_marshalled (ok text) s = Served-write_file text (f.write_error s.history) s
  Served-write_marshalled (err e) s = Served-nil L s

  pub Served-saved : (st : RegistrationState) (s : Session) → Served L [] s (save_state f st s).1
  unfolding save_state
  Served-saved st s = Served-write_marshalled (f.marshal st) s

  pub Follows-save : (st : RegistrationState) → Follows L [] (save_or_warn f st)
  unfolding save_or_warn
  Follows-save st = record { at = λ s. Served-saved st s }

  Follows-attested :
      (c : ℕ) (k : K) (letter : String) (act : Action Bytes) (st : RegistrationState)
      → Follows L (k ∷ []) act
      → Follows L
          (if contains c st.completed_steps then [] else k ∷ [])
          (attested f c letter act st)
  unfolding attested
  Follows-attested c k letter act st h =
      Follows-if L (contains c st.completed_steps) [] (k ∷ []) _ _ (Follows-pure L _) (
        Follows-bind_last L (k ∷ []) _ _ h
          λ id. Follows-bind_quiet L [] _ _ (Follows-save _) λ _. Follows-pure L _)

  pub Follows-attest_step :
      (command : String) (c : ℕ) (k : K) (letter : String) (act : Action Bytes)
      (st : RegistrationState) (id : Bytes)
      → Follows L (k ∷ []) act
      → Follows L
          (if contains c command
            then (if contains c st.completed_steps then [] else k ∷ [])
            else [])
          (attest_step f command c letter act (st, id))
  unfolding attest_step
  Follows-attest_step command c k letter act st id h =
      Follows-if L (contains c command) _ [] _ _
        (Follows-bind_last L _ _ _ (Follows-attested c k letter act st h)
          λ p. Follows-bind_quiet L [] _ _ (Follows-ask L _ _) λ _. Follows-pure L p)
        (Follows-pure L _)

  pub Follows-remove : Follows L [] (remove_state f)
  unfolding remove_state
  Follows-remove = record { at = λ s. ([], sent-append s.history (asked "Remove" ∷ []), tt, tt) }
