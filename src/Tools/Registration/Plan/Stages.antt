-- ===== src/Tools/Registration/Plan/Stages.antt =====
-- One step of a registration: where it leaves the state file, if the file can be relied on.
use Prim.Native.String.{◌++◌ as ◌+++◌}
use praesidio.Prelude.{
  ℕ, Bytes, Bool, true, false, Bool-cases, String, List, [], ◌∷◌, ◌++◌, ◌≡◌, refl, sym, ap, subst,
  ◌∙◌, none, if◌then◌else◌, ◌⊎◌, inl, inr,
}
use praesidio.Validate.Host.{Answer, ok, err}
use praesidio.Tools.Chain.Calls.{
  Tx, Session, History, Action, asked, record_call, pure, continue, ◌>>=◌,
}
use praesidio.Tools.Chain.Follows.{
  Frame, Match, Served, After, Follows, Served-nil, Served-append, Served-call,
}
use praesidio.Tools.Proxy.{sleep}
use praesidio.Tools.Registration.{
  Request, attested, attest_step, checked_availability, availability_done, availability_step,
}
use praesidio.Tools.Registration.State.{
  RegistrationState, StateFile, contains, contains-append_same, contains-append_other, parsed,
  save_or_warn, save_state, write_file,
}
use praesidio.Tools.Registration.Plan.{Step, check_availability, wanted, Serves}
use praesidio.Tools.Registration.Plan.Steps.{Follows-checked_availability}
use praesidio.Tools.Registration.Machine.{Bindings}
use praesidio.Tools.Registration.Plan.Parts.{Unaffected, loose, Served-saved}

-- The file can be read and written, and what is written is read back.
pub record IsReliable (f : StateFile) : Type 0 where
  pub reads : (h : History) → f.read_error h ≡ none
  pub writes : (h : History) → f.write_error h ≡ none
  pub round_trip :
      (st : RegistrationState)
      → (text : String) × (f.marshal st ≡ ok text) × (f.unmarshal text ≡ ok st)

-- Nothing, or the first of some steps.
abbrev pub IsStart : List Step → List Step → Type 0
IsStart extra ks =
    (extra ≡ []) ⊎ ((k : Step) × (rest : List Step) × (extra ≡ k ∷ []) × (ks ≡ k ∷ rest))

module _ (R : Step → Tx → Type 0) where
  abbrev pub strict : Frame Step
  strict = record { serves = R; keeps_file = true }

  Match-loose : (ks : List Step) (ts : List Tx) → Match strict ks ts → Match (loose R) ks ts
  Match-loose [] [] h = h
  Match-loose [] (t ∷ ts) h = h
  Match-loose (k ∷ ks) [] h = h
  Match-loose (k ∷ ks) (t ∷ ts) (h, hs) = (h, Match-loose ks ts hs)

  pub Served-loose :
      (ks : List Step) (s s' : Session) → Served strict ks s s' → Served (loose R) ks s s'
  Served-loose ks s s' (ts, e, m, h) = (ts, e, Match-loose ks ts m, tt)

  pub Served-file : (ks : List Step) (s s' : Session) → Served strict ks s s' → s'.file ≡ s.file
  Served-file ks s s' (ts, e, m, h) = h

  -- The start of one step is nothing or the step.
  pub IsStart-one :
      (k : Step) (extra rest : List Step) → extra ++ rest ≡ k ∷ [] → IsStart extra (k ∷ [])
  IsStart-one k [] rest e = inl refl
  IsStart-one k (x ∷ []) rest e = inr (k, [], cc, refl)
  IsStart-one k (x ∷ y ∷ xs) rest e = cc

-- A step that is saved or not asked for is not wanted.
pub wanted_done :
    (c : ℕ) (k : Step) (command done : String)
    → contains c done ≡ true
    → wanted c k command done ≡ []
wanted_done c k command done e =
    rw e (elim (Bool-cases (contains c command)) [ inl h ↦ rw h refl | inr h ↦ rw h refl ])

pub wanted_unasked :
    (c : ℕ) (k : Step) (command done : String)
    → contains c command ≡ false
    → wanted c k command done ≡ []
wanted_unasked c k command done e = rw e refl

module _ (f : StateFile) (reliable : IsReliable f) where
  pub parsed-save_state :
      (st : RegistrationState) (s : Session) → parsed f (save_state f st s).1.file ≡ ok st
  unfolding save_state write_file
  parsed-save_state st s =
      let (text, e, h) = reliable.round_trip st in rw e (rw (reliable.writes s.history) (rw h refl))

-- A step that went through, and one that did not.
abbrev pub Stage :
    (Step → Tx → Type 0)
    → StateFile
    → (RegistrationState → List Step)
    → String
    → RegistrationState
    → Session
    → Answer (RegistrationState × Bytes) × Session
    → Type 0
Stage R f w letter st s (ok (st1, id), s1) =
    Served (loose R) (w st) s s1
    × (parsed f s1.file ≡ ok st1)
    × Unaffected letter st (st1, id)
    × (w st1 ≡ [])
Stage R f w letter st s (err e, s1) =
    (extra : List Step) × IsStart extra (w st) × Served (loose R) extra s s1 × (s1.file ≡ s.file)

module _ (R : Step → Tx → Type 0) (f : StateFile) (reliable : IsReliable f)
    (command letter : String) (c : ℕ) (k : Step) (letter_has : contains c letter ≡ true) where
  abbrev w : RegistrationState → List Step
  w st = wanted c k command st.completed_steps

  -- The shape that the steps share.
  abbrev saving : (Bytes → RegistrationState) → Bytes → Action (RegistrationState × Bytes)
  saving grow id = save_or_warn f (grow id) >>= λ _. pure (grow id, id)

  abbrev pausing : RegistrationState × Bytes → Action (RegistrationState × Bytes)
  pausing p = sleep >>= λ _. pure p

  abbrev staged :
      Bool
      → Bool
      → Bytes
      → Bytes
      → (Bytes → RegistrationState)
      → Action Bytes
      → RegistrationState
      → Action (RegistrationState × Bytes)
  staged is_asked is_done kept other grow act st =
      if is_asked
      then (if is_done then pure (st, kept) else act >>= saving grow) >>= pausing
      else pure (st, other)

  Stage-fresh :
      (grow : Bytes → RegistrationState) (st : RegistrationState)
      → ((id : Bytes) → (grow id).completed_steps ≡ (st.completed_steps +++ letter))
      → w st ≡ k ∷ []
      → (s s1 : Session) (r : Answer Bytes) → After (strict R) (k ∷ []) s (r, s1)
      → Stage R f w letter st s
          (continue (continue r (saving grow) s1).0 pausing (continue r (saving grow) s1).1)
  unfolding ◌>>=◌ save_or_warn
  Stage-fresh grow st grown e s s1 (ok id) h =
      let s2 = (save_state f (grow id) s1).1 in
      let s3 = record_call (asked "time.Sleep") s2 in
      (
        subst (λ x. Served (loose R) x s s3) (sym e)
            (Served-append (loose R) (k ∷ []) [] s s1 s3 (Served-loose R (k ∷ []) s s1 h) (
              Served-append (loose R) [] [] s1 s2 s3 (Served-saved R f (grow id) s1)
                (Served-call (loose R) [] [] (asked "time.Sleep") s2 refl tt))),
        parsed-save_state f reliable (grow id) s1,
        (λ d g. ap (contains d) (grown id) ∙ contains-append_other d st.completed_steps letter g),
        wanted_done c k command (grow id).completed_steps (
            ap (contains c) (grown id)
            ∙ contains-append_same c st.completed_steps letter letter_has),
      )
  Stage-fresh grow st grown e s s1 (err text) (done, rest, d, h) = (
    done,
    subst (IsStart done) (sym e) (IsStart-one R k done rest d),
    Served-loose R done s s1 h,
    Served-file R done s s1 h,
  )

  Stage-staged :
      (is_asked is_done : Bool) (kept other : Bytes) (grow : Bytes → RegistrationState)
      (act : Action Bytes) (st : RegistrationState)
      → contains c command ≡ is_asked
      → contains c st.completed_steps ≡ is_done
      → ((id : Bytes) → (grow id).completed_steps ≡ (st.completed_steps +++ letter))
      → Follows (strict R) (k ∷ []) act
      → (s : Session) → parsed f s.file ≡ ok st
      → Stage R f w letter st s (staged is_asked is_done kept other grow act st s)
  unfolding ◌>>=◌ save_or_warn
  Stage-staged true true kept other grow act st ea ed grown h s synced = (
    subst (λ x. Served (loose R) x s (record_call (asked "time.Sleep") s))
        (sym (wanted_done c k command st.completed_steps ed))
        (Served-call (loose R) [] [] (asked "time.Sleep") s refl tt),
    synced,
    (λ d e. refl),
    wanted_done c k command st.completed_steps ed,
  )
  Stage-staged true false kept other grow act st ea ed grown h s synced =
      Stage-fresh grow st grown (rw ea (rw ed refl)) s (act s).1 (act s).0 (h.at s)
  Stage-staged false is_done kept other grow act st ea ed grown h s synced = (
    subst (λ x. Served (loose R) x s s) (sym (wanted_unasked c k command st.completed_steps ea))
        (Served-nil (loose R) s),
    synced,
    (λ d e. refl),
    wanted_unasked c k command st.completed_steps ea,
  )

module _ (R : Step → Tx → Type 0) (f : StateFile) (reliable : IsReliable f) (command : String)
    (st : RegistrationState) (s : Session) (synced : parsed f s.file ≡ ok st) where
  pub Stage-attest_step :
      (c : ℕ) (k : Step) (letter : String) (act : Action Bytes) (id : Bytes)
      → contains c letter ≡ true
      → Follows (strict R) (k ∷ []) act
      → Stage R f
          (λ x. wanted c k command x.completed_steps)
          letter
          st
          s
          (attest_step f command c letter act (st, id) s)
  unfolding attest_step attested
  Stage-attest_step c k letter act id has h =
      Stage-staged R f reliable command letter c k has (contains c command)
        (contains c st.completed_steps) st.tee_attest_instruction_id id
        (λ id. record st {
          completed_steps = st.completed_steps +++ letter;
          tee_attest_instruction_id = id;
        })
        act st refl refl (λ id. refl) h s synced

module _ (f : StateFile) (reliable : IsReliable f) (b : Bindings) (req : Request)
    (tee_id proxy_id : Bytes) (st : RegistrationState) (s : Session)
    (synced : parsed f s.file ≡ ok st) where
  pub Stage-availability_step :
      (id : Bytes)
      → Stage
          (Serves b req (tee_id, proxy_id))
          f
          (λ x. wanted b'a' check_availability req.command x.completed_steps)
          "a"
          st
          s
          (availability_step b f req tee_id (st, id) s)
  unfolding availability_step availability_done contains
  Stage-availability_step id =
      Stage-staged (Serves b req (tee_id, proxy_id)) f reliable req.command "a" b'a'
        check_availability refl (contains b'a' req.command) (contains b'a' st.completed_steps)
        st.instruction_id req.given_instruction
        (λ id. record st { completed_steps = st.completed_steps +++ "a"; instruction_id = id })
        (checked_availability b req tee_id id) st refl refl (λ id. refl)
        (Follows-checked_availability b req tee_id proxy_id true id) s synced
