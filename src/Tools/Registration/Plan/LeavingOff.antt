-- ===== src/Tools/Registration/Plan/LeavingOff.antt =====
-- Where a run leaves off that fails, carried through its steps.
use praesidio.Prelude.{
  Bytes, String, List, [], ◌++◌, ◌≡◌, refl, sym, ap, subst, ◌∙◌, append_assoc, inl, inr,
}
use praesidio.Validate.Host.{Answer, ok, err}
use praesidio.Tools.Chain.Calls.{Tx, Session, Action, continue}
use praesidio.Tools.Chain.Follows.{Served, Served-append}
use praesidio.Tools.Registration.State.{RegistrationState, StateFile, parsed, read_state}
use praesidio.Tools.Registration.Plan.{Step, plan}
use praesidio.Tools.Registration.Plan.Run.{saved_letters}
use praesidio.Tools.Registration.Plan.Parts.{Unaffected, loose}
use praesidio.Tools.Registration.Plan.Stages.{IsReliable, IsStart, Stage}

-- Where a run leaves off that fails: the steps that it has done are those that the plan loses, and
-- of the plan that is left the first step at most was sent.
abbrev pub LeavesOff :
    (Step → Tx → Type 0)
    → StateFile
    → String
    → String
    → Session
    → Answer {0} Unit × Session
    → Type 0
LeavesOff R f command letters s (ok u, s') = Unit
LeavesOff R f command letters s (err e, s') =
    (done : List Step) × (extra : List Step) × (plan command letters
      ≡ done ++ plan command (saved_letters f s'))
    × IsStart extra (plan command (saved_letters f s'))
    × Served (loose R) (done ++ extra) s s'

module _ (R : Step → Tx → Type 0) (f : StateFile) (reliable : IsReliable f) (command : String) where
  -- The steps that went through come first.
  pub LeavesOff-later :
      (ks : List Step) (letters later : String) (s s1 : Session) (out : Answer {0} Unit × Session)
      → plan command letters ≡ ks ++ plan command later
      → Served (loose R) ks s s1
      → LeavesOff R f command later s1 out
      → LeavesOff R f command letters s out
  LeavesOff-later ks letters later s s1 (ok u, s2) e h l = tt
  LeavesOff-later ks letters later s s1 (err t, s2) e h (done, extra, d, i, g) = (
    ks ++ done,
    extra,
    e ∙ ap (λ x. ks ++ x) d ∙ sym (append_assoc ks done _),
    i,
    subst (λ x. Served (loose R) x s s2) (sym (append_assoc ks done extra))
        (Served-append (loose R) ks (done ++ extra) s s1 s2 h g),
  )

  pub saved-synced :
      (st : RegistrationState) (s : Session)
      → parsed f s.file ≡ ok st
      → saved_letters f s ≡ st.completed_steps
  unfolding read_state
  saved-synced st s e = rw (reliable.reads s.history) (rw e refl)

  pub saved_same : (s s1 : Session) → s1.file ≡ s.file → saved_letters f s ≡ saved_letters f s1
  unfolding read_state
  saved_same s s1 e = rw (reliable.reads s.history) (rw (reliable.reads s1.history) (rw e refl))

  pub read_state-parsed :
      (s : Session) → read_state f (f.read_error s.history) s.file ≡ parsed f s.file
  unfolding read_state
  read_state-parsed s = rw (reliable.reads s.history) refl

  IsStart-append : (extra ks ls : List Step) → IsStart extra ks → IsStart extra (ks ++ ls)
  IsStart-append extra ks ls (inl e) = inl e
  IsStart-append extra ks ls (inr (k, rest, e, d)) = inr (k, rest ++ ls, e, ap (λ x. x ++ ls) d)

  -- A step, and what follows it.
  pub LeavesOff-step :
      (w : RegistrationState → List Step) (tail : List Step) (letter : String)
      (st : RegistrationState) (s : Session)
      → plan command st.completed_steps ≡ w st ++ tail
      → parsed f s.file ≡ ok st
      → (rest : RegistrationState × Bytes → Action {0} Unit)
      → ((st1 : RegistrationState) (id : Bytes) (s1 : Session)
          → parsed f s1.file ≡ ok st1
          → Unaffected letter st (st1, id)
          → w st1 ≡ []
          → (plan command st1.completed_steps ≡ tail)
            × LeavesOff R f command st1.completed_steps s1 (rest (st1, id) s1))
      → (r : Answer (RegistrationState × Bytes)) (s1 : Session) → Stage R f w letter st s (r, s1)
      → LeavesOff R f command st.completed_steps s (continue r rest s1)
  LeavesOff-step w tail letter st s p synced rest next (ok (st1, id)) s1
        (h, synced1, u, none_left) =
      let (e, l) = next st1 id s1 synced1 u none_left in
      LeavesOff-later (w st) st.completed_steps st1.completed_steps s s1 _
        (p ∙ ap (λ x. w st ++ x) (sym e)) h l
  LeavesOff-step w tail letter st s p synced rest next (err t) s1 (extra, i, h, same) =
      let saved = saved-synced st s1 (ap (parsed f) same ∙ synced) in
      let planned = ap (plan command) saved in
      (
        [],
        extra,
        sym planned,
        subst (IsStart extra) (sym (planned ∙ p)) (IsStart-append extra (w st) tail i),
        h,
      )
