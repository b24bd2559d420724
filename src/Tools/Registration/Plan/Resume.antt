-- ===== src/Tools/Registration/Plan/Resume.antt =====
-- A registration that fails, and the run that resumes it.
use praesidio.Prelude.{
  Bytes, true, false, List, [], ◌∷◌, ◌++◌, ◌≡◌, refl, sym, ap, subst, ◌∙◌, inl, inr, Bool-cases,
}
use praesidio.Validate.Host.{Answer, ok, err}
use praesidio.Tools.Chain.Calls.{Tx, Session, Action, asked, record_call, lift, continue, ◌>>=◌}
use praesidio.Tools.Chain.Follows.{After, Served-call}
use praesidio.Tools.Proxy.{tee_proxy_id}
use praesidio.Tools.Registration.{
  Request, attest_step, availability_step, promotion, promotion_step, run_steps, register_node,
}
use praesidio.Tools.Registration.State.{
  RegistrationState, StateFile, contains, zero_hash, parsed, remove_state, load_state,
}
use praesidio.Tools.Registration.Machine.{Bindings, request_tee_attestation}
use praesidio.Tools.Registration.Plan.{
  Step, pre_register, attest, check_availability, promote, wanted, to_promote, plan, Serves,
}
use praesidio.Tools.Registration.Plan.Steps.{
  Follows-request, Follows-first_attestation, Follows-promotion,
}
use praesidio.Tools.Registration.Plan.Run.{saved_letters}
use praesidio.Tools.Registration.Plan.Parts.{Unaffected, loose, letters_apart, wanted_same}
use praesidio.Tools.Registration.Plan.Stages.{
  IsReliable, IsStart, IsStart-one, strict, Served-loose, Served-file, Stage-attest_step,
  Stage-availability_step,
}
use praesidio.Tools.Registration.Plan.LeavingOff.{
  LeavesOff, LeavesOff-later, saved-synced, saved_same, read_state-parsed, LeavesOff-step,
}

letters_behind :
    (contains b'r' "a" ≡ false) × (contains b'R' "a" ≡ false) × (contains b'r' "R" ≡ false)
unfolding contains
letters_behind = (refl, refl, refl)

letters_own : (contains b'r' "r" ≡ true) × (contains b'R' "R" ≡ true)
unfolding contains
letters_own = (refl, refl)

module _ (f : StateFile) (reliable : IsReliable f) (b : Bindings) (req : Request)
    (tee_id proxy_id : Bytes) where
  abbrev R : Step → Tx → Type 0
  R = Serves b req (tee_id, proxy_id)

  abbrev w_r : RegistrationState → List Step
  w_r st = wanted b'r' pre_register req.command st.completed_steps

  abbrev w_R : RegistrationState → List Step
  w_R st = wanted b'R' attest req.command st.completed_steps

  abbrev w_a : RegistrationState → List Step
  w_a st = wanted b'a' check_availability req.command st.completed_steps

  abbrev promoting : RegistrationState × Bytes → Action {0} Unit
  promoting third = promotion_step b req third.1 >>= λ _. remove_state f

  abbrev checking : RegistrationState × Bytes → Action {0} Unit
  checking second = availability_step b f req tee_id second >>= promoting

  abbrev attesting : RegistrationState × Bytes → Action {0} Unit
  attesting first =
      attest_step f req.command b'R' "R" (request_tee_attestation b tee_id) first >>= checking

  LeavesOff-promoted :
      (st : RegistrationState) (s s1 : Session) (r : Answer {0} Unit)
      → parsed f s.file ≡ ok st
      → plan req.command st.completed_steps ≡ promote ∷ []
      → After (strict R) (promote ∷ []) s (r, s1)
      → LeavesOff R f req.command st.completed_steps s (continue r (λ _. remove_state f) s1)
  unfolding remove_state
  LeavesOff-promoted st s s1 (ok u) synced p h = tt
  LeavesOff-promoted st s s1 (err e) synced p (done, rest, d, h) =
      let same = Served-file R done s s1 h in
      let planned =
        ap (plan req.command)
          (saved-synced R f reliable req.command st s1 (ap (parsed f) same ∙ synced)) in
      (
        [],
        done,
        sym planned,
        subst (IsStart done) (sym (planned ∙ p)) (IsStart-one R promote done rest d),
        Served-loose R done s s1 h,
      )

  LeavesOff-promoting :
      (st : RegistrationState) (id : Bytes) (s : Session)
      → parsed f s.file ≡ ok st
      → plan req.command st.completed_steps ≡ to_promote req.command
      → LeavesOff R f req.command st.completed_steps s (promoting (st, id) s)
  unfolding ◌>>=◌ promotion_step remove_state
  LeavesOff-promoting st id s synced p = elim (Bool-cases (contains b'p' req.command)) [
    | inl e ↦ rw e (
        LeavesOff-promoted st s (promotion b req id s).1 (promotion b req id s).0 synced
          (p ∙ rw e refl) ((Follows-promotion b req tee_id proxy_id true id).at s))
    | inr e ↦ rw e tt
  ]

  LeavesOff-checking :
      (st : RegistrationState) (id : Bytes) (s : Session)
      → parsed f s.file ≡ ok st
      → w_r st ≡ []
      → w_R st ≡ []
      → LeavesOff R f req.command st.completed_steps s (checking (st, id) s)
  unfolding ◌>>=◌
  LeavesOff-checking st id s synced no_r no_R =
      LeavesOff-step R f reliable req.command w_a (to_promote req.command) "a" st s
        (rw no_r (rw no_R refl)) synced promoting next
        (availability_step b f req tee_id (st, id) s).0
        (availability_step b f req tee_id (st, id) s).1
        (Stage-availability_step f reliable b req tee_id proxy_id st s synced id)
    where
      next :
          (st1 : RegistrationState) (id1 : Bytes) (s1 : Session)
          → parsed f s1.file ≡ ok st1
          → Unaffected "a" st (st1, id1)
          → w_a st1 ≡ []
          → (plan req.command st1.completed_steps ≡ to_promote req.command)
            × LeavesOff R f req.command st1.completed_steps s1 (promoting (st1, id1) s1)
      next st1 id1 s1 synced1 u no_a =
          let e_r =
            wanted_same b'r' pre_register req.command _ _ (u b'r' letters_behind.0) ∙ no_r in
          let e_R = wanted_same b'R' attest req.command _ _ (u b'R' letters_behind.1) ∙ no_R in
          let p : plan req.command st1.completed_steps ≡ to_promote req.command =
            rw e_r (rw e_R (rw no_a refl)) in
          (p, LeavesOff-promoting st1 id1 s1 synced1 p)

  LeavesOff-attesting :
      (st : RegistrationState) (id : Bytes) (s : Session)
      → parsed f s.file ≡ ok st
      → w_r st ≡ []
      → LeavesOff R f req.command st.completed_steps s (attesting (st, id) s)
  unfolding ◌>>=◌
  LeavesOff-attesting st id s synced no_r =
      LeavesOff-step R f reliable req.command w_R (w_a st ++ to_promote req.command) "R" st s
        (rw no_r refl) synced checking next
        (attest_step f req.command b'R' "R" (request_tee_attestation b tee_id) (st, id) s).0
        (attest_step f req.command b'R' "R" (request_tee_attestation b tee_id) (st, id) s).1
        (Stage-attest_step R f reliable req.command st s synced b'R' attest "R" _ id letters_own.1
          (Follows-request b req tee_id proxy_id true attest refl))
    where
      next :
          (st1 : RegistrationState) (id1 : Bytes) (s1 : Session)
          → parsed f s1.file ≡ ok st1
          → Unaffected "R" st (st1, id1)
          → w_R st1 ≡ []
          → (plan req.command st1.completed_steps ≡ w_a st ++ to_promote req.command)
            × LeavesOff R f req.command st1.completed_steps s1 (checking (st1, id1) s1)
      next st1 id1 s1 synced1 u no_R =
          let e_r =
            wanted_same b'r' pre_register req.command _ _ (u b'r' letters_behind.2) ∙ no_r in
          let e_a = wanted_same b'a' check_availability req.command _ _ (u b'a' letters_apart.2) in
          (rw e_r (rw no_R (rw e_a refl)), LeavesOff-checking st1 id1 s1 synced1 e_r no_R)

  LeavesOff-run_steps :
      (st : RegistrationState) (s : Session)
      → parsed f s.file ≡ ok st
      → LeavesOff R f req.command st.completed_steps s (run_steps b f req (tee_id, proxy_id) st s)
  unfolding ◌>>=◌ run_steps
  LeavesOff-run_steps st s synced =
      LeavesOff-step R f reliable req.command w_r (w_R st ++ (w_a st ++ to_promote req.command)) "r"
        st s refl synced attesting next _ _
        (Stage-attest_step R f reliable req.command st s synced b'r' pre_register "r" _ zero_hash
          letters_own.0 (Follows-first_attestation b req tee_id proxy_id true))
    where
      next :
          (st1 : RegistrationState) (id1 : Bytes) (s1 : Session)
          → parsed f s1.file ≡ ok st1
          → Unaffected "r" st (st1, id1)
          → w_r st1 ≡ []
          → (plan req.command st1.completed_steps ≡ w_R st ++ (w_a st ++ to_promote req.command))
            × LeavesOff R f req.command st1.completed_steps s1 (attesting (st1, id1) s1)
      next st1 id1 s1 synced1 u no_r =
          let e_R = wanted_same b'R' attest req.command _ _ (u b'R' letters_apart.0) in
          let e_a = wanted_same b'a' check_availability req.command _ _ (u b'a' letters_apart.1) in
          (rw no_r (rw e_R (rw e_a refl)), LeavesOff-attesting st1 id1 s1 synced1 no_r)

  LeavesOff-loaded :
      (loaded : Answer RegistrationState) (s : Session)
      → parsed f s.file ≡ loaded
      → LeavesOff R f req.command (saved_letters f s) s (
          continue loaded (run_steps b f req (tee_id, proxy_id)) (record_call (asked "ReadFile") s))
  LeavesOff-loaded (ok st) s e =
      let s1 = record_call (asked "ReadFile") s in
      rw (saved-synced R f reliable req.command st s e) (
        LeavesOff-later R f reliable req.command [] st.completed_steps st.completed_steps s s1 _
          refl (Served-call (loose R) [] [] (asked "ReadFile") s refl tt)
          (LeavesOff-run_steps st s1 e))
  LeavesOff-loaded (err t) s e =
      let s1 = record_call (asked "ReadFile") s in
      (
        [],
        [],
        ap (plan req.command) (saved_same R f reliable req.command s s1 refl),
        inl refl,
        Served-call (loose R) [] [] (asked "ReadFile") s refl tt,
      )

  -- Where the state file can be read, written and read back, and the proxy's answer identifies the
  -- machine: after a registration that fails, the steps that the state file asks for less than
  -- before are those that were done, the node took their transactions, and of the steps that are
  -- left it took the transaction of the first one at most.
  pub register_node-LeavesOff :
      (s : Session)
      → tee_proxy_id b.services req.info ≡ ok (tee_id, proxy_id)
      → LeavesOff R f req.command (saved_letters f s) s (register_node b f req s)
  unfolding ◌>>=◌ register_node load_state lift
  register_node-LeavesOff s e =
      rw e (LeavesOff-loaded _ s (sym (read_state-parsed R f reliable req.command s)))
