-- ===== src/Tools/Registration/Plan/Run.antt =====
-- A whole registration against its plan.
use praesidio.Prelude.{Bytes, false, String, [], ◌∷◌, ◌++◌, ◌≡◌, refl, subst, ◌∙◌}
use praesidio.Validate.Host.{Answer, ok, err}
use praesidio.Tools.Chain.Calls.{
  Tx, Session, Action, asked, sent-append, lift, continue, record_call, ◌>>=◌,
}
use praesidio.Tools.Chain.Follows.{
  Frame, After, After-prefix, Follows, Follows-pure, Follows-ask, Follows-if, Follows-bind,
  Follows-bind_quiet, Follows-bind_last,
}
use praesidio.Tools.Chain.Yields.{Follows-bind_known}
use praesidio.Tools.Proxy.{tee_proxy_id}
use praesidio.Tools.Registration.{
  Request, attest_step, availability_done, availability_step, promotion_step, run_steps,
  register_node,
}
use praesidio.Tools.Registration.State.{
  RegistrationState, StateFile, contains, zero_hash, remove_state, load_state, read_state,
}
use praesidio.Tools.Registration.Machine.{Bindings, request_tee_attestation}
use praesidio.Tools.Registration.Plan.{
  Step, pre_register, attest, check_availability, wanted, to_promote, plan, Serves,
}
use praesidio.Tools.Registration.Plan.Steps.{
  Follows-request, Follows-first_attestation, Follows-checked_availability, Follows-promotion,
}
use praesidio.Tools.Registration.Plan.Parts.{
  Unaffected, letters_apart, wanted_same, loose, Yields-attest_step, Follows-attest_step,
  Follows-save, Follows-remove,
}

module _ (b : Bindings) (f : StateFile) (req : Request) (tee_id proxy_id : Bytes) where
  abbrev R : Step → Tx → Type 0
  R = Serves b req (tee_id, proxy_id)

  abbrev S : Frame Step
  S = loose R

  Follows-availability_step :
      (st : RegistrationState) (id : Bytes)
      → Follows S
          (wanted b'a' check_availability req.command st.completed_steps)
          (availability_step b f req tee_id (st, id))
  unfolding availability_step availability_done
  Follows-availability_step st id =
      Follows-if S (contains b'a' req.command) _ [] _ _
        (Follows-bind_last S _ _ _
          (Follows-if S (contains b'a' st.completed_steps) [] (check_availability ∷ []) _ _
            (Follows-pure S _)
            (Follows-bind_last S _ _ _ (Follows-checked_availability b req tee_id proxy_id false id)
              λ a. Follows-bind_quiet S [] _ _ (Follows-save R f _) λ _. Follows-pure S _))
          λ p. Follows-bind_quiet S [] _ _ (Follows-ask S _ _) λ _. Follows-pure S p)
        (Follows-pure S _)

  Follows-promotion_step :
      (id : Bytes) → Follows S (to_promote req.command) (promotion_step b req id)
  unfolding promotion_step
  Follows-promotion_step id =
      Follows-if S (contains b'p' req.command) _ [] _ _
        (Follows-promotion b req tee_id proxy_id false id) (Follows-pure S tt)

  -- What follows the two attestations, and what follows the first of them.
  abbrev finishing : RegistrationState × Bytes → Action {0} Unit
  finishing second = availability_step b f req tee_id second >>= λ third.
      promotion_step b req third.1 >>= λ _. remove_state f

  abbrev attesting : RegistrationState × Bytes → Action {0} Unit
  attesting first =
      attest_step f req.command b'R' "R" (request_tee_attestation b tee_id) first >>= finishing

  Follows-finishing :
      (st : RegistrationState) (second : RegistrationState × Bytes)
      → contains b'a' second.0.completed_steps ≡ contains b'a' st.completed_steps
      → Follows S
          (wanted b'a' check_availability req.command st.completed_steps ++ to_promote req.command)
          (finishing second)
  Follows-finishing st (st2, id2) e =
      subst (λ x. Follows S (x ++ to_promote req.command) (finishing (st2, id2)))
        (wanted_same b'a' check_availability req.command _ _ e)
        (Follows-bind S _ _ _ _ (Follows-availability_step st2 id2) λ third.
          Follows-bind_last S _ _ _ (Follows-promotion_step third.1) λ _. Follows-remove R f)

  Follows-attesting :
      (st : RegistrationState) (first : RegistrationState × Bytes)
      → Unaffected "r" st first
      → Follows S
          (wanted b'R' attest req.command st.completed_steps
            ++ (wanted b'a' check_availability req.command st.completed_steps
                ++ to_promote req.command))
          (attesting first)
  Follows-attesting st (st1, id1) h1 =
      subst
        (λ x.
          Follows S
            (x
              ++ (wanted b'a' check_availability req.command st.completed_steps
                  ++ to_promote req.command))
            (attesting (st1, id1)))
        (wanted_same b'R' attest req.command _ _ (h1 b'R' letters_apart.0))
        (Follows-bind_known S (Unaffected "R" st1) _ _ _ _
          (Follows-attest_step R f req.command b'R' attest "R" _ st1 id1
            (Follows-request b req tee_id proxy_id false attest refl))
          (Yields-attest_step f req.command b'R' "R" _ st1 id1)
          λ second h2.
            Follows-finishing st second (h2 b'a' letters_apart.2 ∙ h1 b'a' letters_apart.1))

  -- A run from a loaded state.
  pub Follows-run_steps :
      (st : RegistrationState)
      → Follows S (plan req.command st.completed_steps) (run_steps b f req (tee_id, proxy_id) st)
  unfolding run_steps
  Follows-run_steps st =
      Follows-bind_known S (Unaffected "r" st) _ _ _ _
        (Follows-attest_step R f req.command b'r' pre_register "r" _ st zero_hash
          (Follows-first_attestation b req tee_id proxy_id false))
        (Yields-attest_step f req.command b'r' "r" _ st zero_hash) (Follows-attesting st)

-- The letters that a state file holds; none if it does not parse.
abbrev pub letters_of : Answer RegistrationState → String
letters_of (ok st) = st.completed_steps
letters_of (err e) = ""

abbrev pub saved_letters : StateFile → Session → String
saved_letters f s = letters_of (read_state f (f.read_error s.history) s.file)

module _ (b : Bindings) (f : StateFile) (req : Request) where
  After-loaded :
      (loaded : Answer RegistrationState) (ids : Bytes × Bytes) (s : Session)
      → After
          (loose (Serves b req ids))
          (plan req.command (letters_of loaded))
          s
          (continue loaded (run_steps b f req ids) (record_call (asked "ReadFile") s))
  After-loaded (ok st) (tee_id, proxy_id) s =
      After-prefix (loose (Serves b req (tee_id, proxy_id))) []
        (plan req.command st.completed_steps) s (record_call (asked "ReadFile") s) _
        ([], sent-append s.history (asked "ReadFile" ∷ []), tt, tt)
        ((Follows-run_steps b f req tee_id proxy_id st).at (record_call (asked "ReadFile") s))
  After-loaded (err e) ids s =
      ([], plan req.command "", refl, ([], sent-append s.history (asked "ReadFile" ∷ []), tt, tt))

  -- Where the proxy's answer identifies the machine, whatever the chain, the proxies and the file
  -- system answer: a registration that goes through has sent one transaction for each step that
  -- its command names and the letters in the state file do not, in the order r, R, a, p, and one
  -- that fails has sent the first of these and nothing else.
  pub register_node-plan :
      (ids : Bytes × Bytes) (s : Session)
      → tee_proxy_id b.services req.info ≡ ok ids
      → After
          (loose (Serves b req ids))
          (plan req.command (saved_letters f s))
          s
          (register_node b f req s)
  unfolding register_node ◌>>=◌ lift load_state
  register_node-plan ids s e =
      rw e (After-loaded (read_state f (f.read_error s.history) s.file) ids s)
