-- ===== src/Tools/Registration/Plan/Completion.antt =====
-- A run that fails, resumed by a run that goes through.
use praesidio.Prelude.{Bytes, List, ◌++◌, ◌≡◌, refl, subst, append_assoc, none, String}
use praesidio.Validate.Host.{Answer, ok, err}
use praesidio.Tools.Chain.Calls.{Session, Action, History, continue, ◌>>=◌}
use praesidio.Tools.Chain.Follows.{Served, Served-append, After}
use praesidio.Tools.Proxy.{tee_proxy_id}
use praesidio.Tools.Registration.{Request, register_node, run_steps}
use praesidio.Tools.Registration.State.{StateFile, remove_state}
use praesidio.Tools.Registration.Machine.{Bindings}
use praesidio.Tools.Registration.Plan.{Step, plan, Serves}
use praesidio.Tools.Registration.Plan.Run.{saved_letters, register_node-plan}
use praesidio.Tools.Registration.Plan.Parts.{loose}
use praesidio.Tools.Registration.Plan.Stages.{IsReliable, IsStart}
use praesidio.Tools.Registration.Plan.Resume.{register_node-LeavesOff}
use praesidio.Tools.Registration.Plan.LeavingOff.{LeavesOff}

-- An action that goes through leaves no file.
abbrev NoFile {ℓ} : {A : Type ℓ} → Answer A × Session → Type 0
NoFile (ok a, s) = s.file ≡ none
NoFile (err e, s) = Unit

record Clears {ℓ} {A : Type ℓ} (m : Action A) : Type 0 where
  at : (s : Session) → NoFile (m s)

module _ {ℓ κ} {A : Type ℓ} {B : Type κ} where
  NoFile-continue :
      (f : A → Action B)
      → ((a : A) → Clears (f a))
      → (r : Answer A) (s : Session) → NoFile (continue r f s)
  NoFile-continue f h (ok a) s = (h a).at s
  NoFile-continue f h (err e) s = tt

  Clears-bind : (m : Action A) (f : A → Action B) → ((a : A) → Clears (f a)) → Clears (m >>= f)
  unfolding ◌>>=◌
  Clears-bind m f h = record { at = λ s. NoFile-continue f h (m s).0 (m s).1 }

module _ (b : Bindings) (f : StateFile) (req : Request)
    (removes : (h : History) → f.remove_error h ≡ none) where
  Clears-register_node : Clears (register_node b f req)
  unfolding register_node run_steps remove_state
  Clears-register_node = Clears-bind _ _ λ ids. Clears-bind _ _ λ st. Clears-bind _ _ λ first.
      Clears-bind _ _ λ second.
        Clears-bind _ _
          λ third. Clears-bind _ _ λ _. record { at = λ s. rw (removes s.history) refl }

  -- Where the state file can be read, written, read back and removed, and the proxy's answer
  -- identifies the machine: if a registration fails and the next one with the same arguments goes
  -- through, then the node took in the two runs together the transactions of the first run's
  -- plan, in order and each one once, but that the step that failed may have been sent twice; and
  -- no state file is left.
  pub resumed_run_completes :
      (ids : Bytes × Bytes) (s s1 s2 : Session) (text : String)
      → IsReliable f
      → tee_proxy_id b.services req.info ≡ ok ids
      → register_node b f req s ≡ (err text, s1)
      → register_node b f req s1 ≡ (ok tt, s2)
      → (done : List Step) × (extra : List Step) × (left : List Step) × (plan req.command
            (saved_letters f s)
          ≡ done ++ left)
        × IsStart extra left
        × Served (loose (Serves b req ids)) (done ++ (extra ++ left)) s s2
        × (s2.file ≡ none)
  resumed_run_completes (tee_id, proxy_id) s s1 s2 text reliable e failed resumed =
      let (done, extra, d, i, h) =
        subst (LeavesOff (Serves b req (tee_id, proxy_id)) f req.command (saved_letters f s) s)
          failed (register_node-LeavesOff f reliable b req tee_id proxy_id s e) in
      let g =
        subst
          (After (loose (Serves b req (tee_id, proxy_id))) (plan req.command (saved_letters f s1))
            s1)
          resumed (register_node-plan b f req (tee_id, proxy_id) s1 e) in
      (
        done,
        extra,
        plan req.command (saved_letters f s1),
        d,
        i,
        subst (λ x. Served (loose (Serves b req (tee_id, proxy_id))) x s s2)
            (append_assoc done extra _)
            (Served-append (loose (Serves b req (tee_id, proxy_id))) (done ++ extra) _ s s1 s2 h g),
        subst NoFile resumed (Clears-register_node.at s1),
      )
