-- ===== src/Tools/Instructions/Trial/Sent.antt =====
-- What a trial sends.
use Prim.Native.String.{String}
use praesidio.Prelude.{
  Bytes, List, [], ◌∷◌, ◌++◌, ◌≡◌, refl, sym, ap, ◌∙◌, append_assoc, ◌⊎◌, inl, inr, str_eq, ◌==◌,
}
use praesidio.Validate.Host.{Answer, ok, err}
use praesidio.Tools.Chain.{GoError, saying}
use praesidio.Tools.Chain.Calls.{Tx, Session, Action, continue, ◌>>=◌}
use praesidio.Tools.Chain.Revert.{decode_revert_reason, simulate_and_decode_revert}
use praesidio.Tools.Chain.Follows.{
  After, After-prefix, Follows-bind, Follows, Follows-pure, Follows-lift, Follows-ask, Follows-fail,
  Follows-if_same, Follows-bind_quiet, Follows-bind_last,
}
use praesidio.Tools.Chain.Exactly.{exactly}
use praesidio.Tools.Chain.Sending.{Follows-send}
use praesidio.Tools.Proxy.{sleep}
use praesidio.Tools.Proxy.Quiet.{Follows-action_result}
use praesidio.Tools.Instructions.{
  Senders, node_of, wait_mined, simulated, explain_call, explain_failure, set_id_tx, hello_tx,
  goodbye_tx, set_extension_id, send_say_hello, send_say_goodbye,
}
use praesidio.Tools.Instructions.Trial.{
  tolerated, configure, verify_hello_result, verify_goodbye_result, run_test,
}

module _ (d : Senders) where
  Follows-wait : (prefix : String) (hash : Bytes) → Follows exactly [] (wait_mined d prefix hash)
  unfolding wait_mined
  Follows-wait prefix hash =
      Follows-bind_quiet exactly [] _ _ (Follows-ask exactly _ _) λ mined. Follows-lift exactly _

  Follows-simulated : (tx : Tx) → Follows exactly [] (simulated d tx)
  unfolding simulated simulate_and_decode_revert
  Follows-simulated tx =
      Follows-if_same exactly (d.packs tx.method) [] _ _
        (Follows-bind_quiet exactly [] _ _ (Follows-ask exactly _ _) λ r. Follows-pure exactly _)
        (Follows-pure exactly "")

  Follows-explain_call :
      (prefix : String) (tx : Tx) (e : GoError) → Follows exactly [] (explain_call d prefix tx e)
  unfolding explain_call
  Follows-explain_call prefix tx e =
      Follows-bind_quiet exactly [] _ _
        (Follows-if_same exactly (str_eq (decode_revert_reason (node_of d) e) "") [] _ _
          (Follows-simulated tx) (Follows-pure exactly _))
        λ reason. Follows-pure exactly _

  Follows-explain_failure :
      (plain text : String) (tx : Tx) → Follows exactly [] (explain_failure d plain text tx)
  unfolding explain_failure
  Follows-explain_failure plain text tx =
      Follows-bind_quiet exactly [] _ _ (Follows-simulated tx) λ reason. Follows-fail exactly [] _

  Follows-set_extension_id :
      (address : Bytes) → Follows exactly (set_id_tx address ∷ []) (set_extension_id d address)
  unfolding set_extension_id
  Follows-set_extension_id address = Follows-bind_quiet exactly _ _ _ (Follows-lift exactly _) λ _.
      Follows-bind_quiet exactly _ _ _ (Follows-lift exactly _) λ _.
        Follows-bind_last exactly _ _ _
          (Follows-send exactly _ (node_of d) _ _ refl (Follows-explain_call _ _))
          λ hash. Follows-bind_quiet exactly [] _ _ (Follows-wait _ hash) λ receipt.
            Follows-if_same exactly (receipt.status == 1) [] _ _ (Follows-pure exactly tt)
              (Follows-explain_failure _ _ _)

  Follows-send_say_hello :
      (address message : Bytes)
      → Follows exactly (hello_tx address message ∷ []) (send_say_hello d address message)
  unfolding send_say_hello
  Follows-send_say_hello address message =
      Follows-bind_quiet exactly _ _ _ (Follows-lift exactly _) λ _.
        Follows-bind_quiet exactly _ _ _ (Follows-lift exactly _) λ _.
          Follows-bind_last exactly _ _ _
            (Follows-send exactly _ (node_of d) _ _ refl (Follows-explain_call _ _))
            λ hash. Follows-bind_quiet exactly [] _ _ (Follows-wait _ hash) λ receipt.
              Follows-bind_quiet exactly [] _ _
                (Follows-if_same exactly (receipt.status == 1) [] _ _ (Follows-pure exactly tt)
                  (Follows-explain_failure _ _ _))
                λ _. Follows-lift exactly _

  Follows-send_say_goodbye :
      (address : Bytes) (name reason : String)
      → Follows exactly
          (goodbye_tx address name reason ∷ [])
          (send_say_goodbye d address name reason)
  unfolding send_say_goodbye
  Follows-send_say_goodbye address name reason =
      Follows-bind_quiet exactly _ _ _ (Follows-lift exactly _) λ _.
        Follows-bind_quiet exactly _ _ _ (Follows-lift exactly _) λ _.
          Follows-bind_last exactly _ _ _
            (Follows-send exactly _ (node_of d) _ (saying "failed to send instruction: ") refl
              λ e. Follows-pure exactly _)
            λ hash. Follows-bind_quiet exactly [] _ _ (Follows-wait _ hash) λ receipt.
              Follows-if_same exactly (receipt.status == 1) [] _ _ (Follows-lift exactly _)
                (Follows-fail exactly [] _)

-- What a trial sends behind its first call: both instructions.
abbrev pub both : Bytes → Bytes → List Tx
both address payload = hello_tx address payload ∷ goodbye_tx address "World" "heading out" ∷ []

-- What is sent by a trial: the first call, or nothing of it, and then both instructions.
abbrev pub TrialSent : Bytes → Bytes → Session → Answer {0} Unit × Session → Type 0
TrialSent address payload s out =
    (start : List Tx) × ((start ≡ []) ⊎ (start ≡ set_id_tx address ∷ []))
    × After exactly (start ++ both address payload) s out

start_of_one :
    (tx : Tx) (done rest : List Tx) → done ++ rest ≡ tx ∷ [] → (done ≡ []) ⊎ (done ≡ tx ∷ [])
start_of_one tx [] rest e = inl refl
start_of_one tx (x ∷ []) rest e = inr cc
start_of_one tx (x ∷ y ∷ xs) rest e = cc

module _ (d : Senders) (url : String) (address payload : Bytes) where
  abbrev instructing : Action {0} Unit
  instructing = send_say_hello d address payload >>= λ hello. sleep >>= λ _.
      verify_hello_result d url hello.0 >>= λ _.
      send_say_goodbye d address "World" "heading out" >>= λ goodbye.
      sleep >>= λ _. verify_goodbye_result d url goodbye.0

  Follows-instructing : Follows exactly (both address payload) instructing
  unfolding verify_hello_result verify_goodbye_result
  Follows-instructing =
      Follows-bind exactly (hello_tx address payload ∷ []) _ _ _
        (Follows-send_say_hello d address payload)
        λ hello. Follows-bind_quiet exactly _ _ _ (Follows-ask exactly _ _) λ _.
          Follows-bind_quiet exactly _ _ _
            (Follows-bind_quiet exactly [] _ _ (Follows-action_result exactly d.services _ _)
              λ result. Follows-lift exactly _)
            λ _.
              Follows-bind_last exactly _ _ _
                (Follows-send_say_goodbye d address "World" "heading out")
                λ goodbye. Follows-bind_quiet exactly [] _ _ (Follows-ask exactly _ _) λ _.
                  Follows-bind_quiet exactly [] _ _ (Follows-action_result exactly d.services _ _)
                    λ result. Follows-lift exactly _

  TrialSent-configured :
      (s s1 : Session) (r : Answer {0} Unit)
      → After exactly (set_id_tx address ∷ []) s (r, s1)
      → (t : Answer {0} Unit) → TrialSent address payload s (continue t (λ _. instructing) s1)
  TrialSent-configured s s1 (ok u) h (ok v) = (
    set_id_tx address ∷ [],
    inr refl,
    After-prefix exactly (set_id_tx address ∷ []) (both address payload) s s1 _ h
        (Follows-instructing.at s1),
  )
  TrialSent-configured s s1 (ok u) h (err e) =
      (set_id_tx address ∷ [], inr refl, (set_id_tx address ∷ [], both address payload, refl, h))
  TrialSent-configured s s1 (err e) (done, rest, g, h) (ok v) = (
    done,
    start_of_one (set_id_tx address) done rest g,
    After-prefix exactly done (both address payload) s s1 _ h (Follows-instructing.at s1),
  )
  TrialSent-configured s s1 (err e) (done, rest, g, h) (err t) = (
    set_id_tx address ∷ [],
    inr refl,
    (
      done,
      rest ++ both address payload,
      sym (append_assoc done rest (both address payload)) ∙ ap (λ x. x ++ both address payload) g,
      h,
    ),
  )

  -- Whatever the chain and the proxy answer: a trial that passes has sent the call that sets the
  -- extension's identifier or nothing for it, and then the greeting and the farewell, each with
  -- the fee of an instruction; a trial that fails has sent the first of these and nothing else.
  pub run_test-TrialSent :
      (s : Session) → TrialSent address payload s (run_test d url address payload s)
  unfolding run_test ◌>>=◌ configure
  run_test-TrialSent s =
      let out = set_extension_id d address s in
      TrialSent-configured s out.1 out.0 ((Follows-set_extension_id d address).at s)
        (tolerated out.0)
