-- ===== src/Tools/Registration/Plan/Steps.antt =====
-- Every action of a registration sends the transactions of its step.
use praesidio.Prelude.{
  ℕ, Bytes, Bool, String, List, [], ◌∷◌, refl, inl, inr, Option, none, some, ltb, length, bytes_eq,
}
use praesidio.Validate.Host.{Answer, ok, err}
use praesidio.Tools.Chain.{GoError, saying}
use praesidio.Tools.Chain.Calls.{Tx}
use praesidio.Tools.Chain.Revert.{CustomError, simulate_and_decode_revert}
use praesidio.Tools.Chain.Follows.{
  Frame, Follows, Follows-pure, Follows-fail, Follows-lift, Follows-ask, Follows-if_same,
  Follows-bind_quiet, Follows-bind_last,
}
use praesidio.Tools.Chain.Sending.{Follows-check_tx, Follows-send}
use praesidio.Tools.Proxy.{after_epoch, check_ftdc_proxy_policy_consistency}
use praesidio.Tools.Proxy.Quiet.{Follows-action_result}
use praesidio.Tools.Registration.{
  Request, first_attestation, is_registered, checked_availability, promotion,
}
use praesidio.Tools.Registration.Machine.{
  Bindings, attestation_tx, pre_registration, request_tee_attestation, explain_register,
  simulated_reason,
}
use praesidio.Tools.Registration.Availability.{
  promotion_tx, request_ftdc_availability_check, explain_availability,
  get_ftdc_availability_check_result, to_production,
}
use praesidio.Tools.Registration.Plan.{Step, pre_register, check_availability, promote, Serves}

-- The steps of a request, with or without the file.
abbrev pub steps_frame : Bindings → Request → Bytes × Bytes → Bool → Frame Step
steps_frame b req ids keeps = record { serves = Serves b req ids; keeps_file = keeps }

module _ (b : Bindings) (req : Request) (tee_id proxy_id : Bytes) (keeps : Bool) where
  abbrev S : Frame Step
  S = steps_frame b req (tee_id, proxy_id) keeps

  pub Follows-request :
      (k : Step)
      → S.serves k (attestation_tx b tee_id)
      → Follows S (k ∷ []) (request_tee_attestation b tee_id)
  unfolding request_tee_attestation
  Follows-request k h =
      Follows-bind_quiet S (k ∷ []) _ _ (Follows-lift S (b.services.node.transactor b.prv)) λ _.
        Follows-bind_last S (k ∷ []) _ _
          (Follows-send S k b.services.node (attestation_tx b tee_id) (saying "error: ") h
            λ e. Follows-pure S _)
          λ hash. Follows-bind_quiet S [] _ _ (Follows-check_tx S b.services.node hash) λ receipt.
            Follows-if_same S (ltb (length receipt.logs) 2) [] _ _ (Follows-fail S [] _)
              (Follows-lift S _)

  Follows-reason :
      (tx : Tx) (text : String) (errors : Option (List CustomError))
      → Follows S [] (simulated_reason b tx text errors)
  unfolding simulated_reason simulate_and_decode_revert
  Follows-reason tx text none = Follows-pure S text
  Follows-reason tx text (some errors) =
      Follows-bind_quiet S [] _ _
        (Follows-bind_quiet S [] _ _ (Follows-ask S _ _) λ result. Follows-pure S _)
        λ raw. Follows-pure S _

  Follows-explain : (tx : Tx) (e : GoError) → Follows S [] (explain_register b tx e)
  unfolding explain_register
  Follows-explain tx e =
      Follows-bind_quiet S [] _ _ (Follows-reason tx _ b.machine_errors) λ reason. Follows-pure S _

  Follows-pre_registration :
      Follows S (pre_register ∷ []) (pre_registration b req.host_url tee_id proxy_id req.info)
  unfolding pre_registration
  Follows-pre_registration =
      Follows-bind_quiet S _ _ _ (Follows-lift S (b.services.node.transactor b.prv)) λ _.
        Follows-bind_quiet S _ _ _ (Follows-lift S _) λ signature.
          Follows-bind_last S _ _ _
            (Follows-send S pre_register b.services.node _ _ (inl (signature, refl))
              (Follows-explain _))
            λ hash.
              Follows-bind_quiet S [] _ _ (Follows-check_tx S b.services.node hash)
                λ receipt. Follows-lift S _

  pub Follows-first_attestation :
      Follows S (pre_register ∷ []) (first_attestation b req tee_id proxy_id)
  unfolding first_attestation
  Follows-first_attestation = Follows-bind_quiet S _ _ _ (Follows-ask S _ _) λ found.
      Follows-if_same S (is_registered found) _ _ _ (Follows-request pre_register (inr refl))
        (Follows-bind_last S _ _ _ Follows-pre_registration λ p. Follows-pure S p.1)

  Follows-explain_availability :
      (tx : Tx) (e : GoError) → Follows S [] (explain_availability b tx e)
  unfolding explain_availability
  Follows-explain_availability tx e =
      Follows-bind_quiet S [] _ _ (Follows-ask S _ _) λ found. Follows-pure S e.text

  Follows-policy : Follows S [] (check_ftdc_proxy_policy_consistency b.services req.ftdc_url)
  unfolding check_ftdc_proxy_policy_consistency after_epoch
  Follows-policy = Follows-bind_quiet S [] _ _ (Follows-ask S _ _) Follows-epoch
    where
      Follows-epoch :
          (epoch : Answer (Option ℕ)) → Follows S [] (after_epoch b.services req.ftdc_url epoch)
      Follows-epoch (ok none) = Follows-pure S tt
      Follows-epoch (ok (some epoch)) =
          Follows-bind_quiet S [] _ _ (Follows-ask S _ _) λ info. Follows-lift S _
      Follows-epoch (err e) = Follows-pure S tt

  pub Follows-checked_availability :
      (attest_id : Bytes)
      → Follows S (check_availability ∷ []) (checked_availability b req tee_id attest_id)
  unfolding checked_availability request_ftdc_availability_check
  Follows-checked_availability attest_id = Follows-bind_quiet S _ _ _ Follows-policy λ _.
      Follows-bind_quiet S _ _ _ (Follows-lift S (b.services.node.transactor b.prv)) λ _.
        Follows-bind_last S _ _ _
          (Follows-send S check_availability b.services.node _ _ (attest_id, refl)
            (Follows-explain_availability _))
          λ hash.
            Follows-bind_quiet S [] _ _ (Follows-check_tx S b.services.node hash)
              λ receipt. Follows-lift S _

  Follows-proof :
      (url : String) (id : Bytes) → Follows S [] (get_ftdc_availability_check_result b url id)
  unfolding get_ftdc_availability_check_result
  Follows-proof url id =
      Follows-bind_quiet S [] _ _ (Follows-action_result S b.services _ _)
        λ result. Follows-bind_quiet S [] _ _ (Follows-lift S _) λ response. Follows-lift S _

  pub Follows-promotion : (id : Bytes) → Follows S (promote ∷ []) (promotion b req id)
  unfolding promotion to_production
  Follows-promotion id = Follows-bind_quiet S _ _ _ (Follows-proof req.ftdc_url id) λ proof.
      Follows-bind_quiet S _ _ _ (Follows-lift S (b.services.node.transactor b.prv)) λ _.
        Follows-bind_last S _ _ _
          (Follows-send S promote b.services.node (promotion_tx proof) (saying "") (proof, refl)
            λ e. Follows-pure S _)
          λ hash. Follows-bind_quiet S [] _ _ (Follows-check_tx S b.services.node hash) λ _.
            Follows-bind_quiet S [] _ _ (Follows-ask S _ _) λ found.
              Follows-bind_quiet S [] _ _ (Follows-lift S found) λ id.
                Follows-if_same S (bytes_eq id proof.request_body.tee_id) [] _ _ (Follows-pure S tt)
                  (Follows-fail S [] _)
