-- ===== src/Tools/Chain/Sending.antt =====
-- The calls that every transaction is made with, as steps of a plan.
use praesidio.Prelude.{refl, [], ◌∷◌, Bytes, String, ◌==◌}
use praesidio.Tools.Chain.{
  Node, GoError, Submission, submitted, rejected, after_submit, send, get_failing_message,
  failing_text, check_tx,
}
use praesidio.Tools.Chain.Calls.{Tx, Session, Action, accepted, refused, record_call, fail}
use praesidio.Tools.Chain.Follows.{
  Frame, Served, Served-call, After, Follows, After-prefix, Follows-pure, Follows-fail,
  Follows-lift, Follows-ask, Follows-if_same, Follows-bind_quiet,
}

module _ {K : Type 0} (S : Frame K) where
  pub Follows-get_failing_message :
      (n : Node) (hash : Bytes) → Follows S [] (get_failing_message n hash)
  unfolding get_failing_message
  Follows-get_failing_message n hash = Follows-bind_quiet S [] _ _ (Follows-ask S _ _) λ found.
      Follows-bind_quiet S [] _ _ (Follows-lift S found) λ tx.
        Follows-bind_quiet S [] _ _ (Follows-lift S (n.sender tx)) λ from.
          Follows-bind_quiet S [] _ _ (Follows-ask S _ _) λ res. Follows-pure S (failing_text n res)

  pub Follows-check_tx : (n : Node) (hash : Bytes) → Follows S [] (check_tx n hash)
  unfolding check_tx
  Follows-check_tx n hash = Follows-bind_quiet S [] _ _ (Follows-ask S _ _) λ mined.
      Follows-bind_quiet S [] _ _ (Follows-lift S _) λ receipt.
        Follows-if_same S (receipt.status == 0) [] _ _
          (Follows-bind_quiet S [] _ _ (Follows-get_failing_message n hash)
            λ reason. Follows-fail S [] _)
          (Follows-pure S receipt)

  -- A transaction that the node takes does its step; a refused one is none.
  Served-refused : (tx : Tx) (s : Session) → Served S [] s (record_call (refused tx) s)
  Served-refused tx s = Served-call S [] [] (refused tx) s refl tt

  After-submit :
      (k : K) (explain : GoError → Action String) (tx : Tx)
      → S.serves k tx
      → ((e : GoError) → Follows S [] (explain e))
      → (answer : Submission) (s : Session) → After S (k ∷ []) s (after_submit explain tx answer s)
  unfolding after_submit
  After-submit k explain tx h quiet (submitted hash) s =
      Served-call S (k ∷ []) (tx ∷ []) (accepted tx) s refl (h, tt)
  After-submit k explain tx h quiet (rejected e) s =
      After-prefix S [] (k ∷ []) s (record_call (refused tx) s) _ (Served-refused tx s) (
        (Follows-bind_quiet S (k ∷ []) (explain e) fail (quiet e)
            λ text. Follows-fail S (k ∷ []) text).at
          (record_call (refused tx) s))

  pub Follows-send :
      (k : K) (n : Node) (tx : Tx) (explain : GoError → Action String)
      → S.serves k tx
      → ((e : GoError) → Follows S [] (explain e))
      → Follows S (k ∷ []) (send n tx explain)
  unfolding send
  Follows-send k n tx explain h quiet = record {
    at = λ s. After-submit k explain tx h quiet (n.submit s.history tx) s;
  }
