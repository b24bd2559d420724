-- ===== src/Tools/Proxy/Quiet.antt =====
-- Polling sends no transaction.
use praesidio.Prelude.{ℕ, zero, suc, Bytes, String, []}
use praesidio.Tools.Chain.Follows.{
  Frame, Follows, Follows-pure, Follows-lift, Follows-ask, Follows-if_same, Follows-bind_quiet,
}
use praesidio.Tools.Proxy.{Services, is_status_ok, poll, after_poll, action_result}

module _ {K : Type 0} (S : Frame K) (v : Services) where
  Follows-poll : (url : String) (n : ℕ) → Follows S [] (poll v url n)
  unfolding poll
  Follows-poll url zero = Follows-bind_quiet S [] _ _ (Follows-ask S _ _) λ result.
      Follows-if_same S (is_status_ok result) [] _ _ (Follows-pure S result)
        (Follows-bind_quiet S [] _ _ (Follows-ask S _ _) λ _. Follows-pure S result)
  Follows-poll url (suc n) = Follows-bind_quiet S [] _ _ (Follows-ask S _ _) λ result.
      Follows-if_same S (is_status_ok result) [] _ _ (Follows-pure S result)
        (Follows-bind_quiet S [] _ _ (Follows-ask S _ _) λ _. Follows-poll url n)

  pub Follows-action_result : (url : String) (id : Bytes) → Follows S [] (action_result v url id)
  unfolding action_result
  Follows-action_result url id =
      Follows-bind_quiet S [] _ _ (Follows-poll _ _) λ last. Follows-lift S (after_poll v last)
