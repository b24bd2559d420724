-- ===== src/Guard/Handlers/Routing.antt =====
-- What the tee-node path and the relayer path have in common, for tee/go/internal/extension/extension.go.
use Prim.Native.String.{◌++◌}
use praesidio.Prelude.{◌≡◌, refl, bytes_eq_iff, []}
use praesidio.Prelude.Outcome.{Result, ok, err, panic}
use praesidio.Guard.Data.{
  CheckVaultRequest, CheckVaultResponse, State, op_type_guard, op_command_check_vault,
}
use praesidio.Guard.World.{World}
use praesidio.Guard.Check.{check_vault_json}
use praesidio.Guard.Handlers.{
  DataFixed, Action, ActionResult, Codec, Reply, reply, aborted, plain, action_result, response,
  build_result, log_of, check_vault, finish_check, check_decoded, process_action, process_fixed,
  process_guard, reply_result, reply_response, handle_request,
}

-- The tee-node's reply and the relayer's reply to one check: the answer, or the error, in the form of
-- either interface.
abbrev pub Agree : Codec → Result CheckVaultResponse → Reply → Reply → Type 0
Agree c (ok resp) tee relayer =
    (ar : ActionResult) × (tee ≡ reply 200 (action_result ar))
    × (relayer ≡ reply 200 (response resp))
    × (ar.status ≡ 1)
    × (ar.log ≡ "ok")
    × (ar.result_data ≡ c.encode_response resp)
Agree c (err e) tee relayer =
    (ar : ActionResult) × (tee ≡ reply 200 (action_result ar))
    × (relayer ≡ reply 422 (plain ("check vault: " ++ e ++ "\n")))
    × (ar.status ≡ 0)
    × (ar.log ≡ "error: " ++ e)
    × (ar.result_data ≡ [])
Agree c panic tee relayer = (tee ≡ aborted) × (relayer ≡ aborted)

finish-Agree :
    (w : World) (c : Codec) (a : Action) (df : DataFixed) (out : Result CheckVaultResponse × State)
    → ((reply_result w c (finish_check w c a df out)).1 ≡ (reply_response w c out).1)
      × Agree c out.0 (reply_result w c (finish_check w c a df out)).0 (reply_response w c out).0
unfolding reply_result finish_check reply_response build_result log_of
finish-Agree w c a df (ok resp, s) = (refl, (_, refl, refl, refl, refl, refl))
finish-Agree w c a df (err e, s) = (refl, (_, refl, refl, refl, refl, refl))
finish-Agree w c a df (panic, s) = (refl, (refl, refl))

module _ (w : World) (c : Codec) (a : Action) (s : State) where
  -- Under the two expected hashes, with a message that decodes, the tee-node path and the relayer path report one and
  -- the same check: they leave the same state, and a result of the check is a status 1 answer with its
  -- JSON, an error a status 0 answer with its text.
  pub same_check :
      (df : DataFixed) (req : CheckVaultRequest)
      → c.parse_fixed a.message ≡ ok df
      → df.op_type ≡ w.to_hash op_type_guard
      → df.op_command ≡ w.to_hash op_command_check_vault
      → c.decode_request_strict df.original_message ≡ ok req
      → ((process_action w c a s).1 ≡ (handle_request w c (ok req) s).1)
        × Agree c
            (check_vault_json w req s).0
            (process_action w c a s).0
            (handle_request w c (ok req) s).0
  unfolding process_action process_fixed process_guard check_vault check_decoded handle_request
  same_check df req parsed ht hc decoded =
      rw
        (
          parsed,
          (bytes_eq_iff df.op_type (w.to_hash op_type_guard)).1 ht,
          (bytes_eq_iff df.op_command (w.to_hash op_command_check_vault)).1 hc,
          decoded,
        )
        (finish-Agree w c a df (check_vault_json w req s))
