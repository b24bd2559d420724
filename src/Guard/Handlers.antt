-- ===== src/Guard/Handlers.antt =====
-- The HTTP handlers and the routing of tee/go/internal/extension/extension.go and utils.go.
pub mod Routing
use Prim.Native.String.{String, ◌++◌}
use praesidio.Prelude.{ℕ, Bool, Bytes, bytes_eq, [], Option, none, some, ◌==◌, if◌then◌else◌}
use praesidio.Prelude.Outcome.{Result, ok, err, panic}
use praesidio.Guard.Data.{
  CheckVaultRequest, CheckVaultResponse, State, StateResponse, op_type_guard,
  op_command_check_vault, version,
}
use praesidio.Guard.World.{World}
use praesidio.Guard.Check.{check_vault_json}

-- `instruction.DataFixed`: the fields that the extension reads.
pub record DataFixed : Type 0 where
  pub op_type : Bytes
  pub op_command : Bytes
  pub original_message : Bytes

-- `teetypes.Action`: the fields that the extension reads.
pub record Action : Type 0 where
  pub id : Bytes
  pub submission_tag : String
  pub message : Bytes

-- `teetypes.ActionResult`, as `buildResult` fills it.
pub record ActionResult : Type 0 where
  pub id : Bytes
  pub submission_tag : String
  pub version : String
  pub op_type : Bytes
  pub op_command : Bytes
  pub result_data : Bytes
  pub status : ℕ
  pub log : String

-- What reading and writing JSON makes of bytes, and `processorutils.Parse` of a message.
pub record Codec : Type 0 where
  pub parse_fixed : Bytes → Result DataFixed
  pub decode_request : Bytes → Result CheckVaultRequest
  pub decode_request_strict : Bytes → Result CheckVaultRequest
  pub decode_action : Bytes → Result Action
  pub encode_response : CheckVaultResponse → Bytes

-- A body: plain text, or the value that is written as JSON.
pub data Body : Type 0 where
  plain : String → Body
  response : CheckVaultResponse → Body
  state : StateResponse → Body
  action_result : ActionResult → Body

-- An answer with its status code; a panic aborts the connection.
pub data Reply : Type 0 where
  reply : ℕ → Body → Reply
  aborted : Reply

-- `fmt.Sprintf("%v", err)` of an error that may be nil
error_text : Option String → String
error_text none = "<nil>"
error_text (some e) = e

unfoldable pub log_of : ℕ → Option String → String
unfolding error_text
log_of status e =
    if status == 0 then "error: " ++ error_text e else if status == 1 then "ok" else "pending"

unfoldable pub build_result : Action → DataFixed → Bytes → ℕ → Option String → ActionResult
build_result a df result_data status e = record {
  id = a.id;
  submission_tag = a.submission_tag;
  version = version;
  op_type = df.op_type;
  op_command = df.op_command;
  result_data = result_data;
  status = status;
  log = log_of status e;
}

unfoldable pub unsupported : World → String → Bytes → String → String
unsupported w what received expected =
    "unsupported "
    ++ what
    ++ ": received "
    ++ w.hash_hex received
    ++ ", expected "
    ++ w.hash_hex (w.to_hash expected)

module _ (w : World) (c : Codec) where
  -- `err` on the way to `buildResult`; a panic leaves the handler.
  unfoldable pub finish_check :
      Action → DataFixed → Result CheckVaultResponse × State → Result ActionResult × State
  finish_check a df (ok resp, s) = (ok (build_result a df (c.encode_response resp) 1 none), s)
  finish_check a df (err e, s) = (ok (build_result a df [] 0 (some e)), s)
  finish_check a df (panic, s) = (panic, s)

  unfoldable pub check_decoded :
      Action → DataFixed → Result CheckVaultRequest → State → Result ActionResult × State
  check_decoded a df (ok req) s = finish_check a df (check_vault_json w req s)
  check_decoded a df (err e) s = (ok (build_result a df [] 0 (some ("decoding request: " ++ e))), s)
  check_decoded a df panic s = (panic, s)

  unfoldable pub check_vault : Action → DataFixed → State → Result ActionResult × State
  check_vault a df s = check_decoded a df (c.decode_request_strict df.original_message) s

  unfoldable pub reply_result : Result ActionResult × State → Reply × State
  reply_result (ok ar, s) = (reply 200 (action_result ar), s)
  reply_result (err e, s) = (aborted, s)
  reply_result (panic, s) = (aborted, s)

  unfoldable pub process_guard : Action → DataFixed → State → Reply × State
  process_guard a df s =
      if bytes_eq df.op_command (w.to_hash op_command_check_vault)
      then reply_result (check_vault a df s)
      else (reply 501 (plain (unsupported w "op command" df.op_command op_command_check_vault)), s)

  unfoldable pub process_fixed : Action → Result DataFixed → State → Reply × State
  process_fixed a (err e) s = (reply 400 (plain ("decoding fixed data: " ++ e)), s)
  process_fixed a panic s = (aborted, s)
  process_fixed a (ok df) s =
      if bytes_eq df.op_type (w.to_hash op_type_guard)
      then process_guard a df s
      else (reply 501 (plain (unsupported w "op type" df.op_type op_type_guard)), s)

  unfoldable pub process_action : Action → State → Reply × State
  process_action a s = process_fixed a (c.parse_fixed a.message) s

  -- `http.Error` ends its text with a line feed.
  unfoldable pub handle_action : Result Action → State → Reply × State
  handle_action (ok a) s = process_action a s
  handle_action (err e) s = (reply 400 (plain ("decoding action: " ++ e ++ "\n")), s)
  handle_action panic s = (aborted, s)

  unfoldable pub action_handler : Bytes → State → Reply × State
  action_handler body s = handle_action (c.decode_action body) s

  unfoldable pub reply_response : Result CheckVaultResponse × State → Reply × State
  reply_response (ok resp, s) = (reply 200 (response resp), s)
  reply_response (err e, s) = (reply 422 (plain ("check vault: " ++ e ++ "\n")), s)
  reply_response (panic, s) = (aborted, s)

  unfoldable pub handle_request : Result CheckVaultRequest → State → Reply × State
  handle_request (ok req) s = reply_response (check_vault_json w req s)
  handle_request (err e) s = (reply 400 (plain ("decoding request: " ++ e ++ "\n")), s)
  handle_request panic s = (aborted, s)

  unfoldable pub guard_check_handler : Bytes → State → Reply × State
  guard_check_handler body s = handle_request (c.decode_request body) s

  unfoldable pub state_handler : State → Reply × State
  state_handler s = (reply 200 (state (record { state_version = w.to_hash version; state = s })), s)
