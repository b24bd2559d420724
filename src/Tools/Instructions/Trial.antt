-- ===== src/Tools/Instructions/Trial.antt =====
-- tee/tools/cmd/run-test/main.go: two instructions and their results.
pub mod Sent
use Prim.Native.Char.{code}
use Prim.Native.String.{String, ◌++◌ as ◌+++◌}
use praesidio.Prelude.{
  ℕ, ◌+◌, Bytes, Bool, true, false, ◌&&◌, ◌||◌, List, [], ltb, length, str_eq, ◌==◌, if◌then◌else◌,
}
use praesidio.Prelude.Decimal.{decimal, ℤ, pos, negsuc}
use praesidio.Validate.Host.{Answer, ok, err}
use praesidio.Tools.Chain.Calls.{Action, label, lift, ◌>>=◌}
use praesidio.Tools.Proxy.{ActionResult, action_result, sleep}
use praesidio.Tools.Instructions.{Senders, set_extension_id, send_say_hello, send_say_goodbye}

-- `strings.Contains(s, p)`
unfoldable pub begins_with : String → String → Bool
begins_with Prim.Native.String.[] s = true
begins_with (Prim.Native.String.◌∷◌ c p) Prim.Native.String.[] = false
begins_with (Prim.Native.String.◌∷◌ c p) (Prim.Native.String.◌∷◌ d s) =
    code c == code d && begins_with p s

unfoldable pub contains_text : String → String → Bool
unfolding begins_with
contains_text p Prim.Native.String.[] = begins_with p Prim.Native.String.[]
contains_text p (Prim.Native.String.◌∷◌ c s) =
    begins_with p (Prim.Native.String.◌∷◌ c s) || contains_text p s

-- An error of `SetExtensionId` that tells that the identifier is set is none.
unfoldable pub tolerated : Answer {0} Unit → Answer {0} Unit
tolerated (ok u) = ok tt
tolerated (err e) =
    if contains_text "already set" e || contains_text "Extension ID already set" e
    then ok tt
    else err (
        "setExtensionId failed — is the extension registered? Check that pre-build.sh completed successfully. Error: "
        +++ e)

unfoldable pub configure : Senders → Bytes → Action {0} Unit
configure d address s = let (r, s1) = set_extension_id d address s in (tolerated r, s1)

abbrev below_one : ℤ → Bool
below_one (pos n) = ltb n 1
below_one (negsuc n) = true

-- `%d`
abbrev number_text : ℤ → String
number_text (pos n) = decimal n
number_text (negsuc n) = "-" +++ decimal (n + 1)

-- The checks on a decoded response.
abbrev judged : String → Answer (String × ℤ) → Answer {0} Unit
judged name (ok (text, number)) =
    if str_eq text ""
    then err ("expected non-empty " +++ name)
    else if below_one number
    then err ("expected " +++ name +++ "Number >= 1, got " +++ number_text number)
    else ok tt
judged name (err e) = err ("failed to unmarshal response: " +++ e)

unfoldable pub judge : String → (Bytes → Answer (String × ℤ)) → ActionResult → Answer {0} Unit
judge name decode result =
    if result.status == 0
    then err ("instruction processing failed: " +++ result.log)
    else if result.status == 2
    then err "instruction still pending after polling, expected completed"
    else if length result.result_data == 0
    then err "expected response data but got none"
    else judged name (decode result.result_data)

-- `verifyHelloResult` and `verifyGoodbyeResult`
unfoldable pub verify_hello_result : Senders → String → Bytes → Action {0} Unit
verify_hello_result d url id = do
  result ← action_result d.services url id
  lift (judge "Greeting" d.decode_greeting result)

unfoldable pub verify_goodbye_result : Senders → String → Bytes → Action {0} Unit
verify_goodbye_result d url id = do
  result ← action_result d.services url id
  lift (judge "Farewell" d.decode_farewell result)

-- `main`, with the JSON text of the greeting
unfoldable pub run_test : Senders → String → Bytes → Bytes → Action {0} Unit
run_test d url address payload = do
  _ ← configure d address
  hello ← send_say_hello d address payload
  _ ← sleep
  _ ← verify_hello_result d url hello.0
  goodbye ← send_say_goodbye d address "World" "heading out"
  _ ← sleep
  verify_goodbye_result d url goodbye.0
