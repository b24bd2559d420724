-- ===== src/Examples/Running.antt =====
-- Several checks, the handlers and the words in the sample world.
use praesidio.Prelude.{ℕ, ◌+◌, ◌≤◌, ◌≡◌, refl, List, [], ◌∷◌, some, arith}
use praesidio.Prelude.Text.{codes}
use praesidio.Prelude.Decimal.{pos, decimal}
use praesidio.Prelude.Outcome.{ok, err}
use praesidio.Guard.Data.{CheckVaultRequest, op_type_guard, op_command_check_vault, State}
use praesidio.Guard.World.{World}
use praesidio.Guard.Price.{format_price}
use praesidio.Guard.Price.ReadBack.{read_number, price_read_back}
use praesidio.Guard.Digest.{registry_words}
use praesidio.Guard.Digest.Preimage.{abi_encode, registry_words-abi_encode, preimage_binds}
use praesidio.Guard.Check.{check_vault_json}
use praesidio.Guard.Check.Effects.{
  IsEffect, check_vault_json-IsEffect, serve, IsAccount, serve-IsAccount,
}
use praesidio.Guard.Handlers.{DataFixed, Action, Codec, process_action, handle_request}
use praesidio.Guard.Handlers.Routing.{Agree, same_check}
use praesidio.Guard.Interleaving.{start, Task, advance, System, step, Reach, here, next}
use praesidio.Guard.Interleaving.Counters.{pending, acted, total, started, counters_consistent}
use praesidio.Examples.Worlds.{demo, demo_request, demo_state}

abbrev requests : List (World × CheckVaultRequest)
requests = (demo, demo_request) ∷ (demo, demo_request) ∷ []

serve-IsAccount_example : IsAccount requests demo_state (serve requests demo_state)
serve-IsAccount_example = serve-IsAccount requests demo_state (omega arith) (omega arith)

check_vault_json-IsEffect_example : IsEffect demo demo_request demo_state
check_vault_json-IsEffect_example = check_vault_json-IsEffect demo demo_request demo_state

-- The second check overtakes the first between its two sections.
abbrev task : Task
task = record { world = demo; request = demo_request; phase = start }

abbrev after_one : Task × State
after_one = advance task demo_state

abbrev after_two : Task × State
after_two = advance task after_one.1

abbrev overtaken : System
overtaken = record { state = after_two.1; tasks = after_one.0 ∷ after_two.0 ∷ [] }

abbrev overtaking : Reach (record { state = demo_state; tasks = started requests }) overtaken
overtaking =
    next (next here (step [] (task ∷ []) task demo_state))
      (step (after_one.0 ∷ []) [] task after_one.1)

counters_consistent_example :
    (overtaken.state.actions_signed ≡ 1 + total acted overtaken.tasks)
    × (3 + total pending overtaken.tasks + total acted overtaken.tasks
        ≤ overtaken.state.checks_performed)
    × (overtaken.state.checks_performed ≤ 5)
counters_consistent_example =
    counters_consistent requests demo_state overtaken (omega arith) (omega arith) overtaking

abbrev fixed : DataFixed
fixed = record {
  op_type = codes op_type_guard;
  op_command = codes op_command_check_vault;
  original_message = [];
}

abbrev codec_for : DataFixed → Codec
codec_for df = record {
  parse_fixed = λ bs. ok df;
  decode_request = λ bs. ok demo_request;
  decode_request_strict = λ bs. ok demo_request;
  decode_action = λ bs. err "not an action";
  encode_response = λ resp. codes "{}";
}

abbrev action : Action
action = record { id = 1 ∷ []; submission_tag = "submit"; message = [] }

same_check_example :
    ((process_action demo (codec_for fixed) action demo_state).1
      ≡ (handle_request demo (codec_for fixed) (ok demo_request) demo_state).1)
    × Agree
        (codec_for fixed)
        (check_vault_json demo demo_request demo_state).0
        (process_action demo (codec_for fixed) action demo_state).0
        (handle_request demo (codec_for fixed) (ok demo_request) demo_state).0
same_check_example =
    same_check demo (codec_for fixed) action demo_state fixed demo_request refl refl refl refl

price_read_back_example : read_number (format_price 1010400 (pos 6)) 0 ≡ some (1010400, 6)
price_read_back_example = price_read_back 1010400 6

registry_words-abi_encode_example :
    registry_words 114 7 1 5 (decimal 250) ≡ ok (abi_encode (114 ∷ 7 ∷ 1 ∷ 250 ∷ 5 ∷ []))
registry_words-abi_encode_example =
    registry_words-abi_encode 114 7 1 5 250 (omega arith) (omega arith) (omega arith) (omega arith)
      (omega arith)

preimage_binds_example : ◌≡◌ {A = List ℕ} (114 ∷ 7 ∷ 1 ∷ 250 ∷ 5 ∷ []) (114 ∷ 7 ∷ 1 ∷ 250 ∷ 5 ∷ [])
preimage_binds_example =
    preimage_binds 114 7 1 5 250 114 7 1 5 250 (omega arith) (omega arith) (omega arith)
      (omega arith) refl
