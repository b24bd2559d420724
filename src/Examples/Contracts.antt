-- ===== src/Examples/Contracts.antt =====
-- A contract that is deployed and used.
use praesidio.Prelude.{Bytes, List, [], ◌∷◌, ◌++◌, some, true, ◌≡◌, refl, replicate, bytes_eq}
use praesidio.Registry.{
  done, post_action, checked_signer, append_action, recover, recovery_id, ledger_digest,
}
use praesidio.Guard.Words.Encoding.{be_value}
use praesidio.Registry.Contract.{
  Contract, Message, Request, After, construct, empty_ledger, run, execute, sets_guardian_signer,
  set_guardian_signer, set_paused, register_agent_vault, register_owned, add_guard, set_policy,
  registers_agent_vault, sets_policy, sets_paused, posts_action,
}
use praesidio.Registry.Contract.Consistent.{Consistent}
use praesidio.Registry.Contract.Consistency.{run-Consistent}
use praesidio.Registry.Contract.Authority.{Authorised, execute-Authorised}
use praesidio.Examples.Ledger.{chain}

abbrev deployer : Bytes
deployer = replicate 20 9

abbrev agent_owner : Bytes
agent_owner = replicate 20 4

abbrev vault : Bytes
vault = replicate 20 5

abbrev manager : Bytes
manager = replicate 20 6

abbrev fresh : Contract
fresh = record {
  ledger = empty_ledger;
  owner = deployer;
  guard_count = 0;
  guard_id_of_vault = λ v. 0;
}

abbrev sent_by : Bytes → Request → Message
sent_by sender r = record {
  sender = sender;
  chain = chain;
  agent_vault_owner = λ v. some agent_owner;
  request = r;
}

-- The vault is registered, a second registration of it reverts, and an action is posted.
abbrev history : List Message
history =
    sent_by deployer (sets_guardian_signer (replicate 20 3))
    ∷ sent_by agent_owner (registers_agent_vault vault 12000 250)
    ∷ sent_by agent_owner (registers_agent_vault vault 13000 100)
    ∷ sent_by agent_owner (sets_policy 1 13000 300)
    ∷ sent_by agent_owner (posts_action 1 1 300 1 (replicate 64 0 ++ 27 ∷ []))
    ∷ sent_by deployer (sets_paused true)
    ∷ []

fresh-made : construct deployer manager ≡ done fresh
unfolding construct bytes_eq
fresh-made = refl

run-Consistent_example : Consistent (run fresh history)
run-Consistent_example = run-Consistent deployer manager fresh history fresh-made

execute-Authorised_example :
    After (Authorised (sent_by agent_owner (registers_agent_vault vault 12000 250)) fresh 1) (
      execute
        (sent_by agent_owner (registers_agent_vault vault 12000 250))
        (registers_agent_vault vault 12000 250)
        fresh)
execute-Authorised_example =
    execute-Authorised (sent_by agent_owner (registers_agent_vault vault 12000 250))
      (registers_agent_vault vault 12000 250) fresh 1

-- The whole history runs: one guard, with one action.
history_result :
    ((run fresh history).guard_count ≡ 1)
    × (((run fresh history).ledger.guards 1).last_action_nonce ≡ 1)
    × (((run fresh history).ledger.guards 1).ratio_bips ≡ 13000)
unfolding execute set_guardian_signer set_paused register_agent_vault register_owned add_guard
    set_policy post_action checked_signer append_action recover recovery_id be_value bytes_eq
    ledger_digest
history_result = (refl, refl, refl)
