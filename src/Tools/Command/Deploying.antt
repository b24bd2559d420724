-- ===== src/Tools/Command/Deploying.antt =====
-- tee/tools/cmd/deploy-contract/main.go: the checks before the deployment, and the deployment.
pub mod Preflight
use Prim.Native.String.{String}
use praesidio.Prelude.{Bytes, Bool, Option, some, none, str_eq, if◌then◌else◌}
use praesidio.Validate.Host.{
  Host, Answer, min_deploy_balance, address_not_zero, address_has_code, key_has_funds,
}
use praesidio.Tools.Chain.Calls.{Action, ask, pure, lift, ◌>>=◌}
use praesidio.Tools.Proxy.{answer_bind}
use praesidio.Tools.Support.{Environment, Dialer, Support, default_support}
use praesidio.Tools.Instructions.{Senders, deploy_instruction_sender}

-- The flags of the command.
pub record DeployFlags : Type 0 where
  pub addresses_file : String
  pub chain_url : String
  pub out_file : String
  pub preflight_only : Bool

-- What the command meets.
pub record Deployer : Type 0 where
  pub host : Host
  pub environment : Environment
  pub dialer : Dialer
  -- the services of a client, at its binding and ABI; the key and the address come from the support
  pub senders : Senders
  -- the public part of a private key
  pub public_of : Bytes → Bytes

abbrev pub senders_of : Deployer → Support → Senders
senders_of d sup = record d.senders {
  prv = sup.prv;
  flare_tee_manager = sup.addresses.flare_tee_manager;
}

-- The three checks.
unfoldable pub preflight : Deployer → Support → Answer {0} Unit
preflight d sup =
    let manager = sup.addresses.flare_tee_manager in
    answer_bind (address_not_zero d.host manager "FlareTeeManager") λ _.
      answer_bind (address_has_code d.host (some sup.chain_client) manager "FlareTeeManager")
        λ _. key_has_funds d.host (some sup.chain_client) (d.public_of sup.prv) min_deploy_balance

-- The address is written to the file that is asked for, and errors of that are dropped.
abbrev pub file_call : String → Action {0} Unit
file_call what = ask what (λ h. tt)

unfoldable pub write_out : String → Action {0} Unit
write_out file =
    if str_eq file "" then pure tt else (do _ ← file_call "MkdirAll"; file_call "WriteFile")

unfoldable pub deploy_and_write : Deployer → DeployFlags → Support → Action (Option Bytes)
deploy_and_write d flags sup = do
  address ← deploy_instruction_sender (senders_of d sup)
  _ ← write_out flags.out_file
  pure (some address)

-- `main`: the address that it prints, which the run for the checks alone has not
unfoldable pub deploy_contract : Deployer → DeployFlags → Action (Option Bytes)
deploy_contract d flags = do
  sup ← lift (default_support d.environment d.dialer flags.addresses_file flags.chain_url)
  _ ← lift (preflight d sup)
  if flags.preflight_only then pure none else deploy_and_write d flags sup
