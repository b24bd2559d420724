-- ===== src/Tools/Command/Deploying/Preflight.antt =====
-- What deploy-contract sends, and when.
use praesidio.Prelude.{
  ℕ, Bytes, Bool, true, false, not, ◌&&◌, List, [], ◌∷◌, String, str_eq, Option, none, ◌≡◌, refl,
  ap, ◌∙◌, bytes_eq, leb, ltb, if◌then◌else◌, Bool-cases, inl, inr, arith, ◌==◌,
}
use praesidio.Validate.Host.{
  Host, Answer, ok, err, zero_address, min_deploy_balance, address_not_zero, no_code,
  address_has_code, enough_funds, key_has_funds,
}
use praesidio.Tools.Chain.{saying}
use praesidio.Tools.Chain.Calls.{Tx, Session, call_deploy_sender, pure, lift, ◌>>=◌}
use praesidio.Tools.Chain.Follows.{
  Served-nil, After, Follows, Follows-pure, Follows-fail, Follows-lift, Follows-ask,
  Follows-if_same, Follows-bind_quiet, Follows-bind_last,
}
use praesidio.Tools.Chain.Exactly.{exactly}
use praesidio.Tools.Chain.Sending.{Follows-send}
use praesidio.Tools.Chain.Offers.{
  OfferedFrom, OfferedFrom-none, Offers, prepared, Offers-labelled, Offers-pure, Offers-fail,
  Offers-lift, Offers-ask, Offers-if, Offers-bind, Offers-send,
}
use praesidio.Tools.Proxy.{answer_bind}
use praesidio.Tools.Support.{Support, default_support}
use praesidio.Tools.Instructions.{Senders, node_of, plain_tx, wait_mined, deploy_instruction_sender}
use praesidio.Tools.Command.Deploying.{
  DeployFlags, Deployer, senders_of, preflight, write_out, deploy_and_write, deploy_contract,
}

abbrev has_code : Answer Bytes → Bool
has_code (ok []) = false
has_code (ok (b ∷ bs)) = true
has_code (err e) = false

abbrev has_funds : Answer ℕ → Bool
has_funds (ok balance) = leb min_deploy_balance balance
has_funds (err e) = false

-- The manager is a contract, and the deployer has at least 0.01 of the currency.
abbrev pub deployable : Deployer → Support → Bool
deployable d sup =
    not (bytes_eq sup.addresses.flare_tee_manager zero_address)
    && (has_code (sup.chain_client.code_at sup.addresses.flare_tee_manager)
        && has_funds (sup.chain_client.balance_at (d.host.pubkey_to_address (d.public_of sup.prv))))

abbrev pub deployment_tx : Support → Tx
deployment_tx sup =
    plain_tx (call_deploy_sender sup.addresses.flare_tee_manager sup.addresses.flare_tee_manager)

abbrev pub when_due : Deployer → DeployFlags → Support → List Tx → List Tx
when_due d flags sup txs = if deployable d sup && not flags.preflight_only then txs else []

-- How a run ends: an error if it may not deploy, and no address if it was for the checks alone.
abbrev pub Verdict : Bool → Bool → Answer (Option Bytes) → Type 0
Verdict false only (ok address) = ⊥
Verdict false only (err e) = Unit
Verdict true true r = r ≡ ok none
Verdict true false r = Unit

-- A run from clients that are set up: the transactions that are sent, those that are given to the
-- node, and the result.
abbrev pub Deployed :
    Deployer → DeployFlags → Support → Session → Answer (Option Bytes) × Session → Type 0
Deployed d flags sup s out =
    After exactly (when_due d flags sup (deployment_tx sup ∷ [])) s out
    × OfferedFrom s
        (when_due d flags sup
          (prepared ((node_of d.senders).transactor sup.prv) (deployment_tx sup ∷ [])))
        out.1
    × Verdict (deployable d sup) flags.preflight_only out.0

-- A run ends with the error of the set-up, or goes on from its clients.
abbrev pub Run :
    Deployer → DeployFlags → Answer Support → Session → Answer (Option Bytes) × Session → Type 0
Run d flags (err e) s out = out ≡ (err e, s)
Run d flags (ok sup) s out = Deployed d flags sup s out

Follows-wait_mined :
    (d : Senders) (prefix : String) (hash : Bytes) → Follows exactly [] (wait_mined d prefix hash)
unfolding wait_mined
Follows-wait_mined d prefix hash =
    Follows-bind_quiet exactly [] _ _ (Follows-ask exactly _ _) λ mined. Follows-lift exactly _

Follows-deploy_instruction_sender :
    (d : Senders)
    → Follows exactly
        (plain_tx (call_deploy_sender d.flare_tee_manager d.flare_tee_manager) ∷ [])
        (deploy_instruction_sender d)
unfolding deploy_instruction_sender
Follows-deploy_instruction_sender d =
    let tx = plain_tx (call_deploy_sender d.flare_tee_manager d.flare_tee_manager) in
    Follows-bind_quiet exactly (tx ∷ []) _ _ (Follows-lift exactly _) λ _.
      Follows-bind_last exactly (tx ∷ []) _ _
        (Follows-send exactly tx (node_of d) tx (saying "failed to deploy contract: ") refl
          λ e. Follows-pure exactly _)
        λ hash. Follows-bind_quiet exactly [] _ _ (Follows-wait_mined d _ hash) λ receipt.
          Follows-if_same exactly (receipt.status == 1) [] _ _ (Follows-pure exactly _)
            (Follows-fail exactly [] _)

Follows-write_out : (file : String) → Follows exactly [] (write_out file)
unfolding write_out
Follows-write_out file =
    Follows-if_same exactly (str_eq file "") [] _ _ (Follows-pure exactly _)
      (Follows-bind_quiet exactly [] _ _ (Follows-ask exactly _ _) λ _. Follows-ask exactly _ _)

Follows-deploy_and_write :
    (d : Deployer) (flags : DeployFlags) (sup : Support)
    → Follows exactly (deployment_tx sup ∷ []) (deploy_and_write d flags sup)
unfolding deploy_and_write
Follows-deploy_and_write d flags sup =
    Follows-bind_last exactly (deployment_tx sup ∷ []) _ _
      (Follows-deploy_instruction_sender (senders_of d sup))
      λ address.
        Follows-bind_quiet exactly [] _ _ (Follows-write_out flags.out_file)
          λ _. Follows-pure exactly _

-- A check answers as a test says.
abbrev Judged : Answer {0} Unit → Bool → Type 0
Judged (ok u) b = b ≡ true
Judged (err e) b = b ≡ false

Judged-answer_bind :
    (r t : Answer {0} Unit) (b c : Bool)
    → Judged r b
    → Judged t c
    → Judged (answer_bind r λ _. t) (b && c)
Judged-answer_bind (ok u) t b c h g = rw h g
Judged-answer_bind (err e) t b c h g = rw h refl

Judged-address_not_zero :
    (h : Host) (addr : Bytes) (label : String)
    → Judged (address_not_zero h addr label) (not (bytes_eq addr zero_address))
unfolding address_not_zero
Judged-address_not_zero h addr label = elim (Bool-cases (bytes_eq addr zero_address)) [
  | inl same ↦ rw same refl
  | inr other ↦ rw other refl
]

Judged-no_code :
    (h : Host) (addr : Bytes) (label : String) (code : Answer Bytes)
    → Judged (no_code h addr label code) (has_code code)
unfolding no_code
Judged-no_code h addr label (ok []) = refl
Judged-no_code h addr label (ok (b ∷ bs)) = refl
Judged-no_code h addr label (err e) = refl

leb-ltb : (a b : ℕ) → leb a b ≡ not (ltb b a)
leb-ltb a b = ground arith

Judged-enough_funds :
    (h : Host) (addr : Bytes) (balance : Answer ℕ)
    → Judged (enough_funds h addr min_deploy_balance balance) (has_funds balance)
unfolding enough_funds
Judged-enough_funds h addr (ok balance) = elim (Bool-cases (ltb balance min_deploy_balance)) [
  | inl few ↦ rw few (leb-ltb min_deploy_balance balance ∙ ap not few)
  | inr many ↦ rw many (leb-ltb min_deploy_balance balance ∙ ap not many)
]
Judged-enough_funds h addr (err e) = refl

Judged-preflight : (d : Deployer) (sup : Support) → Judged (preflight d sup) (deployable d sup)
unfolding preflight address_has_code key_has_funds
Judged-preflight d sup =
    let manager = sup.addresses.flare_tee_manager in
    let addr = d.host.pubkey_to_address (d.public_of sup.prv) in
    Judged-answer_bind _ _ _ _ (Judged-address_not_zero d.host manager "FlareTeeManager") (
      Judged-answer_bind _ _ _ _
        (Judged-no_code d.host manager "FlareTeeManager" (sup.chain_client.code_at manager))
        (Judged-enough_funds d.host addr (sup.chain_client.balance_at addr)))

-- The same of the transactions that are given to the node.
Offers-wait_mined :
    (d : Senders) (prefix : String) (hash : Bytes) → Offers [] (wait_mined d prefix hash)
unfolding wait_mined
Offers-wait_mined d prefix hash = Offers-bind [] _ _ (Offers-ask _ _) λ mined. Offers-lift _

Offers-deploy_instruction_sender :
    (d : Senders)
    → Offers
        (prepared
          ((node_of d).transactor d.prv)
          (plain_tx (call_deploy_sender d.flare_tee_manager d.flare_tee_manager) ∷ []))
        (deploy_instruction_sender d)
unfolding deploy_instruction_sender
Offers-deploy_instruction_sender d =
    let tx = plain_tx (call_deploy_sender d.flare_tee_manager d.flare_tee_manager) in
    Offers-labelled "failed to create transactor: " ((node_of d).transactor d.prv) (tx ∷ []) _ (
      Offers-bind (tx ∷ []) _ _ (Offers-send (node_of d) tx "failed to deploy contract: ") λ hash.
        Offers-bind [] _ _ (Offers-wait_mined d _ hash)
          λ receipt. Offers-if (receipt.status == 1) [] _ _ (Offers-pure _) (Offers-fail _))

Offers-write_out : (file : String) → Offers [] (write_out file)
unfolding write_out
Offers-write_out file =
    Offers-if (str_eq file "") [] _ _ (Offers-pure _)
      (Offers-bind [] _ _ (Offers-ask _ _) λ _. Offers-ask _ _)

Offers-deploy_and_write :
    (d : Deployer) (flags : DeployFlags) (sup : Support)
    → Offers
        (prepared ((node_of d.senders).transactor sup.prv) (deployment_tx sup ∷ []))
        (deploy_and_write d flags sup)
unfolding deploy_and_write
Offers-deploy_and_write d flags sup =
    Offers-bind _ _ _ (Offers-deploy_instruction_sender (senders_of d sup))
      λ address. Offers-bind [] _ _ (Offers-write_out flags.out_file) λ _. Offers-pure _

-- The checks answer as they should, before a run for them alone or the deployment.
Deployed-checked :
    (d : Deployer) (flags : DeployFlags) (sup : Support) (s : Session) (r : Answer {0} Unit)
    (b only : Bool)
    → Judged r b
    → let out : Answer (Option Bytes) × Session =
        (do _ ← lift r; if only then pure none else deploy_and_write d flags sup) s in
      After exactly (if b && not only then deployment_tx sup ∷ [] else []) s out
      × OfferedFrom s
          (if b && not only
            then prepared ((node_of d.senders).transactor sup.prv) (deployment_tx sup ∷ [])
            else [])
          out.1
      × Verdict b only out.0
unfolding ◌>>=◌ lift pure
Deployed-checked d flags sup s (err e) b only h =
    rw h (([], [], refl, Served-nil exactly s), OfferedFrom-none s, tt)
Deployed-checked d flags sup s (ok u) b true h =
    rw h (Served-nil exactly s, OfferedFrom-none s, refl)
Deployed-checked d flags sup s (ok u) b false h =
    rw h
      ((Follows-deploy_and_write d flags sup).at s, (Offers-deploy_and_write d flags sup).at s, tt)

Run-supported :
    (d : Deployer) (flags : DeployFlags) (s : Session) (r : Answer Support)
    → Run d flags r s (
        (do
          sup ← lift r
          _ ← lift (preflight d sup)
          if flags.preflight_only then pure none else deploy_and_write d flags sup)
          s)
unfolding ◌>>=◌ lift
Run-supported d flags s (err e) = refl
Run-supported d flags s (ok sup) =
    Deployed-checked d flags sup s (preflight d sup) (deployable d sup) flags.preflight_only
      (Judged-preflight d sup)

-- Whatever the chain and its node answer: if the clients cannot be set up, deploy-contract ends with
-- that error and calls nothing. Else it gives the node the one deployment, at the FlareTeeManager of
-- its addresses, exactly if that address is not zero and has code, the deployer has at least the
-- minimal balance, the run is not for the checks alone and the key makes a transactor; it gives the
-- node no other transaction. A run that goes through has had its deployment taken. If the address
-- or the balance is not as said, the run ends with an error, and if they are and it is for the checks
-- alone, it goes through without an address.
pub deploy_contract-Run :
    (d : Deployer) (flags : DeployFlags) (s : Session)
    → Run d flags
        (default_support d.environment d.dialer flags.addresses_file flags.chain_url)
        s
        (deploy_contract d flags s)
unfolding deploy_contract
deploy_contract-Run d flags s =
    Run-supported d flags s
      (default_support d.environment d.dialer flags.addresses_file flags.chain_url)
