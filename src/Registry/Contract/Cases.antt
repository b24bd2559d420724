-- ===== src/Registry/Contract/Cases.antt =====
-- What each transaction on the contract leaves, for any property of states.
use praesidio.Prelude.{
  two_64, ◌%◌, ℕ, ◌+◌, ◌^◌, ◌<◌, ◌≤◌, Bool, true, false, not, ◌||◌, Bytes, Option, List, [], ◌∷◌,
  none, some, ◌==◌, ◌≡◌, refl, if◌then◌else◌, bytes_eq, ltb, ltb→lt, nor_left, nor_right,
}
use praesidio.Registry.{
  Registry, Revert, Outcome, done, revert, zero_address, Chain, append_action, post_action,
}
use praesidio.Guard.Data.{action_redemption_handled}
use praesidio.Registry.Replay.{Leaves, post_action-Leaves}
use praesidio.Registry.Contract.{
  Contract, Message, Request, After, by_guard_owner, set_guardian_signer, set_paused, add_guard,
  register_owned, register_agent_vault, change_guard, set_policy, set_guard_active, with_ledger,
  settled, run, execute,
}

module _ (P : Contract → Type 0) where
  if-After :
      (b : Bool) (x y : Outcome Contract)
      → (b ≡ true → After P x)
      → (b ≡ false → After P y)
      → After P (if b then x else y)
  if-After true x y hx hy = hx refl
  if-After false x y hx hy = hy refl

  -- A guard of a function: its body runs where the test fails.
  guard-After :
      (b : Bool) (e : Revert) (y : Outcome Contract)
      → (b ≡ false → After P y)
      → After P (if b then revert e else y)
  guard-After b e y hy = if-After b _ y (λ _. tt) hy

  negated : (b : Bool) → not b ≡ false → b ≡ true
  negated true h = refl
  negated false h = cc

  pub After-set_guardian_signer :
      (m : Message) (signer : Bytes) (c : Contract)
      → (bytes_eq m.sender c.owner ≡ true
          → P (record c { ledger = record c.ledger { guardian_signer = signer } }))
      → After P (set_guardian_signer m signer c)
  unfolding set_guardian_signer
  After-set_guardian_signer m signer c h =
      if-After (bytes_eq m.sender c.owner) _ _
        (λ e. guard-After (bytes_eq signer zero_address) _ _ (λ _. h e)) (λ _. tt)

  pub After-set_paused :
      (m : Message) (paused : Bool) (c : Contract)
      → (bytes_eq m.sender c.owner ≡ true
          → P (record c { ledger = record c.ledger { paused = paused } }))
      → After P (set_paused m paused c)
  unfolding set_paused
  After-set_paused m paused c h = if-After (bytes_eq m.sender c.owner) _ _ h (λ _. tt)

  After-register_owned :
      (m : Message) (vault : Bytes) (ratio amount : ℕ) (c : Contract) (answer : Option Bytes)
      → ((vault_owner : Bytes)
          → answer ≡ some vault_owner
          → bytes_eq vault_owner m.sender ≡ true
          → (ratio == 0) ≡ false
          → (amount == 0) ≡ false
          → c.guard_count + 1 < 2 ^ 256
          → P (add_guard m vault ratio amount c))
      → After P (register_owned m vault ratio amount c answer)
  unfolding register_owned
  After-register_owned m vault ratio amount c none h = tt
  After-register_owned m vault ratio amount c (some vault_owner) h =
      guard-After (not (bytes_eq vault_owner m.sender)) _ _ λ owns.
        guard-After (ratio == 0) _ _ λ some_ratio. guard-After (amount == 0) _ _ λ some_amount.
          guard-After (not (ltb (c.guard_count + 1) (2 ^ 256))) _ _ λ fits.
            h vault_owner refl (negated _ owns) some_ratio some_amount
              (ltb→lt (c.guard_count + 1) (2 ^ 256) (negated _ fits))

  pub After-register_agent_vault :
      (m : Message) (vault : Bytes) (ratio amount : ℕ) (c : Contract)
      → ((vault_owner : Bytes)
          → bytes_eq vault zero_address ≡ false
          → (c.guard_id_of_vault vault == 0) ≡ true
          → m.agent_vault_owner vault ≡ some vault_owner
          → bytes_eq vault_owner m.sender ≡ true
          → (ratio == 0) ≡ false
          → (amount == 0) ≡ false
          → c.guard_count + 1 < 2 ^ 256
          → P (add_guard m vault ratio amount c))
      → After P (register_agent_vault m vault ratio amount c)
  unfolding register_agent_vault
  After-register_agent_vault m vault ratio amount c h = guard-After c.ledger.paused _ _ λ _.
      guard-After (bytes_eq vault zero_address) _ _ λ known.
        guard-After (not (c.guard_id_of_vault vault == 0)) _ _ λ first.
          After-register_owned m vault ratio amount c (m.agent_vault_owner vault)
            λ o. h o known (negated _ first)

  After-by_guard_owner :
      (m : Message) (c : Contract) (guard_id : ℕ) (body : Outcome Contract)
      → (bytes_eq (c.ledger.guards guard_id).agent_vault zero_address ≡ false
          → bytes_eq m.sender (c.ledger.guards guard_id).owner ≡ true
          → After P body)
      → After P (by_guard_owner m c guard_id body)
  After-by_guard_owner m c guard_id body h = guard-After c.ledger.paused _ _ λ _.
      guard-After (bytes_eq (c.ledger.guards guard_id).agent_vault zero_address) _ _ λ known.
        guard-After (not (bytes_eq m.sender (c.ledger.guards guard_id).owner)) _ _
          λ owns. h known (negated _ owns)

  pub After-set_policy :
      (m : Message) (guard_id ratio amount : ℕ) (c : Contract)
      → (bytes_eq (c.ledger.guards guard_id).agent_vault zero_address ≡ false
          → bytes_eq m.sender (c.ledger.guards guard_id).owner ≡ true
          → (ratio == 0) ≡ false
          → (amount == 0) ≡ false
          → P (
              change_guard c guard_id (record (c.ledger.guards guard_id) {
                ratio_bips = ratio;
                top_up_amount_wei = amount;
              })))
      → After P (set_policy m guard_id ratio amount c)
  unfolding set_policy
  After-set_policy m guard_id ratio amount c h = After-by_guard_owner m c guard_id _ λ known owns.
      guard-After (ratio == 0 || amount == 0) _ _
        λ both. h known owns (nor_left _ _ both) (nor_right _ _ both)

  pub After-set_guard_active :
      (m : Message) (guard_id : ℕ) (active : Bool) (c : Contract)
      → (bytes_eq (c.ledger.guards guard_id).agent_vault zero_address ≡ false
          → bytes_eq m.sender (c.ledger.guards guard_id).owner ≡ true
          → P (change_guard c guard_id (record (c.ledger.guards guard_id) { active = active })))
      → After P (set_guard_active m guard_id active c)
  unfolding set_guard_active
  After-set_guard_active m guard_id active c h =
      After-by_guard_owner m c guard_id _ λ known owns. h known owns

  After-with_ledger :
      (c : Contract) (o : Outcome Registry)
      → Leaves (λ g. P (record c { ledger = g })) o
      → After P (with_ledger c o)
  After-with_ledger c (done g) h = h
  After-with_ledger c (revert e) h = tt

  pub After-posts_action :
      (ch : Chain) (c : Contract) (guard_id action_type amount nonce : ℕ) (signature : Bytes)
      → (bytes_eq (c.ledger.guards guard_id).agent_vault zero_address ≡ false
          → action_type ≤ action_redemption_handled
          → (c.ledger.guards guard_id).last_action_nonce < nonce
          → P (record c {
            ledger = append_action ch c.ledger guard_id (record {
              action_type = action_type;
              amount = amount;
              nonce = nonce;
              timestamp = ch.timestamp % two_64;
            });
          }))
      → After P
          (with_ledger c (post_action ch c.ledger guard_id action_type amount nonce signature))
  After-posts_action ch c guard_id action_type amount nonce signature h = After-with_ledger c _ (
      post_action-Leaves (λ g. P (record c { ledger = g })) ch c.ledger guard_id action_type amount
        nonce signature h)

  pub After-settled : (c : Contract) (o : Outcome Contract) → P c → After P o → P (settled c o)
  After-settled c (done c') before h = h
  After-settled c (revert e) before h = before

  -- What every transaction preserves holds after any sequence of them.
  pub run-After :
      ((m : Message) (r : Request) (c : Contract) → P c → After P (execute m r c))
      → (c : Contract) (ms : List Message) → P c
      → P (run c ms)
  run-After step c [] h = h
  run-After step c (m ∷ ms) h =
      let next = execute m m.request c in
      run-After step (settled c next) ms (After-settled c next h (step m m.request c h))
