-- ===== src/Registry/Contract/Authority.antt =====
-- Who may change what the contract keeps.
use praesidio.Prelude.{
  ℕ, ◌+◌, true, Bytes, some, ◌≡◌, refl, sym, ◌⊎◌, inl, inr, bytes_eq, bytes_eq_iff,
}
use praesidio.Guard.Data.{GuardPolicy}
use praesidio.Registry.{append_action}
use praesidio.Registry.Contract.{
  Contract, Message, Request, After, add_guard, new_guard, execute, change_guard,
  sets_guardian_signer, sets_paused, registers_agent_vault, sets_policy, sets_guard_active,
  posts_action,
}
use praesidio.Registry.Contract.Cases.{
  After-set_guardian_signer, After-set_paused, After-register_agent_vault, After-set_policy,
  After-set_guard_active, After-posts_action,
}
use praesidio.Registry.Contract.Update.{update-all}

-- The two policies are the same; their last actions need not be.
abbrev pub SamePolicy : GuardPolicy → GuardPolicy → Type 0
SamePolicy g g' =
    (g'.agent_vault ≡ g.agent_vault)
    × (g'.owner ≡ g.owner)
    × (g'.ratio_bips ≡ g.ratio_bips)
    × (g'.top_up_amount_wei ≡ g.top_up_amount_wei)
    × (g'.created_at ≡ g.created_at)
    × (g'.active ≡ g.active)

-- The owner of a guard sent the transaction, and keeps the guard and its vault.
abbrev pub ByOwner : Message → GuardPolicy → GuardPolicy → Type 0
ByOwner m g g' = (m.sender ≡ g.owner) × (g'.owner ≡ g.owner) × (g'.agent_vault ≡ g.agent_vault)

-- The guard is the next one, of a vault whose owner, by the asset manager, sent the transaction.
abbrev pub ByVaultOwner : Message → Contract → ℕ → GuardPolicy → Type 0
ByVaultOwner m c guard_id g' =
    (guard_id ≡ c.guard_count + 1)
    × (g'.owner ≡ m.sender)
    × (m.agent_vault_owner g'.agent_vault ≡ some m.sender)

abbrev pub Entitled : Message → Contract → ℕ → Contract → Type 0
Entitled m c guard_id c' =
    SamePolicy (c.ledger.guards guard_id) (c'.ledger.guards guard_id)
    ⊎ (ByOwner m (c.ledger.guards guard_id) (c'.ledger.guards guard_id)
        ⊎ ByVaultOwner m c guard_id (c'.ledger.guards guard_id))

-- The signer of the enclave and the pause are the contract owner's, who stays the same.
abbrev pub Administered : Message → Contract → Contract → Type 0
Administered m c c' =
    (c'.owner ≡ c.owner)
    × (((c'.ledger.guardian_signer ≡ c.ledger.guardian_signer)
          × (c'.ledger.paused ≡ c.ledger.paused))
        ⊎ (m.sender ≡ c.owner))

abbrev pub Authorised : Message → Contract → ℕ → Contract → Type 0
Authorised m c guard_id c' = Administered m c c' × Entitled m c guard_id c'

unchanged : (g : GuardPolicy) → SamePolicy g g
unchanged g = (refl, refl, refl, refl, refl, refl)

kept : (m : Message) (c : Contract) → Administered m c c
kept m c = (refl, inl (refl, refl))

-- The owner of guard `k` changes it.
change-Entitled :
    (m : Message) (c : Contract) (k : ℕ) (guard : GuardPolicy) (guard_id : ℕ)
    → bytes_eq m.sender (c.ledger.guards k).owner ≡ true
    → guard.owner ≡ (c.ledger.guards k).owner
    → guard.agent_vault ≡ (c.ledger.guards k).agent_vault
    → Entitled m c guard_id (change_guard c k guard)
change-Entitled m c k guard guard_id sends owner vault =
    let sender = (bytes_eq_iff m.sender (c.ledger.guards k).owner).0 sends in
    update-all
      (λ j g.
        SamePolicy (c.ledger.guards j) g ⊎ (ByOwner m (c.ledger.guards j) g ⊎ ByVaultOwner m c j g))
      c.ledger.guards k guard (inr (inl (sender, owner, vault)))
      (λ j other. inl (unchanged (c.ledger.guards j))) guard_id

add_guard-Authorised :
    (m : Message) (vault vault_owner : Bytes) (ratio amount : ℕ) (c : Contract) (guard_id : ℕ)
    → m.agent_vault_owner vault ≡ some vault_owner
    → bytes_eq vault_owner m.sender ≡ true
    → Authorised m c guard_id (add_guard m vault ratio amount c)
unfolding add_guard
add_guard-Authorised m vault vault_owner ratio amount c guard_id answer owns =
    let sender = (bytes_eq_iff vault_owner m.sender).0 owns in
    let asked : m.agent_vault_owner vault ≡ some m.sender = rw (sym sender) answer in
    (
      (refl, inl (refl, refl)),
      update-all
          (λ j g.
            SamePolicy (c.ledger.guards j) g
            ⊎ (ByOwner m (c.ledger.guards j) g ⊎ ByVaultOwner m c j g))
          c.ledger.guards (c.guard_count + 1) (new_guard m vault ratio amount)
          (inr (inr (refl, refl, asked))) (λ j other. inl (unchanged (c.ledger.guards j))) guard_id,
    )

-- A transaction that does not revert leaves the policy of each guard as it was, or its sender is the
-- owner of the guard, who stays it, or it registers the next guard, for the owner of its vault; and
-- only the contract's owner, who stays the same, changes the signer or the pause.
pub execute-Authorised :
    (m : Message) (r : Request) (c : Contract) (guard_id : ℕ)
    → After (Authorised m c guard_id) (execute m r c)
unfolding execute append_action
execute-Authorised m (sets_guardian_signer signer) c guard_id =
    After-set_guardian_signer (Authorised m c guard_id) m signer c λ sends. (
      (refl, inr ((bytes_eq_iff m.sender c.owner).0 sends)),
      inl (unchanged (c.ledger.guards guard_id)),
    )
execute-Authorised m (sets_paused paused) c guard_id =
    After-set_paused (Authorised m c guard_id) m paused c λ sends. (
      (refl, inr ((bytes_eq_iff m.sender c.owner).0 sends)),
      inl (unchanged (c.ledger.guards guard_id)),
    )
execute-Authorised m (registers_agent_vault vault ratio amount) c guard_id =
    After-register_agent_vault (Authorised m c guard_id) m vault ratio amount c
      λ vault_owner known free answer owns r a fits.
        add_guard-Authorised m vault vault_owner ratio amount c guard_id answer owns
execute-Authorised m (sets_policy k ratio amount) c guard_id =
    After-set_policy (Authorised m c guard_id) m k ratio amount c
      λ known owns r a. (kept m c, change-Entitled m c k _ guard_id owns refl refl)
execute-Authorised m (sets_guard_active k active) c guard_id =
    After-set_guard_active (Authorised m c guard_id) m k active c
      λ known owns. (kept m c, change-Entitled m c k _ guard_id owns refl refl)
execute-Authorised m (posts_action k action_type amount nonce signature) c guard_id =
    After-posts_action (Authorised m c guard_id) m.chain c k action_type amount nonce signature
      λ known kind new. (
        kept m c,
        inl (
            update-all (λ j g. SamePolicy (c.ledger.guards j) g) c.ledger.guards k _
              (unchanged (c.ledger.guards k)) (λ j other. unchanged (c.ledger.guards j)) guard_id),
      )
