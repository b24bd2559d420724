-- ===== src/Registry/Contract/Consistent.antt =====
-- What every state of the contract is: its guards, the index of their vaults and their actions.
use praesidio.Prelude.{
  ℕ, ◌<◌, ◌≤◌, false, Bytes, List, [], ◌∷◌, ◌++◌, ◌==◌, ◌≡◌, refl, subst, sym, ◌⊎◌, inl, inr,
  bytes_eq, bytes_eq_refl, arith,
}
use praesidio.Guard.Data.{GuardPolicy, action_redemption_handled}
use praesidio.Registry.{PostedAction, zero_address, update}
use praesidio.Registry.Contract.{Contract, empty_guard}
use praesidio.Registry.Contract.Update.{update-all}

-- The actions of a guard carry ascending numbers between `m` and `n`, which is the last of them.
abbrev pub Trail : ℕ → List PostedAction → ℕ → Type 0
Trail m [] n = m ≡ n
Trail m (a ∷ log) n =
    (m < a.nonce) × (a.action_type ≤ action_redemption_handled) × Trail a.nonce log n

-- A guard that has been registered, with its actions: the index of the vaults leads to it.
abbrev pub Registered : (Bytes → ℕ) → ℕ → GuardPolicy → List PostedAction → Type 0
Registered index guard_id guard actions =
    (bytes_eq guard.agent_vault zero_address ≡ false)
    × (index guard.agent_vault ≡ guard_id)
    × (0 < guard.ratio_bips)
    × (0 < guard.top_up_amount_wei)
    × Trail 0 actions guard.last_action_nonce

abbrev pub InUse : ℕ → ℕ → Type 0
InUse count guard_id = (0 < guard_id) × (guard_id ≤ count)

abbrev pub Unused : ℕ → ℕ → Type 0
Unused count guard_id = (guard_id ≡ 0) ⊎ (count < guard_id)

abbrev pub Row : ℕ → (Bytes → ℕ) → ℕ → GuardPolicy → List PostedAction → Type 0
Row count index guard_id guard actions =
    (InUse count guard_id × Registered index guard_id guard actions)
    ⊎ (Unused count guard_id × (guard ≡ empty_guard) × (actions ≡ []))

-- A place of the index is empty or holds the number of a guard of that vault.
abbrev pub Entry : ℕ → (ℕ → GuardPolicy) → Bytes → ℕ → Type 0
Entry count guards vault guard_id =
    (guard_id ≡ 0) ⊎ (InUse count guard_id × ((guards guard_id).agent_vault ≡ vault))

abbrev pub Consistent : Contract → Type 0
Consistent c =
    ((guard_id : ℕ)
      → Row c.guard_count c.guard_id_of_vault guard_id (c.ledger.guards guard_id)
          (c.ledger.actions guard_id))
    × ((vault : Bytes) → Entry c.guard_count c.ledger.guards vault (c.guard_id_of_vault vault))

pub Trail-append :
    (m : ℕ) (log : List PostedAction) (n : ℕ) (a : PostedAction)
    → Trail m log n
    → n < a.nonce
    → a.action_type ≤ action_redemption_handled
    → Trail m (log ++ a ∷ []) a.nonce
Trail-append m [] n a t new kind = (omega (arith, t, new), kind, refl)
Trail-append m (b ∷ log) n a t new kind = (t.0, t.1, Trail-append b.nonce log n a t.2 new kind)

-- A guard with a vault has been registered.
Row-Registered :
    (count : ℕ) (index : Bytes → ℕ) (guard_id : ℕ) (guard : GuardPolicy)
    (actions : List PostedAction)
    → Row count index guard_id guard actions
    → bytes_eq guard.agent_vault zero_address ≡ false
    → InUse count guard_id × Registered index guard_id guard actions
Row-Registered count index guard_id guard actions r known = elim r [
  | inl here ↦ here
  | inr unused ↦
      let none : bytes_eq zero_address zero_address ≡ false =
        subst (λ g. bytes_eq g.agent_vault zero_address ≡ false) unused.1 known in
      cc (none, bytes_eq_refl zero_address)
]

pub Registered-Row :
    (c : Contract) (guard_id : ℕ)
    → Consistent c
    → bytes_eq (c.ledger.guards guard_id).agent_vault zero_address ≡ false
    → InUse c.guard_count guard_id
      × Registered c.guard_id_of_vault guard_id
          (c.ledger.guards guard_id)
          (c.ledger.actions guard_id)
Registered-Row c guard_id h known =
    Row-Registered c.guard_count c.guard_id_of_vault guard_id (c.ledger.guards guard_id)
      (c.ledger.actions guard_id) (h.0 guard_id) known

Entry-same :
    (count : ℕ) (guards guards' : ℕ → GuardPolicy) (vault : Bytes) (guard_id : ℕ)
    → ((j : ℕ) → (guards' j).agent_vault ≡ (guards j).agent_vault)
    → Entry count guards vault guard_id
    → Entry count guards' vault guard_id
Entry-same count guards guards' vault guard_id same e = elim e [
  | inl empty ↦ inl empty
  | inr leads ↦ inr (leads.0, cc (same guard_id, leads.1))
]

-- A guard that has been registered changes, and keeps its vault.
pub changed-Consistent :
    (c : Contract) (k : ℕ) (guard : GuardPolicy) (actions : ℕ → List PostedAction)
    → Consistent c
    → bytes_eq (c.ledger.guards k).agent_vault zero_address ≡ false
    → guard.agent_vault ≡ (c.ledger.guards k).agent_vault
    → 0 < guard.ratio_bips
    → 0 < guard.top_up_amount_wei
    → Trail 0 (actions k) guard.last_action_nonce
    → ((j : ℕ) → (j == k) ≡ false → actions j ≡ c.ledger.actions j)
    → Consistent (record c {
      ledger = record c.ledger { guards = update c.ledger.guards k guard; actions = actions };
    })
changed-Consistent c k guard actions h known same ratio amount trail others =
    let count = c.guard_count in
    let index = c.guard_id_of_vault in
    let was = Registered-Row c k h known in
    (
      update-all (λ j g. Row count index j g (actions j)) c.ledger.guards k guard
          (inl (was.0, (rw same known, rw same (was.1.1), ratio, amount, trail)))
          (λ j other. subst (Row count index j (c.ledger.guards j)) (sym (others j other)) (h.0 j)),
      λ vault.
          Entry-same count c.ledger.guards (update c.ledger.guards k guard) vault (index vault)
            (update-all (λ j g. g.agent_vault ≡ (c.ledger.guards j).agent_vault) c.ledger.guards k
              guard same (λ j other. refl))
            (h.1 vault),
    )
