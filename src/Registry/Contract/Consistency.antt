-- ===== src/Registry/Contract/Consistency.antt =====
-- Each transaction leaves the guards, the index of their vaults and their actions consistent.
use praesidio.Prelude.{
  zero, suc, ℕ, ◌+◌, ◌<◌, ◌≤◌, ◌%◌, Bool, false, Bytes, List, [], ◌∷◌, ◌++◌, ◌==◌, ◌≡◌, refl, subst,
  sym, inl, inr, Bool-cases, bytes_eq, bytes_eq_iff, bytes_eq_refl, two_64, arith, ==_iff, ==_refl,
}
use praesidio.Guard.Data.{GuardPolicy}
use praesidio.Registry.{done, PostedAction, zero_address, append_action, update}
use praesidio.Registry.Contract.{
  Contract, Message, Request, After, construct, empty_guard, add_guard, new_guard, run, execute,
  update_vault, set_policy, set_guard_active, register_agent_vault, sets_guardian_signer,
  sets_paused, registers_agent_vault, sets_policy, sets_guard_active, posts_action,
}
use praesidio.Registry.Contract.Cases.{
  After-set_guardian_signer, After-set_paused, After-register_agent_vault, After-set_policy,
  After-set_guard_active, After-posts_action, run-After,
}
use praesidio.Registry.Contract.Update.{update-all, update_vault-all}
use praesidio.Registry.Contract.Consistent.{
  Trail, Unused, Row, Entry, Consistent, Trail-append, Registered-Row, changed-Consistent,
}

positive : (n : ℕ) → (n == 0) ≡ false → 0 < n
positive n h = ground arith

Unused-next :
    (count guard_id : ℕ)
    → (guard_id == count + 1) ≡ false
    → Unused count guard_id
    → Unused (count + 1) guard_id
Unused-next count guard_id other (inl none) = inl none
Unused-next count guard_id other (inr above) = inr (ground arith)

not_next : (count guard_id : ℕ) → guard_id ≤ count → (guard_id == count + 1) ≡ false
not_next count guard_id h = ground arith

update_other :
    (f : ℕ → List PostedAction) (k : ℕ) (log : List PostedAction) (j : ℕ)
    → (j == k) ≡ false
    → update f k log j ≡ f j
update_other f k log j e = rw e refl

update_here : (f : ℕ → List PostedAction) (k : ℕ) (log : List PostedAction) → update f k log k ≡ log
update_here f k log = rw (==_refl k) refl

set_policy-Consistent :
    (m : Message) (guard_id ratio amount : ℕ) (c : Contract)
    → Consistent c
    → After Consistent (set_policy m guard_id ratio amount c)
set_policy-Consistent m guard_id ratio amount c h =
    After-set_policy Consistent m guard_id ratio amount c λ known owns some_ratio some_amount.
      changed-Consistent c guard_id _ c.ledger.actions h known refl (positive ratio some_ratio)
        (positive amount some_amount) (Registered-Row c guard_id h known).1.4 (λ j other. refl)

set_guard_active-Consistent :
    (m : Message) (guard_id : ℕ) (active : Bool) (c : Contract)
    → Consistent c
    → After Consistent (set_guard_active m guard_id active c)
set_guard_active-Consistent m guard_id active c h =
    After-set_guard_active Consistent m guard_id active c λ known owns.
      let was = (Registered-Row c guard_id h known).1 in
      changed-Consistent c guard_id _ c.ledger.actions h known refl was.2 was.3 was.4
        (λ j other. refl)

posts_action-Consistent :
    (m : Message) (guard_id action_type amount nonce : ℕ) (signature : Bytes) (c : Contract)
    → Consistent c
    → After Consistent (execute m (posts_action guard_id action_type amount nonce signature) c)
unfolding execute append_action
posts_action-Consistent m guard_id action_type amount nonce signature c h =
    After-posts_action Consistent m.chain c guard_id action_type amount nonce signature
      λ known kind new.
        let was = (Registered-Row c guard_id h known).1 in
        let added : PostedAction = record {
          action_type = action_type;
          amount = amount;
          nonce = nonce;
          timestamp = m.chain.timestamp % two_64;
        } in
        changed-Consistent c guard_id _
          (update c.ledger.actions guard_id (c.ledger.actions guard_id ++ added ∷ [])) h known refl
          was.2 was.3
          (subst (λ log. Trail 0 log nonce)
            (sym (update_here c.ledger.actions guard_id (c.ledger.actions guard_id ++ added ∷ [])))
            (Trail-append 0 (c.ledger.actions guard_id) (c.ledger.guards guard_id).last_action_nonce
              added was.4 new kind))
          (update_other c.ledger.actions guard_id (c.ledger.actions guard_id ++ added ∷ []))

-- The row of a guard other than the one that a registration makes.
Row-next :
    (count : ℕ) (index : Bytes → ℕ) (vault : Bytes) (guard_id : ℕ) (guard : GuardPolicy)
    (actions : List PostedAction)
    → index vault ≡ 0
    → (guard_id == count + 1) ≡ false
    → Row count index guard_id guard actions
    → Row (count + 1) (update_vault index vault (count + 1)) guard_id guard actions
Row-next count index vault guard_id guard actions free other r = elim r [
  | inl here ↦
      let elsewhere : bytes_eq guard.agent_vault vault ≡ false =
        elim (Bool-cases (bytes_eq guard.agent_vault vault)) [
          | inl same ↦
              let at : guard.agent_vault ≡ vault = (bytes_eq_iff guard.agent_vault vault).0 same in
              let zero : guard_id ≡ 0 = cc (at, here.1.1, free) in
              let bad : ⊥ = omega (arith, zero, here.0.0) in elim bad [ ]
          | inr other ↦ other
        ] in
      inl (
        (here.0.0, omega (arith, here.0.1)),
        (here.1.0, rw elsewhere (here.1.1), here.1.2, here.1.3, here.1.4),
      )
  | inr unused ↦ inr (Unused-next count guard_id other unused.0, unused.1, unused.2)
]

-- No action stands under the number that the next registration takes.
fresh-Trail : (c : Contract) → Consistent c → Trail 0 (c.ledger.actions (c.guard_count + 1)) 0
fresh-Trail c h = elim (h.0 (c.guard_count + 1)) [
  | inl here ↦ let bad : ⊥ = omega (arith, here.0.1) in elim bad [ ]
  | inr unused ↦ subst (λ log. Trail 0 log 0) (sym unused.2) refl
]

Entry-next :
    (c : Contract) (m : Message) (vault : Bytes) (ratio amount : ℕ) (v : Bytes)
    → Entry c.guard_count c.ledger.guards v (c.guard_id_of_vault v)
    → Entry
        (c.guard_count + 1)
        (update c.ledger.guards (c.guard_count + 1) (new_guard m vault ratio amount))
        v
        (c.guard_id_of_vault v)
Entry-next c m vault ratio amount v e = elim e [
  | inl empty ↦ inl empty
  | inr leads ↦
      let below : (c.guard_id_of_vault v == c.guard_count + 1) ≡ false =
        not_next c.guard_count (c.guard_id_of_vault v) leads.0.1 in
      inr ((leads.0.0, omega (arith, leads.0.1)), rw below leads.1)
]

add_guard-Consistent :
    (m : Message) (vault : Bytes) (ratio amount : ℕ) (c : Contract)
    → Consistent c
    → bytes_eq vault zero_address ≡ false
    → c.guard_id_of_vault vault ≡ 0
    → 0 < ratio
    → 0 < amount
    → Consistent (add_guard m vault ratio amount c)
unfolding add_guard
add_guard-Consistent m vault ratio amount c h known free some_ratio some_amount =
    let count = c.guard_count in
    let index = c.guard_id_of_vault in
    let index' = update_vault index vault (count + 1) in
    let guard = new_guard m vault ratio amount in
    let guards' = update c.ledger.guards (count + 1) guard in
    let found : index' vault ≡ count + 1 = rw (bytes_eq_refl vault) refl in
    (
      update-all (λ j g. Row (count + 1) index' j g (c.ledger.actions j)) c.ledger.guards
          (count + 1) guard
          (inl
            ((omega arith, omega arith), (known, found, some_ratio, some_amount, fresh-Trail c h)))
          (λ j other.
            Row-next count index vault j (c.ledger.guards j) (c.ledger.actions j) free other
              (h.0 j)),
      update_vault-all (Entry (count + 1) guards') index vault (count + 1)
          (inr ((omega arith, omega arith), rw (==_refl (count + 1)) refl))
          (λ v other. Entry-next c m vault ratio amount v (h.1 v)),
    )

register_agent_vault-Consistent :
    (m : Message) (vault : Bytes) (ratio amount : ℕ) (c : Contract)
    → Consistent c
    → After Consistent (register_agent_vault m vault ratio amount c)
register_agent_vault-Consistent m vault ratio amount c h =
    After-register_agent_vault Consistent m vault ratio amount c
      λ vault_owner known free answer owns some_ratio some_amount fits.
        add_guard-Consistent m vault ratio amount c h known
          ((==_iff (c.guard_id_of_vault vault) 0).0 free) (positive ratio some_ratio)
          (positive amount some_amount)

execute-Consistent :
    (m : Message) (r : Request) (c : Contract) → Consistent c → After Consistent (execute m r c)
unfolding execute
execute-Consistent m (sets_guardian_signer signer) c h =
    After-set_guardian_signer Consistent m signer c (λ _. h)
execute-Consistent m (sets_paused paused) c h = After-set_paused Consistent m paused c (λ _. h)
execute-Consistent m (registers_agent_vault vault ratio amount) c h =
    register_agent_vault-Consistent m vault ratio amount c h
execute-Consistent m (sets_policy guard_id ratio amount) c h =
    set_policy-Consistent m guard_id ratio amount c h
execute-Consistent m (sets_guard_active guard_id active) c h =
    set_guard_active-Consistent m guard_id active c h
execute-Consistent m (posts_action guard_id action_type amount nonce signature) c h =
    posts_action-Consistent m guard_id action_type amount nonce signature c h

empty_Row : (guard_id : ℕ) → Row 0 (λ vault. 0) guard_id empty_guard []
empty_Row zero = inr (inl refl, refl, refl)
empty_Row (suc n) = inr (inr (omega arith), refl, refl)

construct-Consistent : (sender manager : Bytes) → After Consistent (construct sender manager)
unfolding construct
construct-Consistent sender manager = elim (Bool-cases (bytes_eq manager zero_address)) [
  | inl same ↦ rw same tt
  | inr other ↦ rw other ((λ guard_id. empty_Row guard_id, λ vault. inl refl))
]

-- After the constructor and any transactions: each guard between 1 and the count has a vault that is
-- not the zero address, to whose place in the index it belongs, a ratio and an amount above 0, and
-- actions of the three types whose numbers ascend from above 0 to its last one; every other guard is
-- empty and has no action; and each place of the index that is not 0 holds the number of a guard of
-- that vault.
pub run-Consistent :
    (sender manager : Bytes) (c : Contract) (ms : List Message)
    → construct sender manager ≡ done c
    → Consistent (run c ms)
run-Consistent sender manager c ms made =
    run-After Consistent execute-Consistent c ms
      (subst (After Consistent) made (construct-Consistent sender manager))
