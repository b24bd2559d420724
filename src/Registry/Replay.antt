-- ===== src/Registry/Replay.antt =====
-- The ledger takes each number once.
use praesidio.Prelude.{
  two_64, ◌%◌, List, [], ◌∷◌, subst, sym, ℕ, ◌≤◌, ◌<◌, ◌≢◌, ◌↔◌, ◌≡◌, refl, Bool, true, false,
  Bytes, leb, ltb, ◌==◌, ==_refl, ==_iff, if◌then◌else◌, Bool-cases, inl, inr, bytes_eq, max_u64,
  arith,
}
use praesidio.Guard.Data.{GuardPolicy, action_redemption_handled}
use praesidio.Guard.Check.{next_nonce}
use praesidio.Registry.{
  Registry, Chain, Outcome, done, revert, PostedAction, zero_address, append_action, checked_signer,
  post_action, Revert,
}

-- `P` holds of the registry that a transaction leaves, if it does not revert.
abbrev pub Leaves : (Registry → Type 0) → Outcome Registry → Type 0
Leaves P (done g) = P g
Leaves P (revert e) = Unit

abbrev pub IsRevert : Outcome Registry → Type 0
IsRevert = Leaves (λ g. ⊥)

leb-false : (a b : ℕ) → leb a b ≡ false → b < a
leb-false a b h = ground arith

ltb-false : (a b : ℕ) → ltb a b ≡ false → b ≤ a
ltb-false a b h = ground arith

module _ (P : Registry → Type 0) where
  else-Leaves :
      (b : Bool) (e : Revert) (y : Outcome Registry)
      → (b ≡ false → Leaves P y)
      → Leaves P (if b then revert e else y)
  else-Leaves true e y hy = tt
  else-Leaves false e y hy = hy refl

  signer-Leaves :
      (c : Chain) (g : Registry) (guard_id : ℕ) (action : PostedAction) (r : Outcome Bytes)
      → P (append_action c g guard_id action)
      → Leaves P (checked_signer c g guard_id action r)
  unfolding checked_signer
  signer-Leaves c g guard_id action (revert e) h = tt
  signer-Leaves c g guard_id action (done who) h =
      elim (Bool-cases (bytes_eq who g.guardian_signer)) [
        | inl same ↦ rw same h
        | inr other ↦ rw other tt
      ]

  -- What is left is what holds of the registry that the new action makes.
  pub post_action-Leaves :
      (c : Chain) (g : Registry) (guard_id action_type amount nonce : ℕ) (signature : Bytes)
      → (bytes_eq (g.guards guard_id).agent_vault zero_address ≡ false
          → action_type ≤ action_redemption_handled
          → (g.guards guard_id).last_action_nonce < nonce
          → P (
              append_action c g guard_id (record {
                action_type = action_type;
                amount = amount;
                nonce = nonce;
                timestamp = c.timestamp % two_64;
              })))
      → Leaves P (post_action c g guard_id action_type amount nonce signature)
  unfolding post_action
  post_action-Leaves c g guard_id action_type amount nonce signature h =
      else-Leaves g.paused _ _ λ _.
        else-Leaves (bytes_eq (g.guards guard_id).agent_vault zero_address) _ _ λ known.
          else-Leaves (ltb action_redemption_handled action_type) _ _ λ kind.
            else-Leaves (leb nonce (g.guards guard_id).last_action_nonce) _ _ λ new.
              signer-Leaves c g guard_id _ _ (
                h known (ltb-false action_redemption_handled action_type kind)
                  (leb-false nonce (g.guards guard_id).last_action_nonce new))

old-IsRevert :
    (c : Chain) (g : Registry) (guard_id action_type amount nonce : ℕ) (signature : Bytes)
    → nonce ≤ (g.guards guard_id).last_action_nonce
    → IsRevert (post_action c g guard_id action_type amount nonce signature)
old-IsRevert c g guard_id action_type amount nonce signature old =
    post_action-Leaves (λ g. ⊥) c g guard_id action_type amount nonce signature
      (λ _ _ new. omega (arith, old, new))

-- A transaction that calls `postAction`; the block it stands in may be any.
pub record Post : Type 0 where
  pub chain : Chain
  pub guard_id : ℕ
  pub action_type : ℕ
  pub amount : ℕ
  pub nonce : ℕ
  pub signature : Bytes

-- A transaction that reverts leaves the state alone.
abbrev pub settle : Registry → Outcome Registry → Registry
settle g (done g') = g'
settle g (revert e) = g

abbrev pub post : Registry → Post → Outcome Registry
post g p = post_action p.chain g p.guard_id p.action_type p.amount p.nonce p.signature

abbrev pub post_all : Registry → List Post → Registry
post_all g [] = g
post_all g (p ∷ ps) = post_all (settle g (post g p)) ps

abbrev last_nonce : ℕ → Registry → ℕ
last_nonce k g = (g.guards k).last_action_nonce

settle_le :
    (k : ℕ) (g : Registry) (o : Outcome Registry)
    → Leaves (λ g'. last_nonce k g ≤ last_nonce k g') o
    → last_nonce k g ≤ last_nonce k (settle g o)
settle_le k g (done g') h = h
settle_le k g (revert e) h = omega arith

own_le :
    (k : ℕ) (g : Registry) (guard_id : ℕ) (action : PostedAction)
    → last_nonce guard_id g < action.nonce
    → (b : Bool) → (k == guard_id) ≡ b
    → last_nonce k g
      ≤ (if b
          then record (g.guards guard_id) { last_action_nonce = action.nonce }
          else g.guards k).last_action_nonce
own_le k g guard_id action h true e =
    let same : k ≡ guard_id = (==_iff k guard_id).0 e in rw same (omega (arith, h))
own_le k g guard_id action h false e = omega arith

append_action-own :
    (c : Chain) (g : Registry) (guard_id : ℕ) (action : PostedAction)
    → last_nonce guard_id (append_action c g guard_id action) ≡ action.nonce
unfolding append_action
append_action-own c g guard_id action =
    subst
      (λ b.
        (if b
          then record (g.guards guard_id) { last_action_nonce = action.nonce }
          else g.guards guard_id).last_action_nonce
        ≡ action.nonce)
      (sym (==_refl guard_id)) refl

append_action_le :
    (k : ℕ) (c : Chain) (g : Registry) (guard_id : ℕ) (action : PostedAction)
    → last_nonce guard_id g < action.nonce
    → last_nonce k g ≤ last_nonce k (append_action c g guard_id action)
unfolding append_action
append_action_le k c g guard_id action h = own_le k g guard_id action h (k == guard_id) refl

post_all_le :
    (k : ℕ) (g : Registry) (ps : List Post) → last_nonce k g ≤ last_nonce k (post_all g ps)
post_all_le k g [] = omega arith
post_all_le k g (p ∷ ps) =
    let one : last_nonce k g ≤ last_nonce k (settle g (post g p)) = settle_le k g (post g p) (
      post_action-Leaves (λ g'. last_nonce k g ≤ last_nonce k g') p.chain g p.guard_id p.action_type
        p.amount p.nonce p.signature (λ _ _. append_action_le k p.chain g p.guard_id _)) in
    omega (arith, one, post_all_le k (settle g (post g p)) ps)

Leaves-done :
    (P : Registry → Type 0) {o : Outcome Registry} {g' : Registry} → o ≡ done g' → Leaves P o → P g'
Leaves-done P e h = subst (Leaves P) e h

-- Once an action of a guard has been posted, and whatever transactions follow it, a post for the
-- same guard with the same number or a smaller one reverts.
pub no_replay :
    (first second : Post) (g g' : Registry) (between : List Post)
    → post g first ≡ done g'
    → second.guard_id ≡ first.guard_id
    → second.nonce ≤ first.nonce
    → IsRevert (post (post_all g' between) second)
no_replay first second g g' between accepted same old =
    let took : last_nonce first.guard_id g' ≡ first.nonce =
      Leaves-done (λ r. last_nonce first.guard_id r ≡ first.nonce) accepted
        (post_action-Leaves (λ r. last_nonce first.guard_id r ≡ first.nonce) first.chain g
          first.guard_id first.action_type first.amount first.nonce first.signature
          (λ _ _ new. append_action-own first.chain g first.guard_id _)) in
    let kept = post_all_le first.guard_id g' between in
    old-IsRevert second.chain (post_all g' between) second.guard_id second.action_type second.amount
      second.nonce second.signature (rw same (omega (arith, took, kept, old)))

-- The number that the guard signs for is one that the ledger takes, except behind the largest number
-- of a `uint64`, where it wraps around to 0 and is refused.
pub next_nonce_fresh :
    (guard : GuardPolicy)
    → guard.last_action_nonce < two_64
    → (guard.last_action_nonce < next_nonce guard) ↔ (guard.last_action_nonce ≢ max_u64)
unfolding next_nonce
next_nonce_fresh guard h =
    (λ grows at_max. omega (arith, grows, at_max, h), λ below. omega (arith, below, h))
