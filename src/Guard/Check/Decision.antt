-- ===== src/Guard/Check/Decision.antt =====
-- The decision of a vault check, and when it is signed.
use Prim.Native.String.{String}
use praesidio.Prelude.{
  ℕ, ◌≡◌, refl, ap, ◌∙◌, inl, inr, Bool, true, false, not, ◌&&◌, none, some, ltb, if◌then◌else◌,
  Bool-cases, arith, subst, str_eq,
}
use praesidio.Prelude.Text.{trim_0x}
use praesidio.Prelude.Decimal.{decimal, parse_uint}
use praesidio.Prelude.Decimal.RoundTrip.{parse_uint-decimal}
use praesidio.Prelude.Outcome.{
  Result, ok, err, panic, wrap, Ensures, Ensures-bind, Ensures-wrap, Ensures-bind_keep,
}
use praesidio.Guard.Data.{
  CheckVaultRequest, CheckVaultResponse, VaultHealth, GuardPolicy, SignedAction, State,
  action_vault_top_up,
}
use praesidio.Guard.World.{World}
use praesidio.Guard.Rpc.{
  read_vault_health, read_guard, ReportsFactors, read_vault_health-ReportsFactors,
}
use praesidio.Guard.Digest.{registry_digest}
use praesidio.Guard.Check.{
  chain_id_of, sign_top_up_action, observe, in_danger, decision_of, next_nonce, attach, decide,
  decide_read, check_vault_json,
}

-- Reading a printed factor and comparing it with 0 is comparing the factor, also where it exceeds
-- `uint64` and the reader saturates.
positive_parse : (n : ℕ) → ltb 0 (parse_uint (decimal n)).0 ≡ ltb 0 n
positive_parse n = rw parse_uint-decimal (ground arith)

in_danger-ReportsFactors : (h : VaultHealth) → ReportsFactors h → in_danger h ≡ h.liquidatable
unfolding in_danger
in_danger-ReportsFactors h r = rw (
  r.shows_vault,
  r.shows_pool,
  r.flag,
  positive_parse r.factor_vault,
  positive_parse r.factor_pool,
)

-- The action asks for the guard's top-up, under the number behind its last one.
pub record IsTopUp (req : CheckVaultRequest) (guard : GuardPolicy) (act : SignedAction)
    : Type 0 where
  pub guard_id : act.guard_id ≡ req.guard_id
  pub action_type : act.action_type ≡ action_vault_top_up
  pub amount : act.amount ≡ decimal guard.top_up_amount_wei
  pub nonce : act.nonce ≡ next_nonce guard

record FromCall (g t : ℕ) (a : String) (n : ℕ) (act : SignedAction) : Type 0 where
  guard_id : act.guard_id ≡ g
  action_type : act.action_type ≡ t
  amount : act.amount ≡ a
  nonce : act.nonce ≡ n

sign-FromCall :
    (w : World) (g t : ℕ) (a : String) (n : ℕ)
    → Ensures (FromCall g t a n) (sign_top_up_action w g t a n)
unfolding sign_top_up_action
sign-FromCall w g t a n = elim (Bool-cases (str_eq (w.getenv "GUARDIAN_KEY") "")) [
  | inl unset ↦ rw unset tt
  | inr set ↦ rw set (
      Ensures-bind (FromCall g t a n)
        (wrap "parsing enclave key: " (w.hex_to_ecdsa (trim_0x (w.getenv "GUARDIAN_KEY")))) _
        λ priv.
          Ensures-bind (FromCall g t a n)
            (registry_digest w (chain_id_of (parse_uint (w.getenv "CHAIN_ID"))) g t n a) _
            λ digest.
              Ensures-bind (FromCall g t a n) (wrap "signing digest: " (w.sign digest priv)) _
                λ sig. record { guard_id = refl; action_type = refl; amount = refl; nonce = refl })
]

-- What a response says of the report that it is about.
abbrev Answers : VaultHealth → CheckVaultResponse → Type 0
Answers health resp =
    (resp.health ≡ health)
    × (resp.healthy ≡ not (in_danger health))
    × (resp.decision ≡ decision_of (in_danger health))

attach-Answers :
    (health : VaultHealth) (r : Result SignedAction) (resp : CheckVaultResponse) (s : State)
    → Answers health resp
    → Ensures (Answers health) (attach r resp s).0
unfolding attach
attach-Answers health (ok signed) resp s h = h
attach-Answers health (err e) resp s h = tt
attach-Answers health panic resp s h = tt

decide-Answers :
    (w : World) (req : CheckVaultRequest) (health : VaultHealth) (guard : GuardPolicy) (s : State)
    → Ensures (Answers health) (decide w req health guard s).0
unfolding decide
decide-Answers w req health guard s = elim (Bool-cases (in_danger health && guard.active)) [
  | inl both ↦ rw both (attach-Answers health _ _ _ (refl, refl, refl))
  | inr other ↦ rw other (refl, refl, refl)
]

-- Which responses carry an action.
abbrev pub Carries : CheckVaultRequest → GuardPolicy → Bool → CheckVaultResponse → Type 0
Carries req guard true resp =
    (act : SignedAction) × (resp.signed ≡ some act) × IsTopUp req guard act
Carries req guard false resp = resp.signed ≡ none

attach-Carries :
    (req : CheckVaultRequest) (guard : GuardPolicy) (r : Result SignedAction)
    (resp : CheckVaultResponse) (s : State)
    → Ensures (IsTopUp req guard) r
    → Ensures (Carries req guard true) (attach r resp s).0
unfolding attach
attach-Carries req guard (ok signed) resp s h = (signed, refl, h)
attach-Carries req guard (err e) resp s h = tt
attach-Carries req guard panic resp s h = tt

Ensures-IsTopUp :
    (req : CheckVaultRequest) (guard : GuardPolicy) (r : Result SignedAction)
    → Ensures
        (FromCall req.guard_id action_vault_top_up
          (decimal guard.top_up_amount_wei)
          (next_nonce guard))
        r
    → Ensures (IsTopUp req guard) r
Ensures-IsTopUp req guard (ok act) h = record {
  guard_id = h.guard_id;
  action_type = h.action_type;
  amount = h.amount;
  nonce = h.nonce;
}
Ensures-IsTopUp req guard (err e) h = tt
Ensures-IsTopUp req guard panic h = tt

decide-Carries :
    (w : World) (req : CheckVaultRequest) (health : VaultHealth) (guard : GuardPolicy) (s : State)
    → Ensures (Carries req guard (in_danger health && guard.active)) (decide w req health guard s).0
unfolding decide
decide-Carries w req health guard s = elim (Bool-cases (in_danger health && guard.active)) [
  | inl both ↦
      rw both
        (attach-Carries req guard _ _ _ (Ensures-IsTopUp req guard _ (sign-FromCall w _ _ _ _)))
  | inr other ↦ rw other refl
]

abbrev FromReport : VaultHealth × GuardPolicy → Type 0
FromReport p = ReportsFactors p.0

module _ (w : World) (req : CheckVaultRequest) where
  observe-FromReport : Ensures FromReport (observe w req)
  unfolding observe
  observe-FromReport = elim (Bool-cases (w.is_hex_address req.agent_vault)) [
    | inl valid ↦ rw valid (
        Ensures-bind_keep ReportsFactors FromReport (wrap "reading vault health: " report) _
          (Ensures-wrap ReportsFactors "reading vault health: " report
            (read_vault_health-ReportsFactors w req.agent_vault))
          λ health r.
            Ensures-bind FromReport (wrap "reading guard policy: " (read_guard w req.guard_id)) _
              λ guard. r)
    | inr invalid ↦ rw invalid tt
  ]
    where
      report : Result VaultHealth
      report = read_vault_health w req.agent_vault

  module _ (s : State) (health : VaultHealth) (guard : GuardPolicy)
      (seen : observe w req ≡ ok (health, guard)) where
    -- Once both reads succeed, the check is `decide` on what was read, and the danger is the
    -- manager's flag.
    check-decide : check_vault_json w req s ≡ decide w req health guard s
    unfolding check_vault_json decide_read
    check-decide = rw seen

    danger-liquidatable : in_danger health ≡ health.liquidatable
    danger-liquidatable =
        in_danger-ReportsFactors health (subst (Ensures FromReport) seen observe-FromReport)

    -- A check that answers says whether the manager's flag is set, in both of its fields.
    pub decision_sound :
        (resp : CheckVaultResponse)
        → (check_vault_json w req s).0 ≡ ok resp
        → (resp.health ≡ health)
          × (resp.healthy ≡ not health.liquidatable)
          × (resp.decision ≡ (if health.liquidatable then "TOP_UP_REQUIRED" else "WATCH"))
    unfolding decision_of
    decision_sound resp answered =
        let e : in_danger health ≡ health.liquidatable = danger-liquidatable in
        let a : Answers health resp =
          subst (Ensures (Answers health)) answered
            (rw check-decide (decide-Answers w req health guard s)) in
        (a.0, a.1 ∙ ap not e, a.2 ∙ ap decision_of e)

    -- A check that answers carries a signed action exactly when the vault is liquidatable and the
    -- guard is active, and the action is the guard's top-up under the next nonce.
    pub signed_exactly :
        (resp : CheckVaultResponse)
        → (check_vault_json w req s).0 ≡ ok resp
        → Carries req guard (health.liquidatable && guard.active) resp
    signed_exactly resp answered = rw (← danger-liquidatable) (
        subst (Ensures (Carries req guard (in_danger health && guard.active))) answered
          (rw check-decide (decide-Carries w req health guard s)))
