-- ===== src/Guard/Interleaving.antt =====
-- Checks that run at the same time. The mutex of `Extension` is held only where the state is
-- written, so between its two critical sections a check can be overtaken by any other.
pub mod Counters
use praesidio.Prelude.{ℕ, not, ◌&&◌, List, ◌∷◌, ◌++◌, ◌≡◌, Option, none, some, if◌then◌else◌}
use praesidio.Prelude.Outcome.{Result, ok, err, panic}
use praesidio.Guard.Data.{
  CheckVaultRequest, CheckVaultResponse, VaultHealth, GuardPolicy, SignedAction, State,
  action_vault_top_up,
}
use praesidio.Guard.World.{World}
use praesidio.Guard.Check.{
  sign_top_up_action, observe, in_danger, decision_of, next_nonce, record_check, record_signature,
  attach,
}
use praesidio.Prelude.Decimal.{decimal}

-- Where a check stands: before its first critical section, between the two with the response so far
-- and the result of signing, or at its end.
pub data Phase : Type 0 where
  start : Phase
  between : CheckVaultResponse → Result SignedAction → Phase
  finished : Result CheckVaultResponse → Phase

pub record Task : Type 0 where
  pub world : World
  pub request : CheckVaultRequest
  pub phase : Phase

-- The reads, and the first critical section.
unfoldable pub first_section :
    World → CheckVaultRequest → Result (VaultHealth × GuardPolicy) → State → Phase × State
first_section w req (err e) s = (finished (err e), s)
first_section w req panic s = (finished panic, s)
first_section w req (ok (health, guard)) s =
    let danger = in_danger health in
    let resp : CheckVaultResponse = record {
      healthy = not danger;
      health = health;
      decision = decision_of danger;
      signed = none;
    } in
    let signed =
      sign_top_up_action w req.guard_id action_vault_top_up (decimal guard.top_up_amount_wei)
        (next_nonce guard) in
    (
      (if danger && guard.active then between resp signed else finished (ok resp)),
      record_check req (decision_of danger) s,
    )

-- The end of a check that signs: the second critical section is entered only with a signature.
unfoldable pub second_section : Result CheckVaultResponse × State → Phase × State
second_section (r, s) = (finished r, s)

unfoldable pub next_phase : World → CheckVaultRequest → Phase → State → Phase × State
unfolding first_section second_section
next_phase w req start s = first_section w req (observe w req) s
next_phase w req (between resp signed) s = second_section (attach signed resp s)
next_phase w req (finished r) s = (finished r, s)

unfoldable pub advance : Task → State → Task × State
advance t s =
    let (phase, s') = next_phase t.world t.request t.phase s in (record t { phase = phase }, s')

-- The state that all checks share, and the checks that are under way.
pub record System : Type 0 where
  pub state : State
  pub tasks : List Task

-- Any check may take the next step.
pub data Step : System → System → Type 0 where
  step :
      (before after : List Task) (t : Task) (s : State)
      → Step
          (record { state = s; tasks = before ++ t ∷ after })
          (record { state = (advance t s).1; tasks = before ++ (advance t s).0 ∷ after })

pub data Reach (a : System) : System → Type 0 where
  here : Reach a a
  next : {b c : System} → Reach a b → Step b c → Reach a c
