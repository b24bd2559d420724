-- ===== src/Guard/Interleaving/Counters.antt =====
-- The counters under every interleaving.
use praesidio.Prelude.{
  ℕ, suc, ◌+◌, ◌≤◌, ◌<◌, ◌≡◌, refl, ◌&&◌, List, [], ◌∷◌, ◌++◌, length, length-append, two_64, arith,
  Bool-cases, inl, inr,
}
use praesidio.Prelude.Outcome.{Result, ok, err, panic}
use praesidio.Guard.Data.{
  CheckVaultRequest, CheckVaultResponse, VaultHealth, GuardPolicy, SignedAction, State,
}
use praesidio.Guard.World.{World}
use praesidio.Guard.Check.{observe, in_danger, record_check, record_signature, attach}
use praesidio.Guard.Check.Effects.{was_signed, one_if}
use praesidio.Guard.Interleaving.{
  Phase, start, between, finished, Task, first_section, second_section, next_phase, advance, System,
  Step, step, Reach, here, next,
}

-- Which checks have not started, stand between their sections, and have ended with an action.
abbrev pub waiting : Phase → ℕ
waiting start = 1
waiting (between resp signed) = 0
waiting (finished r) = 0

abbrev pub pending : Phase → ℕ
pending start = 0
pending (between resp signed) = 1
pending (finished r) = 0

abbrev pub acted : Phase → ℕ
acted start = 0
acted (between resp signed) = 0
acted (finished r) = one_if (was_signed r)

abbrev pub total : (Phase → ℕ) → List Task → ℕ
total f [] = 0
total f (t ∷ ts) = f t.phase + total f ts

total-append : (f : Phase → ℕ) (xs ys : List Task) → total f (xs ++ ys) ≡ total f xs + total f ys
total-append f [] ys = omega arith
total-append f (x ∷ xs) ys = omega (arith, total-append f xs ys)

-- What one step adds to the counters, where they have room.
record IsAdvance (p : Phase) (s : State) (out : Phase × State) : Type 0 where
  lower :
      pending out.0 + acted out.0 + s.checks_performed
      ≤ pending p + acted p + out.1.checks_performed
  upper : out.1.checks_performed + waiting out.0 ≤ s.checks_performed + waiting p
  exact : out.1.actions_signed + acted p ≡ s.actions_signed + acted out.0

module _ (w : World) (req : CheckVaultRequest) (s : State) (room : s.checks_performed + 1 < two_64)
    (space : s.actions_signed + 1 < two_64) where
  first-IsAdvance :
      (seen : Result (VaultHealth × GuardPolicy)) → IsAdvance start s (first_section w req seen s)
  unfolding first_section record_check
  first-IsAdvance (err e) = omega arith
  first-IsAdvance panic = omega arith
  first-IsAdvance (ok (health, guard)) = elim (Bool-cases (in_danger health && guard.active)) [
    | inl both ↦ rw both (omega arith)
    | inr other ↦ rw other (omega arith)
  ]

  second-IsAdvance :
      (resp : CheckVaultResponse) (r : Result SignedAction)
      → IsAdvance (between resp r) s (second_section (attach r resp s))
  unfolding second_section attach record_signature
  second-IsAdvance resp (ok act) = omega arith
  second-IsAdvance resp (err e) = omega arith
  second-IsAdvance resp panic = omega arith

  next-IsAdvance : (p : Phase) → IsAdvance p s (next_phase w req p s)
  unfolding next_phase
  next-IsAdvance start = first-IsAdvance (observe w req)
  next-IsAdvance (between resp r) = second-IsAdvance resp r
  next-IsAdvance (finished r) = omega arith

-- A system and the counters that it began with.
record IsCounted (checks actions size : ℕ) (sys : System) : Type 0 where
  kept : length sys.tasks ≡ size
  lower : checks + total pending sys.tasks + total acted sys.tasks ≤ sys.state.checks_performed
  upper : sys.state.checks_performed + total waiting sys.tasks ≤ checks + size
  exact : sys.state.actions_signed ≡ actions + total acted sys.tasks
  bounded : total acted sys.tasks ≤ size

acted_le : (p : Phase) → acted p ≤ 1
acted_le start = omega arith
acted_le (between resp r) = omega arith
acted_le (finished r) = elim (Bool-cases (was_signed r)) [
  | inl ended ↦ rw ended (omega arith)
  | inr other ↦ rw other (omega arith)
]

total-acted_le : (ts : List Task) → total acted ts ≤ length ts
total-acted_le [] = omega arith
total-acted_le (t ∷ ts) = omega (arith, acted_le t.phase, total-acted_le ts)

module _ (checks actions size : ℕ) (room : checks + size + 1 < two_64)
    (space : actions + size + 1 < two_64) where
  Step-IsCounted :
      (a b : System) → Step a b → IsCounted checks actions size a → IsCounted checks actions size b
  unfolding advance
  Step-IsCounted a b (step before after t s) h =
      let t' = (advance t s).0 in
      let at : (f : Phase → ℕ) (x : Task)
          → total f (before ++ x ∷ after) ≡ total f before + (f x.phase + total f after) =
        λ f x. total-append f before (x ∷ after) in
      let size_at : (x : Task) → length (before ++ x ∷ after) ≡ length before + suc (length after) =
        λ x. length-append before (x ∷ after) in
      let adv : IsAdvance t.phase s (next_phase t.world t.request t.phase s) =
        next-IsAdvance t.world t.request s (omega (arith, h.upper))
          (omega (arith, h.exact, h.bounded)) t.phase in
      record {
        kept = omega (arith, size_at t, size_at t', h.kept);
        lower =
            omega (arith, at pending t, at pending t', at acted t, at acted t', h.lower, adv.lower);
        upper = omega (arith, at waiting t, at waiting t', h.upper, adv.upper);
        exact = omega (arith, at acted t, at acted t', h.exact, adv.exact);
        bounded =
            omega (arith, size_at t, size_at t', h.kept, total-acted_le (before ++ t' ∷ after));
      }

  Reach-IsCounted :
      (a b : System) → Reach a b → IsCounted checks actions size a → IsCounted checks actions size b
  Reach-IsCounted a b here h = h
  Reach-IsCounted a b (next {b = m} r s) h = Step-IsCounted m b s (Reach-IsCounted a m r h)

-- The checks of some requests, before any of them runs.
abbrev pub started : List (World × CheckVaultRequest) → List Task
started [] = []
started ((w, req) ∷ rest) = record { world = w; request = req; phase = start } ∷ started rest

started-counts :
    (rs : List (World × CheckVaultRequest))
    → (length (started rs) ≡ length rs)
      × (total pending (started rs) ≡ 0)
      × (total acted (started rs) ≡ 0)
      × (total waiting (started rs) ≡ length rs)
started-counts [] = (refl, refl, refl, refl)
started-counts ((w, req) ∷ rest) =
    let (a, b, c, d) = started-counts rest in
    (omega (arith, a), omega (arith, b), omega (arith, c), omega (arith, d))

-- However the critical sections of concurrent checks interleave, and as long as the counters do not
-- wrap around: the action counter has grown by exactly the checks that ended with a signature, the
-- check counter has grown at least by those and the ones that are still between their sections,
-- and by no more than there are requests.
pub counters_consistent :
    (requests : List (World × CheckVaultRequest)) (s : State) (sys : System)
    → s.checks_performed + length requests + 1 < two_64
    → s.actions_signed + length requests + 1 < two_64
    → Reach (record { state = s; tasks = started requests }) sys
    → (sys.state.actions_signed ≡ s.actions_signed + total acted sys.tasks)
      × (s.checks_performed + total pending sys.tasks + total acted sys.tasks
          ≤ sys.state.checks_performed)
      × (sys.state.checks_performed ≤ s.checks_performed + length requests)
counters_consistent requests s sys room space r =
    let (a, b, c, d) = started-counts requests in
    let h =
      Reach-IsCounted s.checks_performed s.actions_signed (length requests) room space
        (record { state = s; tasks = started requests }) sys r
        (record {
          kept = a;
          lower = omega (arith, b, c);
          upper = omega (arith, d);
          exact = omega (arith, c);
          bounded = omega (arith, c);
        }) in
    (h.exact, h.lower, omega (arith, h.upper))
