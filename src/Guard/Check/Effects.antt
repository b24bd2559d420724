-- ===== src/Guard/Check/Effects.antt =====
-- What a check leaves in the extension's state, and what a run of checks adds up to.
use praesidio.Prelude.{
  ℕ, ◌+◌, ◌%◌, ◌≤◌, ◌<◌, ◌≡◌, refl, ◌∙◌, Bool, true, false, ◌&&◌, Option, none, some, List, [], ◌∷◌,
  length, two_64, arith, if◌then◌else◌, Bool-cases, inl, inr,
}
use praesidio.Prelude.Outcome.{Result, ok, err, panic}
use praesidio.Guard.Data.{
  CheckVaultRequest, CheckVaultResponse, VaultHealth, GuardPolicy, SignedAction, State,
}
use praesidio.Guard.World.{World}
use praesidio.Guard.Check.{
  observe, in_danger, decision_of, record_check, record_signature, attach, decide, decide_read,
  check_vault_json,
}

-- Whether the reads came through, and whether the answer carries an action.
abbrev pub was_read : Result (VaultHealth × GuardPolicy) → Bool
was_read (ok _) = true
was_read (err e) = false
was_read panic = false

abbrev carries_action : Option SignedAction → Bool
carries_action none = false
carries_action (some _) = true

abbrev pub was_signed : Result CheckVaultResponse → Bool
was_signed (ok resp) = carries_action resp.signed
was_signed (err e) = false
was_signed panic = false

abbrev pub one_if : Bool → ℕ
one_if true = 1
one_if false = 0

-- The state after a check, given what it read and the state before.
abbrev pub IsChecked :
    CheckVaultRequest → Result (VaultHealth × GuardPolicy) → State → State → Type 0
IsChecked req (ok (health, guard)) s s' =
    (s'.last_check_vault ≡ req.agent_vault) × (s'.last_decision ≡ decision_of (in_danger health))
IsChecked req (err e) s s' = s' ≡ s
IsChecked req panic s s' = s' ≡ s

-- What a check leaves.
pub record IsEffect (w : World) (req : CheckVaultRequest) (s : State) : Type 0 where
  pub checked : IsChecked req (observe w req) s (check_vault_json w req s).1
  pub checks :
      (check_vault_json w req s).1.checks_performed
      ≡ (if was_read (observe w req) then (s.checks_performed + 1) % two_64 else s.checks_performed)
  pub actions : (check_vault_json w req s).1.actions_signed ≡ (
      if was_signed (check_vault_json w req s).0
      then (s.actions_signed + 1) % two_64
      else s.actions_signed)

-- The same of a check whose reads are given.
record EffectOf (req : CheckVaultRequest) (seen : Result (VaultHealth × GuardPolicy)) (s : State)
    (out : Result CheckVaultResponse × State) : Type 0 where
  checked : IsChecked req seen s out.1
  checks :
      out.1.checks_performed
      ≡ (if was_read seen then (s.checks_performed + 1) % two_64 else s.checks_performed)
  actions :
      out.1.actions_signed
      ≡ (if was_signed out.0 then (s.actions_signed + 1) % two_64 else s.actions_signed)

attach-EffectOf :
    (req : CheckVaultRequest) (health : VaultHealth) (guard : GuardPolicy) (s : State)
    (r : Result SignedAction) (resp : CheckVaultResponse)
    → EffectOf req
        (ok (health, guard))
        s
        (attach r resp (record_check req (decision_of (in_danger health)) s))
unfolding attach record_check record_signature
attach-EffectOf req health guard s (ok act) resp = record {
  checked = (refl, refl);
  checks = refl;
  actions = refl;
}
attach-EffectOf req health guard s (err e) resp = record {
  checked = (refl, refl);
  checks = refl;
  actions = refl;
}
attach-EffectOf req health guard s panic resp = record {
  checked = (refl, refl);
  checks = refl;
  actions = refl;
}

decide-EffectOf :
    (w : World) (req : CheckVaultRequest) (health : VaultHealth) (guard : GuardPolicy) (s : State)
    → EffectOf req (ok (health, guard)) s (decide w req health guard s)
unfolding decide
decide-EffectOf w req health guard s = elim (Bool-cases (in_danger health && guard.active)) [
  | inl both ↦ rw both (attach-EffectOf req health guard s _ _)
  | inr other ↦
      rw other
        (unfold record_check in record { checked = (refl, refl); checks = refl; actions = refl })
]

decide_read-EffectOf :
    (w : World) (req : CheckVaultRequest) (seen : Result (VaultHealth × GuardPolicy)) (s : State)
    → EffectOf req seen s (decide_read w req seen s)
unfolding decide_read
decide_read-EffectOf w req (ok (health, guard)) s = decide-EffectOf w req health guard s
decide_read-EffectOf w req (err e) s = record { checked = refl; checks = refl; actions = refl }
decide_read-EffectOf w req panic s = record { checked = refl; checks = refl; actions = refl }

-- A check that could not read changes nothing; any other counts one check and names its vault and
-- decision; and exactly an answer with an action counts one action. This is so on every path, those
-- that end in an error after the state was written included.
pub check_vault_json-IsEffect : (w : World) (req : CheckVaultRequest) (s : State) → IsEffect w req s
unfolding check_vault_json
check_vault_json-IsEffect w req s =
    let e : EffectOf req (observe w req) s (decide_read w req (observe w req) s) =
      decide_read-EffectOf w req (observe w req) s in
    record { checked = e.checked; checks = e.checks; actions = e.actions }

-- Requests in the order in which they are served, each with the world that it meets.
unfoldable pub serve :
    List (World × CheckVaultRequest) → State → List (Result CheckVaultResponse) × State
serve [] s = ([], s)
serve ((w, req) ∷ rest) s =
    let (r, s1) = check_vault_json w req s in let (rs, s2) = serve rest s1 in (r ∷ rs, s2)

abbrev pub count_signed : List (Result CheckVaultResponse) → ℕ
count_signed [] = 0
count_signed (r ∷ rs) = one_if (was_signed r) + count_signed rs

abbrev pub count_read : List (World × CheckVaultRequest) → ℕ
count_read [] = 0
count_read ((w, req) ∷ rest) = one_if (was_read (observe w req)) + count_read rest

at_most_one : (b : Bool) → one_if b ≤ 1
at_most_one true = omega arith
at_most_one false = omega arith

signed-le-read :
    (w : World) (req : CheckVaultRequest) (s : State)
    → one_if (was_signed (check_vault_json w req s).0) ≤ one_if (was_read (observe w req))
unfolding check_vault_json
signed-le-read w req s = bound (observe w req)
  where
    bound :
        (seen : Result (VaultHealth × GuardPolicy))
        → one_if (was_signed (decide_read w req seen s).0) ≤ one_if (was_read seen)
    bound (ok p) = at_most_one (was_signed (decide_read w req (ok p) s).0)
    bound (err e) = unfold decide_read in omega arith
    bound panic = unfold decide_read in omega arith

-- A counter that is one step behind its bound.
bump_exact :
    (b : Bool) (n : ℕ) → n + 1 < two_64 → (if b then (n + 1) % two_64 else n) ≡ n + one_if b
bump_exact true n h = omega arith
bump_exact false n h = omega arith

-- The counters of a run, as long as they do not reach 2 ^ 64.
pub record IsAccount (reqs : List (World × CheckVaultRequest)) (s : State)
    (out : List (Result CheckVaultResponse) × State) : Type 0 where
  pub checks : out.1.checks_performed ≡ s.checks_performed + count_read reqs
  pub actions : out.1.actions_signed ≡ s.actions_signed + count_signed out.0
  pub bounded : count_signed out.0 ≤ count_read reqs

-- After any run of requests the check counter has grown by the number of requests whose reads
-- succeeded, the action counter by the number of answers that carry an action, and there are no more
-- of these than of those.
pub serve-IsAccount :
    (reqs : List (World × CheckVaultRequest)) (s : State)
    → s.checks_performed + length reqs < two_64
    → s.actions_signed + length reqs < two_64
    → IsAccount reqs s (serve reqs s)
unfolding serve
serve-IsAccount [] s hc ha = record {
  checks = omega arith;
  actions = omega arith;
  bounded = omega arith;
}
serve-IsAccount ((w, req) ∷ rest) s hc ha =
    let s1 : State = (check_vault_json w req s).1 in
    let step_checks : s1.checks_performed ≡ s.checks_performed + one_if (was_read (observe w req)) =
      (check_vault_json-IsEffect w req s).checks ∙ bump_exact _ _ (omega arith) in
    let step_actions : s1.actions_signed
        ≡ s.actions_signed + one_if (was_signed (check_vault_json w req s).0) =
      (check_vault_json-IsEffect w req s).actions ∙ bump_exact _ _ (omega arith) in
    let ih : IsAccount rest s1 (serve rest s1) =
      serve-IsAccount rest s1 (omega (arith, at_most_one (was_read (observe w req))))
        (omega (arith, at_most_one (was_signed (check_vault_json w req s).0))) in
    record {
      checks = omega (arith, step_checks, ih.checks);
      actions = omega (arith, step_actions, ih.actions);
      bounded = omega (arith, signed-le-read w req s, ih.bounded);
    }
