-- ===== src/Validate/Command/ExitStatus.antt =====
-- The exit status of `verify-deploy`.
use Prim.Native.String.{String}
use praesidio.Prelude.{
  ℕ, zero, suc, ◌↔◌, ◌≡◌, refl, sym, ap, ◌∙◌, Bool, true, false, ◌&&◌, ◌||◌, List, [], ◌∷◌, some,
  get_elem?, if◌then◌else◌, str_eq, Bool-cases, inl, inr, arith, or_left, or_right, or_other,
}
use praesidio.Validate.Report.{fail, status_eq, CheckResult, Report, elem, has_failures}
use praesidio.Validate.Command.{parse_filter, keep_allowed, filter_report, finish}

-- A result of the report counts against the deployment: it failed, and the filter, if there is one,
-- names its id.
abbrev pub is_shown_failure : String → CheckResult → Bool
is_shown_failure checks res =
    status_eq res.status fail && (str_eq checks "" || elem res.id (parse_filter checks))

-- Some result of the report passes a test.
abbrev pub Some : (CheckResult → Bool) → Report → Type 0
Some q r = (i : ℕ) × (res : CheckResult) × (get_elem? r i ≡ some res) × (q res ≡ true)

abbrev any : (CheckResult → Bool) → Report → Bool
any q [] = false
any q (res ∷ rest) = q res || any q rest

any-Some : (q : CheckResult → Bool) (r : Report) → any q r ≡ true → Some q r
any-Some q [] h = elim (let bad : ⊥ = cc in bad) [ ]
any-Some q (res ∷ rest) h = elim (Bool-cases (q res)) [
  | inl here ↦ (0, res, refl, here)
  | inr other ↦
      let (i, x, at, hx) = any-Some q rest (or_other (q res) (any q rest) other h) in
      (suc i, x, at, hx)
]

Some-any : (q : CheckResult → Bool) (r : Report) → Some q r → any q r ≡ true
Some-any q [] (i, x, at, hx) = cc
Some-any q (res ∷ rest) (zero, x, at, hx) =
    let same : res ≡ x = cc in or_left (q res) (any q rest) (ap q same ∙ hx)
Some-any q (res ∷ rest) (suc i, x, at, hx) =
    or_right (q res) (any q rest) (Some-any q rest (i, x, at, hx))

-- Whether a result is shown, given whether the filter is empty.
abbrev shown : Bool → List String → CheckResult → Bool
shown empty allowed res = status_eq res.status fail && (empty || elem res.id allowed)

unfiltered : (allowed : List String) (r : Report) → has_failures r ≡ any (shown true allowed) r
unfolding has_failures
unfiltered allowed [] = refl
unfiltered allowed (res ∷ rest) = elim (Bool-cases (status_eq res.status fail)) [
  | inl failed ↦ rw failed refl
  | inr other ↦ rw other (unfiltered allowed rest)
]

filtered :
    (allowed : List String) (r : Report)
    → has_failures (keep_allowed allowed r) ≡ any (shown false allowed) r
unfolding has_failures keep_allowed
filtered allowed [] = refl
filtered allowed (res ∷ rest) = elim (Bool-cases (elem res.id allowed)) [
  | inl kept ↦ elim (Bool-cases (status_eq res.status fail)) [
    | inl failed ↦ rw (kept, failed) refl
    | inr other ↦ rw (kept, other) (filtered allowed rest)
  ]
  | inr hidden ↦ elim (Bool-cases (status_eq res.status fail)) [
    | inl failed ↦ rw (hidden, failed) (filtered allowed rest)
    | inr other ↦ rw (hidden, other) (filtered allowed rest)
  ]
]

either :
    (b : Bool) (allowed : List String) (r : Report)
    → has_failures (if b then r else keep_allowed allowed r) ≡ any (shown b allowed) r
either true allowed r = unfiltered allowed r
either false allowed r = filtered allowed r

shown_failures :
    (checks : String) (r : Report)
    → has_failures (filter_report checks r) ≡ any (is_shown_failure checks) r
unfolding filter_report
shown_failures checks r = either (str_eq checks "") (parse_filter checks) r

status_iff : (b : Bool) → ((let status : ℕ = if b then 1 else 0 in status) ≡ 1) ↔ (b ≡ true)
status_iff true = (λ h. refl, λ h. refl)
status_iff false = (λ h. let bad : ⊥ = omega (arith, h) in elim bad [ ], λ h. cc)

-- When a report was made, `verify-deploy` exits with 1 exactly when the report has a failed result
-- that `--checks` does not hide: every result counts when the flag is empty, and otherwise those
-- whose id is one of the trimmed pieces between its commas.
pub exit_status :
    (checks : String) (r : Report)
    → ((finish checks (some r)).1 ≡ 1) ↔ Some (is_shown_failure checks) r
unfolding finish
exit_status checks r =
    let (from, to) = status_iff (has_failures (filter_report checks r)) in
    let e = shown_failures checks r in
    (
      λ h. any-Some (is_shown_failure checks) r (sym e ∙ from h),
      λ h. to (e ∙ Some-any (is_shown_failure checks) r h),
    )
