-- ===== src/Validate/Report/Totals.antt =====
-- What `Summary`, `HasFailures` and `Fprint` show of a report.
use praesidio.Prelude.{
  ℕ, ◌+◌, ◌≤◌, ◌↔◌, ◌≡◌, refl, Bool, true, [], ◌∷◌, length, if◌then◌else◌, Bool-cases, inl, inr,
  arith,
}
use praesidio.Validate.Report.{
  Status, pass, warn, fail, skip, status_eq, CheckResult, Report, has_failures, Counts,
  count_status, counts_from, counts,
}

-- How many results pass a test.
abbrev pub count : (CheckResult → Bool) → Report → ℕ
count q [] = 0
count q (res ∷ rest) = (if q res then 1 else 0) + count q rest

abbrev has_status : Status → CheckResult → Bool
has_status s res = status_eq res.status s

abbrev gain : Status → Status → ℕ
gain s t = if status_eq s t then 1 else 0

record IsTally (n : Counts) (r : Report) (m : Counts) : Type 0 where
  passed : m.passed ≡ n.passed + count (has_status pass) r
  warning : m.warning ≡ n.warning + count (has_status warn) r
  failed : m.failed ≡ n.failed + count (has_status fail) r
  skipped : m.skipped ≡ n.skipped + count (has_status skip) r

record IsGain (s : Status) (n m : Counts) : Type 0 where
  passed : m.passed ≡ n.passed + gain s pass
  warning : m.warning ≡ n.warning + gain s warn
  failed : m.failed ≡ n.failed + gain s fail
  skipped : m.skipped ≡ n.skipped + gain s skip
  one : gain s pass + gain s warn + gain s fail + gain s skip ≡ 1

count_status-IsGain : (s : Status) (n : Counts) → IsGain s n (count_status s n)
unfolding count_status status_eq
count_status-IsGain pass n = omega arith
count_status-IsGain warn n = omega arith
count_status-IsGain fail n = omega arith
count_status-IsGain skip n = omega arith

counts_from-IsTally : (n : Counts) (r : Report) → IsTally n r (counts_from n r)
unfolding counts_from
counts_from-IsTally n [] = omega arith
counts_from-IsTally n (res ∷ rest) =
    let h = counts_from-IsTally (count_status res.status n) rest in
    let g = count_status-IsGain res.status n in
    record {
      passed = omega (arith, h.passed, g.passed);
      warning = omega (arith, h.warning, g.warning);
      failed = omega (arith, h.failed, g.failed);
      skipped = omega (arith, h.skipped, g.skipped);
    }

every_status :
    (r : Report)
    → count (has_status pass) r
        + count (has_status warn) r
        + count (has_status fail) r
        + count (has_status skip) r
      ≡ length r
every_status [] = omega arith
every_status (res ∷ rest) =
    let g =
      count_status-IsGain res.status
        (record { passed = 0; warning = 0; failed = 0; skipped = 0 }) in
    omega (arith, g.one, every_status rest)

failures : (r : Report) → (has_failures r ≡ true) ↔ (1 ≤ count (has_status fail) r)
unfolding has_failures
failures [] = (λ h. cc, λ le. let bad : ⊥ = omega (arith, le) in elim bad [ ])
failures (res ∷ rest) = elim (Bool-cases (status_eq res.status fail)) [
  | inl failed ↦ rw failed (λ h. omega arith, λ le. refl)
  | inr other ↦
      rw other
        (λ h. omega (arith, (failures rest).0 h), λ le. (failures rest).1 (omega (arith, le)))
]

-- The four numbers of `Summary` add up to the number of results, the first is the number of results
-- that passed and the third of those that failed, and `HasFailures` says whether the third is not 0.
pub counts_lem :
    (r : Report)
    → ((counts r).passed + (counts r).warning + (counts r).failed + (counts r).skipped ≡ length r)
      × ((counts r).passed ≡ count (λ res. status_eq res.status pass) r)
      × ((counts r).failed ≡ count (λ res. status_eq res.status fail) r)
      × ((has_failures r ≡ true) ↔ (1 ≤ (counts r).failed))
unfolding counts
counts_lem r =
    let h = counts_from-IsTally (record { passed = 0; warning = 0; failed = 0; skipped = 0 }) r in
    let (from, to) = failures r in
    (
      omega (arith, h.passed, h.warning, h.failed, h.skipped, every_status r),
      omega (arith, h.passed),
      omega (arith, h.failed),
      (λ some. omega (arith, h.failed, from some), λ le. to (omega (arith, h.failed, le))),
    )
