-- ===== src/Validate/Report/Grouping.antt =====
-- The sections that `Fprint` prints.
use Prim.Native.String.{String}
use praesidio.Prelude.{
  ℕ, ◌+◌, ◌≡◌, refl, sym, subst, ◌∙◌, ap, Bool, true, false, ◌||◌, List, [], ◌∷◌, ◌++◌, map, str_eq,
  eq_iff, if◌then◌else◌, Bool-cases, inl, inr, arith, or_left, or_right, or_other, nor_left,
  nor_right, All,
}
use praesidio.Validate.Report.{CheckResult, Report, elem, steps_from, of_step, sections}
use praesidio.Validate.Report.Totals.{count}

-- No step stands in the list twice.
abbrev pub Distinct : List String → Type 0
Distinct [] = Unit
Distinct (s ∷ ss) = (elem s ss ≡ false) × Distinct ss

-- All results of some sections, in the order in which they are printed.
abbrev pub printed : List (String × Report) → Report
printed [] = []
printed ((step, results) ∷ rest) = results ++ printed rest

str_eq_refl : (s : String) → str_eq s s ≡ true
str_eq_refl s = (eq_iff s s).1 refl

shuffle : (a b c : Bool) → (a || b) || c ≡ true → b || (a || c) ≡ true
shuffle true true c h = refl
shuffle true false c h = refl
shuffle false true c h = refl
shuffle false false c h = h

-- A step that was seen does not come again.
seen-elem :
    (t : String) (seen : List String) (r : Report)
    → elem t seen ≡ true
    → elem t (steps_from seen r) ≡ false
unfolding steps_from
seen-elem t seen [] h = refl
seen-elem t seen (res ∷ rest) h = elim (Bool-cases (elem res.step seen)) [
  | inl old ↦ rw old (seen-elem t seen rest h)
  | inr fresh ↦ elim (Bool-cases (str_eq t res.step)) [
    | inl same ↦
        let bad : elem t seen ≡ false =
          subst (λ s. elem s seen ≡ false) (sym ((eq_iff t res.step).0 same)) fresh in
        cc
    | inr other ↦
        rw (fresh, other)
          (seen-elem t (res.step ∷ seen) rest (or_right (str_eq t res.step) (elem t seen) h))
  ]
]

steps-Distinct : (seen : List String) (r : Report) → Distinct (steps_from seen r)
unfolding steps_from
steps-Distinct seen [] = tt
steps-Distinct seen (res ∷ rest) = elim (Bool-cases (elem res.step seen)) [
  | inl old ↦ rw old (steps-Distinct seen rest)
  | inr fresh ↦ rw fresh (
    seen-elem res.step (res.step ∷ seen) rest
        (or_left (str_eq res.step res.step) (elem res.step seen) (str_eq_refl res.step)),
    steps-Distinct (res.step ∷ seen) rest,
  )
]

-- How many of some results pass a test and belong to one of some steps.
abbrev count_in : (CheckResult → Bool) → List String → Report → ℕ
count_in q steps [] = 0
count_in q steps (res ∷ rest) =
    (if elem res.step steps then (if q res then 1 else 0) else 0) + count_in q steps rest

abbrev spread : (CheckResult → Bool) → List String → Report → ℕ
spread q [] r = 0
spread q (s ∷ ss) r = count q (of_step s r) + spread q ss r

spread-nil : (q : CheckResult → Bool) (ss : List String) → spread q ss [] ≡ 0
unfolding of_step
spread-nil q [] = refl
spread-nil q (s ∷ ss) = omega (arith, spread-nil q ss)

of_step-same :
    (q : CheckResult → Bool) (s : String) (res : CheckResult) (r : Report)
    → str_eq res.step s ≡ true
    → count q (of_step s (res ∷ r)) ≡ (if q res then 1 else 0) + count q (of_step s r)
unfolding of_step
of_step-same q s res r h = rw h refl

of_step-other :
    (q : CheckResult → Bool) (s : String) (res : CheckResult) (r : Report)
    → str_eq res.step s ≡ false
    → count q (of_step s (res ∷ r)) ≡ count q (of_step s r)
unfolding of_step
of_step-other q s res r h = rw h refl

spread_absent :
    (q : CheckResult → Bool) (ss : List String) (res : CheckResult) (r : Report)
    → elem res.step ss ≡ false
    → spread q ss (res ∷ r) ≡ spread q ss r
spread_absent q [] res r h = refl
spread_absent q (s ∷ ss) res r h = omega (
  arith,
  of_step-other q s res r (nor_left (str_eq res.step s) (elem res.step ss) h),
  spread_absent q ss res r (nor_right (str_eq res.step s) (elem res.step ss) h),
)

spread_present :
    (q : CheckResult → Bool) (ss : List String) (res : CheckResult) (r : Report)
    → Distinct ss
    → elem res.step ss ≡ true
    → spread q ss (res ∷ r) ≡ (if q res then 1 else 0) + spread q ss r
spread_present q [] res r d h = cc
spread_present q (s ∷ ss) res r (new, d) h = elim (Bool-cases (str_eq res.step s)) [
  | inl same ↦
      let gone : elem res.step ss ≡ false =
        subst (λ t. elem t ss ≡ false) (sym ((eq_iff res.step s).0 same)) new in
      omega (arith, of_step-same q s res r same, spread_absent q ss res r gone)
  | inr other ↦ omega (
    arith,
    of_step-other q s res r other,
    spread_present q ss res r d (or_other (str_eq res.step s) (elem res.step ss) other h),
  )
]

-- Where every step of the results is listed, and listed once, nothing is lost or doubled.
spread-count :
    (q : CheckResult → Bool) (ss : List String) (r : Report)
    → Distinct ss
    → All (λ res. elem res.step ss ≡ true) r
    → spread q ss r ≡ count q r
spread-count q ss [] d a = spread-nil q ss
spread-count q ss (res ∷ rest) d (here, a) =
    omega (arith, spread_present q ss res rest d here, spread-count q ss rest d a)

module _ (res : CheckResult) (seen : List String) (rest : Report) where
  steps_from-old : elem res.step seen ≡ true → steps_from seen (res ∷ rest) ≡ steps_from seen rest
  unfolding steps_from
  steps_from-old h = rw h refl

  steps_from-fresh :
      elem res.step seen ≡ false
      → steps_from seen (res ∷ rest) ≡ res.step ∷ steps_from (res.step ∷ seen) rest
  unfolding steps_from
  steps_from-fresh h = rw h refl

-- Each result's step was seen or is listed.
abbrev Listed : List String → List String → Report → Type 0
Listed seen ss r = All (λ res. elem res.step seen || elem res.step ss ≡ true) r

Listed-shift :
    (s : String) (seen ss : List String) (r : Report)
    → Listed (s ∷ seen) ss r
    → Listed seen (s ∷ ss) r
Listed-shift s seen ss [] a = tt
Listed-shift s seen ss (res ∷ rest) (h, a) = (
  shuffle (str_eq res.step s) (elem res.step seen) (elem res.step ss) h,
  Listed-shift s seen ss rest a,
)

steps_from-Listed : (seen : List String) (r : Report) → Listed seen (steps_from seen r) r
steps_from-Listed seen [] = tt
steps_from-Listed seen (res ∷ rest) = elim (Bool-cases (elem res.step seen)) [
  | inl old ↦
      subst (λ ss. Listed seen ss (res ∷ rest)) (sym (steps_from-old res seen rest old))
        (
          or_left (elem res.step seen) (elem res.step (steps_from seen rest)) old,
          steps_from-Listed seen rest,
        )
  | inr fresh ↦
      let later = steps_from (res.step ∷ seen) rest in
      subst (λ ss. Listed seen ss (res ∷ rest)) (sym (steps_from-fresh res seen rest fresh))
        (
          or_right (elem res.step seen) (elem res.step (res.step ∷ later))
              (or_left (str_eq res.step res.step) (elem res.step later) (str_eq_refl res.step)),
          Listed-shift res.step seen later rest (steps_from-Listed (res.step ∷ seen) rest),
        )
]

count-append :
    (q : CheckResult → Bool) (xs ys : Report) → count q (xs ++ ys) ≡ count q xs + count q ys
count-append q [] ys = omega arith
count-append q (x ∷ xs) ys = omega (arith, count-append q xs ys)

printed-spread :
    (q : CheckResult → Bool) (ss : List String) (r : Report)
    → count q (printed (map (λ step. (step, of_step step r)) ss)) ≡ spread q ss r
printed-spread q [] r = refl
printed-spread q (s ∷ ss) r = omega (
  arith,
  count-append q (of_step s r) (printed (map (λ step. (step, of_step step r)) ss)),
  printed-spread q ss r,
)

labels :
    (ss : List String) (r : Report)
    → map (λ (s : String × Report). s.0) (map (λ step. (step, of_step step r)) ss) ≡ ss
labels [] r = refl
labels (s ∷ ss) r = ap (λ rest. s ∷ rest) (labels ss r)

-- The sections of a printed report have different steps, and together they hold every result of the
-- report as often as the report does.
pub sections_hold_all :
    (r : Report)
    → Distinct (map (λ (s : String × Report). s.0) (sections r))
      × ((q : CheckResult → Bool) → count q (printed (sections r)) ≡ count q r)
unfolding sections
sections_hold_all r =
    let ss = steps_from [] r in
    (
      subst Distinct (sym (labels ss r)) (steps-Distinct [] r),
      λ q.
          printed-spread q ss r
          ∙ spread-count q ss r (steps-Distinct [] r) (steps_from-Listed [] r),
    )
