-- ===== src/Validate/Report.antt =====
-- tee/tools/pkg/validate/report.go
pub mod Totals
pub mod Grouping
use Prim.Native.String.{String, ◌++◌ as ◌+++◌}
use praesidio.Prelude.{
  ℕ, suc, Bool, true, false, ◌||◌, List, [], ◌∷◌, ◌++◌, map, str_eq, if◌then◌else◌,
}
use praesidio.Prelude.Text.{trim_space}
use praesidio.Prelude.Decimal.{decimal}

pub data Status : Type 0 where
  pass warn fail skip : Status

unfoldable pub status_string : Status → String
status_string pass = "PASS"
status_string warn = "WARN"
status_string fail = "FAIL"
status_string skip = "SKIP"

unfoldable pub status_eq : Status → Status → Bool
status_eq pass pass = true
status_eq warn warn = true
status_eq fail fail = true
status_eq skip skip = true
status_eq _ _ = false

pub record CheckResult : Type 0 where
  pub step : String
  pub id : String
  pub name : String
  pub status : Status
  pub message : String
  pub fix : String

abbrev pub Report : Type 0
Report = List CheckResult

-- `Add`
unfoldable pub add : Report → CheckResult → Report
add r result = r ++ result ∷ []

unfoldable pub has_failures : Report → Bool
has_failures [] = false
has_failures (res ∷ rest) = status_eq res.status fail || has_failures rest

-- The counters of `Summary`.
pub record Counts : Type 0 where
  pub passed : ℕ
  pub warning : ℕ
  pub failed : ℕ
  pub skipped : ℕ

unfoldable pub count_status : Status → Counts → Counts
count_status pass n = record n { passed = suc n.passed }
count_status warn n = record n { warning = suc n.warning }
count_status fail n = record n { failed = suc n.failed }
count_status skip n = record n { skipped = suc n.skipped }

unfoldable pub counts_from : Counts → Report → Counts
counts_from n [] = n
counts_from n (res ∷ rest) = counts_from (count_status res.status n) rest

unfoldable pub counts : Report → Counts
counts r = counts_from (record { passed = 0; warning = 0; failed = 0; skipped = 0 }) r

unfoldable pub summary : Report → String
summary r =
    let n = counts r in
    decimal n.passed
    +++ " passed, "
    +++ decimal n.warning
    +++ " warning, "
    +++ decimal n.failed
    +++ " failed, "
    +++ decimal n.skipped
    +++ " skipped"

-- The escape character is the character 27.
abbrev pub color_reset : String
color_reset = "\u{1b}[0m"

unfoldable pub status_color : Status → String
status_color pass = "\u{1b}[32m"
status_color warn = "\u{1b}[33m"
status_color fail = "\u{1b}[31m"
status_color skip = "\u{1b}[90m"

-- `stepLabel`, with the step itself where it has no label.
unfoldable pub step_label : String → String
step_label step =
    if str_eq step "deploy"
    then "Contract Deployment"
    else if str_eq step "register"
    then "Extension Registration"
    else if str_eq step "services"
    then "Service Startup"
    else if str_eq step "tee-version"
    then "TEE Version Registration"
    else if str_eq step "tee-machine"
    then "TEE Machine Registration"
    else if str_eq step "test"
    then "Testing"
    else step

abbrev pub elem : String → List String → Bool
elem s [] = false
elem s (t ∷ ts) = str_eq s t || elem s ts

-- The steps in the order of their first appearance, behind those that were seen.
unfoldable pub steps_from : List String → Report → List String
steps_from seen [] = []
steps_from seen (res ∷ rest) =
    let fresh = steps_from (res.step ∷ seen) rest in
    let same = steps_from seen rest in if elem res.step seen then same else res.step ∷ fresh

unfoldable pub of_step : String → Report → Report
of_step step [] = []
of_step step (res ∷ rest) =
    let others = of_step step rest in if str_eq res.step step then res ∷ others else others

-- The sections that `Fprint` prints: each step with its results.
unfoldable pub sections : Report → List (String × Report)
sections r = map (λ step. (step, of_step step r)) (steps_from [] r)

-- A line, unless the text is empty.
unfoldable pub detail : String → String → String
detail label text = if str_eq text "" then "" else "         " +++ label +++ text +++ "\n"

unfoldable pub details : CheckResult → String
details res =
    if status_eq res.status fail || status_eq res.status warn
    then detail "" res.message +++ detail "Fix: " res.fix
    else ""

unfoldable pub result_text : CheckResult → String
result_text res =
    "  "
    +++ status_color res.status
    +++ "["
    +++ status_string res.status
    +++ "]"
    +++ color_reset
    +++ " "
    +++ res.id
    +++ "  "
    +++ res.name
    +++ "\n"
    +++ details res

abbrev pub join : List String → String
join [] = ""
join (s ∷ ss) = s +++ join ss

unfoldable pub section_text : String × Report → String
section_text (step, results) = step_label step +++ ":\n" +++ join (map result_text results) +++ "\n"

-- `Fprint`: the text that it writes.
unfoldable pub fprint : Report → String
fprint r =
    "\n\u{1b}[36m=== Deployment Verification Report ==="
    +++ color_reset
    +++ "\n\n"
    +++ join (map section_text (sections r))
    +++ summary r
    +++ "\n"

-- The value that `FprintJSON` hands to the encoder.
pub record JsonResult : Type 0 where
  pub step : String
  pub id : String
  pub name : String
  pub status : String
  pub message : String
  pub fix : String

pub record JsonReport : Type 0 where
  pub results : List JsonResult
  pub summary : String

unfoldable pub json_result : CheckResult → JsonResult
json_result res = record {
  step = res.step;
  id = res.id;
  name = res.name;
  status = status_string res.status;
  message = trim_space res.message;
  fix = trim_space res.fix;
}

unfoldable pub json_report : Report → JsonReport
json_report r = record { results = map json_result r; summary = summary r }
