-- ===== src/Validate/Steps.antt =====
-- What each step of tee/tools/pkg/validate/checks.go adds to a report.
use Prim.Native.String.{String}
use praesidio.Prelude.{
  ◌≡◌, refl, sym, ◌∙◌, Bool, true, false, List, [], ◌∷◌, ◌++◌, append_assoc, append-nil,
  if◌then◌else◌,
}
use praesidio.Validate.Report.{CheckResult, Report, add}
use praesidio.Validate.Host.{Host}
use praesidio.Validate.Deploy.{add_all}
use praesidio.Validate.Services.{
  id_result, services_id_check, port_check, port_configuration, proxy_check, proxy_key_check,
  register_services_checks, owner_key_check, version_id_result, version_id_check,
  version_proxy_check, register_tee_version_checks,
}
use praesidio.Validate.Machine.{
  simulated_check, normal_proxy_check, host_url_check, register_tee_machine_checks,
  test_sender_result, test_sender_check, test_proxy_check, register_test_checks,
}

-- The result is of the step and has the id.
pub record Is (step id : String) (res : CheckResult) : Type 0 where
  pub same_step : res.step ≡ step
  pub same_id : res.id ≡ id

-- The results of one step with these ids, in this order.
abbrev pub AreOf : String → List String → List CheckResult → Type 0
AreOf step [] [] = Unit
AreOf step [] (res ∷ rest) = ⊥
AreOf step (id ∷ ids) [] = ⊥
AreOf step (id ∷ ids) (res ∷ rest) = Is step id res × AreOf step ids rest

-- The report is extended by such results.
abbrev pub Adds : String → List String → Report → Report → Type 0
Adds step ids r r' = (new : List CheckResult) × (r' ≡ r ++ new) × AreOf step ids new

pub add_all-append : (r new : List CheckResult) → add_all r new ≡ r ++ new
unfolding add_all add
add_all-append r [] = sym (append-nil r)
add_all-append r (res ∷ rest) = add_all-append (r ++ res ∷ []) rest ∙ append_assoc r (res ∷ []) rest

own-Is : (res : CheckResult) → Is res.step res.id res
own-Is res = record { same_step = refl; same_id = refl }

module _ (step id : String) where
  if-Is :
      (b : Bool) (x y : CheckResult) → Is step id x → Is step id y → Is step id (if b then x else y)
  if-Is true x y hx hy = hx
  if-Is false x y hx hy = hy

module _ (h : Host) where
  services_id_check-Is : (path : String) → Is "services" "S2" (services_id_check h path)
  unfolding services_id_check id_result
  services_id_check-Is path = search (if-Is, own-Is)

  port_check-Is : Is "services" "S5" (port_check h)
  unfolding port_check
  port_check-Is = search (if-Is, own-Is)

  port_configuration-Is : Is "services" "S7" (port_configuration h)
  unfolding port_configuration
  port_configuration-Is = search (if-Is, own-Is)

  proxy_check-Is : Is "services" "S9" (proxy_check h)
  unfolding proxy_check
  proxy_check-Is = search (if-Is, own-Is)

  proxy_key_check-Is : Is "services" "S10" (proxy_key_check h)
  unfolding proxy_key_check
  proxy_key_check-Is = search (if-Is, own-Is)

  owner_key_check-Is : Is "tee-version" "V2" (owner_key_check h)
  unfolding owner_key_check
  owner_key_check-Is = search (if-Is, own-Is)

  version_id_check-Is : (path : String) → Is "tee-version" "V4" (version_id_check h path)
  unfolding version_id_check version_id_result
  version_id_check-Is path = search (if-Is, own-Is)

  version_proxy_check-Is : Is "tee-version" "V6" (version_proxy_check h)
  unfolding version_proxy_check
  version_proxy_check-Is = search (if-Is, own-Is)

  simulated_check-Is : Is "tee-machine" "T1" (simulated_check h)
  unfolding simulated_check
  simulated_check-Is = search (if-Is, own-Is)

  normal_proxy_check-Is : Is "tee-machine" "T5" (normal_proxy_check h)
  unfolding normal_proxy_check
  normal_proxy_check-Is = search (if-Is, own-Is)

  host_url_check-Is : Is "tee-machine" "T10" (host_url_check h)
  unfolding host_url_check
  host_url_check-Is = search (if-Is, own-Is)

  test_sender_check-Is : (path : String) → Is "test" "E1" (test_sender_check h path)
  unfolding test_sender_check test_sender_result
  test_sender_check-Is path = search (if-Is, own-Is)

  test_proxy_check-Is : Is "test" "E3" (test_proxy_check h)
  unfolding test_proxy_check
  test_proxy_check-Is = search (if-Is, own-Is)

  -- Each of the four steps that need no chain keeps the results that a report has, and adds its own
  -- behind them: S2, S5, S7, S9 and S10 for the services, V2, V4 and V6 for the version, T1, T5 and T10
  -- for the machine, and E1, E3 and E6 for the test, whatever the environment and the file hold.
  pub steps_add :
      (r : Report) (path : String)
      → Adds "services"
          ("S2" ∷ "S5" ∷ "S7" ∷ "S9" ∷ "S10" ∷ [])
          r
          (register_services_checks h r path)
        × Adds "tee-version" ("V2" ∷ "V4" ∷ "V6" ∷ []) r (register_tee_version_checks h r path)
        × Adds "tee-machine" ("T1" ∷ "T5" ∷ "T10" ∷ []) r (register_tee_machine_checks h r path)
        × Adds "test" ("E1" ∷ "E3" ∷ "E6" ∷ []) r (register_test_checks h r path)
  unfolding register_services_checks register_tee_version_checks register_tee_machine_checks
      register_test_checks
  steps_add r path = (
    (
      _,
      add_all-append r _,
      (
        services_id_check-Is path,
        (port_check-Is, (port_configuration-Is, (proxy_check-Is, (proxy_key_check-Is, tt)))),
      ),
    ),
    (
      _,
      add_all-append r _,
      (owner_key_check-Is, (version_id_check-Is path, (version_proxy_check-Is, tt))),
    ),
    (_, add_all-append r _, (simulated_check-Is, (normal_proxy_check-Is, (host_url_check-Is, tt)))),
    (_, add_all-append r _, (test_sender_check-Is path, (test_proxy_check-Is, (own-Is _, tt)))),
  )
