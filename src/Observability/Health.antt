-- ===== src/Observability/Health.antt =====
-- internal/observability/health.go: the probes are run in the order of their names, and their
-- results make the status. `State` is what the probes look at and may change; the time stamp of a
-- report is left out.
pub mod Verdict
use oikos.Common.{
  ℕ, zero, suc, ◌+◌, String, Bool, true, false, ◌&&◌, ◌||◌, Option, none, some, List, [], ◌∷◌, ◌=?◌,
  ◌==◌, length, ltb, if◌then◌else◌,
}
use oikos.Common.Sort.{sort_by}

pub data HealthStatus : Type 0 where
  healthy degraded unhealthy : HealthStatus

-- An empty error is absent from the JSON of a report.
pub record Check : Type 0 where
  pub name : String
  pub status : String
  pub error : String

pub record HealthReport : Type 0 where
  pub status : HealthStatus
  pub checks : List Check

abbrev pub panel_failed : Check → Bool
panel_failed c = c.name =? "panel" && c.status =? "unhealthy"

-- The loop over the checks that lowers the status if it meets the failed check of the panel.
unfoldable pub lower : List Check → HealthStatus → HealthStatus
lower [] status = status
lower (c ∷ cs) status = lower cs (if panel_failed c then degraded else status)

unfoldable pub judge : ℕ → List Check → HealthStatus
judge failures checks =
    if ltb 0 failures
    then (if failures == 1 && length checks == 3 then lower checks unhealthy else unhealthy)
    else healthy

abbrev pub status_code : HealthStatus → ℕ
status_code healthy = 200
status_code degraded = 200
status_code unhealthy = 503

module _ (State : Type 0) where
  -- An error, as its text, or nil.
  abbrev pub Probe : Type 0
  Probe = State → Option String × State

  unfoldable pub check_of : String → Option String → Check
  check_of name none = record { name = name; status = "healthy"; error = "" }
  check_of name (some e) = record { name = name; status = "unhealthy"; error = e }

  abbrev pub count : Option String → ℕ → ℕ
  count none failures = failures
  count (some e) failures = suc failures

  -- The loop over the sorted names: the checks and the number of failures.
  unfoldable pub run_probes : List (String × Probe) → State → List Check × ℕ
  run_probes [] s = ([], 0)
  run_probes ((name, probe) ∷ probes) s =
      let (e, s') = probe s in
      let (checks, failures) = run_probes probes s' in (check_of name e ∷ checks, count e failures)

  -- The entries of the map, in some order.
  unfoldable pub check : List (String × Probe) → State → HealthReport
  check probes s =
      let (checks, failures) = run_probes (sort_by (λ p. p.0) probes) s in
      record { status = judge failures checks; checks = checks }

  unfoldable pub health_handler : List (String × Probe) → State → ℕ × HealthReport
  health_handler probes s = let report = check probes s in (status_code report.status, report)
