-- ===== src/Observability/Health/Verdict.antt =====
-- A report of internal/observability/health.go, said by what the probes answer.
use mathlib.Core.Path.{subst}
use oikos.Common.{
  ℕ, suc, ◌≡◌, refl, ap, String, ◌&&◌, Option, none, some, List, [], ◌∷◌, ◌=?◌, ◌==◌, length, arith,
  if◌then◌else◌,
}
use oikos.Common.Sort.{sort_by}
use oikos.Observability.Health.{
  HealthStatus, healthy, degraded, unhealthy, Check, lower, judge, Probe, check_of, count,
  run_probes, check, status_code, health_handler,
}

-- The names of the failed checks.
unfoldable failed : List Check → List String
failed [] = []
failed (c ∷ cs) = let rest = failed cs in if c.status =? "unhealthy" then c.name ∷ rest else rest

-- Nothing failed; the panel alone, of three probes; anything else.
abbrev pub verdict : ℕ → List String → HealthStatus
verdict probes [] = healthy
verdict probes (name ∷ []) = if name =? "panel" && probes == 3 then degraded else unhealthy
verdict probes (name ∷ (other ∷ names)) = unhealthy

lower-degraded : (cs : List Check) → lower cs degraded ≡ degraded
unfolding lower
lower-degraded [] = refl
lower-degraded (c ∷ cs) = ground (arith, lower-degraded cs)

lower-healthy : (cs : List Check) → failed cs ≡ [] → lower cs unhealthy ≡ unhealthy
unfolding lower failed
lower-healthy [] h = refl
lower-healthy (c ∷ cs) h = ground (arith, lower-healthy cs, h)

lower-one :
    (cs : List Check) (name : String)
    → failed cs ≡ name ∷ []
    → lower cs unhealthy ≡ (if name =? "panel" then degraded else unhealthy)
unfolding lower failed
lower-one [] name h = ground (arith, h)
lower-one (c ∷ cs) name h =
    ground (arith, lower-one cs name, lower-healthy cs, lower-degraded cs, h)

judge-verdict : (cs : List Check) → judge (length (failed cs)) cs ≡ verdict (length cs) (failed cs)
unfolding judge
judge-verdict cs = by_names (failed cs) refl
  where
    by_names :
        (names : List String)
        → failed cs ≡ names
        → judge (length names) cs ≡ verdict (length cs) names
    by_names [] h = refl
    by_names (name ∷ []) h = rw (lower-one cs name h) (ground arith)
    by_names (name ∷ (other ∷ names)) h = ground arith

-- What the probes answer, each run in the state that the one before it leaves.
unfoldable pub results :
    {State : Type 0} → List (String × Probe State) → State → List (String × Option String)
results [] s = []
results ((name, probe) ∷ ps) s = (name, (probe s).0) ∷ results ps (probe s).1

-- The names of the probes that answered with an error.
unfoldable pub failing : List (String × Option String) → List String
failing [] = []
failing ((name, none) ∷ rs) = failing rs
failing ((name, some e) ∷ rs) = name ∷ failing rs

-- What a check says of an answer.
abbrev pub Says : String × Option String → Check → Type 0
Says (name, none) c = (c.name ≡ name) × (c.status ≡ "healthy") × (c.error ≡ "")
Says (name, some e) c = (c.name ≡ name) × (c.status ≡ "unhealthy") × (c.error ≡ e)

-- One check for each answer, in order.
abbrev pub Reports : List (String × Option String) → List Check → Type 0
Reports [] [] = Unit
Reports [] (c ∷ cs) = ⊥
Reports (r ∷ rs) [] = ⊥
Reports (r ∷ rs) (c ∷ cs) = Says r c × Reports rs cs

module _ (State : Type 0) where
  Says-check_of : (name : String) (e : Option String) → Says (name, e) (check_of State name e)
  unfolding check_of
  Says-check_of name none = (refl, refl, refl)
  Says-check_of name (some e) = (refl, refl, refl)

  Reports-run_probes :
      (ps : List (String × Probe State)) (s : State)
      → Reports (results ps s) (run_probes State ps s).0
  unfolding run_probes results
  Reports-run_probes [] s = tt
  Reports-run_probes ((name, probe) ∷ ps) s =
      (Says-check_of name (probe s).0, Reports-run_probes ps (probe s).1)

  failed-run_probes :
      (ps : List (String × Probe State)) (s : State)
      → failed (run_probes State ps s).0 ≡ failing (results ps s)
  unfolding run_probes results
  failed-run_probes [] s = unfold failed failing in refl
  failed-run_probes ((name, probe) ∷ ps) s = one (probe s).0 (failed-run_probes ps (probe s).1)
    where
      one :
          (e : Option String)
          → failed (run_probes State ps (probe s).1).0 ≡ failing (results ps (probe s).1)
          → failed (check_of State name e ∷ (run_probes State ps (probe s).1).0)
            ≡ failing ((name, e) ∷ results ps (probe s).1)
      one none h = unfold failed failing check_of in ground (arith, h)
      one (some e) h = unfold failed failing check_of in ap (λ r. name ∷ r) h

  length-run_probes :
      (ps : List (String × Probe State)) (s : State) → length (run_probes State ps s).0 ≡ length ps
  unfolding run_probes
  length-run_probes [] s = refl
  length-run_probes ((name, probe) ∷ ps) s = ap suc (length-run_probes ps (probe s).1)

  count-run_probes :
      (ps : List (String × Probe State)) (s : State)
      → (run_probes State ps s).1 ≡ length (failing (results ps s))
  unfolding run_probes results
  count-run_probes [] s = unfold failing in refl
  count-run_probes ((name, probe) ∷ ps) s = one (probe s).0 (count-run_probes ps (probe s).1)
    where
      one :
          (e : Option String)
          → (run_probes State ps (probe s).1).1 ≡ length (failing (results ps (probe s).1))
          → count State e (run_probes State ps (probe s).1).1
            ≡ length (failing ((name, e) ∷ results ps (probe s).1))
      one none h = unfold failing in h
      one (some e) h = unfold failing in ap suc h

  -- The checks of a report say, in the order of the names, what each probe answered: "healthy" if
  -- it returned nil, and "unhealthy" with its error otherwise. The status is healthy if no probe
  -- returned an error, degraded if of three probes the panel's alone did, and unhealthy otherwise;
  -- the response is 503 in the last case and 200 in the others.
  pub check-verdict :
      (ps : List (String × Probe State)) (s : State)
      → Reports (results (sort_by (λ p. p.0) ps) s) (check State ps s).checks
        × ((check State ps s).status
            ≡ verdict
                (length (sort_by (λ p. p.0) ps))
                (failing (results (sort_by (λ p. p.0) ps) s)))
        × ((health_handler State ps s).0
            ≡ status_code (
                verdict
                  (length (sort_by (λ p. p.0) ps))
                  (failing (results (sort_by (λ p. p.0) ps) s))))
  unfolding check health_handler
  check-verdict ps s =
      let sorted = sort_by (λ p. p.0) ps in
      let checks = (run_probes State sorted s).0 in
      let status : judge (run_probes State sorted s).1 checks
          ≡ verdict (length sorted) (failing (results sorted s)) =
        rw (count-run_probes sorted s) (
          subst (λ names. judge (length names) checks ≡ verdict (length sorted) names)
            (failed-run_probes sorted s)
            (subst (λ n. judge (length (failed checks)) checks ≡ verdict n (failed checks))
              (length-run_probes sorted s) (judge-verdict checks))) in
      (Reports-run_probes sorted s, status, ap status_code status)
