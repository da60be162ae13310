-- ===== src/Examples/Health.antt =====
-- Three probes, of which the panel's fails.
use oikos.Common.{String, ◌≡◌, none, some, List, [], ◌∷◌, length}
use oikos.Common.Sort.{sort_by}
use oikos.Observability.Health.{Probe, check, status_code, health_handler}
use oikos.Observability.Health.Verdict.{results, failing, Reports, verdict, check-verdict}

abbrev probes : List (String × Probe Unit)
probes =
    ("panel", λ s. (some "refused", s))
    ∷ ("database", λ s. (none, s))
    ∷ ("docker", λ s. (none, s))
    ∷ []

check-verdict_example :
    Reports (results (sort_by (λ p. p.0) probes) tt) (check Unit probes tt).checks
    × ((check Unit probes tt).status
        ≡ verdict
            (length (sort_by (λ p. p.0) probes))
            (failing (results (sort_by (λ p. p.0) probes) tt)))
    × ((health_handler Unit probes tt).0
        ≡ status_code (
            verdict
              (length (sort_by (λ p. p.0) probes))
              (failing (results (sort_by (λ p. p.0) probes) tt))))
check-verdict_example = check-verdict Unit probes tt
