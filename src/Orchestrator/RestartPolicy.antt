-- ===== src/Orchestrator/RestartPolicy.antt =====
-- internal/orchestrator/restart_policy.go: how long the self-healer waits before a restart.
-- Durations are int64 nanoseconds and attempts are ints; `d *= 2` wraps as in Go.
pub mod Bounds
use oikos.Common.{ℕ, zero, suc, if◌then◌else◌}
use oikos.Common.Int.{ℤ, pos, pos_part, ltb_ℤ, add64}

pub record RestartPolicy : Type 0 where
  pub max_retries : ℤ
  pub backoff_base : ℤ
  pub backoff_max : ℤ
  pub stable_reset_after : ℤ

abbrev pub second : ℕ
second = 1000000000

abbrev pub default_restart_policy : RestartPolicy
default_restart_policy = record {
  max_retries = pos 5;
  backoff_base = pos 5000000000;
  backoff_max = pos 300000000000;
  stable_reset_after = pos 300000000000;
}

-- `for i := 0; i < attempt && d < p.BackoffMax; i++ { d *= 2 }`, by the rounds that are left.
doublings : ℕ → ℤ → ℤ → ℤ
doublings zero d limit = d
doublings (suc rounds) d limit =
    let rest = doublings rounds (add64 d d) limit in if ltb_ℤ d limit then rest else d

unfoldable pub next_backoff : RestartPolicy → ℤ → ℤ
unfolding doublings
next_backoff p attempt =
    let d = doublings (pos_part attempt) p.backoff_base p.backoff_max in
    if ltb_ℤ p.backoff_max d then p.backoff_max else d
