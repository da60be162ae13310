-- ===== src/Orchestrator/RestartPolicy/Bounds.antt =====
-- `NextBackoff` of internal/orchestrator/restart_policy.go in closed form.
use native.Mathlib.Nat.{pow-suc}
use oikos.Common.{
  ℕ, zero, suc, ◌+◌, ◌*◌, ◌^◌, ◌<◌, min, ◌≡◌, inl, inr, arith, Bool-cases, if◌then◌else◌,
}
use oikos.Common.Powers.{double_pow, le-mul_pow}
use oikos.Common.Int.{ℤ, pos, negsuc, add64-pos, ltb_ℤ}
use oikos.Orchestrator.RestartPolicy.{RestartPolicy, doublings, next_backoff}

cap : ℕ → ℤ → ℤ
cap m d = if ltb_ℤ (pos m) d then pos m else d

doublings-exponential :
    (n d m : ℕ)
    → m < 4611686018427387904
    → cap m (doublings n (pos d) (pos m)) ≡ pos (min m (d * 2 ^ n))
unfolding doublings cap
doublings-exponential zero d m h = ground arith
doublings-exponential (suc n) d m h = elim (Bool-cases (ltb_ℤ (pos d) (pos m))) [
  | inl below ↦
      rw (below, add64-pos d d (ground arith))
        (ground (arith, doublings-exponential n (d + d) m h, pow-suc 2 n, double_pow d n))
  | inr above ↦ rw above (ground (arith, le-mul_pow d (suc n) m (ground arith)))
]

-- For nonnegative durations whose maximum is below 2^62 ns the backoff of attempt n is the base
-- doubled n times, capped at the maximum; a negative attempt counts as attempt 0.
pub next_backoff-exponential :
    (p : RestartPolicy) (base limit n : ℕ)
    → p.backoff_base ≡ pos base
    → p.backoff_max ≡ pos limit
    → limit < 4611686018427387904
    → (next_backoff p (pos n) ≡ pos (min limit (base * 2 ^ n)))
      × (next_backoff p (negsuc n) ≡ pos (min limit base))
unfolding next_backoff cap
next_backoff-exponential p base limit n b l h =
    rw (b, l) (doublings-exponential n base limit h, ground arith)
