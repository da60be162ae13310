-- ===== src/Agent/Backoff.antt =====
-- `ComputeBackoff` of internal/agent/client.go: the wait before a reconnect to the Panel or the
-- next heartbeat. The attempt is a count of failures, so it is not negative (a negative shift count
-- panics in Go).
use native.Mathlib.Decide.{dec_lt}
use oikos.Common.{
  ℕ, ◌-◌, ap, ◌∙◌, ◌+◌, ◌*◌, ◌%◌, ◌^◌, ◌≤◌, min, ◌≡◌, ◌||◌, not, arith, if◌then◌else◌,
}
use oikos.Common.Powers.{pow2_pos, pow2-add, pow2_mono}
use oikos.Common.Int.{ℤ, pos, ltb_ℤ, of_bits}

-- `time.Second << attempt` on int64: the bits that leave the word are lost.
shifted_second : ℕ → ℤ
shifted_second attempt = of_bits (1000000000 * 2 ^ attempt % 18446744073709551616)

unfoldable pub compute_backoff : ℕ → ℤ
unfolding shifted_second
compute_backoff attempt =
    let d = shifted_second attempt in
    if not (ltb_ℤ (pos 0) d) || ltb_ℤ (pos 30000000000) d then pos 30000000000 else d

-- Where 35 low bits of the shifted word are zero, the word is either out of range or zero.
far_shift :
    (k : ℕ)
    → (let d = of_bits (34359738368 * k % 18446744073709551616) in
        if not (ltb_ℤ (pos 0) d) || ltb_ℤ (pos 30000000000) d then pos 30000000000 else d)
      ≡ pos 30000000000
far_shift k = ground arith

near_shift :
    (x : ℕ)
    → 1 ≤ x
    → x ≤ 8589934592
    → (let d = of_bits (1000000000 * x % 18446744073709551616) in
        if not (ltb_ℤ (pos 0) d) || ltb_ℤ (pos 30000000000) d then pos 30000000000 else d)
      ≡ pos (min 30000000000 (1000000000 * x))
near_shift x l h = ground arith

far_word : (b : ℕ) → 1000000000 * 2 ^ (34 + b) ≡ 34359738368 * (500000000 * 2 ^ b)
far_word b = rw (pow2-add 34 b) (omega arith)

far : (b : ℕ) → compute_backoff (34 + b) ≡ pos (min 30000000000 (1000000000 * 2 ^ (34 + b)))
unfolding compute_backoff
far b = rw (far_word b) (far_shift (500000000 * 2 ^ b) ∙ ap pos (omega (arith, pow2_pos b)))

-- The wait is 2^attempt seconds, capped at 30 seconds, for every attempt: a shift that overflows
-- the word never yields a shorter wait.
pub compute_backoff-capped :
    (attempt : ℕ) → compute_backoff attempt ≡ pos (min 30000000000 (1000000000 * 2 ^ attempt))
unfolding compute_backoff
compute_backoff-capped attempt = elim (dec_lt attempt 34) [
  | yes small ↦
      near_shift (2 ^ attempt) (pow2_pos attempt) (pow2_mono {a = attempt} {b = 33} (omega arith))
  | no large ↦ let e : attempt ≡ 34 + (attempt - 34) = omega arith in rw e (far (attempt - 34))
]
