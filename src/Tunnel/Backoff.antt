-- ===== src/Tunnel/Backoff.antt =====
-- `backoff` of internal/tunnel/frp.go: how long Watch waits before it starts frpc again. The shift is
-- by 4 at most, so no bit leaves the word.
use oikos.Common.{ℕ, ◌-◌, ◌*◌, ◌^◌, ◌≤◌, min, ltb, arith, if◌then◌else◌}
use oikos.Common.Powers.{pow2_pos, pow2_mono}
use oikos.Common.Int.{ℤ, pos, pos_part, ltb_ℤ}

shifted : ℕ → ℕ
shifted attempt = 1000000000 * 2 ^ min (attempt - 1) 4

unfoldable pub backoff : ℤ → ℤ
unfolding shifted
backoff attempt =
    let d = shifted (if ltb_ℤ attempt (pos 1) then 1 else pos_part attempt) in
    if ltb 30000000000 d then pos 30000000000 else pos d

bounded :
    (x : ℕ)
    → 1 ≤ x
    → x ≤ 16
    → (1000000000
        ≤ pos_part
            (if ltb 30000000000 (1000000000 * x) then pos 30000000000 else pos (1000000000 * x)))
      × (pos_part
            (if ltb 30000000000 (1000000000 * x) then pos 30000000000 else pos (1000000000 * x))
          ≤ 16000000000)
bounded x l h = ground arith

-- Whatever the attempt, the wait is between 1 and 16 seconds, so the cap of 30 seconds is never met.
pub backoff_bounded :
    (attempt : ℤ)
    → (1000000000 ≤ pos_part (backoff attempt)) × (pos_part (backoff attempt) ≤ 16000000000)
unfolding backoff
backoff_bounded attempt =
    let shift = min ((if ltb_ℤ attempt (pos 1) then 1 else pos_part attempt) - 1) 4 in
    bounded (2 ^ shift) (pow2_pos shift) (pow2_mono {a = shift} {b = 4} (omega arith))
