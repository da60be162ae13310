-- ===== src/Tunnel/Selfheal/Attempts.antt =====
-- The loop of Start in internal/tunnel/selfheal.go ends.
use oikos.Common.{
  ℕ, zero, suc, ◌+◌, ◌<◌, String, true, ◌≡◌, refl, none, some, arith, ltb, Bool-cases, ◌⊎◌, inl,
  inr, ltb→lt,
}
use oikos.Common.Exec.{Result, ok, err}
use oikos.Tunnel.Selfheal.{
  TunnelSelfHealer, HealError, cancelled, stopped, Surroundings, World, Answer, round, after_reload,
  pause, start,
}

module _ (u : Surroundings) where
  -- The last call was a reload with this result.
  abbrev pub Reloaded : Result String Unit → u.State → Type 0
  Reloaded r s = (s' : u.State) × (u.reload s' ≡ (r, s))

  -- The last call found the context cancelled: the look at it, or the wait for the timer.
  abbrev pub Cancelled : ℕ → u.State → Type 0
  Cancelled n s =
      (s' : u.State) × ((u.is_done s' ≡ (true, s)) ⊎ (u.wait (u.policy n) s' ≡ (true, s)))

  -- What is left by each way to end, given the healer at the start.
  abbrev pub Ended : TunnelSelfHealer → Result HealError Unit → TunnelSelfHealer → u.State → Type 0
  Ended before (ok done) h s = (h.attempt ≡ 0) × (h.failed ≡ before.failed) × Reloaded (ok tt) s
  Ended before (err cancelled) h s = (h.failed ≡ before.failed) × Cancelled h.attempt s
  Ended before (err (stopped e)) h s = (5 < h.attempt) × (h.failed ≡ true) × Reloaded (err e) s

  abbrev pub EndsFor : TunnelSelfHealer → Answer u → Type 0
  EndsFor before none = ⊥
  EndsFor before (some (r, (h, s))) = Ended before r h s

  -- The next round starts with this many failures.
  module _ (before : TunnelSelfHealer) (again : World u → Answer u) (n : ℕ)
      (next : (h : TunnelSelfHealer) (s : u.State)
        → h.failed ≡ before.failed
        → 0 < n
        → 5 < h.attempt + n
        → EndsFor before (again (h, s))) where
    EndsFor-pause :
        (h : TunnelSelfHealer) (s : u.State)
        → h.failed ≡ before.failed
        → 0 < n
        → 5 < h.attempt + n
        → EndsFor before (pause u again (h, s))
    EndsFor-pause h s same some_left enough = elim (Bool-cases (u.wait (u.policy h.attempt) s).0) [
      | inl ended ↦ rw ended (same, (s, inr (λ i. (ended i, (u.wait (u.policy h.attempt) s).1))))
      | inr more ↦ rw more (next h (u.wait (u.policy h.attempt) s).1 same some_left enough)
    ]

    EndsFor-after_reload :
        (h : TunnelSelfHealer) (r : Result String Unit) (s : u.State)
        → h.failed ≡ before.failed
        → 5 < h.attempt + suc n
        → Reloaded r s
        → EndsFor before (after_reload u again r (h, s))
    EndsFor-after_reload h (ok tt) s same enough last = (refl, same, last)
    EndsFor-after_reload h (err e) s same enough last = elim (Bool-cases (ltb 5 (h.attempt + 1))) [
      | inl limit ↦ rw limit (ltb→lt 5 (h.attempt + 1) limit, refl, last)
      | inr more ↦ rw more (
          EndsFor-pause (record h { attempt = h.attempt + 1 }) s same (ground (arith, enough, more))
            (omega (arith, enough)))
    ]

    EndsFor-round :
        (h : TunnelSelfHealer) (s : u.State)
        → h.failed ≡ before.failed
        → 5 < h.attempt + suc n
        → EndsFor before (round u again (h, s))
    EndsFor-round h s same enough = elim (Bool-cases (u.is_done s).0) [
      | inl ended ↦ rw ended (same, (s, inl (λ i. (ended i, (u.is_done s).1))))
      | inr more ↦ rw more (
          EndsFor-after_reload h (u.reload (u.is_done s).1).0 (u.reload (u.is_done s).1).1 same
            enough ((u.is_done s).1, refl))
    ]

  EndsFor-start :
      (before : TunnelSelfHealer) (n : ℕ) (h : TunnelSelfHealer) (s : u.State)
      → h.failed ≡ before.failed
      → 0 < n
      → 5 < h.attempt + n
      → EndsFor before (start u n (h, s))
  unfolding start
  EndsFor-start before zero h s same some_left enough = omega (arith, some_left)
  EndsFor-start before (suc n) h s same some_left enough =
      EndsFor-round before (start u n) n (EndsFor-start before n) h s same enough

  -- From any healer, six rounds are enough for Start. It returns nil only right after a reload that
  -- succeeded, with the count of failures reset; the error of the context only right after that was
  -- found cancelled, before a reload or during a wait; and otherwise, with a count above five and
  -- the healer marked as failed, the error of the reload just made. In no other case does the mark
  -- change.
  pub start-ends : (h : TunnelSelfHealer) (s : u.State) → EndsFor h (start u 6 (h, s))
  start-ends h s = EndsFor-start h 6 h s refl (omega arith) (omega arith)
