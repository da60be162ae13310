-- ===== src/Tunnel/Selfheal.antt =====
-- internal/tunnel/selfheal.go: frpc is reloaded until that succeeds, at most six times. `State` is
-- the manager with the context: `reload` is its method, `is_done` says whether the context is
-- cancelled when it is looked at, and `wait` whether it is cancelled before the timer fires.
pub mod Attempts
use oikos.Common.{ℕ, zero, suc, ◌+◌, String, Bool, true, Option, none, some, ltb, if◌then◌else◌}
use oikos.Common.Int.{ℤ}
use oikos.Common.Exec.{Result, ok, err}

pub record TunnelSelfHealer : Type 0 where
  pub attempt : ℕ
  pub failed : Bool

pub data HealError : Type 0 where
  cancelled : HealError
  stopped : String → HealError

-- The manager, the context and the policy that a healer is made with.
pub record Surroundings : Type 1 where
  pub State : Type 0
  pub reload : State → Result String Unit × State
  pub is_done : State → Bool × State
  pub wait : ℤ → State → Bool × State
  pub policy : ℕ → ℤ

module _ (u : Surroundings) where
  abbrev pub World : Type 0
  World = TunnelSelfHealer × u.State

  abbrev pub Answer : Type 0
  Answer = Option (Result HealError Unit × World)

  abbrev pub give_up : String → World → Answer
  give_up e (h, s) = some (err (stopped e), (record h { failed = true }, s))

  -- The wait after a failure, and the next round.
  abbrev pub pause : (World → Answer) → World → Answer
  pause again (h, s) =
      let (ended, s') = u.wait (u.policy h.attempt) s in
      if ended then some (err cancelled, (h, s')) else again (h, s')

  abbrev pub set_attempt : ℕ → World → World
  set_attempt n (h, s) = (record h { attempt = n }, s)

  abbrev pub after_reload : (World → Answer) → Result String Unit → World → Answer
  after_reload again (ok done) (h, s) = some (ok tt, set_attempt 0 (h, s))
  after_reload again (err e) (h, s) =
      let counted = set_attempt (h.attempt + 1) (h, s) in
      if ltb 5 (h.attempt + 1) then give_up e counted else pause again counted

  -- One round of the loop.
  abbrev pub round : (World → Answer) → World → Answer
  round again (h, s) =
      let (ended, s1) = u.is_done s in
      let (r, s2) = u.reload s1 in
      if ended then some (err cancelled, (h, s1)) else after_reload again r (h, s2)

  -- The loop of Start, over a number of rounds; none if they do not suffice.
  unfoldable pub start : ℕ → World → Answer
  start zero w = none
  start (suc rounds) w = round (start rounds) w
