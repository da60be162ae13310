-- ===== src/Orchestrator/SelfHealer.antt =====
-- internal/orchestrator/selfheal.go: restart a crashed server after a backoff, a bounded number of
-- times.
pub mod Rules
pub mod Bounded
use oikos.Common.{ℕ, String, Bool, true, false, not, Option, none, some, ◌=?◌, if◌then◌else◌}
use oikos.Common.Int.{ℤ, pos, ltb_ℤ}
use oikos.Common.Exec.{Result, ok, err, Exec}
use oikos.Orchestrator.Lifecycle.{LifecycleError, Parts, World}
use oikos.Orchestrator.Lifecycle.Operations.{restart}
use oikos.Orchestrator.RestartPolicy.{RestartPolicy, next_backoff}
use oikos.Store.{Server, StoredEvent, Db, StoreError}
use oikos.Store.Servers.{get_server, update_server_status, increment_restart_count}
use oikos.Store.Events.{save_event}

-- What the run of a handler meets: the time, the ids of the events that it may write, SQLite's
-- json_valid, and whether the context ends during the wait.
pub record Circumstances : Type 0 where
  pub now : ℕ
  pub failed_id : String
  pub recovered_id : String
  pub json_valid : String → Bool
  pub cancelled : Bool

module _ (p : Parts) (policy : RestartPolicy) where
  pub record Healer : Type 0 where
    pub world : World p
    pub manual : String → Bool

  unfoldable pub mark_manual_stop : String → Healer → Healer
  mark_manual_stop id h = record h { manual = λ j. if id =? j then true else h.manual j }

  -- A call whose error is ignored.
  pub ignore : {A : Type 0} → Exec Db StoreError A → World p → World p
  ignore m w = record w { db = (m w.db).1 }

  event : String → String → String → String → String → ℕ → StoredEvent
  event event_id kind id severity message now = record {
    id = event_id;
    kind = kind;
    server_id = id;
    severity = severity;
    message = message;
    metadata = "{}";
    created_at = now;
  }

  give_up : Circumstances → String → World p → World p
  unfolding ignore event
  give_up c id w =
      ignore
        (save_event c.json_valid
          (event c.failed_id "server.recovery_failed" id "error" "restart limit reached" c.now))
        (ignore (update_server_status id "crash_looping") w)

  restarted : Circumstances → String → Result LifecycleError Unit × World p → World p
  unfolding ignore event
  restarted c id (err e, w) = w
  restarted c id (ok done, w) =
      ignore
        (save_event c.json_valid
          (event c.recovered_id "server.recovered" id "info" "server restarted" c.now))
        (ignore (increment_restart_count id) w)

  unfoldable pub exhausted : ℕ → Bool
  exhausted count = not (ltb_ℤ (pos count) policy.max_retries)

  -- What follows the read of the row; the backoff that is waited for stands beside the world.
  recover : Circumstances → String → Result StoreError Server → World p → Option ℤ × World p
  unfolding give_up restarted exhausted
  recover c id (err e) w = (none, w)
  recover c id (ok s) w = if exhausted s.restart_count then (none, give_up c id w) else (
    some (next_backoff policy (pos s.restart_count)),
    if c.cancelled then w else restarted c id (restart p id w),
  )

  attempt : Circumstances → String → World p → Option ℤ × World p
  unfolding recover
  attempt c id w = let (r, db) = get_server id w.db in recover c id r (record w { db = db })

  -- One run of `handle`: a mark of a manual stop is used up and ends it.
  unfoldable pub handle : Circumstances → String → Healer → Option ℤ × Healer
  unfolding attempt
  handle c id h =
      let unmarked = λ (j : String). if id =? j then false else h.manual j in
      if h.manual id
      then (none, record h { manual = unmarked })
      else let (wait, w) = attempt c id h.world in (wait, record { world = w; manual = unmarked })
