-- ===== src/Orchestrator/CrashObserver.antt =====
-- internal/orchestrator/crash_observer.go: on every tick, report the servers whose container was
-- seen running and is running no more, unless they were stopped by hand.
pub mod Reports
use oikos.Common.{
  ℕ, String, Bool, true, false, not, ◌&&◌, Option, none, some, List, [], ◌∷◌, ◌=?◌, if◌then◌else◌,
}
use oikos.Common.Exec.{Result, ok, err, Exec}
use oikos.Orchestrator.EventBus.{publish}
use oikos.Orchestrator.Lifecycle.{LifecycleError, Parts, World}
use oikos.Orchestrator.Lifecycle.Operations.{is_manual_stop, list}
use oikos.Runtime.{ContainerStatus, running}
use oikos.Store.{Server}
use oikos.Store.Servers.{set_last_crash}

abbrev pub is_running : ContainerStatus → Bool
is_running running = true
is_running _ = false

abbrev pub was_running : Option ContainerStatus → Bool
was_running none = false
was_running (some st) = is_running st

module _ (p : Parts) where
  -- `previous` is the local map of `Run`; a server that it does not hold is none.
  pub record Watch : Type 0 where
    pub world : World p
    pub previous : String → Option ContainerStatus

  remember : String → ContainerStatus → Watch → Watch
  remember id st o = record o { previous = λ j. if id =? j then some st else o.previous j }

  -- The crash is dated `now` in the row, where that write succeeds, and announced in any case.
  report : ℕ → String → World p → World p
  report now id w =
      let (r, db) = set_last_crash id now w.db in
      record w { db = db; bus = publish (record { kind = "server.crashed"; server_id = id }) w.bus }

  unless_manual : ℕ → String → Result LifecycleError Bool × World p → World p
  unless_manual now id (ok manual, w) = if manual then w else report now id w
  unless_manual now id (err e, w) = w

  -- The condition is evaluated from left to right: the mark of a manual stop is looked at, and
  -- taken away, only when the container has just stopped running.
  unfoldable pub judge : ℕ → Server → ContainerStatus → Watch → Watch
  unfolding remember report unless_manual
  judge now s st o = remember s.id st (record o {
    world =
        if was_running (o.previous s.id) && not (is_running st)
        then unless_manual now s.id (is_manual_stop p s.id o.world)
        else o.world;
  })

  on_status : ℕ → Server → Result String ContainerStatus → Watch → Watch
  unfolding judge
  on_status now s (ok st) o = judge now s st o
  on_status now s (err e) o = o

  unfoldable pub observe : ℕ → Server → Watch → Watch
  unfolding on_status
  observe now s o =
      if s.container_id =? ""
      then o
      else let (r, rt) = p.rt.status s.container_id o.world.rt in
        on_status now s r (record o { world = record o.world { rt = rt } })

  unfoldable pub observe_all : ℕ → List Server → Watch → Watch
  unfolding observe
  observe_all now [] o = o
  observe_all now (s ∷ ss) o = observe_all now ss (observe now s o)

  on_list : ℕ → Result LifecycleError (List Server) → Watch → Watch
  unfolding observe_all
  on_list now (ok ss) o = observe_all now ss o
  on_list now (err e) o = o

  -- One tick at the time `now`.
  unfoldable pub tick : ℕ → Watch → Watch
  unfolding on_list
  tick now o = let (r, w) = list p o.world in on_list now r (record o { world = w })
