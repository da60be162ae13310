-- ===== src/Orchestrator/CrashObserver/Reports.antt =====
-- Which crashes are reported.
use oikos.Common.{
  ℕ, ◌∙◌, zero, suc, ◌-◌, List, [], ◌∷◌, String, ◌≡◌, ◌≢◌, refl, ap, sym, Bool, true, false, not,
  ◌&&◌, Option, some, arith, =?_refl, eq_iff, if◌then◌else◌,
}
use oikos.Common.Exec.{ok, ◌>>=◌}
use oikos.Orchestrator.EventBus.{Event, EventBus, publish}
use oikos.Orchestrator.Lifecycle.{Parts, World, set_manual, announce}
use oikos.Orchestrator.Lifecycle.Operations.{stop, restart, is_manual_stop}
use oikos.Orchestrator.CrashObserver.{Watch, was_running, is_running, judge}
use oikos.Runtime.{ContainerStatus}
use oikos.Store.{Server}
use oikos.Store.Servers.{get_server}

module _ (p : Parts) where
  -- A stop that succeeds on a server with a container leaves the mark of a manual stop.
  pub stop-marks :
      (id : String) (w : World p) {s : Server}
      → (get_server id w.db).0 ≡ ok s
      → s.container_id ≢ ""
      → (stop p id w).0 ≡ ok tt
      → (stop p id w).1.manual_stops id ≡ true
  unfolding stop ◌>>=◌ set_manual announce
  stop-marks id w {s} read has done = ground (arith, =?_refl id, eq_iff s.container_id "")

  -- RestartServer leaves every mark of a manual stop as it is.
  pub restart-keeps_marks :
      (id j : String) (w : World p) → (restart p id w).1.manual_stops j ≡ w.manual_stops j
  unfolding restart ◌>>=◌ announce
  restart-keeps_marks id j w = ground arith

  pub judge-bus :
      (now : ℕ) (s : Server) (st : ContainerStatus) (o : Watch p)
      → (judge p now s st o).world.bus ≡ (
          if was_running (o.previous s.id) && not (is_running st) && not (o.world.manual_stops s.id)
          then publish (record { kind = "server.crashed"; server_id = s.id }) o.world.bus
          else o.world.bus)
  unfolding judge is_manual_stop
  judge-bus now s st o = ground arith

  -- The observer has just seen the container stop running.
  abbrev stopped_now : Option ContainerStatus → ContainerStatus → Bool
  stopped_now before st = was_running before && not (is_running st)

  judge-previous :
      (now : ℕ) (s : Server) (st : ContainerStatus) (o : Watch p)
      → (judge p now s st o).previous s.id ≡ some st
  unfolding judge is_manual_stop
  judge-previous now s st o = ground (arith, =?_refl s.id)

  judge-marks :
      (now : ℕ) (s : Server) (st : ContainerStatus) (o : Watch p)
      → (judge p now s st o).world.manual_stops s.id
        ≡ (o.world.manual_stops s.id && not (stopped_now (o.previous s.id) st))
  unfolding judge is_manual_stop
  judge-marks now s st o = ground (arith, =?_refl s.id)

  -- The server is seen in one status after the other.
  unfoldable pub judge_all : ℕ → Server → List ContainerStatus → Watch p → Watch p
  judge_all now s [] o = o
  judge_all now s (st ∷ sts) o = judge_all now s sts (judge p now s st o)

  -- How often a running container is seen to run no more.
  abbrev pub crashes : Option ContainerStatus → List ContainerStatus → ℕ
  crashes before [] = 0
  crashes before (st ∷ sts) =
      let rest = crashes (some st) sts in if stopped_now before st then suc rest else rest

  abbrev pub publish_times : ℕ → Event → EventBus → EventBus
  publish_times zero ev b = b
  publish_times (suc n) ev b = publish_times n ev (publish ev b)

  abbrev pub crashed : Server → Event
  crashed s = record { kind = "server.crashed"; server_id = s.id }

  counted :
      (n : ℕ) (fell mark : Bool) (ev : Event) (b : EventBus)
      → publish_times
          (n - (if mark && not fell then 1 else 0))
          ev
          (if fell && not mark then publish ev b else b)
        ≡ publish_times ((if fell then suc n else n) - (if mark then 1 else 0)) ev b
  counted n true true ev b =
      let e : n - 0 ≡ suc n - 1 = omega arith in ap (λ m. publish_times m ev b) e
  counted n true false ev b =
      let e : n - 0 ≡ n = omega arith in
      let k : suc n - 0 ≡ suc n = omega arith in
      ap (λ m. publish_times m ev (publish ev b)) e ∙ ap (λ m. publish_times m ev b) (sym k)
  counted n false true ev b = refl
  counted n false false ev b = refl

  -- While the statuses of a server are seen one after the other, "server.crashed" is published once
  -- for each time that its container is seen to stop running, except that the mark of a manual stop
  -- takes away the first of these reports.
  pub judge_all-bus :
      (now : ℕ) (s : Server) (sts : List ContainerStatus) (o : Watch p)
      → (judge_all now s sts o).world.bus
        ≡ publish_times
            (crashes (o.previous s.id) sts - (if o.world.manual_stops s.id then 1 else 0))
            (crashed s)
            o.world.bus
  unfolding judge_all
  judge_all-bus now s [] o = ground arith
  judge_all-bus now s (st ∷ sts) o =
      judge_all-bus now s sts (judge p now s st o)
      ∙ rw (judge-previous now s st o, judge-marks now s st o, judge-bus now s st o)
          (counted (crashes (some st) sts) (stopped_now (o.previous s.id) st)
            (o.world.manual_stops s.id) (crashed s) o.world.bus)

  -- A server with a container is stopped by StopServer, with success, and restarted by
  -- RestartServer before the observer looks at it again: the mark of the stop outlives the restart,
  -- so the first time that the restarted container is seen to stop running is not reported.
  pub restart-hides_crash :
      (now : ℕ) (row : Server) (w : World p) {s : Server} (sts : List ContainerStatus)
      (before : String → Option ContainerStatus)
      → (get_server row.id w.db).0 ≡ ok s
      → s.container_id ≢ ""
      → (stop p row.id w).0 ≡ ok tt
      → let again = (restart p row.id (stop p row.id w).1).1 in
        (judge_all now row sts (record { world = again; previous = before })).world.bus
        ≡ publish_times (crashes (before row.id) sts - 1) (crashed row) again.bus
  restart-hides_crash now row w sts before read has stopped =
      judge_all-bus now row sts
        (record { world = (restart p row.id (stop p row.id w).1).1; previous = before })
      ∙ rw
          (
            restart-keeps_marks row.id row.id (stop p row.id w).1,
            stop-marks row.id w read has stopped,
          )
          refl
