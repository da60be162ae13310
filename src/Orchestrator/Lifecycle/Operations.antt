-- ===== src/Orchestrator/Lifecycle/Operations.antt =====
-- `StopServer`, `IsManualStop`, `RestartServer`, `DeleteServer`, `GetServer` and `ListServers` of
-- internal/orchestrator/lifecycle.go.
use oikos.Common.{String, Bool, true, false, List, ◌=?◌, if◌then◌else◌}
use oikos.Common.Exec.{Result, ok, err, pure, raise, ◌>>=◌, ◌>>◌}
use oikos.Orchestrator.Lifecycle.{
  runtime_error, no_container, Parts, Step, on_store, on_runtime, on_tunnels, announce, set_manual,
}
use oikos.Store.{Server}
use oikos.Store.Servers.{get_server, update_server_status, delete_server, list_servers}

module _ (p : Parts) where
  -- A failed stop takes the mark of the manual stop back.
  or_unmark : String → Result String Unit → Step p Unit
  or_unmark id (ok done) = pure tt
  or_unmark id (err e) = do set_manual p id false; raise (runtime_error e)

  halt : String → String → Step p Unit
  unfolding or_unmark
  halt id container = do
    set_manual p id true
    stopped ← (λ w. let (r, rt) = p.rt.stop container 10 w.rt in (ok r, record w { rt = rt }))
    or_unmark id stopped

  unfoldable pub stop : String → Step p Unit
  unfolding halt
  stop id = do
    s ← on_store p (get_server id)
    if s.container_id =? "" then pure tt else halt id s.container_id
    on_store p (update_server_status id "stopped")
    announce p "server.stopped" id

  -- LoadAndDelete
  unfoldable pub is_manual_stop : String → Step p Bool
  is_manual_stop id w = (
    ok (w.manual_stops id),
    record w { manual_stops = λ j. if id =? j then false else w.manual_stops j },
  )

  unfoldable pub restart : String → Step p Unit
  restart id = do
    s ← on_store p (get_server id)
    if s.container_id =? "" then raise no_container else on_runtime p (p.rt.restart s.container_id)
    on_store p (update_server_status id "running")
    announce p "server.restarted" id

  unfoldable pub remove : String → Step p Unit
  remove id = do
    s ← on_store p (get_server id)
    if s.container_id =? "" then pure tt else on_runtime p (p.rt.delete s.container_id true)
    if p.has_tunnels then on_tunnels p (p.tunnels.release_server id) else pure tt
    on_store p (delete_server id)
    announce p "server.deleted" id

  unfoldable pub get : String → Step p Server
  get id = on_store p (get_server id)

  unfoldable pub list : Step p (List Server)
  list = on_store p list_servers
