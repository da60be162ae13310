-- ===== src/Orchestrator/Lifecycle/Create.antt =====
-- `CreateServer` of internal/orchestrator/lifecycle.go.
pub mod Atomic
use oikos.Common.{String, ◌&&◌, none, List, [], ◌∷◌, if◌then◌else◌}
use oikos.Common.Exec.{Result, ok, err, pure, raise, ◌>>=◌, ◌>>◌}
use oikos.Orchestrator.Lifecycle.{
  LifecycleError, port_error, tunnel_error, Parts, Step, try_store, on_store, announce,
}
use oikos.Store.{encoded}
use oikos.Store.Servers.{ensure_egg, create_server, update_server_status, delete_server}
use oikos.Tunnel.{PortMapping, Assignment, TunnelError}

module _ (p : Parts) where
  -- `_ = l.db.DeleteServer(id)`, and the error that led to it.
  undo_create : {A : Type 0} → String → LifecycleError → Step p A
  undo_create id e = do try_store p (delete_server id); raise e

  register_one : String → Result TunnelError Assignment → Step p Unit
  unfolding undo_create
  register_one id (ok a) = pure tt
  register_one id (err e) = undo_create id (tunnel_error e)

  register_all : String → List PortMapping → Step p Unit
  unfolding register_one
  register_all id [] = pure tt
  register_all id (m ∷ ms) = do
    a ← (λ w.
        let (r, st) =
          p.tunnels.register_port (record m { server_id = id })
            (record { db = w.db; bus = w.bus }, w.tunnels) in
        (ok r, record w { db = st.0.db; bus = st.0.bus; tunnels = st.1 }))
    register_one id a
    register_all id ms

  register_ports : String → Result String (List PortMapping) → Step p Unit
  unfolding register_all undo_create
  register_ports id (ok ms) = register_all id ms
  register_ports id (err e) = undo_create id (port_error e)

  -- `id` is the UUID that the call draws.
  unfoldable pub create : String → String → String → String → List (String × String) → Step p String
  unfolding register_ports
  create id name egg startup env = do
    on_store p
        (ensure_egg (record { id = egg; name = egg; dockerfile_path = ""; metadata_path = "" }))
    on_store p (
        create_server (record {
          id = id;
          name = name;
          egg_id = egg;
          container_id = "";
          status = "installing";
          startup_command = startup;
          environment = encoded env;
          restart_count = 0;
          last_crash_at = none;
        }))
    on_store p (update_server_status id "stopped")
    if p.has_tunnels && p.has_ports then register_ports id (p.ports egg) else pure tt
    announce p "server.created" id
    pure id
