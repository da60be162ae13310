-- ===== src/Orchestrator/Lifecycle.antt =====
-- internal/orchestrator/lifecycle.go and state.go: the state that the server lifecycle works on, and
-- the calls that its methods are chains of. A method changes the database, the engine, the tunnels, the host's cgroups, the set of manual
-- stops and the bus, in the order of the source; what it has changed before an error stays.
pub mod Rules
pub mod Create
pub mod Start
pub mod Operations
use oikos.Common.{
  String, Bool, true, false, ◌&&◌, ◌||◌, Option, none, some, List, [], ◌∷◌, ◌=?◌, if◌then◌else◌,
}
use oikos.Common.Int.{ℤ, pos, ltb_ℤ, mul64}
use oikos.Common.Fields.{fields}
use oikos.Common.Exec.{Result, ok, err, Exec, pure, raise, wrap, ◌>>=◌, ◌>>◌}
use Prim.Native.String.{◌++◌ as join}
use oikos.Orchestrator.EventBus.{Event, EventBus, publish}
use oikos.Resource.{Limits}
use oikos.Runtime.{ContainerSpec, Runtime}
use oikos.Store.{Environment, encoded, malformed, Server, ResourceLimits, Db, StoreError}
use oikos.Store.Servers.{
  ensure_egg, create_server, get_server, update_server_status, set_server_container, set_last_crash,
  delete_server, list_servers,
}
use oikos.Store.Limits.{get_resource_limits}
use oikos.Tunnel.{PortMapping, Assignment, TunnelError, Shared, Manager}

pub data LifecycleError : Type 0 where
  store_error : StoreError → LifecycleError
  runtime_error : String → LifecycleError
  decode_error : String → LifecycleError
  port_error : String → LifecycleError
  tunnel_error : TunnelError → LifecycleError
  limit_error : String → LifecycleError
  no_container : LifecycleError

-- What a Lifecycle is built from: the engine, the tunnel manager and the port provider, each of the
-- latter two present or not, and the host's cgroups.
pub record Parts : Type 1 where
  pub rt : Runtime
  pub tunnels : Manager
  pub has_tunnels : Bool
  pub has_ports : Bool
  pub ports : String → Result String (List PortMapping)
  pub Host : Type 0
  pub cgroup_version : String
  pub find_cgroup : String → Option String
  pub apply_limits : String → Limits → Exec Host String Unit

module _ (p : Parts) where
  pub record World : Type 0 where
    pub db : Db
    pub bus : EventBus
    pub rt : p.rt.State
    pub tunnels : p.tunnels.State
    pub host : p.Host
    pub manual_stops : String → Bool

  abbrev pub Step : Type 0 → Type 0
  Step A = Exec World LifecycleError A

  abbrev pub try_store : {A : Type 0} → Exec Db StoreError A → Step (Result StoreError A)
  try_store m w = let (r, db) = m w.db in (ok r, record w { db = db })

  abbrev pub on_store : {A : Type 0} → Exec Db StoreError A → Step A
  on_store m w = let (r, db) = m w.db in (wrap store_error r, record w { db = db })

  abbrev pub on_runtime : {A : Type 0} → Exec p.rt.State String A → Step A
  on_runtime m w = let (r, rt) = m w.rt in (wrap runtime_error r, record w { rt = rt })

  abbrev pub on_host : {A : Type 0} → Exec p.Host String A → Step A
  on_host m w = let (r, h) = m w.host in (wrap limit_error r, record w { host = h })

  abbrev pub on_tunnels : {A : Type 0} → Exec (Shared × p.tunnels.State) TunnelError A → Step A
  on_tunnels m w =
      let (r, st) = m (record { db = w.db; bus = w.bus }, w.tunnels) in
      (wrap tunnel_error r, record w { db = st.0.db; bus = st.0.bus; tunnels = st.1 })

  unfoldable pub announce : String → String → Step Unit
  announce kind id w =
      (ok tt, record w { bus = publish (record { kind = kind; server_id = id }) w.bus })

  unfoldable pub set_manual : String → Bool → Step Unit
  set_manual id flag w =
      (ok tt, record w { manual_stops = λ j. if id =? j then flag else w.manual_stops j })
