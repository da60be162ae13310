-- ===== src/Tunnel/Frp.antt =====
-- internal/tunnel/frp.go: the manager of frpc tunnels. Each exported method holds the mutex for its
-- whole run, so it is one step. Go errors that wrap another keep what they wrap.
pub mod Servers
pub mod Rows
pub mod Again
use oikos.Common.{
  ℕ, ◌==◌, String, Bool, true, false, not, ◌&&◌, Option, none, some, List, [], ◌∷◌, ◌=?◌, put,
  delete, length, if◌then◌else◌,
}
use oikos.Common.Int.{ℤ, pos, ltb_ℤ}
use oikos.Common.Exec.{Result, ok, err, Exec, pure, raise, wrap, ◌>>=◌, ◌>>◌}
use oikos.Common.Disk.{Disk, content}
use oikos.Orchestrator.EventBus.{Event, publish}
use oikos.Store.{Tunnel, Db, StoreError}
use oikos.Store.Tunnels.{
  eqb_ℤ, save_tunnel, get_tunnel_by_mapping, list_tunnels, delete_tunnel_by_mapping,
  update_tunnel_status,
}
use oikos.Tunnel.{
  PortMapping, Assignment, Shared, TunnelStatus, TunnelError, store_error, marshal_error,
  process_error, Manager,
}
use oikos.Tunnel.Config.{FrpConfig, FrpFile, generate_config, write_config_atomic}
use oikos.Tunnel.Allocator.{PanelAllocator}
use oikos.Tunnel.Process.{ProcessController}

-- What the manager is made of: its configuration, the allocator, the process controller, whether it
-- has a publish callback, the TOML encoder, and the temporary name for the configuration file.
pub record Setup : Type 1 where
  pub Content : Type 0
  pub blank : Content
  pub cfg : FrpConfig
  pub allocator : PanelAllocator
  pub process : ProcessController Content
  pub has_bus : Bool
  pub marshal : FrpFile → Result String Content
  pub temporary : String

abbrev pub values : List (String × PortMapping) → List PortMapping
values [] = []
values ((k, m) ∷ ms) = m ∷ values ms

module _ (u : Setup) where
  pub record Frp : Type 0 where
    pub mappings : List (String × PortMapping)
    pub panel : u.allocator.State
    pub process : u.process.State
    pub disk : Disk u.Content

  abbrev pub Step : Type 0 → Type 0
  Step A = Exec (Shared × Frp) TunnelError A

  -- The calls of a method, each on its own part of the state.
  abbrev pub try_store : {A : Type 0} → Exec Db StoreError A → Step (Result StoreError A)
  try_store m (sh, f) = let (r, db) = m sh.db in (ok r, (record sh { db = db }, f))

  abbrev pub on_store : {A : Type 0} → Exec Db StoreError A → Step A
  on_store m (sh, f) = let (r, db) = m sh.db in (wrap store_error r, (record sh { db = db }, f))

  abbrev pub on_panel : {A : Type 0} → Exec u.allocator.State TunnelError A → Step A
  on_panel m (sh, f) = let (r, p) = m f.panel in (r, (sh, record f { panel = p }))

  abbrev pub on_process : {A : Type 0} → Exec u.process.State String A → Step A
  on_process m (sh, f) =
      let (r, p) = m f.process in (wrap process_error r, (sh, record f { process = p }))

  abbrev pub on_disk : {A : Type 0} → Exec (Disk u.Content) TunnelError A → Step A
  on_disk m (sh, f) = let (r, d) = m f.disk in (r, (sh, record f { disk = d }))

  abbrev pub change_mappings :
      (List (String × PortMapping) → List (String × PortMapping)) → Step Unit
  change_mappings g (sh, f) = (ok tt, (sh, record f { mappings = g f.mappings }))

  unfoldable pub emit : String → String → Step Unit
  emit kind server (sh, f) = (
    ok tt,
    (
      if u.has_bus
          then record sh { bus = publish (record { kind = kind; server_id = server }) sh.bus }
          else sh,
      f,
    ),
  )

  -- GenerateConfig: the file of the mappings, encoded.
  encode : Result TunnelError FrpFile → Result TunnelError u.Content
  encode (ok file) = wrap marshal_error (u.marshal file)
  encode (err e) = err e

  configuration : Step u.Content
  unfolding encode
  configuration (sh, f) = (encode (generate_config u.cfg (values f.mappings)), (sh, f))

  -- No mapping stops frpc, one starts it, more reload it.
  restart_process : ℕ → Step Unit
  restart_process count (sh, f) =
      let now = content f.disk u.cfg.config_path in
      if count == 0
      then on_process u.process.stop (sh, f)
      else if count == 1
      then on_process (u.process.start now) (sh, f)
      else on_process (u.process.reload now) (sh, f)

  unfoldable pub rebuild : Step Unit
  unfolding configuration restart_process
  rebuild s =
      (do
        bytes ← configuration
        on_disk (write_config_atomic u.blank u.temporary u.cfg.config_path bytes)
        restart_process (length s.1.mappings))
        s

  -- The row that is stored for an assignment.
  unfoldable pub row_of : PortMapping → Assignment → Tunnel
  row_of m a = record {
    id = a.tunnel_id;
    server_id = m.server_id;
    local_port = m.local_port;
    remote_port = a.remote_port;
    protocol = m.protocol;
    status = a.status;
  }

  -- After a failed rebuild the row is marked and the error of the rebuild is returned.
  or_mark : Assignment → PortMapping → Result TunnelError Unit → Step Assignment
  or_mark a m (ok done) = do emit "tunnel.connected" m.server_id; pure a
  or_mark a m (err e) = do
    try_store (update_tunnel_status a.tunnel_id "error")
    emit "tunnel.disconnected" m.server_id
    raise e

  try : {A : Type 0} → Step A → Step (Result TunnelError A)
  try m s = let (r, s') = m s in (ok r, s')

  allocate : PortMapping → Step Assignment
  unfolding or_mark try
  allocate m = do
    a ← on_panel (u.allocator.register m)
    on_store (save_tunnel (row_of m a))
    change_mappings
        (put a.tunnel_id (record m { tunnel_id = a.tunnel_id; remote_port = a.remote_port }))
    rebuilt ← try rebuild
    or_mark a m rebuilt

  -- A stored mapping with a remote port is returned as it is.
  reuse : PortMapping → Result StoreError Tunnel → Step Assignment
  unfolding allocate
  reuse m (ok old) =
      if ltb_ℤ (pos 0) old.remote_port
      then pure (record { tunnel_id = old.id; remote_port = old.remote_port; status = old.status })
      else allocate m
  reuse m (err e) = allocate m

  unfoldable pub register_port : PortMapping → Step Assignment
  unfolding reuse
  register_port m = do
    old ← try_store (get_tunnel_by_mapping m.server_id m.local_port m.protocol)
    reuse m old

  unfoldable pub mapping_of : Tunnel → PortMapping
  mapping_of t = record {
    tunnel_id = t.id;
    server_id = t.server_id;
    local_port = t.local_port;
    remote_port = t.remote_port;
    protocol = t.protocol;
  }

  release_row : String → ℤ → Tunnel → Step Unit
  release_row server port t = do
    on_panel (u.allocator.release (mapping_of t))
    on_store (delete_tunnel_by_mapping server port t.protocol)
    change_mappings (delete t.id)
    emit "tunnel.disconnected" server

  release_rows : String → List Tunnel → Step Unit
  unfolding release_row
  release_rows server [] = pure tt
  release_rows server (t ∷ rows) = do release_row server t.local_port t; release_rows server rows

  abbrev at_port : ℤ → List Tunnel → List Tunnel
  at_port port [] = []
  at_port port (t ∷ rows) =
      let rest = at_port port rows in if eqb_ℤ t.local_port port then t ∷ rest else rest

  -- The rows of other ports are skipped by the loop; in the others t.LocalPort is the port.
  unfoldable pub release_port : String → ℤ → Step Unit
  unfolding release_rows
  release_port server port = do
    rows ← on_store (list_tunnels server)
    release_rows server (at_port port rows)
    rebuild

  unfoldable pub release_server : String → Step Unit
  unfolding release_rows
  release_server server = do
    rows ← on_store (list_tunnels server)
    release_rows server rows
    rebuild

  abbrev statuses : List Tunnel → List TunnelStatus
  statuses [] = []
  statuses (t ∷ rows) = t.status ∷ statuses rows

  unfoldable pub status : String → Step (List TunnelStatus)
  status server = do rows ← on_store (list_tunnels server); pure (statuses rows)

  abbrev pub new_manager : Manager
  new_manager = record {
    State = Frp;
    register_port = register_port;
    release_port = release_port;
    release_server = release_server;
  }
