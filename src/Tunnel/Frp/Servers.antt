-- ===== src/Tunnel/Frp/Servers.antt =====
-- internal/tunnel/frp.go: what the methods of the frp manager do to the servers table.
use oikos.Common.{
  ℕ, String, Bool, true, false, not, ◌&&◌, ◌||◌, List, [], ◌∷◌, ◌++◌, length, arith, if◌then◌else◌,
  Bool-cases, inl, inr,
}
use oikos.Common.Int.{ℤ}
use oikos.Common.Exec.{Result, ok, err, Exec}
use oikos.Common.Keeps.{Keeps, Keeps-pure, Keeps-raise, keeps_rules, Keeps-bind}
use oikos.Common.Disk.{Disk}
use oikos.Store.{Tunnel, Db, StoreError}
use oikos.Store.Servers.{find_server, is_some}
use oikos.Store.Tunnels.{
  clashes, find_mapping, update_mapping, save_tunnel, get_tunnel_by_mapping, list_tunnels,
  delete_tunnel_by_mapping, update_tunnel_status,
}
use oikos.Store.Servers.Triples.{View, Shows, Shows-statement}
use oikos.Tunnel.{PortMapping, Assignment, Shared, TunnelError}
use oikos.Tunnel.Contract.{LeavesServers}
use oikos.Tunnel.Frp.{
  Setup, Frp, Step, try_store, on_store, on_panel, on_disk, change_mappings, emit, configuration,
  restart_process, rebuild, or_mark, try, allocate, reuse, register_port, release_row, release_rows,
  release_port, release_server, new_manager,
}

-- The statements on the tunnels table.
module _ (f : View) where
  same_servers :
      (db : Db) (rows : List Tunnel) → Shows f db → Shows f (record db { tunnels = rows })
  same_servers db rows h = record { calm = h.calm; rows = h.rows }

  Shows-save_tunnel : (t : Tunnel) → Keeps (Shows f) (save_tunnel t)
  unfolding save_tunnel
  Shows-save_tunnel t = Shows-statement f _ λ db h.
      elim (Bool-cases (
        clashes t db.tunnels
        || db.foreign_keys && not (is_some (find_server t.server_id db.servers)))) [
          | inl refused ↦ rw refused h
          | inr allowed ↦
              rw allowed
                (elim (Bool-cases
                  (is_some (find_mapping t.server_id t.local_port t.protocol db.tunnels))) [
                    | inl old ↦ rw old (same_servers db (update_mapping t db.tunnels) h)
                    | inr new ↦ rw new (same_servers db (db.tunnels ++ t ∷ []) h)
                  ])
        ]

  Shows-get_tunnel :
      (server : String) (port : ℤ) (protocol : String)
      → Keeps (Shows f) (get_tunnel_by_mapping server port protocol)
  unfolding get_tunnel_by_mapping
  Shows-get_tunnel server port protocol = Shows-statement f _ λ db h. h

  Shows-list_tunnels : (server : String) → Keeps (Shows f) (list_tunnels server)
  unfolding list_tunnels
  Shows-list_tunnels server = Shows-statement f _ λ db h. h

  Shows-delete_tunnel :
      (server : String) (port : ℤ) (protocol : String)
      → Keeps (Shows f) (delete_tunnel_by_mapping server port protocol)
  unfolding delete_tunnel_by_mapping
  Shows-delete_tunnel server port protocol = Shows-statement f _ λ db h. same_servers db _ h

  Shows-update_tunnel_status :
      (id status : String) → Keeps (Shows f) (update_tunnel_status id status)
  unfolding update_tunnel_status
  Shows-update_tunnel_status id status = Shows-statement f _ λ db h. same_servers db _ h

module _ (u : Setup) (f : View) where
  abbrev Kept : Shared × Frp u → Type 0
  Kept st = Shows f st.0.db

  Kept-try_store :
      {A : Type 0} (m : Exec Db StoreError A) → Keeps (Shows f) m → Keeps Kept (try_store u m)
  Kept-try_store m h = record { at = λ st k. h.at st.0.db k }

  Kept-on_store :
      {A : Type 0} (m : Exec Db StoreError A) → Keeps (Shows f) m → Keeps Kept (on_store u m)
  Kept-on_store m h = record { at = λ st k. h.at st.0.db k }

  Kept-on_panel :
      {A : Type 0} (m : Exec u.allocator.State TunnelError A) → Keeps Kept (on_panel u m)
  Kept-on_panel m = record { at = λ st k. k }

  Kept-on_disk : {A : Type 0} (m : Exec (Disk u.Content) TunnelError A) → Keeps Kept (on_disk u m)
  Kept-on_disk m = record { at = λ st k. k }

  Kept-change_mappings :
      (g : List (String × PortMapping) → List (String × PortMapping))
      → Keeps Kept (change_mappings u g)
  Kept-change_mappings g = record { at = λ st k. k }

  if-db :
      (b : Bool) (sh sh' : Shared)
      → Shows f sh.db
      → Shows f sh'.db
      → Shows f (if b then sh' else sh).db
  if-db true sh sh' h k = k
  if-db false sh sh' h k = h

  Kept-emit : (kind server : String) → Keeps Kept (emit u kind server)
  unfolding emit
  Kept-emit kind server = record { at = λ st k. if-db u.has_bus _ _ k k }

  Kept-configuration : Keeps Kept (configuration u)
  unfolding configuration
  Kept-configuration = record { at = λ st k. k }

  Kept-restart_process : (count : ℕ) → Keeps Kept (restart_process u count)
  unfolding restart_process
  Kept-restart_process count = record { at = λ st k. ground (arith, k) }

  Kept-rebuild : Keeps Kept (rebuild u)
  unfolding rebuild
  Kept-rebuild = record {
    at = λ st k.
        (Keeps-bind (configuration u) _ Kept-configuration λ bytes.
            Keeps-bind (on_disk u _) _ (Kept-on_disk _)
              λ _. Kept-restart_process (length st.1.mappings)).at
          st k;
  }

  ruleset kept_rules = (
    keeps_rules, Keeps-pure, Keeps-raise, Kept-try_store, Kept-on_store, Kept-on_panel,
    Kept-change_mappings, Kept-emit, Kept-rebuild, Shows-save_tunnel, Shows-get_tunnel,
    Shows-list_tunnels, Shows-delete_tunnel, Shows-update_tunnel_status,
  )

  Kept-or_mark :
      (a : Assignment) (m : PortMapping) (r : Result TunnelError Unit)
      → Keeps Kept (or_mark u a m r)
  unfolding or_mark
  Kept-or_mark a m (ok done) = search kept_rules
  Kept-or_mark a m (err e) = search kept_rules

  Kept-try : {A : Type 0} (m : Step u A) → Keeps Kept m → Keeps Kept (try u m)
  unfolding try
  Kept-try m h = record { at = h.at }

  Kept-allocate : (m : PortMapping) → Keeps Kept (allocate u m)
  unfolding allocate
  Kept-allocate m = search (kept_rules, Kept-or_mark, Kept-try) depth 9

  Kept-reuse : (m : PortMapping) (r : Result StoreError Tunnel) → Keeps Kept (reuse u m r)
  unfolding reuse
  Kept-reuse m (ok old) = search (kept_rules, Kept-allocate)
  Kept-reuse m (err e) = search (kept_rules, Kept-allocate)

  Kept-register_port : (m : PortMapping) → Keeps Kept (register_port u m)
  unfolding register_port
  Kept-register_port m = search (kept_rules, Kept-reuse)

  Kept-release_row :
      (server : String) (port : ℤ) (t : Tunnel) → Keeps Kept (release_row u server port t)
  unfolding release_row
  Kept-release_row server port t = search kept_rules depth 9

  Kept-release_rows :
      (server : String) (rows : List Tunnel) → Keeps Kept (release_rows u server rows)
  unfolding release_rows
  Kept-release_rows server [] = search kept_rules
  Kept-release_rows server (t ∷ rows) =
      Keeps-bind (release_row u server t.local_port t) _ (Kept-release_row server t.local_port t)
        (λ _. Kept-release_rows server rows)

  Kept-release_server : (server : String) → Keeps Kept (release_server u server)
  unfolding release_server
  Kept-release_server server = search (kept_rules, Kept-release_rows)

  Kept-release_port : (server : String) (port : ℤ) → Keeps Kept (release_port u server port)
  unfolding release_port
  Kept-release_port server port = search (kept_rules, Kept-release_rows)

pub frp-LeavesServers : (u : Setup) → LeavesServers (new_manager u)
frp-LeavesServers u = record {
  register = λ f m st h. (Kept-register_port u f m).at st h;
  release_server = λ f id st h. (Kept-release_server u f id).at st h;
}
