-- ===== src/Orchestrator/Lifecycle/Create/Atomic.antt =====
-- `CreateServer` of internal/orchestrator/lifecycle.go: the servers table after it, on every path.
use oikos.Common.{
  String, ◌≡◌, refl, ap, ◌&&◌, none, some, List, [], ◌∷◌, arith, ◌=?◌, eq_iff, if◌then◌else◌,
}
use oikos.Common.Exec.{Result, ok, err, pure}
use oikos.Common.Triples.{
  Outcome, Triple, Triple-pure, Triple-raise, Triple-bind, Triple-if, Triple-weaken,
}
use oikos.Store.{encoded, Server, StoreError}
use oikos.Store.Servers.{create_server, update_server_status, delete_server, find_server}
use oikos.Store.Servers.Laws.{map_option}
use oikos.Store.Servers.Triples.{
  View, Shows, Shows-ext, set_row, with_status, Shows-ensure_egg, Shows-create_server,
  Shows-modify_server, Shows-delete_server,
}
use oikos.Tunnel.{PortMapping, Assignment, TunnelError}
use oikos.Tunnel.Contract.{LeavesServers}
use oikos.Orchestrator.Lifecycle.{LifecycleError, port_error, tunnel_error, Parts, World, on_store}
use oikos.Orchestrator.Lifecycle.Rules.{Triple-on_store, Triple-try_store, Triple-announce}
use oikos.Orchestrator.Lifecycle.Create.{
  undo_create, register_one, register_all, register_ports, create,
}

-- The row of a server that has just been created.
abbrev pub new_row : String → String → String → String → List (String × String) → Server
new_row id name egg startup env = record {
  id = id;
  name = name;
  egg_id = egg;
  container_id = "";
  status = "stopped";
  startup_command = startup;
  environment = encoded env;
  restart_count = 0;
  last_crash_at = none;
}

module _ (p : Parts) (leaves : LeavesServers p.tunnels) (f : View) (row : Server)
    (free : f row.id ≡ none) where
  abbrev With : World p → Type 0
  With w = Shows (set_row row.id (some row) f) w.db

  abbrev Without : World p → Type 0
  Without w = Shows f w.db

  without_row : (j : String) → set_row row.id none (set_row row.id (some row) f) j ≡ f j
  without_row j = ground (arith, free, eq_iff row.id j, ap f {x = row.id} {y = j})

  undo_create-Triple :
      {A : Type 0} (Q : A → World p → Type 0) (e : LifecycleError)
      → Triple With Q (λ e. Without) (undo_create p row.id e)
  unfolding undo_create
  undo_create-Triple Q e =
      Triple-bind With (λ r w. Without w) Q (λ e. Without) _ _
        (Triple-weaken With (λ r w. Without w) (λ e. Without) With _ _
          (Triple-try_store p (Shows (set_row row.id (some row) f)) (λ a. Shows f) (Shows f)
            (λ e. Without) (delete_server row.id) deletion)
          (λ w h. h) decided)
        (λ r. Triple-raise (λ w. Without w) Q (λ e. Without) e (λ w h. h))
    where
      deletion :
          Triple
            (Shows (set_row row.id (some row) f))
            (λ a. Shows f)
            (λ x. Shows f)
            (delete_server row.id)
      deletion =
          Triple-weaken (Shows (set_row row.id (some row) f)) (λ a. Shows f) (λ x. Shows f)
            (Shows (set_row row.id (some row) f)) _ _
            (Shows-delete_server (set_row row.id (some row) f) (λ x. Shows f) row.id) (λ db h. h)
            (λ a db h. Shows-ext without_row h)

      decided :
          (r : Result StoreError Unit) (w : World p)
          → Outcome (λ a. Shows f) (λ x. Shows f) r w.db
          → Without w
      decided (ok a) w h = h
      decided (err x) w h = h

  register_all-Triple :
      (ms : List PortMapping) → Triple With (λ a. With) (λ e. Without) (register_all p row.id ms)
  unfolding register_all register_one
  register_all-Triple [] = Triple-pure With (λ a. With) (λ e. Without) tt (λ w h. h)
  register_all-Triple (m ∷ ms) =
      Triple-bind With (λ r. With) (λ a. With) (λ e. Without) _ _
        (record {
          at = λ w h.
              leaves.register (set_row row.id (some row) f) (record m { server_id = row.id })
                (record { db = w.db; bus = w.bus }, w.tunnels) h;
        })
        λ r.
          Triple-bind With (λ a. With) (λ a. With) (λ e. Without) _ _ (one r)
            (λ a. register_all-Triple ms)
    where
      one :
          (r : Result TunnelError Assignment)
          → Triple With (λ a. With) (λ e. Without) (register_one p row.id r)
      one (ok a) = Triple-pure With (λ a. With) (λ e. Without) tt (λ w h. h)
      one (err e) = undo_create-Triple (λ a. With) (tunnel_error e)

  register_ports-Triple :
      (r : Result String (List PortMapping))
      → Triple With (λ a. With) (λ e. Without) (register_ports p row.id r)
  unfolding register_ports
  register_ports-Triple (ok ms) = register_all-Triple ms
  register_ports-Triple (err e) = undo_create-Triple (λ a. With) (port_error e)

module _ (p : Parts) (leaves : LeavesServers p.tunnels) (f : View) (id name egg startup : String)
    (env : List (String × String)) (free : f id ≡ none) where
  abbrev row : Server
  row = new_row id name egg startup env

  abbrev installing : Server
  installing = record row { status = "installing" }

  stopped_row :
      (j : String)
      → set_row id
          (map_option (with_status "stopped") (set_row id (some installing) f id))
          (set_row id (some installing) f)
          j
        ≡ set_row id (some row) f j
  stopped_row j = ground (arith, eq_iff id j, eq_iff id id)

  insertion :
      Triple
        (λ w. Shows f w.db)
        (λ a w. Shows (set_row id (some installing) f) w.db)
        (λ e w. Shows f w.db)
        (on_store p (create_server installing))
  insertion =
      Triple-on_store p (Shows f) (λ a. Shows (set_row id (some installing) f)) (Shows f) _
        (Shows-create_server f installing free)

  update :
      Triple
        (λ w. Shows (set_row id (some installing) f) w.db)
        (λ a w. Shows (set_row id (some row) f) w.db)
        (λ e w. Shows f w.db)
        (on_store p (update_server_status id "stopped"))
  unfolding update_server_status
  update =
      Triple-on_store p (Shows (set_row id (some installing) f))
        (λ a. Shows (set_row id (some row) f)) (Shows f) _
        (Triple-weaken _ _ _ (Shows (set_row id (some installing) f)) _ _
          (Shows-modify_server (set_row id (some installing) f) (λ x. Shows f) id
            (with_status "stopped") (λ s. refl))
          (λ db h. h) (λ a db h. Shows-ext stopped_row h))

  create-Triple :
      Triple
        (λ w. Shows f w.db)
        (λ i w. (i ≡ id) × Shows (set_row id (some row) f) w.db)
        (λ e w. Shows f w.db)
        (create p id name egg startup env)
  unfolding create
  create-Triple =
      Triple-bind _ (λ a w. Shows f w.db) _ _ _ _
        (Triple-on_store p (Shows f) (λ a. Shows f) (Shows f) _
          (Shows-ensure_egg f (λ x. Shows f) _))
        λ _.
          Triple-bind _ (λ a w. Shows (set_row id (some installing) f) w.db) _ _ _ _ insertion
            λ _.
              Triple-bind _ (λ a w. Shows (set_row id (some row) f) w.db) _ _ _ _ update
                λ _.
                  Triple-bind _ (λ a w. Shows (set_row id (some row) f) w.db) _ _ _ _ ports
                    λ _.
                      Triple-bind _ (λ a w. Shows (set_row id (some row) f) w.db) _ _ _ _
                        (Triple-announce p (Shows (set_row id (some row) f)) (Shows f)
                          "server.created" id)
                        λ _. Triple-pure _ _ _ id (λ w h. (refl, h))
    where
      ports :
          Triple
            (λ w. Shows (set_row id (some row) f) w.db)
            (λ a w. Shows (set_row id (some row) f) w.db)
            (λ e w. Shows f w.db)
            (if p.has_tunnels && p.has_ports then register_ports p id (p.ports egg) else pure tt)
      ports =
          Triple-if _ _ _ (p.has_tunnels && p.has_ports) _ _
            (λ _. register_ports-Triple p leaves f row free (p.ports egg))
            (λ _. Triple-pure _ _ _ tt (λ w h. h))

-- When no statement meets an I/O error and the drawn id is free, CreateServer either returns that id
-- and adds exactly the complete row of the stopped server, or returns an error (a refused insert, a
-- port provider that fails, a port that cannot be registered) and leaves every row of the table as
-- it was. This holds for every tunnel manager that leaves the servers table alone.
pub create-atomic :
    (p : Parts)
    → LeavesServers p.tunnels
    → (id name egg startup : String) (env : List (String × String)) (w : World p) → w.db.faults ≡ []
    → find_server id w.db.servers ≡ none
    → Outcome
        (λ i w'.
          (i ≡ id)
          × ((j : String)
              → find_server j w'.db.servers ≡ (
                  if id =? j
                  then some (new_row id name egg startup env)
                  else find_server j w.db.servers)))
        (λ e w'. (j : String) → find_server j w'.db.servers ≡ find_server j w.db.servers)
        (create p id name egg startup env w).0
        (create p id name egg startup env w).1
create-atomic p leaves id name egg startup env w calm free =
    reading (create p id name egg startup env w).0 (create p id name egg startup env w).1 (
      (create-Triple p leaves (λ j. find_server j w.db.servers) id name egg startup env free).at w
        (record { calm = calm; rows = λ j. refl }))
  where
    reading :
        (r : Result LifecycleError String) (w' : World p)
        → Outcome
            (λ i w'.
              (i ≡ id)
              × Shows
                  (set_row id
                    (some (new_row id name egg startup env))
                    (λ j. find_server j w.db.servers))
                  w'.db)
            (λ e w'. Shows (λ j. find_server j w.db.servers) w'.db)
            r
            w'
        → Outcome
            (λ i w'.
              (i ≡ id)
              × ((j : String)
                  → find_server j w'.db.servers ≡ (
                      if id =? j
                      then some (new_row id name egg startup env)
                      else find_server j w.db.servers)))
            (λ e w'. (j : String) → find_server j w'.db.servers ≡ find_server j w.db.servers)
            r
            w'
    reading (ok i) w' h = (h.0, h.1.rows)
    reading (err e) w' h = h.rows
