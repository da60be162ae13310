-- ===== src/Orchestrator/SelfHealer/Rules.antt =====
-- internal/orchestrator/selfheal.go: what the calls of the handler do to the servers table.
use oikos.Common.{
  String, ◌≡◌, ◌≢◌, ap, Bool, ◌||◌, List, [], ◌∷◌, ◌++◌, some, arith, eq_iff, Bool-cases, inl, inr,
}
use oikos.Common.Exec.{Result, ok, err, Exec, ◌>>=◌}
use oikos.Common.Triples.{Outcome}
use oikos.Common.Keeps.{Keeps, keeps_rules, Keeps-raise}
use oikos.Orchestrator.Lifecycle.{Parts, World, announce}
use oikos.Orchestrator.Lifecycle.Operations.{restart}
use oikos.Orchestrator.RestartPolicy.{RestartPolicy}
use oikos.Orchestrator.SelfHealer.{ignore}
use oikos.Store.{Server, StoredEvent, Db, StoreError, statement}
use oikos.Orchestrator.EventBus.{publish}
use oikos.Store.Servers.{
  find_server, update_server, get_server, update_server_status, modify_server,
}
use oikos.Store.Servers.Laws.{map_option, find_server-update}
use oikos.Store.Servers.Triples.{
  View, Shows, set_row, with_status, Shows-statement, Shows-modify_server,
}
use oikos.Store.Events.{has_event, dangling, insert_event, check_metadata, save_event}

module _ (f : View) where
  same_servers :
      (db : Db) (rows : List StoredEvent) → Shows f db → Shows f (record db { events = rows })
  same_servers db rows h = record { calm = h.calm; rows = h.rows }

  Shows-insert_event : (e : StoredEvent) → Keeps (Shows f) (insert_event e)
  unfolding insert_event
  Shows-insert_event e = Shows-statement f _ λ db h.
      elim (Bool-cases (has_event e.id db.events || dangling e.server_id db)) [
        | inl refused ↦ rw refused h
        | inr allowed ↦ rw allowed (same_servers db (db.events ++ e ∷ []) h)
      ]

  -- An UPDATE of a row that is there.
  pub updated :
      (db : Db) (id : String) (g : Server → Server) (row : Server)
      → ((s : Server) → (g s).id ≡ s.id)
      → f id ≡ some row
      → Shows f db
      → Shows (set_row id (some (g row)) f) (record db { servers = update_server id g db.servers })
  updated db id g row keeps read h = record {
    calm = h.calm;
    rows = λ j. ground (
      arith,
      find_server-update id j g keeps db.servers,
      h.rows j,
      h.rows id,
      eq_iff id j,
      read,
      ap f {x = id} {y = j},
    );
  }

  Shows-check_metadata :
      (jv : String → Bool) (e : StoredEvent) → Keeps (Shows f) (check_metadata jv e)
  unfolding check_metadata
  Shows-check_metadata jv e = Shows-statement f _ λ db h. ground (arith, h)

  pub Shows-save_event : (jv : String → Bool) (e : StoredEvent) → Keeps (Shows f) (save_event jv e)
  unfolding save_event
  Shows-save_event jv e =
      search (keeps_rules, Keeps-raise, Shows-check_metadata, Shows-insert_event)

  -- A write whose error is ignored still has its effect where no I/O error occurs.
  pub ignore-keeps :
      (p : Parts) (policy : RestartPolicy) (m : Exec Db StoreError Unit) (w : World p)
      → Keeps (Shows f) m
      → Shows f w.db
      → Shows f (ignore p policy m w).db
  unfolding ignore
  ignore-keeps p policy m w k h = k.at w.db h

  pub ignore-modify :
      (p : Parts) (policy : RestartPolicy) (id : String) (g : Server → Server) (w : World p)
      → ((s : Server) → (g s).id ≡ s.id)
      → Shows f w.db
      → Shows (set_row id (map_option g (f id)) f) (ignore p policy (modify_server id g) w).db
  unfolding ignore
  ignore-modify p policy id g w keeps h =
      either (modify_server id g w.db).0 (modify_server id g w.db).1 (
        (Shows-modify_server f (λ x. Shows (set_row id (map_option g (f id)) f)) id g keeps).at w.db
          h)
    where
      either :
          (r : Result StoreError Unit) (db : Db)
          → Outcome
              (λ a. Shows (set_row id (map_option g (f id)) f))
              (λ x. Shows (set_row id (map_option g (f id)) f))
              r
              db
          → Shows (set_row id (map_option g (f id)) f) db
      either (ok a) db h = h
      either (err x) db h = h

module _ (p : Parts) where
  -- The world after a restart that nothing fails in.
  abbrev pub revived : String → Server → World p → World p
  revived id row w = record w {
    db = record w.db { servers = update_server id (with_status "running") w.db.servers };
    rt = (p.rt.restart row.container_id w.rt).1;
    bus = publish (record { kind = "server.restarted"; server_id = id }) w.bus;
  }

  -- RestartServer where neither the database nor the engine fails.
  pub restart_lem :
      (id : String) (w : World p) (row : Server)
      → w.db.faults ≡ []
      → find_server id w.db.servers ≡ some row
      → row.container_id ≢ ""
      → (p.rt.restart row.container_id w.rt).0 ≡ ok tt
      → restart p id w ≡ (ok tt, revived id row w)
  unfolding restart get_server update_server_status statement ◌>>=◌ announce
  restart_lem id w row calm read has up = ground (arith, eq_iff row.container_id "")

pub get_server-found :
    (id : String) (db : Db) (row : Server)
    → db.faults ≡ []
    → find_server id db.servers ≡ some row
    → get_server id db ≡ (ok row, db)
unfolding get_server statement
get_server-found id db row calm read = ground arith
