-- ===== src/Tunnel/Contract.antt =====
-- What the orchestrator relies on a tunnel manager for.
use oikos.Common.{String}
use oikos.Store.Servers.Triples.{View, Shows}
use oikos.Tunnel.{PortMapping, Shared, Manager}

-- A manager works in its own table: it leaves the servers alone, and causes no I/O error of its own
-- in the database.
pub record LeavesServers (m : Manager) : Type 0 where
  pub register :
      (f : View) (mapping : PortMapping) (st : Shared × m.State)
      → Shows f st.0.db
      → Shows f (m.register_port mapping st).1.0.db
  pub release_server :
      (f : View) (id : String) (st : Shared × m.State)
      → Shows f st.0.db
      → Shows f (m.release_server id st).1.0.db
