-- ===== src/Store/Servers.antt =====
-- The statements of internal/store/sqlite.go on the tables `servers` and `eggs`.
pub mod Laws
pub mod Triples
use oikos.Common.{
  ℕ, ◌+◌, String, Bool, true, false, not, ◌&&◌, ◌||◌, List, [], ◌∷◌, ◌++◌, Option, none, some, ◌=?◌,
  if◌then◌else◌,
}
use oikos.Common.Exec.{Result, ok, err, Exec}
use oikos.Store.{
  Server, Egg, ResourceLimits, Tunnel, StoredEvent, Backup, SftpCredential, Db, StoreError, no_rows,
  constraint, statement,
}

-- SELECT … WHERE id=?
unfoldable pub find_server : String → List Server → Option Server
find_server id [] = none
find_server id (s ∷ rows) = if s.id =? id then some s else find_server id rows

unfoldable pub find_egg : String → List Egg → Option Egg
find_egg id [] = none
find_egg id (e ∷ rows) = if e.id =? id then some e else find_egg id rows

-- UPDATE … WHERE id=?
unfoldable pub update_server : String → (Server → Server) → List Server → List Server
update_server id f [] = []
update_server id f (s ∷ rows) = (if s.id =? id then f s else s) ∷ update_server id f rows

-- DELETE … WHERE id=?
unfoldable pub remove_server : String → List Server → List Server
remove_server id [] = []
remove_server id (s ∷ rows) =
    let rest = remove_server id rows in if s.id =? id then rest else s ∷ rest

abbrev pub is_some {ℓ} : {A : Type ℓ} → Option A → Bool
is_some none = false
is_some (some a) = true

-- INSERT OR IGNORE INTO eggs
unfoldable pub ensure_egg : Egg → Exec Db StoreError Unit
ensure_egg e = statement λ db.
    if is_some (find_egg e.id db.eggs)
    then (ok tt, db)
    else (ok tt, record db { eggs = db.eggs ++ e ∷ [] })

unfoldable pub create_egg : Egg → Exec Db StoreError Unit
create_egg e = statement λ db.
    if is_some (find_egg e.id db.eggs)
    then (err constraint, db)
    else (ok tt, record db { eggs = db.eggs ++ e ∷ [] })

-- A new row has the defaults of the columns that the statement does not name.
unfoldable pub create_server : Server → Exec Db StoreError Unit
create_server s = statement λ db.
    if is_some (find_server s.id db.servers)
      || db.foreign_keys && not (is_some (find_egg s.egg_id db.eggs))
    then (err constraint, db)
    else (
      ok tt,
      record db {
        servers = db.servers ++ record s { restart_count = 0; last_crash_at = none } ∷ [];
      },
    )

or_no_rows : {A : Type 0} → Option A → Result StoreError A
or_no_rows none = err no_rows
or_no_rows (some a) = ok a

unfoldable pub get_server : String → Exec Db StoreError Server
unfolding or_no_rows
get_server id = statement λ db. (or_no_rows (find_server id db.servers), db)

-- An UPDATE that meets no row succeeds.
unfoldable pub modify_server : String → (Server → Server) → Exec Db StoreError Unit
modify_server id f = statement λ db. (ok tt, record db { servers = update_server id f db.servers })

unfoldable pub update_server_status : String → String → Exec Db StoreError Unit
unfolding modify_server
update_server_status id status = modify_server id (λ s. record s { status = status })

unfoldable pub set_server_container : String → String → Exec Db StoreError Unit
unfolding modify_server
set_server_container id container = modify_server id (λ s. record s { container_id = container })

unfoldable pub increment_restart_count : String → Exec Db StoreError Unit
unfolding modify_server
increment_restart_count id =
    modify_server id (λ s. record s { restart_count = s.restart_count + 1 })

unfoldable pub reset_restart_count : String → Exec Db StoreError Unit
unfolding modify_server
reset_restart_count id = modify_server id (λ s. record s { restart_count = 0 })

unfoldable pub set_last_crash : String → ℕ → Exec Db StoreError Unit
unfolding modify_server
set_last_crash id at = modify_server id (λ s. record s { last_crash_at = some at })

-- ON DELETE CASCADE, where references are enforced.
unfoldable pub tunnels_but : String → List Tunnel → List Tunnel
tunnels_but id [] = []
tunnels_but id (t ∷ rows) =
    let rest = tunnels_but id rows in if t.server_id =? id then rest else t ∷ rest

unfoldable pub limits_but : String → List ResourceLimits → List ResourceLimits
limits_but id [] = []
limits_but id (l ∷ rows) =
    let rest = limits_but id rows in if l.server_id =? id then rest else l ∷ rest

unfoldable pub events_but : String → List StoredEvent → List StoredEvent
events_but id [] = []
events_but id (e ∷ rows) =
    let rest = events_but id rows in if e.server_id =? id then rest else e ∷ rest

unfoldable pub backups_but : String → List Backup → List Backup
backups_but id [] = []
backups_but id (b ∷ rows) =
    let rest = backups_but id rows in if b.server_id =? id then rest else b ∷ rest

unfoldable pub credentials_but : String → List SftpCredential → List SftpCredential
credentials_but id [] = []
credentials_but id (c ∷ rows) =
    let rest = credentials_but id rows in if c.server_id =? id then rest else c ∷ rest

unfoldable pub delete_server : String → Exec Db StoreError Unit
delete_server id = statement λ db. (
  ok tt,
  record db {
    servers = remove_server id db.servers;
    tunnels = if db.foreign_keys then tunnels_but id db.tunnels else db.tunnels;
    limits = if db.foreign_keys then limits_but id db.limits else db.limits;
    events = if db.foreign_keys then events_but id db.events else db.events;
    backups = if db.foreign_keys then backups_but id db.backups else db.backups;
    credentials = if db.foreign_keys then credentials_but id db.credentials else db.credentials;
  },
)

-- ORDER BY created_at: rows stand in the order of their insertion.
unfoldable pub list_servers : Exec Db StoreError (List Server)
list_servers = statement λ db. (ok db.servers, db)
