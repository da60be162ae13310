-- ===== src/Store/Limits.antt =====
-- The statements of internal/store/sqlite.go on the table `resource_limits`.
use oikos.Common.{String, not, ◌&&◌, List, [], ◌∷◌, Option, none, some, ◌=?◌, if◌then◌else◌}
use oikos.Common.Exec.{Result, ok, err, Exec}
use oikos.Store.{ResourceLimits, Db, StoreError, no_rows, constraint, statement}
use oikos.Store.Servers.{find_server, is_some, limits_but}

unfoldable pub find_limits : String → List ResourceLimits → Option ResourceLimits
find_limits id [] = none
find_limits id (l ∷ rows) = if l.server_id =? id then some l else find_limits id rows

-- INSERT … ON CONFLICT(server_id) DO UPDATE
unfoldable pub set_resource_limits : ResourceLimits → Exec Db StoreError Unit
set_resource_limits l = statement λ db.
    if db.foreign_keys && not (is_some (find_server l.server_id db.servers))
    then (err constraint, db)
    else (ok tt, record db { limits = l ∷ limits_but l.server_id db.limits })

or_no_rows : Option ResourceLimits → Result StoreError ResourceLimits
or_no_rows none = err no_rows
or_no_rows (some l) = ok l

unfoldable pub get_resource_limits : String → Exec Db StoreError ResourceLimits
unfolding or_no_rows
get_resource_limits id = statement λ db. (or_no_rows (find_limits id db.limits), db)
