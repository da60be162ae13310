-- ===== src/Store/Transactions.antt =====
-- A transaction of internal/store/sqlite.go: Begin, the statements, and Commit, or Rollback after
-- the first error.
use oikos.Common.Exec.{Result, ok, err, Exec, pure, ◌>>◌}
use oikos.Store.{Db, StoreError, statement}

-- A transaction that is not committed leaves the rows as they were.
unfoldable pub conclude : Db → Result StoreError Unit × Db → Result StoreError Unit × Db
conclude before (ok done, after) = (ok done, after)
conclude before (err e, after) = (err e, record before { faults = after.faults })

unfoldable pub begin : Exec Db StoreError Unit
begin = statement (pure tt)

unfoldable pub commit : Exec Db StoreError Unit
commit = statement (pure tt)

unfoldable pub transaction : Exec Db StoreError Unit → Exec Db StoreError Unit
transaction body db = conclude db ((begin >> body >> commit) db)
