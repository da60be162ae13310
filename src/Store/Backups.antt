-- ===== src/Store/Backups.antt =====
-- The statements of internal/store/sqlite.go on the table `backups`. CURRENT_TIMESTAMP is an
-- argument of the statement that uses it.
use oikos.Common.{
  ℕ, String, not, ◌&&◌, ◌||◌, List, [], ◌∷◌, ◌++◌, Option, none, some, ◌=?◌, ltb, if◌then◌else◌,
}
use oikos.Common.Int.{ℤ}
use oikos.Common.Exec.{Result, ok, err, Exec}
use oikos.Store.{Backup, Db, StoreError, no_rows, constraint, statement}
use oikos.Store.Servers.{find_server, is_some}

unfoldable pub find_backup : String → List Backup → Option Backup
find_backup id [] = none
find_backup id (b ∷ rows) = if b.id =? id then some b else find_backup id rows

unfoldable pub save_backup : Backup → Exec Db StoreError Unit
save_backup b = statement λ db.
    if is_some (find_backup b.id db.backups)
      || db.foreign_keys && not (is_some (find_server b.server_id db.servers))
    then (err constraint, db)
    else (ok tt, record db { backups = db.backups ++ b ∷ [] })

unfoldable pub or_no_rows : Option Backup → Result StoreError Backup
or_no_rows none = err no_rows
or_no_rows (some b) = ok b

unfoldable pub get_backup : String → Exec Db StoreError Backup
unfolding or_no_rows
get_backup id = statement λ db. (or_no_rows (find_backup id db.backups), db)

-- ORDER BY created_at DESC
unfoldable pub insert_latest : Backup → List Backup → List Backup
insert_latest b [] = b ∷ []
insert_latest b (c ∷ rows) =
    let rest = insert_latest b rows in
    if ltb b.created_at c.created_at then c ∷ rest else b ∷ c ∷ rows

unfoldable pub backups_of : String → List Backup → List Backup
backups_of server [] = []
backups_of server (b ∷ rows) =
    let rest = backups_of server rows in
    if b.server_id =? server then insert_latest b rest else rest

unfoldable pub list_backups : String → Exec Db StoreError (List Backup)
list_backups server = statement λ db. (ok (backups_of server db.backups), db)

abbrev pub with_outcome : String → String → ℤ → ℕ → Backup → Backup
with_outcome status checksum size now b = record b {
  status = status;
  checksum_sha = checksum;
  size_bytes = size;
  completed_at = if status =? "completed" then some now else b.completed_at;
}

unfoldable pub update_backup : String → (Backup → Backup) → List Backup → List Backup
update_backup id f [] = []
update_backup id f (b ∷ rows) = (if b.id =? id then f b else b) ∷ update_backup id f rows

unfoldable pub update_backup_status : String → String → String → ℤ → ℕ → Exec Db StoreError Unit
update_backup_status id status checksum size now = statement λ db. (
  ok tt,
  record db { backups = update_backup id (with_outcome status checksum size now) db.backups },
)

unfoldable pub remove_backup : String → List Backup → List Backup
remove_backup id [] = []
remove_backup id (b ∷ rows) =
    let rest = remove_backup id rows in if b.id =? id then rest else b ∷ rest

unfoldable pub delete_backup : String → Exec Db StoreError Unit
delete_backup id = statement λ db. (ok tt, record db { backups = remove_backup id db.backups })
