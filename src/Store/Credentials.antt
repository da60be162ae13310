-- ===== src/Store/Credentials.antt =====
-- The statements of internal/store/sqlite.go on the table `sftp_credentials`.
use oikos.Common.{
  String, Bool, false, not, ◌&&◌, ◌||◌, List, [], ◌∷◌, ◌++◌, Option, none, some, ◌=?◌,
  if◌then◌else◌,
}
use oikos.Common.Exec.{Result, ok, err, Exec}
use oikos.Store.{SftpCredential, Db, StoreError, no_rows, constraint, statement}
use oikos.Store.Servers.{find_server, is_some}

unfoldable pub has_credential : String → List SftpCredential → Bool
has_credential id [] = false
has_credential id (c ∷ rows) = c.id =? id || has_credential id rows

unfoldable pub find_credential : String → List SftpCredential → Option SftpCredential
find_credential username [] = none
find_credential username (c ∷ rows) =
    if c.username =? username then some c else find_credential username rows

unfoldable pub save_sftp_credential : SftpCredential → Exec Db StoreError Unit
save_sftp_credential c = statement λ db.
    if has_credential c.id db.credentials
      || db.foreign_keys && not (is_some (find_server c.server_id db.servers))
    then (err constraint, db)
    else (ok tt, record db { credentials = db.credentials ++ c ∷ [] })

or_no_rows : Option SftpCredential → Result StoreError SftpCredential
or_no_rows none = err no_rows
or_no_rows (some c) = ok c

unfoldable pub get_sftp_credential : String → Exec Db StoreError SftpCredential
unfolding or_no_rows
get_sftp_credential username =
    statement λ db. (or_no_rows (find_credential username db.credentials), db)
