-- ===== src/Backup/Manager.antt =====
-- internal/backup/manager.go.
pub mod Places
pub mod Replacement
pub mod Preserved
pub mod Restoration
pub mod Verification
pub mod Verified
use Prim.Native.String.{◌++◌ as append}
use oikos.Common.{
  ℕ, String, Bool, true, false, not, ◌&&◌, ◌||◌, Option, none, some, List, [], ◌∷◌, ◌++◌, ◌=?◌,
  if◌then◌else◌,
}
use oikos.Common.Int.{ℤ, pos}
use oikos.Common.Exec.{Result, ok, err, Exec, pure, raise, wrap, ◌>>=◌, ◌>>◌}
use oikos.Common.Paths.{FilePath, split_path, clean, dir}
use oikos.Common.Tree.{
  Node, Tree, OsError, is_not_exist, mkdir_all, lstat, remove, remove_all, rename,
}
use oikos.Filesystem.{resolve_path}
use oikos.Store.{Backup}
use oikos.Store.Backups.{save_backup, get_backup, list_backups, update_backup_status, delete_backup}
use oikos.Backup.{
  BackupError, missing_server, stop_unsupported, server_running, checksum_mismatch, not_completed,
  status_error, os_error, Formats, World, Step, on_db, on_os, on_fs, answer, ignore_db, ignore_os,
  try_os, then_ignore,
}
use oikos.Backup.Archive.{create_archive, extract_archive, checksum_file}

pub record BackupOptions : Type 0 where
  pub server_id : String
  pub stop_before_run : Bool

pub record BackupResult : Type 0 where
  pub backup_id : String
  pub size_bytes : ℤ
  pub checksum_sha : String

pub record RestoreOptions : Type 0 where
  pub server_id : String
  pub backup_id : String
  pub target_server_id : String

-- A manager: the root of the servers' files, the root of the backups as a path and as its text,
-- and the status of a server, where there is a provider.
pub record Config : Type 0 where
  pub root : FilePath
  pub backup_root : FilePath
  pub show : FilePath → String
  pub status : Option (String → Result String String)

-- The path of a stored text, which is absolute.
abbrev pub parse : String → FilePath
parse text = clean true (split_path text)

module _ (D : Type 0) (f : Formats D) (cfg : Config) where
  abbrev pub failed : String → ℕ → Step D Unit
  failed id now = ignore_db D (update_backup_status id "failed" "" (pos 0) now)

  -- `result, err := createArchive`: on an error the row is marked and the temporary file removed.
  abbrev pub archived :
      String → ℕ → FilePath → Result BackupError (ℤ × String) → Step D (ℤ × String)
  archived id now temporary (ok made) = pure made
  archived id now temporary (err e) = do failed id now; ignore_os D (remove temporary); raise e

  abbrev pub renamed : String → ℕ → Result OsError Unit → Step D Unit
  renamed id now (ok done) = pure tt
  renamed id now (err e) = do failed id now; raise (os_error e)

  abbrev pub attempt : {A : Type 0} → Step D A → Step D (Result BackupError A)
  attempt m w = let (r, w') = m w in (ok r, w')

  unfoldable pub create : BackupOptions → String → ℕ → Step D BackupResult
  create opts id now =
      if opts.server_id =? ""
      then raise missing_server
      else if opts.stop_before_run
      then raise stop_unsupported
      else do
        let place = cfg.backup_root ++ opts.server_id ∷ []
        let archive = place ++ append id ".tar.gz" ∷ []
        let temporary = place ++ append id ".tar.gz.tmp" ∷ []
        root ← on_fs D (resolve_path D cfg.root opts.server_id ".")
        on_os D (mkdir_all place)
        on_db D (
            save_backup (record {
              id = id;
              server_id = opts.server_id;
              file_path = cfg.show archive;
              size_bytes = pos 0;
              checksum_sha = "";
              status = "creating";
              created_at = now;
              completed_at = none;
            }))
        r ← attempt (create_archive D f root temporary)
        made ← archived id now temporary r
        moved ← try_os D (rename temporary archive)
        renamed id now moved
        on_db D (update_backup_status id "completed" made.1 made.0 now)
        pure (record { backup_id = id; size_bytes = made.0; checksum_sha = made.1 })

  abbrev pub target_of : RestoreOptions → String
  target_of opts = if opts.target_server_id =? "" then opts.server_id else opts.target_server_id

  abbrev pub stopped : Result String String → Step D Unit
  stopped (err e) = raise (status_error e)
  stopped (ok s) = if s =? "stopped" then pure tt else raise server_running

  abbrev pub check_status : Option (String → Result String String) → String → Step D Unit
  check_status none server = pure tt
  check_status (some status) server = stopped (status server)

  -- The row of a completed backup whose archive has the stored checksum.
  unfoldable pub verified : String → Step D Backup
  verified id = do
    b ← on_db D (get_backup id)
    if b.status =? "completed" then pure tt else raise not_completed
    actual ← checksum_file D f (parse b.file_path)
    if actual =? b.checksum_sha then pure b else raise checksum_mismatch

  abbrev pub beside : FilePath → String → FilePath
  beside root name = dir root ++ name ∷ []

  -- `if _, err := os.Stat(root); err == nil`: the old data is set aside.
  abbrev pub set_aside : FilePath → FilePath → Result OsError (Node D) → Step D Unit
  set_aside root previous (ok node) = on_os D (rename root previous)
  set_aside root previous (err e) = pure tt

  -- The new data takes the place of the old, or the old data is put back.
  abbrev pub settle : FilePath → FilePath → Result OsError Unit → Step D Unit
  settle root previous (ok done) = ignore_os D (remove_all previous)
  settle root previous (err e) = do ignore_os D (rename previous root); raise (os_error e)

  unfoldable pub replace : FilePath → FilePath → FilePath → Step D Unit
  replace root staging previous = do
    ignore_os D (remove_all previous)
    there ← try_os D (lstat root)
    set_aside root previous there
    moved ← try_os D (rename staging root)
    settle root previous moved

  -- The archive is extracted beside the data, and takes its place.
  unfoldable pub restored : Backup → FilePath → FilePath → FilePath → Step D Unit
  restored b root staging previous = do
    ignore_os D (remove_all staging)
    on_os D (mkdir_all staging)
    then_ignore D (remove_all staging)
        (do extract_archive D f (parse b.file_path) staging; replace root staging previous)

  unfoldable pub restore : RestoreOptions → Step D Unit
  restore opts =
      let target = target_of opts in
      if target =? "" then raise missing_server else do
        check_status cfg.status target
        b ← verified opts.backup_id
        root ← on_fs D (resolve_path D cfg.root target ".")
        let staging = beside root (append ".restore-" b.id)
        let previous = beside root (append ".previous-" b.id)
        restored b root staging previous

  abbrev results : List Backup → List BackupResult
  results [] = []
  results (b ∷ rows) =
      record { backup_id = b.id; size_bytes = b.size_bytes; checksum_sha = b.checksum_sha }
      ∷ results rows

  unfoldable pub list : String → Step D (List BackupResult)
  list server = do rows ← on_db D (list_backups server); pure (results rows)

  -- An archive that is not there is no error.
  abbrev pub removed : Result OsError Unit → Step D Unit
  removed (ok done) = pure tt
  removed (err e) = if is_not_exist e then pure tt else raise (os_error e)

  unfoldable pub delete : String → Step D Unit
  delete id = do
    b ← on_db D (get_backup id)
    r ← try_os D (remove (parse b.file_path))
    removed r
    on_db D (delete_backup id)
