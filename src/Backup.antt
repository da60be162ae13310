-- ===== src/Backup.antt =====
-- internal/backup: backups of the data directories of servers, in the database and on the tree of
-- files. The tar and gzip libraries, SHA-256, random ids and the clock are parameters. The id of a
-- backup is one component of a path.
pub mod Archive
pub mod Manager
use Prim.Native.String.{◌++◌ as append}
use oikos.Common.{ℕ, String, Bool, List, [], ◌∷◌, Option}
use oikos.Common.Int.{ℤ}
use oikos.Common.Exec.{Result, ok, err, Exec, wrap}
use oikos.Common.Paths.{FilePath}
use oikos.Common.Tree.{Tree, Entries, OsError}
use oikos.Filesystem.{FsError}
use oikos.Store.{Db, StoreError}

pub data BackupError : Type 0 where
  missing_server stop_unsupported server_running checksum_mismatch not_completed : BackupError
  bad_archive escaping_entry linked_entry unknown_entry cancelled : BackupError
  status_error : String → BackupError
  store_error : StoreError → BackupError
  fs_error : FsError → BackupError
  os_error : OsError → BackupError

pub data EntryKind : Type 0 where
  folder regular link other : EntryKind

-- What the tar reader gives: a header, the body as far as it can be read, and whether that fails.
pub record Entry (D : Type 0) : Type 0 where
  pub name : String
  pub kind : EntryKind
  pub body : D
  pub broken : Bool

-- `unpack` is none for what is no gzip file, and otherwise the entries with whether the archive
-- ends well; `pack` is what the writers make of the nodes below a directory.
pub record Formats (D : Type 0) : Type 0 where
  pub blank : D
  pub checksum : D → String
  pub size : D → ℤ
  pub pack : FilePath → Entries D → D
  pub unpack : D → Option (List (Entry D) × Bool)

pub record World (D : Type 0) : Type 0 where
  pub db : Db
  pub tree : Tree D

module _ (D : Type 0) where
  abbrev pub Step : Type 0 → Type 0
  Step A = Exec (World D) BackupError A

  abbrev pub on_db : {A : Type 0} → Exec Db StoreError A → Step A
  on_db m w = let (r, db) = m w.db in (wrap store_error r, record w { db = db })

  abbrev pub on_os : {A : Type 0} → Exec (Tree D) OsError A → Step A
  on_os m w = let (r, t) = m w.tree in (wrap os_error r, record w { tree = t })

  abbrev pub on_fs : {A : Type 0} → Exec (Tree D) FsError A → Step A
  on_fs m w = let (r, t) = m w.tree in (wrap fs_error r, record w { tree = t })

  abbrev pub answer : {A : Type 0} → Result BackupError A → Step A
  answer r w = (r, w)

  -- A call whose error is ignored, or looked at by the caller.
  abbrev pub ignore_db : {A : Type 0} → Exec Db StoreError A → Step Unit
  ignore_db m w = let (r, db) = m w.db in (ok tt, record w { db = db })

  abbrev pub ignore_os : {A : Type 0} → Exec (Tree D) OsError A → Step Unit
  ignore_os m w = let (r, t) = m w.tree in (ok tt, record w { tree = t })

  abbrev pub try_os : {A : Type 0} → Exec (Tree D) OsError A → Step (Result OsError A)
  try_os m w = let (r, t) = m w.tree in (ok r, record w { tree = t })

  -- `defer`: run last, its own error ignored.
  unfoldable pub then_ignore : {A : Type 0} → Exec (Tree D) OsError Unit → Step A → Step A
  then_ignore last m w = let (r, w') = m w in (r, record w' { tree = (last w'.tree).1 })
