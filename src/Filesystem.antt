-- ===== src/Filesystem.antt =====
-- internal/filesystem/manager.go: files below the data directory of a server. The root of the
-- manager is an absolute path. `ctx.Err` is looked at by a call that fails if the context is
-- cancelled, and the temporary name of an upload is an argument.
pub mod Resolution
pub mod Links
pub mod Reading
pub mod Confinement
use Prim.Native.Char.{Char, code}
use Prim.Native.String.{String, [] as empty, ◌∷◌ as char_then}
use oikos.Common.{
  Bool, true, false, not, ◌&&◌, ◌||◌, List, [], ◌∷◌, ◌++◌, ◌=?◌, ◌==◌, leb, if◌then◌else◌,
}
use oikos.Common.Exec.{Result, ok, err, Exec, pure, raise, wrap, ◌>>=◌, ◌>>◌}
use oikos.Common.Paths.{FilePath, has_code, is_abs, split_path, clean, join, rel, dir, leads_out}
use oikos.Common.Tree.{
  Node, directory, file, symlink, Tree, OsError, not_exist, os_failure, system_call, mkdir_all,
  lstat, create_new, write_to, open_file, read_from, read_dir, remove, remove_all, rename,
}

pub data FsError : Type 0 where
  path_outside_root not_found permission server_not_found quota_exceeded : FsError
  cancelled : FsError
  read_failed : FsError
  os_error : OsError → FsError

-- The size, time and mode of a file are left out.
pub record FileInfo : Type 0 where
  pub name : String
  pub path : FilePath
  pub is_dir : Bool

-- [A-Za-z0-9_-]
abbrev is_id_char : Char → Bool
is_id_char c =
    let n = code c in
    leb 65 n && leb n 90 || leb 97 n && leb n 122 || leb 48 n && leb n 57 || n == 95 || n == 45

unfoldable pub all_id_chars : String → Bool
all_id_chars empty = true
all_id_chars (char_then c s) = is_id_char c && all_id_chars s

-- validServerID
abbrev pub valid_server_id : String → Bool
valid_server_id id = not (id =? "") && all_id_chars id

-- What is uploaded, and whether reading it fails before its end.
pub record Reader (D : Type 0) : Type 0 where
  pub content : D
  pub fails : Bool

-- filepath.Join of the root of the manager, the id and "data"
unfoldable pub data_root : FilePath → String → FilePath
data_root root server = join root (server ∷ "data" ∷ [])

module _ (D : Type 0) where
  abbrev pub Step : Type 0 → Type 0
  Step A = Exec (Tree D) FsError A

  abbrev pub os : {A : Type 0} → Exec (Tree D) OsError A → Step A
  os m t = let (r, t') = m t in (wrap os_error r, t')

  -- A call whose error the caller looks at.
  abbrev pub try : {A : Type 0} → Exec (Tree D) OsError A → Step (Result OsError A)
  try m t = let (r, t') = m t in (ok r, t')

  -- `os.IsNotExist` turned into the manager's own error.
  abbrev pub or_not_found : {A : Type 0} → Result OsError A → Step A
  or_not_found (ok a) = pure a
  or_not_found (err not_exist) = raise not_found
  or_not_found (err os_failure) = raise (os_error os_failure)

  abbrev pub cancel : {A : Type 0} → Result OsError A → Step A
  cancel (ok a) = pure a
  cancel (err e) = raise cancelled

  unfoldable pub check_context : Step Unit
  check_context = do r ← try (system_call (pure tt)); cancel r

  unfoldable pub server_root : FilePath → String → Step FilePath
  server_root root server =
      if valid_server_id server then pure (data_root root server) else raise server_not_found

  -- What os.Lstat says of a component; one that is missing ends the loop.
  abbrev pub judge : Step Unit → Result OsError (Node D) → Step Unit
  judge below (err not_exist) = pure tt
  judge below (err os_failure) = raise (os_error os_failure)
  judge below (ok symlink) = raise path_outside_root
  judge below (ok directory) = below
  judge below (ok (file d)) = below

  -- The loop over the components below the root.
  unfoldable pub reject_symlinks : FilePath → List String → Step Unit
  reject_symlinks current [] = pure tt
  reject_symlinks current (part ∷ parts) =
      let skipped = reject_symlinks current parts in
      let below = reject_symlinks (join current (part ∷ [])) parts in
      if part =? "" || part =? "."
      then skipped
      else do info ← try (lstat (join current (part ∷ []))); judge below info

  -- A path with a NUL or a backslash is refused.
  abbrev pub refused : String → Bool
  refused path = is_abs path || has_code 0 path || has_code 92 path

  unfoldable pub contained : FilePath → FilePath → Step FilePath
  contained base target =
      if leads_out (rel base target)
      then raise path_outside_root
      else do reject_symlinks base (rel base target); pure target

  unfoldable pub resolve_path : FilePath → String → String → Step FilePath
  resolve_path root server path = do
    base ← server_root root server
    if refused path
        then raise path_outside_root
        else contained base (join base (clean false (split_path path)))

  unfoldable pub ensure_root : FilePath → String → Step FilePath
  ensure_root root server = do base ← server_root root server; os (mkdir_all base); pure base

  abbrev pub is_folder : Node D → Bool
  is_folder directory = true
  is_folder symlink = false
  is_folder (file d) = false

  -- The loop over the entries of a directory.
  unfoldable pub describe : FilePath → FilePath → List (String × Node D) → Step (List FileInfo)
  describe base target [] = pure []
  describe base target ((name, node) ∷ entries) = do
    check_context
    os (system_call (pure tt))
    rest ← describe base target entries
    pure (
        record { name = name; path = rel base (join target (name ∷ [])); is_dir = is_folder node }
        ∷ rest)

  unfoldable pub list : FilePath → String → String → Step (List FileInfo)
  list root server path = do
    check_context
    target ← resolve_path root server path
    r ← try (read_dir target)
    entries ← or_not_found r
    describe (data_root root server) target entries

  unfoldable pub read : FilePath → String → String → Step (Node D)
  read root server path = do
    check_context
    target ← resolve_path root server path
    r ← try (open_file target)
    or_not_found r

  -- `defer os.Remove(name)`: its own error is ignored.
  unfoldable pub then_remove : {A : Type 0} → FilePath → Step A → Step A
  then_remove name m t = let (r, t') = m t in (r, (remove name t').1)

  -- Chmod, Sync, Close and Rename.
  abbrev pub publish : FilePath → FilePath → Step Unit
  publish name target = do
    os (system_call (pure tt))
    os (system_call (pure tt))
    os (system_call (pure tt))
    os (rename name target)

  -- io.Copy into the temporary file, and what follows it.
  unfoldable pub fill : FilePath → FilePath → Reader D → Step Unit
  fill name target reader = do
    os (write_to name reader.content)
    if reader.fails then raise read_failed else pure tt
    publish name target

  module _ (blank : D) (temporary : String) where
    abbrev pub upload_name : FilePath → FilePath
    upload_name target = dir target ++ temporary ∷ []

    -- Write up to the copy of the content: the path, and an empty temporary file beside it.
    unfoldable pub prepare : FilePath → String → String → Step FilePath
    prepare root server path = do
      check_context
      ensure_root root server
      target ← resolve_path root server path
      os (mkdir_all (dir target))
      os (create_new (upload_name target) blank)
      pure target

    unfoldable pub write : FilePath → String → String → Reader D → Step Unit
    write root server path reader = do
      target ← prepare root server path
      then_remove (upload_name target) (fill (upload_name target) target reader)

    abbrev pub reader_of : Result OsError D → Reader D
    reader_of (ok d) = record { content = d; fails = false }
    reader_of (err e) = record { content = blank; fails = true }

    unfoldable pub copy : FilePath → String → String → String → Step Unit
    copy root server from to = do
      source ← read root server from
      write root server to (reader_of (read_from source))

  unfoldable pub delete : FilePath → String → String → Bool → Step Unit
  delete root server path recursive = do
    check_context
    target ← resolve_path root server path
    r ← try (lstat target)
    info ← or_not_found r
    if is_folder info && recursive then os (remove_all target) else os (remove target)

  unfoldable pub move : FilePath → String → String → String → Step Unit
  move root server from to = do
    check_context
    old ← resolve_path root server from
    new ← resolve_path root server to
    os (mkdir_all (dir new))
    os (rename old new)

  unfoldable pub create_dir : FilePath → String → String → Step Unit
  create_dir root server path = do
    check_context
    target ← resolve_path root server path
    os (mkdir_all target)
