-- ===== src/Backup/Archive.antt =====
-- internal/backup/archive.go and restore.go: archives of a directory.
pub mod Extraction
use oikos.Common.{
  ℕ, String, Bool, true, false, not, ◌&&◌, ◌||◌, Option, none, some, List, [], ◌∷◌, ◌=?◌,
  if◌then◌else◌,
}
use oikos.Common.Int.{ℤ}
use oikos.Common.Exec.{Result, ok, err, Exec, pure, raise, wrap, ◌>>=◌, ◌>>◌}
use oikos.Common.Paths.{FilePath, is_abs, split_path, clean, join, rel, dir, leads_out}
use oikos.Common.Tree.{
  Node, directory, file, symlink, Tree, Entries, OsError, system_call, mkdir_all, lstat,
  open_truncated, write_to, open_file, read_from, below,
}
use oikos.Backup.{
  BackupError, bad_archive, escaping_entry, linked_entry, unknown_entry, cancelled, os_error,
  EntryKind, folder, regular, link, other, Entry, Formats, World, Step, on_os, try_os, answer,
}

module _ (D : Type 0) (f : Formats D) where
  abbrev pub read_all : Node D → Step D D
  read_all node = answer D (wrap os_error (read_from node))

  unfoldable pub checksum_file : FilePath → Step D String
  checksum_file path = do
    node ← on_os D (open_file path)
    content ← read_all node
    pure (f.checksum content)

  abbrev pub cancel : {A : Type 0} → Result OsError A → Step D Unit
  cancel (ok a) = pure tt
  cancel (err e) = raise cancelled

  unfoldable pub check_context : Step D Unit
  check_context = do r ← try_os D (system_call (pure tt)); cancel r

  -- The name of an entry is ".", absolute, or leads out of the directory.
  abbrev pub escapes : Bool → List String → Bool
  escapes absolute [] = true
  escapes absolute (part ∷ parts) = absolute || part =? ".."

  unfoldable pub extract_file : FilePath → Entry D → Step D Unit
  extract_file target e = do
    on_os D (mkdir_all (dir target))
    on_os D (open_truncated target f.blank)
    on_os D (write_to target e.body)
    if e.broken then raise bad_archive else pure tt
    on_os D (system_call (pure tt))

  abbrev pub extract_kind : EntryKind → FilePath → Entry D → Step D Unit
  extract_kind link target e = raise linked_entry
  extract_kind folder target e = on_os D (mkdir_all target)
  extract_kind regular target e = extract_file target e
  extract_kind other target e = raise unknown_entry

  -- One round of the loop, for the entry of a header.
  unfoldable pub extract_entry : FilePath → Entry D → Step D Unit
  extract_entry root e =
      let name = clean false (split_path e.name) in
      let target = join root name in
      if escapes (is_abs e.name) name
      then raise escaping_entry
      else if leads_out (rel root target)
      then raise escaping_entry
      else extract_kind e.kind target e

  unfoldable pub extract_all : FilePath → List (Entry D) → Bool → Step D Unit
  extract_all root [] complete = do check_context; if complete then pure tt else raise bad_archive
  extract_all root (e ∷ es) complete = do
    check_context
    extract_entry root e
    extract_all root es complete

  abbrev pub unpacked : Option (List (Entry D) × Bool) → FilePath → Step D Unit
  unpacked none root = raise bad_archive
  unpacked (some (es, complete)) root = extract_all root es complete

  unfoldable pub extract_archive : FilePath → FilePath → Step D Unit
  extract_archive path root = do
    node ← on_os D (open_file path)
    content ← read_all node
    unpacked (f.unpack content) root

  -- The callback of filepath.Walk on the nodes below the directory.
  unfoldable pub add_entries : Entries D → Step D Unit
  add_entries [] = pure tt
  add_entries ((path, directory) ∷ es) = do check_context; add_entries es
  add_entries ((path, symlink) ∷ es) = do check_context; raise linked_entry
  add_entries ((path, file d) ∷ es) = do
    check_context
    on_os D (system_call (pure tt))
    add_entries es

  abbrev pub nodes_below : FilePath → Step D (Entries D)
  nodes_below root w = (ok (below root w.tree.entries), w)

  -- The size and the checksum of the archive; one that is not finished holds `blank`.
  unfoldable pub create_archive : FilePath → FilePath → Step D (ℤ × String)
  create_archive root dest = do
    on_os D (open_truncated dest f.blank)
    on_os D (lstat root)
    nodes ← nodes_below root
    add_entries nodes
    on_os D (write_to dest (f.pack root nodes))
    on_os D (system_call (pure tt))
    on_os D (system_call (pure tt))
    on_os D (system_call (pure tt))
    pure (f.size (f.pack root nodes), f.checksum (f.pack root nodes))
