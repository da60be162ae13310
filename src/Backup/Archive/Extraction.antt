-- ===== src/Backup/Archive/Extraction.antt =====
-- The extraction of an archive, in internal/backup/restore.go, writes below its directory only.
use oikos.Common.{Bool, true, false, ◌≡◌, Option, none, some, List, [], ◌∷◌}
use oikos.Common.Exec.{Result, ok, err, Exec}
use oikos.Common.Keeps.{Keeps, Keeps-pure, Keeps-raise, Keeps-if, Keeps-decide, Keeps-bind}
use oikos.Common.Paths.{
  FilePath, is_abs, split_path, clean, join, rel, dir, leads_out, same_path, is_below, rel-is_below,
}
use oikos.Common.Tree.{Node, Tree, Entries, OsError, system_call, open_file}
use oikos.Common.Tree.Lookups.{not_same}
use oikos.Common.Tree.Confined.{Keeps-system_call}
use oikos.Common.Tree.Holding.{Holds, Holds-mkdir_all, Holds-open_truncated, Holds-write_to}
use oikos.Backup.{
  EntryKind, folder, regular, link, other, Entry, Formats, Step, on_os, on_db, try_os, ignore_os,
}
use oikos.Store.{Db, StoreError}
use oikos.Backup.Archive.{
  read_all, checksum_file, cancel, check_context, escapes, extract_file, extract_kind,
  extract_entry, extract_all, unpacked, extract_archive,
}

module _ {D : Type 0} (P : Entries D → Type 0) where
  -- A step that keeps `P` of the tree.
  abbrev pub Safe : {A : Type 0} → Step D A → Type 0
  Safe m = Keeps (λ w. P w.tree.entries) m

  abbrev pub SafeCall : {A : Type 0} → Exec (Tree D) OsError A → Type 0
  SafeCall m = Keeps (λ t. P t.entries) m

  pub Safe-on_os : {A : Type 0} (m : Exec (Tree D) OsError A) → SafeCall m → Safe (on_os D m)
  Safe-on_os m h = record { at = λ w p. h.at w.tree p }

  pub Safe-try_os : {A : Type 0} (m : Exec (Tree D) OsError A) → SafeCall m → Safe (try_os D m)
  Safe-try_os m h = record { at = λ w p. h.at w.tree p }

  pub Safe-ignore_os :
      {A : Type 0} (m : Exec (Tree D) OsError A) → SafeCall m → Safe (ignore_os D m)
  Safe-ignore_os m h = record { at = λ w p. h.at w.tree p }

  pub Safe-on_db : {A : Type 0} (m : Exec Db StoreError A) → Safe (on_db D m)
  Safe-on_db m = record { at = λ w p. p }

  pub Safe-look :
      {A : Type 0} (r : Tree D → Result OsError A) → SafeCall (system_call (λ t. (r t, t)))
  Safe-look r = Keeps-system_call P _ (record { at = λ t h. h })

  module _ (f : Formats D) where
    pub Safe-read_all : (node : Node D) → Safe (read_all D f node)
    Safe-read_all node = record { at = λ w p. p }

    pub Safe-checksum_file : (path : FilePath) → Safe (checksum_file D f path)
    unfolding checksum_file open_file
    Safe-checksum_file path =
        Keeps-bind _ _ (Safe-on_os _ (Safe-look _))
          λ node. Keeps-bind _ _ (Safe-read_all node) λ content. Keeps-pure _

    Safe-cancel : {A : Type 0} (r : Result OsError A) → Safe (cancel D f r)
    Safe-cancel (ok a) = Keeps-pure tt
    Safe-cancel (err e) = Keeps-raise _

    Safe-check_context : Safe (check_context D f)
    unfolding check_context
    Safe-check_context = Keeps-bind _ _ (Safe-try_os _ (Safe-look _)) λ r. Safe-cancel r

module _ {D : Type 0} (f : Formats D) (here staging : FilePath) (n : Node D)
    (apart : is_below staging here ≡ false) where
  abbrev P : Entries D → Type 0
  P = Holds here n

  elsewhere : (target : FilePath) → is_below staging target ≡ true → same_path target here ≡ false
  elsewhere target below = not_same here staging target below apart

  Safe-extract_file :
      (target : FilePath) (e : Entry D)
      → is_below staging target ≡ true
      → Safe P (extract_file D f target e)
  unfolding extract_file
  Safe-extract_file target e below =
      Keeps-bind _ _ (Safe-on_os P _ (Holds-mkdir_all here n (dir target))) λ a.
        Keeps-bind _ _
          (Safe-on_os P _ (Holds-open_truncated here n target f.blank (elsewhere target below)))
          λ b.
            Keeps-bind _ _
              (Safe-on_os P _ (Holds-write_to here n target e.body (elsewhere target below)))
              λ c.
                Keeps-bind _ _ (Keeps-if e.broken _ _ (Keeps-raise _) (Keeps-pure tt))
                  λ d. Safe-on_os P _ (Safe-look P _)

  Safe-extract_kind :
      (k : EntryKind) (target : FilePath) (e : Entry D)
      → is_below staging target ≡ true
      → Safe P (extract_kind D f k target e)
  Safe-extract_kind link target e below = Keeps-raise _
  Safe-extract_kind folder target e below = Safe-on_os P _ (Holds-mkdir_all here n target)
  Safe-extract_kind regular target e below = Safe-extract_file target e below
  Safe-extract_kind other target e below = Keeps-raise _

  Safe-extract_entry : (e : Entry D) → Safe P (extract_entry D f staging e)
  unfolding extract_entry
  Safe-extract_entry e =
      let name = clean false (split_path e.name) in
      Keeps-if (escapes D f (is_abs e.name) name) _ _ (Keeps-raise _) (
        Keeps-decide (leads_out (rel staging (join staging name))) _ _ (λ out. Keeps-raise _)
          (λ stays.
            Safe-extract_kind e.kind (join staging name) e
              (rel-is_below staging (join staging name) stays)))

  Safe-extract_all :
      (es : List (Entry D)) (complete : Bool) → Safe P (extract_all D f staging es complete)
  unfolding extract_all
  Safe-extract_all [] complete =
      Keeps-bind _ _ (Safe-check_context P f)
        λ a. Keeps-if complete _ _ (Keeps-pure tt) (Keeps-raise _)
  Safe-extract_all (e ∷ es) complete =
      let rest = Safe-extract_all es complete in
      Keeps-bind _ _ (Safe-check_context P f) λ a. Keeps-bind _ _ (Safe-extract_entry e) λ b. rest

  Safe-unpacked : (o : Option (List (Entry D) × Bool)) → Safe P (unpacked D f o staging)
  Safe-unpacked none = Keeps-raise _
  Safe-unpacked (some (es, complete)) = Safe-extract_all es complete

  -- A node that is not below the directory stays.
  pub Safe-extract_archive : (path : FilePath) → Safe P (extract_archive D f path staging)
  unfolding extract_archive open_file
  Safe-extract_archive path =
      Keeps-bind _ _ (Safe-on_os P _ (Safe-look P _))
        λ node. Keeps-bind _ _ (Safe-read_all P f node) λ content. Safe-unpacked (f.unpack content)
