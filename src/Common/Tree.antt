-- ===== src/Common/Tree.antt =====
-- A tree of files and directories, and the system calls on it. A call may fail for a reason of the
-- system (`faults`), and then changes nothing, os.RemoveAll included. Paths are looked up as they
-- are written: that no directory above a path in use is a symbolic link is for the code to see to.
pub mod Lookups
pub mod Confined
pub mod Holding
pub mod Renaming
use Prim.Native.String.{String}
use mathlib.Core.Path.{◌≡◌, refl}
use mathlib.Core.Bool.{Bool, true, false, not, ◌&&◌, ◌||◌}
use mathlib.Core.List.{List, [], ◌∷◌, ◌++◌}
use mathlib.Core.Option.{Option, none, some}
use oikos.Common.Tests.{if◌then◌else◌}
use oikos.Common.Exec.{Result, ok, err, Exec, pure, ◌>>=◌}
use oikos.Common.Paths.{
  FilePath, dir, same_path, is_below, rebase, lineage_from, last_part, path_ltb,
}
use oikos.Common.Sort.{sort_by}

-- Where a symbolic link points is left out.
pub data Node (D : Type 0) : Type 0 where
  directory : Node D
  file : D → Node D
  symlink : Node D

pub data OsError : Type 0 where
  not_exist os_failure : OsError

-- os.IsNotExist
abbrev pub is_not_exist : OsError → Bool
is_not_exist not_exist = true
is_not_exist os_failure = false

abbrev pub Entries : Type 0 → Type 0
Entries D = List (FilePath × Node D)

pub record Tree (D : Type 0) : Type 0 where
  pub entries : Entries D
  pub faults : List Bool

module _ {D : Type 0} where
  unfoldable pub node_at : FilePath → Entries D → Option (Node D)
  node_at p [] = none
  node_at p ((q, n) ∷ es) = if same_path q p then some n else node_at p es

  unfoldable pub drop_at : FilePath → Entries D → Entries D
  drop_at p [] = []
  drop_at p ((q, n) ∷ es) = let rest = drop_at p es in if same_path q p then rest else (q, n) ∷ rest

  unfoldable pub put_at : FilePath → Node D → Entries D → Entries D
  put_at p n es = (p, n) ∷ drop_at p es

  -- Without `p` and what lies below it.
  unfoldable pub drop_below : FilePath → Entries D → Entries D
  drop_below p [] = []
  drop_below p ((q, n) ∷ es) =
      let rest = drop_below p es in if is_below p q then rest else (q, n) ∷ rest

  unfoldable pub move_below : FilePath → FilePath → Entries D → Entries D
  move_below from to [] = []
  move_below from to ((q, n) ∷ es) =
      (if is_below from q then rebase from to q else q, n) ∷ move_below from to es

  unfoldable pub insert_path : FilePath × Node D → Entries D → Entries D
  insert_path e [] = e ∷ []
  insert_path e (f ∷ fs) =
      let rest = insert_path e fs in if path_ltb f.0 e.0 then f ∷ rest else e ∷ f ∷ fs

  unfoldable pub has_children : FilePath → Entries D → Bool
  has_children p [] = false
  has_children p ((q, n) ∷ es) = is_below p q && not (same_path p q) || has_children p es

  abbrev pub is_directory : Option (Node D) → Bool
  is_directory (some directory) = true
  is_directory (some (file d)) = false
  is_directory (some symlink) = false
  is_directory none = false

  abbrev pub is_there : Option (Node D) → Bool
  is_there none = false
  is_there (some n) = true

  -- os.MkdirAll stops where something on the way is no directory.
  unfoldable pub make_all : List FilePath → Exec (Tree D) OsError Unit
  make_all [] t = (ok tt, t)
  make_all (p ∷ ps) t =
      let made = make_all ps (record t { entries = put_at p directory t.entries }) in
      let present = make_all ps t in
      if is_directory (node_at p t.entries)
      then present
      else if is_there (node_at p t.entries)
      then (err os_failure, t)
      else made

module _ {D A : Type 0} where
  attempt : List Bool → Exec (Tree D) OsError A → Exec (Tree D) OsError A
  attempt [] body t = body t
  attempt (true ∷ fs) body t = (err os_failure, record t { faults = fs })
  attempt (false ∷ fs) body t = body (record t { faults = fs })

  unfoldable pub system_call : Exec (Tree D) OsError A → Exec (Tree D) OsError A
  unfolding attempt
  system_call body t = attempt t.faults body t

module _ {D : Type 0} where
  unfoldable pub mkdir_all : FilePath → Exec (Tree D) OsError Unit
  mkdir_all p = system_call (make_all (lineage_from [] p))

  abbrev pub found : Option (Node D) → Result OsError (Node D)
  found none = err not_exist
  found (some n) = ok n

  unfoldable pub lstat : FilePath → Exec (Tree D) OsError (Node D)
  lstat p = system_call λ t. (found (node_at p t.entries), t)

  -- A file that must be new, in a directory that must be there.
  unfoldable pub create_new : FilePath → D → Exec (Tree D) OsError Unit
  create_new p blank = system_call λ t.
      if not (is_directory (node_at (dir p) t.entries))
      then (err not_exist, t)
      else if is_there (node_at p t.entries)
      then (err os_failure, t)
      else (ok tt, record t { entries = put_at p (file blank) t.entries })

  -- os.OpenFile with O_CREATE and O_TRUNC
  unfoldable pub open_truncated : FilePath → D → Exec (Tree D) OsError Unit
  open_truncated p blank = system_call λ t.
      if not (is_directory (node_at (dir p) t.entries))
      then (err not_exist, t)
      else if is_directory (node_at p t.entries)
      then (err os_failure, t)
      else (ok tt, record t { entries = put_at p (file blank) t.entries })

  -- The nodes below a path, in the order of filepath.Walk.
  unfoldable pub below : FilePath → Entries D → Entries D
  below p [] = []
  below p ((q, n) ∷ es) =
      let rest = below p es in
      if is_below p q && not (same_path p q) then insert_path (q, n) rest else rest

  -- Written through the handle of the file.
  unfoldable pub write_to : FilePath → D → Exec (Tree D) OsError Unit
  write_to p content =
      system_call λ t. (ok tt, record t { entries = put_at p (file content) t.entries })

  -- The entries right below a path, with their names.
  unfoldable pub children : FilePath → Entries D → List (String × Node D)
  children p [] = []
  children p ((q, n) ∷ es) =
      let rest = children p es in
      if same_path (dir q) p && not (same_path q p) then (last_part q, n) ∷ rest else rest

  -- os.ReadDir
  unfoldable pub read_dir : FilePath → Exec (Tree D) OsError (List (String × Node D))
  read_dir p = system_call λ t. (
    if is_directory (node_at p t.entries)
        then ok (sort_by (λ e. e.0) (children p t.entries))
        else if is_there (node_at p t.entries)
        then err os_failure
        else err not_exist,
    t,
  )

  -- os.Open, of a directory too
  unfoldable pub open_file : FilePath → Exec (Tree D) OsError (Node D)
  open_file p = system_call λ t. (found (node_at p t.entries), t)

  -- What is read through a handle.
  abbrev pub read_from : Node D → Result OsError D
  read_from directory = err os_failure
  read_from symlink = err os_failure
  read_from (file d) = ok d

  unfoldable pub remove : FilePath → Exec (Tree D) OsError Unit
  remove p = system_call λ t.
      if not (is_there (node_at p t.entries))
      then (err not_exist, t)
      else if has_children p t.entries
      then (err os_failure, t)
      else (ok tt, record t { entries = drop_at p t.entries })

  unfoldable pub remove_all : FilePath → Exec (Tree D) OsError Unit
  remove_all p = system_call λ t. (ok tt, record t { entries = drop_below p t.entries })

  -- A directory may take the place of an empty directory, a file that of a file.
  unfoldable pub may_replace : Option (Node D) → Option (Node D) → Bool → Bool
  may_replace old none busy = true
  may_replace old (some n) busy =
      if is_directory old then is_directory (some n) && not busy else not (is_directory (some n))

  unfoldable pub rename : FilePath → FilePath → Exec (Tree D) OsError Unit
  rename from to = system_call λ t.
      if not (is_there (node_at from t.entries)) || not (is_directory (node_at (dir to) t.entries))
      then (err not_exist, t)
      else if same_path from to
      then (ok tt, t)
      else if is_below from to
          || not (
              may_replace (node_at from t.entries) (node_at to t.entries)
                (has_children to t.entries))
      then (err os_failure, t)
      else (ok tt, record t { entries = move_below from to (drop_below to t.entries) })
