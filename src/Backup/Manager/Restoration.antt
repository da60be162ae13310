-- ===== src/Backup/Manager/Restoration.antt =====
-- Restore of internal/backup/manager.go loses no file if it fails.
use Prim.Native.String.{count, ◌++◌ as append}
use mathlib.Core.Path.{subst}
use text.Mathlib.TextLemmas.{length-append}
use oikos.Common.{
  String, false, ◌≡◌, ◌≢◌, ◌⊎◌, inl, ap, sym, refl, arith, eq_iff, Option, none, some, List, [],
  ◌∷◌, ◌++◌, ◌=?◌, ne→=?_false,
}
use oikos.Common.Exec.{Result, ok, err, wrap}
use oikos.Common.Keeps.{Keeps-pure, Keeps-raise, Keeps-if, Keeps→Triple}
use oikos.Common.Triples.{Outcome, Triple, Triple-bind, Triple-pure, Triple-raise, Triple-if}
use oikos.Common.Paths.{FilePath}
use oikos.Common.Tree.{directory, file, Tree, node_at}
use oikos.Common.Tree.Holding.{Holds}
use oikos.Common.Tree.Renaming.{Busy}
use oikos.Filesystem.{FsError, data_root, resolve_path}
use oikos.Filesystem.Resolution.{Under, Kept, Gives-resolve_path}
use oikos.Store.{Backup, Db, StoreError}
use oikos.Store.Backups.{find_backup, get_backup, or_no_rows}
use oikos.Store.Statements.{Triple-statement}
use oikos.Backup.{BackupError, fs_error, store_error, Formats, World, Step, on_db, on_fs}
use oikos.Backup.Archive.Extraction.{Safe, Safe-checksum_file}
use oikos.Backup.Manager.{
  Config, RestoreOptions, target_of, stopped, check_status, parse, beside, verified, restored,
  restore,
}
use oikos.Backup.Manager.Preserved.{restoring}
use oikos.Backup.Manager.Places.{dir-append, place_of, above, place_of-data}

different : (s t : String) → count s ≢ count t → (s =? t) ≡ false
different s t h = ne→=?_false s t (λ e. h (ap count e))

id-find_backup :
    (id : String) (rows : List Backup) {b : Backup} → find_backup id rows ≡ some b → b.id ≡ id
unfolding find_backup
id-find_backup id [] h = cc
id-find_backup id (r ∷ rows) {b} h = ground (arith, id-find_backup id rows {b = b}, eq_iff r.id id)

Triple-get_backup :
    (id : String) → Triple (λ db. Unit) (λ b db. b.id ≡ id) (λ e db. Unit) (get_backup id)
unfolding get_backup or_no_rows
Triple-get_backup id =
    Triple-statement _ _ _ _ (λ db fs h. tt) (λ db h. tt)
      (record { at = λ db h. named (find_backup id db.backups) db refl })
  where
    named :
        (o : Option Backup) (db : Db)
        → find_backup id db.backups ≡ o
        → Outcome (λ b db. b.id ≡ id) (λ e db. Unit) (or_no_rows o) db
    named none db h = tt
    named (some b) db h = id-find_backup id db.backups h

module _ (D : Type 0) (f : Formats D) (cfg : Config) (opts : RestoreOptions) (x : String)
    (p : FilePath) (d : D) where
  abbrev place : FilePath
  place = place_of cfg.root (target_of D f cfg opts)

  abbrev new_name : String → String
  new_name id = append ".restore-" id

  abbrev old_name : String → String
  old_name id = append ".previous-" id

  -- The file at its place, in a directory that is there; and the two places where it is not lost.
  abbrev AtPlace : World D → Type 0
  AtPlace w = Busy (file d) place x p w.tree.entries

  abbrev EitherAt : FilePath → FilePath → World D → Type 0
  EitherAt root previous w =
      Holds (root ++ x ∷ p) (file d) w.tree.entries
      ⊎ Holds (previous ++ x ∷ p) (file d) w.tree.entries

  abbrev Either : World D → Type 0
  Either = EitherAt place (beside D f cfg place (old_name opts.backup_id))

  abbrev Restores : FilePath → FilePath → FilePath → Backup → Type 0
  Restores root staging previous b =
      Triple (λ w. Busy (file d) root x p w.tree.entries) (λ a w. Unit)
        (λ e. EitherAt root previous) (restored D f cfg b root staging previous)

  Restores-beside :
      (b : Backup) (id : String) (front : FilePath) (root : FilePath)
      → root ≡ front ++ "data" ∷ []
      → Restores root (beside D f cfg root (new_name id)) (beside D f cfg root (old_name id)) b
  Restores-beside b id front root e =
      subst (λ r. Restores r (beside D f cfg r (new_name id)) (beside D f cfg r (old_name id)) b)
        (sym e)
        (subst
          (λ q. Restores (front ++ "data" ∷ []) (q ++ new_name id ∷ []) (q ++ old_name id ∷ []) b)
          (sym (dir-append front "data"))
          (restoring D f cfg front "data" (new_name id) (old_name id) x p d
            (different (new_name id) "data" (λ h. omega (arith, h, length-append ".restore-" id)))
            (different (old_name id) "data" (λ h. omega (arith, h, length-append ".previous-" id)))
            (different "data" (old_name id) (λ h. omega (arith, h, length-append ".previous-" id)))
            (different (new_name id) (old_name id)
              (λ h. omega (arith, h, length-append ".restore-" id, length-append ".previous-" id)))
            b))

  kept :
      {A : Type 0} (m : Step D A)
      → Safe (Busy (file d) place x p) m
      → Triple AtPlace (λ a. AtPlace) (λ e. Either) m
  kept m h = Keeps→Triple AtPlace (λ a. AtPlace) (λ e. Either) m h (λ a w k. k) (λ e w k. inl k.1)

  -- A row of the database is read without a change of the files.
  read_row :
      (id : String)
      → Triple AtPlace (λ b w. AtPlace w × (b.id ≡ id)) (λ e. Either) (on_db D (get_backup id))
  read_row id = record {
    at = λ w h.
        answered w h (get_backup id w.db).0 (get_backup id w.db).1
          ((Triple-get_backup id).at w.db tt);
  }
    where
      answered :
          (w : World D)
          → AtPlace w
          → (r : Result StoreError Backup) (db : Db)
          → Outcome (λ b db. b.id ≡ id) (λ e db. Unit) r db
          → Outcome
              (λ b w. AtPlace w × (b.id ≡ id))
              (λ e. Either)
              (wrap {F = BackupError} store_error r)
              (record w { db = db })
      answered w h (ok b) db k = (h, k)
      answered w h (err e) db k = inl h.1

  resolving :
      Triple AtPlace
        (λ root w. AtPlace w × (root ≡ place))
        (λ e. Either)
        (on_fs D (resolve_path D cfg.root (target_of D f cfg opts) "."))
  resolving = record {
    at = λ w h.
        answered w (resolve_path D cfg.root (target_of D f cfg opts) "." w.tree).0
          (resolve_path D cfg.root (target_of D f cfg opts) "." w.tree).1
          ((Gives-resolve_path (Busy (file d) place x p) cfg.root (target_of D f cfg opts) ".").at
            w.tree h);
  }
    where
      answered :
          (w : World D) (r : Result FsError FilePath) (t : Tree D)
          → Outcome
              (Under (Busy (file d) place x p) (data_root cfg.root (target_of D f cfg opts)) place)
              (Kept (Busy (file d) place x p))
              r
              t
          → Outcome
              (λ root w. AtPlace w × (root ≡ place))
              (λ e. Either)
              (wrap {F = BackupError} fs_error r)
              (record w { tree = t })
      answered w (ok root) t k = (k.0, k.2)
      answered w (err e) t k = inl k.1

  verifying :
      (id : String)
      → Triple AtPlace (λ b w. AtPlace w × (b.id ≡ id)) (λ e. Either) (verified D f cfg id)
  unfolding verified
  verifying id =
      Triple-bind AtPlace (λ b w. AtPlace w × (b.id ≡ id)) (λ b w. AtPlace w × (b.id ≡ id))
        (λ e. Either) _ _ (read_row id)
        (λ b. record {
          at = λ w h.
              (Triple-bind AtPlace (λ a. AtPlace) (λ b w. AtPlace w × (b.id ≡ id)) (λ e. Either) _ _
                  (kept _ (Keeps-if (b.status =? "completed") _ _ (Keeps-pure tt) (Keeps-raise _)))
                  (λ a.
                    Triple-bind AtPlace (λ a. AtPlace) (λ b w. AtPlace w × (b.id ≡ id))
                      (λ e. Either) _ _
                      (kept _ (Safe-checksum_file (Busy (file d) place x p) f (parse b.file_path)))
                      (λ actual.
                        Triple-if _ _ _ (actual =? b.checksum_sha) _ _
                          (λ same. Triple-pure _ _ _ b (λ w k. (k, h.1)))
                          (λ new. Triple-raise _ _ _ _ (λ w k. inl k.1))))).at
                w h.0;
        })

  Safe-stopped : (r : Result String String) → Safe (Busy (file d) place x p) (stopped D f cfg r)
  Safe-stopped (err e) = Keeps-raise _
  Safe-stopped (ok s) = Keeps-if (s =? "stopped") _ _ (Keeps-pure tt) (Keeps-raise _)

  Safe-check_status :
      (o : Option (String → Result String String)) (server : String)
      → Safe (Busy (file d) place x p) (check_status D f cfg o server)
  Safe-check_status none server = Keeps-pure tt
  Safe-check_status (some status) server = Safe-stopped (status server)

  chosen :
      (b : Backup) (root : FilePath)
      → b.id ≡ opts.backup_id
      → root ≡ place
      → Triple AtPlace
          (λ a w. Unit)
          (λ e. Either)
          (restored D f cfg b root
            (beside D f cfg root (new_name b.id))
            (beside D f cfg root (old_name b.id)))
  chosen b root named here =
      subst
        (λ r.
          Triple AtPlace (λ a w. Unit) (λ e. Either)
            (restored D f cfg b r (beside D f cfg r (new_name b.id))
              (beside D f cfg r (old_name b.id))))
        (sym here)
        (subst
          (λ id.
            Triple AtPlace (λ a w. Unit) (λ e. Either)
              (restored D f cfg b place (beside D f cfg place (new_name id))
                (beside D f cfg place (old_name id))))
          (sym named)
          (Restores-beside b opts.backup_id (above cfg.root (target_of D f cfg opts)) place
            (place_of-data cfg.root (target_of D f cfg opts))))

  Triple-restore : Triple AtPlace (λ a w. Unit) (λ e. Either) (restore D f cfg opts)
  unfolding restore
  Triple-restore =
      Triple-if AtPlace (λ a w. Unit) (λ e. Either) (target_of D f cfg opts =? "") _ _
        (λ missing. Triple-raise _ _ _ _ (λ w h. inl h.1))
        (λ named.
          Triple-bind AtPlace (λ a. AtPlace) (λ a w. Unit) (λ e. Either) _ _
            (kept _ (Safe-check_status cfg.status (target_of D f cfg opts)))
            (λ a.
              Triple-bind AtPlace (λ b w. AtPlace w × (b.id ≡ opts.backup_id)) (λ a w. Unit)
                (λ e. Either) _ _ (verifying opts.backup_id)
                (λ b. record {
                  at = λ w h.
                      (Triple-bind AtPlace (λ root w. AtPlace w × (root ≡ place)) (λ a w. Unit)
                          (λ e. Either) _ _ resolving
                          (λ root. record { at = λ w k. (chosen b root h.1 k.1).at w k.0 })).at
                        w h.0;
                })))

  -- Whatever fails, if Restore returns an error then each file below the data directory of the
  -- target server, which is a directory before, is still at its place, or at the same place below
  -- the directory `.previous-` with the id of the backup, beside the data directory.
  pub restore-preserves :
      (w : World D)
      → node_at place w.tree.entries ≡ some directory
      → node_at (place ++ x ∷ p) w.tree.entries ≡ some (file d)
      → Outcome
          (λ done after. Unit)
          (λ e after.
            (node_at (place ++ x ∷ p) after.tree.entries ≡ some (file d))
            ⊎ (node_at
                  (beside D f cfg place (append ".previous-" opts.backup_id) ++ x ∷ p)
                  after.tree.entries
                ≡ some (file d)))
          (restore D f cfg opts w).0
          (restore D f cfg opts w).1
  restore-preserves w there stored = Triple-restore.at w (there, stored)
