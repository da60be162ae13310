-- ===== src/Backup/Manager/Verification.antt =====
-- What the checks of Restore in internal/backup/manager.go find out before anything is written.
use mathlib.Core.Path.{subst}
use oikos.Common.{String, true, ◌≡◌, ap, sym, ◌∙◌, refl, =?→eq, Option, none, some, List, ◌=?◌}
use oikos.Common.Exec.{Result, ok, err, wrap}
use oikos.Common.Triples.{Outcome, Triple, Triple-bind, Triple-pure, Triple-raise, Triple-if}
use oikos.Common.Paths.{FilePath}
use oikos.Common.Tree.{
  Node, directory, file, symlink, Tree, Entries, OsError, node_at, open_file, found,
}
use oikos.Common.Tree.Renaming.{Triple-system_call}
use oikos.Store.{Backup, Db, StoreError}
use oikos.Store.Backups.{find_backup, get_backup, or_no_rows}
use oikos.Store.Statements.{Triple-statement}
use oikos.Backup.{BackupError, os_error, store_error, Formats, World, on_db, on_os}
use oikos.Backup.Archive.{checksum_file, read_all}
use oikos.Backup.Manager.{Config, stopped, check_status, parse, verified}

-- The server is stopped, where its status can be asked for.
abbrev pub IsStopped : Option (String → Result String String) → String → Type 0
IsStopped none server = Unit
IsStopped (some status) server = status server ≡ ok "stopped"

module _ (D : Type 0) (f : Formats D) (cfg : Config) (id : String) (rows : List Backup)
    (es : Entries D) where
  -- Nothing has been written yet.
  abbrev pub Unchanged : World D → Type 0
  Unchanged w = (w.db.backups ≡ rows) × (w.tree.entries ≡ es)

  abbrev pub Never : BackupError → World D → Type 0
  Never e w = Unit

  -- The row is that of a completed backup, and its archive is a file with the stored checksum.
  abbrev pub IsVerified : Backup → Type 0
  IsVerified b =
      (find_backup id rows ≡ some b)
      × ((b.status =? "completed") ≡ true)
      × ((content : D) × (node_at (parse b.file_path) es ≡ some (file content))
          × ((f.checksum content =? b.checksum_sha) ≡ true))

  row :
      Triple
        (λ db. db.backups ≡ rows)
        (λ b db. (db.backups ≡ rows) × (find_backup id rows ≡ some b))
        (λ e db. Unit)
        (get_backup id)
  unfolding get_backup or_no_rows
  row =
      Triple-statement _ _ _ _ (λ db fs h. h) (λ db h. tt)
        (record { at = λ db h. named (find_backup id db.backups) db h refl })
    where
      named :
          (o : Option Backup) (db : Db)
          → db.backups ≡ rows
          → find_backup id db.backups ≡ o
          → Outcome
              (λ b db. (db.backups ≡ rows) × (find_backup id rows ≡ some b))
              (λ e db. Unit)
              (or_no_rows o)
              db
      named none db h k = tt
      named (some b) db h k = (h, ap (find_backup id) (sym h) ∙ k)

  reading :
      Triple Unchanged
        (λ b w. Unchanged w × (find_backup id rows ≡ some b))
        Never
        (on_db D (get_backup id))
  reading = record {
    at = λ w h. answered w h (get_backup id w.db).0 (get_backup id w.db).1 (row.at w.db h.0);
  }
    where
      answered :
          (w : World D)
          → Unchanged w
          → (r : Result StoreError Backup) (db : Db)
          → Outcome
              (λ b db. (db.backups ≡ rows) × (find_backup id rows ≡ some b))
              (λ e db. Unit)
              r
              db
          → Outcome
              (λ b w. Unchanged w × (find_backup id rows ≡ some b))
              Never
              (wrap {F = BackupError} store_error r)
              (record w { db = db })
      answered w h (ok b) db k = ((k.0, h.1), k.1)
      answered w h (err e) db k = tt

  opening :
      (path : FilePath)
      → Triple
          (λ t. t.entries ≡ es)
          (λ n t. (t.entries ≡ es) × (node_at path es ≡ some n))
          (λ e t. Unit)
          (open_file path)
  unfolding open_file
  opening path =
      Triple-system_call (λ fs. fs ≡ es) (λ n fs. (fs ≡ es) × (node_at path es ≡ some n))
        (λ fs. Unit) _ (λ fs h. tt) (record { at = λ t h. there (node_at path t.entries) t h refl })
    where
      there :
          (o : Option (Node D)) (t : Tree D)
          → t.entries ≡ es
          → node_at path t.entries ≡ o
          → Outcome (λ n t. (t.entries ≡ es) × (node_at path es ≡ some n)) (λ e t. Unit) (found o) t
      there none t h k = tt
      there (some n) t h k = (h, ap (node_at path) (sym h) ∙ k)

  opening_lifted :
      (path : FilePath)
      → Triple Unchanged (λ n w. node_at path es ≡ some n) Never (on_os D (open_file path))
  opening_lifted path = record {
    at = λ w h.
        answered w (open_file path w.tree).0 (open_file path w.tree).1
          ((opening path).at w.tree h.1);
  }
    where
      answered :
          (w : World D) (r : Result OsError (Node D)) (t : Tree D)
          → Outcome (λ n t. (t.entries ≡ es) × (node_at path es ≡ some n)) (λ e t. Unit) r t
          → Outcome
              (λ n w. node_at path es ≡ some n)
              Never
              (wrap {F = BackupError} os_error r)
              (record w { tree = t })
      answered w (ok n) t k = k.1
      answered w (err e) t k = tt

  -- A file at a path with a checksum.
  abbrev HasChecksum : FilePath → String → Type 0
  HasChecksum path actual =
      (content : D) × (node_at path es ≡ some (file content)) × (actual ≡ f.checksum content)

  reading_node :
      (path : FilePath) (n : Node D)
      → Triple
          (λ w. node_at path es ≡ some n)
          (λ content w. node_at path es ≡ some (file content))
          Never
          (read_all D f n)
  reading_node path directory = record { at = λ w h. tt }
  reading_node path symlink = record { at = λ w h. tt }
  reading_node path (file content) = record { at = λ w h. h }

  checking :
      (path : FilePath)
      → Triple Unchanged (λ actual w. HasChecksum path actual) Never (checksum_file D f path)
  unfolding checksum_file
  checking path =
      Triple-bind Unchanged (λ n w. node_at path es ≡ some n) (λ actual w. HasChecksum path actual)
        Never _ _ (opening_lifted path)
        (λ n.
          Triple-bind (λ w. node_at path es ≡ some n)
            (λ content w. node_at path es ≡ some (file content))
            (λ actual w. HasChecksum path actual) Never (read_all D f n) _ (reading_node path n)
            (λ content. Triple-pure _ _ _ (f.checksum content) (λ w h. (content, h, refl))))

  pub verifying : Triple Unchanged (λ b w. IsVerified b) Never (verified D f cfg id)
  unfolding verified
  verifying =
      Triple-bind Unchanged (λ b w. Unchanged w × (find_backup id rows ≡ some b))
        (λ b w. IsVerified b) Never _ _ reading
        (λ b. record {
          at = λ w h.
              (Triple-bind Unchanged (λ a w. Unchanged w × ((b.status =? "completed") ≡ true))
                  (λ b w. IsVerified b) Never _ _
                  (Triple-if _ _ _ (b.status =? "completed") _ _
                    (λ done. Triple-pure _ _ _ tt (λ w k. (k, done)))
                    (λ other. Triple-raise _ _ _ _ (λ w k. tt)))
                  (λ a. record {
                    at = λ w k.
                        (Triple-bind Unchanged (λ actual w. HasChecksum (parse b.file_path) actual)
                            (λ b w. IsVerified b) Never _ _ (checking (parse b.file_path))
                            (λ actual.
                              Triple-if _ _ _ (actual =? b.checksum_sha) _ _
                                (λ same. Triple-pure _ _ _ b (λ w c. (
                                  h.1,
                                  k.1,
                                  (c.0, c.1, subst (λ s. (s =? b.checksum_sha) ≡ true) c.2 same),
                                )))
                                (λ new. Triple-raise _ _ _ _ (λ w c. tt)))).at
                          w k.0;
                  })).at
                w h.0;
        })

  pub asking :
      (o : Option (String → Result String String)) (server : String)
      → Triple Unchanged
          (λ a w. Unchanged w × IsStopped o server)
          Never
          (check_status D f cfg o server)
  asking none server = Triple-pure _ _ _ tt (λ w h. (h, tt))
  asking (some status) server = by_answer (status server) refl
    where
      by_answer :
          (r : Result String String)
          → status server ≡ r
          → Triple Unchanged
              (λ a w. Unchanged w × (status server ≡ ok "stopped"))
              Never
              (stopped D f cfg r)
      by_answer (err e) h = Triple-raise _ _ _ _ (λ w k. tt)
      by_answer (ok s) h =
          Triple-if _ _ _ (s =? "stopped") _ _
            (λ same. Triple-pure _ _ _ tt (λ w k. (k, h ∙ ap ok (=?→eq s "stopped" same))))
            (λ other. Triple-raise _ _ _ _ (λ w k. tt))
