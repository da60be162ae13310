-- ===== src/Backup/Manager/Preserved.antt =====
-- A restoration of internal/backup/manager.go, from the place of the data on.
use oikos.Common.{String, false, ◌≡◌, ◌⊎◌, inl, [], ◌∷◌, ◌++◌, ◌=?◌}
use oikos.Common.Exec.{Result, ok, err, Exec}
use oikos.Common.Keeps.{Keeps, Keeps-both, Keeps-either, Keeps→Triple}
use oikos.Common.Triples.{Outcome, Triple, Triple-bind}
use oikos.Common.Paths.{FilePath, is_below}
use oikos.Common.Tree.{directory, file, Tree, OsError, mkdir_all, remove_all}
use oikos.Common.Tree.Holding.{Holds, Holds-mkdir_all, Holds-remove_all}
use oikos.Common.Tree.Renaming.{Busy}
use oikos.Backup.{BackupError, Formats, World, Step, on_os, then_ignore}
use oikos.Backup.Archive.Extraction.{Safe, Safe-on_os, Safe-ignore_os, Safe-extract_archive}
use oikos.Backup.Manager.{Config, parse, restored}
use oikos.Backup.Archive.{extract_archive}
use oikos.Store.{Backup}
use oikos.Backup.Manager.Replacement.{apart_beside, apart_place, replacing}

module _ (D : Type 0) (f : Formats D) (cfg : Config) (front : FilePath) (old new back x : String)
    (p : FilePath) (d : D) (new_old : (new =? old) ≡ false) (back_old : (back =? old) ≡ false)
    (old_back : (old =? back) ≡ false) (new_back : (new =? back) ≡ false) where
  abbrev root : FilePath
  root = front ++ old ∷ []

  abbrev staging : FilePath
  staging = front ++ new ∷ []

  abbrev previous : FilePath
  previous = front ++ back ∷ []

  -- The data directory with the file, and the file where the data is set aside.
  abbrev AtRoot : World D → Type 0
  AtRoot w = Busy (file d) root x p w.tree.entries

  abbrev AtPrevious : World D → Type 0
  AtPrevious w = Holds (previous ++ x ∷ p) (file d) w.tree.entries

  abbrev Either : World D → Type 0
  Either w = Holds (root ++ x ∷ p) (file d) w.tree.entries ⊎ AtPrevious w

  module _ (b : Backup) where
    away_root : is_below staging (root ++ x ∷ p) ≡ false
    away_root = apart_beside front new old (x ∷ p) new_old

    away_previous : is_below staging (previous ++ x ∷ p) ≡ false
    away_previous = apart_beside front new back (x ∷ p) new_back

    AtRoot-call :
        (m : Exec (Tree D) OsError Unit)
        → Keeps (λ t. Holds root directory t.entries) m
        → Keeps (λ t. Holds (root ++ x ∷ p) (file d) t.entries) m
        → Keeps (λ t. Busy (file d) root x p t.entries) m
    AtRoot-call m h k = Keeps-both _ m h k

    AtRoot-remove_all : Keeps (λ t. Busy (file d) root x p t.entries) (remove_all staging)
    AtRoot-remove_all =
        AtRoot-call (remove_all staging)
          (Holds-remove_all root directory staging (apart_place front new old new_old))
          (Holds-remove_all (root ++ x ∷ p) (file d) staging away_root)

    Either-remove_all :
        Keeps
          (λ t.
            Holds (root ++ x ∷ p) (file d) t.entries ⊎ Holds (previous ++ x ∷ p) (file d) t.entries)
          (remove_all staging)
    Either-remove_all =
        Keeps-either _ (remove_all staging)
          (Holds-remove_all (root ++ x ∷ p) (file d) staging away_root)
          (Holds-remove_all (previous ++ x ∷ p) (file d) staging away_previous)

    ending :
        (r : Result BackupError Unit) (w : World D)
        → Outcome (λ a w. Unit) (λ e. Either) r w
        → Outcome (λ a w. Unit) (λ e. Either) r (record w { tree = (remove_all staging w.tree).1 })
    ending (ok a) w h = tt
    ending (err e) w h = Either-remove_all.at w.tree h

    Triple-then_ignore :
        (m : Step D Unit)
        → Triple AtRoot (λ a w. Unit) (λ e. Either) m
        → Triple AtRoot (λ a w. Unit) (λ e. Either) (then_ignore D (remove_all staging) m)
    unfolding then_ignore
    Triple-then_ignore m h = record { at = λ w k. ending (m w).0 (m w).1 (h.at w k) }

    kept :
        {A : Type 0} (m : Step D A)
        → Safe (Busy (file d) root x p) m
        → Triple AtRoot (λ a. AtRoot) (λ e. Either) m
    kept m h = Keeps→Triple AtRoot (λ a. AtRoot) (λ e. Either) m h (λ a w k. k) (λ e w k. inl k.1)

    pub restoring :
        Triple AtRoot (λ a w. Unit) (λ e. Either) (restored D f cfg b root staging previous)
    unfolding restored
    restoring =
        Triple-bind AtRoot (λ a. AtRoot) (λ a w. Unit) (λ e. Either) _ _
          (kept _ (Safe-ignore_os _ (remove_all staging) AtRoot-remove_all))
          (λ a.
            Triple-bind AtRoot (λ a. AtRoot) (λ a w. Unit) (λ e. Either)
              (on_os D (mkdir_all staging)) _
              (kept _ (
                Safe-on_os _ (mkdir_all staging) (
                  AtRoot-call (mkdir_all staging) (Holds-mkdir_all root directory staging)
                    (Holds-mkdir_all (root ++ x ∷ p) (file d) staging))))
              (λ c. Triple-then_ignore _ (
                Triple-bind AtRoot (λ a. AtRoot) (λ a w. Unit) (λ e. Either)
                  (extract_archive D f (parse b.file_path) staging) _
                  (kept _ (
                    Keeps-both _ _
                      (Safe-extract_archive f root staging directory
                        (apart_place front new old new_old) (parse b.file_path))
                      (Safe-extract_archive f (root ++ x ∷ p) staging (file d) away_root
                        (parse b.file_path))))
                  (λ c.
                    replacing D f cfg front old new back x p d new_old back_old old_back
                      new_back))))
