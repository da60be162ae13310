-- ===== src/Backup/Manager/Replacement.antt =====
-- The exchange of the data directory of a server in internal/backup/manager.go, if it fails,
-- leaves a file where it was or where it has been set aside.
use oikos.Common.{String, false, ◌≡◌, ◌⊎◌, inl, inr, arith, [], ◌∷◌, ◌++◌, ◌=?◌, =?_refl}
use oikos.Common.Exec.{Result, ok, err, wrap, ◌>>=◌}
use oikos.Common.Keeps.{Keeps-both, Keeps-either, Keeps→Triple}
use oikos.Common.Triples.{Outcome, Triple, Triple-bind}
use oikos.Common.Paths.{FilePath, same_path, is_below}
use oikos.Common.Tree.{Node, directory, file, Tree, Entries, OsError, lstat, remove_all, rename}
use oikos.Common.Tree.Holding.{Holds, Holds-remove_all}
use oikos.Common.Tree.Renaming.{Busy, Busy-rename, Holds-rename, Triple-rename_along}
use oikos.Backup.{BackupError, os_error, Formats, World, try_os, ignore_os}
use oikos.Backup.Archive.Extraction.{Safe-try_os, Safe-ignore_os, Safe-look}
use oikos.Backup.Manager.{Config, set_aside, settle, replace}

-- Places beside each other.
pub apart_beside :
    (front : FilePath) (a b : String) (p : FilePath)
    → (a =? b) ≡ false
    → is_below (front ++ a ∷ []) ((front ++ b ∷ []) ++ p) ≡ false
unfolding is_below
apart_beside [] a b p h = ground (arith, h)
apart_beside (c ∷ front) a b p h = ground (arith, apart_beside front a b p h, =?_refl c)

pub apart_place :
    (front : FilePath) (a b : String)
    → (a =? b) ≡ false
    → is_below (front ++ a ∷ []) (front ++ b ∷ []) ≡ false
unfolding is_below
apart_place [] a b h = ground (arith, h)
apart_place (c ∷ front) a b h = ground (arith, apart_place front a b h, =?_refl c)

other_beside :
    (front : FilePath) (a b : String)
    → (a =? b) ≡ false
    → same_path (front ++ a ∷ []) (front ++ b ∷ []) ≡ false
unfolding same_path
other_beside [] a b h = ground (arith, h)
other_beside (c ∷ front) a b h = ground (arith, other_beside front a b h)

module _ (D : Type 0) (f : Formats D) (cfg : Config) (front : FilePath) (old new back x : String)
    (p : FilePath) (d : D) (new_old : (new =? old) ≡ false) (back_old : (back =? old) ≡ false)
    (old_back : (old =? back) ≡ false) (new_back : (new =? back) ≡ false) where
  abbrev root : FilePath
  root = front ++ old ∷ []

  abbrev staging : FilePath
  staging = front ++ new ∷ []

  abbrev previous : FilePath
  previous = front ++ back ∷ []

  -- The data directory with the file, and the file where the data is set aside.
  abbrev AtRoot : World D → Type 0
  AtRoot w = Busy (file d) root x p w.tree.entries

  abbrev AtPrevious : World D → Type 0
  AtPrevious w = Holds (previous ++ x ∷ p) (file d) w.tree.entries

  abbrev Either : World D → Type 0
  Either w = Holds (root ++ x ∷ p) (file d) w.tree.entries ⊎ AtPrevious w

  abbrev AtEither : World D → Type 0
  AtEither w = AtRoot w ⊎ AtPrevious w

  lifted :
      (P Q : Entries D → Type 0) (r : Result OsError Unit) (t : Tree D) (w : World D)
      → Outcome (λ a t. Q t.entries) (λ e t. P t.entries) r t
      → Outcome
          (λ a w. Q w.tree.entries)
          (λ e w. P w.tree.entries)
          (wrap {F = BackupError} os_error r)
          (record w { tree = t })
  lifted P Q (ok a) t w h = h
  lifted P Q (err e) t w h = h

  aside :
      (r : Result OsError (Node D))
      → Triple AtRoot (λ a. AtEither) (λ e. Either) (set_aside D f cfg root previous r)
  aside (ok node) = record {
    at = λ w h. outcome (rename root previous w.tree).0 (rename root previous w.tree).1 w (
        (Triple-rename_along (file d) root previous (x ∷ p) (other_beside front old back old_back)
            (apart_beside front back old (x ∷ p) back_old)).at
          w.tree h.1);
  }
    where
      outcome :
          (r : Result OsError Unit) (t : Tree D) (w : World D)
          → Outcome
              (λ a t. Holds (previous ++ x ∷ p) (file d) t.entries)
              (λ e t. Holds (root ++ x ∷ p) (file d) t.entries)
              r
              t
          → Outcome
              (λ a. AtEither)
              (λ e. Either)
              (wrap {F = BackupError} os_error r)
              (record w { tree = t })
      outcome (ok a) t w h = inr h
      outcome (err e) t w h = inl h
  aside (err e) = record { at = λ w h. inl h }

  back_again :
      (r : Result OsError Unit) (t : Tree D)
      → Outcome
          (λ a t. Holds (root ++ x ∷ p) (file d) t.entries)
          (λ e t. Holds (previous ++ x ∷ p) (file d) t.entries)
          r
          t
      → Holds (root ++ x ∷ p) (file d) t.entries ⊎ Holds (previous ++ x ∷ p) (file d) t.entries
  back_again (ok a) t h = inl h
  back_again (err e) t h = inr h

  put_back : (w : World D) → AtEither w → Either (ignore_os D (rename previous root) w).1
  put_back w (inl h) = inl ((Busy-rename (file d) previous root x p).at w.tree h).1
  put_back w (inr h) = back_again (rename previous root w.tree).0 (rename previous root w.tree).1 (
      (Triple-rename_along (file d) previous root (x ∷ p) (other_beside front back old back_old)
          (apart_beside front old back (x ∷ p) old_back)).at
        w.tree h)

  settled :
      (r : Result OsError Unit)
      → Triple AtEither (λ a w. Unit) (λ e. Either) (settle D f cfg root previous r)
  unfolding ◌>>=◌
  settled (ok done) = record { at = λ w h. tt }
  settled (err e) = record { at = λ w h. put_back w h }

  pub replacing : Triple AtRoot (λ a w. Unit) (λ e. Either) (replace D f cfg root staging previous)
  unfolding replace lstat
  replacing =
      Triple-bind AtRoot (λ a. AtRoot) (λ a w. Unit) (λ e. Either) _ _
        (Keeps→Triple AtRoot (λ a. AtRoot) (λ e. Either) _
          (Keeps-both _ _
            (Safe-ignore_os _ (remove_all previous)
              (Holds-remove_all root directory previous (apart_place front back old back_old)))
            (Safe-ignore_os _ (remove_all previous) (
              Holds-remove_all (root ++ x ∷ p) (file d) previous
                (apart_beside front back old (x ∷ p) back_old))))
          (λ a w h. h) (λ e w h. inl h.1))
        (λ a.
          Triple-bind AtRoot (λ a. AtRoot) (λ a w. Unit) (λ e. Either) (try_os D (lstat root)) _
            (Keeps→Triple AtRoot (λ a. AtRoot) (λ e. Either) _
              (Safe-try_os (Busy (file d) root x p) _ (Safe-look _ _)) (λ a w h. h)
              (λ e w h. inl h.1))
            (λ there.
              Triple-bind AtRoot (λ a. AtEither) (λ a w. Unit) (λ e. Either) _ _ (aside there)
                (λ b.
                  Triple-bind AtEither (λ a. AtEither) (λ a w. Unit) (λ e. Either)
                    (try_os D (rename staging root)) _
                    (Keeps→Triple AtEither (λ a. AtEither) (λ e. Either) _
                      (Keeps-either _ _
                        (Safe-try_os _ (rename staging root)
                          (Busy-rename (file d) staging root x p))
                        (Safe-try_os _ (rename staging root) (
                          Holds-rename (file d) staging root (previous ++ x ∷ p)
                            (apart_beside front new back (x ∷ p) new_back)
                            (apart_beside front old back (x ∷ p) old_back))))
                      (λ a w h. h) (λ e w h. elim h [ inl b ↦ inl b.1 | inr q ↦ inr q ]))
                    settled)))
