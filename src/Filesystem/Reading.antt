-- ===== src/Filesystem/Reading.antt =====
-- List and Read of internal/filesystem/manager.go change nothing.
use oikos.Common.{String, true, ◌≡◌, List, [], ◌∷◌}
use oikos.Common.Exec.{Result, ok, err, ◌>>=◌}
use oikos.Common.Keeps.{Keeps-pure, Keeps-raise, Keeps-bind, Triple→Keeps}
use oikos.Common.Triples.{Triple-bind}
use oikos.Common.Paths.{FilePath, is_below}
use oikos.Common.Tree.{Node, Entries, OsError, not_exist, os_failure, open_file, read_dir}
use oikos.Filesystem.{Step, or_not_found, data_root, resolve_path, describe, list, read}
use oikos.Filesystem.Resolution.{
  Safe, Safe-os, Safe-try, Safe-look, Safe-check_context, Gives-any, Gives-resolve_path, Under,
  resolved, Kept,
}

module _ {D : Type 0} (P : Entries D → Type 0) where
  pub Safe-or_not_found : {A : Type 0} (r : Result OsError A) → Safe P (or_not_found D r)
  Safe-or_not_found (ok a) = Keeps-pure a
  Safe-or_not_found (err not_exist) = Keeps-raise _
  Safe-or_not_found (err os_failure) = Keeps-raise _

  pub Safe-resolved :
      {A : Type 0} (root : FilePath) (server path : String) (f : FilePath → Step D A)
      → ((target : FilePath) → is_below (data_root root server) target ≡ true → Safe P (f target))
      → Safe P (resolve_path D root server path >>= f)
  Safe-resolved root server path f h = Triple→Keeps _ _ (
      Triple-bind _ (Under P (data_root root server) (resolved (data_root root server) path))
        (Kept P) (Kept P) _ f (Gives-resolve_path P root server path)
        (λ target. record { at = λ t k. (Gives-any P (f target) (h target k.1)).at t k.0 }))

  Safe-describe :
      (base target : FilePath) (es : List (String × Node D)) → Safe P (describe D base target es)
  unfolding describe
  Safe-describe base target [] = Keeps-pure []
  Safe-describe base target ((name, n) ∷ es) =
      let rest = Safe-describe base target es in
      Keeps-bind _ _ (Safe-check_context P)
        λ a. Keeps-bind _ _ (Safe-os P _ (Safe-look P _)) λ b. Keeps-bind _ _ rest λ c. Keeps-pure _

  pub Safe-list : (root : FilePath) (server path : String) → Safe P (list D root server path)
  unfolding list read_dir
  Safe-list root server path = Keeps-bind _ _ (Safe-check_context P) λ a.
      Safe-resolved root server path _ λ target below.
        Keeps-bind _ _ (Safe-try P _ (Safe-look P _))
          λ r. Keeps-bind _ _ (Safe-or_not_found r) λ es. Safe-describe _ target es

  pub Safe-read : (root : FilePath) (server path : String) → Safe P (read D root server path)
  unfolding read open_file
  Safe-read root server path = Keeps-bind _ _ (Safe-check_context P) λ a.
      Safe-resolved root server path _
        λ target below. Keeps-bind _ _ (Safe-try P _ (Safe-look P _)) λ r. Safe-or_not_found r
