-- ===== src/Filesystem/Confinement.antt =====
-- The operations of internal/filesystem/manager.go stay below the data directory of their server.
use mathlib.Core.Path.{subst}
use oikos.Common.{String, Bool, true, false, ◌&&◌, sym, ◌≡◌, refl, [], ◌∷◌, ◌++◌, inl, inr}
use oikos.Common.Exec.{pure, ◌>>◌}
use oikos.Common.Keeps.{Keeps-pure, Keeps-raise, Keeps-if, Keeps-bind, Triple→Keeps}
use oikos.Common.Triples.{Triple-bind, Triple-pure}
use oikos.Common.Paths.{
  FilePath, dir, is_below, is_below_refl, is_below_trans, is_below-append, is_below-dir,
  dir-is_below,
}
use oikos.Common.Tree.{Tree, Entries, system_call, mkdir_all, create_new}
use oikos.Common.Tree.Lookups.{not_same}
use oikos.Common.Tree.Confined.{
  IsOutside, IsNear, IsFree, IsConfined, Confines-mkdir_all, Confines-create_new, Confines-write_to,
  Confines-remove, Confines-remove_all, Confines-rename, outside_same, outside_below,
}
use oikos.Filesystem.{
  Reader, Step, os, data_root, ensure_root, list, read, then_remove, fill, upload_name, prepare,
  write, copy, is_folder, delete, move, create_dir,
}
use oikos.Filesystem.Resolution.{
  Gives, Under, resolved, Gives-resolve_path, Safe, Safe-os, Safe-try, Safe-look, Safe-lstat,
  Safe-check_context, Gives-any, Gives-server_root, Kept,
}
use oikos.Filesystem.Reading.{Safe-or_not_found, Safe-resolved, Safe-list, Safe-read}

-- Where an upload to the data directory itself puts its temporary file.
abbrev pub stray : FilePath → String → String → FilePath
stray root server temporary = dir (data_root root server) ++ temporary ∷ []

module _ (root : FilePath) (server temporary : String) where
  abbrev base : FilePath
  base = data_root root server

  abbrev aside : FilePath
  aside = stray root server temporary

  module _ {D : Type 0} (blank : D) (before : Entries D) where
    abbrev P : Entries D → Type 0
    P = IsConfined base aside before

    dir-IsNear : (target : FilePath) → is_below base target ≡ true → IsNear base aside (dir target)
    dir-IsNear target below = elim (is_below-dir base target below) [
      | inl e ↦ inl (subst (λ b. is_below (dir target) b ≡ true) (sym e) (dir-is_below target))
      | inr under ↦ inr under
    ]

    upload_name-apart :
        (target : FilePath)
        → is_below base target ≡ true
        → (p : FilePath) → IsOutside base aside p
        → is_below (upload_name D blank temporary target) p ≡ false
    upload_name-apart target below p out = elim (is_below-dir base target below) [
      | inl e ↦ subst (λ b. is_below (dir b ++ temporary ∷ []) p ≡ false) e out.1
      | inr under ↦
          outside_below base aside _ p
            (is_below_trans base (dir target) _ under
              (is_below-append (dir target) (temporary ∷ [])))
            out
    ]

    upload_name-IsFree :
        (target : FilePath)
        → is_below base target ≡ true
        → IsFree base aside before (upload_name D blank temporary target)
    upload_name-IsFree target below p out =
        not_same p (upload_name D blank temporary target) (upload_name D blank temporary target)
          (is_below_refl (upload_name D blank temporary target))
          (upload_name-apart target below p out)

    Safe-mkdir_all : (q : FilePath) → IsNear base aside q → Safe P (os D (mkdir_all q))
    Safe-mkdir_all q near = Safe-os P _ (Confines-mkdir_all base aside before q near)

    Safe-ensure_root : Safe P (ensure_root D root server)
    unfolding ensure_root
    Safe-ensure_root = Triple→Keeps _ _ (
        Triple-bind _ (λ b t. P t.entries × (b ≡ base)) (Kept P) (Kept P) _ _
          (Gives-server_root P root server)
          (λ b. record {
            at = λ t h.
                (Gives-any P _ (
                    Keeps-bind _ _
                      (Safe-mkdir_all b
                        (inr (subst (λ c. is_below base c ≡ true) (sym h.1) (is_below_refl base))))
                      (λ a. Keeps-pure b))).at
                  t h.0;
          }))

    Safe-then_remove :
        {A : Type 0} (q : FilePath) (m : Step D A)
        → IsFree base aside before q
        → Safe P m
        → Safe P (then_remove D q m)
    unfolding then_remove
    Safe-then_remove q m free h = record {
      at = λ t k. (Confines-remove base aside before q free).at (m t).1 (h.at t k);
    }

    Safe-pause : Safe P (os D (system_call (pure tt)))
    Safe-pause = Safe-os P _ (Safe-look P _)

    Safe-fill :
        (target : FilePath) (reader : Reader D)
        → is_below base target ≡ true
        → Safe P (fill D (upload_name D blank temporary target) target reader)
    unfolding fill
    Safe-fill target reader below =
        Keeps-bind _ _
          (Safe-os P _ (
            Confines-write_to base aside before _ reader.content (upload_name-IsFree target below)))
          λ a. Keeps-bind _ _ (Keeps-if reader.fails _ _ (Keeps-raise _) (Keeps-pure tt)) λ b.
            Keeps-bind _ _ Safe-pause λ c. Keeps-bind _ _ Safe-pause λ d.
              Keeps-bind _ _ Safe-pause λ e.
                Safe-os P _ (
                  Confines-rename base aside before _ target (upload_name-apart target below) below)

    abbrev BelowBase : FilePath → Tree D → Type 0
    BelowBase target t = P t.entries × (is_below base target ≡ true)

    Gives-created :
        (target : FilePath)
        → is_below base target ≡ true
        → Gives P BelowBase (do
          os D (mkdir_all (dir target))
          os D (create_new (upload_name D blank temporary target) blank)
          pure target)
    Gives-created target below =
        Triple-bind _ (Kept P) BelowBase (Kept P) _ _
          (Gives-any P _ (Safe-mkdir_all (dir target) (dir-IsNear target below)))
          (λ c.
            Triple-bind _ (Kept P) BelowBase (Kept P) _ _
              (Gives-any P _ (
                Safe-os P _ (
                  Confines-create_new base aside before _ blank (upload_name-IsFree target below))))
              (λ d. Triple-pure _ _ _ target (λ t k. (k, below))))

    Gives-prepare : (path : String) → Gives P BelowBase (prepare D blank temporary root server path)
    unfolding prepare
    Gives-prepare path =
        Triple-bind _ (Kept P) BelowBase (Kept P) _ _ (Gives-any P _ (Safe-check_context P)) (λ a.
          Triple-bind _ (Kept P) BelowBase (Kept P) _ _ (Gives-any P _ Safe-ensure_root) (λ b.
            Triple-bind _ (Under P base (resolved base path)) BelowBase (Kept P) _ _
              (Gives-resolve_path P root server path)
              (λ target. record { at = λ t k. (Gives-created target k.1).at t k.0 })))

    Safe-write :
        (path : String) (reader : Reader D)
        → Safe P (write D blank temporary root server path reader)
    unfolding write
    Safe-write path reader = Triple→Keeps _ _ (
        Triple-bind _ BelowBase (Kept P) (Kept P) _ _ (Gives-prepare path) (λ target. record {
          at = λ t k.
              (Gives-any P _ (
                  Safe-then_remove _ _ (upload_name-IsFree target k.1)
                    (Safe-fill target reader k.1))).at
                t k.0;
        }))

    Safe-copy : (from to : String) → Safe P (copy D blank temporary root server from to)
    unfolding copy
    Safe-copy from to = Keeps-bind _ _ (Safe-read P root server from) λ source. Safe-write to _

    Safe-delete : (path : String) (recursive : Bool) → Safe P (delete D root server path recursive)
    unfolding delete
    Safe-delete path recursive = Keeps-bind _ _ (Safe-check_context P) λ a.
        Safe-resolved P root server path _ λ target below.
          Keeps-bind _ _ (Safe-try P _ (Safe-lstat P target)) λ r.
            Keeps-bind _ _ (Safe-or_not_found P r) λ info.
              Keeps-if (is_folder D info && recursive) _ _
                (Safe-os P _ (Confines-remove_all base aside before target below))
                (Safe-os P _ (
                  Confines-remove base aside before target
                    (λ p out. outside_same base aside target p below out)))

    Safe-move : (from to : String) → Safe P (move D root server from to)
    unfolding move
    Safe-move from to = Keeps-bind _ _ (Safe-check_context P) λ a.
        Safe-resolved P root server from _ λ old below.
          Safe-resolved P root server to _ λ new under.
            Keeps-bind _ _ (Safe-mkdir_all (dir new) (dir-IsNear new under)) λ c. Safe-os P _ (
              Confines-rename base aside before old new
                (λ p out. outside_below base aside old p below out) under)

    Safe-create_dir : (path : String) → Safe P (create_dir D root server path)
    unfolding create_dir
    Safe-create_dir path =
        Keeps-bind _ _ (Safe-check_context P)
          λ a. Safe-resolved P root server path _ λ target below. Safe-mkdir_all target (inr below)

  module _ {D : Type 0} (blank : D) where
    -- Where the kernel looks paths up as they are written (Links is about the accepted ones), then
    -- whatever paths are asked for and whatever system calls fail, List, Read, Write, Delete, Rename,
    -- Copy and CreateDir for a server leave every node outside the data directory of the server as it
    -- is, but for missing directories above it, and but for the place of the temporary file of an
    -- upload to the data directory itself, which stands beside that directory.
    pub filesystem-IsConfined :
        (t : Tree D) (path other : String) (reader : Reader D) (recursive : Bool)
        → IsConfined base aside t.entries (list D root server path t).1.entries
          × IsConfined base aside t.entries (read D root server path t).1.entries
          × IsConfined base aside t.entries
              (write D blank temporary root server path reader t).1.entries
          × IsConfined base aside t.entries (delete D root server path recursive t).1.entries
          × IsConfined base aside t.entries (move D root server path other t).1.entries
          × IsConfined base aside t.entries
              (copy D blank temporary root server path other t).1.entries
          × IsConfined base aside t.entries (create_dir D root server path t).1.entries
    filesystem-IsConfined t path other reader recursive =
        let start : IsConfined base aside t.entries t.entries = λ p out. inl refl in
        (
          (Safe-list (P blank t.entries) root server path).at t start,
          (Safe-read (P blank t.entries) root server path).at t start,
          (Safe-write blank t.entries path reader).at t start,
          (Safe-delete blank t.entries path recursive).at t start,
          (Safe-move blank t.entries path other).at t start,
          (Safe-copy blank t.entries path other).at t start,
          (Safe-create_dir blank t.entries path).at t start,
        )
