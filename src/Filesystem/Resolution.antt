-- ===== src/Filesystem/Resolution.antt =====
-- What the resolution of a path in internal/filesystem/manager.go gives: it changes nothing, and an
-- accepted path stands at or below the data directory of the server.
use oikos.Common.{String, true, false, ◌≡◌, refl, List, [], ◌∷◌, if◌then◌else◌}
use mathlib.Core.Path.{subst}
use oikos.Common.Exec.{Result, ok, err, Exec, raise}
use oikos.Common.Keeps.{
  Keeps, Keeps-pure, Keeps-raise, Keeps-if, Keeps-bind, Keeps→Triple, keeps_rules,
}
use oikos.Common.Triples.{Triple, Triple-bind, Triple-if, Triple-pure, Triple-raise}
use oikos.Common.Paths.{FilePath, join, split_path, clean, rel, leads_out, is_below, rel-is_below}
use oikos.Common.Tree.{
  Node, directory, file, symlink, Tree, Entries, OsError, not_exist, os_failure, lstat, system_call,
}
use oikos.Common.Tree.Confined.{Keeps-system_call}
use oikos.Filesystem.{
  path_outside_root, server_not_found, Step, os, try, judge, cancel, check_context, valid_server_id,
  data_root, server_root, reject_symlinks, refused, contained, resolve_path,
}

-- The path that a text stands for.
abbrev pub resolved : FilePath → String → FilePath
resolved base path = join base (clean false (split_path path))

module _ {D : Type 0} (P : Entries D → Type 0) where
  -- A step of the manager, or a system call, that keeps `P`.
  abbrev pub Safe : {E A : Type 0} → Exec (Tree D) E A → Type 0
  Safe m = Keeps (λ t. P t.entries) m

  pub Safe-os : {A : Type 0} (m : Exec (Tree D) OsError A) → Safe m → Safe (os D m)
  Safe-os m h = record { at = h.at }

  pub Safe-try : {A : Type 0} (m : Exec (Tree D) OsError A) → Safe m → Safe (try D m)
  Safe-try m h = record { at = h.at }

  pub Safe-look : {A : Type 0} (r : Tree D → Result OsError A) → Safe (system_call (λ t. (r t, t)))
  Safe-look r = Keeps-system_call P _ (record { at = λ t h. h })

  pub Safe-lstat : (p : FilePath) → Safe (lstat {D = D} p)
  unfolding lstat
  Safe-lstat p = Safe-look _

  pub Safe-check_context : Safe (check_context D)
  unfolding check_context
  Safe-check_context = search (keeps_rules, Safe-try, Safe-look, cancelling)
    where
      cancelling : (r : Result OsError Unit) → Safe (cancel D r)
      cancelling (ok a) = Keeps-pure a
      cancelling (err e) = Keeps-raise _

  Safe-judge :
      (below : Step D Unit) (r : Result OsError (Node D)) → Safe below → Safe (judge D below r)
  Safe-judge below (err not_exist) h = Keeps-pure tt
  Safe-judge below (err os_failure) h = Keeps-raise _
  Safe-judge below (ok symlink) h = Keeps-raise _
  Safe-judge below (ok directory) h = h
  Safe-judge below (ok (file d)) h = h

  Safe-reject_symlinks :
      (current : FilePath) (parts : List String) → Safe (reject_symlinks D current parts)
  unfolding reject_symlinks
  Safe-reject_symlinks current [] = Keeps-pure tt
  Safe-reject_symlinks current (part ∷ parts) =
      let skipped = Safe-reject_symlinks current parts in
      let below = Safe-reject_symlinks (join current (part ∷ [])) parts in
      Keeps-if _ _ _ skipped
        (Keeps-bind _ _ (Safe-try _ (Safe-lstat _)) (λ r. Safe-judge _ r below))

  -- `P`, and the expected path, which is at or below `base`.
  abbrev pub Under : FilePath → FilePath → FilePath → Tree D → Type 0
  Under base expected target t = P t.entries × (is_below base target ≡ true) × (target ≡ expected)

  abbrev pub Kept : {A : Type 0} → A → Tree D → Type 0
  Kept a t = P t.entries

  -- Steps that keep `P`, and give what `Q` says.
  abbrev pub Gives : {A : Type 0} → (A → Tree D → Type 0) → Step D A → Type 0
  Gives Q m = Triple (λ t. P t.entries) Q Kept m

  pub Gives-any : {A : Type 0} (m : Step D A) → Safe m → Gives Kept m
  Gives-any m h = Keeps→Triple _ Kept Kept m h (λ a t p. p) (λ e t p. p)

  Gives-contained : (base target : FilePath) → Gives (Under base target) (contained D base target)
  unfolding contained
  Gives-contained base target =
      Triple-if _ (Under base target) Kept (leads_out (rel base target)) _ _
        (λ out. Triple-raise _ _ _ path_outside_root (λ t p. p))
        (λ stays.
          Triple-bind _ Kept (Under base target) Kept (reject_symlinks D base (rel base target)) _
            (Gives-any _ (Safe-reject_symlinks base (rel base target)))
            (λ a. Triple-pure _ _ _ target (λ t p. (p, rel-is_below base target stays, refl))))

  pub Gives-server_root :
      (root : FilePath) (server : String)
      → Gives (λ base t. P t.entries × (base ≡ data_root root server)) (server_root D root server)
  unfolding server_root
  Gives-server_root root server =
      Triple-if _ _ _ (valid_server_id server) _ _
        (λ valid. Triple-pure _ _ _ (data_root root server) (λ t p. (p, refl)))
        (λ bad. Triple-raise _ _ _ server_not_found (λ t p. p))

  Gives-chosen :
      (base r : FilePath) (path : String)
      → base ≡ r
      → Gives (Under r (resolved r path)) (
          if refused D path
          then raise path_outside_root
          else contained D base (join base (clean false (split_path path))))
  Gives-chosen base r path e =
      subst
        (λ b. Gives (Under b (resolved b path)) (
          if refused D path
          then raise path_outside_root
          else contained D base (join base (clean false (split_path path)))))
        e
        (Triple-if _ (Under base (resolved base path)) Kept (refused D path) _ _
          (λ bad. Triple-raise _ _ _ path_outside_root (λ t p. p))
          (λ good. Gives-contained base (join base (clean false (split_path path)))))

  pub Gives-resolve_path :
      (root : FilePath) (server path : String)
      → Gives
          (Under (data_root root server) (resolved (data_root root server) path))
          (resolve_path D root server path)
  unfolding resolve_path
  Gives-resolve_path root server path =
      Triple-bind _ (λ base t. P t.entries × (base ≡ data_root root server)) _ Kept _ _
        (Gives-server_root root server)
        (λ base. record {
          at = λ t h. (Gives-chosen base (data_root root server) path h.1).at t h.0;
        })
