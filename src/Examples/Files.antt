-- ===== src/Examples/Files.antt =====
-- A server with one file, beside a file that is not its own.
use oikos.Common.{ℕ, ◌≡◌, refl, [], ◌∷◌}
use oikos.Common.Paths.{FilePath}
use oikos.Common.Exec.{ok, err}
use oikos.Common.Triples.{Outcome}
use oikos.Common.Tree.{Tree, directory, file, symlink}
use oikos.Filesystem.{path_outside_root, data_root, server_root, resolve_path}
use oikos.Filesystem.Links.{Reaches, resolve_path-Reaches}

abbrev pub root : FilePath
root = "srv" ∷ []

abbrev pub tree : Tree ℕ
tree = record {
  entries =
      ([], directory)
      ∷ ("srv" ∷ [], directory)
      ∷ ("srv" ∷ "a" ∷ [], directory)
      ∷ ("srv" ∷ "a" ∷ "data" ∷ [], directory)
      ∷ ("srv" ∷ "a" ∷ "data" ∷ "x" ∷ [], file 1)
      ∷ ("srv" ∷ "key" ∷ [], file 2)
      ∷ [];
  faults = [];
}

-- A data directory with a link out of it.
abbrev linked : Tree ℕ
linked = record tree { entries = ("srv" ∷ "a" ∷ "data" ∷ "out" ∷ [], symlink) ∷ tree.entries }

resolve_path-Reaches_example :
    Outcome
      (λ target after.
        (after.entries ≡ linked.entries)
        × Reaches linked.entries (λ p. "srv" ∷ []) (data_root root "a") target)
      (λ e after. after.entries ≡ linked.entries)
      (resolve_path ℕ root "a" "x/../x" linked).0
      (resolve_path ℕ root "a" "x/../x" linked).1
resolve_path-Reaches_example = resolve_path-Reaches (λ p. "srv" ∷ []) root "a" "x/../x" linked

-- The path is accepted, and a path through the link is not.
resolved : (resolve_path ℕ root "a" "x/../x" linked).0 ≡ ok ("srv" ∷ "a" ∷ "data" ∷ "x" ∷ [])
unfolding resolve_path server_root oikos.Common.Exec.◌>>=◌ oikos.Filesystem.all_id_chars
    oikos.Common.Paths.is_abs oikos.Common.Paths.has_code oikos.Filesystem.contained
    oikos.Common.Paths.rel data_root oikos.Common.Paths.join oikos.Common.Paths.clean
    oikos.Common.Paths.backwards oikos.Common.Paths.clean_onto oikos.Common.Paths.split_path
    oikos.Filesystem.reject_symlinks oikos.Common.Tree.lstat oikos.Common.Tree.system_call
    oikos.Common.Tree.node_at oikos.Common.Paths.same_path
resolved = refl

refused_link : (resolve_path ℕ root "a" "out/key" linked).0 ≡ err path_outside_root
unfolding resolve_path server_root oikos.Common.Exec.◌>>=◌ oikos.Filesystem.all_id_chars
    oikos.Common.Paths.is_abs oikos.Common.Paths.has_code oikos.Filesystem.contained
    oikos.Common.Paths.rel data_root oikos.Common.Paths.join oikos.Common.Paths.clean
    oikos.Common.Paths.backwards oikos.Common.Paths.clean_onto oikos.Common.Paths.split_path
    oikos.Filesystem.reject_symlinks oikos.Common.Tree.lstat oikos.Common.Tree.system_call
    oikos.Common.Tree.node_at oikos.Common.Paths.same_path
refused_link = refl
