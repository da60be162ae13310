-- ===== src/Examples/Backups.antt =====
-- A server with one file, and a backup of it in which the file is another.
use oikos.Common.{ℕ, String, true, false, ◌≡◌, ◌⊎◌, refl, some, List, [], ◌∷◌, ◌++◌}
use oikos.Common.Int.{pos}
use oikos.Common.Exec.{ok}
use oikos.Common.Triples.{Outcome}
use oikos.Common.Paths.{split_path, clean, clean_onto, backwards, join, same_path}
use oikos.Common.Tree.{node_at, directory, file}
use oikos.Filesystem.{data_root}
use oikos.Store.{Backup, empty_db}
use oikos.Backup.{Formats, World, regular}
use oikos.Backup.Manager.{Config, RestoreOptions, beside, restore}
use oikos.Backup.Manager.Places.{place_of}
use oikos.Backup.Manager.Restoration.{restore-preserves}
use oikos.Backup.Manager.Verification.{IsVerified, IsStopped}
use oikos.Backup.Manager.Verified.{restore-IsVerified}

abbrev formats : Formats ℕ
formats = record {
  blank = 0;
  checksum = λ content. "sum";
  size = λ content. pos content;
  pack = λ path nodes. 9;
  unpack =
      λ content. some (record { name = "x"; kind = regular; body = 5; broken = false } ∷ [], true);
}

abbrev config : Config
config = record {
  root = "srv" ∷ [];
  backup_root = "bak" ∷ [];
  show = λ path. "/bak/a/b1.tar.gz";
  status = some (λ server. ok "stopped");
}

abbrev backup : Backup
backup = record {
  id = "b1";
  server_id = "a";
  file_path = "/bak/a/b1.tar.gz";
  size_bytes = pos 9;
  checksum_sha = "sum";
  status = "completed";
  created_at = 1;
  completed_at = some 2;
}

abbrev world : World ℕ
world = record {
  db = record empty_db { backups = backup ∷ [] };
  tree = record {
    entries =
        ([], directory)
        ∷ ("srv" ∷ [], directory)
        ∷ ("srv" ∷ "a" ∷ [], directory)
        ∷ ("srv" ∷ "a" ∷ "data" ∷ [], directory)
        ∷ ("srv" ∷ "a" ∷ "data" ∷ "x" ∷ [], file 1)
        ∷ ("bak" ∷ "a" ∷ "b1.tar.gz" ∷ [], file 9)
        ∷ [];
    faults = [];
  };
}

abbrev options : RestoreOptions
options = record { server_id = "a"; backup_id = "b1"; target_server_id = "" }

abbrev place : List String
place = place_of config.root "a"

there : node_at place world.tree.entries ≡ some directory
unfolding data_root join clean clean_onto backwards split_path node_at same_path
there = refl

stored : node_at (place ++ "x" ∷ []) world.tree.entries ≡ some (file 1)
unfolding data_root join clean clean_onto backwards split_path node_at same_path
stored = refl

restore-preserves_example :
    Outcome
      (λ done after. Unit)
      (λ e after.
        (node_at (place ++ "x" ∷ []) after.tree.entries ≡ some (file 1))
        ⊎ (node_at (beside ℕ formats config place ".previous-b1" ++ "x" ∷ []) after.tree.entries
            ≡ some (file 1)))
      (restore ℕ formats config options world).0
      (restore ℕ formats config options world).1
restore-preserves_example = restore-preserves ℕ formats config options "x" [] 1 world there stored

restore-IsVerified_example :
    Outcome
      (λ done after.
        IsStopped config.status "a"
        × ((b : Backup) × IsVerified ℕ formats config "b1" world.db.backups world.tree.entries b))
      (λ e after. Unit)
      (restore ℕ formats config options world).0
      (restore ℕ formats config options world).1
restore-IsVerified_example = restore-IsVerified ℕ formats config options world
