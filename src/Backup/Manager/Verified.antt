-- ===== src/Backup/Manager/Verified.antt =====
-- A restoration of internal/backup/manager.go that succeeds was of a verified backup.
use oikos.Common.{refl, ◌=?◌}
use oikos.Common.Exec.{Result, ok, err, Exec}
use oikos.Common.Triples.{Outcome, Triple, Triple-bind, Triple-raise, Triple-if}
use oikos.Store.{Backup}
use oikos.Backup.{Formats, World}
use oikos.Backup.Manager.{Config, RestoreOptions, target_of, restore}
use oikos.Backup.Manager.Verification.{IsStopped, Unchanged, IsVerified, verifying, asking}

-- What is known of a step's past is known after it.
after_any :
    {S E A : Type 0} (F G : Type 0) (m : Exec S E A)
    → (F → G)
    → Triple (λ s. F) (λ a s. G) (λ e s. Unit) m
after_any {S} {E} {A} F G m g = record { at = λ s h. known (m s).0 (m s).1 (g h) }
  where
    known : (r : Result E A) (s : S) → G → Outcome (λ a s. G) (λ e s. Unit) r s
    known (ok a) s h = h
    known (err e) s h = tt

module _ (D : Type 0) (f : Formats D) (cfg : Config) (opts : RestoreOptions) where
  -- Restore returns nil only if the target server is stopped, where a status can be asked for, and
  -- the backup was there and completed, with a file as its archive that has the stored checksum.
  pub restore-IsVerified :
      (w : World D)
      → Outcome
          (λ done after.
            IsStopped cfg.status (target_of D f cfg opts)
            × ((b : Backup) × IsVerified D f cfg opts.backup_id w.db.backups w.tree.entries b))
          (λ e after. Unit)
          (restore D f cfg opts w).0
          (restore D f cfg opts w).1
  unfolding restore
  restore-IsVerified w =
      let rows = w.db.backups in
      let es = w.tree.entries in
      let target = target_of D f cfg opts in
      let Known : Type 0 =
        IsStopped cfg.status target
        × ((b : Backup) × IsVerified D f cfg opts.backup_id rows es b) in
      (Triple-if (Unchanged D f cfg opts.backup_id rows es) (λ a w. Known) (λ e w. Unit)
          (target =? "") _ _ (λ missing. Triple-raise _ _ _ _ (λ w h. tt))
          (λ named.
            Triple-bind _
              (λ a w. Unchanged D f cfg opts.backup_id rows es w × IsStopped cfg.status target) _ _
              _ _ (asking D f cfg opts.backup_id rows es cfg.status target)
              (λ a. record {
                at = λ w h.
                    (Triple-bind (Unchanged D f cfg opts.backup_id rows es)
                        (λ b w. IsVerified D f cfg opts.backup_id rows es b) (λ a w. Known)
                        (λ e w. Unit) _ _ (verifying D f cfg opts.backup_id rows es)
                        (λ b.
                          after_any (IsVerified D f cfg opts.backup_id rows es b) Known _
                            (λ k. (h.1, (b, k))))).at
                      w h.0;
              }))).at
        w (refl, refl)
