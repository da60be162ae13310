-- ===== src/Orchestrator/Lifecycle/Rules.antt =====
-- Rules for the steps of the lifecycle methods.
use oikos.Common.{String, Bool}
use oikos.Common.Exec.{Result, ok, err, Exec, wrap}
use oikos.Common.Triples.{Outcome, Triple}
use oikos.Store.{Db, StoreError}
use oikos.Orchestrator.Lifecycle.{
  LifecycleError, store_error, Parts, World, try_store, on_store, announce, set_manual,
}

module _ (p : Parts) {A : Type 0} (P : Db → Type 0) (Q : A → Db → Type 0) (R : Db → Type 0) where
  wrapped :
      (r : Result StoreError A) (db : Db) (w : World p)
      → Outcome Q (λ x. R) r db
      → Outcome
          (λ a w. Q a w.db)
          (λ e w. R w.db)
          (wrap {F = LifecycleError} store_error r)
          (record w { db = db })
  wrapped (ok a) db w h = h
  wrapped (err x) db w h = h

  pub Triple-on_store :
      (m : Exec Db StoreError A)
      → Triple P Q (λ x. R) m
      → Triple (λ w. P w.db) (λ a w. Q a w.db) (λ e w. R w.db) (on_store p m)
  Triple-on_store m h = record { at = λ w pre. wrapped (m w.db).0 (m w.db).1 w (h.at w.db pre) }

  pub Triple-try_store :
      (S : LifecycleError → World p → Type 0) (m : Exec Db StoreError A)
      → Triple P Q (λ x. R) m
      → Triple (λ w. P w.db) (λ r w. Outcome Q (λ x. R) r w.db) S (try_store p m)
  Triple-try_store S m h = record { at = λ w pre. h.at w.db pre }

-- Steps that do not touch the database keep what is known of it.
module _ (p : Parts) (P R : Db → Type 0) where
  pub Triple-announce :
      (kind id : String) → Triple (λ w. P w.db) (λ a w. P w.db) (λ e w. R w.db) (announce p kind id)
  unfolding announce
  Triple-announce kind id = record { at = λ w pre. pre }

  pub Triple-set_manual :
      (id : String) (flag : Bool)
      → Triple (λ w. P w.db) (λ a w. P w.db) (λ e w. R w.db) (set_manual p id flag)
  unfolding set_manual
  Triple-set_manual id flag = record { at = λ w pre. pre }
