-- ===== src/Store/Statements.antt =====
-- Rules for one statement and for a transaction of the store, over statements that do not speak of
-- the faults to come.
use oikos.Common.{Bool, true, false, List, [], ◌∷◌}
use oikos.Common.Exec.{Result, ok, err, Exec, pure}
use oikos.Common.Triples.{Outcome, Triple, Triple-bind}
use oikos.Common.Keeps.{Keeps, Keeps→Triple, Triple→Keeps}
use oikos.Store.{Db, StoreError, io, statement, attempt}
use oikos.Store.Transactions.{begin, commit, conclude, transaction}

-- What holds whatever faults are to come.
abbrev pub Steady : (Db → Type 0) → Type 0
Steady P = (db : Db) (fs : List Bool) → P db → P (record db { faults = fs })

module _ {A : Type 0} (P : Db → Type 0) (Q : A → Db → Type 0) (R : StoreError → Db → Type 0) where
  attempted :
      (body : Exec Db StoreError A) (fs : List Bool) (db : Db)
      → Steady P
      → ((db : Db) → P db → R io db)
      → Triple P Q R body
      → P db
      → Outcome Q R (attempt fs body db).0 (attempt fs body db).1
  unfolding attempt
  attempted body [] db steady r h p = h.at db p
  attempted body (true ∷ fs) db steady r h p = r (record db { faults = fs }) (steady db fs p)
  attempted body (false ∷ fs) db steady r h p = h.at (record db { faults = fs }) (steady db fs p)

  pub Triple-statement :
      (body : Exec Db StoreError A)
      → Steady P
      → ((db : Db) → P db → R io db)
      → Triple P Q R body
      → Triple P Q R (statement body)
  unfolding statement
  Triple-statement body steady r h = record {
    at = λ db p. attempted body db.faults db steady r h p;
  }

module _ (P Q : Db → Type 0) where
  concluded :
      (before db : Db) (r : Result StoreError Unit)
      → Steady P
      → P before
      → Outcome (λ a. Q) (λ e d. Unit) r db
      → Outcome (λ a. Q) (λ e. P) (conclude before (r, db)).0 (conclude before (r, db)).1
  unfolding conclude
  concluded before db (ok done) steady p h = h
  concluded before db (err e) steady p h = steady before db.faults p

  -- A transaction that fails keeps what held before it.
  pub Triple-transaction :
      (body : Exec Db StoreError Unit)
      → Steady P
      → Steady Q
      → Triple P (λ a. Q) (λ e d. Unit) body
      → Triple P (λ a. Q) (λ e. P) (transaction body)
  unfolding transaction begin commit
  Triple-transaction body steady steady' h = record {
    at = λ db p. concluded db _ _ steady p (
        (Triple-bind P (λ a. Q) (λ a. Q) (λ e d. Unit) _ (λ a. statement (pure tt))
            (Triple-bind P (λ a. P) (λ a. Q) (λ e d. Unit) (statement (pure tt)) (λ a. body)
              (Triple-statement P (λ a. P) (λ e d. Unit) (pure tt) steady (λ d q. tt)
                (record { at = λ d q. q }))
              (λ a. h))
            (λ a.
              Triple-statement Q (λ a. Q) (λ e d. Unit) (pure tt) steady' (λ d q. tt)
                (record { at = λ d q. q }))).at
          db p);
  }

pub Keeps-statement :
    {A : Type 0} (P : Db → Type 0) (body : Exec Db StoreError A)
    → Steady P
    → Keeps P body
    → Keeps P (statement body)
Keeps-statement P body steady h = Triple→Keeps P _ (
    Triple-statement P (λ a. P) (λ e. P) body steady (λ db p. p)
      (Keeps→Triple P (λ a. P) (λ e. P) body h (λ a db p. p) (λ e db p. p)))
