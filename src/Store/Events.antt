-- ===== src/Store/Events.antt =====
-- The statements of internal/store/sqlite.go on the table `events`.
use oikos.Common.{
  zero, suc, Option, none, some, not, ◌&&◌, leb, ℕ, String, Bool, true, false, ◌||◌, List, [], ◌∷◌,
  ◌++◌, ◌=?◌, if◌then◌else◌, ltb,
}
use oikos.Common.Int.{ℤ, pos, pos_part, ltb_ℤ}
use oikos.Store.Servers.{find_server, is_some}
use oikos.Common.Exec.{Result, ok, err, Exec, raise, ◌>>◌}
use oikos.Store.{StoredEvent, Db, StoreError, constraint, invalid, null_column, statement}

unfoldable pub has_event : String → List StoredEvent → Bool
has_event id [] = false
has_event id (e ∷ rows) = e.id =? id || has_event id rows

abbrev pub or_default : String → String → String
or_default d s = if s =? "" then d else s

abbrev pub with_defaults : StoredEvent → StoredEvent
with_defaults e = record e {
  severity = or_default "info" e.severity;
  metadata = or_default "{}" e.metadata;
}

-- The column server_id references a server, where references are enforced; NULL references none.
unfoldable pub dangling : String → Db → Bool
dangling server db =
    db.foreign_keys && not (server =? "") && not (is_some (find_server server db.servers))

unfoldable pub insert_event : StoredEvent → Exec Db StoreError Unit
insert_event e = statement λ db.
    if has_event e.id db.events || dangling e.server_id db
    then (err constraint, db)
    else (ok tt, record db { events = db.events ++ e ∷ [] })

-- SQLite's json_valid
module _ (json_valid : String → Bool) where
  unfoldable pub check_metadata : StoredEvent → Exec Db StoreError Unit
  check_metadata e =
      statement λ db. if json_valid e.metadata then (ok tt, db) else (err invalid, db)

  unfoldable pub save_event : StoredEvent → Exec Db StoreError Unit
  save_event e =
      if e.id =? "" || e.kind =? "" || e.message =? ""
      then raise invalid
      else do check_metadata (with_defaults e); insert_event (with_defaults e)

pub record EventFilter : Type 0 where
  pub server_id : String
  pub kind : String
  pub from : Option ℕ
  pub to : Option ℕ
  pub limit : ℤ

-- The WHERE clause: a criterion that is not given is left out, and NULL equals nothing.
unfoldable pub selects : EventFilter → StoredEvent → Bool
selects f e =
    (f.server_id =? "" || not (e.server_id =? "") && e.server_id =? f.server_id)
    && (f.kind =? "" || e.kind =? f.kind)
    && elim f.from [ none ↦ true | some t ↦ leb t e.created_at ]
    && elim f.to [ none ↦ true | some t ↦ leb e.created_at t ]

-- ORDER BY created_at DESC
unfoldable pub insert_newest : StoredEvent → List StoredEvent → List StoredEvent
insert_newest e [] = e ∷ []
insert_newest e (d ∷ rows) =
    if ltb e.created_at d.created_at then d ∷ insert_newest e rows else e ∷ d ∷ rows

unfoldable pub selected : EventFilter → List StoredEvent → List StoredEvent
selected f [] = []
selected f (e ∷ rows) =
    let rest = selected f rows in if selects f e then insert_newest e rest else rest

unfoldable pub first : ℕ → List StoredEvent → List StoredEvent
first zero rows = []
first (suc n) [] = []
first (suc n) (e ∷ rows) = e ∷ first n rows

unfoldable pub row_limit : ℤ → ℕ
row_limit limit = if ltb_ℤ (pos 0) limit then pos_part limit else 1000

abbrev prepend :
    StoredEvent → Result StoreError (List StoredEvent) → Result StoreError (List StoredEvent)
prepend e (ok es) = ok (e ∷ es)
prepend e (err x) = err x

-- The loop over the rows scans server_id into a string, which refuses NULL and ends the listing.
unfoldable pub scan_events : List StoredEvent → Result StoreError (List StoredEvent)
scan_events [] = ok []
scan_events (e ∷ rows) = if e.server_id =? "" then err null_column else prepend e (scan_events rows)

unfoldable pub list_events : EventFilter → Exec Db StoreError (List StoredEvent)
list_events f = statement λ db. (scan_events (first (row_limit f.limit) (selected f db.events)), db)

unfoldable pub events_from : ℕ → List StoredEvent → List StoredEvent
events_from before [] = []
events_from before (e ∷ rows) =
    let rest = events_from before rows in if ltb e.created_at before then rest else e ∷ rest

unfoldable pub prune_events : ℕ → Exec Db StoreError Unit
prune_events before = statement λ db. (ok tt, record db { events = events_from before db.events })
