-- ===== src/Orchestrator/EventRecorder/Collisions.antt =====
-- The ids of the recorder of internal/orchestrator/eventrecorder.go after a restart of the process.
use oikos.Common.{
  ℕ, zero, suc, ◌≤◌, ◌≡◌, ◌≢◌, ◌∙◌, ap, refl, String, Bool, true, false, ◌||◌, List, [], ◌∷◌, ◌++◌,
  length, arith, Bool-cases, inl, inr, ne→=?_false, =?_refl, ◌=?◌, if◌then◌else◌,
}
use oikos.Common.Lists.{All, All-imp}
use text.Mathlib.TextLemmas.{length-append}
use Prim.Native.String.{count}
use oikos.Common.Exec.{ok, ◌>>=◌}
use oikos.Orchestrator.EventBus.{Event}
use oikos.Store.{StoredEvent, Db}
use oikos.Store.Servers.Triples.{statement-calm}
use oikos.Store.Events.{has_event, dangling, insert_event, check_metadata, save_event}
use oikos.Orchestrator.EventRecorder.{
  decimal, next_sequence, event_id, recorded, record_event, start,
}

-- The next numbers of the counter.
abbrev draws : ℕ → ℕ → List ℕ
draws n zero = []
draws n (suc k) = next_sequence n ∷ draws (next_sequence n) k

abbrev IsStored : Db → ℕ → Type 0
IsStored db i = has_event (event_id i) db.events ≡ true

has_event-append :
    (id : String) (rows : List StoredEvent) (e : StoredEvent)
    → has_event id (rows ++ e ∷ []) ≡ (has_event id rows || e.id =? id)
unfolding has_event
has_event-append id [] e = ground arith
has_event-append id (r ∷ rows) e = ground (arith, has_event-append id rows e)

-- What the second process finds: no statement fails, references hold as before, and no row is gone.
record Extends (old db : Db) : Type 0 where
  calm : db.faults ≡ []
  servers : db.servers ≡ old.servers
  keys : db.foreign_keys ≡ old.foreign_keys
  rows : (i : ℕ) → IsStored old i → IsStored db i

-- An event that the database takes: with a type, and of no server or of a stored one.
abbrev pub IsAccepted : Db → Event → Type 0
IsAccepted db ev = ((ev.kind =? "") ≡ false) × (dangling ev.server_id db ≡ false)

event_id-nonempty : (n : ℕ) → event_id n ≢ ""
unfolding event_id
event_id-nonempty n h = omega (arith, ap count h, length-append "event-" (decimal 20 n))

-- What SaveEvent does with an accepted event where no statement fails.
abbrev with_row : StoredEvent → Db → Db
with_row e db = if has_event e.id db.events then db else record db { events = db.events ++ e ∷ [] }

inserted :
    (e : StoredEvent) (db : Db)
    → db.faults ≡ []
    → dangling e.server_id db ≡ false
    → (insert_event e db).1 ≡ with_row e db
unfolding insert_event
inserted e db calm known = rw (statement-calm _ db calm) (
    rw known (elim (Bool-cases (has_event e.id db.events)) [
      | inl old ↦ rw old refl
      | inr new ↦ rw new refl
    ]))

checked :
    (jv : String → Bool) (e : StoredEvent) (db : Db)
    → db.faults ≡ []
    → jv e.metadata ≡ true
    → check_metadata jv e db ≡ (ok tt, db)
unfolding check_metadata
checked jv e db calm valid = rw (statement-calm _ db calm) (rw valid refl)

module _ (jv : String → Bool) (valid : jv "{}" ≡ true) where
  saved :
      (m : ℕ) (ev : Event) (db : Db)
      → db.faults ≡ []
      → IsAccepted db ev
      → (save_event jv (recorded m ev) db).1 ≡ with_row (recorded m ev) db
  unfolding save_event recorded ◌>>=◌
  saved m ev db calm h = rw (ne→=?_false (event_id m) "" (event_id-nonempty m)) (
      rw h.0 (rw (checked jv (recorded m ev) db calm valid) (inserted (recorded m ev) db calm h.1)))

with_row-Extends : (e : StoredEvent) (db : Db) → db.faults ≡ [] → Extends db (with_row e db)
with_row-Extends e db calm = elim (Bool-cases (has_event e.id db.events)) [
  | inl old ↦ rw old (record { calm = calm; servers = refl; keys = refl; rows = λ i h. h })
  | inr new ↦ rw new (record {
    calm = calm;
    servers = refl;
    keys = refl;
    rows = λ i h. ground (arith, has_event-append (event_id i) db.events e, h);
  })
]

stored : (e : StoredEvent) (db : Db) → has_event e.id (with_row e db).events ≡ true
stored e db = elim (Bool-cases (has_event e.id db.events)) [
  | inl old ↦ rw old old
  | inr new ↦ rw new (ground (arith, has_event-append e.id db.events e, =?_refl e.id))
]

Extends-trans : {a b c : Db} → Extends a b → Extends b c → Extends a c
Extends-trans h k = record {
  calm = k.calm;
  servers = k.servers ∙ h.servers;
  keys = k.keys ∙ h.keys;
  rows = λ i r. k.rows i (h.rows i r);
}

accepted : {old db : Db} → Extends old db → (ev : Event) → IsAccepted old ev → IsAccepted db ev
unfolding dangling
accepted h ev a = (a.0, rw h.keys (rw h.servers a.1))

fewer :
    (db : Db) (n j k : ℕ) → j ≤ k → All (IsStored db) (draws n k) → All (IsStored db) (draws n j)
fewer db n zero k le h = tt
fewer db n (suc j) zero le h = absurd (omega (arith, le))
fewer db n (suc j) (suc k) le h = (h.0, fewer db (next_sequence n) j k (omega (arith, le)) h.1)

module _ (jv : String → Bool) (valid : jv "{}" ≡ true) where
  recorded-Extends :
      (ev : Event) (n : ℕ) (db : Db)
      → db.faults ≡ []
      → IsAccepted db ev
      → Extends db (record_event jv ev (n, db)).1
        × IsStored (record_event jv ev (n, db)).1 (next_sequence n)
  unfolding record_event recorded
  recorded-Extends ev n db calm a = rw (saved jv valid (next_sequence n) ev db calm a) (
    with_row-Extends (recorded (next_sequence n) ev) db calm,
    stored (recorded (next_sequence n) ev) db,
  )

  start-Extends :
      (evs : List Event) (n : ℕ) (db : Db)
      → db.faults ≡ []
      → All (IsAccepted db) evs
      → Extends db (start jv evs (n, db)).1
        × All (IsStored (start jv evs (n, db)).1) (draws n (length evs))
  unfolding start record_event
  start-Extends [] n db calm a =
      (record { calm = calm; servers = refl; keys = refl; rows = λ i h. h }, tt)
  start-Extends (ev ∷ evs) n db calm a =
      let first = recorded-Extends ev n db calm a.0 in
      let rest =
        start-Extends evs (next_sequence n) (record_event jv ev (n, db)).1 first.0.calm
          (All-imp (IsAccepted db) _ evs (accepted first.0) a.1) in
      (Extends-trans first.0 rest.0, (rest.0.rows (next_sequence n) first.1, rest.1))

  unchanged :
      (ev : Event) (n : ℕ) (db : Db)
      → db.faults ≡ []
      → IsAccepted db ev
      → IsStored db (next_sequence n)
      → record_event jv ev (n, db) ≡ (next_sequence n, db)
  unfolding record_event recorded
  unchanged ev n db calm a h =
      ap (λ d. (next_sequence n, d)) (saved jv valid (next_sequence n) ev db calm a ∙ rw h refl)

  start-lost :
      (evs : List Event) (n : ℕ) (db : Db)
      → db.faults ≡ []
      → All (IsAccepted db) evs
      → All (IsStored db) (draws n (length evs))
      → (start jv evs (n, db)).1 ≡ db
  unfolding start
  start-lost [] n db calm a h = refl
  start-lost (ev ∷ evs) n db calm a h =
      ap (λ s. (start jv evs s).1) (unchanged ev n db calm a.0 h.0)
      ∙ start-lost evs (next_sequence n) db calm a.1 h.1

  -- If no statement fails, then of the events that are recorded after a restart of the process,
  -- all with a type and of no server or of a stored one, none is stored, up to as many as
  -- the process before it has recorded: their ids are taken, and the error is ignored.
  pub restart-loses :
      (evs later : List Event) (db : Db)
      → db.faults ≡ []
      → All (IsAccepted db) evs
      → All (IsAccepted db) later
      → length later ≤ length evs
      → (start jv later (0, (start jv evs (0, db)).1)).1 ≡ (start jv evs (0, db)).1
  restart-loses evs later db calm a b le =
      let first = start-Extends evs 0 db calm a in
      start-lost later 0 (start jv evs (0, db)).1 first.0.calm
        (All-imp (IsAccepted db) _ later (accepted first.0) b)
        (fewer (start jv evs (0, db)).1 0 (length later) (length evs) le first.1)
