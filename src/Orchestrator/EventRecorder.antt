-- ===== src/Orchestrator/EventRecorder.antt =====
-- internal/orchestrator/eventrecorder.go: every event that the recorder receives is stored under
-- an id of its own sequence, which each process starts at 0. Times count from Go's zero time.
pub mod Loss
pub mod Collisions
use oikos.Common.{ℕ, zero, suc, ◌+◌, ◌/◌, ◌%◌, String, Bool, List, [], ◌∷◌, ltb, if◌then◌else◌}
use Prim.Native.String.{◌++◌ as append}
use oikos.Common.Exec.{Result}
use oikos.Orchestrator.EventBus.{Event}
use oikos.Store.{StoredEvent, Db, StoreError}
use oikos.Store.Events.{save_event}

abbrev digit : ℕ → String
digit n =
    if ltb n 1
    then "0"
    else if ltb n 2
    then "1"
    else if ltb n 3
    then "2"
    else if ltb n 4
    then "3"
    else if ltb n 5
    then "4"
    else if ltb n 6
    then "5"
    else if ltb n 7
    then "6"
    else if ltb n 8
    then "7"
    else if ltb n 9
    then "8"
    else "9"

-- `%d`, with the number of digits at most; a 64-bit number has at most 20.
unfoldable pub decimal : ℕ → ℕ → String
decimal zero n = ""
decimal (suc places) n =
    let front = decimal places (n / 10) in
    if ltb n 10 then digit n else append front (digit (n % 10))

-- newEventID: the value of the 64-bit counter after the addition.
unfoldable pub next_sequence : ℕ → ℕ
next_sequence n = (n + 1) % 18446744073709551616

unfoldable pub event_id : ℕ → String
event_id n = append "event-" (decimal 20 n)

-- The row of an event. `CreatedAt` is not set.
unfoldable pub recorded : ℕ → Event → StoredEvent
recorded n ev = record {
  id = event_id n;
  kind = ev.kind;
  server_id = ev.server_id;
  severity = "info";
  message = ev.kind;
  metadata = "{}";
  created_at = 0;
}

module _ (json_valid : String → Bool) where
  -- The counter and the database after one event; the error of SaveEvent is ignored.
  unfoldable pub record_event : Event → ℕ × Db → ℕ × Db
  record_event ev (n, db) =
      (next_sequence n, (save_event json_valid (recorded (next_sequence n) ev) db).1)

  -- The loop of Start over the events that it receives.
  unfoldable pub start : List Event → ℕ × Db → ℕ × Db
  start [] s = s
  start (ev ∷ evs) s = start evs (record_event ev s)
