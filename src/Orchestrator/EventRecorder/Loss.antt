-- ===== src/Orchestrator/EventRecorder/Loss.antt =====
-- Events that the recorder of internal/orchestrator/eventrecorder.go does not keep.
use oikos.Common.{
  ℕ, ◌<◌, ◌≡◌, ◌∙◌, refl, String, Bool, ◌||◌, List, [], ◌∷◌, ◌++◌, lt→ltb, arith, Bool-cases, inl,
  inr,
}
use oikos.Common.Keeps.{Keeps, keeps_rules, Keeps-raise}
use oikos.Orchestrator.EventBus.{Event}
use oikos.Store.{StoredEvent, Db}
use oikos.Store.Statements.{Keeps-statement}
use oikos.Store.Events.{has_event, dangling, insert_event, check_metadata, save_event, events_from}
use oikos.Orchestrator.EventRecorder.{next_sequence, recorded, record_event, start}

module _ (before : ℕ) where
  events_from-append :
      (rows : List StoredEvent) (e : StoredEvent)
      → e.created_at < before
      → events_from before (rows ++ e ∷ []) ≡ events_from before rows
  unfolding events_from
  events_from-append [] e old = rw (lt→ltb e.created_at before old) refl
  events_from-append (r ∷ rows) e old = rw (events_from-append rows e old) refl

  -- Pruning leaves exactly `kept`.
  abbrev Leaves : List StoredEvent → Db → Type 0
  Leaves kept db = events_from before db.events ≡ kept

  module _ (kept : List StoredEvent) where
    Leaves-insert_event :
        (e : StoredEvent) → e.created_at < before → Keeps (Leaves kept) (insert_event e)
    unfolding insert_event
    Leaves-insert_event e old =
        Keeps-statement (Leaves kept) _ (λ db fs h. h)
          (record {
            at = λ db h. elim (Bool-cases (has_event e.id db.events || dangling e.server_id db)) [
              | inl refused ↦ rw refused h
              | inr allowed ↦ rw allowed (events_from-append db.events e old ∙ h)
            ];
          })

    Leaves-check_metadata :
        (jv : String → Bool) (e : StoredEvent) → Keeps (Leaves kept) (check_metadata jv e)
    unfolding check_metadata
    Leaves-check_metadata jv e =
        Keeps-statement (Leaves kept) _ (λ db fs h. h) (record { at = λ db h. ground (arith, h) })

    Leaves-save_event :
        (jv : String → Bool) (e : StoredEvent)
        → e.created_at < before
        → Keeps (Leaves kept) (save_event jv e)
    unfolding save_event
    Leaves-save_event jv e old =
        search (keeps_rules, Keeps-raise, Leaves-check_metadata, Leaves-insert_event) depth 10

    Leaves-start :
        (jv : String → Bool) (evs : List Event) (n : ℕ) (db : Db)
        → 0 < before
        → Leaves kept db
        → Leaves kept (start jv evs (n, db)).1
    unfolding start record_event recorded
    Leaves-start jv [] n db late h = h
    Leaves-start jv (ev ∷ evs) n db late h =
        Leaves-start jv evs (next_sequence n) _ late
          ((Leaves-save_event jv (recorded (next_sequence n) ev) late).at db h)

-- The recorder stores its events at the zero time, so after it has recorded any events, whichever
-- statements fail, PruneEvents with a limit after that time leaves exactly the rows that it would
-- have left without them.
pub start-pruned :
    (jv : String → Bool) (evs : List Event) (n before : ℕ) (db : Db)
    → 0 < before
    → events_from before (start jv evs (n, db)).1.events ≡ events_from before db.events
start-pruned jv evs n before db late =
    Leaves-start before (events_from before db.events) jv evs n db late refl
