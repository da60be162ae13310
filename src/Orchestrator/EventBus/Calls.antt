-- ===== src/Orchestrator/EventBus/Calls.antt =====
-- Any sequence of calls on a new event bus.
use oikos.Common.{ℕ, String, List, [], ◌∷◌}
use oikos.Orchestrator.EventBus.{Event, EventBus, new_event_bus, subscribe, cancel, publish}
use oikos.Orchestrator.EventBus.Invariant.{
  IsConsistent, new_event_bus-IsConsistent, subscribe-IsConsistent, cancel-IsConsistent,
  publish-IsConsistent,
}

-- The calls on the bus, in the order in which they get its lock.
pub data Call : Type 0 where
  subscribing : String → Call
  cancelling : String → ℕ → Call
  publishing : Event → Call

unfoldable pub run : Call → EventBus → EventBus
run (subscribing t) b = (subscribe t b).1
run (cancelling t c) b = cancel t c b
run (publishing ev) b = publish ev b

unfoldable pub run_all : List Call → EventBus → EventBus
run_all [] b = b
run_all (call ∷ calls) b = run_all calls (run call b)

run-IsConsistent : (call : Call) (b : EventBus) → IsConsistent b → IsConsistent (run call b)
unfolding run
run-IsConsistent (subscribing t) b h = subscribe-IsConsistent b h t
run-IsConsistent (cancelling t c) b h = cancel-IsConsistent b h t c
run-IsConsistent (publishing ev) b h = publish-IsConsistent ev b h

run_all-keeps : (calls : List Call) (b : EventBus) → IsConsistent b → IsConsistent (run_all calls b)
unfolding run_all
run_all-keeps [] b h = h
run_all-keeps (call ∷ calls) b h = run_all-keeps calls (run call b) (run-IsConsistent call b h)

-- After any sequence of subscriptions, cancellations and publications on a new bus, every channel is
-- registered at most once in one topic, is one that was made, and holds 64 events at most.
pub run_all-IsConsistent : (calls : List Call) → IsConsistent (run_all calls new_event_bus)
run_all-IsConsistent calls = run_all-keeps calls new_event_bus new_event_bus-IsConsistent
