-- ===== src/Examples/Orchestrator.antt =====
-- The event bus, the lifecycle, the crash observer and the self-healer on concrete inputs.
use oikos.Common.{
  String, ◌≡◌, refl, ◌-◌, true, false, none, some, List, [], ◌∷◌, ◌++◌, arith, lookup, put, delete,
  ◌=?◌, if◌then◌else◌,
}
use oikos.Common.Int.{pos}
use oikos.Common.Exec.{ok, ◌>>=◌}
use oikos.Common.Triples.{Outcome}
use oikos.Store.{statement}
use oikos.Store.Servers.{find_server, get_server, update_server_status, modify_server}
use oikos.Orchestrator.EventBus.{
  Event, EventBus, new_event_bus, subscribe, cancel, publish, publish_all,
}
use oikos.Orchestrator.EventBus.Members.{member}
use oikos.Orchestrator.EventBus.Invariant.{IsConsistent}
use oikos.Orchestrator.EventBus.Delivery.{hears, publish-cancel}
use oikos.Orchestrator.EventBus.Streams.{take, heard, publish_all-buffer}
use oikos.Orchestrator.EventBus.Calls.{
  Call, subscribing, publishing, run, run_all, run_all-IsConsistent,
}
use oikos.Orchestrator.Lifecycle.{World, set_manual, announce}
use oikos.Orchestrator.Lifecycle.Create.{create}
use oikos.Orchestrator.Lifecycle.Create.Atomic.{new_row, create-atomic}
use oikos.Orchestrator.Lifecycle.Operations.{stop, restart}
use oikos.Orchestrator.CrashObserver.{Watch}
use oikos.Orchestrator.CrashObserver.Reports.{
  judge_all, crashes, publish_times, crashed, judge_all-bus, restart-hides_crash,
}
use oikos.Orchestrator.RestartPolicy.{RestartPolicy}
use oikos.Orchestrator.SelfHealer.{Circumstances, Healer}
use oikos.Orchestrator.SelfHealer.Bounded.{heal_all, after_crashes, heal_all-bounded}
use oikos.Runtime.{running, stopped}
use oikos.Runtime.Fake.{Fake, set}
use oikos.Runtime.Fake
use oikos.Tunnel.Frp.Servers.{frp-LeavesServers}
use oikos.Examples.Values.{setup, parts, row, fresh_world, busy_world}
use oikos.Examples.Tunnels.{differ}

abbrev started : Event
started = record { kind = "server.started"; server_id = "s1" }

abbrev calls : List Call
calls = subscribing "server.started" ∷ subscribing "*" ∷ publishing started ∷ []

run_all-IsConsistent_example : IsConsistent (run_all calls new_event_bus)
run_all-IsConsistent_example = run_all-IsConsistent calls

abbrev bus : EventBus
bus = run_all calls new_event_bus

bus-IsConsistent : IsConsistent bus
bus-IsConsistent = run_all-IsConsistent calls

publish_all-buffer_example :
    (publish_all (started ∷ started ∷ []) bus).buffer 0
    ≡ take 64 (bus.buffer 0 ++ heard (hears bus 0) (started ∷ started ∷ []))
publish_all-buffer_example =
    publish_all-buffer (started ∷ started ∷ []) bus 0 bus-IsConsistent
      (differ refl, (differ refl, tt))

live : bus.cancelled 0 ≡ false
unfolding run_all run subscribe publish new_event_bus
live = refl

listed : member 0 (bus.subs "server.started") ≡ true
unfolding run_all run subscribe publish new_event_bus
listed = refl

publish-cancel_example :
    ((publish started (cancel "server.started" 0 bus)).buffer 0 ≡ bus.buffer 0)
    × ((publish started (cancel "server.started" 0 bus)).buffer 1 ≡ (publish started bus).buffer 1)
publish-cancel_example =
    publish-cancel started "server.started" 0 1 bus bus-IsConsistent (differ refl) live listed
      (λ h. absurd (omega (arith, h)))

none_yet : find_server "s9" fresh_world.db.servers ≡ none
unfolding find_server
none_yet = refl

create-atomic_example :
    Outcome
      (λ i (w' : World parts).
        (i ≡ "s9")
        × ((j : String)
            → find_server j w'.db.servers ≡ (
                if "s9" =? j
                then some (new_row "s9" "one" "egg" "run" [])
                else find_server j fresh_world.db.servers)))
      (λ e w'. (j : String) → find_server j w'.db.servers ≡ find_server j fresh_world.db.servers)
      (create parts "s9" "one" "egg" "run" [] fresh_world).0
      (create parts "s9" "one" "egg" "run" [] fresh_world).1
create-atomic_example =
    create-atomic parts (frp-LeavesServers setup) "s9" "one" "egg" "run" [] fresh_world refl
      none_yet

abbrev seen : Watch parts
seen = record { world = busy_world; previous = λ j. some running }

judge_all-bus_example :
    (judge_all parts 7 row (stopped ∷ running ∷ stopped ∷ []) seen).world.bus
    ≡ publish_times parts
        (crashes parts (some running) (stopped ∷ running ∷ stopped ∷ []) - 0)
        (crashed parts row)
        busy_world.bus
judge_all-bus_example = judge_all-bus parts 7 row (stopped ∷ running ∷ stopped ∷ []) seen

read_row : (get_server "s1" busy_world.db).0 ≡ ok row
unfolding get_server statement find_server
read_row = refl

stops : (stop parts "s1" busy_world).0 ≡ ok tt
unfolding stop ◌>>=◌ set_manual announce get_server update_server_status modify_server statement
    find_server Fake.stop set lookup
stops = refl

restart-hides_crash_example :
    let again = (restart parts "s1" (stop parts "s1" busy_world).1).1 in
    (judge_all parts 7 row
      (running ∷ stopped ∷ [])
      (record { world = again; previous = λ j. some running })).world.bus
    ≡ publish_times parts
        (crashes parts (some running) (running ∷ stopped ∷ []) - 1)
        (crashed parts row)
        again.bus
restart-hides_crash_example =
    restart-hides_crash parts 7 row busy_world (running ∷ stopped ∷ []) (λ j. some running) read_row
      (differ refl) stops

abbrev policy : RestartPolicy
policy = record {
  max_retries = pos 2;
  backoff_base = pos 5;
  backoff_max = pos 300;
  stable_reset_after = pos 300;
}

abbrev circumstances : Circumstances
circumstances = record {
  now = 7;
  failed_id = "e1";
  recovered_id = "e2";
  json_valid = λ text. true;
  cancelled = false;
}

abbrev healer : Healer parts policy
healer = record { world = busy_world; manual = λ j. false }

-- The container is known to the engine.
abbrev Alive : Fake → Type 0
Alive f = f.containers ≡ ("c1", running) ∷ []

revives : (s : Fake) → Alive s → ((Fake.restart "c1" s).0 ≡ ok tt) × Alive (Fake.restart "c1" s).1
unfolding Fake.restart set lookup put delete
revives s alive = rw alive (refl, refl)

found : find_server "s1" (row ∷ []) ≡ some row
unfolding find_server
found = refl

heal_all-bounded_example :
    (get_server "s1"
      (heal_all parts policy (circumstances ∷ circumstances ∷ []) "s1" healer).world.db).0
    ≡ ok (after_crashes 2 2 row)
heal_all-bounded_example =
    heal_all-bounded parts policy Alive "c1" (differ refl) revives 2 "s1"
      (circumstances ∷ circumstances ∷ []) (λ j. find_server j (row ∷ [])) row healer refl
      (omega arith) refl (refl, (refl, tt)) found
      (record { shows = record { calm = refl; rows = λ j. refl }; alive = refl; unmarked = refl })
