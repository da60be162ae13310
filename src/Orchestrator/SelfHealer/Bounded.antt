-- ===== src/Orchestrator/SelfHealer/Bounded.antt =====
-- internal/orchestrator/selfheal.go: what crash after crash makes of the row of a server.
use oikos.Common.{
  ℕ, zero, suc, ◌+◌, ◌≤◌, String, ◌≡◌, ◌≢◌, refl, ap, ◌∙◌, Bool, true, false, List, [], ◌∷◌, some,
  arith, length, All, leb, min, =?_refl, if◌then◌else◌, Bool-cases, inl, inr,
}
use oikos.Common.Int.{pos}
use oikos.Common.Exec.{ok}
use oikos.Orchestrator.Lifecycle.{Parts, World}
use oikos.Orchestrator.RestartPolicy.{RestartPolicy}
use oikos.Orchestrator.SelfHealer.{
  Circumstances, Healer, handle, ignore, give_up, restarted, recover, attempt, exhausted,
}
use oikos.Store.{Server}
use oikos.Store.Servers.{get_server, update_server_status, increment_restart_count, modify_server}
use oikos.Store.Servers.Laws.{map_option}
use oikos.Store.Servers.Triples.{View, Shows, Shows-ext, set_row, with_status}
use oikos.Orchestrator.SelfHealer.Rules.{
  updated, Shows-save_event, ignore-keeps, ignore-modify, revived, restart_lem, get_server-found,
}

-- The handler run for crash after crash of a server, where each run ends before the next begins. The
-- source starts each run in a goroutine of its own; runs that overlap are not modelled.
unfoldable pub heal_all :
    (p : Parts) (policy : RestartPolicy)
    → List Circumstances
    → String
    → Healer p policy
    → Healer p policy
heal_all p policy [] id h = h
heal_all p policy (c ∷ cs) id h = heal_all p policy cs id (handle p policy c id h).1

-- The row that `n` crashes leave, where a server is restarted `m` times at most.
unfoldable pub after_crashes : ℕ → ℕ → Server → Server
after_crashes m zero row = row
after_crashes m (suc n) row = record row {
  restart_count = min (row.restart_count + suc n) m;
  status = if leb (row.restart_count + suc n) m then "running" else "crash_looping";
}

abbrev again : Server → Server
again s = record s { restart_count = s.restart_count + 1 }

-- What one run of the handler makes of the row of the crashed server.
abbrev pub next_row : Bool → Server → Server
next_row true row = with_status "crash_looping" row
next_row false row = again (with_status "running" row)

next_row-container : (b : Bool) (row : Server) → (next_row b row).container_id ≡ row.container_id
next_row-container true row = refl
next_row-container false row = refl

-- `Alive` holds of the engine, and while it does a restart of the container succeeds and keeps it.
module _ (p : Parts) (policy : RestartPolicy) (Alive : p.rt.State → Type 0) (container : String)
    (has : container ≢ "")
    (revives : (s : p.rt.State)
      → Alive s
      → ((p.rt.restart container s).0 ≡ ok tt) × Alive (p.rt.restart container s).1) where
  -- The row of the server is `row`, the engine is alive, and no mark of a manual stop is set.
  pub record Ready (id : String) (f : View) (h : Healer p policy) : Type 0 where
    pub shows : Shows f h.world.db
    pub alive : Alive h.world.rt
    pub unmarked : h.manual id ≡ false

  give_up-Shows :
      (c : Circumstances) (id : String) (f : View) (row : Server) (w : World p)
      → Shows f w.db
      → f id ≡ some row
      → Shows (set_row id (some (with_status "crash_looping" row)) f) (give_up p policy c id w).db
  unfolding give_up update_server_status
  give_up-Shows c id f row w h read =
      ignore-keeps (set_row id (some (with_status "crash_looping" row)) f) p policy _
        (ignore p policy (modify_server id (with_status "crash_looping")) w)
        (Shows-save_event _ c.json_valid _)
        (rw (ap (map_option (with_status "crash_looping")) read) at
          (ignore-modify f p policy id (with_status "crash_looping") w (λ s. refl) h))

  restarted-Shows :
      (c : Circumstances) (id : String) (f : View) (row : Server) (w : World p)
      → Shows f w.db
      → f id ≡ some row
      → Shows (set_row id (some (again row)) f) (restarted p policy c id (ok tt, w)).db
  unfolding restarted increment_restart_count
  restarted-Shows c id f row w h read =
      ignore-keeps (set_row id (some (again row)) f) p policy _
        (ignore p policy (modify_server id again) w) (Shows-save_event _ c.json_valid _)
        (rw (ap (map_option again) read) at (ignore-modify f p policy id again w (λ s. refl) h))

  -- What is written after a restart that succeeded.
  recovered-Shows :
      (c : Circumstances) (id : String) (f : View) (row : Server) (w : World p)
      → Shows (set_row id (some (with_status "running" row)) f) w.db
      → Shows
          (set_row id (some (again (with_status "running" row))) f)
          (restarted p policy c id (ok tt, w)).db
  recovered-Shows c id f row w h =
      Shows-ext (λ j. ground arith)
        (restarted-Shows c id (set_row id (some (with_status "running" row)) f)
          (with_status "running" row) w h (rw (=?_refl id) refl))

  abbrev after : String → View → Server → View
  after id f row = set_row id (some (next_row (exhausted p policy row.restart_count) row)) f

  revives_row :
      (row : Server) (s : p.rt.State)
      → row.container_id ≡ container
      → Alive s
      → ((p.rt.restart row.container_id s).0 ≡ ok tt) × Alive (p.rt.restart row.container_id s).1
  revives_row row s named alive = rw named (revives s alive)

  handle-Ready :
      (c : Circumstances) (id : String) (f : View) (row : Server) (h : Healer p policy)
      → c.cancelled ≡ false
      → f id ≡ some row
      → row.container_id ≡ container
      → Ready id f h
      → Ready id (after id f row) (handle p policy c id h).1
  unfolding handle attempt recover
  handle-Ready c id f row h going read named r =
      rw
        (
          r.unmarked,
          get_server-found id h.world.db row r.shows.calm (r.shows.rows id ∙ read),
          going,
        )
        (elim (Bool-cases (exhausted p policy row.restart_count)) [
          | inl over ↦ rw over (record {
            shows = give_up-Shows c id f row h.world r.shows read;
            alive = r.alive;
            unmarked = rw (=?_refl id) refl;
          })
          | inr under ↦
              rw
                (
                  under,
                  restart_lem p id h.world row r.shows.calm (r.shows.rows id ∙ read) (rw named has)
                      (revives_row row h.world.rt named r.alive).0,
                )
                (record {
                  shows = recovered-Shows c id f row (revived p id row h.world) (
                      updated f h.world.db id (with_status "running") row (λ s. refl) read r.shows);
                  alive = (revives_row row h.world.rt named r.alive).1;
                  unmarked = rw (=?_refl id) refl;
                })
        ])

  next-after :
      (m n : ℕ) (row : Server)
      → policy.max_retries ≡ pos m
      → row.restart_count ≤ m
      → after_crashes m n (next_row (exhausted p policy row.restart_count) row)
        ≡ after_crashes m (suc n) row
  unfolding after_crashes exhausted
  next-after m zero row limit le = elim (Bool-cases (exhausted p policy row.restart_count)) [
    | inl over ↦ rw over (ground arith)
    | inr under ↦ rw under (ground arith)
  ]
  next-after m (suc n) row limit le = elim (Bool-cases (exhausted p policy row.restart_count)) [
    | inl over ↦ rw over (ground arith)
    | inr under ↦ rw under (ground arith)
  ]

  next_row-le :
      (m : ℕ) (row : Server)
      → policy.max_retries ≡ pos m
      → row.restart_count ≤ m
      → (next_row (exhausted p policy row.restart_count) row).restart_count ≤ m
  unfolding exhausted
  next_row-le m row limit le = elim (Bool-cases (exhausted p policy row.restart_count)) [
    | inl over ↦ rw over (ground arith)
    | inr under ↦ rw under (ground arith)
  ]

  -- A server that crashes again and again, each time after the handler of the crash before has ended
  -- and with nothing else failing, is restarted until its count reaches the limit `m` of the policy,
  -- and is "crash_looping" from the next crash on: after n crashes at any times the count is the
  -- lesser of its old value plus n and m, as it is not reset however long the server runs between
  -- two crashes. No context ends during a wait, no mark of a
  -- manual stop is set, and the container can be restarted as long as the engine is `Alive`.
  pub heal_all-bounded :
      (m : ℕ) (id : String) (cs : List Circumstances) (f : View) (row : Server)
      (h : Healer p policy)
      → policy.max_retries ≡ pos m
      → row.restart_count ≤ m
      → row.container_id ≡ container
      → All (λ c. c.cancelled ≡ false) cs
      → f id ≡ some row
      → Ready id f h
      → (get_server id (heal_all p policy cs id h).world.db).0
        ≡ ok (after_crashes m (length cs) row)
  unfolding heal_all after_crashes
  heal_all-bounded m id [] f row h limit le named going read r =
      ap (λ x. x.0) (get_server-found id h.world.db row r.shows.calm (r.shows.rows id ∙ read))
  heal_all-bounded m id (c ∷ cs) f row h limit le named going read r =
      heal_all-bounded m id cs (after id f row) (next_row over row) (handle p policy c id h).1 limit
        (next_row-le m row limit le) (next_row-container over row ∙ named) going.1
        (rw (=?_refl id) refl) (handle-Ready c id f row h going.0 read named r)
      ∙ ap ok (next-after m (length cs) row limit le)
    where
      over : Bool
      over = exhausted p policy row.restart_count
