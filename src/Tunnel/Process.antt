-- ===== src/Tunnel/Process.antt =====
-- internal/tunnel/process.go: the frpc child process. A child reads its configuration file once,
-- when it starts; `start` is given what stands in the file then.
use oikos.Common.{String, Bool, true, false, Option, none, some, List, [], ◌∷◌}
use oikos.Common.Exec.{ok, err, Exec, ◌>>◌}

pub record ProcessController (D : Type 0) : Type 1 where
  pub State : Type 0
  pub start : Option D → Exec State String Unit
  pub stop : Exec State String Unit
  pub reload : Option D → Exec State String Unit

-- `child` is the configuration that the running child has read. `faults` says which coming launches
-- and terminations report an error.
pub record OsProcess (D : Type 0) : Type 0 where
  pub child : Option (Option D)
  pub faults : List Bool

module _ {D : Type 0} where
  spawn : Option D → List Bool → Exec (OsProcess D) String Unit
  spawn config [] p = (ok tt, record p { child = some config })
  spawn config (true ∷ fs) p = (err "start frpc", record p { faults = fs })
  spawn config (false ∷ fs) p = (ok tt, record { child = some config; faults = fs })

  begin : Option D → Option (Option D) → Exec (OsProcess D) String Unit
  begin config none p = spawn config p.faults p
  begin config (some old) p = (ok tt, p)

  -- A child that is there already is left to run as it is.
  unfoldable pub start : Option D → Exec (OsProcess D) String Unit
  unfolding begin spawn
  start config p = begin config p.child p

  terminate : List Bool → Exec (OsProcess D) String Unit
  terminate [] p = (ok tt, p)
  terminate (true ∷ fs) p = (err "stop frpc", record p { faults = fs })
  terminate (false ∷ fs) p = (ok tt, record p { faults = fs })

  finish : Option (Option D) → Exec (OsProcess D) String Unit
  finish none p = (ok tt, p)
  finish (some old) p = terminate p.faults (record p { child = none })

  -- The controller forgets the child before it is terminated, so an error leaves none behind.
  unfoldable pub stop : Exec (OsProcess D) String Unit
  unfolding finish terminate
  stop p = finish p.child p

  unfoldable pub reload : Option D → Exec (OsProcess D) String Unit
  unfolding start stop
  reload config = do stop; start config

  abbrev pub os_process : ProcessController D
  os_process = record { State = OsProcess D; start = start; stop = stop; reload = reload }
