-- ===== src/Update/Handoff.antt =====
-- internal/update/handoff.go: the steps that hand the node over to a new daemon. The actions work on a
-- state of their own.
use oikos.Common.{String}
use oikos.Common.Exec.{Exec, ◌>>◌}

pub record HandoffActions (S : Type 0) : Type 0 where
  pub backup : Exec S String Unit
  pub health_check : String → Exec S String Unit
  pub migrate : Exec S String Unit
  pub drain : Exec S String Unit
  pub takeover : Exec S String Unit
  pub exit : Exec S String Unit

unfoldable pub run_handoff : {S : Type 0} → HandoffActions S → String → Exec S String Unit
run_handoff actions candidate = do
  actions.backup
  actions.health_check candidate
  actions.migrate
  actions.drain
  actions.takeover
  actions.exit
