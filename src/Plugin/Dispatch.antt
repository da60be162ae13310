-- ===== src/Plugin/Dispatch.antt =====
-- `DispatchEvent` of internal/plugin/registry.go: an event is sent to a plugin, and a plugin that
-- fails three times in a row is disabled. The hosts are parameters: processes with a state of their
-- own, each call on them under a timeout.
pub mod Breaker
use oikos.Common.{
  ℕ, ◌+◌, String, Bool, true, false, not, ◌&&◌, Option, none, some, List, [], ◌∷◌, ◌=?◌, leb,
  if◌then◌else◌,
}
use oikos.Common.Exec.{Result, ok, err, Exec}
use oikos.Orchestrator.EventBus.{Event}
use oikos.Store.{Db}
use oikos.Store.Plugins.{set_plugin_enabled}

module _ (Hosts : Type 0) (handle_event : String → Event → Exec Hosts String Unit) where
  -- `known` are the keys of the map `hosts`; a plugin without a flag in `enabled` is enabled.
  pub record Registry : Type 0 where
    pub hosts : Hosts
    pub known : String → Bool
    pub enabled : String → Option Bool
    pub failures : String → ℕ
    pub db : Option Db

  abbrev pub is_on : Option Bool → Bool
  is_on none = true
  is_on (some flag) = flag

  abbrev pub set_failures : String → ℕ → Registry → Registry
  set_failures id n r = record r { failures = λ j. if id =? j then n else r.failures j }

  -- The row of the plugin is disabled too, where there is a database and the write succeeds.
  disable_row : String → Option Db → Option Db
  disable_row id none = none
  disable_row id (some db) = some (set_plugin_enabled id false db).1

  disable : String → Registry → Registry
  unfolding disable_row
  disable id r = record r {
    enabled = λ j. if id =? j then some false else r.enabled j;
    db = disable_row id r.db;
  }

  count : String → Registry → Registry
  unfolding disable
  count id r =
      let counted = set_failures id (r.failures id + 1) r in
      if leb 3 (r.failures id + 1) then disable id counted else counted

  after : String → Result String Unit → Registry → Result String Unit × Registry
  unfolding count
  after id (ok done) r = (ok tt, set_failures id 0 r)
  after id (err e) r = (err e, count id r)

  unfoldable pub dispatch_event : String → Event → Registry → Result String Unit × Registry
  unfolding after
  dispatch_event id event r =
      if not (r.known id && is_on (r.enabled id))
      then (ok tt, r)
      else let (result, hosts) = handle_event id event r.hosts in
        after id result (record r { hosts = hosts })
