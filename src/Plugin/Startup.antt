-- ===== src/Plugin/Startup.antt =====
-- `StartAll` and `StopAll` of internal/plugin/registry.go: the plugins are started in the order of
-- their ids, their routes registered, and events bridged to them; the first failure stops what has
-- been started. The hosts are parameters: processes with a state of their own.
pub mod Rollback
use oikos.Common.{
  String, Bool, true, false, not, ◌||◌, Option, none, some, List, [], ◌∷◌, ◌++◌, ◌=?◌,
  if◌then◌else◌,
}
use oikos.Common.Exec.{Result, ok, err, Exec}
use oikos.Common.Sort.{sort_by}
use oikos.Common.Int.{ℤ}
use oikos.Common.{ℕ}
use oikos.Orchestrator.EventBus.{EventBus, subscribe, cancel}
use oikos.Plugin.{Strings, PluginError}
use oikos.Plugin.Routes.{register, unregister}

-- What is known of the loaded plugins: the keys of the map `hosts`, the flags, and the manifests.
pub record Fleet : Type 1 where
  pub Hosts : Type 0
  pub Handler : Type 0
  pub strings : Strings
  pub start : String → Exec Hosts String Unit
  pub stop : String → Exec Hosts String Unit
  pub handler : String → String → Option Handler
  pub ids : List String
  pub enabled : String → Option Bool
  pub routes : String → List String
  pub events : String → List String

pub data StartError : Type 0 where
  not_started : String → String → StartError
  not_registered : String → PluginError → StartError

module _ (f : Fleet) where
  abbrev pub Routes : Type 0
  Routes = List (String × f.Handler)

  pub record State : Type 0 where
    pub hosts : f.Hosts
    pub proxy : Routes
    pub started : Bool
    pub bus : EventBus
    pub cancels : List (String × ℕ)  -- the subscriptions, each with its cancel function

  abbrev pub is_on : Option Bool → Bool
  is_on none = true
  is_on (some flag) = flag

  abbrev pub enabled_ids : List String → List String
  enabled_ids [] = []
  enabled_ids (id ∷ ids) =
      let rest = enabled_ids ids in if is_on (f.enabled id) then id ∷ rest else rest

  abbrev pub stop_host : String → State → State
  stop_host id st = record st {
    hosts = (f.stop id st.hosts).1;
    proxy = unregister f.strings id st.proxy;
  }

  -- rollbackStarted
  unfoldable pub rollback : List String → State → State
  rollback [] st = st
  rollback (id ∷ ids) st = rollback ids (stop_host id st)

  abbrev pub unless_refused :
      Result PluginError Unit
      → Routes
      → Result PluginError Unit × Routes
      → Result PluginError Unit × Routes
  unless_refused (err e) proxy rest = (err e, proxy)
  unless_refused (ok done) proxy rest = rest

  -- The routes of one plugin, until one is refused.
  unfoldable pub register_all : String → List String → Routes → Result PluginError Unit × Routes
  register_all id [] proxy = (ok tt, proxy)
  register_all id (route ∷ routes) proxy =
      let (r, proxy') = register f.strings id route (f.handler id route) proxy in
      let rest = register_all id routes proxy' in unless_refused r proxy' rest

  abbrev pub give_up : List String → State → State
  give_up started st = record (rollback started st) { started = false }

  abbrev pub StartResult : Type 0
  StartResult = Result StartError Unit × State

  abbrev pub registered :
      (State → StartResult)
      → List String
      → String
      → Result PluginError Unit × Routes
      → State
      → StartResult
  registered next started id (err e, proxy) st =
      (err (not_registered id e), give_up (started ++ id ∷ id ∷ []) (record st { proxy = proxy }))
  registered next started id (ok done, proxy) st = next (record st { proxy = proxy })

  abbrev pub launched :
      (State → StartResult)
      → List String
      → String
      → Result String Unit × f.Hosts
      → State
      → StartResult
  launched next started id (err e, hosts) st =
      (err (not_started id e), give_up started (record st { hosts = hosts }))
  launched next started id (ok done, hosts) st =
      registered next started id (register_all id (f.routes id) st.proxy)
        (record st { hosts = hosts })

  -- The loop over the ids, with those started so far.
  unfoldable pub start_each : List String → List String → State → StartResult
  start_each started [] st = (ok tt, st)
  start_each started (id ∷ ids) st =
      launched (start_each (started ++ id ∷ []) ids) started id (f.start id st.hosts) st

  abbrev pub subscribe_all :
      List String → EventBus × List (String × ℕ) → EventBus × List (String × ℕ)
  subscribe_all [] s = s
  subscribe_all (topic ∷ topics) (bus, cancels) =
      let (c, bus') = subscribe topic bus in subscribe_all topics (bus', cancels ++ (topic, c) ∷ [])

  -- One subscription for each event of each enabled plugin.
  unfoldable pub bridge : List String → State → State
  bridge [] st = st
  bridge (id ∷ ids) st =
      let (bus, cancels) = subscribe_all (f.events id) (st.bus, st.cancels) in
      bridge ids (record st { bus = bus; cancels = cancels })

  abbrev pub bridged : StartResult → StartResult
  bridged (ok done, st) = (ok tt, bridge (enabled_ids f.ids) st)
  bridged (err e, st) = (err e, st)

  unfoldable pub start_all : State → StartResult
  start_all st =
      if st.started
      then (ok tt, st)
      else bridged
          (start_each [] (sort_by (λ id. id) (enabled_ids f.ids)) (record st { started = true }))

  abbrev pub cancel_all : List (String × ℕ) → EventBus → EventBus
  cancel_all [] bus = bus
  cancel_all ((topic, c) ∷ cancels) bus = cancel_all cancels (cancel topic c bus)

  abbrev pub first_error : Option String → Result String Unit → Option String
  first_error none (ok done) = none
  first_error none (err e) = some e
  first_error (some e) r = some e

  -- Every host is stopped; the first error is returned.
  unfoldable pub stop_each : List String → Option String → f.Hosts → Option String × f.Hosts
  stop_each [] first hosts = (first, hosts)
  stop_each (id ∷ ids) first hosts =
      let (r, hosts') = f.stop id hosts in stop_each ids (first_error first r) hosts'

  abbrev pub unregister_all : List String → Routes → Routes
  unregister_all [] proxy = proxy
  unregister_all (id ∷ ids) proxy = unregister_all ids (unregister f.strings id proxy)

  unfoldable pub stop_all : State → Option String × State
  stop_all st =
      let (first, hosts) = stop_each f.ids none st.hosts in
      (
        first,
        record {
          hosts = hosts;
          proxy = unregister_all f.ids st.proxy;
          started = false;
          bus = cancel_all st.cancels st.bus;
          cancels = [];
        },
      )
