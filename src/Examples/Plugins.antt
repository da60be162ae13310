-- ===== src/Examples/Plugins.antt =====
-- A plugin with one event and one route, whose process fails on every event.
use oikos.Common.{
  ℕ, suc, String, ◌≡◌, refl, true, false, none, some, List, [], ◌∷◌, ◌=?◌, contains, All,
  if◌then◌else◌,
}
use oikos.Common.Exec.{ok, err, Exec}
use oikos.Orchestrator.EventBus.{Event, new_event_bus}
use oikos.Plugin.{Strings, PluginManifest, Capability}
use oikos.Plugin.Manifest.{
  prefix_of, bad_route, check_events, check_routes, validate_manifest, check_granted,
  validate_capabilities,
}
use oikos.Plugin.Manifest.Granted.{validate_capabilities-All}
use oikos.Plugin.Routes.{register, unregister, serve}
use oikos.Plugin.Routes.Isolation.{register-serve, unregister-serve}
use oikos.Plugin.Startup.{Fleet, State, start_all}
use oikos.Plugin.Startup.Rollback.{Undoes, start_all-Undoes}
use oikos.Plugin.Dispatch.{Registry}
use oikos.Plugin.Dispatch.Breaker.{Came, dispatch_all, dispatch_all-Came}

abbrev strings : Strings
strings = record {
  has_prefix = λ text prefix. text =? "/plugins/a/x";
  has_part = λ text part. false;
  trim_space = λ text. text;
  matches_id = λ text. true;
  matches_event = λ text. true;
  matches_sha256 = λ text. true;
}

abbrev manifest : PluginManifest
manifest = record {
  id = "a";
  name = "A";
  version = "1";
  binary = "a.bin";
  enabled = true;
  config = "";
  allowed_events = "server.started" ∷ [];
  allowed_routes = "/plugins/a/x" ∷ [];
  sha256 = "0";
}

abbrev capability : Capability
capability = record { events = "server.started" ∷ []; routes = [] }

accepted : validate_capabilities strings manifest capability ≡ ok tt
unfolding validate_capabilities validate_manifest check_events check_routes check_granted bad_route
    prefix_of contains
accepted = refl

validate_capabilities-All_example :
    All (λ e. (contains ("server.started" ∷ []) e ≡ true) × (true ≡ true)) ("server.started" ∷ [])
    × All (λ r. (contains ("/plugins/a/x" ∷ []) r ≡ true) × (bad_route strings "a" r ≡ false)) []
validate_capabilities-All_example = validate_capabilities-All strings manifest capability accepted

abbrev routes : List (String × String)
routes = ("/plugins/a/x", "mine") ∷ ("/other", "theirs") ∷ []

register-serve_example :
    serve strings "/other" (register strings "a" "/plugins/a/x" (some "new") routes).1
    ≡ serve strings "/other" routes
register-serve_example = register-serve strings "a" "/plugins/a/x" "/other" (some "new") routes refl

unregister-serve_example : serve strings "/plugins/a/x" (unregister strings "a" routes) ≡ none
unregister-serve_example = unregister-serve strings "a" "/plugins/a/x" routes

-- The process counts the events that it is given, and fails.
abbrev failing : String → Event → Exec ℕ String Unit
failing id ev n = (err "down", suc n)

abbrev registry : Registry ℕ failing
registry = record {
  hosts = 0;
  known = λ id. true;
  enabled = λ id. none;
  failures = λ id. 0;
  db = none;
}

abbrev started : Event
started = record { kind = "server.started"; server_id = "s1" }

dispatch_all-Came_example :
    Came ℕ failing "a"
      (started ∷ started ∷ started ∷ started ∷ [])
      registry
      (dispatch_all ℕ failing "a" (started ∷ started ∷ started ∷ started ∷ []) registry)
dispatch_all-Came_example =
    dispatch_all-Came ℕ failing "a" (started ∷ started ∷ started ∷ started ∷ []) registry refl refl

-- Of two plugins the second does not start.
abbrev fleet : Fleet
fleet = record {
  Hosts = ℕ;
  Handler = String;
  strings = strings;
  start = λ id n. if id =? "b" then (err "down", n) else (ok tt, suc n);
  stop = λ id n. (ok tt, n);
  handler = λ id route. some "new";
  ids = "b" ∷ "a" ∷ [];
  enabled = λ id. none;
  routes = λ id. if id =? "a" then "/plugins/a/x" ∷ [] else [];
  events = λ id. "server.started" ∷ [];
}

abbrev stopped : State fleet
stopped = record { hosts = 0; proxy = []; started = false; bus = new_event_bus; cancels = [] }

start_all-Undoes_example : Undoes fleet "/plugins/a/x" stopped (start_all fleet stopped)
start_all-Undoes_example = start_all-Undoes fleet "/plugins/a/x" stopped
