-- ===== src/Plugin/Routes.antt =====
-- internal/plugin/proxy.go: the routes that plugins serve. A handler that is nil is none.
pub mod Isolation
use oikos.Common.{String, ◌||◌, Option, none, some, List, [], ◌∷◌, ◌=?◌, lookup, put, if◌then◌else◌}
use oikos.Common.Exec.{Result, ok, err}
use oikos.Plugin.{Strings, PluginError, invalid_route, nil_handler, already_registered}
use oikos.Plugin.Manifest.{prefix_of, bad_route}

module _ (s : Strings) {Handler : Type 0} where
  add :
      String
      → Handler
      → Option Handler
      → List (String × Handler)
      → Result PluginError Unit × List (String × Handler)
  add route handler none routes = (ok tt, put route handler routes)
  add route handler (some old) routes = (err (already_registered route), routes)

  insert :
      String
      → Option Handler
      → List (String × Handler)
      → Result PluginError Unit × List (String × Handler)
  unfolding add
  insert route none routes = (err nil_handler, routes)
  insert route (some handler) routes = add route handler (lookup route routes) routes

  unfoldable pub register :
      String
      → String
      → Option Handler
      → List (String × Handler)
      → Result PluginError Unit × List (String × Handler)
  unfolding insert
  register id route handler routes =
      if id =? "" || bad_route s id route
      then (err (invalid_route route), routes)
      else insert route handler routes

  unfoldable pub unregister : String → List (String × Handler) → List (String × Handler)
  unregister id [] = []
  unregister id ((route, handler) ∷ routes) =
      let rest = unregister id routes in
      if s.has_prefix route (prefix_of id) then rest else (route, handler) ∷ rest

  -- Handler: the handler of the path; none is http.NotFound.
  unfoldable pub serve : String → List (String × Handler) → Option Handler
  serve path routes = lookup path routes
