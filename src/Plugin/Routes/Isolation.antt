-- ===== src/Plugin/Routes/Isolation.antt =====
-- internal/plugin/proxy.go: which paths a plugin's calls can change.
use oikos.Common.{
  String, ◌≡◌, refl, false, Option, none, some, List, [], ◌∷◌, arith, ◌=?◌, eq_iff, lookup,
  lookup-put, if◌then◌else◌,
}
use oikos.Plugin.{Strings}
use oikos.Plugin.Manifest.{prefix_of, bad_route}
use oikos.Plugin.Routes.{add, insert, register, unregister, serve}

module _ (s : Strings) {Handler : Type 0} where
  insert-other :
      (route path : String) (handler : Option Handler) (routes : List (String × Handler))
      → (route =? path) ≡ false
      → lookup path (insert s route handler routes).1 ≡ lookup path routes
  unfolding insert add
  insert-other route path none routes h = refl
  insert-other route path (some handler) routes h =
      ground (arith, h, lookup-put route path handler routes)

  -- A registration by a plugin leaves every path outside the plugin's prefix served as it was.
  pub register-serve :
      (id route path : String) (handler : Option Handler) (routes : List (String × Handler))
      → s.has_prefix path (prefix_of id) ≡ false
      → serve s path (register s id route handler routes).1 ≡ serve s path routes
  unfolding register serve bad_route
  register-serve id route path handler routes h =
      ground (arith, h, insert-other route path handler routes, eq_iff route path)

  -- Once a plugin is unregistered, no path with its prefix is served, and every other path is served
  -- as it was.
  pub unregister-serve :
      (id path : String) (routes : List (String × Handler))
      → serve s path (unregister s id routes)
        ≡ (if s.has_prefix path (prefix_of id) then none else serve s path routes)
  unfolding unregister serve lookup
  unregister-serve id path [] = ground arith
  unregister-serve id path ((route, handler) ∷ routes) =
      ground (arith, unregister-serve id path routes, eq_iff route path)
