-- ===== src/Plugin/Manifest.antt =====
-- internal/plugin/manifest.go: what a manifest may ask for, and what a plugin may do of it.
pub mod Granted
use Prim.Native.String.{◌++◌ as join}
use oikos.Common.{String, Bool, not, ◌||◌, List, [], ◌∷◌, ◌=?◌, contains, if◌then◌else◌}
use oikos.Common.Exec.{Result, ok, err}
use oikos.Plugin.{
  Strings, PluginManifest, Capability, PluginError, invalid_id, empty_binary, invalid_sha256,
  invalid_event, invalid_route, event_not_allowed, route_not_allowed,
}

-- "/plugins/" + id + "/"
unfoldable pub prefix_of : String → String
prefix_of id = join "/plugins/" (join id "/")

-- One check after the other: the first error is returned.
abbrev pub also : Result PluginError Unit → Result PluginError Unit → Result PluginError Unit
also (ok done) next = next
also (err e) next = err e

module _ (s : Strings) where
  unfoldable pub bad_route : String → String → Bool
  bad_route id route = not (s.has_prefix route (prefix_of id)) || s.has_part route ".."

  unfoldable pub check_events : List String → Result PluginError Unit
  check_events [] = ok tt
  check_events (event ∷ events) =
      if not (s.matches_event event) then err (invalid_event event) else check_events events

  unfoldable pub check_routes : String → List String → Result PluginError Unit
  check_routes id [] = ok tt
  check_routes id (route ∷ routes) =
      if bad_route id route then err (invalid_route route) else check_routes id routes

  unfoldable pub validate_manifest : PluginManifest → Result PluginError Unit
  validate_manifest m =
      if not (s.matches_id m.id)
      then err invalid_id
      else if s.trim_space m.binary =? ""
      then err empty_binary
      else if not (s.matches_sha256 m.sha256)
      then err invalid_sha256
      else also (check_events m.allowed_events) (check_routes m.id m.allowed_routes)

-- The loops of ValidateCapabilities: each wanted text is in the manifest's list.
unfoldable pub check_granted :
    (String → PluginError) → List String → List String → Result PluginError Unit
check_granted refuse granted [] = ok tt
check_granted refuse granted (wanted ∷ rest) =
    if contains granted wanted then check_granted refuse granted rest else err (refuse wanted)

unfoldable pub validate_capabilities :
    Strings → PluginManifest → Capability → Result PluginError Unit
validate_capabilities s m c = also (validate_manifest s m) (
    also (check_granted event_not_allowed m.allowed_events c.events)
      (check_granted route_not_allowed m.allowed_routes c.routes))
