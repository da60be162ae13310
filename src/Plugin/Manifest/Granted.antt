-- ===== src/Plugin/Manifest/Granted.antt =====
-- internal/plugin/manifest.go: what an accepted manifest and accepted capabilities contain.
use oikos.Common.{
  String, ◌≡◌, refl, sym, true, false, List, [], ◌∷◌, arith, All, All-imp, contains, ◌=?◌, =?→eq,
  Bool-cases, inl, inr,
}
use oikos.Common.Exec.{Result, ok, err}
use oikos.Plugin.{
  Strings, PluginManifest, Capability, PluginError, event_not_allowed, route_not_allowed,
}
use oikos.Plugin.Manifest.{
  also, bad_route, check_events, check_routes, validate_manifest, check_granted,
  validate_capabilities,
}

-- An element of a list whose elements all satisfy `P`.
contains-All :
    (P : String → Type 0) (values : List String) (wanted : String)
    → All P values
    → contains values wanted ≡ true
    → P wanted
unfolding contains
contains-All P [] wanted h k = cc
contains-All P (v ∷ values) wanted h k = elim (Bool-cases (v =? wanted)) [
  | inl same ↦ rw (sym (=?→eq v wanted same)) h.0
  | inr other ↦ contains-All P values wanted h.1 (ground (arith, k, other))
]

also-ok :
    (first next : Result PluginError Unit)
    → also first next ≡ ok tt
    → (first ≡ ok tt) × (next ≡ ok tt)
also-ok (ok a) next h = (refl, h)
also-ok (err e) next h = cc

check_granted-All :
    (refuse : String → PluginError) (granted wanted : List String)
    → check_granted refuse granted wanted ≡ ok tt
    → All (λ w. contains granted w ≡ true) wanted
unfolding check_granted
check_granted-All refuse granted [] h = tt
check_granted-All refuse granted (w ∷ wanted) h = elim (Bool-cases (contains granted w)) [
  | inl here ↦ (here, check_granted-All refuse granted wanted (rw here at h))
  | inr missing ↦ absurd (ground (arith, h, missing))
]

module _ (s : Strings) where
  check_events-All :
      (events : List String)
      → check_events s events ≡ ok tt
      → All (λ e. s.matches_event e ≡ true) events
  unfolding check_events
  check_events-All [] h = tt
  check_events-All (e ∷ events) h = elim (Bool-cases (s.matches_event e)) [
    | inl good ↦ (good, check_events-All events (rw good at h))
    | inr bad ↦ absurd (ground (arith, h, bad))
  ]

  check_routes-All :
      (id : String) (routes : List String)
      → check_routes s id routes ≡ ok tt
      → All (λ r. bad_route s id r ≡ false) routes
  unfolding check_routes
  check_routes-All id [] h = tt
  check_routes-All id (r ∷ routes) h = elim (Bool-cases (bad_route s id r)) [
    | inl bad ↦ absurd (ground (arith, h, bad))
    | inr good ↦ (good, check_routes-All id routes (rw good at h))
  ]

  valid-manifest :
      (m : PluginManifest)
      → validate_manifest s m ≡ ok tt
      → All (λ e. s.matches_event e ≡ true) m.allowed_events
        × All (λ r. bad_route s m.id r ≡ false) m.allowed_routes
  unfolding validate_manifest
  valid-manifest m h =
      let lists : also (check_events s m.allowed_events) (check_routes s m.id m.allowed_routes)
          ≡ ok tt =
        ground (arith, h) in
      let both =
        also-ok (check_events s m.allowed_events) (check_routes s m.id m.allowed_routes) lists in
      (check_events-All m.allowed_events both.0, check_routes-All m.id m.allowed_routes both.1)

  -- Accepted capabilities ask only for events and routes that the manifest lists, every such event is
  -- well named, and every such route stands under the plugin's own prefix and has no "..".
  pub validate_capabilities-All :
      (m : PluginManifest) (c : Capability)
      → validate_capabilities s m c ≡ ok tt
      → All (λ e. (contains m.allowed_events e ≡ true) × (s.matches_event e ≡ true)) c.events
        × All (λ r. (contains m.allowed_routes r ≡ true) × (bad_route s m.id r ≡ false)) c.routes
  unfolding validate_capabilities
  validate_capabilities-All m c h =
      let outer = also-ok (validate_manifest s m) _ h in
      let inner =
        also-ok (check_granted event_not_allowed m.allowed_events c.events)
          (check_granted route_not_allowed m.allowed_routes c.routes) outer.1 in
      let valid = valid-manifest m outer.0 in
      (
        All-imp (λ e. contains m.allowed_events e ≡ true) _ c.events
            (λ e k. (k, contains-All (λ v. s.matches_event v ≡ true) m.allowed_events e valid.0 k))
            (check_granted-All event_not_allowed m.allowed_events c.events inner.0),
        All-imp (λ r. contains m.allowed_routes r ≡ true) _ c.routes
            (λ r k.
              (k, contains-All (λ v. bad_route s m.id v ≡ false) m.allowed_routes r valid.1 k))
            (check_granted-All route_not_allowed m.allowed_routes c.routes inner.1),
      )
