-- ===== src/Plugin/Dispatch/Breaker.antt =====
-- `DispatchEvent` of internal/plugin/registry.go, for one event after the other.
use oikos.Common.{
  ℕ, suc, ◌+◌, String, ◌≡◌, refl, sym, ap, ◌∙◌, Bool, true, false, not, List, [], ◌∷◌, leb, =?_refl,
  Bool-cases, inl, inr, if◌then◌else◌,
}
use oikos.Common.Exec.{Result, ok, err, Exec}
use oikos.Orchestrator.EventBus.{Event}
use oikos.Orchestrator.EventBus.Streams.{take}
use oikos.Plugin.Dispatch.{Registry, is_on, set_failures, count, disable, after, dispatch_event}

-- Counting from `k` failures in a row: how many of the events whose results are these reach the
-- plugin, where a third failure in a row is the last result that counts; and whether there is one.
abbrev pub reaching : ℕ → List Bool → ℕ
reaching k [] = 0
reaching k (true ∷ results) = suc (reaching 0 results)
reaching k (false ∷ results) =
    let rest = reaching (k + 1) results in if leb 3 (k + 1) then 1 else suc rest

abbrev pub tripped : ℕ → List Bool → Bool
tripped k [] = false
tripped k (true ∷ results) = tripped 0 results
tripped k (false ∷ results) =
    let rest = tripped (k + 1) results in if leb 3 (k + 1) then true else rest

abbrev pub succeeded : Result String Unit → Bool
succeeded (ok done) = true
succeeded (err e) = false

module _ (Hosts : Type 0) (handle_event : String → Event → Exec Hosts String Unit)
    (id : String) where
  unfoldable pub dispatch_all :
      List Event → Registry Hosts handle_event → Registry Hosts handle_event
  dispatch_all [] r = r
  dispatch_all (ev ∷ evs) r = dispatch_all evs (dispatch_event Hosts handle_event id ev r).1

  -- The plugin itself, given every event, and its results.
  unfoldable pub handle_all : List Event → Hosts → Hosts
  handle_all [] h = h
  handle_all (ev ∷ evs) h = handle_all evs (handle_event id ev h).1

  unfoldable pub results : List Event → Hosts → List Bool
  results [] h = []
  results (ev ∷ evs) h = succeeded (handle_event id ev h).0 ∷ results evs (handle_event id ev h).1

  dispatch_all-off :
      (evs : List Event) (r : Registry Hosts handle_event)
      → is_on Hosts handle_event (r.enabled id) ≡ false
      → dispatch_all evs r ≡ r
  unfolding dispatch_all dispatch_event
  dispatch_all-off [] r off = refl
  dispatch_all-off (ev ∷ evs) r off = elim (Bool-cases (r.known id)) [
    | inl known ↦ rw (known, off) (dispatch_all-off evs r off)
    | inr unknown ↦ rw unknown (dispatch_all-off evs r off)
  ]

  dispatch_event-on :
      (ev : Event) (r : Registry Hosts handle_event)
      → r.known id ≡ true
      → is_on Hosts handle_event (r.enabled id) ≡ true
      → dispatch_event Hosts handle_event id ev r
        ≡ after Hosts handle_event id
            (handle_event id ev r.hosts).0
            (record r { hosts = (handle_event id ev r.hosts).1 })
  unfolding dispatch_event
  dispatch_event-on ev r known on = rw (known, on) refl

  -- What a sequence of events has come to.
  pub record Came (evs : List Event) (r end : Registry Hosts handle_event) : Type 0 where
    pub hosts :
        end.hosts ≡ handle_all (take (reaching (r.failures id) (results evs r.hosts)) evs) r.hosts
    pub enabled :
        is_on Hosts handle_event (end.enabled id)
        ≡ not (tripped (r.failures id) (results evs r.hosts))

  -- The failure that switches the plugin off, and one that does not.
  counting :
      (r : Registry Hosts handle_event) (e : String)
      → leb 3 (r.failures id + 1) ≡ true
      → is_on Hosts handle_event ((after Hosts handle_event id (err e) r).1.enabled id) ≡ false
  unfolding after count disable
  counting r e h = rw (h, =?_refl id) refl

  -- One event, and then the rest.
  stepped :
      (ev : Event) (evs : List Event) (r : Registry Hosts handle_event)
      → ((s : Registry Hosts handle_event)
          → s.known id ≡ true
          → is_on Hosts handle_event (s.enabled id) ≡ true
          → Came evs s (dispatch_all evs s))
      → r.known id ≡ true
      → is_on Hosts handle_event (r.enabled id) ≡ true
      → (x : Result String Unit) (h : Hosts) → (handle_event id ev r.hosts).0 ≡ x
      → (handle_event id ev r.hosts).1 ≡ h
      → Came
          (ev ∷ evs)
          r
          (dispatch_all evs (after Hosts handle_event id x (record r { hosts = h })).1)
  unfolding dispatch_all handle_all results after count disable
  stepped ev evs r rest_of known on (ok done) h e k =
      let rest = rest_of (set_failures Hosts handle_event id 0 (record r { hosts = h })) known on in
      record {
        hosts = rw (e, k) (rw (=?_refl id) at rest.hosts);
        enabled = rw (e, k) (rw (=?_refl id) at rest.enabled);
      }
  stepped ev evs r rest_of known on (err x) h e k = elim (Bool-cases (leb 3 (r.failures id + 1))) [
    | inl third ↦
        let off =
          dispatch_all-off evs (after Hosts handle_event id (err x) (record r { hosts = h })).1
            (counting (record r { hosts = h }) x third) in
        record {
          hosts = rw off (rw (e, third) (sym k));
          enabled = rw off (rw (e, k, third, =?_refl id) refl);
        }
    | inr fewer ↦
        let rest =
          rest_of (set_failures Hosts handle_event id (r.failures id + 1) (record r { hosts = h }))
            known on in
        record {
          hosts =
              rw (e, k, fewer)
                ((rw (=?_refl id) at rest.hosts)
                  ∙ ap (λ g. handle_all (take (reaching (r.failures id + 1) (results evs h)) evs) g)
                      (sym k));
          enabled = rw (e, k, fewer) (rw (=?_refl id) at rest.enabled);
        }
  ]

  -- Events are sent to a known, enabled plugin one after the other. The plugin handles exactly the
  -- events up to and including the one that fails as the third in a row, counted from the failures
  -- before, and none after it; and it is enabled afterwards if, and only if, there is no such event.
  pub dispatch_all-Came :
      (evs : List Event) (r : Registry Hosts handle_event)
      → r.known id ≡ true
      → is_on Hosts handle_event (r.enabled id) ≡ true
      → Came evs r (dispatch_all evs r)
  unfolding dispatch_all handle_all results
  dispatch_all-Came [] r known on = record { hosts = refl; enabled = on }
  dispatch_all-Came (ev ∷ evs) r known on = rw (dispatch_event-on ev r known on) (
      stepped ev evs r (dispatch_all-Came evs) known on (handle_event id ev r.hosts).0
        (handle_event id ev r.hosts).1 refl refl)
