-- ===== src/Plugin/Startup/Rollback.antt =====
-- What a failed `StartAll` of internal/plugin/registry.go leaves.
use oikos.Common.{
  String, Bool, true, false, ◌||◌, ◌≡◌, ◌⊎◌, inl, inr, refl, ◌∙◌, none, List, [], ◌∷◌, ◌++◌, arith,
  if◌then◌else◌, Bool-cases,
}
use oikos.Common.Exec.{Result, ok, err}
use oikos.Common.Sort.{sort_by}
use oikos.Common.Triples.{Outcome}
use oikos.Plugin.{PluginError}
use oikos.Plugin.Manifest.{prefix_of}
use oikos.Plugin.Routes.{register, serve}
use oikos.Plugin.Routes.Isolation.{register-serve, unregister-serve}
use oikos.Plugin.Startup.{
  Fleet, Routes, State, StartResult, enabled_ids, stop_host, rollback, unless_refused, register_all,
  give_up, registered, launched, start_each, bridged, start_all,
}

module _ (f : Fleet) (path : String) where
  -- The path has the prefix of one of the plugins.
  unfoldable owned : List String → Bool
  owned [] = false
  owned (id ∷ ids) = f.strings.has_prefix path (prefix_of id) || owned ids

  owned-append : (xs ys : List String) → owned (xs ++ ys) ≡ (owned xs || owned ys)
  unfolding owned
  owned-append [] ys = refl
  owned-append (id ∷ xs) ys = ground (arith, owned-append xs ys)

  register_all-serve :
      (id : String) (routes : List String) (proxy : Routes f)
      → f.strings.has_prefix path (prefix_of id) ≡ false
      → serve f.strings path (register_all f id routes proxy).1 ≡ serve f.strings path proxy
  unfolding register_all
  register_all-serve id [] proxy h = refl
  register_all-serve id (route ∷ routes) proxy h =
      let step = register f.strings id route (f.handler id route) proxy in
      let here = register-serve f.strings id route path (f.handler id route) proxy h in
      chosen step.0 step.1 (register_all f id routes step.1)
        (register_all-serve id routes step.1 h ∙ here) here
    where
      chosen :
          (r : Result PluginError Unit) (proxy' : Routes f)
          (rest : Result PluginError Unit × Routes f)
          → serve f.strings path rest.1 ≡ serve f.strings path proxy
          → serve f.strings path proxy' ≡ serve f.strings path proxy
          → serve f.strings path (unless_refused f r proxy' rest).1 ≡ serve f.strings path proxy
      chosen (err e) proxy' rest a b = b
      chosen (ok done) proxy' rest a b = a

  rollback-serve :
      (ids : List String) (st : State f)
      → serve f.strings path (rollback f ids st).proxy
        ≡ (if owned ids then none else serve f.strings path st.proxy)
  unfolding rollback owned
  rollback-serve [] st = refl
  rollback-serve (id ∷ ids) st =
      ground
        (arith, rollback-serve ids (stop_host f id st), unregister-serve f.strings id path st.proxy)

  rollback-bus : (ids : List String) (st : State f) → (rollback f ids st).bus ≡ st.bus
  unfolding rollback
  rollback-bus [] st = refl
  rollback-bus (id ∷ ids) st = rollback-bus ids (stop_host f id st)

  rollback-cancels : (ids : List String) (st : State f) → (rollback f ids st).cancels ≡ st.cancels
  unfolding rollback
  rollback-cancels [] st = refl
  rollback-cancels (id ∷ ids) st = rollback-cancels ids (stop_host f id st)

  module _ (before : State f) where
    -- Served as before, or by one of the plugins.
    abbrev IsOurs : List String → Routes f → Type 0
    IsOurs ids proxy =
        (serve f.strings path proxy ≡ serve f.strings path before.proxy) ⊎ (owned ids ≡ true)

    -- Nothing runs for the plugins that has not been there before.
    abbrev pub IsUndone : State f → Type 0
    IsUndone st =
        (st.started ≡ false)
        × (st.bus ≡ before.bus)
        × (st.cancels ≡ before.cancels)
        × ((serve f.strings path st.proxy ≡ serve f.strings path before.proxy)
            ⊎ (serve f.strings path st.proxy ≡ none))

    -- The bus is not touched before all plugins are started.
    abbrev Same : State f → Type 0
    Same st = (st.bus ≡ before.bus) × (st.cancels ≡ before.cancels)

    undone :
        (ids : List String) (st : State f)
        → Same st
        → IsOurs ids st.proxy
        → IsUndone (give_up f ids st)
    undone ids st same ours =
        (refl, rollback-bus ids st ∙ same.0, rollback-cancels ids st ∙ same.1, routes ours)
      where
        routes :
            IsOurs ids st.proxy
            → (serve f.strings path (rollback f ids st).proxy ≡ serve f.strings path before.proxy)
              ⊎ (serve f.strings path (rollback f ids st).proxy ≡ none)
        routes (inr mine) = inr (rw (rollback-serve ids st) (rw mine refl))
        routes (inl old) = elim (Bool-cases (owned ids)) [
          | inl mine ↦ inr (rw (rollback-serve ids st) (rw mine refl))
          | inr free ↦ inl (rw (rollback-serve ids st) (rw free old))
        ]

    -- The routes that a plugin adds are its own.
    IsOurs-register_all :
        (started more : List String) (id : String) (routes : List String) (proxy : Routes f)
        → (f.strings.has_prefix path (prefix_of id) ≡ true → owned more ≡ true)
        → IsOurs started proxy
        → IsOurs (started ++ more) (register_all f id routes proxy).1
    IsOurs-register_all started more id routes proxy own (inr mine) =
        inr (ground (arith, owned-append started more, mine))
    IsOurs-register_all started more id routes proxy own (inl old) =
        elim (Bool-cases (f.strings.has_prefix path (prefix_of id))) [
          | inl mine ↦ inr (ground (arith, owned-append started more, own mine))
          | inr free ↦ inl (register_all-serve id routes proxy free ∙ old)
        ]

    abbrev pub Undoes : StartResult f → Type 0
    Undoes r = Outcome (λ done st. Unit) (λ e st. IsUndone st) r.0 r.1

    -- The rest of the loop undoes what it does.
    abbrev Next : List String → List String → Type 0
    Next started ids =
        (st : State f) → Same st → IsOurs started st.proxy → Undoes (start_each f started ids st)

    start_each-Undoes :
        (started ids : List String) (st : State f)
        → Same st
        → IsOurs started st.proxy
        → Undoes (start_each f started ids st)
    unfolding start_each owned
    start_each-Undoes started [] st same ours = tt
    start_each-Undoes started (id ∷ ids) st same ours =
        start (f.start id st.hosts) (start_each-Undoes (started ++ id ∷ []) ids)
      where
        register :
            (hosts : f.Hosts) (r : Result PluginError Unit) (proxy : Routes f)
            → IsOurs (started ++ id ∷ []) proxy
            → IsOurs (started ++ id ∷ id ∷ []) proxy
            → Next (started ++ id ∷ []) ids
            → Undoes (
                registered f
                  (start_each f (started ++ id ∷ []) ids)
                  started
                  id
                  (r, proxy)
                  (record st { hosts = hosts }))
        register hosts (err e) proxy once twice next =
            undone (started ++ id ∷ id ∷ []) (record st { hosts = hosts; proxy = proxy }) same twice
        register hosts (ok done) proxy once twice next =
            next (record st { hosts = hosts; proxy = proxy }) same once

        start :
            (r : Result String Unit × f.Hosts)
            → Next (started ++ id ∷ []) ids
            → Undoes (launched f (start_each f (started ++ id ∷ []) ids) started id r st)
        start (err e, hosts) next = undone started (record st { hosts = hosts }) same ours
        start (ok done, hosts) next =
            register hosts (register_all f id (f.routes id) st.proxy).0
              (register_all f id (f.routes id) st.proxy).1
              (IsOurs-register_all started (id ∷ []) id (f.routes id) st.proxy
                (λ h. ground (arith, h)) ours)
              (IsOurs-register_all started (id ∷ id ∷ []) id (f.routes id) st.proxy
                (λ h. ground (arith, h)) ours)
              next

  bridged-Undoes :
      (before : State f) (r : StartResult f) → Undoes before r → Undoes before (bridged f r)
  bridged-Undoes before (ok done, st) h = tt
  bridged-Undoes before (err e, st) h = h

  -- If StartAll fails, then the registry is as not started, no subscription has been made, and each
  -- path is served as before or not at all.
  pub start_all-Undoes : (before : State f) → Undoes before (start_all f before)
  unfolding start_all
  start_all-Undoes before = elim (Bool-cases before.started) [
    | inl on ↦ rw on tt
    | inr off ↦ rw off (
        bridged-Undoes before _ (
          start_each-Undoes before [] (sort_by (λ id. id) (enabled_ids f f.ids))
            (record before { started = true }) (refl, refl) (inl refl)))
  ]
