-- ===== src/Update/Manager/Committed.antt =====
-- The installation of a candidate, step by step: what the manifest and the slots hold when it
-- succeeds and when it fails.
use oikos.Common.{
  String, ◌≡◌, ◌≢◌, refl, sym, ap, ◌∙◌, ◌⊎◌, inl, inr, Option, none, some, arith, eq_iff, lookup,
  lookup-put, lookup-delete,
}
use oikos.Common.Exec.{Result, ok, err, Exec}
use oikos.Common.Triples.{Outcome, Triple, Triple-bind, Triple-pure}
use oikos.Common.Keeps.{Keeps, Keeps-pure, Keeps→Triple, Triple→Keeps, Keeps-bind}
use oikos.Common.Disk.{Disk, write_file, rename_file, remove_file}
use oikos.Common.Disk.Triples.{Files}
use oikos.Update.{
  Setup, SlotState, UpdateError, Entry, file, Machine, Step, sys, try, on_failure, after_failure,
}
use oikos.Update.Slots.{project_state}
use oikos.Update.Slots.Views.{
  IsSlot, IsFresh, IsApart, View, view, Sees, Held, Triple-sys, view-put, view-to_first,
  view-remove_first, Keeps-idle, Keeps-write_other, Keeps-remove_other, Keeps-callback,
}
use oikos.Update.Slots.Saved.{
  Triple-deferred, candidate_temp-IsApart, Keeps-project_state, save_state-Triple,
  restore_state-Triple,
}
use oikos.Update.Manager.{check_health, or_restore, settle, commit, install, prepare}

pub Triple-on_failure :
    {u : Setup} {A : Type 0} (P : Machine u → Type 0) (Q : A → Machine u → Type 0)
    (R R' : UpdateError → Machine u → Type 0) (last : Step u Unit) (m : Step u A)
    → Triple P Q R m
    → ((e : UpdateError) (w : Machine u) → R e w → R' e (last w).1)
    → Triple P Q R' (on_failure u last m)
unfolding on_failure after_failure
Triple-on_failure {u} {A} P Q R R' last m h k = record {
  at = λ w p. followed (m w).0 (m w).1 (h.at w p);
}
  where
    followed :
        (x : Result UpdateError A) (w : Machine u)
        → Outcome Q R x w
        → Outcome Q R' (after_failure u last x w).0 (after_failure u last x w).1
    followed (ok a) w k = k
    followed (err e) w k' = k e w k'

module _ (u : Setup) (version : String) (old : SlotState) (body : u.Bytes)
    (before two : Held u version old.current) (fresh : IsFresh u) (is_first : IsSlot u version)
    (is_second : IsSlot u old.current) (apart : version ≢ old.current) where
  abbrev manifest : SlotState → Held u version old.current
  manifest s = some (file (u.encode s))

  abbrev new : SlotState
  new = record { current = version; previous = old.current }

  -- The views before the update, with the candidate in its slot, and after the update.
  abbrev start : View u version old.current
  start = record { manifest = manifest old; one = before; two = two }

  abbrev staged : View u version old.current
  staged = record { manifest = manifest old; one = some (file body); two = two }

  abbrev done : View u version old.current
  done = record { manifest = manifest new; one = some (file body); two = two }

  abbrev At : View u version old.current → Machine u → Type 0
  At = Sees u version old.current

  -- The manifest and the old slot are what they were.
  abbrev KeptFiles : Files (Entry u.Bytes) → Type 0
  KeptFiles fs = (lookup "state.json" fs ≡ manifest old) × (lookup old.current fs ≡ two)

  abbrev Kept : Machine u → Type 0
  Kept w = KeptFiles w.disk.files

  abbrev Failed : UpdateError → Machine u → Type 0
  Failed e w = Kept w ⊎ At done w

  to_kept :
      (one : Held u version old.current) (w : Machine u)
      → At (record { manifest = manifest old; one = one; two = two }) w
      → Kept w
  to_kept one w h = (
    ap (λ (x : View u version old.current). x.manifest) h,
    ap (λ (x : View u version old.current). x.two) h,
  )

  Keeps-remove_version : Keeps Kept (sys u (remove_file version))
  Keeps-remove_version = Triple→Keeps Kept _ (
      Triple-sys u version old.current KeptFiles KeptFiles (λ e. Kept) (remove_file version)
        (λ d p. (
          ground (
            arith,
            p.0,
            lookup-delete version "state.json" d.files,
            eq_iff version "state.json",
            is_first.no_manifest,
          ),
          ground (
            arith,
            p.1,
            lookup-delete version old.current d.files,
            eq_iff version old.current,
            apart,
          ),
        ))
        (λ e w p. p))

  Keeps-check_health :
      (v : View u version old.current) (path : String)
      (h : Option (String → Exec u.Outside String Unit))
      → Keeps (At v) (check_health u path h)
  unfolding check_health
  Keeps-check_health v path none = Keeps-pure tt
  Keeps-check_health v path (some run) = Keeps-callback u version old.current v _

  commit-Triple : Triple (At staged) (λ a. At done) (λ e. At staged) (commit u version new)
  unfolding commit
  commit-Triple =
      Triple-bind (At staged) (λ a. At staged) (λ a. At done) (λ e. At staged) _ _
        (Keeps→Triple (At staged) (λ a. At staged) (λ e. At staged) _
          (Keeps-check_health staged version u.health) (λ a w p. p) (λ e w p. p))
        λ _.
          save_state-Triple u version old.current fresh is_first is_second staged new
            (λ e. At staged) (λ e w p. p)

  or_restore-Triple :
      (r : Result UpdateError Unit) → Triple (At done) (λ a. At done) Failed (or_restore u old r)
  unfolding or_restore
  or_restore-Triple (ok a) = Triple-pure (At done) (λ a. At done) Failed tt (λ w h. h)
  or_restore-Triple (err e) =
      restore_state-Triple u version old.current fresh is_first is_second done old (λ a. At done)
        Failed e (λ e w h. inr h) (λ e w h. inl (to_kept (some (file body)) w h))

  settle-Triple : Triple (At done) (λ a. At done) Failed (settle u old new)
  unfolding settle try
  settle-Triple =
      Triple-bind (At done) (λ r. At done) (λ a. At done) Failed _ _
        (record {
          at =
              (Keeps-bind (project_state u new) _
                (Keeps-project_state u version old.current fresh is_first is_second done new)
                (λ a. Keeps-check_health done "current" u.health)).at;
        })
        or_restore-Triple

  -- The candidate has been written.
  abbrev Written : View u version old.current → Files (Entry u.Bytes) → Type 0
  Written v fs =
      (view u version old.current fs ≡ v) × (lookup u.candidate_temp fs ≡ some (file body))

  abbrev cleared : View u version old.current
  cleared = record { manifest = manifest old; one = none; two = two }

  -- One call of the installation, up to the one that puts the candidate into its slot.
  stage :
      (P Q : Files (Entry u.Bytes) → Type 0) (effect : Disk (Entry u.Bytes) → Disk (Entry u.Bytes))
      → ((d : Disk (Entry u.Bytes)) → P d.files → Q (effect d).files)
      → ((fs : Files (Entry u.Bytes)) → P fs → KeptFiles fs)
      → Triple (λ w. P w.disk.files) (λ a w. Q w.disk.files) Failed (sys u effect)
  stage P Q effect h k =
      Triple-sys u version old.current P Q Failed effect h (λ e w p. inl (k w.disk.files p))

  kept_view :
      (one : Held u version old.current) (fs : Files (Entry u.Bytes))
      → view u version old.current fs ≡ record { manifest = manifest old; one = one; two = two }
      → KeptFiles fs
  kept_view one fs h = (
    ap (λ (x : View u version old.current). x.manifest) h,
    ap (λ (x : View u version old.current). x.two) h,
  )

  written :
      (d : Disk (Entry u.Bytes))
      → view u version old.current d.files ≡ start
      → Written start (write_file u.candidate_temp (file body) d).files
  written d p = (
    view-put u version old.current u.candidate_temp (file body) d.files
          (candidate_temp-IsApart u version old.current fresh is_first is_second)
        ∙ p,
    ground (
      arith,
      lookup-put u.candidate_temp u.candidate_temp (file body) d.files,
      eq_iff u.candidate_temp u.candidate_temp,
    ),
  )

  slot_cleared :
      (d : Disk (Entry u.Bytes))
      → Written start d.files
      → Written cleared (remove_file version d).files
  slot_cleared d p = (
    view-remove_first u version old.current d is_first.no_manifest (λ h. apart (sym h))
        ∙ ap (λ (x : View u version old.current). record x { one = none }) p.0,
    ground (
      arith,
      p.1,
      lookup-delete version u.candidate_temp d.files,
      eq_iff version u.candidate_temp,
      is_first.no_candidate,
    ),
  )

  slot_filled :
      (d : Disk (Entry u.Bytes))
      → Written cleared d.files
      → view u version old.current (rename_file u.candidate_temp version d).files ≡ staged
  slot_filled d p =
      view-to_first u version old.current u.candidate_temp (file body) d p.1
        (candidate_temp-IsApart u version old.current fresh is_first is_second) is_first.no_manifest
        (λ h. apart (sym h))
      ∙ ap (λ (x : View u version old.current). record x { one = some (file body) }) p.0

  install-Triple : Triple (At start) (λ a. At done) Failed (install u version body old)
  unfolding install
  install-Triple =
      Triple-bind (At start) (λ a w. Written start w.disk.files) (λ a. At done) Failed _ _
        (stage (λ fs. view u version old.current fs ≡ start) (Written start) _ written
          (kept_view before))
        λ _.
          Triple-bind (λ w. Written start w.disk.files) (λ a w. Written start w.disk.files)
            (λ a. At done) Failed _ _
            (stage (Written start) (Written start) _ (λ d p. p) (λ fs p. kept_view before fs p.0))
            λ _.
              Triple-bind (λ w. Written start w.disk.files) (λ a w. Written start w.disk.files)
                (λ a. At done) Failed _ _
                (stage (Written start) (Written start) _ (λ d p. p)
                  (λ fs p. kept_view before fs p.0))
                λ _.
                  Triple-bind (λ w. Written start w.disk.files)
                    (λ a w. Written cleared w.disk.files) (λ a. At done) Failed _ _
                    (stage (Written start) (Written cleared) _ slot_cleared
                      (λ fs p. kept_view before fs p.0))
                    λ _.
                      Triple-bind (λ w. Written cleared w.disk.files) (λ a. At staged)
                        (λ a. At done) Failed _ _
                        (stage (Written cleared) (λ fs. view u version old.current fs ≡ staged) _
                          slot_filled (λ fs p. kept_view none fs p.0))
                        λ _.
                          Triple-bind (At staged) (λ a. At done) (λ a. At done) Failed _ _
                            (Triple-on_failure (At staged) (λ a. At done) (λ e. At staged) Failed _
                              _ commit-Triple
                              (λ e w p.
                                inl (Keeps-remove_version.at w (to_kept (some (file body)) w p))))
                            λ _. settle-Triple

  Failed-remove : (e : UpdateError) → Keeps (Failed e) (sys u (remove_file u.candidate_temp))
  Failed-remove e = record { at = λ w. removed w }
    where
      removed : (w : Machine u) → Failed e w → Failed e (sys u (remove_file u.candidate_temp) w).1
      removed w (inl h) = inl (
          to_kept (lookup version w.disk.files) (sys u (remove_file u.candidate_temp) w).1 (
            (Keeps-remove_other u version old.current
                (record { manifest = manifest old; one = lookup version w.disk.files; two = two })
                u.candidate_temp
                (candidate_temp-IsApart u version old.current fresh is_first is_second)).at
              w (rw (h.0, h.1) refl)))
      removed w (inr h) = inr (
          (Keeps-remove_other u version old.current done u.candidate_temp
              (candidate_temp-IsApart u version old.current fresh is_first is_second)).at
            w h)

  -- The rest of Apply once the guard against slots in use has let the release through.
  pub prepare-Triple : Triple (At start) (λ a. At done) Failed (prepare u version body old)
  unfolding prepare
  prepare-Triple =
      Triple-bind (At start) (λ a. At start) (λ a. At done) Failed _ _
        (quiet (Keeps-callback u version old.current start u.backup))
        λ _.
          Triple-bind (At start) (λ a. At start) (λ a. At done) Failed _ _
            (quiet (Keeps-idle u version old.current start))
            λ _.
              Triple-bind (At start) (λ a. At start) (λ a. At done) Failed _ _
                (quiet (Keeps-write_other u version old.current start u.candidate_temp _ other))
                λ _.
                  Triple-deferred (At start) (λ a. At done) Failed _ _ install-Triple
                    (λ a. Keeps-remove_other u version old.current done u.candidate_temp other)
                    Failed-remove
    where
      other : IsApart u version old.current u.candidate_temp
      other = candidate_temp-IsApart u version old.current fresh is_first is_second

      quiet :
          {A : Type 0} {m : Step u A}
          → Keeps (At start) m
          → Triple (At start) (λ a. At start) Failed m
      quiet {A} {m} h =
          Keeps→Triple (At start) (λ a. At start) Failed m h (λ a w p. p)
            (λ e w p. inl (to_kept before w p))
