-- ===== src/Update/Slots/Saved.antt =====
-- internal/update/slots.go: what saving, projecting and restoring a state leave of the manifest and of
-- two slots.
use oikos.Common.{
  String, ◌≡◌, ◌≢◌, refl, ap, ◌⊎◌, inl, inr, ◌∙◌, false, some, arith, ◌=?◌, eq_iff, lookup,
  lookup-put,
}
use oikos.Common.Exec.{Result, ok, err}
use oikos.Common.Triples.{Outcome, Triple, Triple-bind, Triple-weaken_error}
use oikos.Common.Keeps.{Keeps, Keeps→Triple}
use oikos.Common.Disk.{Disk, write_file, rename_file}
use oikos.Common.Disk.Triples.{Files}
use oikos.Update.{
  Setup, SlotState, UpdateError, restore_error, Entry, file, Machine, Step, try, deferred,
}
use oikos.Update.Slots.{
  fill_state, save_state, drop_previous, project_state_direct, project_state, restored,
  restore_state,
}
use oikos.Update.Slots.Views.{
  IsSlot, IsFresh, IsApart, View, view, Sees, Triple-sys, view-put, view-to_manifest, Keeps-idle,
  Keeps-write_other, Keeps-remove_other, Keeps-replace_symlink, view_rules,
}

-- A deferred call that disturbs neither postcondition.
pub Triple-deferred :
    {u : Setup} {A : Type 0} (P : Machine u → Type 0) (Q : A → Machine u → Type 0)
    (R : UpdateError → Machine u → Type 0) (last : Step u Unit) (m : Step u A)
    → Triple P Q R m
    → ((a : A) → Keeps (Q a) last)
    → ((e : UpdateError) → Keeps (R e) last)
    → Triple P Q R (deferred u last m)
unfolding deferred
Triple-deferred {u} {A} P Q R last m h q r = record {
  at = λ w p. then_last (m w).0 (m w).1 (h.at w p);
}
  where
    then_last :
        (x : Result UpdateError A) (w : Machine u) → Outcome Q R x w → Outcome Q R x (last w).1
    then_last (ok a) w k = (q a).at w k
    then_last (err e) w k = (r e).at w k

pub Triple-try :
    {u : Setup} {A : Type 0} (P : Machine u → Type 0) (Q : A → Machine u → Type 0)
    (R R' : UpdateError → Machine u → Type 0) (m : Step u A)
    → Triple P Q R m
    → Triple P (λ r. Outcome Q R r) R' (try u m)
unfolding try
Triple-try P Q R R' m h = record { at = h.at }

differ : {s t : String} → (s =? t) ≡ false → s ≢ t
differ {s} {t} h e = absurd (ground (arith, eq_iff s t, h, e))

restored-Triple :
    (u : Setup) (P L : Machine u → Type 0) (Q : Unit → Machine u → Type 0)
    (R : UpdateError → Machine u → Type 0) (cause : UpdateError)
    → ((e : UpdateError) (w : Machine u) → P w → R e w)
    → ((e : UpdateError) (w : Machine u) → L w → R e w)
    → (r : Result UpdateError Unit) → Triple (Outcome (λ a. P) (λ e. L) r) Q R (restored u cause r)
unfolding restored
restored-Triple u P L Q R cause p l (ok a) = record { at = λ w h. p cause w h }
restored-Triple u P L Q R cause p l (err e) = record { at = λ w h. l (restore_error cause e) w h }

module _ (u : Setup) (first second : String) (fresh : IsFresh u) (is_first : IsSlot u first)
    (is_second : IsSlot u second) where
  pub state_temp-IsApart : IsApart u first second u.state_temp
  state_temp-IsApart = record {
    o_manifest = fresh.no_state;
    o_first = is_first.no_state;
    o_second = is_second.no_state;
  }

  pub candidate_temp-IsApart : IsApart u first second u.candidate_temp
  candidate_temp-IsApart = record {
    o_manifest = fresh.no_candidate;
    o_first = is_first.no_candidate;
    o_second = is_second.no_candidate;
  }

  current_temp-IsApart : IsApart u first second u.current_temp
  current_temp-IsApart = record {
    o_manifest = fresh.no_current_temp;
    o_first = is_first.no_current_temp;
    o_second = is_second.no_current_temp;
  }

  previous_temp-IsApart : IsApart u first second u.previous_temp
  previous_temp-IsApart = record {
    o_manifest = fresh.no_previous_temp;
    o_first = is_first.no_previous_temp;
    o_second = is_second.no_previous_temp;
  }

  current-IsApart : IsApart u first second "current"
  current-IsApart = record {
    o_manifest = differ refl;
    o_first = is_first.no_current;
    o_second = is_second.no_current;
  }

  previous-IsApart : IsApart u first second "previous"
  previous-IsApart = record {
    o_manifest = differ refl;
    o_first = is_first.no_previous;
    o_second = is_second.no_previous;
  }

  module _ (v : View u first second) where
    abbrev Seen : Machine u → Type 0
    Seen = Sees u first second v

    pub Keeps-project_state : (s : SlotState) → Keeps Seen (project_state u s)
    unfolding project_state project_state_direct drop_previous
    Keeps-project_state s =
        search
          (
            view_rules, Keeps-replace_symlink, current-IsApart, current_temp-IsApart,
            previous-IsApart, previous_temp-IsApart,
          )
          depth 12

    -- The view after the manifest has been replaced.
    abbrev pub with_manifest : SlotState → View u first second
    with_manifest s = record v { manifest = some (file (u.encode s)) }

    abbrev Filled : SlotState → Files (Entry u.Bytes) → Type 0
    Filled s fs = (view u first second fs ≡ v) × (lookup u.state_temp fs ≡ some (file (u.encode s)))

    filled :
        (s : SlotState) (d : Disk (Entry u.Bytes))
        → view u first second d.files ≡ v
        → Filled s (write_file u.state_temp (file (u.encode s)) d).files
    filled s d p = (
      view-put u first second u.state_temp (file (u.encode s)) d.files state_temp-IsApart ∙ p,
      ground (
        arith,
        lookup-put u.state_temp u.state_temp (file (u.encode s)) d.files,
        eq_iff u.state_temp u.state_temp,
      ),
    )

    renamed :
        (s : SlotState) (d : Disk (Entry u.Bytes))
        → Filled s d.files
        → view u first second (rename_file u.state_temp "state.json" d).files ≡ with_manifest s
    renamed s d p =
        view-to_manifest u first second u.state_temp (file (u.encode s)) d p.1 state_temp-IsApart
          is_first.no_manifest is_second.no_manifest
        ∙ ap (λ (x : View u first second). record x { manifest = some (file (u.encode s)) }) p.0

    fill_state-Triple :
        (s : SlotState)
        → Triple Seen (λ a. Sees u first second (with_manifest s)) (λ e. Seen) (fill_state u s)
    unfolding fill_state
    fill_state-Triple s =
        Triple-bind Seen (λ a. Seen) After (λ e. Seen) _ _
          (Keeps→Triple Seen (λ a. Seen) (λ e. Seen) _ (Keeps-idle u first second v) (λ a w p. p)
            (λ e w p. p))
          λ _.
            Triple-bind Seen (λ a w. Filled s w.disk.files) After (λ e. Seen) _ _
              (Triple-sys u first second (λ fs. view u first second fs ≡ v) (Filled s) (λ e. Seen)
                (write_file u.state_temp (file (u.encode s))) (filled s) (λ e w p. p))
              λ _.
                Triple-bind (λ w. Filled s w.disk.files) (λ a w. Filled s w.disk.files) After
                  (λ e. Seen) _ _
                  (Triple-sys u first second (Filled s) (Filled s) (λ e. Seen) (λ d. d) (λ d p. p)
                    (λ e w p. p.0))
                  λ _.
                    Triple-sys u first second (Filled s)
                      (λ fs. view u first second fs ≡ with_manifest s) (λ e. Seen)
                      (rename_file u.state_temp "state.json") (renamed s) (λ e w p. p.0)
      where
        After : Unit {0} → Machine u → Type 0
        After a = Sees u first second (with_manifest s)

    pub save_state-Triple :
        (s : SlotState) (R : UpdateError → Machine u → Type 0)
        → ((e : UpdateError) (w : Machine u) → Seen w → R e w)
        → Triple Seen (λ a. Sees u first second (with_manifest s)) R (save_state u s)
    unfolding save_state
    save_state-Triple s R r =
        Triple-weaken_error Seen (λ a. Sees u first second (with_manifest s)) (λ e. Seen) R _
          (Triple-bind Seen (λ a. Seen) (λ a. Sees u first second (with_manifest s)) (λ e. Seen) _ _
            (Keeps→Triple Seen (λ a. Seen) (λ e. Seen) _
              (Keeps-write_other u first second v u.state_temp _ state_temp-IsApart) (λ a w p. p)
              (λ e w p. p))
            λ _.
              Triple-deferred Seen (λ a. Sees u first second (with_manifest s)) (λ e. Seen) _ _
                (fill_state-Triple s)
                (λ a.
                  Keeps-remove_other u first second (with_manifest s) u.state_temp
                    state_temp-IsApart)
                (λ e. Keeps-remove_other u first second v u.state_temp state_temp-IsApart))
          r

  -- A restoration never succeeds: it reports the cause.
  pub restore_state-Triple :
      (v : View u first second) (s : SlotState) (Q : Unit → Machine u → Type 0)
      (R : UpdateError → Machine u → Type 0) (cause : UpdateError)
      → ((e : UpdateError) (w : Machine u) → (Sees u first second v) w → R e w)
      → ((e : UpdateError) (w : Machine u) → Sees u first second (with_manifest v s) w → R e w)
      → Triple (Sees u first second v) Q R (restore_state u s cause)
  unfolding restore_state
  restore_state-Triple v s Q R cause before after =
      Triple-bind (Sees u first second v) (λ r. Outcome (λ a. Restored) (λ e. Left) r) Q R _ _
        (Triple-try (Sees u first second v) (λ a. Restored) (λ e. Left) R _
          (Triple-bind (Sees u first second v) (λ a. Restored) (λ a. Restored) (λ e. Left) _ _
            (save_state-Triple v s (λ e. Left) (λ e w. inl))
            λ _.
              Keeps→Triple Restored (λ a. Restored) (λ e. Left) _
                (Keeps-project_state (with_manifest v s) s) (λ a w h. h) (λ e w. inr)))
        (restored-Triple u Restored Left Q R cause (λ e w h. reported e w (inr h)) reported)
    where
      Restored : Machine u → Type 0
      Restored = Sees u first second (with_manifest v s)

      Left : Machine u → Type 0
      Left w = (Sees u first second v) w ⊎ Restored w

      reported : (e : UpdateError) (w : Machine u) → Left w → R e w
      reported e w (inl h) = before e w h
      reported e w (inr h) = after e w h
