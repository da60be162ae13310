-- ===== src/Update/Slots/Views.antt =====
-- What the calls on the slots leave of the manifest and of two slots: `first` and `second` are names
-- of slots, so no call but those of Apply's installation touches them.
use oikos.Common.{
  String, false, ◌≡◌, ◌≢◌, refl, sym, Option, none, some, ◌∙◌, arith, eq_iff, lookup, put, delete,
  lookup-put, lookup-delete,
}
use oikos.Common.Exec.{Result, ok, err, Exec}
use oikos.Common.Triples.{Outcome, Triple}
use oikos.Common.Keeps.{Keeps, Keeps-pure, Keeps-raise, Keeps→Triple, Triple→Keeps, keeps_rules}
use oikos.Common.Disk.{Disk, call, move, write_file, rename_file, remove_file}
use oikos.Common.Disk.Triples.{Files, OnFiles-call}
use oikos.Update.{Setup, UpdateError, file_error, Entry, Machine, Step, sys, try}
use oikos.Update.Verify.{bad_version}
use oikos.Update.Slots.{or_remove, replace_symlink, callback}

-- A name that no slot has.
pub record IsSlot (u : Setup) (name : String) : Type 0 where
  pub no_manifest : name ≢ "state.json"
  pub no_current : name ≢ "current"
  pub no_previous : name ≢ "previous"
  pub no_candidate : name ≢ u.candidate_temp
  pub no_state : name ≢ u.state_temp
  pub no_current_temp : name ≢ u.current_temp
  pub no_previous_temp : name ≢ u.previous_temp

-- os.CreateTemp does not choose the name, if that names an entry of the root: a path that is its
-- own base.
pub record IsUnused (u : Setup) (name : String) : Type 0 where
  pub no_candidate : u.base name ≡ name → name ≢ u.candidate_temp
  pub no_state : u.base name ≡ name → name ≢ u.state_temp
  pub no_current_temp : u.base name ≡ name → name ≢ u.current_temp
  pub no_previous_temp : u.base name ≡ name → name ≢ u.previous_temp

-- What validateVersion accepts is the name of a slot.
pub IsSlot-valid : (u : Setup) (v : String) → bad_version u v ≡ false → IsUnused u v → IsSlot u v
unfolding bad_version
IsSlot-valid u v h apart =
    let plain : u.base v ≡ v = ground (arith, h, eq_iff (u.base v) v) in
    record {
      no_manifest = λ e. ground (arith, h, eq_iff v "state.json", e);
      no_current = λ e. ground (arith, h, eq_iff v "current", e);
      no_previous = λ e. ground (arith, h, eq_iff v "previous", e);
      no_candidate = apart.no_candidate plain;
      no_state = apart.no_state plain;
      no_current_temp = apart.no_current_temp plain;
      no_previous_temp = apart.no_previous_temp plain;
    }

-- os.CreateTemp chooses names that are not taken; the manifest's is.
pub record IsFresh (u : Setup) : Type 0 where
  pub no_candidate : "state.json" ≢ u.candidate_temp
  pub no_state : "state.json" ≢ u.state_temp
  pub no_current_temp : "state.json" ≢ u.current_temp
  pub no_previous_temp : "state.json" ≢ u.previous_temp

module _ (u : Setup) (first second : String) where
  abbrev pub Held : Type 0
  Held = Option (Entry u.Bytes)

  -- What the manifest and the two slots hold.
  pub record View : Type 0 where
    pub manifest : Held
    pub one : Held
    pub two : Held

  abbrev pub view : Files (Entry u.Bytes) → View
  view fs = record {
    manifest = lookup "state.json" fs;
    one = lookup first fs;
    two = lookup second fs;
  }

  abbrev pub Sees : View → Machine u → Type 0
  Sees v w = view w.disk.files ≡ v

  -- A name that is none of the three.
  pub record IsApart (name : String) : Type 0 where
    pub o_manifest : "state.json" ≢ name
    pub o_first : first ≢ name
    pub o_second : second ≢ name

  kept_put :
      (j name : String) (e : Entry u.Bytes) (fs : Files (Entry u.Bytes))
      → j ≢ name
      → lookup j (put name e fs) ≡ lookup j fs
  kept_put j name e fs apart = ground (arith, lookup-put name j e fs, eq_iff name j)

  kept_delete :
      (j name : String) (fs : Files (Entry u.Bytes))
      → j ≢ name
      → lookup j (delete name fs) ≡ lookup j fs
  kept_delete j name fs apart = ground (arith, lookup-delete name j fs, eq_iff name j)

  pub view-put :
      (name : String) (e : Entry u.Bytes) (fs : Files (Entry u.Bytes))
      → IsApart name
      → view (put name e fs) ≡ view fs
  view-put name e fs o =
      rw
        (
          kept_put "state.json" name e fs o.o_manifest,
          kept_put first name e fs o.o_first,
          kept_put second name e fs o.o_second,
        )
        refl

  pub view-delete :
      (name : String) (fs : Files (Entry u.Bytes)) → IsApart name → view (delete name fs) ≡ view fs
  view-delete name fs o =
      rw
        (
          kept_delete "state.json" name fs o.o_manifest,
          kept_delete first name fs o.o_first,
          kept_delete second name fs o.o_second,
        )
        refl

  pub view-rename :
      (from to : String) (d : Disk (Entry u.Bytes))
      → IsApart from
      → IsApart to
      → view (rename_file from to d).files ≡ view d.files
  view-rename from to d o k = moved (lookup from d.files)
    where
      moved : (held : Held) → view (move held from to d).files ≡ view d.files
      moved none = refl
      moved (some e) = view-put to e (delete from d.files) k ∙ view-delete from d.files o

  put_same :
      (j : String) (e : Entry u.Bytes) (fs : Files (Entry u.Bytes)) → lookup j (put j e fs) ≡ some e
  put_same j e fs = ground (arith, lookup-put j j e fs, eq_iff j j)

  -- A file is renamed over the manifest.
  pub view-to_manifest :
      (from : String) (e : Entry u.Bytes) (d : Disk (Entry u.Bytes))
      → lookup from d.files ≡ some e
      → IsApart from
      → first ≢ "state.json"
      → second ≢ "state.json"
      → view (rename_file from "state.json" d).files ≡ record (view d.files) { manifest = some e }
  view-to_manifest from e d h o apart_first apart_second =
      rw
        (
          h,
          put_same "state.json" e (delete from d.files),
          kept_put first "state.json" e (delete from d.files) apart_first,
          kept_put second "state.json" e (delete from d.files) apart_second,
          kept_delete first from d.files o.o_first,
          kept_delete second from d.files o.o_second,
        )
        refl

  -- A file is renamed over the first slot.
  pub view-to_first :
      (from : String) (e : Entry u.Bytes) (d : Disk (Entry u.Bytes))
      → lookup from d.files ≡ some e
      → IsApart from
      → first ≢ "state.json"
      → second ≢ first
      → view (rename_file from first d).files ≡ record (view d.files) { one = some e }
  view-to_first from e d h o apart_manifest apart_second =
      rw
        (
          h,
          put_same first e (delete from d.files),
          kept_put "state.json" first e (delete from d.files) (λ k. apart_manifest (sym k)),
          kept_put second first e (delete from d.files) apart_second,
          kept_delete "state.json" from d.files o.o_manifest,
          kept_delete second from d.files o.o_second,
        )
        refl

  -- The first slot is removed.
  pub view-remove_first :
      (d : Disk (Entry u.Bytes))
      → first ≢ "state.json"
      → second ≢ first
      → view (remove_file first d).files ≡ record (view d.files) { one = none }
  view-remove_first d apart_manifest apart_second =
      rw
        (
          kept_delete "state.json" first d.files (λ k. apart_manifest (sym k)),
          kept_delete second first d.files apart_second,
          delete_same,
        )
        refl
    where
      delete_same : lookup first (delete first d.files) ≡ none
      delete_same = ground (arith, lookup-delete first first d.files, eq_iff first first)

  pub Triple-sys :
      (P Q : Files (Entry u.Bytes) → Type 0) (R : UpdateError → Machine u → Type 0)
      (effect : Disk (Entry u.Bytes) → Disk (Entry u.Bytes))
      → ((d : Disk (Entry u.Bytes)) → P d.files → Q (effect d).files)
      → ((e : UpdateError) (w : Machine u) → P w.disk.files → R e w)
      → Triple (λ w. P w.disk.files) (λ a w. Q w.disk.files) R (sys u effect)
  unfolding sys
  Triple-sys P Q R effect h r = record {
    at = λ w p.
        lifted w.outside (call file_error effect w.disk).0 (call file_error effect w.disk).1
          ((OnFiles-call P Q P file_error effect h (λ fs p. p)).at w.disk p);
  }
    where
      lifted :
          (o : u.Outside) (x : Result UpdateError Unit) (d : Disk (Entry u.Bytes))
          → Outcome (λ a d. Q d.files) (λ e d. P d.files) x d
          → Outcome (λ a w. Q w.disk.files) R x (record { disk = d; outside = o })
      lifted o (ok a) d h = h
      lifted o (err e) d h = r e (record { disk = d; outside = o }) h

  module _ (v : View) where
    Keeps-sys :
        (effect : Disk (Entry u.Bytes) → Disk (Entry u.Bytes))
        → ((d : Disk (Entry u.Bytes)) → view (effect d).files ≡ view d.files)
        → Keeps (Sees v) (sys u effect)
    Keeps-sys effect h = Triple→Keeps (Sees v) (sys u effect) (
        Triple-sys (λ fs. view fs ≡ v) (λ fs. view fs ≡ v) (λ e. Sees v) effect (λ d p. h d ∙ p)
          (λ e w p. p))

    pub Keeps-idle : Keeps (Sees v) (sys u (λ d. d))
    Keeps-idle = Keeps-sys (λ d. d) (λ d. refl)

    pub Keeps-write_other :
        (name : String) (e : Entry u.Bytes)
        → IsApart name
        → Keeps (Sees v) (sys u (write_file name e))
    Keeps-write_other name e o = Keeps-sys (write_file name e) (λ d. view-put name e d.files o)

    pub Keeps-remove_other :
        (name : String) → IsApart name → Keeps (Sees v) (sys u (remove_file name))
    Keeps-remove_other name o = Keeps-sys (remove_file name) (λ d. view-delete name d.files o)

    pub Keeps-rename_other :
        (from to : String)
        → IsApart from
        → IsApart to
        → Keeps (Sees v) (sys u (rename_file from to))
    Keeps-rename_other from to o k =
        Keeps-sys (rename_file from to) (λ d. view-rename from to d o k)

    pub Keeps-try : {A : Type 0} (m : Step u A) → Keeps (Sees v) m → Keeps (Sees v) (try u m)
    unfolding try
    Keeps-try m h = record { at = h.at }

    pub Keeps-callback : (f : Option (Exec u.Outside String Unit)) → Keeps (Sees v) (callback u f)
    unfolding callback
    Keeps-callback none = record { at = λ w h. h }
    Keeps-callback (some f) = record { at = λ w h. h }

    pub ruleset view_rules = (
      keeps_rules, Keeps-pure, Keeps-raise, Keeps-idle, Keeps-write_other, Keeps-remove_other,
      Keeps-rename_other, Keeps-try, Keeps-callback,
    )

    Keeps-or_remove :
        (temp : String) (r : Result UpdateError Unit)
        → IsApart temp
        → Keeps (Sees v) (or_remove u temp r)
    unfolding or_remove
    Keeps-or_remove temp (ok done) o = search view_rules
    Keeps-or_remove temp (err e) o = search view_rules

    pub Keeps-replace_symlink :
        (temp name target : String)
        → IsApart temp
        → IsApart name
        → Keeps (Sees v) (replace_symlink u temp name target)
    unfolding replace_symlink
    Keeps-replace_symlink temp name target o k = search (view_rules, Keeps-or_remove) depth 12
