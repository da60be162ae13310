-- ===== src/Update/Manager/Atomic.antt =====
-- `Apply` of internal/update/manager.go: the slots after an update, whatever fails.
use oikos.Common.{
  String, false, ◌≡◌, ◌≢◌, refl, ap, ◌⊎◌, inl, inr, ◌||◌, Option, none, some, arith, ◌=?◌, eq_iff,
  lookup, if◌then◌else◌,
}
use oikos.Common.Exec.{ok, ◌>>=◌, pure, raise}
use oikos.Common.Triples.{
  Outcome, Triple, Triple-bind, Triple-pure, Triple-raise, Triple-if, Triple-weaken,
  Triple-weaken_error,
}
use oikos.Common.Keeps.{Keeps, Keeps→Triple, Keeps-if, Keeps-pure, Keeps-raise}
use oikos.Update.{
  Setup, Release, SlotState, UpdateError, already_slot, root_required, Entry, file, link, Machine,
  Step,
}
use oikos.Update.Verify.{bad_version, verify_release}
use oikos.Update.Slots.{validate, load_state}
use oikos.Update.Slots.Views.{IsSlot, IsFresh, IsUnused, IsSlot-valid, View, Sees, Held}
use oikos.Update.Slots.Loaded.{Loads, Triple-answer, load_state-Triple}
use oikos.Update.Manager.{download, switch, apply}
use oikos.Update.Manager.Committed.{prepare-Triple}

module _ (u : Setup) (version : String) (old : SlotState)
    (before two : Held u version old.current) where
  abbrev started : View u version old.current
  started = record { manifest = some (file (u.encode old)); one = before; two = two }

  abbrev Start : Machine u → Type 0
  Start = Sees u version old.current started

  abbrev Done : u.Bytes → Machine u → Type 0
  Done body = Sees u version old.current (record {
    manifest = some (file (u.encode (record { current = version; previous = old.current })));
    one = some (file body);
    two = two;
  })

  abbrev Kept : Machine u → Type 0
  Kept w =
      (lookup "state.json" w.disk.files ≡ some (file (u.encode old)))
      × (lookup old.current w.disk.files ≡ two)

  Start-Kept : (w : Machine u) → Start w → Kept w
  Start-Kept w h = (
    ap (λ (x : View u version old.current). x.manifest) h,
    ap (λ (x : View u version old.current). x.two) h,
  )

  quiet :
      {A : Type 0} (R : UpdateError → Machine u → Type 0) {m : Step u A}
      → ((e : UpdateError) (w : Machine u) → Kept w → R e w)
      → Keeps Start m
      → Triple Start (λ a. Start) R m
  quiet R {m} r h =
      Keeps→Triple Start (λ a. Start) R m h (λ a w p. p) (λ e w p. r e w (Start-Kept w p))

  module _ (fresh : IsFresh u) (is_first : IsSlot u version)
      (is_second : IsSlot u old.current) where
    switch-Triple :
        (body : u.Bytes)
        → Triple Start (λ a. Done body) (λ e w. Kept w ⊎ Done body w) (switch u version body old)
    unfolding switch
    switch-Triple body =
        Triple-bind Start (λ a w. Start w × (version ≢ old.current)) (λ a. Done body)
          (λ e w. Kept w ⊎ Done body w) _ _ guard
          λ a. record {
            at = λ w p.
                (prepare-Triple u version old body before two fresh is_first is_second p.1).at w
                  p.0;
          }
      where
        guard :
            Triple Start
              (λ a w. Start w × (version ≢ old.current))
              (λ e w. Kept w ⊎ Done body w)
              (if version =? old.current || version =? old.previous
                then raise already_slot
                else pure tt)
        guard =
            Triple-if _ _ _ (version =? old.current || version =? old.previous) _ _
              (λ h. Triple-raise _ _ _ already_slot (λ w p. inl (Start-Kept w p)))
              (λ h.
                Triple-pure _ _ _ tt
                  (λ w p. (p, λ e. absurd (ground (arith, h, eq_iff version old.current, e)))))

-- The slot holds a binary that verifies as the release.
abbrev pub Verified : (u : Setup) → Release → Option (Entry u.Bytes) → Type 0
Verified u r none = ⊥
Verified u r (some (link target)) = ⊥
Verified u r (some (file body)) = verify_release u r body ≡ ok tt

-- The manifest names the release, whose binary stands in its slot, and the old binary is as it was.
pub record Updated (u : Setup) (r : Release) (old : SlotState) (two : Option (Entry u.Bytes))
    (w : Machine u) : Type 0 where
  pub manifest :
      lookup "state.json" w.disk.files
      ≡ some (file (u.encode (record { current = r.version; previous = old.current })))
  pub slot : Verified u r (lookup r.version w.disk.files)
  pub kept : lookup old.current w.disk.files ≡ two

-- The manifest and the slot that it names are as they were.
pub record Unchanged (u : Setup) (old : SlotState) (two : Option (Entry u.Bytes)) (w : Machine u)
    : Type 0 where
  pub manifest : lookup "state.json" w.disk.files ≡ some (file (u.encode old))
  pub kept : lookup old.current w.disk.files ≡ two

module _ (u : Setup) (r : Release) (old : SlotState) (before two : Held u r.version old.current)
    (fresh : IsFresh u) (is_first : IsUnused u r.version) (is_second : IsUnused u old.current)
    (decodes : u.decode (u.encode old) ≡ some old) where
  abbrev Ended : UpdateError → Machine u → Type 0
  Ended e w = Unchanged u old two w ⊎ Updated u r old two w

  abbrev From : Machine u → Type 0
  From = Start u r.version old before two

  verified :
      (body : u.Bytes) (w : Machine u)
      → verify_release u r body ≡ ok tt
      → Done u r.version old before two body w
      → Updated u r old two w
  verified body w ok_body h = record {
    manifest = ap (λ (x : View u r.version old.current). x.manifest) h;
    slot = rw (ap (λ (x : View u r.version old.current). x.one) h) ok_body;
    kept = ap (λ (x : View u r.version old.current). x.two) h;
  }

  unchanged : (e : UpdateError) (w : Machine u) → Kept u r.version old before two w → Ended e w
  unchanged e w h = inl (record { manifest = h.0; kept = h.1 })

  still : {A : Type 0} {m : Step u A} → Keeps From m → Triple From (λ a. From) Ended m
  still h = quiet u r.version old before two Ended unchanged h

  version_valid :
      (body : u.Bytes) → verify_release u r body ≡ ok tt → bad_version u r.version ≡ false
  unfolding verify_release
  version_valid body h = ground (arith, h)

  switching :
      (body : u.Bytes) (s : SlotState)
      → verify_release u r body ≡ ok tt
      → s ≡ old
      → bad_version u old.current ≡ false
      → Triple From (λ a. Updated u r old two) Ended (switch u r.version body s)
  switching body s good e valid = rw e (
      Triple-weaken From (λ a. Updated u r old two) Ended From (λ a. Made) _
        (Triple-weaken_error From (λ a. Made) (λ e w. Kept u r.version old before two w ⊎ Made w)
          Ended _
          (switch-Triple u r.version old before two fresh
            (IsSlot-valid u r.version (version_valid body good) is_first)
            (IsSlot-valid u old.current valid is_second) body)
          either)
        (λ w p. p) (λ a w h. verified body w good h))
    where
      Made : Machine u → Type 0
      Made = Done u r.version old before two body

      either :
          (e : UpdateError) (w : Machine u) → Kept u r.version old before two w ⊎ Made w → Ended e w
      either e w (inl h) = unchanged e w h
      either e w (inr h) = inr (verified body w good h)

  loading :
      (body : u.Bytes)
      → verify_release u r body ≡ ok tt
      → Triple From (λ a. Updated u r old two) Ended (load_state u >>= switch u r.version body)
  loading body good =
      Triple-bind From (Loads u From old) (λ a. Updated u r old two) Ended _ _
        (Triple-weaken_error From (Loads u From old) (λ e. From) Ended _
          (load_state-Triple u r.version old.current (started u r.version old before two) old refl
            decodes)
          (λ e w p. unchanged e w (Start-Kept u r.version old before two w p)))
        λ s. record { at = λ w p. (switching body s good p.0 p.1).at w p.2 }

  apply-Triple : Triple From (λ a. Updated u r old two) Ended (apply u r)
  unfolding apply validate download
  apply-Triple =
      Triple-bind From (λ a. From) (λ a. Updated u r old two) Ended _ _
        (still (Keeps-if (u.root =? "") _ _ (Keeps-raise root_required) (Keeps-pure tt)))
        λ _.
          Triple-bind From (λ a. From) (λ a. Updated u r old two) Ended _ _
            (still (record { at = λ w p. p }))
            λ body.
              Triple-bind From (λ a w. (verify_release u r body ≡ ok a) × From w)
                (λ a. Updated u r old two) Ended _ _
                (Triple-weaken_error From _ (λ e. From) Ended _
                  (Triple-answer From (verify_release u r body))
                  (λ e w p. unchanged e w (Start-Kept u r.version old before two w p)))
                λ a. record { at = λ w p. (loading body p.0).at w p.1 }

-- Whatever system calls, callbacks or checks fail during Apply from a saved manifest: the binary of
-- the slot in use is as it was; if Apply reports success, the manifest names the release and the
-- slot holds a binary that passed the verification; if it reports an error, either the manifest is
-- unchanged, or it names the release and the slot holds such a binary. No other writer interferes,
-- os.CreateTemp chooses neither the manifest's name nor, where the two versions name entries of the
-- root, theirs, and json.Unmarshal reads what json.Marshal wrote of the saved state.
pub apply-atomic :
    (u : Setup) (r : Release) (old : SlotState) (w : Machine u)
    → IsFresh u
    → IsUnused u r.version
    → IsUnused u old.current
    → u.decode (u.encode old) ≡ some old
    → lookup "state.json" w.disk.files ≡ some (file (u.encode old))
    → Outcome
        (λ a. Updated u r old (lookup old.current w.disk.files))
        (λ e w'.
          Unchanged u old (lookup old.current w.disk.files) w'
          ⊎ Updated u r old (lookup old.current w.disk.files) w')
        (apply u r w).0
        (apply u r w).1
apply-atomic u r old w fresh is_first is_second decodes saved =
    (apply-Triple u r old (lookup r.version w.disk.files) (lookup old.current w.disk.files) fresh
        is_first is_second decodes).at
      w (rw saved refl)
