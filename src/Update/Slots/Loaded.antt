-- ===== src/Update/Slots/Loaded.antt =====
-- Reading the manifest that was saved gives the state back, or fails.
use oikos.Common.{String, false, arith, ◌≡◌, refl, ap, ◌∙◌, Option, some, ◌=?◌}
use oikos.Common.Exec.{Result, ok, err}
use oikos.Common.Triples.{Triple, Triple-weaken, Triple-bind, Triple-pure, Triple-if}
use oikos.Common.Keeps.{Keeps, Keeps→Triple}
use oikos.Update.{Setup, SlotState, UpdateError, Entry, file, Machine}
use oikos.Update.Verify.{bad_version, validate_version}
use oikos.Update.Slots.{answer, read, check_previous, decoded, from_manifest, load_state}
use oikos.Update.Slots.Views.{View, Sees, Keeps-idle}

module _ {u : Setup} {A : Type 0} (P : Machine u → Type 0) where
  pub Triple-answer :
      (r : Result UpdateError A) → Triple P (λ a w. (r ≡ ok a) × P w) (λ e. P) (answer u r)
  Triple-answer (ok a) = record { at = λ w p. (refl, p) }
  Triple-answer (err e) = record { at = λ w p. p }

  pub Keeps-answer : (r : Result UpdateError A) → Keeps P (answer u r)
  Keeps-answer r = record { at = λ w p. p }

module _ (u : Setup) (P : Machine u → Type 0) where
  accepted :
      (name : String) (a : Unit) → validate_version u name ≡ ok a → bad_version u name ≡ false
  unfolding validate_version
  accepted name a h = ground (arith, h)

  validated :
      (name : String)
      → Triple P
          (λ a w. (bad_version u name ≡ false) × P w)
          (λ e. P)
          (answer u (validate_version u name))
  validated name =
      Triple-weaken P _ (λ e. P) P _ _ (Triple-answer P (validate_version u name)) (λ w p. p)
        (λ a w p. (accepted name a p.0, p.1))

  check_previous-Triple :
      (s : SlotState) → Triple P (λ t w. (t ≡ s) × P w) (λ e. P) (check_previous u s)
  unfolding check_previous
  check_previous-Triple s =
      Triple-if P _ _ (s.previous =? "") _ _ (λ h. Triple-pure P _ _ s (λ w p. (refl, p)))
        λ h.
          Triple-bind P (λ a w. (bad_version u s.previous ≡ false) × P w) _ _ _ _
            (validated s.previous) λ a. Triple-pure _ _ _ s (λ w p. (refl, p.1))

  -- The state, whose current version is valid.
  abbrev pub Loads : SlotState → SlotState → Machine u → Type 0
  Loads s t w = (t ≡ s) × (bad_version u s.current ≡ false) × P w

  decoded-Triple : (s : SlotState) → Triple P (Loads s) (λ e. P) (decoded u (some s))
  unfolding decoded
  decoded-Triple s =
      Triple-bind P (λ a w. (bad_version u s.current ≡ false) × P w) _ _ _ _ (validated s.current)
        λ a. record {
          at = λ w p.
              (Triple-weaken P (Loads s) (λ e. P) P (λ t w'. (t ≡ s) × P w') _
                  (check_previous-Triple s) (λ w p. p) (λ t w' q. (q.0, p.0, q.1))).at
                w p.1;
        }

  from_manifest-Triple :
      (old : SlotState) (e : Option (Entry u.Bytes))
      → e ≡ some (file (u.encode old))
      → u.decode (u.encode old) ≡ some old
      → Triple P (Loads old) (λ e. P) (from_manifest u e)
  unfolding from_manifest
  from_manifest-Triple old e saved decodes = rw (saved, decodes) (decoded-Triple old)

module _ (u : Setup) (first second : String) (v : View u first second) (old : SlotState) where
  abbrev Seen : Machine u → Type 0
  Seen = Sees u first second v

  read-Triple : Triple Seen (λ e w. (e ≡ v.manifest) × Seen w) (λ e. Seen) (read u "state.json")
  read-Triple =
      Triple-bind Seen (λ a. Seen) _ _ _ _
        (Keeps→Triple Seen (λ a. Seen) (λ e. Seen) _ (Keeps-idle u first second v) (λ a w p. p)
          (λ e w p. p))
        λ a. record { at = λ w p. (ap (λ (x : View u first second). x.manifest) p, p) }

  -- `encode` and `decode` are json.Marshal and json.Unmarshal: what was written is read back.
  pub load_state-Triple :
      v.manifest ≡ some (file (u.encode old))
      → u.decode (u.encode old) ≡ some old
      → Triple Seen (Loads u Seen old) (λ e. Seen) (load_state u)
  unfolding load_state
  load_state-Triple saved decodes =
      Triple-bind Seen (λ e w. (e ≡ v.manifest) × Seen w) _ _ _ _ read-Triple
        λ e. record {
          at = λ w p. (from_manifest-Triple u Seen old e (p.0 ∙ saved) decodes).at w p.1;
        }
