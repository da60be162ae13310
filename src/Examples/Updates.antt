-- ===== src/Examples/Updates.antt =====
-- An update of the daemon from version 1 to version 2.
use oikos.Common.{
  ℕ, String, ◌≡◌, ◌≢◌, refl, ◌⊎◌, Bool, true, false, not, Option, none, some, List, [], ◌∷◌, ◌=?◌,
  lookup, contains,
}
use oikos.Common.Exec.{Result, ok, err}
use oikos.Common.Triples.{Outcome}
use oikos.Update.{Setup, Release, SlotState, Entry, file, link, Machine}
use oikos.Update.Slots.Views.{IsUnused, IsFresh}
use oikos.Update.Manager.{apply}
use oikos.Update.Manager.Atomic.{Updated, Unchanged, apply-atomic}
use oikos.Common.Int.{pos}
use oikos.Update.Retention.{
  versions_to_remove, sort_versions, insert_version, backwards, protect, protect_one, unprotected,
  limit_of,
}
use oikos.Update.Retention.Protection.{versions_to_remove-spares}
use oikos.Examples.Tunnels.{differ}

abbrev old : SlotState
old = record { current = "1"; previous = "" }

-- A file holds a binary, or a manifest.
data Content : Type 0 where
  binary : String → Content
  manifest : SlotState → Content

abbrev decode : Content → Option SlotState
decode (binary b) = none
decode (manifest s) = some s

abbrev digest : Content → String
digest (binary b) = b
digest (manifest s) = ""

abbrev setup : Setup
setup = record {
  Bytes = Content;
  blank = binary "";
  root = "/opt";
  base = λ v. v;
  is_abs = λ v. false;
  is_digest = λ h. true;
  sha256_hex = digest;
  encode = manifest;
  decode = decode;
  Outside = Unit;
  get = λ url o. (ok (200, ok (binary "two")), o);
  verify = some (λ r body. ok tt);
  backup = none;
  project = none;
  health = none;
  candidate_temp = ".candidate-1";
  state_temp = ".state-1";
  current_temp = ".current-1";
  previous_temp = ".previous-1";
}

abbrev release : Release
release = record {
  version = "2";
  binary_url = "u";
  sha256 = "two";
  signature = 7 ∷ [];
  goos = "linux";
  goarch = "amd64";
}

abbrev machine : Machine setup
machine = record {
  disk = record {
    files = ("state.json", file (manifest old)) ∷ ("1", file (binary "one")) ∷ [];
    faults = [];
  };
  outside = tt;
}

fresh : IsFresh setup
fresh = record {
  no_candidate = differ refl;
  no_state = differ refl;
  no_current_temp = differ refl;
  no_previous_temp = differ refl;
}

first-IsUnused : IsUnused setup "2"
first-IsUnused = record {
  no_candidate = λ e. differ refl;
  no_state = λ e. differ refl;
  no_current_temp = λ e. differ refl;
  no_previous_temp = λ e. differ refl;
}

second-IsUnused : IsUnused setup "1"
second-IsUnused = record {
  no_candidate = λ e. differ refl;
  no_state = λ e. differ refl;
  no_current_temp = λ e. differ refl;
  no_previous_temp = λ e. differ refl;
}

saved : lookup "state.json" machine.disk.files ≡ some (file (manifest old))
unfolding lookup
saved = refl

apply-atomic_example :
    Outcome
      (λ a. Updated setup release old (lookup "1" machine.disk.files))
      (λ e w'.
        Unchanged setup old (lookup "1" machine.disk.files) w'
        ⊎ Updated setup release old (lookup "1" machine.disk.files) w')
      (apply setup release machine).0
      (apply setup release machine).1
apply-atomic_example =
    apply-atomic setup release old machine fresh first-IsUnused second-IsUnused refl saved

-- Nothing fails here, so the update succeeds.
applied : (apply setup release machine).0 ≡ ok tt
unfolding apply oikos.Common.Exec.◌>>=◌ oikos.Update.Slots.validate oikos.Update.Manager.download
    oikos.Update.Verify.verify_release oikos.Update.Slots.load_state oikos.Update.sys
    oikos.Common.Disk.call lookup oikos.Update.Verify.validate_version oikos.Update.Slots.callback
    oikos.Update.deferred oikos.Update.on_failure oikos.Update.Slots.save_state oikos.Common.delete
    oikos.Common.put oikos.Update.try oikos.Update.Slots.project_state oikos.Update.Manager.prepare
    oikos.Update.Slots.project_state_direct oikos.Update.Slots.replace_symlink
    oikos.Update.Slots.restore_state oikos.Update.Verify.bad_version
applied = refl

removed : contains (versions_to_remove ("1" ∷ "2" ∷ "3" ∷ "4" ∷ []) "4" "3" (pos 1)) "1" ≡ true
unfolding versions_to_remove sort_versions insert_version backwards protect protect_one unprotected
    limit_of contains
removed = refl

versions_to_remove-spares_example :
    (contains ("1" ∷ "2" ∷ "3" ∷ "4" ∷ []) "1" ≡ true)
    × (("4" =? "1") ≡ false)
    × (("3" =? "1") ≡ false)
versions_to_remove-spares_example =
    versions_to_remove-spares ("1" ∷ "2" ∷ "3" ∷ "4" ∷ []) "4" "3" "1" (pos 1) removed
