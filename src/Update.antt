-- ===== src/Update.antt =====
-- internal/update: what an update of the daemon's binary works on. The slots stand in one directory,
-- the root; a name here is a name in that directory, the source's `filepath.Join(c.Root, name)`.
pub mod Verify
pub mod Slots
pub mod Manager
pub mod Retention
pub mod Handoff
use oikos.Common.{ℕ, String, Bool, Option, none, some, List}
use oikos.Common.Exec.{Result, ok, err, Exec}
use oikos.Common.Disk.{Disk, call}

pub record Release : Type 0 where
  pub version : String
  pub binary_url : String
  pub sha256 : String
  pub signature : List ℕ
  pub goos : String
  pub goarch : String

pub record SlotState : Type 0 where
  pub current : String
  pub previous : String

pub data UpdateError : Type 0 where
  root_required invalid_version url_required invalid_digest checksum_mismatch : UpdateError
  verifier_required signature_required already_slot previous_unavailable decode_error file_error :
      UpdateError
  signature_error : String → UpdateError
  download_error : String → UpdateError
  callback_error : String → UpdateError
  restore_error : UpdateError → UpdateError → UpdateError  -- the cause, and why it was not undone

-- A directory entry: a file, or a symbolic link and its target.
pub data Entry (Bytes : Type 0) : Type 0 where
  file : Bytes → Entry Bytes
  link : String → Entry Bytes

-- What a manager is made of, the library functions that it calls (filepath, regexp, sha256, json,
-- net/http), and the names that os.CreateTemp chooses. The callbacks and the network have a state of
-- their own.
pub record Setup : Type 1 where
  pub Bytes : Type 0
  pub blank : Bytes
  pub root : String
  pub base : String → String
  pub is_abs : String → Bool
  pub is_digest : String → Bool
  pub sha256_hex : Bytes → String
  pub encode : SlotState → Bytes
  pub decode : Bytes → Option SlotState
  pub Outside : Type 0
  pub get : String → Exec Outside String (ℕ × Result String Bytes)
  pub verify : Option (Release → Bytes → Result String Unit)
  pub backup : Option (Exec Outside String Unit)
  pub project : Option (Exec Outside String Unit)
  pub health : Option (String → Exec Outside String Unit)
  pub candidate_temp : String
  pub state_temp : String
  pub current_temp : String
  pub previous_temp : String

module _ (u : Setup) where
  pub record Machine : Type 0 where
    pub disk : Disk (Entry u.Bytes)
    pub outside : u.Outside

  abbrev pub Step : Type 0 → Type 0
  Step A = Exec Machine UpdateError A

  -- One system call with the effect `effect`.
  unfoldable pub sys : (Disk (Entry u.Bytes) → Disk (Entry u.Bytes)) → Step Unit
  sys effect w = let (r, d) = call file_error effect w.disk in (r, record w { disk = d })

  -- A call whose error is looked at by the code that follows.
  unfoldable pub try : {A : Type 0} → Step A → Step (Result UpdateError A)
  try m w = let (r, w') = m w in (ok r, w')

  -- A deferred call: run last, its error ignored.
  unfoldable pub deferred : {A : Type 0} → Step Unit → Step A → Step A
  deferred last m w = let (r, w') = m w in let (_, w'') = last w' in (r, w'')

  after_failure : {A : Type 0} → Step Unit → Result UpdateError A → Step A
  after_failure last (ok a) w = (ok a, w)
  after_failure last (err e) w = let (_, w') = last w in (err e, w')

  -- A deferred call that is made only if the step fails.
  unfoldable pub on_failure : {A : Type 0} → Step Unit → Step A → Step A
  unfolding after_failure
  on_failure last m w = let (r, w') = m w in after_failure last r w'
