-- ===== src/Update/Manager.antt =====
-- internal/update/manager.go: download, verify and install a release, and go back to the previous
-- one.
pub mod Committed
pub mod Atomic
use oikos.Common.{ℕ, String, Bool, ◌||◌, Option, none, some, ltb, leb, not, ◌=?◌, if◌then◌else◌}
use oikos.Common.Exec.{Result, ok, err, Exec, pure, raise, wrap, ◌>>=◌, ◌>>◌}
use oikos.Common.Disk.{Disk, write_file, rename_file, remove_file}
use oikos.Update.{
  Setup, Release, SlotState, UpdateError, already_slot, previous_unavailable, download_error, file,
  Machine, Step, sys, try, deferred, on_failure,
}
use oikos.Update.Verify.{verify_release}
use oikos.Update.Slots.{
  answer, validate, load_state, save_state, project_state, restore_state, callback,
}

module _ (u : Setup) where
  body_of : ℕ × Result String u.Bytes → Result UpdateError u.Bytes
  body_of (status, body) =
      if ltb status 200 || leb 300 status
      then err (download_error "HTTP status")
      else wrap download_error body

  response_of : Result String (ℕ × Result String u.Bytes) → Result UpdateError u.Bytes
  unfolding body_of
  response_of (ok response) = body_of response
  response_of (err e) = err (download_error e)

  unfoldable pub download : String → Step u u.Bytes
  unfolding response_of
  download url w = let (r, o) = u.get url w.outside in (response_of r, record w { outside = o })

  unfoldable pub check : Release → Step u Unit
  check r = do body ← download r.binary_url; answer u (verify_release u r body)

  check_health : String → Option (String → Exec u.Outside String Unit) → Step u Unit
  check_health path none = pure tt
  check_health path (some run) = callback u (some (run path))

  -- What follows a projection, or a health check, of the new state: `old` is restored if it failed.
  or_restore : SlotState → Result UpdateError Unit → Step u Unit
  or_restore old (ok done) = pure tt
  or_restore old (err e) = restore_state u old e

  -- The manifest is saved: the rest of Apply.
  settle : SlotState → SlotState → Step u Unit
  unfolding check_health or_restore
  settle old new = do
    result ← try u (do project_state u new; check_health "current" u.health)
    or_restore old result

  -- Up to the line `committed = true`.
  commit : String → SlotState → Step u Unit
  unfolding check_health
  commit version new = do check_health version u.health; save_state u new

  -- The candidate is written, moved to its slot, tried and committed.
  install : String → u.Bytes → SlotState → Step u Unit
  unfolding settle commit
  install version body old = do
    sys u (write_file u.candidate_temp (file body))
    sys u (λ d. d)  -- Close
    sys u (λ d. d)  -- Chmod
    sys u (remove_file version)  -- RemoveAll
    sys u (rename_file u.candidate_temp version)
    on_failure u (sys u (remove_file version))
        (commit version (record { current = version; previous = old.current }))
    settle old (record { current = version; previous = old.current })

  unfoldable pub prepare : String → u.Bytes → SlotState → Step u Unit
  unfolding install
  prepare version body old = do
    callback u u.backup
    sys u (λ d. d)  -- MkdirAll
    sys u (write_file u.candidate_temp (file u.blank))  -- CreateTemp
    deferred u (sys u (remove_file u.candidate_temp)) (install version body old)

  -- An update to a slot that is in use would overwrite it.
  switch : String → u.Bytes → SlotState → Step u Unit
  unfolding prepare
  switch version body old = do
    if version =? old.current || version =? old.previous then raise already_slot else pure tt
    prepare version body old

  unfoldable pub apply : Release → Step u Unit
  unfolding switch
  apply r = do
    validate u
    body ← download r.binary_url
    answer u (verify_release u r body)
    old ← load_state u
    switch r.version body old

  swap : SlotState → Step u Unit
  unfolding or_restore
  swap old = do
    save_state u (record { current = old.previous; previous = old.current })
    result ← try u (project_state u (record { current = old.previous; previous = old.current }))
    or_restore old result

  unfoldable pub rollback : Step u Unit
  unfolding swap
  rollback = do
    validate u
    old ← load_state u
    if old.previous =? "" then raise previous_unavailable else swap old
