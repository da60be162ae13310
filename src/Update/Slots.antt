-- ===== src/Update/Slots.antt =====
-- internal/update/slots.go: the manifest state.json, which names the current and the previous slot,
-- and the symbolic links that are projected from it.
pub mod Views
pub mod Saved
pub mod Loaded
use oikos.Common.{String, Bool, true, false, Option, none, some, ◌=?◌, if◌then◌else◌}
use oikos.Common.Exec.{Result, ok, err, Exec, pure, raise, wrap, ◌>>=◌, ◌>>◌}
use oikos.Common.Disk.{Disk, content, write_file, rename_file, remove_file}
use oikos.Update.{
  Setup, SlotState, UpdateError, root_required, invalid_version, decode_error, file_error,
  callback_error, restore_error, Entry, file, link, Machine, Step, sys, try, deferred,
}
use oikos.Update.Verify.{validate_version}

module _ (u : Setup) where
  unfoldable pub validate : Step u Unit
  validate = if u.root =? "" then raise root_required else pure tt

  -- A result that no state is touched for.
  abbrev pub answer : {A : Type 0} → Result UpdateError A → Step u A
  answer r w = (r, w)

  -- What the name holds, after a system call that reads it.
  abbrev pub read : String → Step u (Option (Entry u.Bytes))
  read name = do sys u (λ d. d); (λ w. (ok (content w.disk name), w))

  check_previous : SlotState → Step u SlotState
  check_previous s =
      if s.previous =? "" then pure s else (do answer (validate_version u s.previous); pure s)

  decoded : Option SlotState → Step u SlotState
  unfolding check_previous
  decoded none = raise decode_error
  decoded (some s) = do answer (validate_version u s.current); check_previous s

  current_of : Option (Entry u.Bytes) → Step u String
  current_of (some (link target)) = pure target
  current_of _ = raise file_error

  -- `previous, _ := os.Readlink(…)`
  previous_of : Result UpdateError (Option (Entry u.Bytes)) → String
  previous_of (ok (some (link target))) = target
  previous_of _ = ""

  -- Without a manifest the links are read.
  from_links : Step u SlotState
  unfolding current_of previous_of check_previous
  from_links = do
    entry ← read "current"
    current ← current_of entry
    answer (validate_version u current)
    old ← try u (read "previous")
    check_previous (record { current = current; previous = previous_of old })

  from_manifest : Option (Entry u.Bytes) → Step u SlotState
  unfolding decoded from_links
  from_manifest none = from_links
  from_manifest (some (file bytes)) = decoded (u.decode bytes)
  from_manifest (some (link target)) = raise file_error

  unfoldable pub load_state : Step u SlotState
  unfolding from_manifest
  load_state = do entry ← read "state.json"; from_manifest entry

  fill_state : SlotState → Step u Unit
  fill_state s = do
    sys u (λ d. d)  -- Chmod
    sys u (write_file u.state_temp (file (u.encode s)))
    sys u (λ d. d)  -- Close
    sys u (rename_file u.state_temp "state.json")

  unfoldable pub save_state : SlotState → Step u Unit
  unfolding fill_state
  save_state s = do
    sys u (write_file u.state_temp (file u.blank))  -- CreateTemp
    deferred u (sys u (remove_file u.state_temp)) (fill_state s)

  or_remove : String → Result UpdateError Unit → Step u Unit
  or_remove temp (ok done) = pure tt
  or_remove temp (err e) = do try u (sys u (remove_file temp)); raise e

  -- `temp` is the name that os.CreateTemp chooses.
  unfoldable pub replace_symlink : String → String → String → Step u Unit
  unfolding or_remove
  replace_symlink temp name target = do
    sys u (write_file temp (file u.blank))
    closed ← try u (sys u (λ d. d))
    or_remove temp closed
    sys u (remove_file temp)
    sys u (write_file temp (link target))
    renamed ← try u (sys u (rename_file temp name))
    or_remove temp renamed

  drop_previous : Step u Unit
  drop_previous = do try u (sys u (remove_file "previous")); pure tt

  unfoldable pub project_state_direct : SlotState → Step u Unit
  unfolding drop_previous
  project_state_direct s = do
    replace_symlink u.current_temp "current" s.current
    if s.previous =? ""
        then drop_previous
        else replace_symlink u.previous_temp "previous" s.previous

  -- A callback that is not there is not called.
  unfoldable pub callback : Option (Exec u.Outside String Unit) → Step u Unit
  callback none w = (ok tt, w)
  callback (some f) w =
      let (r, o) = f w.outside in (wrap callback_error r, record w { outside = o })

  unfoldable pub project_state : SlotState → Step u Unit
  project_state s = do callback u.project; project_state_direct s

  restored : UpdateError → Result UpdateError Unit → Step u Unit
  restored cause (ok done) = raise cause
  restored cause (err e) = raise (restore_error cause e)

  unfoldable pub restore_state : SlotState → UpdateError → Step u Unit
  unfolding restored
  restore_state s cause = do again ← try u (do save_state s; project_state s); restored cause again
