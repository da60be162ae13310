-- ===== src/Store/Plugins/RoundTrip.antt =====
-- What is read back after a plugin is saved.
use oikos.Common.{
  String, Bool, true, false, ◌≡◌, refl, List, [], ◌∷◌, ◌++◌, Option, some, arith, ◌=?◌, eq_iff,
  if◌then◌else◌, Bool-cases, inl, inr,
}
use oikos.Common.Exec.{ok, ◌>>=◌}
use oikos.Store.{Plugin, Db}
use oikos.Store.Events.{or_default}
use oikos.Store.Servers.{is_some}
use oikos.Store.Servers.Triples.{statement-calm}
use oikos.Store.Plugins.{
  find_plugin, replace_plugin, row_of, upsert_plugin, check_json, save_plugin, get_plugin,
  or_no_rows,
}

module _ (j : String) (p : Plugin) where
  find_plugin-append :
      (rows : List Plugin)
      → is_some (find_plugin p.id rows) ≡ false
      → find_plugin j (rows ++ p ∷ []) ≡ (if p.id =? j then some p else find_plugin j rows)
  unfolding find_plugin
  find_plugin-append [] h = ground arith
  find_plugin-append (q ∷ rows) h =
      ground (arith, h, find_plugin-append rows, eq_iff p.id j, eq_iff q.id j, eq_iff q.id p.id)

  find_plugin-absent :
      (rows : List Plugin)
      → (p.id =? j) ≡ false
      → find_plugin j (replace_plugin p rows) ≡ find_plugin j rows
  unfolding find_plugin replace_plugin
  find_plugin-absent [] h = refl
  find_plugin-absent (q ∷ rows) h =
      ground (arith, h, find_plugin-absent rows, eq_iff p.id j, eq_iff q.id j, eq_iff q.id p.id)

  find_plugin-replace :
      (rows : List Plugin)
      → is_some (find_plugin p.id rows) ≡ true
      → find_plugin j (replace_plugin p rows) ≡ (if p.id =? j then some p else find_plugin j rows)
  unfolding find_plugin replace_plugin
  find_plugin-replace [] h = ground (arith, h)
  find_plugin-replace (q ∷ rows) h = ground (
    arith,
    h,
    find_plugin-replace rows,
    find_plugin-absent rows,
    eq_iff p.id j,
    eq_iff q.id j,
    eq_iff q.id p.id,
  )

  pub find_plugin-upsert :
      (db : Db)
      → db.faults ≡ []
      → find_plugin j (upsert_plugin p db).1.plugins
        ≡ (if p.id =? j then some p else find_plugin j db.plugins)
  unfolding upsert_plugin
  find_plugin-upsert db calm =
      rw (statement-calm _ db calm) (elim (Bool-cases (is_some (find_plugin p.id db.plugins))) [
        | inl old ↦ rw old (find_plugin-replace db.plugins old)
        | inr new ↦ rw new (find_plugin-append db.plugins new)
      ])

pub check_json-valid :
    (json_valid : String → Bool) (text : String) (db : Db)
    → db.faults ≡ []
    → json_valid text ≡ true
    → check_json json_valid text db ≡ (ok tt, db)
unfolding check_json
check_json-valid json_valid text db calm h = rw (statement-calm _ db calm) (rw h refl)

pub upsert-done : (p : Plugin) (db : Db) → db.faults ≡ [] → (upsert_plugin p db).0 ≡ ok tt
unfolding upsert_plugin
upsert-done p db calm = rw (statement-calm _ db calm) refl

pub upsert-calm : (p : Plugin) (db : Db) → db.faults ≡ [] → (upsert_plugin p db).1.faults ≡ []
unfolding upsert_plugin
upsert-calm p db calm = rw (statement-calm _ db calm) calm

pub get_plugin-calm :
    (j : String) (db : Db)
    → db.faults ≡ []
    → get_plugin j db ≡ (or_no_rows (find_plugin j db.plugins), db)
unfolding get_plugin
get_plugin-calm j db calm = statement-calm _ db calm

or_no_rows-if :
    (b : Bool) (p : Plugin) (o : Option Plugin)
    → or_no_rows (if b then some p else o) ≡ (if b then ok p else or_no_rows o)
unfolding or_no_rows
or_no_rows-if true p o = refl
or_no_rows-if false p o = refl

module _ (json_valid : String → Bool) (p : Plugin) (db : Db) where
  pub save_plugin-valid :
      db.faults ≡ []
      → json_valid (or_default "[]" p.subscribed_events) ≡ true
      → json_valid (or_default "[]" p.allowed_routes) ≡ true
      → save_plugin json_valid p db ≡ upsert_plugin (row_of p) db
  unfolding save_plugin ◌>>=◌
  save_plugin-valid calm events routes =
      rw (check_json-valid json_valid _ db calm events)
        (rw (check_json-valid json_valid _ db calm routes) refl)

  -- If no statement fails and the two lists, "[]" where they are empty, are JSON, then SavePlugin
  -- and a GetPlugin after it return the saved plugin for its id, with these lists and with the time
  -- of its installation cut to whole seconds in UTC, whether the id was taken or not, and for every
  -- other id what GetPlugin returned before.
  pub save_plugin-get_plugin :
      db.faults ≡ []
      → json_valid (or_default "[]" p.subscribed_events) ≡ true
      → json_valid (or_default "[]" p.allowed_routes) ≡ true
      → (j : String)
      → ((save_plugin json_valid p >>= λ done. get_plugin j) db).0
        ≡ (if p.id =? j then ok (row_of p) else (get_plugin j db).0)
  unfolding ◌>>=◌
  save_plugin-get_plugin calm events routes j = rw (save_plugin-valid calm events routes) (
      rw (upsert-done (row_of p) db calm) (
        rw (get_plugin-calm j (upsert_plugin (row_of p) db).1 (upsert-calm (row_of p) db calm)) (
          rw (find_plugin-upsert j (row_of p) db calm)
            (rw (get_plugin-calm j db calm) (or_no_rows-if _ _ _)))))
