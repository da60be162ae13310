-- ===== src/Store/Plugins.antt =====
-- The statements of internal/store/sqlite.go on the table `plugins`. SQLite's json_valid is a
-- parameter.
pub mod RoundTrip
pub mod Refinement
use oikos.Common.{
  String, Bool, false, ◌&&◌, List, [], ◌∷◌, ◌++◌, Option, none, some, ◌=?◌, if◌then◌else◌,
}
use oikos.Common.Exec.{Result, ok, err, Exec, ◌>>◌}
use oikos.Common.Sort.{sort_by}
use oikos.Common.Int.{pos}
use oikos.Store.{Time, Plugin, Db, StoreError, no_rows, invalid, statement}
use oikos.Store.Events.{or_default}
use oikos.Store.Servers.{is_some}

unfoldable pub find_plugin : String → List Plugin → Option Plugin
find_plugin id [] = none
find_plugin id (p ∷ rows) = if p.id =? id then some p else find_plugin id rows

unfoldable pub replace_plugin : Plugin → List Plugin → List Plugin
replace_plugin p [] = []
replace_plugin p (q ∷ rows) = (if q.id =? p.id then p else q) ∷ replace_plugin p rows

-- What time.Parse reads back of UTC().Format(time.RFC3339): the whole second, in UTC.
abbrev pub in_seconds : Time → Time
in_seconds t = record { seconds = t.seconds; nanoseconds = 0; zone = pos 0 }

-- The row of a plugin; the column of a time stands for what it parses to.
abbrev pub row_of : Plugin → Plugin
row_of p = record p {
  subscribed_events = or_default "[]" p.subscribed_events;
  allowed_routes = or_default "[]" p.allowed_routes;
  installed_at = in_seconds p.installed_at;
}

-- INSERT … ON CONFLICT(id) DO UPDATE of every other column
unfoldable pub upsert_plugin : Plugin → Exec Db StoreError Unit
upsert_plugin p = statement λ db. (
  ok tt,
  record db {
    plugins =
        if is_some (find_plugin p.id db.plugins)
        then replace_plugin p db.plugins
        else db.plugins ++ p ∷ [];
  },
)

module _ (json_valid : String → Bool) where
  unfoldable pub check_json : String → Exec Db StoreError Unit
  check_json text = statement λ db. if json_valid text then (ok tt, db) else (err invalid, db)

  unfoldable pub save_plugin : Plugin → Exec Db StoreError Unit
  save_plugin p = do
    check_json (or_default "[]" p.subscribed_events)
    check_json (or_default "[]" p.allowed_routes)
    upsert_plugin (row_of p)

unfoldable pub or_no_rows : Option Plugin → Result StoreError Plugin
or_no_rows none = err no_rows
or_no_rows (some p) = ok p

unfoldable pub get_plugin : String → Exec Db StoreError Plugin
unfolding or_no_rows
get_plugin id = statement λ db. (or_no_rows (find_plugin id db.plugins), db)

-- ORDER BY id
unfoldable pub list_plugins : Exec Db StoreError (List Plugin)
list_plugins = statement λ db. (ok (sort_by (λ p. p.id) db.plugins), db)

unfoldable pub set_enabled : String → Bool → List Plugin → List Plugin
set_enabled id enabled [] = []
set_enabled id enabled (p ∷ rows) =
    (if p.id =? id then record p { enabled = enabled } else p) ∷ set_enabled id enabled rows

unfoldable pub set_plugin_enabled : String → Bool → Exec Db StoreError Unit
set_plugin_enabled id enabled =
    statement λ db. (ok tt, record db { plugins = set_enabled id enabled db.plugins })
