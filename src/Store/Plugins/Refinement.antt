-- ===== src/Store/Plugins/Refinement.antt =====
-- The table of plugins as a partial map from ids: what the statements answer, one after the other.
use oikos.Common.{
  String, Bool, true, false, ap, ◌∙◌, ◌≡◌, refl, ◌&&◌, List, [], ◌∷◌, Option, none, some, arith,
  ◌=?◌, eq_iff, if◌then◌else◌, Bool-cases, &&-eq_true, inl, inr,
}
use oikos.Common.Exec.{Result, ok, err, Exec, pure, continue, ◌>>=◌, ◌>>◌}
use oikos.Store.{Plugin, Db, StoreError, no_rows, invalid}
use oikos.Store.Events.{or_default}
use oikos.Store.Servers.Triples.{statement-calm}
use oikos.Store.Plugins.{
  find_plugin, set_enabled, row_of, upsert_plugin, check_json, save_plugin, get_plugin,
  set_plugin_enabled, or_no_rows,
}
use oikos.Store.Plugins.RoundTrip.{
  find_plugin-upsert, check_json-valid, upsert-done, upsert-calm, get_plugin-calm,
  save_plugin-valid,
}

pub data PluginOp : Type 0 where
  save : Plugin → PluginOp
  enable : String → Bool → PluginOp
  get : String → PluginOp

-- The answer to an operation: a row for `get`, nothing for the others, or the error.
abbrev pub Answer : Type 0
Answer = Result StoreError (Option Plugin)

abbrev pub PluginMap : Type 0
PluginMap = String → Option Plugin

abbrev with_flag : Bool → Option Plugin → Option Plugin
with_flag flag none = none
with_flag flag (some p) = some (record p { enabled = flag })

module _ (json_valid : String → Bool) where
  abbrev perform : PluginOp → Exec Db StoreError (Option Plugin)
  perform (save p) = do save_plugin json_valid p; pure none
  perform (enable id flag) = do set_plugin_enabled id flag; pure none
  perform (get id) = do p ← get_plugin id; pure (some p)

  abbrev both_valid : Plugin → Bool
  both_valid p =
      json_valid (or_default "[]" p.subscribed_events)
      && json_valid (or_default "[]" p.allowed_routes)

  abbrev row_or_error : Option Plugin → Answer
  row_or_error none = err no_rows
  row_or_error (some p) = ok (some p)

  -- The operations on the map.
  abbrev pub meant : PluginOp → PluginMap → Answer × PluginMap
  meant (save p) m =
      if both_valid p
      then (ok none, λ j. if p.id =? j then some (row_of p) else m j)
      else (err invalid, m)
  meant (enable id flag) m = (ok none, λ j. if id =? j then with_flag flag (m j) else m j)
  meant (get id) m = (row_or_error (m id), m)

  unfoldable pub answers : List PluginOp → Db → List Answer
  answers [] db = []
  answers (op ∷ ops) db = (perform op db).0 ∷ answers ops (perform op db).1

  unfoldable pub meanings : List PluginOp → PluginMap → List Answer
  meanings [] m = []
  meanings (op ∷ ops) m = (meant op m).0 ∷ meanings ops (meant op m).1

  -- The rows are those of the map, and no statement fails.
  abbrev Represents : Db → PluginMap → Type 0
  Represents db m = (db.faults ≡ []) × ((j : String) → find_plugin j db.plugins ≡ m j)

  find_plugin-enabled :
      (id j : String) (flag : Bool) (rows : List Plugin)
      → find_plugin j (set_enabled id flag rows)
        ≡ (if id =? j then with_flag flag (find_plugin j rows) else find_plugin j rows)
  unfolding find_plugin set_enabled
  find_plugin-enabled id j flag [] = ground arith
  find_plugin-enabled id j flag (p ∷ rows) =
      ground (arith, find_plugin-enabled id j flag rows, eq_iff p.id id, eq_iff p.id j, eq_iff id j)

  answered :
      (o : Option Plugin) (db : Db)
      → continue (or_no_rows o) (λ p. pure (some p)) db ≡ (row_or_error o, db)
  unfolding or_no_rows
  answered none db = refl
  answered (some p) db = refl

  perform-get :
      (id : String) (db : Db)
      → db.faults ≡ []
      → perform (get id) db ≡ (row_or_error (find_plugin id db.plugins), db)
  unfolding ◌>>=◌
  perform-get id db calm = rw (get_plugin-calm id db calm) (answered (find_plugin id db.plugins) db)

  perform-enable :
      (id : String) (flag : Bool) (db : Db)
      → db.faults ≡ []
      → perform (enable id flag) db
        ≡ (ok none, record db { plugins = set_enabled id flag db.plugins })
  unfolding ◌>>=◌ set_plugin_enabled
  perform-enable id flag db calm = rw (statement-calm _ db calm) refl

  perform-save :
      (p : Plugin) (db : Db)
      → db.faults ≡ []
      → both_valid p ≡ true
      → perform (save p) db ≡ (ok none, (upsert_plugin (row_of p) db).1)
  unfolding ◌>>=◌
  perform-save p db calm valid =
      let v = &&-eq_true _ _ valid in
      rw (save_plugin-valid json_valid p db calm v.0 v.1) (rw (upsert-done (row_of p) db calm) refl)

  refused :
      (text : String) (db : Db)
      → db.faults ≡ []
      → json_valid text ≡ false
      → check_json json_valid text db ≡ (err invalid, db)
  unfolding check_json
  refused text db calm h = rw (statement-calm _ db calm) (rw h refl)

  perform-refused :
      (p : Plugin) (db : Db)
      → db.faults ≡ []
      → both_valid p ≡ false
      → perform (save p) db ≡ (err invalid, db)
  unfolding ◌>>=◌ save_plugin
  perform-refused p db calm bad =
      elim (Bool-cases (json_valid (or_default "[]" p.subscribed_events))) [
        | inr first ↦ rw (refused _ db calm first) refl
        | inl first ↦ rw (check_json-valid json_valid _ db calm first) (
            rw (refused (or_default "[]" p.allowed_routes) db calm (ground (arith, bad, first)))
              refl)
      ]

  -- One operation gives the answer of the map, and leaves what represents the next map.
  abbrev Steps : (r : Answer × Db) (m : Answer × PluginMap) → Type 0
  Steps r m = (r.0 ≡ m.0) × Represents r.1 m.1

  perform-Steps :
      (op : PluginOp) (db : Db) (m : PluginMap)
      → Represents db m
      → Steps (perform op db) (meant op m)
  perform-Steps (save p) db m h = elim (Bool-cases (both_valid p)) [
    | inl valid ↦ rw (perform-save p db h.0 valid) (
        rw valid (
          refl,
          (
            upsert-calm (row_of p) db h.0,
            λ j.
                find_plugin-upsert j (row_of p) db h.0
                ∙ ap (λ o. if p.id =? j then some (row_of p) else o) (h.1 j),
          ),
        ))
    | inr bad ↦ rw (perform-refused p db h.0 bad) (rw bad (refl, h))
  ]
  perform-Steps (enable id flag) db m h = rw (perform-enable id flag db h.0) (
    refl,
    (
      h.0,
      λ j.
          find_plugin-enabled id j flag db.plugins
          ∙ ap (λ o. if id =? j then with_flag flag o else o) (h.1 j),
    ),
  )
  perform-Steps (get id) db m h = rw (perform-get id db h.0) (ap row_or_error (h.1 id), h)

  answers-Represents :
      (ops : List PluginOp) (db : Db) (m : PluginMap)
      → Represents db m
      → answers ops db ≡ meanings ops m
  unfolding answers meanings
  answers-Represents [] db m h = refl
  answers-Represents (op ∷ ops) db m h =
      let step = perform-Steps op db m h in
      ap (λ a. a ∷ answers ops (perform op db).1) step.0
      ∙ ap (λ r. (meant op m).0 ∷ r)
          (answers-Represents ops (perform op db).1 (meant op m).1 step.1)

  -- If no statement fails, the answers to any sequence of SavePlugin, SetPluginEnabled and
  -- GetPlugin are those of a partial map from ids that holds what the table holds before: a save
  -- puts the plugin at its id, with "[]" for an empty list and its time cut to whole seconds in
  -- UTC; one with lists that are no JSON is refused and changes nothing; and a flag is set where
  -- the id is there.
  pub answers-meanings :
      (ops : List PluginOp) (db : Db)
      → db.faults ≡ []
      → answers ops db ≡ meanings ops (λ id. find_plugin id db.plugins)
  answers-meanings ops db calm = answers-Represents ops db _ (calm, λ j. refl)
