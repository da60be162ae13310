-- ===== src/Store/Servers/Triples.antt =====
-- What each statement on `servers` does to the lookups of the table, when no I/O error occurs.
use oikos.Common.{
  String, ap, sym, ◌∙◌, ◌≡◌, refl, not, ◌&&◌, ◌||◌, [], ◌∷◌, Option, none, some, arith, ◌=?◌,
  eq_iff, if◌then◌else◌, Bool-cases, inl, inr,
}
use oikos.Common.Exec.{Exec}
use oikos.Common.Keeps.{Keeps}
use oikos.Common.Triples.{Outcome, Triple}
use oikos.Store.{Server, Egg, Db, StoreError, statement, attempt}
use oikos.Store.Servers.{
  find_server, find_egg, is_some, ensure_egg, create_server, get_server, modify_server,
  delete_server, or_no_rows,
}
use oikos.Store.Servers.Laws.{
  map_option, find_server-append, find_server-update, find_server-remove,
}

abbrev pub View : Type 0
View = String → Option Server

-- No coming statement fails, and the lookups of the table are `f`.
pub record Shows (f : View) (db : Db) : Type 0 where
  pub calm : db.faults ≡ []
  pub rows : (j : String) → find_server j db.servers ≡ f j

abbrev pub set_row : String → Option Server → View → View
set_row id o f j = if id =? j then o else f j

-- The row that an INSERT makes of a server.
abbrev pub inserted : Server → Server
inserted s = record s { restart_count = 0; last_crash_at = none }

abbrev pub with_status : String → Server → Server
with_status status s = record s { status = status }

abbrev pub with_container : String → Server → Server
with_container container s = record s { container_id = container }

pub statement-calm :
    {A : Type 0} (body : Exec Db StoreError A) (db : Db)
    → db.faults ≡ []
    → statement body db ≡ body db
unfolding statement attempt
statement-calm body db h = ground (arith, h)

pub Shows-ext : {f g : View} {db : Db} → ((j : String) → f j ≡ g j) → Shows f db → Shows g db
Shows-ext e h = record { calm = h.calm; rows = λ j. h.rows j ∙ e j }

-- Statements that fail only by an I/O error do not fail here: the error case may promise anything.
module _ (f : View) (R : StoreError → Db → Type 0) where
  pub Shows-ensure_egg : (e : Egg) → Triple (Shows f) (λ a. Shows f) R (ensure_egg e)
  unfolding ensure_egg
  Shows-ensure_egg e = record {
    at = λ db h.
        rw (statement-calm _ db h.calm) (elim (Bool-cases (is_some (find_egg e.id db.eggs))) [
          | inl old ↦ rw old h
          | inr new ↦ rw new (record { calm = h.calm; rows = h.rows })
        ]);
  }

  pub Shows-modify_server :
      (id : String) (g : Server → Server)
      → ((s : Server) → (g s).id ≡ s.id)
      → Triple (Shows f) (λ a. Shows (set_row id (map_option g (f id)) f)) R (modify_server id g)
  unfolding modify_server
  Shows-modify_server id g keeps = record {
    at = λ db h. rw (statement-calm _ db h.calm) (record {
      calm = h.calm;
      rows = λ j. ground (
        arith,
        find_server-update id j g keeps db.servers,
        h.rows j,
        h.rows id,
        eq_iff id j,
        ap f {x = id} {y = j},
      );
    });
  }

  pub Shows-delete_server :
      (id : String) → Triple (Shows f) (λ a. Shows (set_row id none f)) R (delete_server id)
  unfolding delete_server
  Shows-delete_server id = record {
    at = λ db h. rw (statement-calm _ db h.calm) (record {
      calm = h.calm;
      rows = λ j. ground (arith, find_server-remove id j db.servers, h.rows j);
    });
  }

module _ (f : View) where
  pub Shows-create_server :
      (s : Server)
      → f s.id ≡ none
      → Triple
          (Shows f)
          (λ a. Shows (set_row s.id (some (inserted s)) f))
          (λ x. Shows f)
          (create_server s)
  unfolding create_server
  Shows-create_server s free = record {
    at = λ db h.
        rw (statement-calm _ db h.calm)
          (elim (Bool-cases (
            is_some (find_server s.id db.servers)
            || db.foreign_keys && not (is_some (find_egg s.egg_id db.eggs)))) [
              | inl refused ↦ rw refused h
              | inr allowed ↦ rw allowed (record {
                calm = h.calm;
                rows = λ j.
                    unfold find_server in
                    ground (
                      arith,
                      find_server-append s.id j db.servers (inserted s ∷ []),
                      h.rows j,
                      h.rows s.id,
                      free,
                      eq_iff s.id j,
                      ap f {x = s.id} {y = j},
                    );
              })
            ]);
  }

  pub Shows-get_server :
      (id : String)
      → Triple
          (Shows f)
          (λ s db. Shows f db × (f id ≡ some s))
          (λ x db. Shows f db × (f id ≡ none))
          (get_server id)
  unfolding get_server or_no_rows
  Shows-get_server id = record {
    at = λ db h. rw (statement-calm _ db h.calm) (found db h (find_server id db.servers) refl);
  }
    where
      found :
          (db : Db)
          → Shows f db
          → (o : Option Server) → find_server id db.servers ≡ o
          → Outcome
              (λ s db. Shows f db × (f id ≡ some s))
              (λ x db. Shows f db × (f id ≡ none))
              (or_no_rows o)
              db
      found db h none e = (h, sym (h.rows id) ∙ e)
      found db h (some s) e = (h, sym (h.rows id) ∙ e)

-- A statement keeps the lookups if what it does without an I/O error does.
module _ {A : Type 0} (f : View) where
  pub Shows-statement :
      (body : Exec Db StoreError A)
      → ((db : Db) → Shows f db → Shows f (body db).1)
      → Keeps (Shows f) (statement body)
  Shows-statement body h = record {
    at = λ db shows. rw (statement-calm body db shows.calm) (h db shows);
  }
