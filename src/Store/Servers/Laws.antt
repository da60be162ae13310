-- ===== src/Store/Servers/Laws.antt =====
-- Lookups after each change of the table `servers`, and its primary key.
use oikos.Common.{
  String, ◌≡◌, refl, List, [], ◌∷◌, ◌++◌, Option, none, some, arith, ◌=?◌, eq_iff, if◌then◌else◌,
}
use oikos.Store.{Server}
use oikos.Store.Servers.{find_server, update_server, remove_server}

abbrev pub or_else {ℓ} : {A : Type ℓ} → Option A → Option A → Option A
or_else none o = o
or_else (some a) o = some a

abbrev pub map_option {ℓ} : {A : Type ℓ} → (A → A) → Option A → Option A
map_option f none = none
map_option f (some a) = some (f a)

module _ (id j : String) where
  pub find_server-append :
      (xs ys : List Server)
      → find_server j (xs ++ ys) ≡ or_else (find_server j xs) (find_server j ys)
  unfolding find_server
  find_server-append [] ys = refl
  find_server-append (s ∷ xs) ys = ground (arith, find_server-append xs ys)

  pub find_server-update :
      (f : Server → Server)
      → ((s : Server) → (f s).id ≡ s.id)
      → (rows : List Server)
      → find_server j (update_server id f rows)
        ≡ (if id =? j then map_option f (find_server j rows) else find_server j rows)
  unfolding find_server update_server
  find_server-update f keeps [] = ground arith
  find_server-update f keeps (s ∷ rows) =
      ground (
        arith,
        keeps s,
        find_server-update f keeps rows,
        eq_iff s.id id,
        eq_iff s.id j,
        eq_iff id j,
      )

  pub find_server-remove :
      (rows : List Server)
      → find_server j (remove_server id rows) ≡ (if id =? j then none else find_server j rows)
  unfolding find_server remove_server
  find_server-remove [] = ground arith
  find_server-remove (s ∷ rows) =
      ground (arith, find_server-remove rows, eq_iff s.id id, eq_iff s.id j, eq_iff id j)

pub id-find_server :
    (j : String) (rows : List Server) {s : Server} → find_server j rows ≡ some s → s.id ≡ j
unfolding find_server
id-find_server j [] h = cc
id-find_server j (r ∷ rows) {s} h = ground (arith, id-find_server j rows {s = s}, eq_iff r.id j)
