-- ===== src/Store/Nodes.antt =====
-- The statements of internal/store/sqlite.go on the table `nodes`.
use oikos.Common.{String, Bool, false, ◌||◌, List, [], ◌∷◌, ◌++◌, ◌=?◌, if◌then◌else◌}
use oikos.Common.Exec.{Result, ok, err, Exec}
use oikos.Store.{Node, NetworkGroupMember, Db, StoreError, no_rows, statement}

unfoldable pub has_node : String → List Node → Bool
has_node id [] = false
has_node id (n ∷ rows) = n.id =? id || has_node id rows

unfoldable pub nodes_but : String → List Node → List Node
nodes_but id [] = []
nodes_but id (n ∷ rows) = let rest = nodes_but id rows in if n.id =? id then rest else n ∷ rest

-- The memberships of a node.
unfoldable pub memberships_but : String → List NetworkGroupMember → List NetworkGroupMember
memberships_but id [] = []
memberships_but id (m ∷ rows) =
    let rest = memberships_but id rows in if m.node_id =? id then rest else m ∷ rest

-- INSERT OR REPLACE deletes the row that has the key, ON DELETE CASCADE included, and appends the
-- new one.
unfoldable pub save_node : Node → Exec Db StoreError Unit
save_node n = statement λ db. (
  ok tt,
  record db {
    nodes = nodes_but n.id db.nodes ++ n ∷ [];
    members = if db.foreign_keys then memberships_but n.id db.members else db.members;
  },
)

first_node : List Node → Result StoreError Node
first_node [] = err no_rows
first_node (n ∷ rows) = ok n

-- SELECT … FROM nodes LIMIT 1
unfoldable pub get_node : Exec Db StoreError Node
unfolding first_node
get_node = statement λ db. (first_node db.nodes, db)
