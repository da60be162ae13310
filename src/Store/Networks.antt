-- ===== src/Store/Networks.antt =====
-- The statements of internal/store/sqlite.go on the tables `network_groups` and
-- `network_group_members`.
pub mod Replace
use oikos.Common.{String, Bool, false, not, ◌&&◌, ◌||◌, List, [], ◌∷◌, ◌++◌, ◌=?◌, if◌then◌else◌}
use oikos.Common.Exec.{ok, err, Exec, pure, ◌>>◌}
use oikos.Common.Sort.{sort_by}
use oikos.Store.{NetworkGroup, NetworkGroupMember, Db, StoreError, constraint, statement}
use oikos.Store.Nodes.{has_node}
use oikos.Store.Transactions.{transaction}

unfoldable pub has_group : String → List NetworkGroup → Bool
has_group id [] = false
has_group id (g ∷ rows) = g.id =? id || has_group id rows

unfoldable pub rename_group : NetworkGroup → List NetworkGroup → List NetworkGroup
rename_group g [] = []
rename_group g (h ∷ rows) = (if h.id =? g.id then g else h) ∷ rename_group g rows

-- INSERT … ON CONFLICT(id) DO UPDATE SET name
unfoldable pub save_network_group : NetworkGroup → Exec Db StoreError Unit
save_network_group g = statement λ db. (
  ok tt,
  record db {
    groups = if has_group g.id db.groups then rename_group g db.groups else db.groups ++ g ∷ [];
  },
)

-- WHERE group_id=?
unfoldable pub members_of : String → List NetworkGroupMember → List NetworkGroupMember
members_of group [] = []
members_of group (m ∷ rows) =
    let rest = members_of group rows in if m.group_id =? group then m ∷ rest else rest

unfoldable pub members_but : String → List NetworkGroupMember → List NetworkGroupMember
members_but group [] = []
members_but group (m ∷ rows) =
    let rest = members_but group rows in if m.group_id =? group then rest else m ∷ rest

-- The primary key (group_id, node_id), or UNIQUE(group_id, private_ip), is taken.
unfoldable pub is_taken : NetworkGroupMember → List NetworkGroupMember → Bool
is_taken m [] = false
is_taken m (n ∷ rows) =
    n.group_id =? m.group_id && (n.node_id =? m.node_id || n.private_ip =? m.private_ip)
    || is_taken m rows

unfoldable pub insert_member : NetworkGroupMember → Exec Db StoreError Unit
insert_member m = statement λ db.
    if is_taken m db.members
      || db.foreign_keys && not (has_group m.group_id db.groups && has_node m.node_id db.nodes)
    then (err constraint, db)
    else (ok tt, record db { members = db.members ++ m ∷ [] })

unfoldable pub delete_members : String → Exec Db StoreError Unit
delete_members group = statement λ db. (ok tt, record db { members = members_but group db.members })

-- A member is stored under the group of the call, whatever its own field says.
unfoldable pub insert_members : String → List NetworkGroupMember → Exec Db StoreError Unit
insert_members group [] = pure tt
insert_members group (m ∷ ms) = do
  insert_member (record m { group_id = group })
  insert_members group ms

unfoldable pub replace_network_group_members :
    String → List NetworkGroupMember → Exec Db StoreError Unit
replace_network_group_members group ms =
    transaction (delete_members group >> insert_members group ms)

-- ORDER BY node_id
unfoldable pub list_network_group_members : String → Exec Db StoreError (List NetworkGroupMember)
list_network_group_members group =
    statement λ db. (ok (sort_by (λ m. m.node_id) (members_of group db.members)), db)

unfoldable pub members_without : String → String → List NetworkGroupMember → List NetworkGroupMember
members_without group node [] = []
members_without group node (m ∷ rows) =
    let rest = members_without group node rows in
    if m.group_id =? group && m.node_id =? node then rest else m ∷ rest

unfoldable pub delete_network_group_member : String → String → Exec Db StoreError Unit
delete_network_group_member group node =
    statement λ db. (ok tt, record db { members = members_without group node db.members })
