-- ===== src/Tunnel/Mesh.antt =====
-- internal/tunnel/mesh.go: the members of a network group. `netip.ParseAddr`, of which only the
-- error is used, is the parameter `is_addr`.
pub mod Replacement
use oikos.Common.{String, Bool, not, ◌||◌, List, [], ◌∷◌, ◌=?◌, if◌then◌else◌}
use oikos.Common.Int.{ℤ, pos, ltb_ℤ}
use oikos.Common.Exec.{Result, ok, err, Exec, pure, raise, wrap, ◌>>=◌, ◌>>◌}
use oikos.Store.{Db, StoreError, NetworkGroupMember as StoredMember}
use oikos.Store.Networks.{
  save_network_group, replace_network_group_members, list_network_group_members,
  delete_network_group_member,
}

pub record NetworkGroupMember : Type 0 where
  pub node_id : String
  pub private_ip : String

pub record NetworkGroupAssignment : Type 0 where
  pub group_id : String
  pub name : String
  pub relay_addr : String
  pub relay_port : ℤ
  pub private_ip : String
  pub members : List NetworkGroupMember

pub data MeshError : Type 0 where
  missing_field bad_relay missing_node : MeshError
  bad_private_ip : String → MeshError
  group_unsaved members_unsaved store_error : StoreError → MeshError

-- A call of the store, its error under the text of the caller.
abbrev pub on_store :
    {A : Type 0} → (StoreError → MeshError) → Exec Db StoreError A → Exec Db MeshError A
on_store f m db = let (r, db') = m db in (wrap f r, db')

unfoldable pub stored_member : String → NetworkGroupMember → StoredMember
stored_member group m = record { group_id = group; node_id = m.node_id; private_ip = m.private_ip }

module _ (is_addr : String → Bool) where
  unfoldable pub validate_assignment : NetworkGroupAssignment → Exec Db MeshError Unit
  validate_assignment a =
      if a.group_id =? "" || a.name =? ""
      then raise missing_field
      else if a.relay_addr =? "" || ltb_ℤ a.relay_port (pos 1) || ltb_ℤ (pos 65535) a.relay_port
      then raise bad_relay
      else if not (is_addr a.private_ip)
      then raise (bad_private_ip a.private_ip)
      else pure tt

  -- The loop that checks and collects the members.
  unfoldable pub collect : String → List NetworkGroupMember → Result MeshError (List StoredMember)
  unfolding stored_member
  collect group [] = ok []
  collect group (m ∷ ms) =
      let rest = collect group ms in
      if m.node_id =? ""
      then err missing_node
      else if not (is_addr m.private_ip)
      then err (bad_private_ip m.private_ip)
      else elim rest [ ok rows ↦ ok (stored_member group m ∷ rows) | err e ↦ err e ]

  -- The result of a computation without state.
  abbrev pub result : {A : Type 0} → Result MeshError A → Exec Db MeshError A
  result r db = (r, db)

  unfoldable pub assign : NetworkGroupAssignment → Exec Db MeshError Unit
  assign a = do
    validate_assignment a
    on_store group_unsaved (save_network_group (record { id = a.group_id; name = a.name }))
    rows ← result (collect a.group_id a.members)
    on_store members_unsaved (replace_network_group_members a.group_id rows)

of_stored : List StoredMember → List NetworkGroupMember
of_stored [] = []
of_stored (m ∷ ms) = record { node_id = m.node_id; private_ip = m.private_ip } ∷ of_stored ms

unfoldable pub members : String → Exec Db MeshError (List NetworkGroupMember)
unfolding of_stored
members group = do
  rows ← on_store store_error (list_network_group_members group)
  pure (of_stored rows)

unfoldable pub release : String → String → Exec Db MeshError Unit
release group node =
    if group =? "" || node =? ""
    then raise missing_field
    else on_store store_error (delete_network_group_member group node)
