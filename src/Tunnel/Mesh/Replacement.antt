-- ===== src/Tunnel/Mesh/Replacement.antt =====
-- What Assign of internal/tunnel/mesh.go leaves in the table of members.
use oikos.Common.{
  String, Bool, true, false, ap, ◌∙◌, ◌≡◌, refl, not, List, [], ◌∷◌, ◌++◌, ◌=?◌, map, if◌then◌else◌,
}
use oikos.Common.Lists.{All}
use oikos.Common.Exec.{Result, ok, err, Exec, wrap, ◌>>=◌}
use oikos.Common.Triples.{Outcome, Triple, Triple-bind, Triple-weaken}
use oikos.Store.{Db, StoreError, NetworkGroup, NetworkGroupMember as StoredMember}
use oikos.Common.Keeps.{Keeps, Keeps-raise, Keeps-pure, Keeps→Triple, keeps_rules}
use oikos.Store.Networks.{members_but, save_network_group, replace_network_group_members}
use oikos.Store.Statements.{Triple-statement}
use oikos.Store.Networks.Replace.{Holds, under, replaced, Holds-replace}
use oikos.Tunnel.Mesh.{
  NetworkGroupMember, NetworkGroupAssignment, MeshError, missing_node, bad_private_ip,
  group_unsaved, members_unsaved, on_store, stored_member, validate_assignment, collect, result,
  assign,
}

module _ {A : Type 0} (P : Db → Type 0) (Q : A → Db → Type 0) (R : Db → Type 0) where
  wrapped :
      (f : StoreError → MeshError) (r : Result StoreError A) (db : Db)
      → Outcome Q (λ x. R) r db
      → Outcome Q (λ x. R) (wrap f r) db
  wrapped f (ok a) db h = h
  wrapped f (err x) db h = h

  pub Triple-on_store :
      (f : StoreError → MeshError) (m : Exec Db StoreError A)
      → Triple P Q (λ x. R) m
      → Triple P Q (λ x. R) (on_store f m)
  Triple-on_store f m h = record { at = λ db p. wrapped f (m db).0 (m db).1 (h.at db p) }

Holds-save_network_group :
    (rows : List StoredMember) (g : NetworkGroup)
    → Triple (Holds rows) (λ a. Holds rows) (λ e. Holds rows) (save_network_group g)
unfolding save_network_group
Holds-save_network_group rows g =
    Triple-statement (Holds rows) (λ a. Holds rows) (λ e. Holds rows) _ (λ db fs h. h) (λ db h. h)
      (record { at = λ db h. h })

module _ (is_addr : String → Bool) where
  -- A member that may be stored.
  abbrev pub IsMember : NetworkGroupMember → Type 0
  IsMember m = ((m.node_id =? "") ≡ false) × (is_addr m.private_ip ≡ true)

  Collected : String → List NetworkGroupMember → Result MeshError (List StoredMember) → Type 0
  Collected group ms (ok rows) =
      (map (under group) rows ≡ map (stored_member group) ms) × All IsMember ms
  Collected group ms (err e) = Unit

  collect-Collected :
      (group : String) (ms : List NetworkGroupMember)
      → Collected group ms (collect is_addr group ms)
  unfolding collect Collected stored_member
  collect-Collected group [] = (refl, tt)
  collect-Collected group (m ∷ ms) =
      step (m.node_id =? "") (is_addr m.private_ip) refl refl (collect is_addr group ms)
        (collect-Collected group ms)
    where
      step :
          (b c : Bool)
          → (m.node_id =? "") ≡ b
          → is_addr m.private_ip ≡ c
          → (rest : Result MeshError (List StoredMember)) → Collected group ms rest
          → Collected group (m ∷ ms) (
              if b
              then err missing_node
              else if not c
              then err (bad_private_ip m.private_ip)
              else elim rest [ ok rows ↦ ok (stored_member group m ∷ rows) | err e ↦ err e ])
      step true c b_eq c_eq rest h = tt
      step false false b_eq c_eq rest h = tt
      step false true b_eq c_eq (ok rows) h =
          (ap (λ r. stored_member group m ∷ r) h.0, ((b_eq, c_eq), h.1))
      step false true b_eq c_eq (err e) h = tt

  Keeps-validate_assignment :
      (a : NetworkGroupAssignment) (rows : List StoredMember)
      → Keeps (Holds rows) (validate_assignment is_addr a)
  unfolding validate_assignment
  Keeps-validate_assignment a rows = search (keeps_rules, Keeps-raise, Keeps-pure)

  module _ (a : NetworkGroupAssignment) (rows : List StoredMember) where
    abbrev Old : Db → Type 0
    Old = Holds rows

    abbrev New : Db → Type 0
    New db =
        Holds (members_but a.group_id rows ++ map (stored_member a.group_id) a.members) db
        × All IsMember a.members

    replacing :
        (r : Result MeshError (List StoredMember))
        → Collected a.group_id a.members r
        → Triple Old
            (λ x. New)
            (λ e. Old)
            (result is_addr r >>= λ ms.
              on_store members_unsaved (replace_network_group_members a.group_id ms))
    unfolding Collected ◌>>=◌
    replacing (ok ms) h =
        Triple-weaken Old (λ x. New) (λ e. Old) Old (λ x. Holds (replaced a.group_id ms rows))
          (on_store members_unsaved (replace_network_group_members a.group_id ms))
          (Triple-on_store Old (λ x. Holds (replaced a.group_id ms rows)) Old members_unsaved _
            (Holds-replace a.group_id ms rows))
          (λ db k. k) (λ x db k. (k ∙ ap (λ r. members_but a.group_id rows ++ r) h.0, h.1))
    replacing (err e) h = record { at = λ db k. k }

    Triple-assign : Triple Old (λ x. New) (λ e. Old) (assign is_addr a)
    unfolding assign
    Triple-assign =
        Triple-bind Old (λ x. Old) (λ x. New) (λ e. Old) (validate_assignment is_addr a) _
          (Keeps→Triple Old (λ x. Old) (λ e. Old) _ (Keeps-validate_assignment a rows) (λ x db k. k)
            (λ e db k. k))
          (λ x.
            Triple-bind Old (λ x. Old) (λ x. New) (λ e. Old) _ _
              (Triple-on_store Old (λ x. Old) Old group_unsaved _ (Holds-save_network_group rows _))
              (λ y.
                replacing (collect is_addr a.group_id a.members)
                  (collect-Collected a.group_id a.members)))

  -- Whatever statements fail, Assign of a network group either succeeds, and then every member has
  -- a node and a valid address and the rows of the group are exactly these members in their order,
  -- after the unchanged rows of the other groups, or it returns an error and leaves the table of
  -- members as it was.
  pub assign-members :
      (a : NetworkGroupAssignment) (db : Db)
      → Outcome
          (λ x after.
            (after.members
              ≡ members_but a.group_id db.members ++ map (stored_member a.group_id) a.members)
            × All IsMember a.members)
          (λ e after. after.members ≡ db.members)
          (assign is_addr a db).0
          (assign is_addr a db).1
  assign-members a db = (Triple-assign a db.members).at db refl
