-- ===== src/Store/Networks/Replace.antt =====
-- What the replacement of the members of a network group leaves in the table.
use mathlib.Core.List.{append-nil, append_assoc}
use oikos.Common.{
  String, ap, sym, ◌∙◌, ◌≡◌, not, ◌&&◌, ◌||◌, List, [], ◌∷◌, ◌++◌, Bool-cases, inl, inr, map,
}
use oikos.Common.Triples.{Triple, Triple-pure, Triple-weaken, Triple-bind}
use oikos.Store.{NetworkGroupMember, Db, StoreError}
use oikos.Store.Nodes.{has_node}
use oikos.Store.Statements.{Triple-statement, Triple-transaction}
use oikos.Store.Networks.{
  has_group, is_taken, members_but, insert_member, insert_members, delete_members,
  replace_network_group_members,
}

abbrev pub Holds : List NetworkGroupMember → Db → Type 0
Holds rows db = db.members ≡ rows

abbrev Any : StoreError → Db → Type 0
Any e db = Unit

-- The row of a member under a group.
abbrev pub under : String → NetworkGroupMember → NetworkGroupMember
under group m = record m { group_id = group }

module _ (rows : List NetworkGroupMember) where
  Holds-insert_member :
      (m : NetworkGroupMember)
      → Triple (Holds rows) (λ a. Holds (rows ++ m ∷ [])) Any (insert_member m)
  unfolding insert_member
  Holds-insert_member m =
      Triple-statement (Holds rows) (λ a. Holds (rows ++ m ∷ [])) Any _ (λ db fs h. h) (λ db h. tt)
        (record {
          at = λ db h.
              elim (Bool-cases (
                is_taken m db.members
                || db.foreign_keys
                  && not (has_group m.group_id db.groups && has_node m.node_id db.nodes))) [
                    | inl refused ↦ rw refused tt
                    | inr allowed ↦ rw allowed (ap (λ r. r ++ m ∷ []) h)
                  ];
        })

  Holds-delete_members :
      (group : String)
      → Triple (Holds rows) (λ a. Holds (members_but group rows)) Any (delete_members group)
  unfolding delete_members
  Holds-delete_members group =
      Triple-statement (Holds rows) (λ a. Holds (members_but group rows)) Any _ (λ db fs h. h)
        (λ db h. tt) (record { at = λ db h. ap (members_but group) h })

Holds-insert_members :
    (group : String) (ms rows : List NetworkGroupMember)
    → Triple (Holds rows) (λ a. Holds (rows ++ map (under group) ms)) Any (insert_members group ms)
unfolding insert_members
Holds-insert_members group [] rows = Triple-pure _ _ _ tt (λ db h. h ∙ sym (append-nil rows))
Holds-insert_members group (m ∷ ms) rows =
    Triple-bind _ (λ a. Holds (rows ++ under group m ∷ [])) _ _ (insert_member (under group m)) _
      (Holds-insert_member rows (under group m))
      (λ a.
        Triple-weaken _ _ _ _ (λ a. Holds ((rows ++ under group m ∷ []) ++ map (under group) ms)) _
          (Holds-insert_members group ms (rows ++ under group m ∷ [])) (λ db h. h)
          (λ b db h. h ∙ append_assoc rows (under group m ∷ []) (map (under group) ms)))

module _ (group : String) (ms rows : List NetworkGroupMember) where
  abbrev pub replaced : List NetworkGroupMember
  replaced = members_but group rows ++ map (under group) ms

  pub Holds-replace :
      Triple
        (Holds rows)
        (λ a. Holds replaced)
        (λ e. Holds rows)
        (replace_network_group_members group ms)
  unfolding replace_network_group_members
  Holds-replace =
      Triple-transaction (Holds rows) (Holds replaced) _ (λ db fs h. h) (λ db fs h. h)
        (Triple-bind (Holds rows) (λ a. Holds (members_but group rows)) (λ a. Holds replaced) Any
          (delete_members group) (λ a. insert_members group ms) (Holds-delete_members rows group)
          (λ a. Holds-insert_members group ms (members_but group rows)))
