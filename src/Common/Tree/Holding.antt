-- ===== src/Common/Tree/Holding.antt =====
-- A node at a path that system calls elsewhere leave there, and that a renaming takes along.
use mathlib.Core.Path.{◌≡◌, refl, ap, sym, ◌∙◌}
use mathlib.Core.Logic.{inl, inr}
use mathlib.Core.Bool.{true, false}
use mathlib.Core.List.{List, [], ◌∷◌, ◌++◌}
use mathlib.Core.Option.{some}
use Prim.Native.String.{String}
use native.Mathlib.Omega.{arith}
use text.Mathlib.TextEquality.{eq_iff}
use oikos.Common.Tests.{Bool-cases}
use oikos.Common.Text.{=?_refl}
use oikos.Common.Keeps.{Keeps}
use oikos.Common.Paths.{
  FilePath, dir, same_path, same_path→eq, is_below, is_below-append, rebase, lineage_from,
}
use oikos.Common.Tree.{
  Node, directory, file, Entries, node_at, put_at, drop_below, move_below, make_all, is_directory,
  is_there, has_children, mkdir_all, open_truncated, write_to, remove_all,
}
use oikos.Common.Tree.Lookups.{skip, not_same, node_at-put_at, node_at-drop_below}
use oikos.Common.Tree.Confined.{Keeps-system_call}

same_path-append : (p q r : FilePath) → same_path (p ++ q) (p ++ r) ≡ same_path q r
unfolding same_path
same_path-append [] q r = refl
same_path-append (a ∷ p) q r = ground (arith, same_path-append p q r, =?_refl a)

same_path-rebase :
    (from to q p : FilePath)
    → is_below from q ≡ true
    → same_path (rebase from to q) (to ++ p) ≡ same_path q (from ++ p)
unfolding rebase same_path is_below
same_path-rebase [] to q p h = same_path-append to q p
same_path-rebase (a ∷ from) to [] p h = ground (arith, h)
same_path-rebase (a ∷ from) to (b ∷ q) p h =
    ground (arith, h, same_path-rebase from to q p, eq_iff a b, =?_refl a)

same_path-longer : (p : FilePath) (x : String) (q : FilePath) → same_path p (p ++ x ∷ q) ≡ false
unfolding same_path
same_path-longer [] x q = refl
same_path-longer (a ∷ p) x q = ground (arith, same_path-longer p x q)

not_above : (p q r : FilePath) → is_below p q ≡ false → same_path q (p ++ r) ≡ false
not_above p q r h = elim (Bool-cases (same_path q (p ++ r))) [
  | inl same ↦
      ground (arith, h, is_below-append p r, ap (is_below p) (same_path→eq q (p ++ r) same))
  | inr apart ↦ apart
]

module _ {D : Type 0} where
  abbrev pub Holds : FilePath → Node D → Entries D → Type 0
  Holds p n es = node_at p es ≡ some n

  pub has_children-node_at :
      (p : FilePath) (x : String) (q : FilePath) (n : Node D) (es : Entries D)
      → node_at (p ++ x ∷ q) es ≡ some n
      → has_children p es ≡ true
  unfolding node_at has_children
  has_children-node_at p x q n [] h = ground (arith, h)
  has_children-node_at p x q n ((r, m) ∷ es) h = ground (
    arith,
    h,
    has_children-node_at p x q n es,
    same_path→eq r (p ++ x ∷ q),
    is_below-append p (x ∷ q),
    same_path-longer p x q,
  )

  -- What stood below `from` stands below `to` after the move.
  pub node_at-moved :
      (from to p : FilePath) (es : Entries D)
      → is_below to (from ++ p) ≡ false
      → node_at (to ++ p) (move_below from to (drop_below to es)) ≡ node_at (from ++ p) es
  unfolding drop_below move_below node_at
  node_at-moved from to p [] h = refl
  node_at-moved from to p ((r, n) ∷ es) h = elim (Bool-cases (is_below to r)) [
    | inl gone ↦ rw gone (
        node_at-moved from to p es h
        ∙ sym (skip (from ++ p) r n es (not_same (from ++ p) to r gone h)))
    | inr kept ↦ rw kept (elim (Bool-cases (is_below from r)) [
      | inl below ↦ rw below (
          rw (same_path-rebase from to r p below) (elim (Bool-cases (same_path r (from ++ p))) [
            | inl here ↦ rw here refl
            | inr away ↦ rw away (node_at-moved from to p es h)
          ]))
      | inr apart ↦ rw apart (
          skip (to ++ p) r n _ (not_above to r p kept)
          ∙ node_at-moved from to p es h
          ∙ sym (skip (from ++ p) r n es (not_above from r p apart)))
    ])
  ]

  module _ (p : FilePath) (n : Node D) where
    put_elsewhere :
        (q : FilePath) (m : Node D) (es : Entries D)
        → same_path q p ≡ false
        → Holds p n es
        → Holds p n (put_at q m es)
    put_elsewhere q m es apart h = node_at-put_at p q m es apart ∙ h

    -- A directory is made only where nothing is.
    made_elsewhere :
        (q : FilePath) (es : Entries D)
        → is_there (node_at q es) ≡ false
        → Holds p n es
        → Holds p n (put_at q directory es)
    made_elsewhere q es free h = elim (Bool-cases (same_path q p)) [
      | inl same ↦ ground (arith, free, h, ap (λ r. node_at r es) (same_path→eq q p same))
      | inr apart ↦ put_elsewhere q directory es apart h
    ]

    Holds-make_all : (ps : List FilePath) → Keeps (λ t. Holds p n t.entries) (make_all ps)
    unfolding make_all
    Holds-make_all [] = record { at = λ t h. h }
    Holds-make_all (q ∷ ps) = record {
      at = λ t h. elim (Bool-cases (is_directory (node_at q t.entries))) [
        | inl present ↦ rw present ((Holds-make_all ps).at t h)
        | inr missing ↦ rw missing (elim (Bool-cases (is_there (node_at q t.entries))) [
          | inl blocked ↦ rw blocked h
          | inr free ↦ rw free ((Holds-make_all ps).at _ (made_elsewhere q t.entries free h))
        ])
      ];
    }

    pub Holds-mkdir_all : (q : FilePath) → Keeps (λ t. Holds p n t.entries) (mkdir_all q)
    unfolding mkdir_all
    Holds-mkdir_all q = Keeps-system_call (Holds p n) _ (Holds-make_all (lineage_from [] q))

    pub Holds-open_truncated :
        (q : FilePath) (blank : D)
        → same_path q p ≡ false
        → Keeps (λ t. Holds p n t.entries) (open_truncated q blank)
    unfolding open_truncated
    Holds-open_truncated q blank apart = Keeps-system_call (Holds p n) _ (record {
      at = λ t h. elim (Bool-cases (is_directory (node_at (dir q) t.entries))) [
        | inr missing ↦ rw missing h
        | inl present ↦ rw present (elim (Bool-cases (is_directory (node_at q t.entries))) [
          | inl old ↦ rw old h
          | inr new ↦ rw new (put_elsewhere q (file blank) t.entries apart h)
        ])
      ];
    })

    pub Holds-write_to :
        (q : FilePath) (content : D)
        → same_path q p ≡ false
        → Keeps (λ t. Holds p n t.entries) (write_to q content)
    unfolding write_to
    Holds-write_to q content apart =
        Keeps-system_call (Holds p n) _
          (record { at = λ t h. put_elsewhere q (file content) t.entries apart h })

    pub Holds-remove_all :
        (q : FilePath) → is_below q p ≡ false → Keeps (λ t. Holds p n t.entries) (remove_all q)
    unfolding remove_all
    Holds-remove_all q apart =
        Keeps-system_call (Holds p n) _
          (record { at = λ t h. node_at-drop_below p q t.entries apart ∙ h })
