-- ===== src/Common/Tree/Renaming.antt =====
-- What a renaming does to a file below the renamed path, elsewhere, and below a directory that is
-- in the way.
use mathlib.Core.Path.{◌≡◌, refl, ap, ◌∙◌}
use mathlib.Core.Bool.{Bool, true, false, not, ◌||◌}
use mathlib.Core.List.{List, [], ◌∷◌, ◌++◌}
use mathlib.Core.Option.{some}
use Prim.Native.String.{String}
use native.Mathlib.Omega.{arith}
use oikos.Common.Tests.{if◌then◌else◌}
use oikos.Common.Exec.{Result, ok, err, Exec}
use oikos.Common.Keeps.{Keeps, Triple→Keeps}
use oikos.Common.Triples.{Outcome, Triple}
use oikos.Common.Paths.{FilePath, dir, same_path, is_below}
use oikos.Common.Tree.{
  Node, directory, Tree, Entries, OsError, not_exist, os_failure, node_at, drop_below, move_below,
  is_directory, is_there, may_replace, has_children, attempt, system_call, rename,
}
use oikos.Common.Tree.Lookups.{node_at-drop_below, node_at-move_below}
use oikos.Common.Tree.Holding.{Holds, node_at-moved, has_children-node_at}

module _ {D A : Type 0} (P : Entries D → Type 0) (Q : A → Entries D → Type 0)
    (R : Entries D → Type 0) where
  attempted :
      (fs : List Bool) (body : Exec (Tree D) OsError A) (t : Tree D)
      → ((es : Entries D) → P es → R es)
      → Triple (λ t. P t.entries) (λ a t. Q a t.entries) (λ e t. R t.entries) body
      → P t.entries
      → Outcome
          (λ a t. Q a t.entries)
          (λ e t. R t.entries)
          (attempt fs body t).0
          (attempt fs body t).1
  unfolding attempt
  attempted [] body t r h p = h.at t p
  attempted (true ∷ fs) body t r h p = r t.entries p
  attempted (false ∷ fs) body t r h p = h.at (record t { faults = fs }) p

  pub Triple-system_call :
      (body : Exec (Tree D) OsError A)
      → ((es : Entries D) → P es → R es)
      → Triple (λ t. P t.entries) (λ a t. Q a t.entries) (λ e t. R t.entries) body
      → Triple (λ t. P t.entries) (λ a t. Q a t.entries) (λ e t. R t.entries) (system_call body)
  unfolding system_call
  Triple-system_call body r h = record { at = λ t p. attempted t.faults body t r h p }

-- A directory that is not empty: the node `n` stands below it.
abbrev pub Busy : {D : Type 0} → Node D → FilePath → String → FilePath → Entries D → Type 0
Busy n p x q es = (node_at p es ≡ some directory) × Holds (p ++ x ∷ q) n es

abbrev refused : {D : Type 0} → FilePath → FilePath → Entries D → Bool
refused from to es =
    is_below from to || not (may_replace (node_at from es) (node_at to es) (has_children to es))

module _ {D : Type 0} (P Q : Entries D → Type 0) (from to : FilePath) where
  chosen :
      (t : Tree D) (a b c : Bool)
      → (b ≡ true → P t.entries → Q t.entries)
      → (c ≡ false → P t.entries → Q (move_below from to (drop_below to t.entries)))
      → P t.entries
      → let r : Result OsError Unit × Tree D =
          if a
          then (err not_exist, t)
          else if b
          then (ok tt, t)
          else if c
          then (err os_failure, t)
          else (ok tt, record t { entries = move_below from to (drop_below to t.entries) }) in
        Outcome (λ a t. Q t.entries) (λ e t. P t.entries) r.0 r.1
  chosen t true b c same moved p = p
  chosen t false true c same moved p = same refl p
  chosen t false false true same moved p = p
  chosen t false false false same moved p = moved refl p

  -- A renaming that fails changes nothing; one that succeeds moves, or had nothing to do.
  Triple-rename :
      (same_path from to ≡ true → (es : Entries D) → P es → Q es)
      → ((es : Entries D)
          → refused from to es ≡ false
          → P es
          → Q (move_below from to (drop_below to es)))
      → Triple (λ t. P t.entries) (λ a t. Q t.entries) (λ e t. P t.entries) (rename from to)
  unfolding rename
  Triple-rename same moved =
      Triple-system_call P (λ a. Q) P _ (λ es p. p)
        (record {
          at = λ t p.
              chosen t
                (not (is_there (node_at from t.entries))
                  || not (is_directory (node_at (dir to) t.entries)))
                (same_path from to) (refused from to t.entries) (λ h. same h t.entries)
                (λ h. moved t.entries h) p;
        })

module _ {D : Type 0} (n : Node D) (from to : FilePath) where
  -- A node below the renamed path goes along.
  pub Triple-rename_along :
      (p : FilePath)
      → same_path from to ≡ false
      → is_below to (from ++ p) ≡ false
      → Triple
          (λ t. Holds (from ++ p) n t.entries)
          (λ a t. Holds (to ++ p) n t.entries)
          (λ e t. Holds (from ++ p) n t.entries)
          (rename from to)
  Triple-rename_along p other apart =
      Triple-rename (Holds (from ++ p) n) (Holds (to ++ p) n) from to
        (λ same es h. ground (arith, same, other))
        (λ es allowed h. node_at-moved from to p es apart ∙ h)

  -- A node elsewhere stays.
  pub Holds-rename :
      (p : FilePath)
      → is_below from p ≡ false
      → is_below to p ≡ false
      → Keeps (λ t. Holds p n t.entries) (rename from to)
  Holds-rename p apart away =
      Triple→Keeps (λ t. Holds p n t.entries) _
        (Triple-rename (Holds p n) (Holds p n) from to (λ same es h. h)
          (λ es allowed h.
            node_at-move_below p from to (drop_below to es) apart away
            ∙ node_at-drop_below p to es away
            ∙ h))

  not_replaced :
      (x : String) (p : FilePath) (es : Entries D) → Busy n to x p es → refused from to es ≡ true
  unfolding may_replace
  not_replaced x p es h = ground (
    arith,
    h,
    has_children-node_at to x p n es,
    ap (λ o. may_replace (node_at from es) o true) h.0,
  )

  -- Nothing takes its place.
  pub Busy-rename :
      (x : String) (p : FilePath) → Keeps (λ t. Busy n to x p t.entries) (rename from to)
  Busy-rename x p =
      Triple→Keeps (λ t. Busy n to x p t.entries) _
        (Triple-rename (Busy n to x p) (Busy n to x p) from to (λ same es h. h)
          (λ es allowed h. ground (arith, not_replaced x p es h, allowed)))
