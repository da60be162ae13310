-- ===== src/Common/Tree/Confined.antt =====
-- System calls on paths below a root leave what lies outside of it as it is, except that missing
-- directories above the root may be made, and one path set aside for a temporary file.
use mathlib.Core.Path.{◌≡◌, refl, sym, ◌∙◌, subst}
use mathlib.Core.Logic.{◌⊎◌, inl, inr}
use mathlib.Core.Bool.{Bool, true, false, not, ◌||◌}
use mathlib.Core.List.{List, [], ◌∷◌}
use mathlib.Core.Option.{Option, none, some}
use native.Mathlib.Omega.{arith}
use oikos.Common.Tests.{if◌then◌else◌, Bool-cases}
use oikos.Common.Exec.{Result, ok, err, Exec}
use oikos.Common.Keeps.{Keeps}
use oikos.Common.Lists.{All, All-imp}
use oikos.Common.Paths.{
  FilePath, dir, same_path, same_path→eq, is_below, is_below_trans, is_below-linear, lineage_from,
  lineage-is_below,
}
use oikos.Common.Tree.{
  Node, directory, file, Tree, Entries, OsError, not_exist, os_failure, node_at, put_at, drop_below,
  move_below, make_all, is_directory, is_there, may_replace, has_children, attempt, system_call,
  mkdir_all, create_new, write_to, remove, remove_all, rename,
}
use oikos.Common.Tree.Lookups.{
  not_same, node_at-drop_at, node_at-put_at, node_at-put_at_same, node_at-drop_below,
  node_at-move_below,
}

module _ {D A : Type 0} (P : Entries D → Type 0) where
  attempted :
      (fs : List Bool) (body : Exec (Tree D) OsError A) (t : Tree D)
      → Keeps (λ t. P t.entries) body
      → P t.entries
      → P (attempt fs body t).1.entries
  unfolding attempt
  attempted [] body t k h = k.at t h
  attempted (true ∷ fs) body t k h = h
  attempted (false ∷ fs) body t k h = k.at (record t { faults = fs }) h

  pub Keeps-system_call :
      (body : Exec (Tree D) OsError A)
      → Keeps (λ t. P t.entries) body
      → Keeps (λ t. P t.entries) (system_call body)
  unfolding system_call
  Keeps-system_call body k = record { at = λ t h. attempted t.faults body t k h }

module _ (root temporary : FilePath) where
  -- A path that the calls have no business with.
  abbrev pub IsOutside : FilePath → Type 0
  IsOutside p = (is_below root p ≡ false) × (is_below temporary p ≡ false)

  -- Two paths above one path, of which one is the root or below it.
  abbrev pub IsNear : FilePath → Type 0
  IsNear p = (is_below p root ≡ true) ⊎ (is_below root p ≡ true)

  pub outside_same : (q p : FilePath) → is_below root q ≡ true → IsOutside p → same_path q p ≡ false
  outside_same q p below out = not_same p root q below out.0

  pub outside_below : (q p : FilePath) → is_below root q ≡ true → IsOutside p → is_below q p ≡ false
  outside_below q p below out = ground (arith, is_below_trans root q p below, out.0)

  module _ {D : Type 0} (before : Entries D) where
    -- The node at a path is what it was, or a directory that was missing above the root.
    abbrev pub IsSettled : FilePath → Entries D → Type 0
    IsSettled p es =
        (node_at p es ≡ node_at p before)
        ⊎ ((is_below p root ≡ true) × (node_at p before ≡ none) × (node_at p es ≡ some directory))

    abbrev pub IsConfined : Entries D → Type 0
    IsConfined es = (p : FilePath) → IsOutside p → IsSettled p es

    abbrev pub Confines : {A : Type 0} → Exec (Tree D) OsError A → Type 0
    Confines m = Keeps (λ t. IsConfined t.entries) m

    unmoved :
        (p : FilePath) (es fs : Entries D)
        → node_at p fs ≡ node_at p es
        → IsSettled p es
        → IsSettled p fs
    unmoved p es fs h (inl same) = inl (h ∙ same)
    unmoved p es fs h (inr made) = inr (made.0, made.1, h ∙ made.2)

    pub Confines-same :
        {A : Type 0} (r : Tree D → Result OsError A) → Confines (system_call (λ t. (r t, t)))
    Confines-same r = Keeps-system_call IsConfined _ (record { at = λ t h. h })

    -- A directory is made where nothing is.
    made_at :
        (p : FilePath) (es : Entries D)
        → IsOutside p
        → IsNear p
        → node_at p es ≡ none
        → IsSettled p es
        → IsSettled p (put_at p directory es)
    made_at p es out (inl above) free (inl same) =
        inr (above, sym same ∙ free, node_at-put_at_same p directory es)
    made_at p es out (inl above) free (inr old) =
        inr (above, old.1, node_at-put_at_same p directory es)
    made_at p es out (inr below) free settled = ground (arith, below, out.0)

    made :
        (q : FilePath) (es : Entries D)
        → IsNear q
        → node_at q es ≡ none
        → IsConfined es
        → IsConfined (put_at q directory es)
    made q es near free h p out = elim (Bool-cases (same_path q p)) [
      | inl same ↦
          let e : q ≡ p = same_path→eq q p same in
          subst (λ r. IsSettled p (put_at r directory es)) (sym e)
            (made_at p es out (subst IsNear e near) (subst (λ r. node_at r es ≡ none) e free)
              (h p out))
      | inr new ↦ unmoved p es _ (node_at-put_at p q directory es new) (h p out)
    ]

    absent : (o : Option (Node D)) → is_there o ≡ false → o ≡ none
    absent none h = refl
    absent (some n) h = ground (arith, h)

    Confines-make_all : (ps : List FilePath) → All IsNear ps → Confines (make_all ps)
    unfolding make_all
    Confines-make_all [] near = record { at = λ t h. h }
    Confines-make_all (q ∷ ps) near = record {
      at = λ t h. elim (Bool-cases (is_directory (node_at q t.entries))) [
        | inl present ↦ rw present ((Confines-make_all ps near.1).at t h)
        | inr missing ↦ rw missing (elim (Bool-cases (is_there (node_at q t.entries))) [
          | inl blocked ↦ rw blocked h
          | inr free ↦
              rw free
                ((Confines-make_all ps near.1).at _ (made q t.entries near.0 (absent _ free) h))
        ])
      ];
    }

    above-IsNear : (q : FilePath) → IsNear q → (p : FilePath) → is_below p q ≡ true → IsNear p
    above-IsNear q (inl above) p h = inl (is_below_trans p q root h above)
    above-IsNear q (inr below) p h = is_below-linear p root q h below

    pub Confines-mkdir_all : (q : FilePath) → IsNear q → Confines (mkdir_all q)
    unfolding mkdir_all
    Confines-mkdir_all q near = Keeps-system_call IsConfined _ (
        Confines-make_all (lineage_from [] q)
          (All-imp _ IsNear (lineage_from [] q) (above-IsNear q near) (lineage-is_below [] q)))

    -- A path that calls may write at.
    abbrev pub IsFree : FilePath → Type 0
    IsFree q = (p : FilePath) → IsOutside p → same_path q p ≡ false

    put_settled :
        (q : FilePath) (n : Node D) (es : Entries D)
        → IsFree q
        → IsConfined es
        → IsConfined (put_at q n es)
    put_settled q n es free h p out =
        unmoved p es _ (node_at-put_at p q n es (free p out)) (h p out)

    pub Confines-create_new : (q : FilePath) (blank : D) → IsFree q → Confines (create_new q blank)
    unfolding create_new
    Confines-create_new q blank free = Keeps-system_call IsConfined _ (record {
      at = λ t h. elim (Bool-cases (is_directory (node_at (dir q) t.entries))) [
        | inr missing ↦ rw missing h
        | inl present ↦ rw present (elim (Bool-cases (is_there (node_at q t.entries))) [
          | inl old ↦ rw old h
          | inr new ↦ rw new (put_settled q (file blank) t.entries free h)
        ])
      ];
    })

    pub Confines-write_to : (q : FilePath) (content : D) → IsFree q → Confines (write_to q content)
    unfolding write_to
    Confines-write_to q content free =
        Keeps-system_call IsConfined _
          (record { at = λ t h. put_settled q (file content) t.entries free h })

    pub Confines-remove : (q : FilePath) → IsFree q → Confines (remove q)
    unfolding remove
    Confines-remove q free = Keeps-system_call IsConfined _ (record {
      at = λ t h. elim (Bool-cases (is_there (node_at q t.entries))) [
        | inr missing ↦ rw missing h
        | inl present ↦ rw present (elim (Bool-cases (has_children q t.entries)) [
          | inl busy ↦ rw busy h
          | inr empty ↦ rw empty (λ p out.
              unmoved p t.entries _ (node_at-drop_at p q t.entries (free p out)) (h p out))
        ])
      ];
    })

    pub Confines-remove_all : (q : FilePath) → is_below root q ≡ true → Confines (remove_all q)
    unfolding remove_all
    Confines-remove_all q below = Keeps-system_call IsConfined _ (record {
      at = λ t h p out.
          unmoved p t.entries _ (node_at-drop_below p q t.entries (outside_below q p below out))
            (h p out);
    })

    -- From a path to a path below the root, or from the temporary path.
    pub Confines-rename :
        (from to : FilePath)
        → ((p : FilePath) → IsOutside p → is_below from p ≡ false)
        → is_below root to ≡ true
        → Confines (rename from to)
    unfolding rename
    Confines-rename from to apart below = Keeps-system_call IsConfined _ (record {
      at = λ t h.
          settle t h
            (not (is_there (node_at from t.entries))
              || not (is_directory (node_at (dir to) t.entries)))
            (same_path from to)
            (is_below from to
              || not (
                  may_replace (node_at from t.entries) (node_at to t.entries)
                    (has_children to t.entries)));
    })
      where
        settle :
            (t : Tree D)
            → IsConfined t.entries
            → (a b c : Bool)
            → let r : Result OsError Unit × Tree D =
                if a
                then (err not_exist, t)
                else if b
                then (ok tt, t)
                else if c
                then (err os_failure, t)
                else (ok tt, record t { entries = move_below from to (drop_below to t.entries) }) in
              IsConfined r.1.entries
        settle t h true b c = h
        settle t h false true c = h
        settle t h false false true = h
        settle t h false false false = λ p out.
            unmoved p t.entries _
              (node_at-move_below p from to (drop_below to t.entries) (apart p out)
                  (outside_below to p below out)
                ∙ node_at-drop_below p to t.entries (outside_below to p below out))
              (h p out)
