-- ===== src/Common/Tree/Lookups.antt =====
-- Lookups in a tree after each change of its entries.
use mathlib.Core.Path.{◌≡◌, refl, ap, sym, ◌∙◌}
use mathlib.Core.Logic.{inl, inr}
use mathlib.Core.Bool.{Bool, true, false}
use mathlib.Core.List.{List, [], ◌∷◌}
use mathlib.Core.Option.{Option, none, some}
use native.Mathlib.Omega.{arith}
use oikos.Common.Tests.{Bool-cases}
use oikos.Common.Paths.{
  FilePath, same_path, same_path→eq, same_path_refl, is_below, is_below-append, is_below_refl,
  rebase,
}
use oikos.Common.Exec.{Result, ok, err}
use oikos.Common.Tree.{
  Node, Tree, Entries, OsError, not_exist, os_failure, node_at, drop_at, put_at, drop_below,
  move_below, system_call, attempt, lstat, found, file, write_to,
}

pub not_same :
    (p q r : FilePath) → is_below q r ≡ true → is_below q p ≡ false → same_path r p ≡ false
not_same p q r h k = elim (Bool-cases (same_path r p)) [
  | inl same ↦ ground (arith, h, k, ap (is_below q) (same_path→eq r p same))
  | inr new ↦ new
]

pub is_below-rebase : (from to q : FilePath) → is_below to (rebase from to q) ≡ true
unfolding rebase
is_below-rebase [] to q = is_below-append to q
is_below-rebase (a ∷ from) to [] = is_below_refl to
is_below-rebase (a ∷ from) to (b ∷ q) = is_below-rebase from to q

module _ {D : Type 0} (p : FilePath) where
  pub skip :
      (r : FilePath) (n : Node D) (es : Entries D)
      → same_path r p ≡ false
      → node_at p ((r, n) ∷ es) ≡ node_at p es
  unfolding node_at
  skip r n es h = rw h refl

  same_head :
      (r : FilePath) (n : Node D) (es fs : Entries D)
      → node_at p es ≡ node_at p fs
      → node_at p ((r, n) ∷ es) ≡ node_at p ((r, n) ∷ fs)
  unfolding node_at
  same_head r n es fs h = rw h refl

  pub node_at-drop_at :
      (q : FilePath) (es : Entries D)
      → same_path q p ≡ false
      → node_at p (drop_at q es) ≡ node_at p es
  unfolding drop_at
  node_at-drop_at q [] h = refl
  node_at-drop_at q ((r, n) ∷ es) h = elim (Bool-cases (same_path r q)) [
    | inl same ↦ rw same (node_at-drop_at q es h ∙ sym (skip r n es (rw (same_path→eq r q same) h)))
    | inr new ↦ rw new (same_head r n _ _ (node_at-drop_at q es h))
  ]

  pub node_at-put_at :
      (q : FilePath) (n : Node D) (es : Entries D)
      → same_path q p ≡ false
      → node_at p (put_at q n es) ≡ node_at p es
  unfolding put_at
  node_at-put_at q n es h = skip q n (drop_at q es) h ∙ node_at-drop_at q es h

  pub node_at-drop_below :
      (q : FilePath) (es : Entries D)
      → is_below q p ≡ false
      → node_at p (drop_below q es) ≡ node_at p es
  unfolding drop_below
  node_at-drop_below q [] h = refl
  node_at-drop_below q ((r, n) ∷ es) h = elim (Bool-cases (is_below q r)) [
    | inl below ↦ rw below (node_at-drop_below q es h ∙ sym (skip r n es (not_same p q r below h)))
    | inr apart ↦ rw apart (same_head r n _ _ (node_at-drop_below q es h))
  ]

  pub node_at-move_below :
      (from to : FilePath) (es : Entries D)
      → is_below from p ≡ false
      → is_below to p ≡ false
      → node_at p (move_below from to es) ≡ node_at p es
  unfolding move_below
  node_at-move_below from to [] h k = refl
  node_at-move_below from to ((r, n) ∷ es) h k = elim (Bool-cases (is_below from r)) [
    | inl below ↦ rw below (
        skip (rebase from to r) n (move_below from to es)
          (not_same p to (rebase from to r) (is_below-rebase from to r) k)
        ∙ node_at-move_below from to es h k
        ∙ sym (skip r n es (not_same p from r below h)))
    | inr apart ↦ rw apart (same_head r n _ _ (node_at-move_below from to es h k))
  ]

  pub node_at-put_at_same : (n : Node D) (es : Entries D) → node_at p (put_at p n es) ≡ some n
  unfolding node_at put_at
  node_at-put_at_same n es = rw (same_path_refl p) refl

module _ {D : Type 0} (p : FilePath) where
  -- What os.Lstat says of the entries, if it does not fail.
  abbrev pub Tells : Entries D → Result OsError (Node D) → Type 0
  Tells es (ok n) = node_at p es ≡ some n
  Tells es (err not_exist) = node_at p es ≡ none
  Tells es (err os_failure) = Unit

  found-Tells : (es : Entries D) (o : Option (Node D)) → node_at p es ≡ o → Tells es (found o)
  found-Tells es none h = h
  found-Tells es (some n) h = h

  pub lstat-Tells :
      (t : Tree D) → ((lstat p t).1.entries ≡ t.entries) × Tells t.entries (lstat p t).0
  unfolding lstat system_call
  lstat-Tells t = told t.faults
    where
      told :
          (fs : List Bool)
          → ((attempt fs (λ u. (found (node_at p u.entries), u)) t).1.entries ≡ t.entries)
            × Tells t.entries (attempt fs (λ u. (found (node_at p u.entries), u)) t).0
      told [] = unfold attempt in (refl, found-Tells t.entries _ refl)
      told (true ∷ fs) = unfold attempt in (refl, tt)
      told (false ∷ fs) = unfold attempt in (refl, found-Tells t.entries _ refl)

  -- If no call fails, the content is written.
  pub write_to-calm :
      (content : D) (t : Tree D)
      → t.faults ≡ []
      → write_to p content t ≡ (ok tt, record t { entries = put_at p (file content) t.entries })
  unfolding write_to system_call attempt
  write_to-calm content t calm = rw calm refl
