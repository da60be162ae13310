-- ===== src/Update/Retention/Protection.antt =====
-- internal/update/retention.go: what is never removed.
use oikos.Common.{
  ℕ, String, ◌≡◌, refl, true, false, not, ◌&&◌, ◌||◌, List, [], ◌∷◌, arith, contains, ◌=?◌, eq_iff,
}
use oikos.Common.Int.{ℤ}
use oikos.Update.Retention.{
  insert_version, sort_versions, protect_one, backwards, protect, unprotected, limit_of,
  versions_to_remove,
}

contains-insert_version :
    (v w : String) (vs : List String) → contains (insert_version v vs) w ≡ (v =? w || contains vs w)
unfolding insert_version contains
contains-insert_version v w [] = refl
contains-insert_version v w (x ∷ vs) = ground (arith, contains-insert_version v w vs)

contains-sort_versions :
    (w : String) (vs : List String) → contains (sort_versions vs) w ≡ contains vs w
unfolding sort_versions contains
contains-sort_versions w [] = refl
contains-sort_versions w (v ∷ vs) =
    ground (arith, contains-insert_version v w (sort_versions vs), contains-sort_versions w vs)

contains-protect_one :
    (v w : String) (keys : List String)
    → contains (protect_one v keys) w ≡ (v =? w || contains keys w)
unfolding protect_one contains
contains-protect_one v w keys = ground (arith, eq_iff v w)

contains-protect :
    (limit : ℕ) (w : String) (vs keys : List String)
    → contains keys w ≡ true
    → contains (protect limit vs keys) w ≡ true
unfolding protect
contains-protect limit w [] keys h = h
contains-protect limit w (v ∷ vs) keys h =
    ground
      (arith, h, contains-protect limit w vs (protect_one v keys), contains-protect_one v w keys)

contains-unprotected :
    (keys : List String) (w : String) (vs : List String)
    → contains (unprotected keys vs) w ≡ (contains vs w && not (contains keys w))
unfolding unprotected contains
contains-unprotected keys w [] = refl
contains-unprotected keys w (v ∷ vs) = ground (arith, contains-unprotected keys w vs, eq_iff v w)

-- The two slots in use are protected from the start.
guarded :
    (limit : ℕ) (sorted : List String) (current previous v : String)
    → (current =? v || previous =? v) ≡ true
    → contains (protect limit sorted (protect_one previous (protect_one current []))) v ≡ true
guarded limit sorted current previous v h =
    contains-protect limit v sorted (protect_one previous (protect_one current [])) (
      ground (
        arith,
        h,
        contains-protect_one previous v (protect_one current []),
        contains-protect_one current v [],
      ))

-- Neither the current nor the previous version is ever to be removed, and nothing is but a version of
-- the list, whatever the number to keep.
pub versions_to_remove-spares :
    (versions : List String) (current previous v : String) (keep : ℤ)
    → contains (versions_to_remove versions current previous keep) v ≡ true
    → (contains versions v ≡ true) × ((current =? v) ≡ false) × ((previous =? v) ≡ false)
unfolding versions_to_remove
versions_to_remove-spares versions current previous v keep h =
    let sorted = sort_versions versions in
    let limit = limit_of keep in
    let keys =
      protect limit (backwards sorted []) (protect_one previous (protect_one current [])) in
    ground (
      arith,
      h,
      contains-unprotected keys v sorted,
      contains-sort_versions v versions,
      guarded limit (backwards sorted []) current previous v,
    )
