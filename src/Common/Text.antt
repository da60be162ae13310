-- ===== src/Common/Text.antt =====
-- Texts compared whole, and a dictionary with text keys for the maps of the source that are looked
-- up by key. The order of entries is not observed by these operations.
use Prim.Native.String.{String}
use mathlib.Core.Path.{◌≡◌}
use mathlib.Core.Logic.{◌≢◌}
use mathlib.Core.Bool.{Bool, true, false, ◌||◌}
use mathlib.Core.List.{List, [], ◌∷◌}
use mathlib.Core.Option.{Option, none, some}
use native.Mathlib.Omega.{arith}
use text.Mathlib.Text.{◌==◌ as str_eq}
use text.Mathlib.TextEquality.{eq_iff}
use text.Mathlib.TextPositions.{eq_refl}
use oikos.Common.Tests.{if◌then◌else◌}

-- The text comparison of the source, `==` on strings.
infix 50 ◌=?◌
abbrev pub ◌=?◌ : String → String → Bool
s =? t = str_eq s t

pub =?_refl : (s : String) → (s =? s) ≡ true
=?_refl s = eq_refl s

pub =?→eq : (s t : String) → (s =? t) ≡ true → s ≡ t
=?→eq s t h = (eq_iff s t).0 h

pub ne→=?_false : (s t : String) → s ≢ t → (s =? t) ≡ false
ne→=?_false s t h = ground (arith, eq_iff s t)

-- `values` holds `wanted`.
unfoldable pub contains : List String → String → Bool
contains [] wanted = false
contains (v ∷ vs) wanted = v =? wanted || contains vs wanted

module _ {ℓ} {V : Type ℓ} where
  -- m[k]
  unfoldable pub lookup : String → List (String × V) → Option V
  lookup k [] = none
  lookup k ((j, v) ∷ m) = if j =? k then some v else lookup k m

  -- delete(m, k)
  unfoldable pub delete : String → List (String × V) → List (String × V)
  delete k [] = []
  delete k ((j, v) ∷ m) = let rest = delete k m in if j =? k then rest else (j, v) ∷ rest

  -- m[k] = v
  unfoldable pub put : String → V → List (String × V) → List (String × V)
  put k v m = (k, v) ∷ delete k m

  pub lookup-delete :
      (k j : String) (m : List (String × V))
      → lookup j (delete k m) ≡ (if k =? j then none else lookup j m)
  unfolding lookup delete
  lookup-delete k j [] = ground arith
  lookup-delete k j ((i, v) ∷ m) =
      ground (arith, lookup-delete k j m, eq_iff i k, eq_iff i j, eq_iff k j)

  pub lookup-put :
      (k j : String) (v : V) (m : List (String × V))
      → lookup j (put k v m) ≡ (if k =? j then some v else lookup j m)
  unfolding lookup put
  lookup-put k j v m = ground (arith, lookup-delete k j m)

pub ruleset dict_laws = (lookup-delete, lookup-put)
