-- ===== src/Common/Paths.antt =====
-- Slash-separated paths as the lists of their components, and the functions of Go's path/filepath
-- on them. An absolute path is the list of what stands between its slashes; the empty relative path
-- stands for ".".
pub mod Plain
use Prim.Native.Char.{Char, code}
use Prim.Native.String.{String, [] as empty, ◌∷◌ as char_then}
use Prim.Native.Nat.{ℕ}
use mathlib.Core.Path.{◌≡◌, refl, subst}
use mathlib.Core.Logic.{◌⊎◌, inl, inr}
use mathlib.Core.List.{append_assoc}
use mathlib.Core.Bool.{Bool, true, false, ◌&&◌, ◌||◌}
use mathlib.Core.List.{List, [], ◌∷◌, ◌++◌, map}
use native.Mathlib.Omega.{arith}
use text.Mathlib.TextEquality.{eq_iff}
use oikos.Common.Tests.{◌==◌, if◌then◌else◌}
use oikos.Common.Lists.{All}
use oikos.Common.Sort.{text_ltb}
use oikos.Common.Text.{◌=?◌, =?_refl}

abbrev pub FilePath : Type 0
FilePath = List String

-- strings.Contains of one character
unfoldable pub has_code : ℕ → String → Bool
has_code n empty = false
has_code n (char_then c s) = code c == n || has_code n s

abbrev pub slash : ℕ
slash = 47

-- filepath.IsAbs
unfoldable pub is_abs : String → Bool
is_abs empty = false
is_abs (char_then c s) = code c == slash

abbrev prepend_char : Char → List String → List String
prepend_char c [] = char_then c empty ∷ []
prepend_char c (part ∷ parts) = char_then c part ∷ parts

-- strings.Split at the slashes
unfoldable pub split_path : String → List String
split_path empty = "" ∷ []
split_path (char_then c s) =
    let parts = split_path s in if code c == slash then "" ∷ parts else prepend_char c parts

abbrev up : Bool → List String → List String
up rooted [] = if rooted then [] else ".." ∷ []
up rooted (top ∷ below) = if top =? ".." then ".." ∷ top ∷ below else below

abbrev pub step : Bool → String → List String → List String
step rooted part stack =
    if part =? "" || part =? "."
    then stack
    else if part =? ".."
    then up rooted stack
    else part ∷ stack

-- The components that are kept, the last one first.
unfoldable pub clean_onto : Bool → List String → List String → List String
clean_onto rooted stack [] = stack
clean_onto rooted stack (part ∷ parts) = clean_onto rooted (step rooted part stack) parts

unfoldable pub backwards : List String → List String → List String
backwards [] done = done
backwards (part ∷ parts) done = backwards parts (part ∷ done)

-- filepath.Clean, of an absolute path if `rooted`
unfoldable pub clean : Bool → List String → FilePath
clean rooted parts = backwards (clean_onto rooted [] parts) []

-- filepath.Join of an absolute path and another
unfoldable pub join : FilePath → List String → FilePath
join root parts = clean true (root ++ parts)

-- filepath.Rel between absolute clean paths
unfoldable pub rel : FilePath → FilePath → FilePath
rel [] target = target
rel (a ∷ base) [] = ".." ∷ map (λ part. "..") base
rel (a ∷ base) (b ∷ target) =
    let below = rel base target in
    if a =? b then below else (".." ∷ map (λ part. "..") base) ++ b ∷ target

-- filepath.Dir
unfoldable pub dir : FilePath → FilePath
dir [] = []
dir (a ∷ []) = []
dir (a ∷ (b ∷ path)) = a ∷ dir (b ∷ path)

-- filepath.Base
unfoldable pub last_part : FilePath → String
last_part [] = "/"
last_part (a ∷ []) = a
last_part (a ∷ (b ∷ path)) = last_part (b ∷ path)

unfoldable pub same_path : FilePath → FilePath → Bool
same_path [] [] = true
same_path [] (b ∷ q) = false
same_path (a ∷ p) [] = false
same_path (a ∷ p) (b ∷ q) = a =? b && same_path p q

-- `q` is `p`, or lies below it.
unfoldable pub is_below : FilePath → FilePath → Bool
is_below [] q = true
is_below (a ∷ p) [] = false
is_below (a ∷ p) (b ∷ q) = a =? b && is_below p q

-- The order of filepath.Walk: a directory, then what lies below it, by names.
unfoldable pub path_ltb : FilePath → FilePath → Bool
path_ltb p [] = false
path_ltb [] (b ∷ q) = true
path_ltb (a ∷ p) (b ∷ q) = let rest = path_ltb p q in text_ltb a b || a =? b && rest

-- The path below `from` taken to `to`.
unfoldable pub rebase : FilePath → FilePath → FilePath → FilePath
rebase [] to q = to ++ q
rebase (a ∷ from) to [] = to
rebase (a ∷ from) to (b ∷ q) = rebase from to q

-- The paths from `above` down to what stands below it, the highest first.
unfoldable pub lineage_from : FilePath → FilePath → List FilePath
lineage_from above [] = above ∷ []
lineage_from above (part ∷ parts) = above ∷ lineage_from (above ++ part ∷ []) parts

pub same_path→eq : (p q : FilePath) → same_path p q ≡ true → p ≡ q
unfolding same_path
same_path→eq [] [] h = refl
same_path→eq [] (b ∷ q) h = ground (arith, h)
same_path→eq (a ∷ p) [] h = ground (arith, h)
same_path→eq (a ∷ p) (b ∷ q) h = ground (arith, h, same_path→eq p q, eq_iff a b)

pub same_path_refl : (p : FilePath) → same_path p p ≡ true
unfolding same_path
same_path_refl [] = refl
same_path_refl (a ∷ p) = ground (arith, same_path_refl p, =?_refl a)

pub is_below_refl : (p : FilePath) → is_below p p ≡ true
unfolding is_below
is_below_refl [] = refl
is_below_refl (a ∷ p) = ground (arith, is_below_refl p, =?_refl a)

pub is_below_trans :
    (p q r : FilePath) → is_below p q ≡ true → is_below q r ≡ true → is_below p r ≡ true
unfolding is_below
is_below_trans [] q r h k = refl
is_below_trans (a ∷ p) [] r h k = ground (arith, h)
is_below_trans (a ∷ p) (b ∷ q) [] h k = ground (arith, k)
is_below_trans (a ∷ p) (b ∷ q) (c ∷ r) h k =
    ground (arith, h, k, is_below_trans p q r, eq_iff a b, eq_iff b c, eq_iff a c)

pub is_below-append : (p q : FilePath) → is_below p (p ++ q) ≡ true
unfolding is_below
is_below-append [] q = refl
is_below-append (a ∷ p) q = ground (arith, is_below-append p q, =?_refl a)

pub lineage-is_below :
    (above path : FilePath) → All (λ p. is_below p (above ++ path) ≡ true) (lineage_from above path)
unfolding lineage_from
lineage-is_below above [] = (is_below-append above [], tt)
lineage-is_below above (part ∷ parts) = (
  is_below-append above (part ∷ parts),
  subst (λ q. All (λ p. is_below p q ≡ true) (lineage_from (above ++ part ∷ []) parts))
      (append_assoc above (part ∷ []) parts) (lineage-is_below (above ++ part ∷ []) parts),
)

-- Of two paths above one path, one is above the other.
pub is_below-linear :
    (p q r : FilePath)
    → is_below p r ≡ true
    → is_below q r ≡ true
    → (is_below p q ≡ true) ⊎ (is_below q p ≡ true)
unfolding is_below
is_below-linear [] q r h k = inl refl
is_below-linear (a ∷ p) [] r h k = inr refl
is_below-linear (a ∷ p) (b ∷ q) [] h k = ground (arith, h)
is_below-linear (a ∷ p) (b ∷ q) (c ∷ r) h k =
    ground (arith, h, k, is_below-linear p q r, eq_iff a c, eq_iff b c, eq_iff a b, eq_iff b a)

-- What is below a root is the root, or its directory is below the root.
pub is_below-dir :
    (root p : FilePath) → is_below root p ≡ true → (root ≡ p) ⊎ (is_below root (dir p) ≡ true)
unfolding is_below dir
is_below-dir [] p h = inr refl
is_below-dir (a ∷ root) [] h = ground (arith, h)
is_below-dir (a ∷ []) (b ∷ []) h = inl (ground (arith, h, eq_iff a b))
is_below-dir (a ∷ []) (b ∷ (c ∷ p)) h = inr (ground (arith, h))
is_below-dir (a ∷ (d ∷ root)) (b ∷ []) h = ground (arith, h)
is_below-dir (a ∷ (d ∷ root)) (b ∷ (c ∷ p)) h =
    ground (arith, h, is_below-dir (d ∷ root) (c ∷ p), eq_iff a b)

pub dir-is_below : (p : FilePath) → is_below (dir p) p ≡ true
unfolding is_below dir
dir-is_below [] = refl
dir-is_below (a ∷ []) = refl
dir-is_below (a ∷ (b ∷ p)) = ground (arith, dir-is_below (b ∷ p), =?_refl a)

-- The first component of a relative path is "..".
abbrev pub leads_out : FilePath → Bool
leads_out [] = false
leads_out (part ∷ path) = part =? ".."

pub rel-is_below :
    (base target : FilePath) → leads_out (rel base target) ≡ false → is_below base target ≡ true
unfolding rel is_below
rel-is_below [] target h = refl
rel-is_below (a ∷ base) [] h = ground (arith, h, =?_refl "..")
rel-is_below (a ∷ base) (b ∷ target) h = below (a =? b) h (rel-is_below base target)
  where
    below :
        (same : Bool)
        → leads_out
            (if same then rel base target else (".." ∷ map (λ part. "..") base) ++ b ∷ target)
          ≡ false
        → (leads_out (rel base target) ≡ false → is_below base target ≡ true)
        → (same && is_below base target) ≡ true
    below true h k = k h
    below false h k = ground (arith, h)
