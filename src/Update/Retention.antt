-- ===== src/Update/Retention.antt =====
-- internal/update/retention.go: which old slots may be removed. Texts are compared by their bytes.
pub mod Protection
use text.Mathlib.Text.{is_lt}
use Prim.Native.String.{compare}
use oikos.Common.{ℕ, ◌+◌, String, Bool, not, List, [], ◌∷◌, ltb, length, contains, if◌then◌else◌}
use oikos.Common.Int.{ℤ, pos_part}

-- sort.Strings
unfoldable pub insert_version : String → List String → List String
insert_version v [] = v ∷ []
insert_version v (w ∷ ws) = if is_lt (compare w v) then w ∷ insert_version v ws else v ∷ w ∷ ws

unfoldable pub sort_versions : List String → List String
sort_versions [] = []
sort_versions (v ∷ vs) = insert_version v (sort_versions vs)

unfoldable pub backwards : List String → List String → List String
backwards [] done = done
backwards (v ∷ vs) done = backwards vs (v ∷ done)

-- The keys of the map `protected`, without repetition.
unfoldable pub protect_one : String → List String → List String
protect_one v keys = if contains keys v then keys else v ∷ keys

-- The loop from the last version on, while fewer than `limit` keys are protected.
unfoldable pub protect : ℕ → List String → List String → List String
protect limit [] keys = keys
protect limit (v ∷ vs) keys =
    let rest = protect limit vs (protect_one v keys) in
    if ltb (length keys) limit then rest else keys

unfoldable pub unprotected : List String → List String → List String
unprotected keys [] = []
unprotected keys (v ∷ vs) =
    let rest = unprotected keys vs in if contains keys v then rest else v ∷ rest

-- `keep + 2` on int, where a negative `keep` is 0. A sum that has wrapped around is negative, and
-- no length is below it, as none is below 0.
unfoldable pub limit_of : ℤ → ℕ
limit_of keep = let n = pos_part keep + 2 in if ltb n 9223372036854775808 then n else 0

unfoldable pub versions_to_remove : List String → String → String → ℤ → List String
versions_to_remove versions current previous keep =
    let sorted = sort_versions versions in
    let keys =
      protect (limit_of keep) (backwards sorted [])
        (protect_one previous (protect_one current [])) in
    unprotected keys sorted
