-- ===== src/Backup/Manager/Places.antt =====
-- Where the data directory of a server stands: it ends in "data".
use mathlib.Core.List.{append-nil, append_assoc}
use oikos.Common.{String, true, ◌≡◌, ap, sym, ◌∙◌, refl, List, [], ◌∷◌, ◌++◌}
use oikos.Common.Paths.{FilePath, dir, clean_onto, backwards, clean, join, split_path, step}
use oikos.Filesystem.{data_root}
use oikos.Filesystem.Resolution.{resolved}

-- The cleaned path of components that end in "data" ends in it.
clean_onto-append :
    (stack ps qs : List String)
    → clean_onto true stack (ps ++ qs) ≡ clean_onto true (clean_onto true stack ps) qs
unfolding clean_onto
clean_onto-append stack [] qs = refl
clean_onto-append stack (part ∷ ps) qs = clean_onto-append (step true part stack) ps qs

backwards-append : (ps done : List String) → backwards ps done ≡ backwards ps [] ++ done
unfolding backwards
backwards-append [] done = refl
backwards-append (part ∷ ps) done =
    backwards-append ps (part ∷ done)
    ∙ sym (append_assoc (backwards ps []) (part ∷ []) done)
    ∙ ap (λ r. r ++ done) (sym (backwards-append ps (part ∷ [])))

abbrev front_of : List String → FilePath
front_of ps = backwards (clean_onto true [] ps) []

clean-data : (ps : List String) → clean true (ps ++ "data" ∷ []) ≡ front_of ps ++ "data" ∷ []
unfolding clean clean_onto backwards
clean-data ps =
    rw (clean_onto-append [] ps ("data" ∷ []))
      (backwards-append (clean_onto true [] ps) ("data" ∷ []))

pub dir-append : (front : FilePath) (a : String) → dir (front ++ a ∷ []) ≡ front
unfolding dir
dir-append [] a = refl
dir-append (b ∷ []) a = refl
dir-append (b ∷ (c ∷ front)) a = ap (λ r. b ∷ r) (dir-append (c ∷ front) a)

-- Where the data of a server stands.
abbrev pub place_of : FilePath → String → FilePath
place_of root server = resolved (data_root root server) "."

abbrev pub above : FilePath → String → FilePath
above root server = front_of (front_of (root ++ server ∷ []))

data_root-data :
    (root : FilePath) (server : String)
    → data_root root server ≡ front_of (root ++ server ∷ []) ++ "data" ∷ []
unfolding data_root join
data_root-data root server =
    ap (clean true) (sym (append_assoc root (server ∷ []) ("data" ∷ [])))
    ∙ clean-data (root ++ server ∷ [])

pub place_of-data :
    (root : FilePath) (server : String) → place_of root server ≡ above root server ++ "data" ∷ []
unfolding join clean clean_onto split_path backwards
place_of-data root server =
    ap (clean true) (append-nil (data_root root server) ∙ data_root-data root server)
    ∙ clean-data (front_of (root ++ server ∷ []))
