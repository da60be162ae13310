-- ===== src/Filesystem/Links.antt =====
-- The paths that ResolvePath of internal/filesystem/manager.go accepts, and symbolic links: where
-- the kernel's lookup of an accepted path arrives.
use oikos.Common.{
  String, false, ◌||◌, ◌≡◌, refl, sym, ◌∙◌, arith, Option, none, some, List, [], ◌∷◌, ◌++◌, ◌=?◌,
  if◌then◌else◌,
}
use mathlib.Core.Path.{subst}
use mathlib.Core.List.{append_assoc}
use oikos.Common.Exec.{Result, ok, err, raise}
use oikos.Common.Triples.{
  Outcome, Triple, Triple-bind, Triple-if, Triple-pure, Triple-raise, Triple-weaken,
}
use oikos.Common.Paths.{FilePath, join, split_path, clean, rel, leads_out}
use oikos.Common.Paths.Plain.{
  IsPlain, join-IsPlain, IsPlain-back, IsPlain-snoc, append_nil, join-plain, append-rel,
}
use oikos.Common.Tree.{
  Node, directory, file, symlink, Tree, Entries, OsError, not_exist, os_failure, lstat, node_at,
}
use oikos.Common.Tree.Lookups.{Tells, lstat-Tells}
use oikos.Filesystem.{
  path_outside_root, server_not_found, Step, try, judge, valid_server_id, data_root, server_root,
  reject_symlinks, refused, contained, resolve_path,
}

module _ {D : Type 0} (es : Entries D) (points_to : FilePath → FilePath) where
  abbrev goes_on : Option (Node D) → FilePath → FilePath → FilePath → FilePath
  goes_on none written next target = written
  goes_on (some symlink) written next target = target
  goes_on (some directory) written next target = next
  goes_on (some (file d)) written next target = next

  -- Where the lookup of the components arrives, from a directory: at a symbolic link it goes on from
  -- where that points to, and where nothing is, the rest is taken as it is written.
  unfoldable pub lookup_from : FilePath → List String → FilePath
  lookup_from here [] = here
  lookup_from here (part ∷ parts) =
      let next = here ++ part ∷ [] in
      goes_on (node_at next es) (next ++ parts) (lookup_from next parts)
        (lookup_from (points_to next) parts)

  abbrev Same : Tree D → Type 0
  Same t = t.entries ≡ es

  abbrev Direct : FilePath → List String → Unit {0} → Tree D → Type 0
  Direct here parts a t = Same t × (lookup_from here parts ≡ here ++ parts)

  -- The steps leave the entries, and succeed only for a path that is looked up as it is written.
  abbrev Checks : FilePath → List String → Step D Unit → Type 0
  Checks here parts m = Triple Same (Direct here parts) (λ e. Same) m

  try-Tells :
      (p : FilePath) → Triple Same (λ r t. Same t × Tells p es r) (λ e. Same) (try D (lstat p))
  try-Tells p = record {
    at = λ t same.
        let told = lstat-Tells p t in
        (told.0 ∙ same, subst (λ fs. Tells p fs (lstat p t).0) same told.1);
  }

  module _ (here : FilePath) (part : String) (parts : List String) where
    abbrev next : FilePath
    next = here ++ part ∷ []

    abbrev joined : next ++ parts ≡ here ++ part ∷ parts
    joined = append_assoc here (part ∷ []) parts

    Checks-judge :
        (below : Step D Unit) (r : Result OsError (Node D))
        → Checks next parts below
        → Triple
            (λ t. Same t × Tells next es r)
            (Direct here (part ∷ parts))
            (λ e. Same)
            (judge D below r)
    unfolding lookup_from
    Checks-judge below (err not_exist) h = Triple-pure _ _ _ tt (λ t p. (p.0, rw p.1 joined))
    Checks-judge below (err os_failure) h = Triple-raise _ _ _ _ (λ t p. p.0)
    Checks-judge below (ok symlink) h = Triple-raise _ _ _ _ (λ t p. p.0)
    Checks-judge below (ok directory) h = record {
      at = λ t p.
          (Triple-weaken Same _ (λ e. Same) Same (Direct next parts) below h (λ s q. q)
              (λ a s q. (q.0, rw p.1 (q.1 ∙ joined)))).at
            t p.0;
    }
    Checks-judge below (ok (file d)) h = record {
      at = λ t p.
          (Triple-weaken Same _ (λ e. Same) Same (Direct next parts) below h (λ s q. q)
              (λ a s q. (q.0, rw p.1 (q.1 ∙ joined)))).at
            t p.0;
    }

  Checks-reject_symlinks :
      (here : FilePath) (parts : List String)
      → IsPlain here
      → IsPlain parts
      → Checks here parts (reject_symlinks D here parts)
  unfolding reject_symlinks
  Checks-reject_symlinks here [] h k =
      Triple-pure _ _ _ tt (λ t p. (p, unfold lookup_from in sym (append_nil here)))
  Checks-reject_symlinks here (part ∷ parts) h k =
      let rest =
        Checks-reject_symlinks (here ++ part ∷ []) parts (IsPlain-snoc here part h k.0) k.1 in
      let kept : (part =? "" || part =? ".") ≡ false = ground (arith, k.0) in
      rw kept (
        rw (join-plain here part h k.0) (
          Triple-bind Same _ _ _ _ _ (try-Tells (here ++ part ∷ []))
            (λ r. Checks-judge here part parts _ r rest)))

  -- The accepted path, below the data directory, and its lookup from there.
  abbrev pub Reaches : FilePath → FilePath → Type 0
  Reaches base target =
      (parts : List String) × (target ≡ base ++ parts)
      × (IsPlain parts)
      × (lookup_from base parts ≡ target)

  abbrev Accepts : FilePath → FilePath → Tree D → Type 0
  Accepts base target t = Same t × Reaches base target

  Accepts-contained :
      (base target : FilePath)
      → IsPlain base
      → IsPlain target
      → Triple Same (Accepts base) (λ e. Same) (contained D base target)
  unfolding contained
  Accepts-contained base target h k =
      Triple-if _ _ _ (leads_out (rel base target)) _ _
        (λ out. Triple-raise _ _ _ path_outside_root (λ t p. p))
        (λ stays.
          let splits = append-rel base target stays in
          let plain : IsPlain (rel base target) =
            IsPlain-back base (rel base target) (subst IsPlain (sym splits) k) in
          Triple-bind Same (Direct base (rel base target)) _ _ _ _
            (Checks-reject_symlinks base (rel base target) h plain)
            (λ a.
              Triple-pure _ _ _ target
                (λ t p. (p.0, (rel base target, sym splits, plain, p.1 ∙ splits)))))

  Accepts-chosen :
      (base : FilePath) (path : String)
      → IsPlain base
      → Triple Same
          (Accepts base)
          (λ e. Same)
          (if refused D path
            then raise path_outside_root
            else contained D base (join base (clean false (split_path path))))
  Accepts-chosen base path h =
      Triple-if _ _ _ (refused D path) _ _ (λ bad. Triple-raise _ _ _ path_outside_root (λ t p. p))
        (λ good. Accepts-contained base _ h (join-IsPlain base _))

  Accepts-resolve_path :
      (root : FilePath) (server path : String)
      → Triple Same (Accepts (data_root root server)) (λ e. Same) (resolve_path D root server path)
  unfolding resolve_path
  Accepts-resolve_path root server path =
      Triple-bind Same (λ base t. Same t × (base ≡ data_root root server)) _ _ _ _ located
        (λ base. record {
          at = λ t p.
              (subst
                  (λ b.
                    Triple Same (Accepts b) (λ e. Same)
                      (if refused D path
                        then raise path_outside_root
                        else contained D base (join base (clean false (split_path path)))))
                  p.1 (Accepts-chosen base path (subst IsPlain (sym p.1) plain_root))).at
                t p.0;
        })
    where
      plain_root : IsPlain (data_root root server)
      plain_root = unfold data_root in join-IsPlain root _

      located :
          Triple Same
            (λ base t. Same t × (base ≡ data_root root server))
            (λ e. Same)
            (server_root D root server)
      located =
          unfold server_root in
          Triple-if _ _ _ (valid_server_id server) _ _
            (λ valid. Triple-pure _ _ _ (data_root root server) (λ t p. (p, refl)))
            (λ bad. Triple-raise _ _ _ server_not_found (λ t p. p))

-- ResolvePath changes no entry, whatever fails. A path that it accepts is the data directory of the
-- server followed by plain components, and the lookup of these from the data directory arrives at
-- the path itself, wherever the symbolic links of the tree point to: it follows none.
pub resolve_path-Reaches :
    {D : Type 0} (points_to : FilePath → FilePath) (root : FilePath) (server path : String)
    (t : Tree D)
    → Outcome
        (λ target after.
          (after.entries ≡ t.entries) × Reaches t.entries points_to (data_root root server) target)
        (λ e after. after.entries ≡ t.entries)
        (resolve_path D root server path t).0
        (resolve_path D root server path t).1
resolve_path-Reaches points_to root server path t =
    (Accepts-resolve_path t.entries points_to root server path).at t refl
