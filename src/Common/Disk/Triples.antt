-- ===== src/Common/Disk/Triples.antt =====
-- What a system call leaves on the disk, as statements on the files alone.
use mathlib.Core.List.{List, [], ◌∷◌}
use mathlib.Core.Bool.{Bool, true, false}
use Prim.Native.String.{String}
use oikos.Common.Exec.{Result, ok, err, Exec, ◌>>=◌}
use oikos.Common.Triples.{Outcome, Triple, Triple-bind}
use oikos.Common.Disk.{Disk, perform, call, remove_file, then_remove}

abbrev pub Files : Type 0 → Type 0
Files D = List (String × D)

-- From files that satisfy `P` the chain ends in `Q` if it succeeds, and in `R` if it fails.
abbrev pub OnFiles : {D E A : Type 0} → (P Q R : Files D → Type 0) → Exec (Disk D) E A → Type 0
OnFiles P Q R m = Triple (λ d. P d.files) (λ a d. Q d.files) (λ e d. R d.files) m

module _ {D E : Type 0} (P Q R : Files D → Type 0) where
  perform-Outcome :
      (fs : List Bool) (e : E) (effect : Disk D → Disk D) (d : Disk D)
      → ((d : Disk D) → P d.files → Q (effect d).files)
      → ((fs : Files D) → P fs → R fs)
      → P d.files
      → Outcome
          (λ a d. Q d.files)
          (λ x d. R d.files)
          (perform fs e effect d).0
          (perform fs e effect d).1
  unfolding perform
  perform-Outcome [] e effect d q r p = q d p
  perform-Outcome (true ∷ fs) e effect d q r p = r d.files p
  perform-Outcome (false ∷ fs) e effect d q r p = q (record d { faults = fs }) p

  pub OnFiles-call :
      (e : E) (effect : Disk D → Disk D)
      → ((d : Disk D) → P d.files → Q (effect d).files)
      → ((fs : Files D) → P fs → R fs)
      → OnFiles P Q R (call e effect)
  unfolding call
  OnFiles-call e effect q r = record { at = λ d p. perform-Outcome d.faults e effect d q r p }

pub OnFiles-bind :
    {D E A B : Type 0} (P Q T R : Files D → Type 0) (m : Exec (Disk D) E A)
    (f : A → Exec (Disk D) E B)
    → OnFiles P Q R m
    → ((a : A) → OnFiles Q T R (f a))
    → OnFiles P T R (m >>= f)
OnFiles-bind P Q T R m f h k =
    Triple-bind (λ d. P d.files) (λ a d. Q d.files) (λ b d. T d.files) (λ e d. R d.files) m f h k

-- A deferred removal that disturbs neither postcondition.
pub OnFiles-then_remove :
    {D E A : Type 0} (P Q R : Files D → Type 0) (e : E) (path : String) (m : Exec (Disk D) E A)
    → OnFiles P Q R m
    → ((d : Disk D) → Q d.files → Q (remove_file path d).files)
    → ((d : Disk D) → R d.files → R (remove_file path d).files)
    → OnFiles P Q R (then_remove e path m)
unfolding then_remove call perform
OnFiles-then_remove {D} {E} {A} P Q R e path m h q r = record {
  at = λ d p. removed (m d).0 (m d).1 (m d).1.faults (h.at d p);
}
  where
    removed :
        (x : Result E A) (d : Disk D) (fs : List Bool)
        → Outcome (λ a d. Q d.files) (λ x d. R d.files) x d
        → Outcome (λ a d. Q d.files) (λ x d. R d.files) x (perform fs e (remove_file path) d).1
    removed (ok a) d [] h = q d h
    removed (ok a) d (true ∷ fs) h = h
    removed (ok a) d (false ∷ fs) h = q (record d { faults = fs }) h
    removed (err e) d [] h = r d h
    removed (err e) d (true ∷ fs) h = h
    removed (err e) d (false ∷ fs) h = r (record d { faults = fs }) h
