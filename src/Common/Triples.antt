-- ===== src/Common/Triples.antt =====
-- Statements about chains of steps that may fail: a precondition on the state, what holds of the
-- result and the state where the chain succeeds, and what holds of the error and the state where a
-- step of it fails.
use mathlib.Core.Path.{◌≡◌, refl}
use mathlib.Core.Bool.{Bool, true, false}
use oikos.Common.Tests.{if◌then◌else◌}
use oikos.Common.Exec.{Result, ok, err, Exec, pure, raise, continue, ◌>>=◌}

abbrev pub Outcome :
    {S E A : Type 0} → (A → S → Type 0) → (E → S → Type 0) → Result E A → S → Type 0
Outcome Q R (ok a) s = Q a s
Outcome Q R (err e) s = R e s

pub record Triple {S E A : Type 0} (P : S → Type 0) (Q : A → S → Type 0) (R : E → S → Type 0)
    (m : Exec S E A) : Type 0 where
  pub at : (s : S) → P s → Outcome Q R (m s).0 (m s).1

module _ {S E A : Type 0} (P : S → Type 0) (Q : A → S → Type 0) (R : E → S → Type 0) where
  pub Triple-pure : (a : A) → ((s : S) → P s → Q a s) → Triple P Q R (pure a)
  Triple-pure a q = record { at = q }

  pub Triple-raise : (e : E) → ((s : S) → P s → R e s) → Triple P Q R (raise e)
  Triple-raise e r = record { at = r }

  pub Triple-if :
      (b : Bool) (m n : Exec S E A)
      → (b ≡ true → Triple P Q R m)
      → (b ≡ false → Triple P Q R n)
      → Triple P Q R (if b then m else n)
  Triple-if true m n hm hn = hm refl
  Triple-if false m n hm hn = hn refl

  weaken-Outcome :
      (P' : S → Type 0) (Q' : A → S → Type 0) (r : Result E A) (s : S)
      → ((a : A) (s : S) → Q' a s → Q a s)
      → Outcome Q' R r s
      → Outcome Q R r s
  weaken-Outcome P' Q' (ok a) s k h = k a s h
  weaken-Outcome P' Q' (err e) s k h = h

  -- A weaker precondition and a stronger postcondition.
  pub Triple-weaken :
      (P' : S → Type 0) (Q' : A → S → Type 0) (m : Exec S E A)
      → Triple P' Q' R m
      → ((s : S) → P s → P' s)
      → ((a : A) (s : S) → Q' a s → Q a s)
      → Triple P Q R m
  Triple-weaken P' Q' m h before after = record {
    at = λ s p. weaken-Outcome P' Q' (m s).0 (m s).1 after (h.at s (before s p));
  }

  error-Outcome :
      (R' : E → S → Type 0) (r : Result E A) (s : S)
      → ((e : E) (s : S) → R e s → R' e s)
      → Outcome Q R r s
      → Outcome Q R' r s
  error-Outcome R' (ok a) s k h = h
  error-Outcome R' (err e) s k h = k e s h

  pub Triple-weaken_error :
      (R' : E → S → Type 0) (m : Exec S E A)
      → Triple P Q R m
      → ((e : E) (s : S) → R e s → R' e s)
      → Triple P Q R' m
  Triple-weaken_error R' m h k = record {
    at = λ s p. error-Outcome R' (m s).0 (m s).1 k (h.at s p);
  }

module _ {S E A B : Type 0} (P : S → Type 0) (Q : A → S → Type 0) (T : B → S → Type 0)
    (R : E → S → Type 0) where
  continue-Outcome :
      (r : Result E A) (f : A → Exec S E B) (s : S)
      → Outcome Q R r s
      → ((a : A) → Triple (Q a) T R (f a))
      → Outcome T R (continue r f s).0 (continue r f s).1
  continue-Outcome (ok a) f s h k = (k a).at s h
  continue-Outcome (err e) f s h k = h

  pub Triple-bind :
      (m : Exec S E A) (f : A → Exec S E B)
      → Triple P Q R m
      → ((a : A) → Triple (Q a) T R (f a))
      → Triple P T R (m >>= f)
  unfolding ◌>>=◌
  Triple-bind m f h k = record { at = λ s p. continue-Outcome (m s).0 f (m s).1 (h.at s p) k }
