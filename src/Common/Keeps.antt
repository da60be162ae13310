-- ===== src/Common/Keeps.antt =====
-- Steps after which a property of the state still holds, whether they return or fail: one rule for
-- each way to build a step.
use mathlib.Core.Path.{◌≡◌, refl}
use mathlib.Core.Logic.{◌⊎◌, inl, inr}
use mathlib.Core.Bool.{Bool, true, false}
use oikos.Common.Tests.{if◌then◌else◌}
use oikos.Common.Triples.{Outcome, Triple}
use oikos.Common.Exec.{Result, ok, err, Exec, pure, raise, continue, ◌>>=◌}

pub record Keeps {S E A : Type 0} (P : S → Type 0) (m : Exec S E A) : Type 0 where
  pub at : (s : S) → P s → P (m s).1

module _ {S E A : Type 0} {P : S → Type 0} where
  pub Keeps-pure : (a : A) → Keeps {E = E} P (pure a)
  Keeps-pure a = record { at = λ s h. h }

  pub Keeps-raise : (e : E) → Keeps {A = A} P (raise e)
  Keeps-raise e = record { at = λ s h. h }

  pub Keeps-if :
      (b : Bool) (m n : Exec S E A) → Keeps P m → Keeps P n → Keeps P (if b then m else n)
  Keeps-if true m n hm hn = hm
  Keeps-if false m n hm hn = hn

  -- The test is known in each branch.
  pub Keeps-decide :
      (b : Bool) (m n : Exec S E A)
      → (b ≡ true → Keeps P m)
      → (b ≡ false → Keeps P n)
      → Keeps P (if b then m else n)
  Keeps-decide true m n hm hn = hm refl
  Keeps-decide false m n hm hn = hn refl

  -- Two properties that are kept.
  pub Keeps-both :
      (Q : S → Type 0) (m : Exec S E A) → Keeps P m → Keeps Q m → Keeps (λ s. P s × Q s) m
  Keeps-both Q m h k = record { at = λ s p. (h.at s p.0, k.at s p.1) }

  -- One of two properties, each of which is kept.
  pub Keeps-either :
      (Q : S → Type 0) (m : Exec S E A) → Keeps P m → Keeps Q m → Keeps (λ s. P s ⊎ Q s) m
  Keeps-either Q m h k = record {
    at = λ s. elim [ inl p ↦ inl (h.at s p) | inr q ↦ inr (k.at s q) ];
  }

module _ {S E A B : Type 0} {P : S → Type 0} where
  Keeps-continue :
      (r : Result E A) (f : A → Exec S E B) (s : S)
      → P s
      → ((a : A) → Keeps P (f a))
      → P (continue r f s).1
  Keeps-continue (ok a) f s h k = (k a).at s h
  Keeps-continue (err e) f s h k = h

  pub Keeps-bind :
      (m : Exec S E A) (f : A → Exec S E B)
      → Keeps P m
      → ((a : A) → Keeps P (f a))
      → Keeps P (m >>= f)
  unfolding ◌>>=◌
  Keeps-bind m f hm hf = record { at = λ s h. Keeps-continue (m s).0 f (m s).1 (hm.at s h) hf }

module _ {S E A : Type 0} (P : S → Type 0) where
  keeping :
      (Q : A → S → Type 0) (R : E → S → Type 0) (r : Result E A) (s : S)
      → ((a : A) → P s → Q a s)
      → ((e : E) → P s → R e s)
      → P s
      → Outcome Q R r s
  keeping Q R (ok a) s q r h = q a h
  keeping Q R (err e) s q r h = r e h

  pub Keeps→Triple :
      (Q : A → S → Type 0) (R : E → S → Type 0) (m : Exec S E A)
      → Keeps P m
      → ((a : A) (s : S) → P s → Q a s)
      → ((e : E) (s : S) → P s → R e s)
      → Triple P Q R m
  Keeps→Triple Q R m h q r = record {
    at = λ s p. keeping Q R (m s).0 (m s).1 (λ a. q a (m s).1) (λ e. r e (m s).1) (h.at s p);
  }

  kept : (r : Result E A) (s : S) → Outcome (λ a. P) (λ e. P) r s → P s
  kept (ok a) s h = h
  kept (err e) s h = h

  pub Triple→Keeps : (m : Exec S E A) → Triple P (λ a. P) (λ e. P) m → Keeps P m
  Triple→Keeps m h = record { at = λ s p. kept (m s).0 (m s).1 (h.at s p) }

pub ruleset keeps_rules = (Keeps-if, Keeps-bind)
