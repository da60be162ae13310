-- ===== src/Common/Paths/Plain.antt =====
-- Paths of plain components, which path/filepath leaves as they are.
use mathlib.Core.Path.{◌≡◌, refl, ap, ◌∙◌, subst}
use mathlib.Core.Logic.{inl, inr}
use mathlib.Core.Bool.{Bool, true, false, not, ◌||◌}
use mathlib.Core.List.{List, [], ◌∷◌, ◌++◌, map}
use native.Mathlib.Omega.{arith}
use Prim.Native.String.{String}
use text.Mathlib.TextEquality.{eq_iff}
use oikos.Common.Tests.{if◌then◌else◌, Bool-cases}
use oikos.Common.Lists.{All, All-append}
use oikos.Common.Text.{◌=?◌, =?_refl}
use oikos.Common.Paths.{FilePath, up, step, clean_onto, backwards, clean, join, rel, leads_out}

-- A component that stands for an entry: not "", "." or "..".
abbrev pub is_plain : String → Bool
is_plain part = not (part =? "" || part =? "." || part =? "..")

abbrev pub IsPlain : List String → Type 0
IsPlain parts = All (λ part. is_plain part ≡ true) parts

step-IsPlain :
    (part : String) (stack : List String) → IsPlain stack → IsPlain (step true part stack)
step-IsPlain part stack h = elim (Bool-cases (part =? "" || part =? ".")) [
  | inl skipped ↦ rw skipped h
  | inr kept ↦ rw kept (elim (Bool-cases (part =? "..")) [
    | inl upwards ↦ rw upwards (rises stack h)
    | inr plain ↦ rw plain (ground (arith, kept, plain), h)
  ])
]
  where
    rises : (below : List String) → IsPlain below → IsPlain (up true below)
    rises [] k = tt
    rises (top ∷ below) k = elim (Bool-cases (top =? "..")) [
      | inl dots ↦ absurd (ground (arith, dots, k.0))
      | inr plain ↦ rw plain k.1
    ]

clean_onto-IsPlain :
    (stack parts : List String) → IsPlain stack → IsPlain (clean_onto true stack parts)
unfolding clean_onto
clean_onto-IsPlain stack [] h = h
clean_onto-IsPlain stack (part ∷ parts) h =
    clean_onto-IsPlain (step true part stack) parts (step-IsPlain part stack h)

backwards-IsPlain :
    (parts done : List String) → IsPlain parts → IsPlain done → IsPlain (backwards parts done)
unfolding backwards
backwards-IsPlain [] done h k = k
backwards-IsPlain (part ∷ parts) done h k = backwards-IsPlain parts (part ∷ done) h.1 (h.0, k)

pub join-IsPlain : (root parts : List String) → IsPlain (join root parts)
unfolding join clean
join-IsPlain root parts =
    backwards-IsPlain (clean_onto true [] (root ++ parts)) []
      (clean_onto-IsPlain [] (root ++ parts) tt) tt

clean_onto-plain :
    (stack parts : List String)
    → IsPlain parts
    → clean_onto true stack parts ≡ backwards parts stack
unfolding clean_onto backwards
clean_onto-plain stack [] h = refl
clean_onto-plain stack (part ∷ parts) h =
    ap (λ s. clean_onto true s parts) pushed ∙ clean_onto-plain (part ∷ stack) parts h.1
  where
    pushed : step true part stack ≡ part ∷ stack
    pushed = ground (arith, h.0)

backwards-backwards :
    (parts done last : List String)
    → backwards (backwards parts done) last ≡ backwards done (parts ++ last)
unfolding backwards
backwards-backwards [] done last = refl
backwards-backwards (part ∷ parts) done last = backwards-backwards parts (part ∷ done) last

pub append_nil : (parts : List String) → parts ++ [] ≡ parts
append_nil [] = refl
append_nil (part ∷ parts) = ap (λ r. part ∷ r) (append_nil parts)

pub IsPlain-back : (front back : List String) → IsPlain (front ++ back) → IsPlain back
IsPlain-back [] back h = h
IsPlain-back (part ∷ front) back h = IsPlain-back front back h.1

pub IsPlain-snoc :
    (front : List String) (part : String)
    → IsPlain front
    → is_plain part ≡ true
    → IsPlain (front ++ part ∷ [])
IsPlain-snoc front part h k = All-append _ front (part ∷ []) h (k, tt)

pub join-plain :
    (front : List String) (part : String)
    → IsPlain front
    → is_plain part ≡ true
    → join front (part ∷ []) ≡ front ++ part ∷ []
unfolding join clean
join-plain front part h k =
    ap (λ s. backwards s [])
      (clean_onto-plain [] (front ++ part ∷ []) (IsPlain-snoc front part h k))
    ∙ backwards-backwards (front ++ part ∷ []) [] []
    ∙ ends (front ++ part ∷ [])
  where
    ends : (parts : List String) → backwards [] (parts ++ []) ≡ parts
    ends parts = unfold backwards in append_nil parts

pub append-rel :
    (base target : FilePath)
    → leads_out (rel base target) ≡ false
    → base ++ rel base target ≡ target
unfolding rel
append-rel [] target h = refl
append-rel (a ∷ base) [] h = ground (arith, h, =?_refl "..")
append-rel (a ∷ base) (b ∷ target) h = elim (Bool-cases (a =? b)) [
  | inl same ↦ rw same (
      ap (λ r. a ∷ r) (append-rel base target (inside same h))
      ∙ ap (λ c. c ∷ target) (ground (arith, same, eq_iff a b)))
  | inr other ↦ absurd (ground (arith, h, other, =?_refl ".."))
]
  where
    inside :
        (a =? b) ≡ true
        → leads_out
            (if a =? b then rel base target else (".." ∷ map (λ part. "..") base) ++ b ∷ target)
          ≡ false
        → leads_out (rel base target) ≡ false
    inside same k =
        subst
          (λ (c : Bool).
            leads_out
              (if c then rel base target else (".." ∷ map (λ part. "..") base) ++ b ∷ target)
            ≡ false)
          same k
