-- ===== src/Orchestrator/EventBus/Members.antt =====
-- Lists of channels: membership as a Boolean, and lists without a repetition.
use oikos.Common.{
  ℕ, ◌≡◌, refl, Bool, true, false, ◌||◌, List, [], ◌∷◌, ◌++◌, arith, ◌==◌, if◌then◌else◌,
}
use oikos.Orchestrator.EventBus.{remove_first}

abbrev pub member : ℕ → List ℕ → Bool
member c [] = false
member c (d ∷ ds) = d == c || member c ds

abbrev pub Distinct : List ℕ → Type 0
Distinct [] = Unit
Distinct (c ∷ cs) = (member c cs ≡ false) × Distinct cs

pub member-append : (c : ℕ) (xs ys : List ℕ) → member c (xs ++ ys) ≡ (member c xs || member c ys)
member-append c [] ys = refl
member-append c (x ∷ xs) ys = ground (arith, member-append c xs ys)

pub Distinct-append :
    (xs ys : List ℕ)
    → Distinct xs
    → Distinct ys
    → ((c : ℕ) → member c xs ≡ true → member c ys ≡ false)
    → Distinct (xs ++ ys)
Distinct-append [] ys dx dy apart = dy
Distinct-append (x ∷ xs) ys dx dy apart = (
  ground (arith, member-append x xs ys, apart x),
  Distinct-append xs ys dx.1 dy (λ c m. apart c (ground arith)),
)

-- In a list without repetitions only the removed channel goes.
pub member-remove_first :
    (c d : ℕ) (xs : List ℕ)
    → Distinct xs
    → member d (remove_first c xs) ≡ (if d == c then false else member d xs)
unfolding remove_first
member-remove_first c d [] h = ground arith
member-remove_first c d (x ∷ xs) h = ground (arith, member-remove_first c d xs)

pub Distinct-remove_first : (c : ℕ) (xs : List ℕ) → Distinct xs → Distinct (remove_first c xs)
unfolding remove_first
Distinct-remove_first c [] h = tt
Distinct-remove_first c (x ∷ xs) h =
    ground (arith, member-remove_first c x xs, Distinct-remove_first c xs)
