-- ===== src/Orchestrator/EventBus/Streams.antt =====
-- What a subscriber that does not read sees of a stream of events.
use oikos.Common.{
  ℕ, zero, suc, ◌≤◌, String, ◌≡◌, ◌≢◌, refl, Bool, List, [], ◌∷◌, ◌++◌, arith, ltb, length, All,
  Bool-cases, inl, inr, if◌then◌else◌,
}
use mathlib.Core.List.{append-nil, append_assoc}
use oikos.Orchestrator.EventBus.{Event, EventBus, capacity, offer, publish, publish_all}
use oikos.Orchestrator.EventBus.Invariant.{IsConsistent, publish-IsConsistent}
use oikos.Orchestrator.EventBus.Delivery.{hears, publish-buffer}

-- The first `n` events.
abbrev pub take : ℕ → List Event → List Event
take zero evs = []
take (suc n) [] = []
take (suc n) (ev ∷ evs) = ev ∷ take n evs

-- The events of the stream whose kind passes the test.
abbrev pub heard : (String → Bool) → List Event → List Event
heard wanted [] = []
heard wanted (ev ∷ evs) = let rest = heard wanted evs in if wanted ev.kind then ev ∷ rest else rest

take_all : (n : ℕ) (evs : List Event) → length evs ≤ n → take n evs ≡ evs
take_all zero [] h = refl
take_all zero (ev ∷ evs) h = elim h [ ]
take_all (suc n) [] h = refl
take_all (suc n) (ev ∷ evs) h = ground (arith, take_all n evs)

take_full : (n : ℕ) (xs ys : List Event) → length xs ≡ n → take n (xs ++ ys) ≡ xs
take_full zero [] ys h = refl
take_full zero (x ∷ xs) ys h = absurd (omega arith)
take_full (suc n) [] ys h = absurd (omega arith)
take_full (suc n) (x ∷ xs) ys h = ground (arith, take_full n xs ys)

-- One offer, and then the rest of the stream.
take-offer :
    (ev : Event) (waiting rest : List Event)
    → length waiting ≤ capacity
    → take capacity (offer ev waiting ++ rest) ≡ take capacity (waiting ++ ev ∷ rest)
unfolding offer
take-offer ev waiting rest h = elim (Bool-cases (ltb (length waiting) capacity)) [
  | inl room ↦ rw (room, append_assoc)
  | inr full ↦ rw (
    full,
    take_full capacity waiting rest (ground arith),
    take_full capacity waiting (ev ∷ rest) (ground arith),
  )
]

-- A channel that is not read while a stream of events is published holds what it held, followed by
-- the events that it is registered for in their order, cut off at its capacity: a slow consumer
-- loses the newest events and never the oldest.
pub publish_all-buffer :
    (evs : List Event) (b : EventBus) (c : ℕ)
    → IsConsistent b
    → All (λ ev. ev.kind ≢ "*") evs
    → (publish_all evs b).buffer c ≡ take capacity (b.buffer c ++ heard (hears b c) evs)
unfolding publish_all publish
publish_all-buffer [] b c ok named =
    rw append-nil (rw (take_all capacity (b.buffer c) (ok.bounded c)))
publish_all-buffer (ev ∷ evs) b c ok named =
    let rest = publish_all-buffer evs (publish ev b) c (publish-IsConsistent ev b ok) named.1 in
    ground (
      arith,
      rest,
      publish-buffer ev b ok named.0 c,
      take-offer ev (b.buffer c) (heard (hears b c) evs) (ok.bounded c),
    )
