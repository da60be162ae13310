-- ===== src/Orchestrator/EventBus/Delivery.antt =====
-- Who receives a published event.
use oikos.Common.{
  ℕ, String, ◌≡◌, ◌≢◌, refl, Bool, true, false, ◌||◌, List, [], ◌∷◌, ◌++◌, arith, eq_iff,
  Bool-cases, inl, inr, if◌then◌else◌,
}
use oikos.Orchestrator.EventBus.{Event, EventBus, set_channel, cancel, offer, send_all, publish}
use oikos.Orchestrator.EventBus.Members.{
  member, Distinct, member-append, Distinct-append, member-remove_first,
}
use oikos.Orchestrator.EventBus.Invariant.{IsConsistent, cancel-IsConsistent}

send_all-absent :
    (ev : Event) (cs : List ℕ) (buffer : ℕ → List Event) (c : ℕ)
    → member c cs ≡ false
    → send_all ev cs buffer c ≡ buffer c
unfolding send_all
send_all-absent ev [] buffer c h = refl
send_all-absent ev (d ∷ cs) buffer c h =
    ground (arith, send_all-absent ev cs (set_channel d (offer ev (buffer d)) buffer) c)

send_all-once :
    (ev : Event) (cs : List ℕ) (buffer : ℕ → List Event) (c : ℕ)
    → Distinct cs
    → send_all ev cs buffer c ≡ (if member c cs then offer ev (buffer c) else buffer c)
unfolding send_all
send_all-once ev [] buffer c h = refl
send_all-once ev (d ∷ cs) buffer c h = ground (
  arith,
  send_all-once ev cs (set_channel d (offer ev (buffer d)) buffer) c,
  send_all-absent ev cs (set_channel d (offer ev (buffer d)) buffer) c,
)

-- `c` receives the events of the kind `k`.
abbrev pub hears : EventBus → ℕ → String → Bool
hears b c k = member c (b.subs k) || member c (b.subs "*")

module _ (ev : Event) (b : EventBus) (ok : IsConsistent b) (named : ev.kind ≢ "*") where
  targets-Distinct : Distinct (b.subs ev.kind ++ b.subs "*")
  targets-Distinct =
      Distinct-append (b.subs ev.kind) (b.subs "*") (ok.distinct ev.kind) (ok.distinct "*") λ c m.
        elim (Bool-cases (member c (b.subs "*"))) [
          | inl both ↦ absurd (named (ok.one_topic ev.kind "*" c m both))
          | inr apart ↦ apart
        ]

  -- On a consistent bus an event of a kind other than "*" is offered exactly once to each channel
  -- that is registered for its kind or for "*", and every other channel is left alone.
  pub publish-buffer :
      (c : ℕ)
      → (publish ev b).buffer c ≡ (if hears b c ev.kind then offer ev (b.buffer c) else b.buffer c)
  unfolding publish
  publish-buffer c = ground (
    arith,
    member-append c (b.subs ev.kind) (b.subs "*"),
    send_all-once ev (b.subs ev.kind ++ b.subs "*") b.buffer c targets-Distinct,
  )

hears-cancel_self :
    (t k : String) (c : ℕ) (b : EventBus)
    → IsConsistent b
    → b.cancelled c ≡ false
    → member c (b.subs t) ≡ true
    → member c ((cancel t c b).subs k) ≡ false
unfolding cancel
hears-cancel_self t k c b ok live here =
    ground
      (arith, eq_iff t k, member-remove_first c c (b.subs t) (ok.distinct t), ok.one_topic t k c)

member-cancel_ne :
    (t k : String) (c d : ℕ) (b : EventBus)
    → IsConsistent b
    → c ≢ d
    → member d ((cancel t c b).subs k) ≡ member d (b.subs k)
unfolding cancel
member-cancel_ne t k c d b ok h =
    ground (arith, eq_iff t k, member-remove_first c d (b.subs t) (ok.distinct t))

buffer-cancel : (t : String) (c d : ℕ) (b : EventBus) → (cancel t c b).buffer d ≡ b.buffer d
unfolding cancel
buffer-cancel t c d b = ground arith

-- Once a live subscription is cancelled, publishing an event adds nothing to its channel, and what
-- any other channel receives is what it would have received without the cancellation.
pub publish-cancel :
    (ev : Event) (t : String) (c d : ℕ) (b : EventBus)
    → IsConsistent b
    → ev.kind ≢ "*"
    → b.cancelled c ≡ false
    → member c (b.subs t) ≡ true
    → c ≢ d
    → ((publish ev (cancel t c b)).buffer c ≡ b.buffer c)
      × ((publish ev (cancel t c b)).buffer d ≡ (publish ev b).buffer d)
publish-cancel ev t c d b ok named live here apart = (
  ground (
    arith,
    publish-buffer ev (cancel t c b) (cancel-IsConsistent b ok t c) named c,
    hears-cancel_self t ev.kind c b ok live here,
    hears-cancel_self t "*" c b ok live here,
    buffer-cancel t c c b,
  ),
  ground (
    arith,
    publish-buffer ev (cancel t c b) (cancel-IsConsistent b ok t c) named d,
    publish-buffer ev b ok named d,
    member-cancel_ne t ev.kind c d b ok apart,
    member-cancel_ne t "*" c d b ok apart,
    buffer-cancel t c d b,
  ),
)
