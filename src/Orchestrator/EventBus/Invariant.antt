-- ===== src/Orchestrator/EventBus/Invariant.antt =====
-- What holds of the bus between two calls, and that every call keeps it.
use oikos.Common.{
  ℕ, ◌≤◌, ◌<◌, String, ◌≡◌, refl, true, false, List, [], ◌∷◌, ◌++◌, arith, ◌=?◌, eq_iff, length,
  length-append, Bool-cases, inl, inr,
}
use oikos.Orchestrator.EventBus.{
  Event, EventBus, capacity, new_event_bus, set_channel, subscribe, cancel, offer, send_all,
  publish,
}
use oikos.Orchestrator.EventBus.Members.{
  member, Distinct, member-append, Distinct-append, member-remove_first, Distinct-remove_first,
}

-- Every registered channel was made, no topic lists a channel twice, no channel is registered under
-- two topics, and no channel holds more events than its capacity.
pub record IsConsistent (b : EventBus) : Type 0 where
  pub made : (t : String) (c : ℕ) → member c (b.subs t) ≡ true → c < b.next
  pub distinct : (t : String) → Distinct (b.subs t)
  pub one_topic :
      (t u : String) (c : ℕ) → member c (b.subs t) ≡ true → member c (b.subs u) ≡ true → t ≡ u
  pub bounded : (c : ℕ) → length (b.buffer c) ≤ capacity

pub new_event_bus-IsConsistent : IsConsistent new_event_bus
unfolding new_event_bus
new_event_bus-IsConsistent = record {
  made = λ t c h. cc;
  distinct = λ t. tt;
  one_topic = λ t u c h k. cc;
  bounded = λ c. omega arith;
}

module _ (b : EventBus) (ok : IsConsistent b) where
  not_made : (t : String) (c : ℕ) → b.next ≤ c → member c (b.subs t) ≡ false
  not_made t c h = elim (Bool-cases (member c (b.subs t))) [
    | inl m ↦ absurd (omega (arith, ok.made t c m))
    | inr m ↦ m
  ]

  subscribe-made :
      (t u : String) (c : ℕ)
      → member c ((subscribe t b).1.subs u) ≡ true
      → c < (subscribe t b).1.next
  unfolding subscribe
  subscribe-made t u c h =
      ground (arith, member-append c (b.subs t) (b.next ∷ []), ok.made t c, ok.made u c)

  subscribe-Distinct : (t u : String) → Distinct ((subscribe t b).1.subs u)
  unfolding subscribe
  subscribe-Distinct t u = elim (Bool-cases (t =? u)) [
    | inl same ↦ rw same (
        Distinct-append (b.subs t) (b.next ∷ []) (ok.distinct t) (refl, tt)
          (λ c m. ground (arith, ok.made t c m)))
    | inr other ↦ rw other (ok.distinct u)
  ]

  subscribe-topics :
      (t u v : String) (c : ℕ)
      → member c ((subscribe t b).1.subs u) ≡ true
      → member c ((subscribe t b).1.subs v) ≡ true
      → u ≡ v
  unfolding subscribe
  subscribe-topics t u v c h k = ground (
    arith,
    member-append c (b.subs t) (b.next ∷ []),
    eq_iff t u,
    eq_iff t v,
    ok.made u c,
    ok.made v c,
    ok.one_topic u v c,
    ok.one_topic t v c,
    ok.one_topic u t c,
  )

  -- A subscription keeps the invariant.
  pub subscribe-IsConsistent : (t : String) → IsConsistent (subscribe t b).1
  subscribe-IsConsistent t = record {
    made = subscribe-made t;
    distinct = subscribe-Distinct t;
    one_topic = subscribe-topics t;
    bounded = λ c. unfold subscribe in ground (arith, ok.bounded c);
  }

  cancel-Distinct : (t u : String) (c : ℕ) → Distinct ((cancel t c b).subs u)
  unfolding cancel
  cancel-Distinct t u c = elim (Bool-cases (b.cancelled c)) [
    | inl done ↦ rw done (ok.distinct u)
    | inr live ↦ rw live (elim (Bool-cases (t =? u)) [
      | inl same ↦ rw same (Distinct-remove_first c (b.subs t) (ok.distinct t))
      | inr other ↦ rw other (ok.distinct u)
    ])
  ]

  -- A cancelled subscription leaves no channel behind that was not there.
  pub member-cancel :
      (t u : String) (c d : ℕ)
      → member d ((cancel t c b).subs u) ≡ true
      → member d (b.subs u) ≡ true
  unfolding cancel
  member-cancel t u c d h =
      ground (arith, eq_iff t u, member-remove_first c d (b.subs t) (ok.distinct t))

  -- Cancelling a subscription keeps the invariant.
  pub cancel-IsConsistent : (t : String) (c : ℕ) → IsConsistent (cancel t c b)
  cancel-IsConsistent t c = record {
    made = λ u d h. unfold cancel in ground (arith, ok.made u d (member-cancel t u c d h));
    distinct = λ u. cancel-Distinct t u c;
    one_topic = λ u v d h k. ok.one_topic u v d (member-cancel t u c d h) (member-cancel t v c d k);
    bounded = λ d. unfold cancel in ground (arith, ok.bounded d);
  }

offer-bounded :
    (ev : Event) (waiting : List Event)
    → length waiting ≤ capacity
    → length (offer ev waiting) ≤ capacity
unfolding offer
offer-bounded ev waiting h = ground (arith, length-append waiting (ev ∷ []))

send_all-bounded :
    (ev : Event) (cs : List ℕ) (buffer : ℕ → List Event)
    → ((c : ℕ) → length (buffer c) ≤ capacity)
    → (c : ℕ) → length (send_all ev cs buffer c) ≤ capacity
unfolding send_all
send_all-bounded ev [] buffer h = h
send_all-bounded ev (d ∷ cs) buffer h =
    send_all-bounded ev cs (set_channel d (offer ev (buffer d)) buffer)
      (λ c. ground (arith, h c, offer-bounded ev (buffer d) (h d)))

-- Publishing keeps the invariant: no channel ever holds more than its capacity.
pub publish-IsConsistent :
    (ev : Event) (b : EventBus) → IsConsistent b → IsConsistent (publish ev b)
unfolding publish
publish-IsConsistent ev b ok = record {
  made = ok.made;
  distinct = ok.distinct;
  one_topic = ok.one_topic;
  bounded = send_all-bounded ev (b.subs ev.kind ++ b.subs "*") b.buffer ok.bounded;
}
