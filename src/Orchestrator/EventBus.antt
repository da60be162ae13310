-- ===== src/Orchestrator/EventBus.antt =====
-- internal/orchestrator/eventbus.go: publish and subscribe over buffered channels. A channel is a
-- number with the list of events that wait in it. Each function that the source runs under the lock
-- is one step; `Publish` sends on buffered channels with a default case and so never waits.
pub mod Members
pub mod Delivery
pub mod Invariant
pub mod Streams
pub mod Calls
use oikos.Common.{
  ℕ, ◌+◌, String, Bool, true, false, List, [], ◌∷◌, ◌++◌, ltb, ◌==◌, ◌=?◌, length, if◌then◌else◌,
}

pub record Event : Type 0 where
  pub kind : String  -- the field Type
  pub server_id : String

pub record EventBus : Type 0 where
  pub next : ℕ  -- the first channel that has not been made
  pub subs : String → List ℕ
  pub buffer : ℕ → List Event
  pub cancelled : ℕ → Bool  -- the channel's `once` has run and its `done` is closed

abbrev pub capacity : ℕ
capacity = 64

unfoldable pub new_event_bus : EventBus
new_event_bus = record { next = 0; subs = λ t. []; buffer = λ c. []; cancelled = λ c. false }

abbrev pub set_topic : String → List ℕ → (String → List ℕ) → String → List ℕ
set_topic t cs subs u = if t =? u then cs else subs u

abbrev pub set_channel {ℓ} : {A : Type ℓ} → ℕ → A → (ℕ → A) → ℕ → A
set_channel c v f d = if c == d then v else f d

-- Subscribe, and subscribeWithDone without its cancel function.
unfoldable pub subscribe : String → EventBus → ℕ × EventBus
subscribe t b = (
  b.next,
  record b {
    next = b.next + 1;
    subs = set_topic t (b.subs t ++ b.next ∷ []) b.subs;
    buffer = set_channel b.next [] b.buffer;
    cancelled = set_channel b.next false b.cancelled;
  },
)

-- The loop of `cancel` that takes out the first entry that is this channel.
unfoldable pub remove_first : ℕ → List ℕ → List ℕ
remove_first c [] = []
remove_first c (d ∷ ds) = if d == c then ds else d ∷ remove_first c ds

-- The cancel function that subscribeWithDone returns for the channel `c` of the topic `t`.
unfoldable pub cancel : String → ℕ → EventBus → EventBus
cancel t c b = if b.cancelled c then b else record b {
  subs = set_topic t (remove_first c (b.subs t)) b.subs;
  cancelled = set_channel c true b.cancelled;
}

-- `select { case ch <- ev: default: }`
unfoldable pub offer : Event → List Event → List Event
offer ev waiting = if ltb (length waiting) capacity then waiting ++ ev ∷ [] else waiting

unfoldable pub send_all : Event → List ℕ → (ℕ → List Event) → ℕ → List Event
send_all ev [] buffer = buffer
send_all ev (c ∷ cs) buffer = send_all ev cs (set_channel c (offer ev (buffer c)) buffer)

unfoldable pub publish : Event → EventBus → EventBus
publish ev b = record b { buffer = send_all ev (b.subs ev.kind ++ b.subs "*") b.buffer }

unfoldable pub publish_all : List Event → EventBus → EventBus
publish_all [] b = b
publish_all (ev ∷ evs) b = publish_all evs (publish ev b)
