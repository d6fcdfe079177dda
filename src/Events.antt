-- ===== src/Events.antt =====
-- internal/engine/events.go: subscriptions to changes. Subscriptions are shared between the bus and
-- their clients, so they live in a heap and the bus holds pointers. A panic of Go is no result.
pub mod Subscriptions
pub mod Loops
pub mod Keeps
pub mod Subscribes
pub mod Runs
pub mod Tests
use acorde.Base.{
  ℕ, suc, ◌+◌, Bool, true, false, not, ◌&&◌, Option, none, some, List, [], ◌∷◌, ◌++◌, ◌==◌,
  if◌then◌else◌,
}
use acorde.Base.Equality.{nat_eq, list_eq, list_beq}
use acorde.Base.Members.{mem}
use acorde.GoMap
use acorde.GoMap.{GoMap, get, put}
use acorde.Events.Subscriptions.{
  Event, SubscriptionOptions, Subscription, new_subscription, close, send,
}

-- the address of a subscription
abbrev pub Pointer : Type 0
Pointer = ℕ

-- the pointers of the bus, all subscriptions that were made, and the next free address
pub record EventBus : Type 0 where
  pub subs : List Pointer
  pub heap : GoMap Pointer Subscription
  pub next : Pointer

abbrev pub new_event_bus : EventBus
new_event_bus = record { subs = []; heap = GoMap.empty; next = 0 }

unfoldable pub subscribe_with_options : EventBus → SubscriptionOptions → EventBus × Pointer
subscribe_with_options b opts = (
  record {
    subs = b.subs ++ (b.next ∷ []);
    heap = put b.heap b.next (new_subscription 100 opts);
    next = suc b.next;
  },
  b.next,
)

unfoldable subscribe : EventBus → EventBus × Pointer
unfolding subscribe_with_options
subscribe b = subscribe_with_options b (record { events = []; entry_type = [] })

-- a method that changes the subscription at an address
unfoldable pub at_pointer :
    (Subscription → Option Subscription)
    → GoMap Pointer Subscription
    → Pointer
    → Option (GoMap Pointer Subscription)
at_pointer f heap p = elim (get heap p) [
  | none ↦ none
  | some s ↦ elim (f s) [ none ↦ none | some t ↦ some (put heap p t) ]
]

-- for _, sub := range b.subs { f(sub) }
unfoldable pub each_pointer :
    (Subscription → Option Subscription)
    → GoMap Pointer Subscription
    → List Pointer
    → Option (GoMap Pointer Subscription)
unfolding at_pointer
each_pointer f heap [] = some heap
each_pointer f heap (p ∷ rest) = elim (at_pointer f heap p) [
  | none ↦ none
  | some new ↦ each_pointer f new rest
]

unfoldable pub publish : EventBus → Event → Option EventBus
publish b event = elim (each_pointer (λ s. send s event) b.heap b.subs) [
  | none ↦ none
  | some heap ↦ some (record b { heap = heap })
]

-- append(b.subs[:i], b.subs[i+1:]...) at the first index that holds `p`
unfoldable pub without : Pointer → List Pointer → List Pointer
without p [] = []
without p (q ∷ rest) = let kept = without p rest in if q == p then rest else q ∷ kept

unfoldable pub unsubscribe : EventBus → Pointer → Option EventBus
unsubscribe b p =
    if mem p b.subs
    then elim (at_pointer close b.heap p) [
      | none ↦ none
      | some heap ↦ some (record b { subs = without p b.subs; heap = heap })
    ]
    else some b

unfoldable pub close_bus : EventBus → Option EventBus
close_bus b = elim (each_pointer close b.heap b.subs) [
  | none ↦ none
  | some heap ↦ some (record b { subs = []; heap = heap })
]
