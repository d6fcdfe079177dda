-- ===== src/Events/Keeps.antt =====
-- What publishing and closing do to every subscription of the bus, and that they never panic.
use acorde.Base.{
  ◌<◌, ◌≡◌, refl, sym, ◌∙◌, Bool, true, false, Option, none, some, inl, inr, Bool-cases, List, [],
  arith,
}
use acorde.Base.Equality.{nat_eq}
use acorde.Base.Members.{mem}
use acorde.GoMap.{get, assoc}
use acorde.Events.Subscriptions.{
  Subscription, Event, delivered, shut, send, close, send_lem, close_lem, delivered-IsSubscription,
  shut-IsSubscription,
}
use acorde.Events.Loops.{Heap, Sound, Held, Once, changed, each_pointer_lem}
use acorde.Events.{Pointer, EventBus, new_event_bus, publish, close_bus}

-- The bus holds every pointer once and all lead to a subscription; every subscription that was made
-- satisfies its invariant and stands below the next free address.
pub record IsEventBus (b : EventBus) : Type 0 where
  pub once : Once b.subs
  pub held : Held b.subs b.heap
  pub sound : Sound b.heap
  pub fresh : (p : Pointer) (s : Subscription) → get b.heap p ≡ some s → p < b.next

pub new_event_bus-IsEventBus : IsEventBus new_event_bus
unfolding assoc
new_event_bus-IsEventBus = record {
  once = tt;
  held = λ p m. absurd (cc);
  sound = λ p s h. absurd (cc);
  fresh = λ p s h. absurd (cc);
}

-- a change of subscriptions in place keeps what the bus holds
Held-changed :
    (g : Subscription → Subscription) (ps ks : List Pointer) (heap new : Heap)
    → Held ks heap
    → ((q : Pointer) → get new q ≡ changed g (mem q ps) (get heap q))
    → Held ks new
Held-changed g ps ks heap new h at q m =
    let (s, there) = h q m in
    elim (Bool-cases (mem q ps)) [
      | inl c ↦ (g s, at q ∙ ground (arith, c, there))
      | inr c ↦ (s, at q ∙ ground (arith, c, there))
    ]

pub fresh_changed :
    (g : Subscription → Subscription) (c : Bool) (o : Option Subscription) (s : Subscription)
    → changed g c o ≡ some s
    → (t : Subscription) × (o ≡ some t)
fresh_changed g false o s h = (s, h)
fresh_changed g true none s h = absurd (cc (h))
fresh_changed g true (some t) s h = (t, refl)

-- On a bus that keeps its invariant, publishing never panics and keeps it: every subscription of
-- the bus that is open, asks for the event and has room gets it last, and every other subscription
-- is as before.
pub publish_lem :
    (b : EventBus) (event : Event)
    → IsEventBus b
    → (b' : EventBus) × (publish b event ≡ some b')
      × IsEventBus b'
      × (b'.subs ≡ b.subs)
      × ((q : Pointer)
          → get b'.heap q ≡ changed (λ s. delivered s event) (mem q b.subs) (get b.heap q))
unfolding publish
publish_lem b event h =
    let g = λ (s : Subscription). delivered s event in
    let (new, done, sound, at) =
      each_pointer_lem (λ s. send s event) g (λ s k. send_lem s event k)
        (λ s k. delivered-IsSubscription s event k) b.subs b.heap h.once h.sound h.held in
    (
      record b { heap = new },
      ground (arith, done),
      record {
        once = h.once;
        held = Held-changed g b.subs b.subs b.heap new h.held at;
        sound = sound;
        fresh = λ p s e.
            let (t, k) = fresh_changed g (mem p b.subs) (get b.heap p) s (sym (at p) ∙ e) in
            h.fresh p t k;
      },
      refl,
      at,
    )

-- On a bus that keeps its invariant, closing the bus never panics and keeps it: it closes every
-- subscription that it holds, and holds none after.
pub close_bus_lem :
    (b : EventBus)
    → IsEventBus b
    → (b' : EventBus) × (close_bus b ≡ some b')
      × IsEventBus b'
      × (b'.subs ≡ [])
      × ((q : Pointer) → get b'.heap q ≡ changed shut (mem q b.subs) (get b.heap q))
unfolding close_bus
close_bus_lem b h =
    let (new, done, sound, at) =
      each_pointer_lem close shut close_lem shut-IsSubscription b.subs b.heap h.once h.sound
        h.held in
    (
      record b { subs = []; heap = new },
      ground (arith, done),
      record {
        once = tt;
        held = λ p m. absurd (cc);
        sound = sound;
        fresh = λ p s e.
            let (t, k) = fresh_changed shut (mem p b.subs) (get b.heap p) s (sym (at p) ∙ e) in
            h.fresh p t k;
      },
      refl,
      at,
    )
