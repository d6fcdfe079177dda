-- ===== src/Events/Runs.antt =====
-- Everything that can happen to a bus of internal/engine/events.go, one call after another, and what
-- a subscriber receives.
use mathlib.Core.Path.{subst}
use acorde.Base.{
  ◌+◌, ◌≤◌, ◌≡◌, refl, sym, ◌∙◌, ap, true, false, Option, none, some, inl, inr, Bool-cases, List,
  [], ◌∷◌, ◌++◌, ◌==◌, ==_iff, if◌then◌else◌, arith, length,
}
use acorde.Base.Equality.{nat_eq}
use acorde.Base.Members.{mem}
use acorde.GoMap.{get, put}
use acorde.GoMap.Laws.{get-put}
use acorde.Events.Subscriptions.{
  Subscription, SubscriptionOptions, Event, Channel, Matching, IsSubscription, wants, delivered,
  length-++, shut, receive, close, close_lem, shut-IsSubscription,
}
use acorde.Events.Keeps.{IsEventBus, new_event_bus-IsEventBus, publish_lem, close_bus_lem}
use acorde.Events.Subscribes.{unsubscribe_lem, subscribe_lem}
use acorde.Events.{
  Pointer, EventBus, new_event_bus, subscribe_with_options, publish, unsubscribe, close_bus,
}

-- One call: of the bus, of the `Close` of a subscription, or a receive from its channel.
pub data Step : EventBus → EventBus → Type 0 where
  subscribed :
      (b : EventBus) (opts : SubscriptionOptions) → Step b (subscribe_with_options b opts).0
  published : (b b' : EventBus) (event : Event) → publish b event ≡ some b' → Step b b'
  unsubscribed : (b b' : EventBus) (p : Pointer) → unsubscribe b p ≡ some b' → Step b b'
  closed : (b b' : EventBus) → close_bus b ≡ some b' → Step b b'
  closed_by_client :
      (b : EventBus) (p : Pointer) (s t : Subscription)
      → get b.heap p ≡ some s
      → close s ≡ some t
      → Step b (record b { heap = put b.heap p t })
  received :
      (b : EventBus) (p : Pointer) (s : Subscription) (event : Event) (ch : Channel)
      → get b.heap p ≡ some s
      → receive s.ch ≡ some (event, ch)
      → Step b (record b { heap = put b.heap p (record s { ch = ch }) })

-- The buses that calls lead to from a new one.
pub data Run : EventBus → Type 0 where
  start : Run new_event_bus
  then_step : {b b' : EventBus} → Run b → Step b b' → Run b'

receive-IsSubscription :
    (s : Subscription) (event : Event) (ch : Channel)
    → IsSubscription s
    → receive s.ch ≡ some (event, ch)
    → IsSubscription (record s { ch = ch })
unfolding receive
receive-IsSubscription s event ch h e =
    elim s.ch.buffer as (λ l. s.ch.buffer ≡ l → IsSubscription (record s { ch = ch })) [
      | [] ↦ λ l. absurd (ground (arith, e, l))
      | x ∷ rest ↦ λ l.
          let same : record (s.ch) { buffer = rest } ≡ ch = ground (arith, e, l) in
          subst (λ c. IsSubscription (record s { ch = c })) same
            (record {
              flagged = h.flagged;
              within = ground (arith, l, h.within);
              wanted = (subst (Matching s.filter) l h.wanted).1;
            })
    ]
      refl

put_changed :
    (b : EventBus) (p : Pointer) (s t : Subscription)
    → IsEventBus b
    → get b.heap p ≡ some s
    → IsSubscription t
    → IsEventBus (record b { heap = put b.heap p t })
put_changed b p s t h there k = record {
  once = h.once;
  held = λ q m.
      let (u, e) = h.held q m in
      elim (Bool-cases (p == q)) [
        | inl c ↦ (t, get-put b.heap p q t ∙ ground (arith, c))
        | inr c ↦ (u, get-put b.heap p q t ∙ ground (arith, c, e))
      ];
  sound = λ q u e. elim (Bool-cases (p == q)) [
    | inl c ↦ subst IsSubscription {x = t} {y = u} (ground (arith, e, c, get-put b.heap p q t)) k
    | inr c ↦ h.sound q u (ground (arith, e, c, get-put b.heap p q t))
  ];
  fresh = λ q u e. elim (Bool-cases (p == q)) [
    | inl c ↦ ground (arith, c, ==_iff p q, h.fresh p s there)
    | inr c ↦ h.fresh q u (ground (arith, e, c, get-put b.heap p q t))
  ];
}

same_bus :
    (b' c : EventBus) (o : Option EventBus)
    → o ≡ some b'
    → o ≡ some c
    → IsEventBus c
    → IsEventBus b'
same_bus b' c o e d h = subst IsEventBus {x = c} {y = b'} (ground (arith, e, d)) h

Step-IsEventBus : (b b' : EventBus) → Step b b' → IsEventBus b → IsEventBus b'
Step-IsEventBus _ _ (subscribed b opts) h = (subscribe_lem b opts h).0
Step-IsEventBus _ _ (published b b' event e) h =
    let (c, done, k, _, _) = publish_lem b event h in same_bus b' c (publish b event) e done k
Step-IsEventBus _ _ (unsubscribed b b' p e) h =
    let (c, done, k, _, _) = unsubscribe_lem b p h in same_bus b' c (unsubscribe b p) e done k
Step-IsEventBus _ _ (closed b b' e) h =
    let (c, done, k, _, _) = close_bus_lem b h in same_bus b' c (close_bus b) e done k
Step-IsEventBus _ _ (closed_by_client b p s t there e) h =
    let same : shut s ≡ t = ground (arith, e, close_lem s (h.sound p s there)) in
    put_changed b p s t h there
      (subst IsSubscription same (shut-IsSubscription s (h.sound p s there)))
Step-IsEventBus _ _ (received b p s event ch there e) h =
    put_changed b p s (record s { ch = ch }) h there
      (receive-IsSubscription s event ch (h.sound p s there) e)

-- Whatever was called, the bus is sound: no subscription is held twice, and every one that was made
-- has its channel closed exactly when it is closed, at most as many events as fit, and only events
-- that it asked for.
pub Run-IsEventBus : (b : EventBus) → Run b → IsEventBus b
Run-IsEventBus _ start = new_event_bus-IsEventBus
Run-IsEventBus _ (then_step {b = b} {b' = c} run step) =
    Step-IsEventBus b c step (Run-IsEventBus b run)

-- the events of a list that are asked for, in their order
abbrev pub asked : SubscriptionOptions → List Event → List Event
asked f [] = []
asked f (e ∷ es) = if wants f e then e ∷ asked f es else asked f es

abbrev pub publish_all : EventBus → List Event → Option EventBus
publish_all b [] = some b
publish_all b (e ∷ es) = elim (publish b e) [ none ↦ none | some b' ↦ publish_all b' es ]

append_event :
    (l : List Event) (e : Event) (es : List Event) → (l ++ (e ∷ [])) ++ es ≡ l ++ (e ∷ es)
append_event [] e es = refl
append_event (x ∷ l) e es = ap (λ r. x ∷ r) (append_event l e es)

append_nil : (l : List Event) → l ++ [] ≡ l
append_nil [] = refl
append_nil (x ∷ l) = ap (λ r. x ∷ r) (append_nil l)

-- On a bus that keeps its invariant, publishing events one after another never panics, and a
-- subscription of the bus that is open and has room for as many finds those that it asked for in
-- its channel, in their order, after what was there.
pub publish_all-delivers :
    (es : List Event) (b : EventBus) (q : Pointer) (s : Subscription)
    → IsEventBus b
    → mem q b.subs ≡ true
    → get b.heap q ≡ some s
    → s.closed ≡ false
    → length s.ch.buffer + length es ≤ s.ch.capacity
    → (b' : EventBus) × (publish_all b es ≡ some b')
      × IsEventBus b'
      × (get b'.heap q
          ≡ some (record s { ch = record (s.ch) { buffer = s.ch.buffer ++ asked s.filter es } }))
publish_all-delivers [] b q s h m there live room = (
  b,
  refl,
  h,
  there
      ∙ ap (λ l. some (record s { ch = record (s.ch) { buffer = l } }))
          (sym (append_nil s.ch.buffer)),
)
publish_all-delivers (e ∷ es) b q s h m there live room =
    let (c, done, k, same, at) = publish_lem b e h in
    let here : get c.heap q ≡ some (delivered s e) = at q ∙ ground (arith, m, there) in
    elim (Bool-cases (wants s.filter e)) [
      | inl w ↦
          let t : Subscription = record s {
            ch = record (s.ch) { buffer = s.ch.buffer ++ (e ∷ []) };
          } in
          let (b', all, j, last) =
            publish_all-delivers es c q t k (rw same m) (here ∙ ground (arith, w, live, room)) live
              (ground (arith, room, length-++ s.ch.buffer e)) in
          (
            b',
            ground (arith, done, all),
            j,
            last
                ∙ ap (λ l. some (record s { ch = record (s.ch) { buffer = l } }))
                    (append_event s.ch.buffer e (asked s.filter es) ∙ ground (arith, w)),
          )
      | inr w ↦
          let (b', all, j, last) =
            publish_all-delivers es c q s k (rw same m) (here ∙ ground (arith, w)) live
              (omega (arith, room)) in
          (b', ground (arith, done, all), j, last ∙ ground (arith, w))
    ]
