-- ===== src/Events/Subscriptions.antt =====
-- A subscription of internal/engine/events.go, and the Go channel in it.
use mathlib.Core.Path.{subst}
use acorde.Base.{
  sym, ℕ, suc, ◌≤◌, Bool, true, false, not, ◌&&◌, Option, none, some, List, [], ◌∷◌, ◌++◌, length,
  ltb, ◌≡◌, refl, if◌then◌else◌, inl, inr, Bool-cases, arith,
}
use acorde.Base.Equality.{nat_eq, list_beq}
use acorde.Base.Text.{Text}
use acorde.Core.Uuid.{Uuid}

abbrev pub EventType : Type 0
EventType = Text

pub record Event : Type 0 where
  pub type : EventType
  pub entry_id : Uuid
  pub entry_type : Text
  pub timestamp : ℕ

pub record SubscriptionOptions : Type 0 where
  pub events : List EventType
  pub entry_type : Text

-- a buffered channel: what was sent and not received yet, oldest first
pub record Channel : Type 0 where
  pub capacity : ℕ
  pub buffer : List Event
  pub closed : Bool

-- select { case ch <- event: default: }, which panics on a closed channel
unfoldable pub try_send : Channel → Event → Option Channel
try_send c event =
    if c.closed
    then none
    else if ltb (length c.buffer) c.capacity
    then some (record c { buffer = c.buffer ++ (event ∷ []) })
    else some c

-- close(ch), which panics on a closed channel
unfoldable pub close_channel : Channel → Option Channel
close_channel c = if c.closed then none else some (record c { closed = true })

-- <-ch where there is an event
unfoldable pub receive : Channel → Option (Event × Channel)
receive c = elim c.buffer [ [] ↦ none | event ∷ rest ↦ some (event, record c { buffer = rest }) ]

pub record Subscription : Type 0 where
  pub ch : Channel
  pub closed : Bool
  pub filter : SubscriptionOptions

abbrev pub new_subscription : ℕ → SubscriptionOptions → Subscription
new_subscription buffer_size opts = record {
  ch = record { capacity = buffer_size; buffer = []; closed = false };
  closed = false;
  filter = opts;
}

unfoldable pub close : Subscription → Option Subscription
close s = if s.closed then some s else elim (close_channel s.ch) [
  | none ↦ none
  | some ch ↦ some (record s { ch = ch; closed = true })
]

-- the loop that sets `found`
abbrev pub listed : List EventType → EventType → Bool
listed [] type = false
listed (t ∷ rest) type = let later = listed rest type in if list_beq t type then true else later

-- whether a subscription with these options asks for the event
unfoldable pub wants : SubscriptionOptions → Event → Bool
wants filter event =
    let found : Bool = elim filter.events [ [] ↦ true | t ∷ rest ↦ listed (t ∷ rest) event.type ] in
    if not found
    then false
    else if not (list_beq filter.entry_type []) && not (list_beq event.entry_type filter.entry_type)
    then false
    else true

abbrev matches : Subscription → Event → Bool
matches s event = wants s.filter event

unfoldable pub send : Subscription → Event → Option Subscription
send s event =
    if not s.closed && matches s event
    then elim (try_send s.ch event) [ none ↦ none | some ch ↦ some (record s { ch = ch }) ]
    else some s

-- every event is one that the subscription asks for
abbrev pub Matching : SubscriptionOptions → List Event → Type 0
Matching filter [] = Unit
Matching filter (e ∷ rest) = (wants filter e ≡ true) × Matching filter rest

-- The channel is closed exactly when the flag says so, its buffer fits, and it holds only events
-- that the subscription asks for.
pub record IsSubscription (s : Subscription) : Type 0 where
  pub flagged : s.ch.closed ≡ s.closed
  pub within : length s.ch.buffer ≤ s.ch.capacity
  pub wanted : Matching s.filter s.ch.buffer

-- a subscription after an event: the event goes last, if it is asked for and there is room
abbrev pub delivered : Subscription → Event → Subscription
delivered s event =
    if not s.closed && (matches s event && ltb (length s.ch.buffer) s.ch.capacity)
    then record s { ch = record (s.ch) { buffer = s.ch.buffer ++ (event ∷ []) } }
    else s

-- a subscription after it is closed; what is in the buffer can still be received
abbrev pub shut : Subscription → Subscription
shut s = if s.closed then s else record s { ch = record (s.ch) { closed = true }; closed = true }

pub send_lem :
    (s : Subscription) (event : Event) → IsSubscription s → send s event ≡ some (delivered s event)
unfolding send try_send
send_lem s event h = ground (arith, h.flagged)

pub close_lem : (s : Subscription) → IsSubscription s → close s ≡ some (shut s)
unfolding close close_channel
close_lem s h = ground (arith, h.flagged)

pub length-++ : (l : List Event) (e : Event) → length (l ++ (e ∷ [])) ≡ suc (length l)
length-++ [] e = refl
length-++ (x ∷ l) e = ground (arith, length-++ l e)

Matching-++ :
    (f : SubscriptionOptions) (l : List Event) (e : Event)
    → Matching f l
    → wants f e ≡ true
    → Matching f (l ++ (e ∷ []))
Matching-++ f [] e h m = (m, tt)
Matching-++ f (x ∷ l) e (m', h) m = (m', Matching-++ f l e h m)

pub new_subscription-IsSubscription :
    (n : ℕ) (opts : SubscriptionOptions) → IsSubscription (new_subscription n opts)
new_subscription-IsSubscription n opts = record {
  flagged = refl;
  within = omega arith;
  wanted = tt;
}

-- Closing keeps the invariant.
pub shut-IsSubscription : (s : Subscription) → IsSubscription s → IsSubscription (shut s)
shut-IsSubscription s h =
    let t : Subscription = record s { ch = record (s.ch) { closed = true }; closed = true } in
    let choose = λ (b : Bool). IsSubscription (if b then s else t) in
    elim (Bool-cases s.closed) [
      | inl c ↦ subst choose (sym c) h
      | inr c ↦
          subst choose (sym c) (record { flagged = refl; within = h.within; wanted = h.wanted })
    ]

-- An event that arrives keeps the invariant.
pub delivered-IsSubscription :
    (s : Subscription) (event : Event) → IsSubscription s → IsSubscription (delivered s event)
delivered-IsSubscription s event h =
    let t : Subscription = record s {
      ch = record (s.ch) { buffer = s.ch.buffer ++ (event ∷ []) };
    } in
    let room = not s.closed && (matches s event && ltb (length s.ch.buffer) s.ch.capacity) in
    let choose = λ (b : Bool). IsSubscription (if b then t else s) in
    elim (Bool-cases room) [
      | inl c ↦ subst choose (sym c) (record {
        flagged = h.flagged;
        within = ground (arith, c, length-++ s.ch.buffer event);
        wanted = Matching-++ s.filter s.ch.buffer event h.wanted (ground (arith, c));
      })
      | inr c ↦ subst choose (sym c) h
    ]
