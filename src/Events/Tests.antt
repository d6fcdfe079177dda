-- ===== src/Events/Tests.antt =====
-- A bus with two subscribers, one of them for deletes only.
use acorde.Base.{◌≡◌, refl, true, false, some, [], ◌∷◌, ◌++◌, arith}
use acorde.Base.Equality.{nat_eq, list_eq}
use acorde.Base.Members.{mem}
use acorde.Base.Text.{codes}
use acorde.GoMap.{get, assoc, assign}
use acorde.Events.Subscriptions.{SubscriptionOptions, Event, new_subscription}
use acorde.Events.Keeps.{IsEventBus}
use acorde.Events.Runs.{Step, Run, Run-IsEventBus, asked, publish_all, publish_all-delivers}
use acorde.Events.{EventBus, new_event_bus, subscribe_with_options}

abbrev pub deletes : SubscriptionOptions
deletes = record { events = codes "deleted" ∷ []; entry_type = [] }

abbrev everything : SubscriptionOptions
everything = record { events = []; entry_type = [] }

abbrev two : EventBus
two = (subscribe_with_options (subscribe_with_options new_event_bus everything).0 deletes).0

two-Run : Run two
two-Run =
    Run.then_step (Run.then_step Run.start (Step.subscribed new_event_bus everything))
      (Step.subscribed (subscribe_with_options new_event_bus everything).0 deletes)

Run-IsEventBus_example : IsEventBus two
Run-IsEventBus_example = Run-IsEventBus two two-Run

two-IsEventBus : IsEventBus two
two-IsEventBus = Run-IsEventBus two two-Run

abbrev pub gone : Event
gone = record { type = codes "deleted"; entry_id = 7; entry_type = []; timestamp = 5 }

abbrev pub made : Event
made = record { type = codes "created"; entry_id = 7; entry_type = codes "note"; timestamp = 4 }

second : get two.heap 1 ≡ some (new_subscription 100 deletes)
unfolding subscribe_with_options assoc assign
second = refl

member : mem 1 two.subs ≡ true
unfolding subscribe_with_options
member = refl

publish_all-delivers_example :
    (b' : EventBus) × (publish_all two (made ∷ gone ∷ []) ≡ some b')
    × IsEventBus b'
    × (get b'.heap 1
        ≡ some (record (new_subscription 100 deletes) {
          ch = record {
            capacity = 100;
            buffer = [] ++ asked deletes (made ∷ gone ∷ []);
            closed = false;
          };
        }))
publish_all-delivers_example =
    publish_all-delivers (made ∷ gone ∷ []) two 1 (new_subscription 100 deletes) two-IsEventBus
      member second refl (omega arith)
