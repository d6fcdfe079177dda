-- ===== src/Hooks.antt =====
-- internal/hooks/manager.go: callbacks and webhooks. A callback is known by a number; what a request
-- gives is an argument. The payload and the headers of a request carry no decision and are left out.
pub mod Retries
pub mod Fires
pub mod Tests
use acorde.Base.{
  ℕ, zero, suc, ◌+◌, ◌*◌, Bool, true, false, ◌&&◌, Option, none, some, List, [], ◌∷◌, ◌++◌, ◌==◌,
  leb, ltb, if◌then◌else◌,
}
use acorde.Base.Equality.{nat_eq, list_eq, list_beq}
use acorde.Base.Members.{mem}
use acorde.Base.Text.{Text, codes}
use acorde.Core.Uuid.{Uuid, UuidPackage}
use acorde.GoMap
use acorde.GoMap.{GoMap, get, put, delete, values}

abbrev pub EventType : Type 0
EventType = Text

abbrev event_create : EventType
event_create = codes "create"

abbrev event_update : EventType
event_update = codes "update"

abbrev pub event_delete : EventType
event_delete = codes "delete"

abbrev event_sync : EventType
event_sync = codes "sync"

-- the time of the event is the system's, and left out
pub record HookEvent : Type 0 where
  pub type : EventType
  pub entry_id : Uuid
  pub entry_type : Text
  pub content : List ℕ
  pub tags : List Text
  pub peer_id : Text

abbrev new_create_event : Uuid → Text → List ℕ → List Text → HookEvent
new_create_event id entry_type content tags = record {
  type = event_create;
  entry_id = id;
  entry_type = entry_type;
  content = content;
  tags = tags;
  peer_id = [];
}

abbrev new_update_event : Uuid → Text → List ℕ → List Text → HookEvent
new_update_event id entry_type content tags = record {
  type = event_update;
  entry_id = id;
  entry_type = entry_type;
  content = content;
  tags = tags;
  peer_id = [];
}

abbrev new_delete_event : Uuid → HookEvent
new_delete_event id = record {
  type = event_delete;
  entry_id = id;
  entry_type = [];
  content = [];
  tags = [];
  peer_id = [];
}

abbrev new_sync_event : Text → HookEvent
new_sync_event peer_id = record {
  type = event_sync;
  entry_id = 0;
  entry_type = [];
  content = [];
  tags = [];
  peer_id = peer_id;
}

-- an int
pub data ℤ : Type 0 where
  pos : ℕ → ℤ
  negsuc : ℕ → ℤ

pub record WebhookConfig : Type 0 where
  pub id : Text
  pub url : Text
  pub events : List EventType
  pub headers : GoMap Text Text
  pub secret : Text
  pub max_retries : ℤ
  -- in nanoseconds
  pub timeout : ℤ
  pub async : Bool

pub record Manager : Type 0 where
  pub callbacks : GoMap EventType (List ℕ)
  pub webhooks : GoMap Text WebhookConfig

abbrev pub new_manager : Manager
new_manager = record { callbacks = GoMap.empty; webhooks = GoMap.empty }

-- m.callbacks[t], nil where there are none
abbrev callbacks_of : Manager → EventType → List ℕ
callbacks_of m t = elim (get m.callbacks t) [ none ↦ [] | some l ↦ l ]

-- On, and OnCreate, OnUpdate, OnDelete and OnSync with their types
unfoldable register_callback : Manager → EventType → ℕ → Manager
register_callback m t callback = record m {
  callbacks = put m.callbacks t (callbacks_of m t ++ (callback ∷ []));
}

abbrev or_default : ℤ → ℕ → ℤ
or_default (pos zero) n = pos n
or_default (pos (suc k)) n = pos (suc k)
or_default (negsuc k) n = negsuc k

-- the webhook that is kept; `fresh` is the string of a new UUID
abbrev pub with_defaults : Text → WebhookConfig → WebhookConfig
with_defaults fresh config = record config {
  id = elim config.id [ [] ↦ fresh | c ∷ s ↦ c ∷ s ];
  max_retries = or_default config.max_retries 3;
  timeout = or_default config.timeout 10000000000;
}

-- none for an error
unfoldable pub register_webhook : Text → WebhookConfig → Manager → Option Manager
register_webhook fresh config m = elim config.url [
  | [] ↦ none
  | c ∷ url ↦
      let kept = with_defaults fresh config in
      some (record m { webhooks = put m.webhooks kept.id kept })
]

unfoldable pub unregister_webhook : Manager → Text → Manager
unregister_webhook m id = record m { webhooks = delete m.webhooks id }

abbrev list_webhooks : Manager → List WebhookConfig
list_webhooks m = values m.webhooks

-- the loop over the webhooks
unfoldable pub listening : EventType → List (Text × WebhookConfig) → List WebhookConfig
listening t [] = []
listening t ((k, wh) ∷ l) = let rest = listening t l in if mem t wh.events then wh ∷ rest else rest

-- what Trigger calls, in its order: the callbacks, and then the webhooks
pub record Fired : Type 0 where
  pub callbacks : List ℕ
  pub webhooks : List WebhookConfig

unfoldable pub trigger : Manager → HookEvent → Fired
unfolding listening
trigger m event = record {
  callbacks = callbacks_of m event.type;
  webhooks = listening event.type m.webhooks.entries;
}

-- what a request gives: it cannot be made, it gets no answer, or the status of its answer
pub data Attempt : Type 0 where
  no_request : Attempt
  no_answer : Attempt
  status : ℕ → Attempt

abbrev pub is_ok : Attempt → Bool
is_ok no_request = false
is_ok no_answer = false
is_ok (status n) = leb 200 n && ltb n 300

-- the requests made, the seconds slept between them, and the last error or none
pub record Sent : Type 0 where
  pub attempts : ℕ
  pub slept : ℕ
  pub error : Option Attempt

-- the loop from `attempt` on, with so many turns left
unfoldable pub attempts_from : (ℕ → Attempt) → ℕ → ℕ → ℕ → Option Attempt → Sent
attempts_from answers zero attempt slept last = record {
  attempts = attempt;
  slept = slept;
  error = last;
}
attempts_from answers (suc left) attempt slept last =
    let waited = slept + attempt * attempt in
    let rest = attempts_from answers left (suc attempt) waited (some (answers attempt)) in
    if is_ok (answers attempt)
    then record { attempts = suc attempt; slept = waited; error = none }
    else rest

-- `attempt <= config.MaxRetries` from 0 on
abbrev pub turns : ℤ → ℕ
turns (pos n) = suc n
turns (negsuc n) = 0

unfoldable pub execute_webhook : WebhookConfig → (ℕ → Attempt) → Sent
unfolding attempts_from
execute_webhook config answers = attempts_from answers (turns config.max_retries) 0 0 none
