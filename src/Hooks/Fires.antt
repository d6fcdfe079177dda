-- ===== src/Hooks/Fires.antt =====
-- internal/hooks/manager.go: which webhooks an event reaches.
use acorde.Base.{◌≡◌, refl, ◌∙◌, Option, none, some, List, [], ◌∷◌, arith, if◌then◌else◌}
use acorde.Base.Equality.{nat_eq, list_eq, list_beq, list_beq_iff}
use acorde.Base.Members.{mem}
use acorde.Base.Text.{Text}
use acorde.GoMap.{get, put, delete, assoc, IsMap, Distinct}
use acorde.GoMap.Laws.{get-put, get-delete, put-IsMap, delete-IsMap}
use acorde.GoMap.Every.{Every, Every-head, Every-tail}
use acorde.Hooks.{
  EventType, WebhookConfig, Manager, HookEvent, listening, trigger, with_defaults, register_webhook,
  unregister_webhook,
}

-- every webhook stands under its own id
pub record IsHooks (m : Manager) : Type 0 where
  pub distinct : IsMap m.webhooks
  pub own_id : (k : Text) (wh : WebhookConfig) → get m.webhooks k ≡ some wh → wh.id ≡ k

-- the webhook with an id among those that are called
abbrev called : List WebhookConfig → Text → Option WebhookConfig
called [] id = none
called (wh ∷ l) id = if list_beq wh.id id then some wh else called l id

abbrev Own : Text → WebhookConfig → Type 0
Own k wh = wh.id ≡ k

called-listening :
    (t : EventType) (l : List (Text × WebhookConfig)) (id : Text)
    → Distinct l
    → Every Own l
    → called (listening t l) id
      ≡ (elim (assoc l id) [ none ↦ none | some wh ↦ if mem t wh.events then some wh else none ])
unfolding listening assoc
called-listening t [] id d w = refl
called-listening t ((k, wh) ∷ l) id d w = ground (
  arith,
  Every-head Own k wh l w,
  called-listening t l id d.1 (Every-tail Own k wh l d w),
  list_beq_iff k id,
  list_beq_iff wh.id id,
  d.0,
)

-- The webhooks that Trigger calls, where each stands under its own id, are exactly those that are
-- registered for the type of the event.
trigger-webhooks :
    (m : Manager) (event : HookEvent) (id : Text)
    → IsHooks m
    → called (trigger m event).webhooks id ≡ (elim (get m.webhooks id) [
      | none ↦ none
      | some wh ↦ if mem event.type wh.events then some wh else none
    ])
unfolding trigger
trigger-webhooks m event id h =
    called-listening event.type m.webhooks.entries id h.distinct h.own_id

register_webhook-IsHooks :
    (m n : Manager) (fresh : Text) (config : WebhookConfig)
    → IsHooks m
    → register_webhook fresh config m ≡ some n
    → IsHooks n
      × ((id : Text)
          → get n.webhooks id ≡ (
              if list_beq (with_defaults fresh config).id id
              then some (with_defaults fresh config)
              else get m.webhooks id))
unfolding register_webhook
register_webhook-IsHooks m n fresh config h e =
    let kept = with_defaults fresh config in
    let next : Manager = record m { webhooks = put m.webhooks kept.id kept } in
    let good : IsHooks next = record {
      distinct = put-IsMap m.webhooks kept.id kept h.distinct;
      own_id = λ k wh g.
          ground
            (arith, g, get-put m.webhooks kept.id k kept, list_beq_iff kept.id k, h.own_id k wh);
    } in
    ground (arith, e, good, λ (id : Text). get-put m.webhooks kept.id id kept)

-- After RegisterWebhook gives no error and UnregisterWebhook takes out another id or none, an event
-- calls the webhook if it was registered for the event's type, with the defaults for what it leaves
-- open; and it calls no webhook with the id that was taken out.
trigger-register_webhook :
    (m n : Manager) (fresh gone : Text) (config : WebhookConfig) (event : HookEvent) (id : Text)
    → IsHooks m
    → register_webhook fresh config m ≡ some n
    → called (trigger (unregister_webhook n gone) event).webhooks id ≡ (
        if list_beq gone id
        then none
        else if list_beq (with_defaults fresh config).id id
        then (if mem event.type config.events then some (with_defaults fresh config) else none)
        else called (trigger m event).webhooks id)
unfolding unregister_webhook
trigger-register_webhook m n fresh gone config event id h e =
    let (good, reads) = register_webhook-IsHooks m n fresh config h e in
    let left : Manager = record n { webhooks = delete n.webhooks gone } in
    let still : IsHooks left = record {
      distinct = delete-IsMap n.webhooks gone good.distinct;
      own_id = λ k wh g. good.own_id k wh (ground (arith, g, get-delete n.webhooks gone k));
    } in
    trigger-webhooks left event id still
    ∙ ground (arith, get-delete n.webhooks gone id, reads id, trigger-webhooks m event id h)
