-- ===== src/Hooks/Tests.antt =====
-- A webhook of internal/hooks/manager.go whose third request is answered well.
use acorde.Base.{ℕ, suc, ◌<◌, ◌≤◌, ◌≡◌, false, none, some, [], ◌∷◌, ◌⊎◌, if◌then◌else◌, ◌==◌}
use acorde.Base.Equality.{nat_eq, list_eq}
use acorde.Base.Text.{codes}
use acorde.GoMap
use acorde.GoMap.{GoMap, get, put, assoc, assign}
use acorde.Hooks.{
  pos, WebhookConfig, Manager, new_manager, event_delete, Attempt, no_answer, status, is_ok,
  execute_webhook, with_defaults,
}
use acorde.Hooks.Retries.{FirstOk, execute_webhook_lem}

abbrev on_delete : WebhookConfig
on_delete = record {
  id = codes "h";
  url = codes "http://localhost";
  events = event_delete ∷ [];
  headers = GoMap.empty;
  secret = [];
  max_retries = pos 3;
  timeout = pos 0;
  async = false;
}

abbrev third : ℕ → Attempt
third n = if n == 2 then status 200 else no_answer

execute_webhook_lem_example :
    ((k : ℕ) × (k < 4)
      × FirstOk third 0 k
      × ((execute_webhook on_delete third).attempts ≡ suc k)
      × ((execute_webhook on_delete third).error ≡ none))
    ⊎ (((j : ℕ) → 0 ≤ j → j < 4 → is_ok (third j) ≡ false)
        × ((execute_webhook on_delete third).attempts ≡ 4)
        × ((execute_webhook on_delete third).error ≡ some (third 3)))
execute_webhook_lem_example = execute_webhook_lem on_delete third

abbrev one_hook : Manager
one_hook = record new_manager {
  webhooks = put new_manager.webhooks (codes "h") (with_defaults (codes "f") on_delete);
}
