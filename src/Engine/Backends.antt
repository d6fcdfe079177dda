-- ===== src/Engine/Backends.antt =====
-- What internal/engine/engine_impl.go calls besides the replica, the access control store, the event
-- bus, the schemas and the cryptography: the storage, the version store and the webhooks.
use acorde.Base.{ℕ, ◌≡◌, Option, some, List}
use acorde.Base.Text.{Text}
use acorde.Core.Uuid.{Uuid}
use acorde.Core.Entry.{Entry}

-- The interface storage.Store, internal/storage/store.go, as far as the engine's edits call it. No
-- result is an error. `Ready` says that the storage answers, `Storable` that it takes an entry.
pub record Store (Storage : Type 0) : Type 1 where
  pub put_entry : Storage → Entry → Option Storage
  pub delete_entry : Storage → Uuid → Option Storage
  pub Ready : Storage → Type 0
  pub Storable : Entry → Type 0
  pub put-Ready :
      (s : Storage) (entry : Entry)
      → Ready s
      → Storable entry
      → (s' : Storage) × (put_entry s entry ≡ some s') × Ready s'

-- SaveVersion of the version store, whose error the engine ignores
pub record VersionStore (Versions : Type 0) : Type 0 where
  pub save_version : Versions → Uuid → List ℕ → List Text → ℕ → Text → Versions

-- what TriggerAsync is given
pub data HookEvent : Type 0 where
  created : Uuid → Text → List ℕ → List Text → HookEvent
  updated : Uuid → Text → List ℕ → List Text → HookEvent
  deleted : Uuid → HookEvent
