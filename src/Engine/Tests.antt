-- ===== src/Engine/Tests.antt =====
-- An engine in memory, with a cipher that changes nothing and schemas that ask for a first byte.
pub mod Calls
use acorde.Base.{
  ℕ, ◌≡◌, refl, true, false, Option, none, some, List, [], ◌∷◌, ◌==◌, if◌then◌else◌, arith, ◌+◌,
}
use acorde.Base.Equality.{nat_eq, list_eq, list_beq}
use acorde.Base.Text.{Text, codes}
use acorde.Core.Uuid.{Uuid}
use acorde.Engine.Remote.{AllEntries}
use acorde.Core.Entry.{Entry, zero_entry, is_valid}
use acorde.GoMap
use acorde.GoMap.{GoMap, get, put, assoc, assign}
use acorde.Crdt.Replica
use acorde.Crdt.Replica.{Replica, Result, is_deleted}
use acorde.Crdt.Tests.Merges.{left-HasTimes, right-HasTimes}
use acorde.Crdt.Tests.{
  sample_uuids, right, right-IsReplica, left, left-IsReplica, left-HasTime, right_tokens,
}
use acorde.Crdt.Tests.Edits.{note, left_note, untagged, read_note, left_read, right_tokens-Fresh}
use acorde.Crdt.Replica.Edits.{update_entry-get_entry}
use acorde.AccessControl
use acorde.AccessControl.{can_read, can_write}
use acorde.AccessControl.Tests.{
  plain_json, Rows, table, one_row, one_row-Ready, one_row-get_acl, ann, bob,
}
use acorde.Events.{new_event_bus}
use acorde.Events.Keeps.{IsEventBus, new_event_bus-IsEventBus, publish_lem}
use acorde.Events.Subscriptions.{Event}
use acorde.Crypto.{Aead, encrypt, decrypt, decrypt-encrypt}
use acorde.Schema.{
  JsonSchema, Checked, broken, checked, Registry, new_registry, verdict, register_from_json,
  validate, validate-register,
}
use acorde.Engine.Backends.{Store, VersionStore, HookEvent}
use acorde.Engine.Changes.{update_entry, store_update, delete_entry}
use acorde.Engine.Remote.{get_sync_state, apply_sync_state, apply_sync_state-Converged}
use acorde.Crdt.Replica.Converge.{Converged}
use acorde.Engine.{
  EngineImpl, to_internal_entry, AddEntryInput, UpdateEntryInput, OwnedEntry, Draws, answer, failed,
  permission_denied, add_entry, get_entry,
}
use acorde.Engine.Access.{get_entry-check_read, update_entry-check_write, delete_entry-unchecked}
use acorde.Engine.Adds.{get_entry-add_entry}

instance abbrev pub bare_aead : Aead
bare_aead = record {
  seal = λ key nonce plaintext aad. plaintext;
  open_sealed = λ key nonce message aad. some message;
  open-seal = λ key nonce plaintext aad. refl;
}

-- a schema is one byte, with which content must begin
abbrev first_byte : ℕ → List ℕ → Checked
first_byte b [] = broken (codes "EOF")
first_byte b (c ∷ rest) =
    if b == c
    then checked []
    else checked (record { field = []; description = codes "first byte" } ∷ [])

abbrev head : List ℕ → Option ℕ
head [] = none
head (b ∷ rest) = some b

instance abbrev pub byte_schema : JsonSchema ℕ
byte_schema = record { compile = head; check = first_byte }

abbrev pub Entries : Type 0
Entries = GoMap Uuid Entry

instance abbrev pub memory : Store Entries
memory = record {
  put_entry = λ s entry. some (put s entry.id entry);
  delete_entry = λ s id. some s;
  Ready = λ s. Unit {0};
  Storable = λ entry. Unit {0};
  put-Ready = λ s entry ready taken. (put s entry.id entry, refl, tt);
}

pub takes_all : (l : List Entry) → AllEntries memory.Storable l
takes_all [] = tt
takes_all (entry ∷ rest) = (tt, takes_all rest)

instance abbrev pub counted : VersionStore ℕ
counted = record { save_version = λ n id content tags timestamp author. n + 1 }

abbrev pub nonce : List ℕ
nonce =
    1 ∷ 2 ∷ 3 ∷ 4 ∷ 5 ∷ 6 ∷ 7 ∷ 8 ∷ 9 ∷ 10 ∷ 11 ∷ 12 ∷ 13 ∷ 14 ∷ 15 ∷ 16 ∷ 17 ∷ 18 ∷ 19 ∷ 20 ∷ 21
    ∷ 22 ∷ 23 ∷ 24 ∷ []

-- the left replica, with the list of entry 7, and a peer that is neither its owner nor a writer
abbrev pub eve_engine : EngineImpl Rows Entries ℕ ℕ
eve_engine = record {
  replica = left;
  store = GoMap.empty;
  key = some (9 ∷ []);
  events = new_event_bus;
  schemas = new_registry;
  versions = 0;
  acls = one_row;
  hooks = [];
  local_id = codes "eve";
}

abbrev pub draws : Draws
draws = record { id = 9; tokens = right_tokens; random = some nonce; now = 1000 }

abbrev a_file : AddEntryInput
a_file = record {
  type = codes "file";
  content = 5 ∷ 6 ∷ [];
  tags = codes "home" ∷ [];
  public = false;
}

file_valid : is_valid (codes "file") ≡ true
unfolding is_valid
file_valid = refl

accepted : (validate eve_engine.schemas (codes "file") (5 ∷ 6 ∷ [])).valid ≡ true
unfolding validate assoc
accepted = refl

get_entry-add_entry_example :
    (e' : EngineImpl Rows Entries ℕ ℕ) × (new : OwnedEntry) × (add_entry draws a_file eve_engine
      ≡ some (e', answer new))
    × (get_entry e' 9 ≡ answer new)
    × (new.content ≡ 5 ∷ 6 ∷ [])
    × (new.owner ≡ codes "eve")
    × IsEventBus e'.events
get_entry-add_entry_example =
    get_entry-add_entry eve_engine left-IsReplica left-HasTime new_event_bus-IsEventBus
      one_row-Ready tt draws a_file nonce file_valid accepted refl refl untagged (λ content. tt)

refused : AccessControl.check_write one_row 7 (codes "eve") ≡ some false
unfolding AccessControl.check_write AccessControl.get_acl AccessControl.can_write assoc assign
refused = refl

abbrev pub retag : UpdateEntryInput
retag = record { content = none; tags = some [] }

delete_entry-unchecked_example :
    (update_entry draws 7 retag eve_engine ≡ some (eve_engine, failed permission_denied))
    × ((e' : EngineImpl Rows Entries ℕ ℕ) × (delete_entry draws 7 eve_engine ≡ some (e', answer tt))
        × ((j : Uuid)
            → Replica.get_entry e'.replica j
              ≡ (if 7 == j then Result.err (is_deleted 7) else Replica.get_entry left j)))
delete_entry-unchecked_example =
    delete_entry-unchecked eve_engine 7 draws retag note GoMap.empty refused left-IsReplica
      left-HasTime new_event_bus-IsEventBus left_note refl

abbrev no_schemas : Registry ℕ
no_schemas = new_registry
