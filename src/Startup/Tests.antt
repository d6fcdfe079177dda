-- ===== src/Startup/Tests.antt =====
-- An engine of internal/engine/engine_impl.go that starts over tables with one note.
use acorde.Base.{ℕ, ◌≡◌, refl, false, none, some, List, [], if◌then◌else◌}
use acorde.Base.Equality.{nat_eq, list_eq}
use acorde.Base.Members.{mem}
use acorde.Base.Text.{Text, codes}
use acorde.GoMap
use acorde.GoMap.{GoMap, assoc, assign}
use acorde.AccessControl
use acorde.AccessControl.Tests.{plain_json, Rows, table, one_row}
use acorde.Allowlist.Packages.{missing}
use acorde.Crdt.Tests.{sample_uuids}
use acorde.Crdt.Replica
use acorde.Crdt.Replica.{Replica, Result, ok, err, is_deleted, not_found}
use acorde.Engine.Tests.{bare_aead, byte_schema, counted}
use acorde.Events.{new_event_bus}
use acorde.Schema.{new_registry}
use acorde.Storage.{Answer, answer, get}
use acorde.Storage.Sql.{Tables, tags_at, other_tags, upsert_row}
use acorde.Storage.Puts.{stored}
use acorde.Storage.Keeps.{written-IsTables, IsTables}
use acorde.Storage.Tests.{no_rows, no_rows-IsTables, a_note, one_note, tagged_home}
use acorde.Startup.{new}
use acorde.Startup.Restarts.{get_entry-new}
use acorde.Startup.Listing.{list_entries, owned_at, list_entries-unchecked}
use acorde.Startup.Backend.{put_entry, sqlite_store, get_entry-put}
use acorde.Engine.{EngineImpl, OwnedEntry, get_entry, permission_denied, failed}
use acorde.Engine

one_note-IsTables : IsTables one_note
one_note-IsTables = written-IsTables no_rows a_note no_rows-IsTables refl

abbrev no_acls : Rows
no_acls = GoMap.empty

none_listed : AccessControl.list no_acls ≡ some []
unfolding AccessControl.list
none_listed = refl

get_entry-new_example :
    (started : EngineImpl Rows Tables ℕ ℕ) × (new one_note [] [] no_acls 0 none missing 5
      ≡ some started)
    × ((tags : List Text) × (Replica.get_entry started.replica 7 ≡ (elim (get one_note 7 []) [
      | Answer.failed ↦ err (not_found 7)
      | Answer.not_found _ ↦ err (not_found 7)
      | answer e ↦ if e.deleted then err (is_deleted 7) else ok (record e { tags = tags })
    ]))
        × ((tag : Text)
            → mem tag tags ≡ (elim (get one_note 7 []) [
              | Answer.failed ↦ false
              | Answer.not_found _ ↦ false
              | answer e ↦ mem tag e.tags
            ])))
get_entry-new_example =
    get_entry-new one_note no_acls [] 0 none missing 5 7 one_note-IsTables none_listed

get_entry-put_example :
    (next : Tables) × (put_entry no_rows a_note ≡ some next)
    × ((started : EngineImpl Rows Tables ℕ ℕ) × (new next [] [] no_acls 0 none missing 5
          ≡ some started)
        × ((tags : List Text) × (Replica.get_entry started.replica 7
              ≡ ok (record (stored no_rows a_note) { tags = tags }))
            × ((tag : Text) → mem tag tags ≡ mem tag a_note.tags)))
get_entry-put_example =
    get_entry-put no_rows a_note no_acls [] 0 none missing 5 no_rows-IsTables refl none_listed

-- an engine of a peer that may not read the note
abbrev strange : EngineImpl Rows Tables ℕ ℕ
strange = record {
  replica = Replica.new_replica (record { time = 5 });
  store = one_note;
  key = none;
  events = new_event_bus;
  schemas = new_registry;
  versions = 0;
  acls = one_row;
  hooks = [];
  local_id = codes "mallory";
}

refused : AccessControl.check_read one_row 7 (codes "mallory") ≡ some false
unfolding AccessControl.check_read AccessControl.get_acl AccessControl.can_read
    AccessControl.can_write assoc assign
refused = refl

read_note : get one_note 7 [] ≡ answer a_note
unfolding get upsert_row tags_at other_tags
read_note = refl

instance abbrev tables_store : Engine.Backends.Store Tables
tables_store = sqlite_store

list_entries-unchecked_example :
    (get_entry strange 7 ≡ failed permission_denied)
    × ((l : List OwnedEntry) × (listed : OwnedEntry) × (list_entries strange tagged_home []
          ≡ Engine.answer l)
        × (owned_at l 7 ≡ some listed)
        × (listed.content ≡ a_note.content))
list_entries-unchecked_example =
    list_entries-unchecked strange tagged_home 7 a_note refl one_note-IsTables refl refl refl
      refused read_note refl
