-- ===== src/Startup/Listing.antt =====
-- internal/engine/engine_impl.go: ListEntries, of an engine over the tables of SQLite.
use acorde.Base.{
  false, true, ◌≡◌, refl, ◌∙◌, Bool, Option, none, some, List, [], ◌∷◌, ◌==◌, if◌then◌else◌, arith,
}
use acorde.Core.Uuid.{Uuid, UuidPackage}
use acorde.Core.Entry.{Entry}
use acorde.AccessControl
use acorde.AccessControl.Packages.{JsonPackage, Database}
use acorde.Crypto.{Aead, Key}
use acorde.Storage
use acorde.Storage.{args_fit, ListFilter}
use acorde.Storage.Sql.{Tables}
use acorde.Storage.Keeps.{IsTables}
use acorde.Storage.Queries.{entry_at, is_wanted, list-get}
use acorde.Engine.Backends.{Store, VersionStore}
use acorde.Schema.{JsonSchema}
use acorde.Engine.{
  get_entry, permission_denied, EngineImpl, OwnedEntry, to_internal_entry, opened, Answer, answer,
  failed, decryption_failed, store_failed,
}

module _ {Db : Type 0} ⦃uuids : UuidPackage⦄ ⦃json : JsonPackage⦄ ⦃database : Database Db⦄
    ⦃aead : Aead⦄ where
  -- the content in clear, and the owner of the access control list or none
  abbrev pub open_entry : Option Key → Db → Entry → Option OwnedEntry
  open_entry key acls e = elim (opened key e.content (uuids.string e.id)) [
    | none ↦ none
    | some content ↦ some (record (to_internal_entry e) {
      content = content;
      owner = elim (AccessControl.get_acl acls e.id) [ none ↦ [] | some acl ↦ acl.owner ];
    })
  ]

  -- the loop, which ends at the first entry that cannot be decrypted
  unfoldable pub open_all : Option Key → Db → List Entry → Option (List OwnedEntry)
  open_all key acls [] = some []
  open_all key acls (e ∷ rest) = elim (open_entry key acls e) [
    | none ↦ none
    | some first ↦ elim (open_all key acls rest) [ none ↦ none | some l ↦ some (first ∷ l) ]
  ]

module _ {Db Versions Compiled : Type 0} ⦃uuids : UuidPackage⦄ ⦃json : JsonPackage⦄
    ⦃database : Database Db⦄ ⦃aead : Aead⦄ where
  unfoldable pub list_entries :
      EngineImpl Db Tables Versions Compiled → ListFilter → List Bool → Answer (List OwnedEntry)
  unfolding open_all
  list_entries e filter faults = elim (Storage.list e.store filter faults) [
    | Storage.Answer.failed ↦ failed store_failed
    | Storage.Answer.not_found _ ↦ failed store_failed
    | Storage.Answer.answer entries ↦ elim (open_all e.key e.acls entries) [
      | none ↦ failed decryption_failed
      | some l ↦ answer l
    ]
  ]

abbrev pub owned_at : List OwnedEntry → Uuid → Option OwnedEntry
owned_at [] id = none
owned_at (e ∷ l) id = if e.id == id then some e else owned_at l id

module _ {Db : Type 0} ⦃uuids : UuidPackage⦄ ⦃json : JsonPackage⦄ ⦃database : Database Db⦄
    ⦃aead : Aead⦄ where
  open_all_lem :
      (acls : Db) (l : List Entry) (id : Uuid)
      → (all : List OwnedEntry) × (open_all none acls l ≡ some all)
        × (owned_at all id
            ≡ (elim (entry_at l id) [ none ↦ none | some e ↦ open_entry none acls e ]))
  unfolding open_all
  open_all_lem acls [] id = ([], refl, refl)
  open_all_lem acls (e ∷ l) id =
      let (all, whole, reads) = open_all_lem acls l id in
      let first : OwnedEntry = record (to_internal_entry e) {
        owner = elim (AccessControl.get_acl acls e.id) [ none ↦ [] | some acl ↦ acl.owner ];
      } in
      (first ∷ all, ground (arith, whole), ground (arith, reads))

module _ {Db Versions Compiled : Type 0} ⦃uuids : UuidPackage⦄ ⦃json : JsonPackage⦄
    ⦃database : Database Db⦄ ⦃aead : Aead⦄ ⦃library : JsonSchema Compiled⦄ ⦃services : Store Tables⦄
    ⦃history : VersionStore Versions⦄ where
  -- An engine without a key, over tables that keep their invariant in a database that does not fail,
  -- and an entry in its store that the local peer may not read: GetEntry refuses it, and ListEntries,
  -- with a filter that asks for it, has no limit and no offset and bounds the time below 2^63, lists
  -- it with its content.
  pub list_entries-unchecked :
      (e : EngineImpl Db Tables Versions Compiled) (filter : ListFilter) (id : Uuid) (x : Entry)
      → e.key ≡ none
      → IsTables e.store
      → args_fit filter ≡ true
      → filter.limit ≡ 0
      → filter.offset ≡ 0
      → AccessControl.check_read e.acls id e.local_id ≡ some false
      → Storage.get e.store id [] ≡ Storage.Answer.answer x
      → is_wanted filter x ≡ true
      → (get_entry e id ≡ failed permission_denied)
        × ((l : List OwnedEntry) × (listed : OwnedEntry) × (list_entries e filter [] ≡ answer l)
            × (owned_at l id ≡ some listed)
            × (listed.content ≡ x.content))
  unfolding get_entry list_entries
  list_entries-unchecked e filter id x clear h fit l o refused stored wanted =
      let (entries, listed, _, reads) = list-get e.store filter h.rows fit l o in
      let (all, whole, owned) = open_all_lem e.acls entries id in
      (
        ground (arith, refused),
        (
          all,
          record (to_internal_entry x) {
            owner = elim (AccessControl.get_acl e.acls x.id) [ none ↦ [] | some acl ↦ acl.owner ];
          },
          rw clear (ground (arith, listed, whole)),
          owned ∙ ground (arith, reads id, stored, wanted),
          refl,
        ),
      )
