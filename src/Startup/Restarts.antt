-- ===== src/Startup/Restarts.antt =====
-- internal/engine/engine_impl.go: what an engine gives after New, in terms of the store.
use acorde.Base.{
  ◌≡◌, refl, ap, ◌∙◌, sym, false, Option, none, some, List, [], if◌then◌else◌, arith, inl, inr,
}
use acorde.Base.Equality.{nat_eq, list_eq}
use acorde.Base.Members.{mem}
use acorde.Base.Text.{Text}
use acorde.Core.Uuid.{Uuid, UuidPackage}
use acorde.Core.Clock.{new_clock_with_time}
use acorde.Core.Entry.{Acl}
use acorde.GoMap.{GoMap, get, assoc}
use acorde.AccessControl
use acorde.AccessControl.Packages.{JsonPackage, Database}
use acorde.Allowlist.Packages.{Read, missing, unreadable, found}
use acorde.Crdt.Lww.{LwwSet, element_of, lookup, lookup_with_deleted}
use acorde.Crdt.OrSet
use acorde.Crdt.OrSet.{OrSet, TagToken, tag_token_eq, new_or_set}
use acorde.Crdt.OrSet.Views.{mem-elements}
use acorde.Crdt.Replica
use acorde.Crdt.Replica.{
  Replica, Result, ok, err, not_found, is_deleted, new_replica, hydrate_tags, tag_set,
  get_entry_with_tags,
}
use acorde.Crypto.{Key}
use acorde.Storage
use acorde.Storage.{Answer, answer, get_max_timestamp}
use acorde.Storage.Sql.{Tables}
use acorde.Storage.Keeps.{IsTables}
use acorde.Storage.Queries.{entry_at, queried-DistinctIds}
use acorde.Startup.Hydrates.{get-hydrate_all, contains-hydrate_tags}
use acorde.Startup.Recovers.{
  all_entries, entry_at-all_entries, hydrated_lem, set_acls-same, Answer-cases,
}
use acorde.Startup.{new_registry, new_event_bus, with_deleted, hydrate_all, hydrated, set_acls, new}
use acorde.Engine.{EngineImpl}

module _ ⦃uuids : UuidPackage⦄ where
  -- what the hydrated replica holds of an entry
  get-hydrated :
      (t : Tables) (r : Replica) (id : Uuid)
      → IsTables t
      → hydrated t [] [] ≡ some r
      → (get r.entries.elements id
          ≡ (elim (entry_at (all_entries t) id) [ none ↦ none | some e ↦ some (element_of e) ]))
        × (tag_set r id ≡ (elim (entry_at (all_entries t) id) [
          | none ↦ new_or_set
          | some e ↦ hydrate_tags id new_or_set e.tags
        ]))
  unfolding assoc
  get-hydrated t r id h e =
      let (time, max, filled) = hydrated_lem t in
      let start = new_replica (new_clock_with_time time) in
      let (stored, tagged) =
        get-hydrate_all start (all_entries t) id (queried-DistinctIds t with_deleted h.rows)
          (λ j x g. refl) in
      ground (arith, e, filled, stored, tagged)

  empty_tags : (tag : Text) → mem tag (OrSet.elements new_or_set) ≡ false
  unfolding OrSet.elements OrSet.seen_loop
  empty_tags tag = refl

  hydrated_tags :
      (id : Uuid) (tags : List Text) (tag : Text)
      → mem tag (OrSet.elements (hydrate_tags id new_or_set tags)) ≡ mem tag tags
  unfolding assoc
  hydrated_tags id tags tag =
      mem-elements (hydrate_tags id new_or_set tags) tag
      ∙ contains-hydrate_tags id new_or_set tags tag (λ tt. refl)
      ∙ ground (arith, sym (mem-elements new_or_set tag), empty_tags tag)

  -- what a replica gives for an id, by its two maps
  get_entry_lem :
      (r : Replica) (id : Uuid)
      → Replica.get_entry r id ≡ (elim (get r.entries.elements id) [
        | none ↦ err (not_found id)
        | some el ↦
            if el.deleted
            then err (is_deleted id)
            else ok (record el.entry { tags = OrSet.elements (tag_set r id) })
      ])
  unfolding Replica.get_entry get_entry_with_tags lookup lookup_with_deleted OrSet.elements
      OrSet.seen_loop
  get_entry_lem r id = ground arith

module _ {Db Versions Compiled : Type 0} ⦃uuids : UuidPackage⦄ ⦃json : JsonPackage⦄
    ⦃database : Database Db⦄ where
  -- Where the database does not fail, the tables keep their invariant and the access control lists can
  -- be read, New gives an engine, and its replica gives for every id what the store gives: no entry,
  -- an error for one that is deleted, and else the stored entry with the same tags, in any order.
  pub get_entry-new :
      (t : Tables) (acls : Db) (listed : List Acl) (versions : Versions) (key : Option Key)
      (node_id : Read) (fresh id : Uuid)
      → IsTables t
      → AccessControl.list acls ≡ some listed
      → (started : EngineImpl Db Tables Versions Compiled) × (new t [] [] acls versions key node_id
            fresh
          ≡ some started)
        × ((tags : List Text) × (Replica.get_entry started.replica id
              ≡ (elim (Storage.get t id []) [
                | Answer.failed ↦ err (not_found id)
                | Answer.not_found _ ↦ err (not_found id)
                | answer e ↦
                    if e.deleted then err (is_deleted id) else ok (record e { tags = tags })
              ]))
            × ((tag : Text)
                → mem tag tags ≡ (elim (Storage.get t id []) [
                  | Answer.failed ↦ false
                  | Answer.not_found _ ↦ false
                  | answer e ↦ mem tag e.tags
                ])))
  unfolding new
  get_entry-new t acls listed versions key node_id fresh id h a =
      let (time, max, filled) = hydrated_lem t in
      let r = hydrate_all (new_replica (new_clock_with_time time)) (all_entries t) in
      let (stored, tagged) = get-hydrated t r id h filled in
      let (kept, kept_tags) = set_acls-same r listed in
      let whole = set_acls r listed in
      let all = entry_at-all_entries t id h in
      let read = get_entry_lem whole id in
      let same : tag_set whole id ≡ tag_set r id =
        ap
          (λ (m : GoMap Uuid OrSet). elim (get m id) as (λ x. OrSet) [
            | none ↦ new_or_set
            | some s ↦ s
          ])
          kept_tags in
      let held : get whole.entries.elements id ≡ get r.entries.elements id =
        ap (λ (s : LwwSet). get s.elements id) kept in
      (
        record {
          replica = whole;
          store = t;
          key = key;
          events = new_event_bus;
          schemas = new_registry;
          versions = versions;
          acls = acls;
          hooks = [];
          local_id = elim node_id [
            | missing ↦ uuids.string fresh
            | unreadable ↦ uuids.string fresh
            | found b ↦ b
          ];
        },
        ground (arith, filled, a),
        (
          OrSet.elements (tag_set whole id),
          read ∙ ground (arith, held, stored, all),
          λ tag.
              ap (λ (x : OrSet). mem tag (OrSet.elements x)) (same ∙ tagged)
              ∙ elim (Answer-cases (Storage.get t id [])) [
                | inl n ↦ ground (arith, n, all, empty_tags tag)
                | inr (e, n) ↦ ground (arith, n, all, hydrated_tags id e.tags tag)
              ],
        ),
      )
