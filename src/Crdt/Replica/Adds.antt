-- ===== src/Crdt/Replica/Adds.antt =====
-- What a client of internal/crdt/replica.go reads after it adds an entry.
use acorde.Base.{
  ℕ, ◌+◌, ◌≡◌, ◌≢◌, refl, ◌∙◌, ap, false, none, some, List, [], ◌∷◌, ◌==◌, ==_iff, if◌then◌else◌,
  arith,
}
use acorde.Base.Equality.{nat_eq, list_eq}
use acorde.Base.Members.{mem}
use acorde.Base.Text.{Text}
use acorde.Core.Uuid.{Uuid, UuidPackage}
use acorde.Core.Clock.{tick, tick_lem}
use acorde.Core.Entry.{Entry, EntryType}
use acorde.GoMap.{get, assoc}
use acorde.GoMap.Laws.{get-put}
use acorde.Crdt.Lww
use acorde.Crdt.Lww.{element_of}
use acorde.Crdt.OrSet.{new_or_set, contains}
use acorde.Crdt.OrSet.Views.{mem-elements}
use acorde.Crdt.Replica.{
  Replica, ok, add_tags, fresh_entry, set_new_tags, add_entry_with_id, get_entry,
  get_entry_with_tags,
}
use acorde.Crdt.Replica.TagEdits.{contains-add_tags}
use acorde.Crdt.Replica.Invariant.{IsReplica}
use acorde.Crdt.Replica.Keeps.{HasTime}
use acorde.Crdt.Replica.Edits.{
  listed_tags, listed_tags-put, tagged, get_entry-live, get_entry_congr, read_after, write_later,
}

entries-set_new_tags :
    (tokens : ℕ → Uuid) (r : Replica) (id : Uuid) (tags : List Text)
    → (set_new_tags tokens r id tags).entries ≡ r.entries
entries-set_new_tags tokens r id [] = refl
entries-set_new_tags tokens r id (t ∷ rest) = refl

other_tags-set_new_tags :
    (tokens : ℕ → Uuid) (r : Replica) (id j : Uuid) (tags : List Text)
    → id ≢ j
    → get (set_new_tags tokens r id tags).tags j ≡ get r.tags j
other_tags-set_new_tags tokens r id j [] ne = refl
other_tags-set_new_tags tokens r id j (t ∷ rest) ne =
    ground (arith, ne, get-put r.tags id j (add_tags tokens 0 new_or_set (t ∷ rest)), ==_iff id j)

contains-new_or_set : (t : Text) → contains new_or_set t ≡ false
unfolding contains
contains-new_or_set t = refl

tags_added :
    (tokens : ℕ → Uuid) (r : Replica) (id : Uuid) (tags : List Text) (t : Text)
    → get r.tags id ≡ none
    → mem t (listed_tags (set_new_tags tokens r id tags) id) ≡ mem t tags
unfolding assoc
tags_added tokens r id [] t n = ground (arith, n)
tags_added tokens r id (x ∷ rest) t n =
    let s = add_tags tokens 0 new_or_set (x ∷ rest) in
    ap (λ l. mem t l) (listed_tags-put r id s)
    ∙ mem-elements s t
    ∙ contains-add_tags tokens 0 new_or_set (x ∷ rest) t (λ i y. refl)
    ∙ ground (arith, contains-new_or_set t)

module _ ⦃uuids : UuidPackage⦄ (tokens : ℕ → Uuid) (r : Replica) (h : IsReplica r)
    (time : HasTime r) (id : Uuid) where
  -- In a replica that keeps the invariant, and short of the last value of its clock, after an add
  -- under an id that has no tags yet the entry that is returned is the entry that is read: it has
  -- the id, the type, the content and the tags that were given, and the next time of the clock;
  -- every other entry is read as before.
  pub add_entry-get_entry :
      (entry_type : EntryType) (content : List ℕ) (tags : List Text)
      → get r.tags id ≡ none
      → (r' : Replica) × (new : Entry) × (add_entry_with_id tokens r id entry_type content tags
          ≡ (r', new))
        × (new.id ≡ id)
        × (new.type ≡ entry_type)
        × (new.content ≡ content)
        × (new.created_at ≡ r.clock.time + 1)
        × (new.updated_at ≡ r.clock.time + 1)
        × ((t : Text) → mem t new.tags ≡ mem t tags)
        × ((j : Uuid) → get_entry r' j ≡ (if id == j then ok new else get_entry r j))
  unfolding add_entry_with_id get_entry_with_tags Lww.lookup_with_deleted
  add_entry-get_entry entry_type content tags untagged =
      let (now, _) = tick_lem r.clock time in
      let u : Entry = fresh_entry id entry_type content (tick r.clock).1 in
      let stored : Replica = record r { clock = (tick r.clock).0; entries = Lww.add r.entries u } in
      let r' : Replica = set_new_tags tokens stored id tags in
      let at : (j : Uuid)
          → get r'.entries.elements j
            ≡ (if id == j then some (element_of u) else get r.entries.elements j) =
        (λ j.
          rw entries-set_new_tags
            (write_later r.clock.time r.entries u j h.entries (omega arith))) in
      let there : get r'.entries.elements id ≡ some (element_of u) =
        at id ∙ ground (arith, ==_iff id id) in
      (
        r',
        tagged r' id u,
        ground (arith, there),
        refl,
        refl,
        refl,
        now,
        now,
        λ t. tags_added tokens stored id tags t untagged,
        read_after r r' id (tagged r' id u) (get_entry-live r' id (element_of u) there refl)
            (λ j ne.
              get_entry_congr r' r j (at j ∙ ground (arith, ne, ==_iff id j))
                (other_tags-set_new_tags tokens stored id j tags ne)),
      )
