-- ===== src/Startup/Hydrates.antt =====
-- internal/crdt/replica.go: HydrateEntry over a list of entries with different ids.
use acorde.Base.{
  ◌≡◌, refl, ap, ◌∙◌, false, ◌||◌, none, some, List, [], ◌∷◌, ◌==◌, ==_iff, if◌then◌else◌, arith,
}
use acorde.Base.Equality.{nat_eq, list_eq}
use acorde.Base.Members.{mem}
use acorde.Base.Text.{Text}
use acorde.Core.Uuid.{Uuid, UuidPackage}
use acorde.Core.Entry.{Entry}
use acorde.GoMap.{get, has}
use acorde.GoMap.Laws.{get-put}
use acorde.Crdt.Lww
use acorde.Crdt.Lww.{LwwElement, element_of}
use acorde.Crdt.OrSet
use acorde.Crdt.OrSet.{tag_token_eq, OrSet, TagToken, new_or_set, add_with_token}
use acorde.Crdt.OrSet.Views.{contains-add_with_token, removes-add_with_token}
use acorde.Crdt.Replica.{Replica, hydrate_tags, hydrate_entry, tag_set}
use acorde.Storage.Queries.{DistinctIds, entry_at}
use acorde.Startup.{hydrate_all}

module _ ⦃uuids : UuidPackage⦄ where
  hydrate_entry-entries :
      (r : Replica) (e : Entry) → (hydrate_entry r e).entries ≡ Lww.add r.entries e
  unfolding hydrate_entry
  hydrate_entry-entries r e = ground arith

  hydrate_entry-tags :
      (r : Replica) (e : Entry) (id : Uuid)
      → tag_set (hydrate_entry r e) id
        ≡ (if e.id == id then hydrate_tags id (tag_set r id) e.tags else tag_set r id)
  unfolding hydrate_entry hydrate_tags
  hydrate_entry-tags r e id =
      let set = hydrate_tags e.id (tag_set r e.id) e.tags in
      ground (arith, get-put r.tags e.id id set, ==_iff e.id id)

  -- an entry that is new is stored as it is
  get-add_new :
      (r : Replica) (e : Entry) (id : Uuid)
      → get r.entries.elements e.id ≡ none
      → get (Lww.add r.entries e).elements id
        ≡ (if e.id == id then some (element_of e) else get r.entries.elements id)
  unfolding Lww.add
  get-add_new r e id n = ground (arith, n, get-put r.entries.elements e.id id (element_of e))

  pub contains-hydrate_tags :
      (id : Uuid) (s : OrSet) (tags : List Text) (tag : Text)
      → ((tt : TagToken) → has s.removes tt ≡ false)
      → OrSet.contains (hydrate_tags id s tags) tag ≡ (OrSet.contains s tag || mem tag tags)
  unfolding hydrate_tags
  contains-hydrate_tags id s [] tag h = ground arith
  contains-hydrate_tags id s (x ∷ tags) tag h =
      let token = uuids.new_sha1 id x in
      contains-hydrate_tags id (add_with_token s x token) tags tag
        (λ tt. rw removes-add_with_token (h tt))
      ∙ ground
          (arith, contains-add_with_token s x token tag (h (record { tag = x; token = token })))

  -- where none of the entries is there yet, exactly they are there afterwards
  pub get-hydrate_all :
      (r : Replica) (l : List Entry) (id : Uuid)
      → DistinctIds l
      → ((j : Uuid) (e : Entry) → entry_at l j ≡ some e → get r.entries.elements j ≡ none)
      → (get (hydrate_all r l).entries.elements id ≡ (elim (entry_at l id) [
        | none ↦ get r.entries.elements id
        | some e ↦ some (element_of e)
      ]))
        × (tag_set (hydrate_all r l) id ≡ (elim (entry_at l id) [
          | none ↦ tag_set r id
          | some e ↦ hydrate_tags id (tag_set r id) e.tags
        ]))
  unfolding hydrate_all
  get-hydrate_all r [] id d h = (refl, refl)
  get-hydrate_all r (e ∷ l) id d h =
      let next = hydrate_entry r e in
      let absent : get r.entries.elements e.id ≡ none =
        h e.id e (ground (arith, ==_iff e.id e.id)) in
      let reads = λ (j : Uuid).
        ap (λ (s : Lww.LwwSet). get s.elements j) (hydrate_entry-entries r e)
        ∙ get-add_new r e j absent in
      let (stored, tagged) =
        get-hydrate_all next l id d.1
          (λ j x g. reads j ∙ ground (arith, g, d.0, h j x, ==_iff e.id j)) in
      (
        stored ∙ ground (arith, reads id, d.0, ==_iff e.id id),
        tagged ∙ ground (arith, hydrate_entry-tags r e id, d.0, ==_iff e.id id),
      )
