-- ===== src/Crdt/Replica/Outcomes.antt =====
-- How the operations of internal/crdt/replica.go that may fail end: what a success says of the
-- state before, and the state that it leaves.
use acorde.Base.{
  ℕ, ◌≡◌, false, Option, none, some, inl, inr, Option-cases, List, arith, if◌then◌else◌,
}
use acorde.Base.Equality.{nat_eq}
use acorde.Base.Text.{Text}
use acorde.Core.Uuid.{Uuid, UuidPackage}
use acorde.Core.Clock.{tick}
use acorde.Core.Entry.{Entry}
use acorde.GoMap.{get}
use acorde.Crdt.Lww
use acorde.Crdt.Lww.{LwwElement}
use acorde.Crdt.Replica.{
  Replica, Result, ok, err, not_found, is_deleted, write_update, update_entry, delete_entry,
  get_entry, get_entry_with_tags,
}

module _ ⦃uuids : UuidPackage⦄ (tokens : ℕ → Uuid) (r : Replica) (id : Uuid)
    (content : Option (List ℕ)) (tags : Option (List Text)) where
  -- a successful update had a live element to write over
  pub update_ok :
      (r' : Replica)
      → update_entry tokens r id content tags ≡ ok r'
      → (el : LwwElement) × (get r.entries.elements id ≡ some el)
        × (el.entry.deleted ≡ false)
        × (r' ≡ write_update tokens r id el.entry content tags)
  unfolding update_entry Lww.lookup_with_deleted
  update_ok r' h = elim (Option-cases (get r.entries.elements id)) [
    | inl e ↦ absurd (ground arith)
    | inr (el, e) ↦ (el, e, ground arith, ground arith)
  ]

  -- an update of a live element succeeds
  pub update_live :
      (el : LwwElement)
      → get r.entries.elements id ≡ some el
      → el.entry.deleted ≡ false
      → update_entry tokens r id content tags ≡ ok (write_update tokens r id el.entry content tags)
  unfolding update_entry Lww.lookup_with_deleted
  update_live el e d = ground arith

module _ (r : Replica) (id : Uuid) where
  pub delete_ok :
      (r' : Replica)
      → delete_entry r id ≡ ok r'
      → (el : LwwElement) × (get r.entries.elements id ≡ some el)
        × (r' ≡ record r {
          clock = (tick r.clock).0;
          entries = Lww.remove r.entries id (tick r.clock).1;
        })
  unfolding delete_entry Lww.lookup_with_deleted
  delete_ok r' h = elim (Option-cases (get r.entries.elements id)) [
    | inl e ↦ absurd (ground arith)
    | inr (el, e) ↦ (el, e, ground arith)
  ]

  -- what GetEntry answers, by the element that stands at the id
  abbrev pub answer : Option LwwElement → Result Entry
  answer none = err (not_found id)
  answer (some el) = if el.deleted then err (is_deleted id) else ok (get_entry_with_tags r id)

  pub get_entry_lem : get_entry r id ≡ answer (get r.entries.elements id)
  unfolding get_entry Lww.lookup Lww.lookup_with_deleted
  get_entry_lem = ground arith
