-- ===== src/Crdt/Lww.antt =====
-- internal/crdt/lww.go: the last-writer-wins set of entries.
pub mod Order
pub mod Merge
pub mod Invariant
use acorde.Base.{
  ℕ, ◌+◌, Bool, true, false, not, ◌&&◌, ◌||◌, Option, none, some, List, [], ◌∷◌, foldl, length, ltb,
  ◌==◌, if◌then◌else◌,
}
use Prim.Native.Nat.{compare}
use acorde.Base.Equality.{nat_eq}
use acorde.Base.Ordered.{Ordering, is_gt}
use acorde.Base.Text.{Text, compare_text}
use acorde.Core.Uuid.{Uuid, UuidPackage}
use acorde.Core.Entry.{Entry, zero_entry, clone_entry}
use acorde.GoMap
use acorde.GoMap.{GoMap, get, put, values}

pub record LwwElement : Type 0 where
  pub entry : Entry
  pub timestamp : ℕ
  pub deleted : Bool

pub record LwwSet : Type 0 where
  pub elements : GoMap Uuid LwwElement

abbrev pub new_lww_set : LwwSet
new_lww_set = record { elements = GoMap.empty }

-- the loop of `compareBytes` and `compareTags`, on slices of one length
abbrev pub compare_slots {ℓ} : {A : Type ℓ} → (A → A → Ordering) → List A → List A → Ordering
compare_slots cmp [] b = Ordering.eq
compare_slots cmp (x ∷ a) [] = Ordering.eq
compare_slots cmp (x ∷ a) (y ∷ b) = elim (cmp x y) [
  | Ordering.gt ↦ Ordering.gt
  | Ordering.lt ↦ Ordering.lt
  | Ordering.eq ↦ compare_slots cmp a b
]

-- the longer slice is greater
abbrev pub compare_slices {ℓ} : {A : Type ℓ} → (A → A → Ordering) → List A → List A → Ordering
compare_slices cmp a b = elim (compare (length a) (length b)) [
  | Ordering.gt ↦ Ordering.gt
  | Ordering.lt ↦ Ordering.lt
  | Ordering.eq ↦ compare_slots cmp a b
]

unfoldable pub compare_bytes : List ℕ → List ℕ → Ordering
compare_bytes = compare_slices compare

unfoldable pub compare_tags : List Text → List Text → Ordering
compare_tags = compare_slices compare_text

-- a copy of an element of the other set, as `Merge` and `Clone` store it
abbrev copy_element : LwwElement → LwwElement
copy_element el = record {
  entry = clone_entry el.entry;
  timestamp = el.timestamp;
  deleted = el.deleted;
}

-- s.elements[id] = element
abbrev pub store : LwwSet → Uuid → LwwElement → LwwSet
store s id element = record { elements = put s.elements id element }

-- the element that `Add` makes of an entry
abbrev pub element_of : Entry → LwwElement
element_of entry = record {
  entry = clone_entry entry;
  timestamp = entry.updated_at;
  deleted = entry.deleted;
}

module _ ⦃uuids : UuidPackage⦄ where
  unfoldable pub add : LwwSet → Entry → LwwSet
  add s entry = elim (get s.elements entry.id) [
    | none ↦ store s entry.id (element_of entry)
    | some existing ↦
        if ltb existing.timestamp entry.updated_at
          || (entry.updated_at == existing.timestamp
              && is_gt (compare_text (uuids.string entry.id) (uuids.string existing.entry.id)))
        then store s entry.id (element_of entry)
        else s
  ]

-- the tombstone of an entry that is not known
abbrev pub tombstone : Uuid → ℕ → LwwElement
tombstone id timestamp = record {
  entry = record zero_entry { id = id; deleted = true; updated_at = timestamp };
  timestamp = timestamp;
  deleted = true;
}

-- an element marked as deleted
abbrev pub bury : LwwElement → ℕ → LwwElement
bury el timestamp = record {
  entry = record (el.entry) { deleted = true; updated_at = timestamp };
  timestamp = timestamp;
  deleted = true;
}

unfoldable pub remove : LwwSet → Uuid → ℕ → LwwSet
remove s id timestamp = elim (get s.elements id) [
  | none ↦ store s id (tombstone id timestamp)
  | some existing ↦
      if ltb existing.timestamp timestamp
        || (timestamp == existing.timestamp && not existing.deleted)
      then store s id (bury existing timestamp)
      else s
]

unfoldable pub lookup : LwwSet → Uuid → Option Entry
lookup s id = elim (get s.elements id) [
  | none ↦ none
  | some el ↦ if el.deleted then none else some (clone_entry el.entry)
]

unfoldable pub lookup_with_deleted : LwwSet → Uuid → Option Entry
lookup_with_deleted s id = elim (get s.elements id) [
  | none ↦ none
  | some el ↦ some (clone_entry el.entry)
]

abbrev live_entries : List LwwElement → List Entry
live_entries [] = []
live_entries (el ∷ els) =
    let rest = live_entries els in if el.deleted then rest else clone_entry el.entry ∷ rest

unfoldable pub elements : LwwSet → List Entry
elements s = live_entries (values s.elements)

unfoldable pub all_elements : LwwSet → List LwwElement
all_elements s = values s.elements

-- one turn of the loop of `Merge`
unfoldable pub merge_element : GoMap Uuid LwwElement → Uuid × LwwElement → GoMap Uuid LwwElement
merge_element m (id, other) = elim (get m id) [
  | none ↦ put m id (copy_element other)
  | some existing ↦
      if ltb existing.timestamp other.timestamp
      then put m id (copy_element other)
      else if other.timestamp == existing.timestamp
      then (if other.deleted && not existing.deleted
          then put m id (copy_element other)
          else if not other.deleted && not existing.deleted
          then elim (compare_bytes other.entry.content existing.entry.content) [
            | Ordering.gt ↦ put m id (copy_element other)
            | Ordering.eq ↦
                if is_gt (compare_tags other.entry.tags existing.entry.tags)
                then put m id (copy_element other)
                else m
            | Ordering.lt ↦ m
          ]
          else m)
      else m
]

unfoldable pub merge : LwwSet → LwwSet → LwwSet
merge s other = record { elements = foldl merge_element s.elements other.elements.entries }

unfoldable pub clone : LwwSet → LwwSet
clone s = record {
  elements =
      foldl (λ (m : GoMap Uuid LwwElement) e. put m e.0 (copy_element e.1)) GoMap.empty
        s.elements.entries;
}

unfoldable pub size : LwwSet → ℕ
size s = GoMap.size s.elements

abbrev count_live : List LwwElement → ℕ
count_live [] = 0
count_live (el ∷ els) = (if el.deleted then 0 else 1) + count_live els

unfoldable active_size : LwwSet → ℕ
active_size s = count_live (values s.elements)
