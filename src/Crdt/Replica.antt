-- ===== src/Crdt/Replica.antt =====
-- internal/crdt/replica.go: the state of a replica and its operations. An operation returns the
-- replica after the call; one that fails has changed nothing before it returns its error.
pub mod Acls
pub mod Registers
pub mod Converge
pub mod Latest
pub mod TagSets
pub mod TagEdits
pub mod Outcomes
pub mod Invariant
pub mod Keeps
pub mod KeepsMerge
pub mod Edits
pub mod Adds
pub mod Runs
use acorde.Base.{
  ℕ, zero, suc, ◌+◌, Bool, true, false, Option, none, some, List, [], ◌∷◌, map, foldl, ltb, ◌==◌,
  if◌then◌else◌,
}
use acorde.Base.Equality.{nat_eq, list_eq}
use acorde.Base.Ordered.{is_gt}
use acorde.Base.Text.{Text, compare_text}
use acorde.Core.Uuid.{Uuid, UuidPackage}
use acorde.Core.Clock.{Clock, tick, update, now, new_clock_with_time}
use acorde.Core.Entry.{Entry, EntryType, Acl, zero_entry, clone_entry, clone_acl}
use acorde.GoMap
use acorde.GoMap.{GoMap, GoSet, get, put, has, keys, values}
use acorde.GoMap.Sets.{insert}
use acorde.Crdt.Lww
use acorde.Crdt.Lww.{LwwSet, LwwElement}
use acorde.Crdt.OrSet
use acorde.Crdt.OrSet.{OrSet, new_or_set, add_with_token}

-- ErrEntryNotFound and ErrEntryDeleted
pub data Error : Type 0 where
  not_found : Uuid → Error
  is_deleted : Uuid → Error

pub data Result {ℓ} (A : Type ℓ) : Type ℓ where
  ok : A → Result A
  err : Error → Result A

pub record Replica : Type 0 where
  pub entries : LwwSet
  pub tags : GoMap Uuid OrSet
  pub acls : GoMap Uuid Acl
  pub clock : Clock

abbrev pub new_replica : Clock → Replica
new_replica clock = record {
  entries = Lww.new_lww_set;
  tags = GoMap.empty;
  acls = GoMap.empty;
  clock = clock;
}

-- the set that getOrCreateTagSet returns
abbrev pub tag_set : Replica → Uuid → OrSet
tag_set r id = elim (get r.tags id) [ none ↦ new_or_set | some s ↦ s ]

-- r.tags[id] = tagSet
abbrev pub put_tags : Replica → Uuid → OrSet → Replica
put_tags r id s = record r { tags = put r.tags id s }

-- `tokens i` is the result of the i-th call of uuid.New(), counted from `i`
unfoldable pub add_tags : (ℕ → Uuid) → ℕ → OrSet → List Text → OrSet
add_tags tokens i s [] = s
add_tags tokens i s (tag ∷ rest) = add_tags tokens (suc i) (OrSet.add s tag (tokens i)).0 rest

module _ ⦃uuids : UuidPackage⦄ where
  unfoldable pub hydrate_tags : Uuid → OrSet → List Text → OrSet
  hydrate_tags id s [] = s
  hydrate_tags id s (tag ∷ rest) =
      hydrate_tags id (add_with_token s tag (uuids.new_sha1 id tag)) rest

  unfoldable pub hydrate_entry : Replica → Entry → Replica
  hydrate_entry r entry =
      let added = record r { entries = Lww.add r.entries entry } in
      elim entry.tags [
        | [] ↦ added
        | tag ∷ rest ↦
            put_tags added entry.id (hydrate_tags entry.id (tag_set added entry.id) (tag ∷ rest))
      ]

-- the entry that getEntryWithTags reads, with the tags of its observed-remove set
unfoldable pub get_entry_with_tags : Replica → Uuid → Entry
get_entry_with_tags r id = elim (Lww.lookup_with_deleted r.entries id) [
  | none ↦ zero_entry
  | some entry ↦ record entry {
    tags = elim (get r.tags id) [ none ↦ [] | some s ↦ OrSet.elements s ];
  }
]

-- the entry that AddEntryWithID stores
abbrev pub fresh_entry : Uuid → EntryType → List ℕ → ℕ → Entry
fresh_entry id entry_type content timestamp = record {
  id = id;
  type = entry_type;
  content = content;
  tags = [];
  created_at = timestamp;
  updated_at = timestamp;
  deleted = false;
}

-- a new tag set takes the place of any that the id had
abbrev pub set_new_tags : (ℕ → Uuid) → Replica → Uuid → List Text → Replica
set_new_tags tokens r id [] = r
set_new_tags tokens r id (tag ∷ rest) = put_tags r id (add_tags tokens 0 new_or_set (tag ∷ rest))

module _ ⦃uuids : UuidPackage⦄ where
  -- `id` is given by the caller, or is uuid.New() for AddEntry
  unfoldable pub add_entry_with_id :
      (ℕ → Uuid) → Replica → Uuid → EntryType → List ℕ → List Text → Replica × Entry
  add_entry_with_id tokens r id entry_type content tags =
      let (clock, timestamp) = tick r.clock in
      let stored = record r {
        clock = clock;
        entries = Lww.add r.entries (fresh_entry id entry_type content timestamp);
      } in
      let tagged = set_new_tags tokens stored id tags in (tagged, get_entry_with_tags tagged id)

-- for t := range currentTags { if !keep { tagSet.Remove(t) } }
unfoldable pub remove_missing : GoSet Text → OrSet → List Text → OrSet
remove_missing new_tags s [] = s
remove_missing new_tags s (t ∷ rest) =
    remove_missing new_tags (if has new_tags t then s else OrSet.remove s t) rest

-- for t := range newTags { if !exists { tagSet.Add(t) } }, `i` tokens drawn before
unfoldable pub add_missing : (ℕ → Uuid) → ℕ → GoSet Text → OrSet → List Text → OrSet
add_missing tokens i current_tags s [] = s
add_missing tokens i current_tags s (t ∷ rest) =
    add_missing tokens (if has current_tags t then i else suc i) current_tags
      (if has current_tags t then s else (OrSet.add s t (tokens i)).0) rest

abbrev pub set_of : List Text → GoSet Text
set_of = foldl insert GoMap.empty

-- the tag set after an update to the list `new`
unfoldable pub replace_tags : (ℕ → Uuid) → OrSet → List Text → OrSet
unfolding remove_missing add_missing
replace_tags tokens s new =
    let current_tags = set_of (OrSet.elements s) in
    let new_tags = set_of new in
    add_missing tokens 0 current_tags (remove_missing new_tags s (keys current_tags))
      (keys new_tags)

abbrev pub set_tags : (ℕ → Uuid) → Replica → Uuid → Option (List Text) → Replica
set_tags tokens r id none = r
set_tags tokens r id (some new) = put_tags r id (replace_tags tokens (tag_set r id) new)

-- `*content`, or the old content where `content` is nil
abbrev pub new_content : List ℕ → Option (List ℕ) → List ℕ
new_content old none = old
new_content old (some content) = content

module _ ⦃uuids : UuidPackage⦄ where
  -- the update of an entry that is there and not deleted
  unfoldable pub write_update :
      (ℕ → Uuid) → Replica → Uuid → Entry → Option (List ℕ) → Option (List Text) → Replica
  write_update tokens r id existing content update_tags =
      let (clock, timestamp) = tick r.clock in
      let updated = record (clone_entry existing) {
        content = new_content existing.content content;
        updated_at = timestamp;
      } in
      let stored = record r { clock = clock; entries = Lww.add r.entries updated } in
      set_tags tokens stored id update_tags

  unfoldable pub update_entry :
      (ℕ → Uuid) → Replica → Uuid → Option (List ℕ) → Option (List Text) → Result Replica
  unfolding write_update
  update_entry tokens r id content update_tags = elim (Lww.lookup_with_deleted r.entries id) [
    | none ↦ err (not_found id)
    | some existing ↦
        if existing.deleted
        then err (is_deleted id)
        else ok (write_update tokens r id existing content update_tags)
  ]

unfoldable pub delete_entry : Replica → Uuid → Result Replica
delete_entry r id = elim (Lww.lookup_with_deleted r.entries id) [
  | none ↦ err (not_found id)
  | some _ ↦
      let (clock, timestamp) = tick r.clock in
      ok (record r { clock = clock; entries = Lww.remove r.entries id timestamp })
]

unfoldable pub get_entry : Replica → Uuid → Result Entry
get_entry r id = elim (Lww.lookup r.entries id) [
  | none ↦ elim (Lww.lookup_with_deleted r.entries id) [
    | some _ ↦ err (is_deleted id)
    | none ↦ err (not_found id)
  ]
  | some _ ↦ ok (get_entry_with_tags r id)
]

unfoldable pub list_entries : Replica → List Entry
list_entries r = map (λ (e : Entry). get_entry_with_tags r e.id) (Lww.elements r.entries)
