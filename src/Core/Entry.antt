-- ===== src/Core/Entry.antt =====
-- internal/core/entry.go: entries, their types and their access control lists.
use acorde.Base.{ℕ, Bool, true, false, List, [], ◌∷◌, none, some, ◌≡◌, refl}
use acorde.Base.Equality.{nat_eq, list_eq}
use acorde.Base.Text.{Text, codes}
use acorde.Core.Uuid.{Uuid}
use acorde.GoMap.{GoMap, get, assoc}

abbrev pub EntryType : Type 0
EntryType = Text

abbrev valid_entry_types : GoMap EntryType Bool
valid_entry_types = record {
  entries =
      (codes "note", true)
      ∷ (codes "log", true)
      ∷ (codes "file", true)
      ∷ (codes "event", true)
      ∷ [];
}

-- reading a missing key of a map into bool gives false
unfoldable pub is_valid : EntryType → Bool
unfolding assoc
is_valid t = elim (get valid_entry_types t) [ none ↦ false | some b ↦ b ]

pub record Entry : Type 0 where
  pub id : Uuid
  pub type : EntryType
  pub content : List ℕ
  pub tags : List Text
  pub created_at : ℕ
  pub updated_at : ℕ
  pub deleted : Bool

-- core.Entry{}
abbrev pub zero_entry : Entry
zero_entry = record {
  id = 0;
  type = [];
  content = [];
  tags = [];
  created_at = 0;
  updated_at = 0;
  deleted = false;
}

-- `id` is the result of uuid.New(); nil tags and no tags are one value here
unfoldable new_entry : Uuid → EntryType → List ℕ → List Text → ℕ → Entry
new_entry id entry_type content tags clock_time = record {
  id = id;
  type = entry_type;
  content = content;
  tags = tags;
  created_at = clock_time;
  updated_at = clock_time;
  deleted = false;
}

-- a deep copy: slices are values here, so the copy is field by field
abbrev pub clone_entry : Entry → Entry
clone_entry e = record {
  id = e.id;
  type = e.type;
  content = e.content;
  tags = e.tags;
  created_at = e.created_at;
  updated_at = e.updated_at;
  deleted = e.deleted;
}

pub record Acl : Type 0 where
  pub entry_id : Uuid
  pub owner : Text
  pub readers : List Text
  pub writers : List Text
  pub public : Bool
  pub timestamp : ℕ

abbrev pub clone_acl : Acl → Acl
clone_acl a = record {
  entry_id = a.entry_id;
  owner = a.owner;
  readers = a.readers;
  writers = a.writers;
  public = a.public;
  timestamp = a.timestamp;
}

is_valid-note : is_valid (codes "note") ≡ true
unfolding is_valid
is_valid-note = refl
