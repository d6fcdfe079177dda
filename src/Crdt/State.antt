-- ===== src/Crdt/State.antt =====
-- internal/crdt/replica.go: what replicas send one another. The whole state, `State` and
-- `LoadState`, and the changes since a time, `DeltaState` and `ApplyDelta`.
pub mod Loads
pub mod RoundTrip
pub mod Delta
pub mod Sync
use acorde.Base.{ℕ, Option, none, some, List, [], ◌∷◌, foldl, ltb, if◌then◌else◌}
use acorde.Base.Equality.{nat_eq}
use acorde.Core.Uuid.{Uuid, UuidPackage}
use acorde.Core.Clock.{now, update}
use acorde.Core.Entry.{Acl}
use acorde.GoMap
use acorde.GoMap.{GoMap, get, put, values}
use acorde.GoMap.Sets.{insert}
use acorde.Crdt.Lww
use acorde.Crdt.Lww.{LwwSet, LwwElement}
use acorde.Crdt.OrSet
use acorde.Crdt.OrSet.{OrSet, TagToken, tag_token_eq, new_or_set, add_with_token, remove_token}
use acorde.Crdt.Replica.{Replica, tag_set, put_tags}
use acorde.Crdt.Replica.Acls.{set_acl}

pub record TagSetState : Type 0 where
  pub adds : List TagToken
  pub removes : List TagToken

pub record ReplicaState : Type 0 where
  pub entries : List LwwElement
  pub tags : GoMap Uuid TagSetState
  pub acls : GoMap Uuid Acl
  pub clock_time : ℕ

abbrev pub export_tag_set : OrSet → TagSetState
export_tag_set s = record { adds = OrSet.all_adds s; removes = OrSet.all_removes s }

-- one turn of the loop of exportTags
abbrev pub export_entry : GoMap Uuid TagSetState → Uuid × OrSet → GoMap Uuid TagSetState
export_entry m e = put m e.0 (export_tag_set e.1)

unfoldable pub export_tags : Replica → GoMap Uuid TagSetState
export_tags r = foldl export_entry GoMap.empty r.tags.entries

unfoldable pub state : Replica → ReplicaState
unfolding export_tags
state r = record {
  entries = Lww.all_elements r.entries;
  tags = export_tags r;
  acls = r.acls;
  clock_time = now r.clock;
}

-- the tokens of `adds`, then those of `removes`, which go into both sets
abbrev pub load_add : OrSet → TagToken → OrSet
load_add s tt = add_with_token s tt.tag tt.token

abbrev pub load_remove : OrSet → TagToken → OrSet
load_remove s tt = record { adds = insert s.adds tt; removes = insert s.removes tt }

unfoldable pub load_tag_set : TagSetState → OrSet
load_tag_set t = foldl load_remove (foldl load_add new_or_set t.adds) t.removes

abbrev pub load_tags : GoMap Uuid OrSet → Uuid × TagSetState → GoMap Uuid OrSet
load_tags m e = put m e.0 (load_tag_set e.1)

-- the key of the map is not looked at: SetACL goes by the list's own id
abbrev pub load_acl : Replica → Uuid × Acl → Replica
load_acl r e = set_acl r e.1

module _ ⦃uuids : UuidPackage⦄ where
  unfoldable pub load_element : LwwSet → LwwElement → LwwSet
  load_element s el =
      let added = Lww.add s el.entry in
      if el.deleted then Lww.remove added el.entry.id el.timestamp else added

  unfoldable pub load_state : Replica → ReplicaState → Replica
  unfolding load_element load_tag_set
  load_state r st =
      let loaded = record r {
        entries = foldl load_element r.entries st.entries;
        tags = foldl load_tags r.tags st.tags.entries;
      } in
      foldl load_acl loaded st.acls.entries

unfoldable pub later_elements : ℕ → List LwwElement → List LwwElement
later_elements since [] = []
later_elements since (el ∷ els) =
    let rest = later_elements since els in if ltb since el.timestamp then el ∷ rest else rest

unfoldable pub entries_since : Replica → ℕ → List LwwElement
unfolding later_elements
entries_since r since = later_elements since (Lww.all_elements r.entries)

pub record DeltaReplicaState : Type 0 where
  pub entries : List LwwElement
  pub tags : GoMap Uuid TagSetState
  pub acls : GoMap Uuid Acl
  pub clock_time : ℕ
  pub since : ℕ

-- one turn of the loop over the changed entries
unfoldable delta_tags : Replica → GoMap Uuid TagSetState → List LwwElement → GoMap Uuid TagSetState
delta_tags r tags [] = tags
delta_tags r tags (el ∷ els) =
    delta_tags r
      (elim (get r.tags el.entry.id) [
        | none ↦ tags
        | some s ↦ put tags el.entry.id (export_tag_set s)
      ])
      els

abbrev delta_acl : ℕ → GoMap Uuid Acl → Uuid × Acl → GoMap Uuid Acl
delta_acl since m e = if ltb since e.1.timestamp then put m e.0 e.1 else m

unfoldable pub delta_state : Replica → ℕ → DeltaReplicaState
unfolding entries_since delta_tags
delta_state r since = record {
  entries = entries_since r since;
  tags = delta_tags r GoMap.empty (entries_since r since);
  acls = foldl (delta_acl since) GoMap.empty r.acls.entries;
  clock_time = now r.clock;
  since = since;
}

abbrev apply_remove : OrSet → TagToken → OrSet
apply_remove s tt = remove_token s tt.token

abbrev pub apply_tags : Replica → Uuid × TagSetState → Replica
apply_tags r e =
    put_tags r e.0 (foldl apply_remove (foldl load_add (tag_set r e.0) e.1.adds) e.1.removes)

module _ ⦃uuids : UuidPackage⦄ where
  unfoldable pub apply_delta : Replica → DeltaReplicaState → Replica
  apply_delta r delta =
      let entered = record r {
        entries = foldl (λ s (el : LwwElement). Lww.add s el.entry) r.entries delta.entries;
      } in
      let tagged = foldl apply_tags entered delta.tags.entries in
      let listed = foldl load_acl tagged delta.acls.entries in
      record listed { clock = (update listed.clock delta.clock_time).0 }
