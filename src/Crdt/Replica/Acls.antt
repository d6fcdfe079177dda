-- ===== src/Crdt/Replica/Acls.antt =====
-- internal/crdt/replica.go: access control lists, last writer wins, and the merge of replicas.
use acorde.Base.{ℕ, Option, none, some, List, [], ◌∷◌, foldl, ltb, ◌==◌, if◌then◌else◌}
use acorde.Base.Equality.{nat_eq}
use acorde.Base.Ordered.{is_gt}
use acorde.Base.Text.{compare_text}
use acorde.Core.Uuid.{Uuid}
use acorde.Core.Clock.{tick, update, now, new_clock_with_time}
use acorde.Core.Entry.{Acl, clone_acl}
use acorde.GoMap
use acorde.GoMap.{GoMap, get, put, values}
use acorde.Crdt.Lww
use acorde.Crdt.Lww.{LwwElement}
use acorde.Crdt.OrSet
use acorde.Crdt.OrSet.{OrSet}
use acorde.Crdt.Replica.{Replica}

-- the write of `SetACL` and of the loop of `Merge`
unfoldable pub put_acl : GoMap Uuid Acl → Uuid × Acl → GoMap Uuid Acl
put_acl m (id, acl) = elim (get m id) [
  | none ↦ put m id acl
  | some existing ↦
      if ltb existing.timestamp acl.timestamp
      then put m id acl
      else if acl.timestamp == existing.timestamp
      then (if is_gt (compare_text acl.owner existing.owner) then put m id acl else m)
      else m
]

unfoldable pub set_acl : Replica → Acl → Replica
unfolding put_acl
set_acl r acl =
    if acl.timestamp == 0
    then (let (clock, timestamp) = tick r.clock in
        let stamped = record acl { timestamp = timestamp } in
        record r { clock = clock; acls = put_acl r.acls (acl.entry_id, stamped) })
    else record r {
      clock = (update r.clock acl.timestamp).0;
      acls = put_acl r.acls (acl.entry_id, acl);
    }

abbrev pub get_acl : Replica → Uuid → Option Acl
get_acl r id = get r.acls id

abbrev pub list_acls : Replica → List Acl
list_acls r = values r.acls

unfoldable pub latest_element : ℕ → List LwwElement → ℕ
latest_element max [] = max
latest_element max (el ∷ els) =
    latest_element (if ltb max el.timestamp then el.timestamp else max) els

unfoldable pub latest_acl : ℕ → List Acl → ℕ
latest_acl max [] = max
latest_acl max (acl ∷ acls) = latest_acl (if ltb max acl.timestamp then acl.timestamp else max) acls

unfoldable pub max_timestamp : Replica → ℕ
unfolding latest_element latest_acl
max_timestamp r = latest_acl (latest_element 0 (Lww.all_elements r.entries)) (values r.acls)

-- one turn of the loop of `Merge` over the tag sets
unfoldable pub merge_tags : GoMap Uuid OrSet → Uuid × OrSet → GoMap Uuid OrSet
merge_tags m (id, other) = elim (get m id) [
  | some local ↦ put m id (OrSet.merge local other)
  | none ↦ put m id (OrSet.clone other)
]

unfoldable pub merge : Replica → Replica → Replica
unfolding merge_tags put_acl
merge r other = record {
  clock = (update r.clock (max_timestamp other)).0;
  entries = Lww.merge r.entries other.entries;
  tags = foldl merge_tags r.tags other.tags.entries;
  acls = foldl put_acl r.acls other.acls.entries;
}

unfoldable pub clone : Replica → Replica
clone r = record {
  entries = Lww.clone r.entries;
  tags = foldl (λ (m : GoMap Uuid OrSet) e. put m e.0 (OrSet.clone e.1)) GoMap.empty r.tags.entries;
  acls = foldl (λ (m : GoMap Uuid Acl) e. put m e.0 (clone_acl e.1)) GoMap.empty r.acls.entries;
  clock = new_clock_with_time (now r.clock);
}
