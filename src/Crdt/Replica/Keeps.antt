-- ===== src/Crdt/Replica/Keeps.antt =====
-- Writes of entries, internal/crdt/replica.go, keep the invariant of replicas.
use mathlib.Core.Path.{subst}
use acorde.Base.{ℕ, ◌+◌, ◌≤◌, ◌<◌, ◌≡◌, refl, sym, Option, none, some, List, [], ◌∷◌, arith}
use acorde.Base.Text.{Text}
use acorde.Core.Uuid.{Uuid, UuidPackage}
use acorde.Core.Clock.{Clock, u64_mod, tick, tick_lem}
use acorde.Core.Entry.{Entry, EntryType, clone_entry}
use acorde.Crdt.Lww
use acorde.Crdt.OrSet.{new_or_set}
use acorde.Crdt.OrSet.Merge.{new_or_set-IsOrSet}
use acorde.GoMap.{assoc}
use acorde.Crdt.Lww.Invariant.{new_lww_set-IsLww}
use acorde.Crdt.Replica.{
  new_replica, Replica, ok, add_tags, fresh_entry, set_new_tags, add_entry_with_id, replace_tags,
  set_tags, tag_set, put_tags, new_content, write_update, update_entry, hydrate_entry, hydrate_tags,
}
use acorde.Crdt.Replica.Outcomes.{update_ok}
use acorde.Crdt.Replica.TagSets.{
  put-TagsFit, tag_set-IsOrSet, add_tags-IsOrSet, hydrate_tags-IsOrSet, replace_tags-IsOrSet,
}
use acorde.Crdt.Replica.Invariant.{IsReplica, EntriesBy-mono, AclsBy-mono, add-EntriesBy}

-- the clock may be advanced once more
abbrev pub HasTime : Replica → Type 0
HasTime r = r.clock.time + 1 < u64_mod

pub new_replica-IsReplica : (clock : Clock) → IsReplica (new_replica clock)
unfolding assoc
new_replica-IsReplica clock = record {
  entries = record { fit = new_lww_set-IsLww; by = λ id el h. absurd (cc) };
  tags = record { distinct = tt; observed = λ id s h. absurd (cc) };
  acls = record { distinct = tt; keyed = λ id a h. absurd (cc); by = λ id a h. absurd (cc) };
}

module _ (r : Replica) (h : IsReplica r) where
  -- the state after a tick, before anything is written
  pub ticked-IsReplica : HasTime r → IsReplica (record r { clock = (tick r.clock).0 })
  ticked-IsReplica time =
      let (_, later) = tick_lem r.clock time in
      record {
        entries = EntriesBy-mono (omega arith) h.entries;
        tags = h.tags;
        acls = AclsBy-mono (omega arith) h.acls;
      }

  set_new_tags-IsReplica :
      (tokens : ℕ → Uuid) (id : Uuid) (tags : List Text) → IsReplica (set_new_tags tokens r id tags)
  set_new_tags-IsReplica tokens id [] = h
  set_new_tags-IsReplica tokens id (t ∷ rest) = record {
    entries = h.entries;
    tags =
        put-TagsFit r.tags id (add_tags tokens 0 new_or_set (t ∷ rest)) h.tags
          (add_tags-IsOrSet tokens 0 new_or_set (t ∷ rest) new_or_set-IsOrSet);
    acls = h.acls;
  }

  set_tags-IsReplica :
      (tokens : ℕ → Uuid) (id : Uuid) (tags : Option (List Text))
      → IsReplica (set_tags tokens r id tags)
  set_tags-IsReplica tokens id none = h
  set_tags-IsReplica tokens id (some new) = record {
    entries = h.entries;
    tags =
        put-TagsFit r.tags id (replace_tags tokens (tag_set r id) new) h.tags
          (replace_tags-IsOrSet tokens (tag_set r id) new (tag_set-IsOrSet r id h.tags));
    acls = h.acls;
  }

module _ ⦃uuids : UuidPackage⦄ (r : Replica) (h : IsReplica r) where
  -- a write of an entry that is stamped with the present time of the clock
  pub write-IsReplica :
      (e : Entry)
      → e.updated_at ≤ r.clock.time
      → IsReplica (record r { entries = Lww.add r.entries e })
  write-IsReplica e le = record {
    entries = add-EntriesBy r.clock.time r.entries e h.entries le;
    tags = h.tags;
    acls = h.acls;
  }

module _ ⦃uuids : UuidPackage⦄ (r : Replica) (h : IsReplica r) where
  -- the entry is written at the time of the new tick
  ticked_write :
      (e : Entry)
      → HasTime r
      → e.updated_at ≡ (tick r.clock).1
      → IsReplica (record r { clock = (tick r.clock).0; entries = Lww.add r.entries e })
  ticked_write e time at =
      let (now, later) = tick_lem r.clock time in
      write-IsReplica (record r { clock = (tick r.clock).0 }) (ticked-IsReplica r h time) e
        (omega arith)

  -- Adding an entry keeps the invariant, short of the last value of the clock.
  pub add_entry_with_id-IsReplica :
      (tokens : ℕ → Uuid) (id : Uuid) (entry_type : EntryType) (content : List ℕ) (tags : List Text)
      → HasTime r
      → IsReplica (add_entry_with_id tokens r id entry_type content tags).0
  unfolding add_entry_with_id
  add_entry_with_id-IsReplica tokens id entry_type content tags time =
      let e = fresh_entry id entry_type content (tick r.clock).1 in
      set_new_tags-IsReplica (record r { clock = (tick r.clock).0; entries = Lww.add r.entries e })
        (ticked_write e time refl) tokens id tags

  write_update-IsReplica :
      (tokens : ℕ → Uuid) (id : Uuid) (e : Entry) (content : Option (List ℕ))
      (tags : Option (List Text))
      → HasTime r
      → IsReplica (write_update tokens r id e content tags)
  unfolding write_update
  write_update-IsReplica tokens id e content tags time =
      let u = record (clone_entry e) {
        content = new_content e.content content;
        updated_at = (tick r.clock).1;
      } in
      set_tags-IsReplica (record r { clock = (tick r.clock).0; entries = Lww.add r.entries u })
        (ticked_write u time refl) tokens id tags

  -- An update that succeeds keeps the invariant, short of the last value of the clock.
  pub update_entry-IsReplica :
      (tokens : ℕ → Uuid) (id : Uuid) (content : Option (List ℕ)) (tags : Option (List Text))
      (r' : Replica)
      → HasTime r
      → update_entry tokens r id content tags ≡ ok r'
      → IsReplica r'
  update_entry-IsReplica tokens id content tags r' time e =
      let (el, _, _, same) = update_ok tokens r id content tags r' e in
      subst IsReplica (sym same) (write_update-IsReplica tokens id el.entry content tags time)

  -- Loading an entry from storage keeps the invariant, if the entry is not later than the clock.
  pub hydrate_entry-IsReplica :
      (e : Entry) → e.updated_at ≤ r.clock.time → IsReplica (hydrate_entry r e)
  unfolding hydrate_entry
  hydrate_entry-IsReplica e le =
      elim e.tags
        as (λ l. IsReplica (elim l [
          | [] ↦ record r { entries = Lww.add r.entries e }
          | tag ∷ rest ↦
              put_tags (record r { entries = Lww.add r.entries e }) e.id
                (hydrate_tags e.id (tag_set (record r { entries = Lww.add r.entries e }) e.id)
                  (tag ∷ rest))
        ])) [
          | [] ↦ written
          | tag ∷ rest ↦ record {
            entries = written.entries;
            tags =
                put-TagsFit r.tags e.id (hydrate_tags e.id (tag_set r e.id) (tag ∷ rest)) h.tags (
                  hydrate_tags-IsOrSet e.id (tag_set r e.id) (tag ∷ rest)
                    (tag_set-IsOrSet r e.id h.tags));
            acls = h.acls;
          }
        ]
    where
      written : IsReplica (record r { entries = Lww.add r.entries e })
      written = write-IsReplica r h e le
