-- ===== src/Crdt/Replica/Invariant.antt =====
-- What every replica of internal/crdt/replica.go satisfies: its maps are keyed by the ids of what
-- they hold, its tag sets only remove what was added, and its clock is never behind a time that it
-- holds. Every operation keeps this, short of the last value of a uint64 clock.
use acorde.Base.{ℕ, ◌≤◌, ◌≡◌, refl, sym, ◌∙◌, Option, none, some, ==_iff, arith}
use acorde.Base.Equality.{nat_eq, list_eq}
use acorde.Core.Uuid.{Uuid, UuidPackage}
use acorde.Core.Entry.{Entry, Acl}
use acorde.GoMap.{GoMap, get, IsMap}
use acorde.GoMap.Join.{join}
use acorde.Crdt.Lww
use acorde.Crdt.Lww.{LwwElement, LwwSet, element_of}
use acorde.Crdt.Lww.Order.{compare_elements}
use acorde.Crdt.Lww.Merge.{get-merge}
use acorde.Crdt.Lww.Invariant.{IsLww, get-add, get-remove, add-IsLww, remove-IsLww, merge-IsLww}
use acorde.Crdt.Replica.{Replica}
use acorde.Crdt.Replica.Acls.{put_acl, merge}
use acorde.Crdt.Replica.Registers.{
  compare_acls, get-put_acl, put_acl-IsMap, acls-merge, acls-merge-IsMap,
}
use acorde.Crdt.Replica.TagSets.{TagsFit}

-- the entries fit their keys, and none is later than `time`
pub record EntriesBy (time : ℕ) (s : LwwSet) : Type 0 where
  pub fit : IsLww s
  pub by : (id : Uuid) (el : LwwElement) → get s.elements id ≡ some el → el.timestamp ≤ time

-- the lists stand under the ids of their entries, and none is later than `time`
pub record AclsBy (time : ℕ) (m : GoMap Uuid Acl) : Type 0 where
  pub distinct : IsMap m
  pub keyed : (id : Uuid) (a : Acl) → get m id ≡ some a → a.entry_id ≡ id
  pub by : (id : Uuid) (a : Acl) → get m id ≡ some a → a.timestamp ≤ time

pub record IsReplica (r : Replica) : Type 0 where
  pub entries : EntriesBy r.clock.time r.entries
  pub tags : TagsFit r.tags
  pub acls : AclsBy r.clock.time r.acls

-- later is a weaker bound
pub EntriesBy-mono : {t u : ℕ} {s : LwwSet} → t ≤ u → EntriesBy t s → EntriesBy u s
EntriesBy-mono le h = record { fit = h.fit; by = λ id el g. omega (arith, h.by id el g) }

pub AclsBy-mono : {t u : ℕ} {m : GoMap Uuid Acl} → t ≤ u → AclsBy t m → AclsBy u m
AclsBy-mono le h = record {
  distinct = h.distinct;
  keyed = h.keyed;
  by = λ id a g. omega (arith, h.by id a g);
}

module _ ⦃uuids : UuidPackage⦄ where
  pub add-EntriesBy :
      (t : ℕ) (s : LwwSet) (e : Entry)
      → EntriesBy t s
      → e.updated_at ≤ t
      → EntriesBy t (Lww.add s e)
  add-EntriesBy t s e h le = record {
    fit = add-IsLww s e h.fit;
    by = λ id el g. ground (arith, get-add s e id h.fit, h.by id el, ==_iff e.id id);
  }

pub remove-EntriesBy :
    (t : ℕ) (s : LwwSet) (id : Uuid) (time : ℕ)
    → EntriesBy t s
    → time ≤ t
    → EntriesBy t (Lww.remove s id time)
remove-EntriesBy t s id time h le = record {
  fit = remove-IsLww s id time h.fit;
  by = λ j el g. ground (arith, get-remove s id time j, h.by j el, ==_iff id j);
}

join_le :
    (t : ℕ) (o p : Option LwwElement) (el : LwwElement)
    → ((x : LwwElement) → o ≡ some x → x.timestamp ≤ t)
    → ((x : LwwElement) → p ≡ some x → x.timestamp ≤ t)
    → join compare_elements o p ≡ some el
    → el.timestamp ≤ t
join_le t none p el ho hp h = hp el h
join_le t (some a) none el ho hp h = ho el h
join_le t (some a) (some b) el ho hp h = ground (arith, ho a refl, hp b refl)

pub merge-EntriesBy :
    (t : ℕ) (s u : LwwSet) → EntriesBy t s → EntriesBy t u → EntriesBy t (Lww.merge s u)
merge-EntriesBy t s u hs hu = record {
  fit = merge-IsLww s u hs.fit hu.fit;
  by = λ id el g.
      join_le t (get s.elements id) (get u.elements id) el (hs.by id) (hu.by id)
        (sym (get-merge s u id hu.fit.distinct) ∙ g);
}

pub put_acl-AclsBy :
    (t : ℕ) (m : GoMap Uuid Acl) (a : Acl)
    → AclsBy t m
    → a.timestamp ≤ t
    → AclsBy t (put_acl m (a.entry_id, a))
put_acl-AclsBy t m a h le = record {
  distinct = put_acl-IsMap m a.entry_id a h.distinct;
  keyed =
      λ id x g. ground (arith, get-put_acl m a.entry_id id a, h.keyed id x, ==_iff a.entry_id id);
  by = λ id x g. ground (arith, get-put_acl m a.entry_id id a, h.by id x, ==_iff a.entry_id id);
}

joined_acl :
    (P : Acl → Type 0) (o p : Option Acl) (a : Acl)
    → ((x : Acl) → o ≡ some x → P x)
    → ((x : Acl) → p ≡ some x → P x)
    → join compare_acls o p ≡ some a
    → P a
joined_acl P none p a ho hp h = hp a h
joined_acl P (some x) none a ho hp h = ho a h
joined_acl P (some x) (some y) a ho hp h = ground (arith, ho x refl, hp y refl)

pub merge-AclsBy :
    (t : ℕ) (r s : Replica) → AclsBy t r.acls → AclsBy t s.acls → AclsBy t (merge r s).acls
merge-AclsBy t r s hr hs = record {
  distinct = acls-merge-IsMap r s hr.distinct;
  keyed = λ id a g.
      joined_acl (λ x. x.entry_id ≡ id) (get r.acls id) (get s.acls id) a (hr.keyed id)
        (hs.keyed id) (sym (acls-merge r s id hs.distinct) ∙ g);
  by = λ id a g.
      joined_acl (λ x. x.timestamp ≤ t) (get r.acls id) (get s.acls id) a (hr.by id) (hs.by id)
        (sym (acls-merge r s id hs.distinct) ∙ g);
}
