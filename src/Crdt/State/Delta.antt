-- ===== src/Crdt/State/Delta.antt =====
-- What a replica holds after it applies the changes of another since a time: `DeltaState` and
-- `ApplyDelta` of internal/crdt/replica.go.
use acorde.Base.{
  ℕ, ◌≡◌, ◌≤◌, refl, ◌∙◌, ap, Option, none, some, inl, inr, Bool-cases, List, [], ◌∷◌, foldl, ltb,
  ==_iff, if◌then◌else◌, arith,
}
use acorde.Base.Equality.{nat_eq}
use acorde.Core.Uuid.{Uuid, UuidPackage}
use acorde.GoMap.{assoc, get, values, Distinct}
use acorde.GoMap.Every.{Every, Every-head, Every-tail}
use acorde.Crdt.Lww
use acorde.Crdt.Lww.{LwwSet, LwwElement, element_of, all_elements}
use acorde.Crdt.Lww.Invariant.{IsElement, IsLww, get-add, add-IsLww, added}
use acorde.Crdt.Replica.{Replica}
use acorde.Crdt.Replica.Invariant.{IsReplica}
use acorde.Crdt.State.Loads.{entries-load_acls}
use acorde.Crdt.State.{
  TagSetState, later_elements, entries_since, delta_state, apply_tags, apply_delta,
}

-- what an id holds after a delta: the other's element, if it is later than `since` and later than
-- what stood there
abbrev delta_join : ℕ → Option LwwElement → Option LwwElement → Option LwwElement
delta_join since old none = old
delta_join since old (some el) = if ltb since el.timestamp then some (added old el.entry) else old

-- the entries of the delta, added one after another
abbrev add_all : ⦃uuids : UuidPackage⦄ → LwwSet → List LwwElement → LwwSet
add_all = foldl (λ s (el : LwwElement). Lww.add s el.entry)

module _ ⦃uuids : UuidPackage⦄ (since : ℕ) where
  get-add_all :
      (l : List (Uuid × LwwElement)) (s : LwwSet) (id : Uuid)
      → IsLww s
      → Distinct l
      → Every IsElement l
      → get (add_all s (later_elements since (values (record { entries = l })))).elements id
        ≡ delta_join since (get s.elements id) (assoc l id)
  unfolding later_elements assoc
  get-add_all [] s id h d e = refl
  get-add_all ((k, el) ∷ l) s id h d e =
      let key = (Every-head IsElement k el l e).keyed in
      let rest = Every-tail IsElement k el l d e in
      elim (Bool-cases (ltb since el.timestamp)) [
        | inl new ↦ rw new (
            get-add_all l (Lww.add s el.entry) id (add-IsLww s el.entry h) d.1 rest
            ∙ ground
                (arith, new, d.0, key, get-add s el.entry id h, ==_iff k id, ==_iff el.entry.id id))
        | inr old ↦ rw old (get-add_all l s id h d.1 rest ∙ ground (arith, old, d.0, ==_iff k id))
      ]

  entries-apply_tags :
      (l : List (Uuid × TagSetState)) (q : Replica) → (foldl apply_tags q l).entries ≡ q.entries
  entries-apply_tags [] q = refl
  entries-apply_tags (x ∷ l) q = entries-apply_tags l (apply_tags q x)

  -- what an id holds after a replica applies the changes of another
  pub get-apply_delta :
      (r other : Replica) (id : Uuid)
      → IsReplica r
      → IsReplica other
      → get (apply_delta r (delta_state other since)).entries.elements id
        ≡ delta_join since (get r.entries.elements id) (get other.entries.elements id)
  unfolding apply_delta delta_state all_elements
  get-apply_delta r other id h k =
      let delta = delta_state other since in
      let entered : Replica = record r {
        entries = add_all r.entries (entries_since other since);
      } in
      ap (λ s. get s.elements id)
        (entries-load_acls delta.acls.entries (foldl apply_tags entered delta.tags.entries)
          ∙ entries-apply_tags delta.tags.entries entered)
      ∙ get-add_all other.entries.elements.entries r.entries id h.entries.fit k.entries.fit.distinct
          k.entries.fit.at

-- the id holds an element at least as late as `t`
abbrev pub AtLeast : LwwSet → Uuid → ℕ → Type 0
AtLeast s id t = (el : LwwElement) × (get s.elements id ≡ some el) × (t ≤ el.timestamp)

later_added :
    (o : Option LwwElement) (el : LwwElement)
    → el.entry.updated_at ≡ el.timestamp
    → el.timestamp ≤ (added o el.entry).timestamp
later_added none el e = omega arith
later_added (some a) el e = ground arith

module _ ⦃uuids : UuidPackage⦄ (since : ℕ) (r other : Replica) (h : IsReplica r)
    (k : IsReplica other) where
  -- A delta catches up, between replicas that keep the invariant: a replica that holds everything
  -- of another up to a time `since`, or versions as late, holds everything of it, or versions as
  -- late, once it has applied the changes since then.
  pub apply_delta-AtLeast :
      ((id : Uuid) (el : LwwElement)
        → get other.entries.elements id ≡ some el
        → el.timestamp ≤ since
        → AtLeast r.entries id el.timestamp)
      → (id : Uuid) (el : LwwElement) → get other.entries.elements id ≡ some el
      → AtLeast (apply_delta r (delta_state other since)).entries id el.timestamp
  apply_delta-AtLeast seen id el there =
      let after = get-apply_delta since r other id h k in
      let fits = k.entries.fit.at id el there in
      elim (Bool-cases (ltb since el.timestamp)) [
        | inl new ↦
            let x = added (get r.entries.elements id) el.entry in
            (
              x,
              after ∙ ground (arith, there, new),
              later_added (get r.entries.elements id) el fits.stamped,
            )
        | inr old ↦
            let (x, here, le) = seen id el there (ground arith) in
            (x, after ∙ ground (arith, there, old, here), le)
      ]

  -- Where two replicas that keep the invariant hold elements of one time at an id, a delta leaves
  -- the element that was there, whatever the two hold: the tests by which `Merge` prefers one of
  -- them are not made.
  pub apply_delta_tie :
      (id : Uuid) (a b : LwwElement)
      → get r.entries.elements id ≡ some a
      → get other.entries.elements id ≡ some b
      → a.timestamp ≡ b.timestamp
      → get (apply_delta r (delta_state other since)).entries.elements id ≡ some a
  apply_delta_tie id a b here there tie =
      let fits = k.entries.fit.at id b there in
      get-apply_delta since r other id h k ∙ ground (arith, here, there, fits.stamped)
