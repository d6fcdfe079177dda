-- ===== src/Startup/Recovers.antt =====
-- internal/engine/engine_impl.go: the replica that New makes of the store.
use mathlib.Core.Path.{subst}
use acorde.Storage.Sql.{max_of}
use acorde.Base.{
  ◌⊎◌, Option-cases, inl, inr, none, some, ℕ, ◌≡◌, refl, sym, ◌≤◌, Option, List, [], ◌∷◌, map,
  ==_iff, arith,
}
use acorde.Base.Equality.{nat_eq, list_eq}
use acorde.Core.Uuid.{Uuid, UuidPackage}
use acorde.Core.Clock.{Clock, new_clock_with_time}
use acorde.Core.Entry.{Entry, Acl}
use acorde.Crdt.OrSet.{tag_token_eq}
use acorde.Crdt.Replica.{Replica, new_replica, hydrate_entry}
use acorde.Crdt.Replica.Acls.{set_acl}
use acorde.Crdt.Replica.Invariant.{IsReplica}
use acorde.Crdt.Replica.Keeps.{new_replica-IsReplica, hydrate_entry-IsReplica}
use acorde.Storage
use acorde.Storage.{Answer, answer, get_max_timestamp}
use acorde.Storage.Sql.{Tables}
use acorde.Storage.Batches.{get_max_timestamp-get}
use acorde.Storage.Keeps.{IsTables}
use acorde.Storage.Queries.{
  entry_at, DistinctIds, read_row, queried, list_lem, list-get, queried-DistinctIds,
}
use acorde.Startup.{with_deleted, hydrate_all, hydrated, set_acls}

pub Answer-cases :
    {A : Type 0} (a : Answer A)
    → ((elim a as (λ x. Option A) [ answer x ↦ some x | _ ↦ none ]) ≡ none)
      ⊎ ((x : A) × (a ≡ answer x))
Answer-cases Answer.failed = inl refl
Answer-cases (Answer.not_found id) = inl refl
Answer-cases (answer x) = inr (x, refl)

module _ ⦃uuids : UuidPackage⦄ where
  -- the entries of the store, in the order of the query
  abbrev pub all_entries : Tables → List Entry
  all_entries t = map (read_row t) (queried t with_deleted)

  pub entry_at-all_entries :
      (t : Tables) (id : Uuid)
      → IsTables t
      → entry_at (all_entries t) id ≡ (elim (Storage.get t id []) [
        | Answer.failed ↦ none
        | Answer.not_found _ ↦ none
        | answer e ↦ some e
      ])
  entry_at-all_entries t id h =
      let (l, listed, _, reads) = list-get t with_deleted h.rows refl refl refl in
      let same = list_lem t with_deleted refl refl refl in ground (arith, listed, same, reads id)

  pub hydrated_lem :
      (t : Tables)
      → (time : ℕ) × (get_max_timestamp t [] ≡ some time)
        × (hydrated t [] []
            ≡ some (hydrate_all (new_replica (new_clock_with_time time)) (all_entries t)))
  unfolding hydrated get_max_timestamp
  hydrated_lem t =
      let same = list_lem t with_deleted refl refl refl in
      elim (Option-cases (max_of t.entries)) [
        | inl n ↦ (0, ground (arith, n), ground (arith, n, same))
        | inr (time, n) ↦ (time, ground (arith, n), ground (arith, n, same))
      ]

  hydrate_entry-clock : (r : Replica) (e : Entry) → (hydrate_entry r e).clock ≡ r.clock
  unfolding hydrate_entry
  hydrate_entry-clock r e = ground arith

  hydrate_all-IsReplica :
      (r : Replica) (l : List Entry)
      → IsReplica r
      → DistinctIds l
      → ((id : Uuid) (e : Entry) → entry_at l id ≡ some e → e.updated_at ≤ r.clock.time)
      → IsReplica (hydrate_all r l)
  unfolding hydrate_all
  hydrate_all-IsReplica r [] h d by = h
  hydrate_all-IsReplica r (e ∷ l) h d by =
      let next = hydrate_entry r e in
      hydrate_all-IsReplica next l
        (hydrate_entry-IsReplica r h e (by e.id e (ground (arith, ==_iff e.id e.id)))) d.1
        (λ id x g.
          subst (λ (c : Clock). x.updated_at ≤ c.time) (sym (hydrate_entry-clock r e))
            (by id x (ground (arith, g, d.0, ==_iff e.id id))))

  not_behind :
      (t : Tables) (id : Uuid) (e : Entry) (time : ℕ)
      → IsTables t
      → entry_at (all_entries t) id ≡ some e
      → get_max_timestamp t [] ≡ some time
      → e.updated_at ≤ (new_clock_with_time time).time
  unfolding new_clock_with_time
  not_behind t id e time h g max = elim (Answer-cases (Storage.get t id [])) [
    | inl none_there ↦ absurd (ground (arith, none_there, g, entry_at-all_entries t id h))
    | inr (x, there) ↦
        let (later, m, le) = get_max_timestamp-get t id x there in
        ground (arith, g, there, entry_at-all_entries t id h, m, max, le)
  ]

  -- Where the database does not fail and the tables keep their invariant, the replica that New fills
  -- from the store keeps the replica's invariant: in particular its clock is not behind any entry.
  pub hydrated-IsReplica :
      (t : Tables) → IsTables t → (r : Replica) × (hydrated t [] [] ≡ some r) × IsReplica r
  hydrated-IsReplica t h =
      let (time, max, filled) = hydrated_lem t in
      let start = new_replica (new_clock_with_time time) in
      (
        hydrate_all start (all_entries t),
        filled,
        hydrate_all-IsReplica start (all_entries t)
            (new_replica-IsReplica (new_clock_with_time time))
            (queried-DistinctIds t with_deleted h.rows) (λ id e g. not_behind t id e time h g max),
      )

  pub set_acls-same :
      (r : Replica) (l : List Acl)
      → ((set_acls r l).entries ≡ r.entries) × ((set_acls r l).tags ≡ r.tags)
  unfolding set_acls set_acl
  set_acls-same r [] = (refl, refl)
  set_acls-same r (acl ∷ l) = ground (arith, set_acls-same (set_acl r acl) l)
