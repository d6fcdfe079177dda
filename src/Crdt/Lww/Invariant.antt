-- ===== src/Crdt/Lww/Invariant.antt =====
-- What every set of internal/crdt/lww.go satisfies: an element stands under the id of its entry
-- and repeats the entry's time and tombstone flag. Every operation keeps it.
use acorde.Base.{
  ℕ, ◌≡◌, refl, sym, ◌∙◌, ap, false, Option, none, some, inl, inr, Bool-cases, Option-cases, ◌⊎◌,
  List, arith, ltb, ◌==◌, ==_iff, not, ◌&&◌, ◌||◌, if◌then◌else◌,
}
use acorde.Base.Equality.{nat_eq}
use acorde.Base.Ordered.{is_gt}
use acorde.Base.Text.{compare_text, text_order}
use acorde.Core.Uuid.{Uuid, UuidPackage}
use acorde.Core.Entry.{Entry}
use acorde.GoMap.{get, IsMap}
use acorde.GoMap.Laws.{get-put, put-IsMap, get-empty}
use acorde.GoMap.Join.{join}
use acorde.Crdt.Lww.{
  LwwElement, LwwSet, new_lww_set, add, remove, merge, store, element_of, tombstone, bury,
}
use acorde.Crdt.Lww.Order.{compare_elements}
use acorde.Crdt.Lww.Merge.{get-merge, merge-IsMap}

pub record IsElement (id : Uuid) (el : LwwElement) : Type 0 where
  pub keyed : el.entry.id ≡ id
  pub stamped : el.entry.updated_at ≡ el.timestamp
  pub flagged : el.entry.deleted ≡ el.deleted

pub record IsLww (s : LwwSet) : Type 0 where
  pub distinct : IsMap s.elements
  pub at : (id : Uuid) (el : LwwElement) → get s.elements id ≡ some el → IsElement id el

pub new_lww_set-IsLww : IsLww new_lww_set
new_lww_set-IsLww = record {
  distinct = tt;
  at = λ id el h. absurd (cc (get-empty {K = Uuid} {V = LwwElement} id, h));
}

-- a write of an element that fits its key
pub store-IsLww :
    (s : LwwSet) (id : Uuid) (el : LwwElement) → IsLww s → IsElement id el → IsLww (store s id el)
store-IsLww s id el h e = record {
  distinct = put-IsMap s.elements id el h.distinct;
  at = λ j x g. ground (arith, get-put s.elements id j el, h.at j x, ==_iff id j);
}

-- the register that `Add` leaves: the entry if it is later than what stands there
abbrev pub added : Option LwwElement → Entry → LwwElement
added none e = element_of e
added (some a) e = if ltb a.timestamp e.updated_at then element_of e else a

-- the register that `Remove` leaves: a tombstone unless what stands there is later
abbrev pub removed : Option LwwElement → Uuid → ℕ → LwwElement
removed none id t = tombstone id t
removed (some a) id t =
    if ltb a.timestamp t || (t == a.timestamp && not a.deleted) then bury a t else a

text_refl : (t : List ℕ) → is_gt (compare_text t t) ≡ false
text_refl t = ground (arith, text_order.flip t t)

module _ ⦃uuids : UuidPackage⦄ where
  add_known :
      (s : LwwSet) (e : Entry) (a : LwwElement)
      → get s.elements e.id ≡ some a
      → a.entry.id ≡ e.id
      → add s e ≡ (if ltb a.timestamp e.updated_at then store s e.id (element_of e) else s)
  unfolding add
  add_known s e a h k = ground (arith, h, text_refl (uuids.string e.id), ap uuids.string k)

  add_unknown :
      (s : LwwSet) (e : Entry) → get s.elements e.id ≡ none → add s e ≡ store s e.id (element_of e)
  unfolding add
  add_unknown s e h = rw (h, add)

  -- What `Add` leaves at an id, in a set that keeps the invariant: the entry, if it is later than
  -- what stood there, and else nothing new. The second half of its test, on the strings of the
  -- ids, never makes a difference.
  pub get-add :
      (s : LwwSet) (e : Entry) (id : Uuid)
      → IsLww s
      → get (add s e).elements id
        ≡ (if e.id == id then some (added (get s.elements e.id) e) else get s.elements id)
  get-add s e id h = elim (Option-cases (get s.elements e.id)) [
    | inl u ↦ rw (add_unknown s e u, u) (get-put s.elements e.id id (element_of e))
    | inr (a, u) ↦
        rw (add_known s e a u (h.at e.id a u).keyed, u)
          (ground (arith, get-put s.elements e.id id (element_of e), ==_iff e.id id, u))
  ]

  pub add-IsLww : (s : LwwSet) (e : Entry) → IsLww s → IsLww (add s e)
  add-IsLww s e h =
      let stored =
        store-IsLww s e.id (element_of e) h
          (record { keyed = refl; stamped = refl; flagged = refl }) in
      elim (Option-cases (get s.elements e.id)) [
        | inl u ↦ rw (add_unknown s e u) stored
        | inr (a, u) ↦ elim (Bool-cases (ltb a.timestamp e.updated_at)) [
          | inl t ↦ rw (add_known s e a u (h.at e.id a u).keyed, t) stored
          | inr t ↦ rw (add_known s e a u (h.at e.id a u).keyed, t) h
        ]
      ]

-- What `Remove` leaves at an id: its tombstone, unless what stood there is later, or a tombstone
-- of the same time.
pub get-remove :
    (s : LwwSet) (id : Uuid) (t : ℕ) (j : Uuid)
    → get (remove s id t).elements j
      ≡ (if id == j then some (removed (get s.elements id) id t) else get s.elements j)
unfolding remove
get-remove s id t j = elim (Option-cases (get s.elements id)) [
  | inl u ↦ rw (u, remove) (get-put s.elements id j (tombstone id t))
  | inr (a, u) ↦ rw (u, remove) (ground (arith, get-put s.elements id j (bury a t), ==_iff id j, u))
]

pub remove-IsLww : (s : LwwSet) (id : Uuid) (t : ℕ) → IsLww s → IsLww (remove s id t)
unfolding remove
remove-IsLww s id t h = elim (Option-cases (get s.elements id)) [
  | inl u ↦
      rw (u, remove)
        (store-IsLww s id (tombstone id t) h
          (record { keyed = refl; stamped = refl; flagged = refl }))
  | inr (a, u) ↦
      let buried =
        store-IsLww s id (bury a t) h
          (record { keyed = (h.at id a u).keyed; stamped = refl; flagged = refl }) in
      elim (Bool-cases (ltb a.timestamp t || (t == a.timestamp && not a.deleted))) [
        | inl b ↦ rw (u, remove, b) buried
        | inr b ↦ rw (u, remove, b) h
      ]
]

join_cases :
    (o p : Option LwwElement) (el : LwwElement)
    → join compare_elements o p ≡ some el
    → (o ≡ some el) ⊎ (p ≡ some el)
join_cases none p el h = inr h
join_cases (some a) none el h = inl h
join_cases (some a) (some b) el h = ground arith

-- A merge keeps the invariant, and brings in no element that neither set has.
pub merge-IsLww : (s t : LwwSet) → IsLww s → IsLww t → IsLww (merge s t)
merge-IsLww s t hs ht = record {
  distinct = merge-IsMap s t hs.distinct;
  at = λ id el g.
      elim (join_cases (get s.elements id) (get t.elements id) el
        (sym (get-merge s t id ht.distinct) ∙ g)) [ inl e ↦ hs.at id el e | inr e ↦ ht.at id el e ];
}
