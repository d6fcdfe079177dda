-- ===== src/Crdt/Replica/Latest.antt =====
-- `MaxTimestamp` of internal/crdt/replica.go is the latest time that the replica holds.
use acorde.Base.{ℕ, ◌≡◌, ◌≤◌, some, List, [], ◌∷◌, ltb, if◌then◌else◌, arith}
use acorde.Base.Equality.{nat_eq}
use acorde.Core.Uuid.{Uuid}
use acorde.Core.Entry.{Acl}
use acorde.GoMap.{assoc, get, values, IsMap, Distinct}
use acorde.GoMap.Every.{Every, Every-head, Every-tail}
use acorde.Crdt.Lww.{LwwElement, all_elements}
use acorde.Crdt.Replica.{Replica}
use acorde.Crdt.Replica.Acls.{latest_element, latest_acl, max_timestamp}

latest_element-ge : (n : ℕ) (els : List LwwElement) → n ≤ latest_element n els
unfolding latest_element
latest_element-ge n [] = omega arith
latest_element-ge n (el ∷ els) =
    ground (arith, latest_element-ge (if ltb n el.timestamp then el.timestamp else n) els)

latest_acl-ge : (n : ℕ) (acls : List Acl) → n ≤ latest_acl n acls
unfolding latest_acl
latest_acl-ge n [] = omega arith
latest_acl-ge n (a ∷ acls) =
    ground (arith, latest_acl-ge (if ltb n a.timestamp then a.timestamp else n) acls)

le-latest_element :
    (n : ℕ) (l : List (Uuid × LwwElement)) (id : Uuid) (el : LwwElement)
    → assoc l id ≡ some el
    → el.timestamp ≤ latest_element n (values (record { entries = l }))
unfolding latest_element assoc
le-latest_element n [] id el h = absurd (cc)
le-latest_element n ((k, x) ∷ l) id el h =
    let n' = if ltb n x.timestamp then x.timestamp else n in
    ground
      (arith, le-latest_element n' l id el, latest_element-ge n' (values (record { entries = l })))

le-latest_acl :
    (n : ℕ) (l : List (Uuid × Acl)) (id : Uuid) (a : Acl)
    → assoc l id ≡ some a
    → a.timestamp ≤ latest_acl n (values (record { entries = l }))
unfolding latest_acl assoc
le-latest_acl n [] id a h = absurd (cc)
le-latest_acl n ((k, x) ∷ l) id a h =
    let n' = if ltb n x.timestamp then x.timestamp else n in
    ground (arith, le-latest_acl n' l id a, latest_acl-ge n' (values (record { entries = l })))

module _ (r : Replica) where
  -- No element of a replica is later than its `MaxTimestamp`.
  pub element-le-max :
      (id : Uuid) (el : LwwElement)
      → get r.entries.elements id ≡ some el
      → el.timestamp ≤ max_timestamp r
  unfolding max_timestamp all_elements
  element-le-max id el h = omega (
    arith,
    le-latest_element 0 r.entries.elements.entries id el h,
    latest_acl-ge (latest_element 0 (all_elements r.entries)) (values r.acls),
  )

  pub acl-le-max : (id : Uuid) (a : Acl) → get r.acls id ≡ some a → a.timestamp ≤ max_timestamp r
  unfolding max_timestamp
  acl-le-max id a h =
      le-latest_acl (latest_element 0 (all_elements r.entries)) r.acls.entries id a h

latest_element-le :
    (bound n : ℕ) (l : List (Uuid × LwwElement))
    → Distinct l
    → Every (λ (_ : Uuid) (el : LwwElement). el.timestamp ≤ bound) l
    → n ≤ bound
    → latest_element n (values (record { entries = l })) ≤ bound
unfolding latest_element
latest_element-le bound n [] d b h = h
latest_element-le bound n ((k, x) ∷ l) d b h =
    let within = λ (_ : Uuid) (el : LwwElement). el.timestamp ≤ bound in
    let n' = if ltb n x.timestamp then x.timestamp else n in
    latest_element-le bound n' l d.1 (Every-tail within k x l d b)
      (ground (arith, Every-head within k x l b))

latest_acl-le :
    (bound n : ℕ) (l : List (Uuid × Acl))
    → Distinct l
    → Every (λ (_ : Uuid) (a : Acl). a.timestamp ≤ bound) l
    → n ≤ bound
    → latest_acl n (values (record { entries = l })) ≤ bound
unfolding latest_acl
latest_acl-le bound n [] d b h = h
latest_acl-le bound n ((k, x) ∷ l) d b h =
    let within = λ (_ : Uuid) (a : Acl). a.timestamp ≤ bound in
    let n' = if ltb n x.timestamp then x.timestamp else n in
    latest_acl-le bound n' l d.1 (Every-tail within k x l d b)
      (ground (arith, Every-head within k x l b))

-- `MaxTimestamp` is at most any bound on the times that the replica holds.
pub max-le :
    (r : Replica) (bound : ℕ)
    → IsMap r.entries.elements
    → IsMap r.acls
    → ((id : Uuid) (el : LwwElement) → get r.entries.elements id ≡ some el → el.timestamp ≤ bound)
    → ((id : Uuid) (a : Acl) → get r.acls id ≡ some a → a.timestamp ≤ bound)
    → max_timestamp r ≤ bound
unfolding max_timestamp all_elements
max-le r bound de da be ba =
    latest_acl-le bound (latest_element 0 (all_elements r.entries)) r.acls.entries da ba
      (latest_element-le bound 0 r.entries.elements.entries de be (omega arith))
