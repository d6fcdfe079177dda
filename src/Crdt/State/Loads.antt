-- ===== src/Crdt/State/Loads.antt =====
-- The loops of `State` and `LoadState`, internal/crdt/replica.go, one map at a time.
use acorde.Base.{
  ◌≡◌, ◌≢◌, refl, ◌∙◌, ap, ◌||◌, Option, none, some, inl, inr, Bool-cases, List, [], ◌∷◌, map,
  foldl, ◌==◌, ==_iff, if◌then◌else◌, arith,
}
use acorde.Base.Equality.{nat_eq}
use acorde.Base.Members.{mem}
use acorde.Core.Uuid.{Uuid, UuidPackage}
use acorde.Core.Entry.{Acl}
use acorde.GoMap
use acorde.GoMap.{GoMap, assoc, get, put, values, keys, has, IsMap, Distinct, SameMap}
use acorde.GoMap.Laws.{get-put, put-IsMap}
use acorde.GoMap.Range.{visit, get-foldl, foldl-IsMap}
use acorde.GoMap.Every.{Every, Every-head, Every-tail}
use acorde.GoMap.Sets.{has-insert, mem-keys}
use acorde.Crdt.Lww
use acorde.Crdt.Lww.{LwwSet, LwwElement, element_of, all_elements}
use acorde.Crdt.Lww.Invariant.{IsElement, IsLww, get-add, get-remove, add-IsLww, remove-IsLww}
use acorde.Crdt.OrSet.{OrSet, TagToken, tag_token_eq, new_or_set, all_adds, all_removes}
use acorde.Crdt.OrSet.Merge.{SameOrSet, IsOrSet}
use acorde.Crdt.OrSet.Views.{has-add_with_token, removes-add_with_token}
use acorde.Crdt.Replica.{Replica}
use acorde.Crdt.Replica.Acls.{put_acl, set_acl}
use acorde.Crdt.State.{
  TagSetState, export_tag_set, export_entry, export_tags, load_add, load_remove, load_tag_set,
  load_tags, load_acl, load_element,
}

module _ ⦃uuids : UuidPackage⦄ where
  pub load_element-IsLww : (s : LwwSet) (el : LwwElement) → IsLww s → IsLww (load_element s el)
  unfolding load_element
  load_element-IsLww s el h = elim (Bool-cases el.deleted) [
    | inl d ↦
        rw (load_element, d)
          (remove-IsLww (Lww.add s el.entry) el.entry.id el.timestamp (add-IsLww s el.entry h))
    | inr d ↦ rw (load_element, d) (add-IsLww s el.entry h)
  ]

  -- an element that fits its key, loaded where nothing stands, stands there as it was
  pub get-load_element :
      (s : LwwSet) (k j : Uuid) (el : LwwElement)
      → IsLww s
      → IsElement k el
      → get s.elements k ≡ none
      → get (load_element s el).elements j ≡ (if k == j then some el else get s.elements j)
  unfolding load_element
  get-load_element s k j el h e n =
      let id = el.entry.id in
      let same : element_of el.entry ≡ el = ground (arith, e.stamped, e.flagged) in
      let absent : get s.elements id ≡ none = rw e.keyed n in
      let at : (x : Uuid)
          → get (Lww.add s el.entry).elements x ≡ (if id == x then some el else get s.elements x) =
        (λ x. get-add s el.entry x h ∙ rw (absent, same)) in
      elim (Bool-cases el.deleted) [
        | inl d ↦
            rw (load_element, d)
              (get-remove (Lww.add s el.entry) id el.timestamp j
                ∙ ground (arith, d, at id, at j, ==_iff id id, ==_iff id j, ==_iff k j, e.keyed))
        | inr d ↦ ground (arith, d, at j, e.keyed, ==_iff k j, ==_iff id j)
      ]

  pub get-load_elements :
      (l : List (Uuid × LwwElement)) (s : LwwSet) (j : Uuid)
      → IsLww s
      → Distinct l
      → Every IsElement l
      → Every (λ k _. get s.elements k ≡ none) l
      → get (foldl load_element s (map (λ (e : Uuid × LwwElement). e.1) l)).elements j
        ≡ visit (λ _ w. some w) (get s.elements j) (assoc l j)
  unfolding assoc
  get-load_elements [] s j h d e n = refl
  get-load_elements ((k, el) ∷ l) s j h d e n =
      let fits = Every-head IsElement k el l e in
      let absent = n k el (ground (arith, ==_iff k k)) in
      let at = λ (x : Uuid). get-load_element s k x el h fits absent in
      get-load_elements l (load_element s el) j (load_element-IsLww s el h) d.1
        (Every-tail IsElement k el l d e)
        (λ x w g. ground (
          arith,
          at x,
          g,
          d.0,
          ==_iff k x,
          Every-tail (λ x _. get s.elements x ≡ none) k el l d n x w,
        ))
      ∙ ground (arith, at j, d.0, ==_iff k j)

-- a list of tokens, put into both halves or one
has_adds-load_add :
    (l : List TagToken) (s : OrSet) (tt : TagToken)
    → has (foldl load_add s l).adds tt ≡ (has s.adds tt || mem tt l)
has_adds-load_add [] s tt = ground arith
has_adds-load_add (x ∷ l) s tt =
    has_adds-load_add l (load_add s x) tt ∙ ground (arith, has-add_with_token s x.tag x.token tt)

has_removes-load_add :
    (l : List TagToken) (s : OrSet) (tt : TagToken)
    → has (foldl load_add s l).removes tt ≡ has s.removes tt
has_removes-load_add [] s tt = refl
has_removes-load_add (x ∷ l) s tt =
    has_removes-load_add l (load_add s x) tt
    ∙ ap (λ m. has m tt) (removes-add_with_token s x.tag x.token)

has_adds-load_remove :
    (l : List TagToken) (s : OrSet) (tt : TagToken)
    → has (foldl load_remove s l).adds tt ≡ (has s.adds tt || mem tt l)
has_adds-load_remove [] s tt = ground arith
has_adds-load_remove (x ∷ l) s tt =
    has_adds-load_remove l (load_remove s x) tt ∙ ground (arith, has-insert s.adds x tt)

has_removes-load_remove :
    (l : List TagToken) (s : OrSet) (tt : TagToken)
    → has (foldl load_remove s l).removes tt ≡ (has s.removes tt || mem tt l)
has_removes-load_remove [] s tt = ground arith
has_removes-load_remove (x ∷ l) s tt =
    has_removes-load_remove l (load_remove s x) tt ∙ ground (arith, has-insert s.removes x tt)

-- A tag set that was exported and loaded has the same tokens.
pub load-export_tag_set : (s : OrSet) → IsOrSet s → SameOrSet (load_tag_set (export_tag_set s)) s
unfolding load_tag_set all_adds all_removes assoc
load-export_tag_set s h =
    let a = foldl load_add new_or_set (keys s.adds) in
    record {
      adds = λ tt. ground (
        arith,
        h.observed tt,
        has_adds-load_remove (keys s.removes) a tt,
        has_adds-load_add (keys s.adds) new_or_set tt,
        mem-keys s.adds tt,
        mem-keys s.removes tt,
      );
      removes = λ tt. ground (
        arith,
        has_removes-load_remove (keys s.removes) a tt,
        has_removes-load_add (keys s.adds) new_or_set tt,
        mem-keys s.removes tt,
      );
    }

-- the loops over the tag sets
abbrev pub each {ℓ κ} : {A : Type ℓ} {B : Type κ} → (A → B) → Option A → Option B
each f none = none
each f (some a) = some (f a)

pub visit-each {ℓ κ} :
    {A : Type ℓ} {B : Type κ} (f : A → B) (o : Option A)
    → visit (λ _ w. some (f w)) none o ≡ each f o
visit-each f none = refl
visit-each f (some a) = refl

pub get-export_tags :
    (r : Replica) (id : Uuid)
    → IsMap r.tags
    → get (export_tags r) id ≡ each export_tag_set (get r.tags id)
unfolding export_tags assoc
get-export_tags r id d =
    get-foldl export_entry (λ _ _ w. some (export_tag_set w))
      (λ m k j w. get-put m k j (export_tag_set w)) r.tags.entries GoMap.empty id d
    ∙ visit-each export_tag_set (get r.tags id)

pub export_tags-IsMap : (r : Replica) → IsMap (export_tags r)
unfolding export_tags
export_tags-IsMap r =
    foldl-IsMap export_entry (λ _ _ w. some (export_tag_set w))
      (λ m k w. put-IsMap m k (export_tag_set w)) r.tags.entries GoMap.empty tt

pub get-load_tags :
    (m : GoMap Uuid TagSetState) (id : Uuid)
    → IsMap m
    → get (foldl load_tags GoMap.empty m.entries) id ≡ each load_tag_set (get m id)
unfolding assoc
get-load_tags m id d =
    get-foldl load_tags (λ _ _ w. some (load_tag_set w)) (λ n k j w. get-put n k j (load_tag_set w))
      m.entries GoMap.empty id d
    ∙ visit-each load_tag_set (get m id)

-- SetACL writes the lists only, and a list that has a time as it is
pub set_acl-entries : (r : Replica) (a : Acl) → (set_acl r a).entries ≡ r.entries
unfolding set_acl
set_acl-entries r a = ground arith

pub set_acl-tags : (r : Replica) (a : Acl) → (set_acl r a).tags ≡ r.tags
unfolding set_acl
set_acl-tags r a = ground arith

set_acl-acls :
    (r : Replica) (a : Acl) → a.timestamp ≢ 0 → (set_acl r a).acls ≡ put_acl r.acls (a.entry_id, a)
unfolding set_acl
set_acl-acls r a h = ground (arith, h)

pub entries-load_acls :
    (l : List (Uuid × Acl)) (q : Replica) → (foldl load_acl q l).entries ≡ q.entries
entries-load_acls [] q = refl
entries-load_acls ((k, a) ∷ l) q = entries-load_acls l (set_acl q a) ∙ set_acl-entries q a

pub tags-load_acls : (l : List (Uuid × Acl)) (q : Replica) → (foldl load_acl q l).tags ≡ q.tags
tags-load_acls [] q = refl
tags-load_acls ((k, a) ∷ l) q = tags-load_acls l (set_acl q a) ∙ set_acl-tags q a

-- a list that stands under its own id and has a time
abbrev IsStamped : Uuid → Acl → Type 0
IsStamped k a = (a.entry_id ≡ k) × (a.timestamp ≢ 0)

pub acls-load_acls :
    (l : List (Uuid × Acl)) (q : Replica)
    → Distinct l
    → Every IsStamped l
    → (foldl load_acl q l).acls ≡ foldl put_acl q.acls l
acls-load_acls [] q d e = refl
acls-load_acls ((k, a) ∷ l) q d e =
    let (key, time) = Every-head IsStamped k a l e in
    acls-load_acls l (set_acl q a) d.1 (Every-tail IsStamped k a l d e)
    ∙ ap (λ m. foldl put_acl m l)
        (set_acl-acls q a time ∙ ap (λ (id : Uuid). put_acl q.acls (id, a)) key)
