-- ===== src/Crdt/Replica/Edits.antt =====
-- What a client of internal/crdt/replica.go reads after an edit: its own edit, and every other
-- entry as it was.
use mathlib.Core.Path.{subst}
use acorde.Base.{
  ℕ, ◌+◌, ◌<◌, ◌≡◌, ◌≢◌, refl, sym, ◌∙◌, ap, false, Option, none, some, inl, inr, Bool-cases,
  Option-cases, List, [], ◌==◌, ==_iff, if◌then◌else◌, arith,
}
use acorde.Base.Equality.{nat_eq, list_eq, beq_refl}
use acorde.Base.Members.{mem}
use acorde.Base.Text.{Text}
use acorde.Core.Uuid.{Uuid, UuidPackage}
use acorde.Core.Clock.{tick, tick_lem}
use acorde.Core.Entry.{Entry, clone_entry}
use acorde.GoMap.{get}
use acorde.GoMap.Laws.{get-put}
use acorde.Crdt.Lww
use acorde.Crdt.Lww.{LwwSet, LwwElement, element_of, bury}
use acorde.Crdt.Lww.Invariant.{get-add, get-remove}
use acorde.Crdt.OrSet.{OrSet, elements}
use acorde.Crdt.OrSet.Views.{mem-elements}
use acorde.Crdt.OrSet.Merge.{IsOrSet}
use acorde.Crdt.Replica.{
  Replica, ok, err, not_found, is_deleted, replace_tags, set_tags, tag_set, put_tags, new_content,
  write_update, update_entry, delete_entry, get_entry, get_entry_with_tags,
}
use acorde.Crdt.Replica.Outcomes.{update_live, get_entry_lem}
use acorde.Crdt.Replica.TagSets.{tag_set-IsOrSet}
use acorde.Crdt.Replica.TagEdits.{Fresh, contains-replace_tags}
use acorde.Crdt.Replica.Invariant.{EntriesBy, IsReplica}
use acorde.Crdt.Replica.Keeps.{HasTime}

-- the tags that getEntryWithTags lists
abbrev pub listed_tags : Replica → Uuid → List Text
listed_tags r id = elim (get r.tags id) [ none ↦ [] | some s ↦ elements s ]

-- an entry with the tags of its tag set
abbrev pub tagged : Replica → Uuid → Entry → Entry
tagged r id e = record e { tags = listed_tags r id }

-- a live element is read with the tags of its tag set
pub get_entry-live :
    (r : Replica) (id : Uuid) (el : LwwElement)
    → get r.entries.elements id ≡ some el
    → el.deleted ≡ false
    → get_entry r id ≡ ok (tagged r id el.entry)
unfolding get_entry_with_tags Lww.lookup_with_deleted
get_entry-live r id el h d = get_entry_lem r id ∙ ground (arith, h, d)

-- an entry that is read stands there, live
get_entry_ok :
    (r : Replica) (id : Uuid) (e : Entry)
    → get_entry r id ≡ ok e
    → (el : LwwElement) × (get r.entries.elements id ≡ some el)
      × (el.deleted ≡ false)
      × (e ≡ tagged r id el.entry)
unfolding get_entry_with_tags Lww.lookup_with_deleted
get_entry_ok r id e h = elim (Option-cases (get r.entries.elements id)) [
  | inl n ↦ absurd (ground (arith, n, get_entry_lem r id))
  | inr (el, s) ↦ elim (Bool-cases el.deleted) [
    | inl d ↦ absurd (ground (arith, s, d, get_entry_lem r id))
    | inr d ↦ (el, s, d, ground (arith, h, get_entry-live r id el s d))
  ]
]

-- what is read at an id depends on the element and the tag set there
pub get_entry_congr :
    (r q : Replica) (id : Uuid)
    → get r.entries.elements id ≡ get q.entries.elements id
    → get r.tags id ≡ get q.tags id
    → get_entry r id ≡ get_entry q id
unfolding get_entry_with_tags Lww.lookup_with_deleted
get_entry_congr r q id e t = ground (arith, e, t, get_entry_lem r id, get_entry_lem q id)

-- one id reads anew and every other as before
pub read_after :
    (r q : Replica) (id : Uuid) (new : Entry)
    → get_entry q id ≡ ok new
    → ((j : Uuid) → id ≢ j → get_entry q j ≡ get_entry r j)
    → (j : Uuid) → get_entry q j ≡ (if id == j then ok new else get_entry r j)
read_after r q id new here others j = elim (Bool-cases (id == j)) [
  | inl e ↦ rw (e, ← (==_iff id j).0 e) here
  | inr e ↦ rw e (others j (λ same. absurd (cc (e, (==_iff id j).1 same))))
]

entries-set_tags :
    (tokens : ℕ → Uuid) (r : Replica) (id : Uuid) (tags : Option (List Text))
    → (set_tags tokens r id tags).entries ≡ r.entries
entries-set_tags tokens r id none = refl
entries-set_tags tokens r id (some new) = refl

other_tags-set_tags :
    (tokens : ℕ → Uuid) (r : Replica) (id j : Uuid) (tags : Option (List Text))
    → id ≢ j
    → get (set_tags tokens r id tags).tags j ≡ get r.tags j
other_tags-set_tags tokens r id j none ne = refl
other_tags-set_tags tokens r id j (some new) ne =
    ground (arith, ne, get-put r.tags id j (replace_tags tokens (tag_set r id) new), ==_iff id j)

-- the tags that an update leaves: those of the list that it was given, or those there were
abbrev pub TagsAfter : Option (List Text) → List Text → List Text → Type 0
TagsAfter none old new = (t : Text) → mem t new ≡ mem t old
TagsAfter (some given) old new = (t : Text) → mem t new ≡ mem t given

pub listed_tags-put :
    (r : Replica) (id : Uuid) (s : OrSet) → listed_tags (put_tags r id s) id ≡ elements s
listed_tags-put r id s = ground (arith, get-put r.tags id id s, beq_refl id)

tags_after :
    (tokens : ℕ → Uuid) (r : Replica) (id : Uuid) (tags : Option (List Text))
    → IsOrSet (tag_set r id)
    → Fresh tokens (tag_set r id)
    → TagsAfter tags (listed_tags r id) (listed_tags (set_tags tokens r id tags) id)
tags_after tokens r id none h f = λ t. refl
tags_after tokens r id (some given) h f = λ t.
    let s = replace_tags tokens (tag_set r id) given in
    ap (λ l. mem t l) (listed_tags-put r id s)
    ∙ mem-elements s t
    ∙ contains-replace_tags tokens (tag_set r id) given t h f

-- a write that is later than all there is takes effect
pub write_later :
    ⦃uuids : UuidPackage⦄
    → (t : ℕ) (s : LwwSet) (e : Entry) (j : Uuid) → EntriesBy t s
    → t < e.updated_at
    → get (Lww.add s e).elements j ≡ (if e.id == j then some (element_of e) else get s.elements j)
write_later t s e j h later = elim (Option-cases (get s.elements e.id)) [
  | inl n ↦ rw (get-add s e j h.fit, n)
  | inr (el, x) ↦ ground (arith, x, get-add s e j h.fit, h.by e.id el x)
]

module _ ⦃uuids : UuidPackage⦄ (tokens : ℕ → Uuid) (r : Replica) (h : IsReplica r)
    (time : HasTime r) (id : Uuid) where
  -- In a replica that keeps the invariant, and short of the last value of its clock, an update of
  -- an entry that can be read succeeds, and then the entry is read with the new content and tags
  -- where they were given, its old content and tags where not, its old type and creation time, and
  -- the next time of the clock; every other entry is read as before. The tokens that are drawn
  -- must be new to the tag set of the entry.
  pub update_entry-get_entry :
      (content : Option (List ℕ)) (tags : Option (List Text)) (old : Entry)
      → get_entry r id ≡ ok old
      → Fresh tokens (tag_set r id)
      → (r' : Replica) × (new : Entry) × (update_entry tokens r id content tags ≡ ok r')
        × (new.content ≡ new_content old.content content)
        × (new.type ≡ old.type)
        × (new.created_at ≡ old.created_at)
        × (new.updated_at ≡ r.clock.time + 1)
        × TagsAfter tags old.tags new.tags
        × ((j : Uuid) → get_entry r' j ≡ (if id == j then ok new else get_entry r j))
  unfolding write_update
  update_entry-get_entry content tags old read fresh =
      let (el, there, live, same) = get_entry_ok r id old read in
      let fits = h.entries.fit.at id el there in
      let (now, _) = tick_lem r.clock time in
      let u : Entry = record (clone_entry el.entry) {
        content = new_content el.entry.content content;
        updated_at = (tick r.clock).1;
      } in
      let stored : Replica = record r { clock = (tick r.clock).0; entries = Lww.add r.entries u } in
      let r' : Replica = set_tags tokens stored id tags in
      let at : (j : Uuid)
          → get r'.entries.elements j
            ≡ (if id == j then some (element_of u) else get r.entries.elements j) =
        (λ j.
          rw (entries-set_tags, ← fits.keyed)
            (write_later r.clock.time r.entries u j h.entries (omega arith))) in
      (
        r',
        tagged r' id u,
        update_live tokens r id content tags el there (fits.flagged ∙ live),
        ap (λ (o : Entry). new_content o.content content) (sym same),
        ap (λ (o : Entry). o.type) (sym same),
        ap (λ (o : Entry). o.created_at) (sym same),
        now,
        subst (λ (o : Entry). TagsAfter tags o.tags (listed_tags r' id)) (sym same)
            (tags_after tokens stored id tags (tag_set-IsOrSet r id h.tags) fresh),
        read_after r r' id (tagged r' id u)
            (get_entry-live r' id (element_of u) (at id ∙ ground (arith, ==_iff id id))
              (fits.flagged ∙ live))
            (λ j ne.
              get_entry_congr r' r j (at j ∙ ground (arith, ne, ==_iff id j))
                (other_tags-set_tags tokens stored id j tags ne)),
      )

-- In a replica that keeps the invariant, and short of the last value of its clock, a delete of an
-- entry that the replica holds succeeds; then the entry is reported as deleted, and every other
-- entry is read as before.
pub delete_entry-get_entry :
    (r : Replica)
    → IsReplica r
    → HasTime r
    → (id : Uuid) (el : LwwElement) → get r.entries.elements id ≡ some el
    → (r' : Replica) × (delete_entry r id ≡ ok r')
      × ((j : Uuid) → get_entry r' j ≡ (if id == j then err (is_deleted id) else get_entry r j))
unfolding delete_entry Lww.lookup_with_deleted
delete_entry-get_entry r h time id el there =
    let (now, later) = tick_lem r.clock time in
    let s = Lww.remove r.entries id (tick r.clock).1 in
    let r' : Replica = record r { clock = (tick r.clock).0; entries = s } in
    (
      r',
      ground (arith, there),
      λ j. elim (Bool-cases (id == j)) [
        | inl e ↦
            rw (e, ← (==_iff id j).0 e)
              (get_entry_lem r' id
                ∙ ground (
                  arith,
                  there,
                  get-remove r.entries id (tick r.clock).1 id,
                  h.entries.by id el there,
                  ==_iff id id,
                ))
        | inr e ↦ rw e (
            get_entry_congr r' r j (get-remove r.entries id (tick r.clock).1 j ∙ ground (arith, e))
              refl)
      ],
    )

-- What an operation reports of an id that the replica does not hold, and of one that is deleted.
missing_entry :
    ⦃uuids : UuidPackage⦄
    → (tokens : ℕ → Uuid) (r : Replica) (id : Uuid) (content : Option (List ℕ))
      (tags : Option (List Text))
    → get r.entries.elements id ≡ none
    → (get_entry r id ≡ err (not_found id))
      × (delete_entry r id ≡ err (not_found id))
      × (update_entry tokens r id content tags ≡ err (not_found id))
unfolding get_entry delete_entry update_entry Lww.lookup Lww.lookup_with_deleted
missing_entry tokens r id content tags n = (ground arith, ground arith, ground arith)
