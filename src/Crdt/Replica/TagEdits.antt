-- ===== src/Crdt/Replica/TagEdits.antt =====
-- The tags after an edit: `UpdateEntry` of internal/crdt/replica.go replaces the tags that it sees
-- by the tags that it is given.
use acorde.Base.{
  ℕ, suc, ◌≡◌, ap, refl, ◌∙◌, false, not, ◌&&◌, ◌||◌, inl, inr, Bool-cases, List, [], ◌∷◌, foldl,
  if◌then◌else◌, arith,
}
use acorde.Base.Equality.{nat_eq, list_eq, list_beq_iff}
use acorde.Base.Members.{mem}
use acorde.Base.Text.{Text}
use acorde.Core.Uuid.{Uuid}
use acorde.GoMap
use acorde.GoMap.{GoMap, GoSet, has, keys, assoc}
use acorde.GoMap.Sets.{insert, has-insert, mem-keys}
use acorde.Crdt.OrSet
use acorde.Crdt.OrSet.{
  OrSet, TagToken, tag_token_eq, new_or_set, add_with_token, contains, elements,
}
use acorde.Crdt.OrSet.Views.{
  mem-elements, contains-remove, contains-add_with_token, has-remove, adds-remove,
  removes-add_with_token,
}
use acorde.Crdt.OrSet.Merge.{IsOrSet}
use acorde.Crdt.Replica.{add_tags, remove_missing, add_missing, replace_tags, set_of}

-- none of the new tokens has been removed
abbrev Unremoved : (ℕ → Uuid) → OrSet → Type 0
Unremoved tokens s =
    (i : ℕ) (tag : Text) → has s.removes (record { tag = tag; token = tokens i }) ≡ false

-- the new tokens are new: the set has never held one of them
abbrev pub Fresh : (ℕ → Uuid) → OrSet → Type 0
Fresh tokens s = (i : ℕ) (tag : Text) → has s.adds (record { tag = tag; token = tokens i }) ≡ false

has-foldl-insert :
    (l : List Text) (m : GoSet Text) (t : Text) → has (foldl insert m l) t ≡ (has m t || mem t l)
has-foldl-insert [] m t = ground arith
has-foldl-insert (x ∷ l) m t = has-foldl-insert l (insert m x) t ∙ ground (arith, has-insert m x t)

has-set_of : (l : List Text) (t : Text) → has (set_of l) t ≡ mem t l
unfolding assoc
has-set_of l t = has-foldl-insert l GoMap.empty t

contains-remove_missing :
    (new : GoSet Text) (s : OrSet) (l : List Text) (t : Text)
    → contains (remove_missing new s l) t
      ≡ (if mem t l && not (has new t) then false else contains s t)
unfolding remove_missing
contains-remove_missing new s [] t = refl
contains-remove_missing new s (x ∷ l) t = elim (Bool-cases (has new x)) [
  | inl e ↦ rw e (contains-remove_missing new s l t ∙ ground (arith, e, list_beq_iff x t))
  | inr e ↦ rw e (
      contains-remove_missing new (OrSet.remove s x) l t
      ∙ ground (arith, e, list_beq_iff x t, list_beq_iff t x, contains-remove s x t))
]

has-remove_missing :
    (new : GoSet Text) (s : OrSet) (l : List Text) (tt : TagToken)
    → has s.adds tt ≡ false
    → has (remove_missing new s l).removes tt ≡ has s.removes tt
unfolding remove_missing
has-remove_missing new s [] tt f = refl
has-remove_missing new s (x ∷ l) tt f = elim (Bool-cases (has new x)) [
  | inl e ↦
      ap (λ b. has (remove_missing new (if b then s else OrSet.remove s x) l).removes tt) e
      ∙ has-remove_missing new s l tt f
  | inr e ↦
      ap (λ b. has (remove_missing new (if b then s else OrSet.remove s x) l).removes tt) e
      ∙ has-remove_missing new (OrSet.remove s x) l tt (rw adds-remove f)
      ∙ ground (arith, f, has-remove s x tt)
]

contains-add_missing :
    (tokens : ℕ → Uuid) (i : ℕ) (current : GoSet Text) (s : OrSet) (l : List Text) (t : Text)
    → Unremoved tokens s
    → contains (add_missing tokens i current s l) t
      ≡ (contains s t || (mem t l && not (has current t)))
unfolding add_missing OrSet.add
contains-add_missing tokens i current s [] t u = ground arith
contains-add_missing tokens i current s (x ∷ l) t u = elim (Bool-cases (has current x)) [
  | inl e ↦
      rw e (contains-add_missing tokens i current s l t u ∙ ground (arith, e, list_beq_iff x t))
  | inr e ↦ rw e (
      contains-add_missing tokens (suc i) current (add_with_token s x (tokens i)) l t
        (λ j y. rw removes-add_with_token (u j y))
      ∙ ground (arith, e, list_beq_iff x t, contains-add_with_token s x (tokens i) t (u i x)))
]

-- With new tokens, and in a set that only removes what was added, the tags after a replacement are
-- exactly those of the list.
pub contains-replace_tags :
    (tokens : ℕ → Uuid) (s : OrSet) (new : List Text) (t : Text)
    → IsOrSet s
    → Fresh tokens s
    → contains (replace_tags tokens s new) t ≡ mem t new
unfolding replace_tags
contains-replace_tags tokens s new t h f =
    let current = set_of (elements s) in
    let kept = remove_missing (set_of new) s (keys current) in
    contains-add_missing tokens 0 current kept (keys (set_of new)) t (λ i y.
      let tt : TagToken = record { tag = y; token = tokens i } in
      ground
        (arith, f i y, h.observed tt, has-remove_missing (set_of new) s (keys current) tt (f i y)))
    ∙ ground (
      arith,
      contains-remove_missing (set_of new) s (keys current) t,
      mem-keys current t,
      mem-keys (set_of new) t,
      has-set_of (elements s) t,
      has-set_of new t,
      mem-elements s t,
    )

-- With new tokens, a new tag set has exactly the tags that were added.
pub contains-add_tags :
    (tokens : ℕ → Uuid) (i : ℕ) (s : OrSet) (tags : List Text) (t : Text)
    → Unremoved tokens s
    → contains (add_tags tokens i s tags) t ≡ (contains s t || mem t tags)
unfolding add_tags OrSet.add
contains-add_tags tokens i s [] t u = ground arith
contains-add_tags tokens i s (x ∷ rest) t u =
    contains-add_tags tokens (suc i) (add_with_token s x (tokens i)) rest t
      (λ j y. rw removes-add_with_token (u j y))
    ∙ ground (arith, contains-add_with_token s x (tokens i) t (u i x))
