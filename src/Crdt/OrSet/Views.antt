-- ===== src/Crdt/OrSet/Views.antt =====
-- What can be read of an observed-remove set: a tag is in it when one of its tokens has been added
-- and not removed.
use acorde.Base.{
  ◌≡◌, refl, sym, ◌∙◌, ap, Bool, true, false, not, ◌&&◌, ◌||◌, inl, inr, bool_ext, Bool-cases, List,
  [], ◌∷◌, arith, ◌↔◌, if◌then◌else◌, ◌==◌,
}
use acorde.Base.Equality.{nat_eq, list_eq, list_beq, list_beq_iff, beq_refl}
use acorde.Base.Members.{mem}
use acorde.Base.Text.{Text}
use acorde.Core.Uuid.{Uuid}
use acorde.GoMap
use acorde.GoMap.{GoMap, GoSet, assoc, has, keys}
use acorde.GoMap.Sets.{insert, mem-keys, has-insert, mem-keys, has-foldl_if}
use acorde.Crdt.OrSet.{
  TagToken, tag_token_eq, tag_token_beq, tag_token_beq_iff, OrSet, add_with_token, remove,
  contains_loop, contains, seen_loop, elements, remove_token,
}

-- the token has been added and not removed
abbrev is_live : OrSet → TagToken → Bool
is_live s tt = has s.adds tt && not (has s.removes tt)

contains_loop_sound :
    (s : OrSet) (tag : Text) (l : List TagToken)
    → contains_loop s tag l ≡ true
    → (tt : TagToken) × (mem tt l ≡ true) × (tt.tag ≡ tag) × (has s.removes tt ≡ false)
unfolding contains_loop
contains_loop_sound s tag [] h = cc
contains_loop_sound s tag (x ∷ l) h =
    elim (Bool-cases (list_beq x.tag tag && not (has s.removes x))) [
      | inl e ↦
          (x, ground (arith, beq_refl x), ground (arith, list_beq_iff x.tag tag), ground arith)
      | inr e ↦
          let (tt, m, t, r) = contains_loop_sound s tag l (ground arith) in
          (tt, ground (arith, m), t, r)
    ]

contains_loop_complete :
    (s : OrSet) (tt : TagToken) (l : List TagToken)
    → mem tt l ≡ true
    → has s.removes tt ≡ false
    → contains_loop s tt.tag l ≡ true
unfolding contains_loop
contains_loop_complete s tt [] m h = cc
contains_loop_complete s tt (x ∷ l) m h = elim (Bool-cases (tag_token_beq x tt)) [
  | inl e ↦
      let same : x ≡ tt = (tag_token_beq_iff x tt).0 e in
      let kept : has s.removes x ≡ false = rw same h in
      ground (arith, kept, (list_beq_iff x.tag tt.tag).1 (ap (λ (t : TagToken). t.tag) same))
  | inr e ↦ ground (arith, contains_loop_complete s tt l (ground arith) h)
]

-- A tag is in the set exactly when it has a token that has been added and not removed.
pub contains_iff :
    (s : OrSet) (tag : Text)
    → (contains s tag ≡ true)
      ↔ ((token : Uuid) × (is_live s (record { tag = tag; token = token }) ≡ true))
unfolding contains
contains_iff s tag = (to, from)
  where
    to :
        contains_loop s tag (keys s.adds) ≡ true
        → (token : Uuid) × (is_live s (record { tag = tag; token = token }) ≡ true)
    to h =
        let (tt, m, t, r) = contains_loop_sound s tag (keys s.adds) h in
        (tt.token, rw (← t) (ground (arith, mem-keys s.adds tt)))

    from :
        (token : Uuid) × (is_live s (record { tag = tag; token = token }) ≡ true)
        → contains_loop s tag (keys s.adds) ≡ true
    from (token, l) =
        let tt : TagToken = record { tag = tag; token = token } in
        contains_loop_complete s tt (keys s.adds) (ground (arith, mem-keys s.adds tt))
          (ground arith)

-- the loop collects the tags that `Contains` finds
has-seen_loop :
    (s : OrSet) (seen : GoSet Text) (l : List TagToken) (tag : Text)
    → has (seen_loop s seen l) tag ≡ (has seen tag || contains_loop s tag l)
unfolding seen_loop contains_loop
has-seen_loop s seen [] tag = ground arith
has-seen_loop s seen (x ∷ l) tag = elim (Bool-cases (has s.removes x)) [
  | inl e ↦ rw e (has-seen_loop s seen l tag ∙ ground arith)
  | inr e ↦
      rw e (has-seen_loop s (insert seen x.tag) l tag ∙ ground (arith, has-insert seen x.tag tag))
]

-- `Elements` lists exactly the tags that `Contains` finds.
pub mem-elements : (s : OrSet) (tag : Text) → mem tag (elements s) ≡ contains s tag
unfolding elements contains assoc
mem-elements s tag =
    mem-keys (seen_loop s GoMap.empty (keys s.adds)) tag
    ∙ has-seen_loop s GoMap.empty (keys s.adds) tag

-- two sets with the same live tokens of a tag agree on the tag
pub contains_congr :
    (s s' : OrSet) (tag : Text)
    → ((token : Uuid)
        → is_live s (record { tag = tag; token = token })
          ≡ is_live s' (record { tag = tag; token = token }))
    → contains s tag ≡ contains s' tag
contains_congr s s' tag h =
    bool_ext
      (λ c. let (k, l) = (contains_iff s tag).0 c in (contains_iff s' tag).1 (k, sym (h k) ∙ l))
      (λ c. let (k, l) = (contains_iff s' tag).0 c in (contains_iff s tag).1 (k, h k ∙ l))

pub not_contains :
    (s : OrSet) (tag : Text)
    → ((token : Uuid) → is_live s (record { tag = tag; token = token }) ≡ false)
    → contains s tag ≡ false
not_contains s tag h = elim (Bool-cases (contains s tag)) [
  | inl c ↦ let (k, l) = (contains_iff s tag).0 c in absurd (cc (h k, l))
  | inr c ↦ c
]

pub has-remove :
    (s : OrSet) (tag : Text) (tt : TagToken)
    → has (remove s tag).removes tt ≡ (has s.removes tt || (list_beq tt.tag tag && has s.adds tt))
unfolding remove
has-remove s tag tt = has-foldl_if (λ x. list_beq x.tag tag) s.adds.entries s.removes tt

has-remove_token :
    (s : OrSet) (token : Uuid) (tt : TagToken)
    → has (remove_token s token).removes tt
      ≡ (has s.removes tt || (tt.token == token && has s.adds tt))
unfolding remove_token
has-remove_token s token tt = has-foldl_if (λ x. x.token == token) s.adds.entries s.removes tt

pub adds-remove : (s : OrSet) (tag : Text) → (remove s tag).adds ≡ s.adds
unfolding remove
adds-remove s tag = refl

-- After a remove the tag is gone, and every other tag is as it was.
pub contains-remove :
    (s : OrSet) (tag other : Text)
    → contains (remove s tag) other ≡ (if list_beq other tag then false else contains s other)
contains-remove s tag other = elim (Bool-cases (list_beq other tag)) [
  | inl e ↦ rw e (
      not_contains (remove s tag) other (λ k.
        rw adds-remove (ground (arith, e, has-remove s tag (record { tag = other; token = k })))))
  | inr e ↦ rw e (
      contains_congr (remove s tag) s other (λ k.
        rw adds-remove (ground (arith, e, has-remove s tag (record { tag = other; token = k })))))
]

pub has-add_with_token :
    (s : OrSet) (tag : Text) (token : Uuid) (tt : TagToken)
    → has (add_with_token s tag token).adds tt
      ≡ (tag_token_beq (record { tag = tag; token = token }) tt || has s.adds tt)
unfolding add_with_token
has-add_with_token s tag token tt = has-insert s.adds (record { tag = tag; token = token }) tt

pub removes-add_with_token :
    (s : OrSet) (tag : Text) (token : Uuid) → (add_with_token s tag token).removes ≡ s.removes
unfolding add_with_token
removes-add_with_token s tag token = refl

-- An add under a token that has not been removed puts the tag in, and leaves every other tag as
-- it was.
pub contains-add_with_token :
    (s : OrSet) (tag : Text) (token : Uuid) (other : Text)
    → has s.removes (record { tag = tag; token = token }) ≡ false
    → contains (add_with_token s tag token) other ≡ (list_beq tag other || contains s other)
contains-add_with_token s tag token other fresh = elim (Bool-cases (list_beq tag other)) [
  | inl e ↦
      let tt : TagToken = record { tag = tag; token = token } in
      rw (e, ← (list_beq_iff tag other).0 e)
        ((contains_iff (add_with_token s tag token) tag).1 (
          token,
          rw removes-add_with_token
              (ground (arith, fresh, has-add_with_token s tag token tt, beq_refl tt)),
        ))
  | inr e ↦ rw e (
      contains_congr (add_with_token s tag token) s other (λ k.
        rw removes-add_with_token
          (ground (arith, e, has-add_with_token s tag token (record { tag = other; token = k })))))
]
