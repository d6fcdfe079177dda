-- ===== src/Crdt/OrSet/Merge.antt =====
-- Merging observed-remove sets: both halves are unions, so the order of merges does not matter,
-- and an add that the other side has not seen wins over its remove.
use acorde.Base.{◌≡◌, refl, sym, ◌∙◌, true, false, ◌||◌, arith}
use acorde.Base.Equality.{nat_eq, list_eq, beq_refl}
use acorde.Base.Text.{Text}
use acorde.Core.Uuid.{Uuid}
use acorde.GoMap
use acorde.GoMap.{GoMap, GoSet, assoc, has, keys}
use acorde.GoMap.Sets.{SameSet, has-foldl}
use acorde.Crdt.OrSet.{
  TagToken, tag_token_eq, OrSet, new_or_set, add_with_token, remove, contains, merge, clone,
}
use acorde.Crdt.OrSet.Views.{
  contains_iff, contains_congr, not_contains, has-remove, adds-remove, has-add_with_token,
  removes-add_with_token,
}

module _ (s t : OrSet) (tt : TagToken) where
  pub has_adds-merge : has (merge s t).adds tt ≡ (has s.adds tt || has t.adds tt)
  unfolding merge
  has_adds-merge = has-foldl t.adds.entries s.adds tt

  pub has_removes-merge : has (merge s t).removes tt ≡ (has s.removes tt || has t.removes tt)
  unfolding merge
  has_removes-merge = has-foldl t.removes.entries s.removes tt

-- the same tokens, added and removed
pub record SameOrSet (s t : OrSet) : Type 0 where
  pub adds : SameSet s.adds t.adds
  pub removes : SameSet s.removes t.removes

-- sets with the same tokens have the same tags
contains_same : {s t : OrSet} → SameOrSet s t → (tag : Text) → contains s tag ≡ contains t tag
contains_same {s} {t} h tag = contains_congr s t tag (λ k.
    let tt : TagToken = record { tag = tag; token = k } in ground (arith, h.adds tt, h.removes tt))

pub SameOrSet-refl : (s : OrSet) → SameOrSet s s
SameOrSet-refl s = record { adds = λ k. refl; removes = λ k. refl }

pub SameOrSet-sym : {s t : OrSet} → SameOrSet s t → SameOrSet t s
SameOrSet-sym h = record { adds = λ k. sym (h.adds k); removes = λ k. sym (h.removes k) }

pub SameOrSet-trans : {s t u : OrSet} → SameOrSet s t → SameOrSet t u → SameOrSet s u
SameOrSet-trans h k = record {
  adds = λ x. h.adds x ∙ k.adds x;
  removes = λ x. h.removes x ∙ k.removes x;
}

-- merges of the same tokens hold the same tokens
pub merge_congr :
    {s s' t t' : OrSet} → SameOrSet s s' → SameOrSet t t' → SameOrSet (merge s t) (merge s' t')
merge_congr {s} {s'} {t} {t'} h k = record {
  adds = λ x. ground (arith, has_adds-merge s t x, has_adds-merge s' t' x, h.adds x, k.adds x);
  removes = λ x.
      ground (arith, has_removes-merge s t x, has_removes-merge s' t' x, h.removes x, k.removes x);
}

-- Merging in either order gives the same tokens.
pub merge_comm : (s t : OrSet) → SameOrSet (merge s t) (merge t s)
merge_comm s t = record {
  adds = λ k. ground (arith, has_adds-merge s t k, has_adds-merge t s k);
  removes = λ k. ground (arith, has_removes-merge s t k, has_removes-merge t s k);
}

pub merge_assoc : (s t u : OrSet) → SameOrSet (merge (merge s t) u) (merge s (merge t u))
merge_assoc s t u = record {
  adds = λ k. ground (
    arith,
    has_adds-merge (merge s t) u k,
    has_adds-merge s t k,
    has_adds-merge s (merge t u) k,
    has_adds-merge t u k,
  );
  removes = λ k. ground (
    arith,
    has_removes-merge (merge s t) u k,
    has_removes-merge s t k,
    has_removes-merge s (merge t u) k,
    has_removes-merge t u k,
  );
}

pub merge_idem : (s : OrSet) → SameOrSet (merge s s) s
merge_idem s = record {
  adds = λ k. ground (arith, has_adds-merge s s k);
  removes = λ k. ground (arith, has_removes-merge s s k);
}

-- A clone holds the same tokens.
pub clone_lem : (s : OrSet) → SameOrSet (clone s) s
unfolding clone assoc
clone_lem s = record {
  adds = λ k. has-foldl s.adds.entries GoMap.empty k;
  removes = λ k. has-foldl s.removes.entries GoMap.empty k;
}

-- only what has been added is removed
pub record IsOrSet (s : OrSet) : Type 0 where
  pub observed : (tt : TagToken) → has s.removes tt ≡ true → has s.adds tt ≡ true

pub new_or_set-IsOrSet : IsOrSet new_or_set
unfolding assoc
new_or_set-IsOrSet = record { observed = λ tt h. h }

pub add_with_token-IsOrSet :
    (s : OrSet) (tag : Text) (token : Uuid) → IsOrSet s → IsOrSet (add_with_token s tag token)
add_with_token-IsOrSet s tag token h = record {
  observed = λ tt.
      ground (
        arith,
        h.observed tt,
        has-add_with_token s tag token tt,
        removes-add_with_token s tag token,
      );
}

pub remove-IsOrSet : (s : OrSet) (tag : Text) → IsOrSet s → IsOrSet (remove s tag)
remove-IsOrSet s tag h = record {
  observed = λ tt. ground (arith, h.observed tt, has-remove s tag tt, adds-remove s tag);
}

pub merge-IsOrSet : (s t : OrSet) → IsOrSet s → IsOrSet t → IsOrSet (merge s t)
merge-IsOrSet s t hs ht = record {
  observed = λ tt.
      ground
        (arith, hs.observed tt, ht.observed tt, has_adds-merge s t tt, has_removes-merge s t tt);
}

pub clone-IsOrSet : (s : OrSet) → IsOrSet s → IsOrSet (clone s)
clone-IsOrSet s h = record {
  observed = λ tt. ground (arith, h.observed tt, (clone_lem s).adds tt, (clone_lem s).removes tt);
}

module _ (s t : OrSet) (hs : IsOrSet s) (ht : IsOrSet t) (tag : Text) where
  -- A concurrent add wins, between sets that only remove what was added: one replica removes a tag
  -- while another adds it under a token that neither has seen; after the merge, in either
  -- direction, the tag is in the set.
  pub add_wins :
      (token : Uuid)
      → has s.adds (record { tag = tag; token = token }) ≡ false
      → has t.adds (record { tag = tag; token = token }) ≡ false
      → (contains (merge (add_with_token s tag token) (remove t tag)) tag ≡ true)
        × (contains (merge (remove t tag) (add_with_token s tag token)) tag ≡ true)
  add_wins token news newt =
      let tt : TagToken = record { tag = tag; token = token } in
      let a = add_with_token s tag token in
      let r = remove t tag in
      let there : contains (merge a r) tag ≡ true = (contains_iff (merge a r) tag).1 (
        token,
        ground (
          arith,
          hs.observed tt,
          ht.observed tt,
          has_adds-merge a r tt,
          has_removes-merge a r tt,
          has-add_with_token s tag token tt,
          removes-add_with_token s tag token,
          has-remove t tag tt,
          beq_refl tt,
        ),
      ) in
      (there, contains_same (merge_comm r a) tag ∙ there)

module _ (s t : OrSet) (tag : Text) where
  -- A remove that has seen every add of the other side takes the tag away from both: after the
  -- merge, in either direction, the tag is not in the set.
  pub remove_wins :
      ((token : Uuid)
        → has s.adds (record { tag = tag; token = token }) ≡ true
        → has t.adds (record { tag = tag; token = token }) ≡ true)
      → (contains (merge s (remove t tag)) tag ≡ false)
        × (contains (merge (remove t tag) s) tag ≡ false)
  remove_wins seen =
      let gone : contains (merge s (remove t tag)) tag ≡ false =
        not_contains (merge s (remove t tag)) tag (λ k.
          let tt : TagToken = record { tag = tag; token = k } in
          ground (
            arith,
            seen k,
            has_adds-merge s (remove t tag) tt,
            has_removes-merge s (remove t tag) tt,
            has-remove t tag tt,
            adds-remove t tag,
            beq_refl tag,
          )) in
      (gone, contains_same (merge_comm (remove t tag) s) tag ∙ gone)
