-- ===== src/GoMap/Sets.antt =====
-- Go sets, `map[K]struct{}`: the loops that fill them.
use acorde.Base.{
  ◌≡◌, refl, ◌∙◌, Bool, true, false, ◌&&◌, ◌||◌, none, some, List, [], ◌∷◌, foldl, map, inl, inr,
  Bool-cases, arith, if◌then◌else◌,
}
use acorde.Base.Equality.{Eq}
use acorde.Base.Members.{mem}
use acorde.GoMap.{GoSet, assoc, keys, put, has}
use acorde.GoMap.Laws.{get-put}

module _ {ℓ} {K : Type ℓ} ⦃eq : Eq K⦄ where
  -- m[k] = struct{}{}
  abbrev pub insert : GoSet K → K → GoSet K
  insert m k = put m k tt

  -- one turn of `for k := range other { if p(k) { m[k] = struct{}{} } }`
  abbrev pub insert_if : (K → Bool) → GoSet K → K × Unit {0} → GoSet K
  insert_if p m e = if p e.0 then insert m e.0 else m

  -- one turn of `for k := range other { m[k] = struct{}{} }`
  abbrev pub insert_entry : GoSet K → K × Unit {0} → GoSet K
  insert_entry m e = insert m e.0

  -- the same keys
  abbrev pub SameSet : GoSet K → GoSet K → Type ℓ
  SameSet m n = (k : K) → has m k ≡ has n k

  abbrev pub mem_list : List (K × Unit {0}) → K → Bool
  mem_list l k = elim (assoc l k) [ none ↦ false | some _ ↦ true ]

  pub has-insert : (m : GoSet K) (k j : K) → has (insert m k) j ≡ (eq.beq k j || has m j)
  has-insert m k j = ground (arith, get-put m k j tt)

  has-insert_if :
      (p : K → Bool) (m : GoSet K) (j : K) (u : Unit {0}) (k : K)
      → has (insert_if p m (j, u)) k ≡ ((p j && eq.beq j k) || has m k)
  has-insert_if p m j u k = elim (Bool-cases (p j)) [
    | inl e ↦ rw e (has-insert m j k)
    | inr e ↦ rw e
  ]

  -- the loop with a test adds the keys of the other set that pass the test
  pub has-foldl_if :
      (p : K → Bool) (l : List (K × Unit {0})) (m : GoSet K) (k : K)
      → has (foldl (insert_if p) m l) k ≡ (has m k || (p k && mem_list l k))
  unfolding assoc
  has-foldl_if p [] m k = ground arith
  has-foldl_if p ((j, u) ∷ l) m k =
      has-foldl_if p l (insert_if p m (j, u)) k
      ∙ ground (arith, has-insert_if p m j u k, eq.beq_iff j k)

  -- the loop without a test adds the keys of the other set
  pub has-foldl :
      (l : List (K × Unit {0})) (m : GoSet K) (k : K)
      → has (foldl insert_entry m l) k ≡ (has m k || mem_list l k)
  unfolding assoc
  has-foldl [] m k = ground arith
  has-foldl ((j, u) ∷ l) m k = has-foldl l (insert m j) k ∙ ground (arith, has-insert m j k)

  -- the keys of the set, as a list
  pub mem-keys : (m : GoSet K) (k : K) → mem k (keys m) ≡ has m k
  unfolding assoc
  mem-keys m k = mem_keys_of m.entries
    where
      mem_keys_of : (l : List (K × Unit {0})) → mem k (map (λ e. e.0) l) ≡ mem_list l k
      mem_keys_of [] = refl
      mem_keys_of ((j, u) ∷ l) = ground (arith, mem_keys_of l)
