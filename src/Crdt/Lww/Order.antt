-- ===== src/Crdt/Lww/Order.antt =====
-- The order by which `Merge` of internal/crdt/lww.go prefers one element to another: the later
-- timestamp, then a tombstone over a live entry, then the greater content, then the greater tags.
use mathlib.Core.Path.{fun_ext, subst}
use Prim.Native.Nat.{compare}
use acorde.Base.{ℕ, ◌≡◌, refl, ap, sym, false, List, [], ◌∷◌, arith, length, ◌↔◌, if◌then◌else◌}
use acorde.Base.Ordered.{
  Ordering, IsWeakOrder, nat_order, lex, on, lex-IsWeakOrder, on-IsWeakOrder, compare_lists,
  compare_lists-IsWeakOrder, compare_lists-eq_iff,
}
use acorde.Base.Equality.{nat_eq}
use acorde.Base.Text.{Text, compare_text, text_order}
use acorde.Crdt.Lww.{LwwElement, compare_slots, compare_slices, compare_bytes, compare_tags}

module _ {ℓ} {A : Type ℓ} (cmp : A → A → Ordering) where
  slots_eq : (a b : List A) → length a ≡ length b → compare_slots cmp a b ≡ compare_lists cmp a b
  slots_eq [] [] h = refl
  slots_eq [] (y ∷ b) h = absurd (omega arith)
  slots_eq (x ∷ a) [] h = absurd (omega arith)
  slots_eq (x ∷ a) (y ∷ b) h = ground (arith, slots_eq a b)

  slices_eq :
      (a b : List A) → compare_slices cmp a b ≡ lex (on compare length) (compare_lists cmp) a b
  slices_eq a b = ground (arith, slots_eq a b)

  compare_slices-IsWeakOrder : IsWeakOrder cmp → IsWeakOrder (compare_slices cmp)
  compare_slices-IsWeakOrder h =
      subst IsWeakOrder (sym (fun_ext (λ a. fun_ext (λ b. slices_eq a b))))
        (lex-IsWeakOrder (on-IsWeakOrder length nat_order) (compare_lists-IsWeakOrder cmp h))

  -- slices that neither precede one another are equal
  pub compare_slices-eq_iff :
      ((x y : A) → (cmp x y ≡ Ordering.eq) ↔ (x ≡ y))
      → (a b : List A) → (compare_slices cmp a b ≡ Ordering.eq) ↔ (a ≡ b)
  compare_slices-eq_iff h a b =
      ground (arith, slices_eq a b, compare_lists-eq_iff cmp h a b, λ (p : a ≡ b). ap length p)

compare_bytes-IsWeakOrder : IsWeakOrder compare_bytes
unfolding compare_bytes
compare_bytes-IsWeakOrder = compare_slices-IsWeakOrder compare nat_order

compare_tags-IsWeakOrder : IsWeakOrder compare_tags
unfolding compare_tags
compare_tags-IsWeakOrder = compare_slices-IsWeakOrder compare_text text_order

compare-eq_iff : (x y : ℕ) → (compare x y ≡ Ordering.eq) ↔ (x ≡ y)
compare-eq_iff x y = ground arith

pub compare_bytes-eq_iff : (a b : List ℕ) → (compare_bytes a b ≡ Ordering.eq) ↔ (a ≡ b)
unfolding compare_bytes
compare_bytes-eq_iff = compare_slices-eq_iff compare compare-eq_iff

pub compare_tags-eq_iff : (a b : List Text) → (compare_tags a b ≡ Ordering.eq) ↔ (a ≡ b)
unfolding compare_tags
compare_tags-eq_iff =
    compare_slices-eq_iff compare_text (λ x y. compare_lists-eq_iff compare compare-eq_iff x y)

-- what of an element takes part in the comparison: a tombstone hides its content and tags
abbrev grave : LwwElement → ℕ
grave el = if el.deleted then 1 else 0

abbrev live_content : LwwElement → List ℕ
live_content el = if el.deleted then [] else el.entry.content

abbrev live_tags : LwwElement → List Text
live_tags el = if el.deleted then [] else el.entry.tags

abbrev stamp : LwwElement → ℕ
stamp el = el.timestamp

unfoldable pub compare_elements : LwwElement → LwwElement → Ordering
compare_elements =
    lex (on compare stamp)
      (lex (on compare grave) (lex (on compare_bytes live_content) (on compare_tags live_tags)))

pub compare_elements-IsWeakOrder : IsWeakOrder compare_elements
unfolding compare_elements
compare_elements-IsWeakOrder = lex-IsWeakOrder (on-IsWeakOrder stamp nat_order) (
    lex-IsWeakOrder (on-IsWeakOrder grave nat_order) (
      lex-IsWeakOrder (on-IsWeakOrder live_content compare_bytes-IsWeakOrder)
        (on-IsWeakOrder live_tags compare_tags-IsWeakOrder)))

-- Two elements are tied when they have one timestamp and are both tombstones, or both live with
-- one content and one list of tags. Their types and creation times take no part.
pub compare_elements-eq_iff :
    (a b : LwwElement)
    → (compare_elements a b ≡ Ordering.eq) ↔ (
        (a.timestamp ≡ b.timestamp)
        × (a.deleted ≡ b.deleted)
        × (a.deleted ≡ false → (a.entry.content ≡ b.entry.content) × (a.entry.tags ≡ b.entry.tags)))
unfolding compare_elements
compare_elements-eq_iff a b = ground (
  arith,
  compare_bytes-eq_iff (live_content a) (live_content b),
  compare_tags-eq_iff (live_tags a) (live_tags b),
)
