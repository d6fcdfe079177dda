-- ===== src/Events/Loops.antt =====
-- The loops of the bus over its subscriptions: each subscription changes by itself.
use mathlib.Core.Path.{subst}
use acorde.Base.{
  ◌≡◌, refl, ◌∙◌, Bool, true, false, Option, none, some, inl, inr, Bool-cases, List, [], ◌∷◌, ◌==◌,
  ==_iff, arith,
}
use acorde.Base.Equality.{nat_eq}
use acorde.Base.Members.{mem}
use acorde.GoMap.{GoMap, get, put}
use acorde.GoMap.Laws.{get-put}
use acorde.Events.Subscriptions.{Subscription, IsSubscription}
use acorde.Events.{Pointer, at_pointer, each_pointer}

abbrev pub Heap : Type 0
Heap = GoMap Pointer Subscription

-- every subscription of the heap satisfies the invariant
abbrev pub Sound : Heap → Type 0
Sound heap = (p : Pointer) (s : Subscription) → get heap p ≡ some s → IsSubscription s

-- the pointers lead to subscriptions
abbrev pub Held : List Pointer → Heap → Type 0
Held ps heap = (p : Pointer) → mem p ps ≡ true → (s : Subscription) × (get heap p ≡ some s)

-- no pointer stands twice
abbrev pub Once : List Pointer → Type 0
Once [] = Unit
Once (p ∷ ps) = (mem p ps ≡ false) × Once ps

abbrev pub changed :
    (Subscription → Subscription) → Bool → Option Subscription → Option Subscription
changed g false o = o
changed g true none = none
changed g true (some s) = some (g s)

module _ (f : Subscription → Option Subscription) (g : Subscription → Subscription)
    (same : (s : Subscription) → IsSubscription s → f s ≡ some (g s))
    (keeps : (s : Subscription) → IsSubscription s → IsSubscription (g s)) where
  pub at_pointer_lem :
      (heap : Heap) (p : Pointer) (s : Subscription)
      → Sound heap
      → get heap p ≡ some s
      → at_pointer f heap p ≡ some (put heap p (g s))
  unfolding at_pointer
  at_pointer_lem heap p s h there = ground (arith, there, same s (h p s there))

  pub put-Sound :
      (heap : Heap) (p : Pointer) (s : Subscription)
      → Sound heap
      → get heap p ≡ some s
      → Sound (put heap p (g s))
  put-Sound heap p s h there q t e = elim (Bool-cases (p == q)) [
    | inl c ↦
        let eq : g s ≡ t = ground (arith, e, c, get-put heap p q (g s)) in
        subst IsSubscription eq (keeps s (h p s there))
    | inr c ↦ h q t (ground (arith, e, c, get-put heap p q (g s)))
  ]

  -- the loop changes the subscriptions that it visits, and no other
  pub each_pointer_lem :
      (ps : List Pointer) (heap : Heap)
      → Once ps
      → Sound heap
      → Held ps heap
      → (new : Heap) × (each_pointer f heap ps ≡ some new)
        × Sound new
        × ((q : Pointer) → get new q ≡ changed g (mem q ps) (get heap q))
  unfolding each_pointer
  each_pointer_lem [] heap o h k = (heap, refl, h, λ q. refl)
  each_pointer_lem (p ∷ ps) heap o h k =
      let (s, there) = k p (ground arith) in
      let next = put heap p (g s) in
      let (new, done, sound, at) = each_pointer_lem ps next o.1 (put-Sound heap p s h there) (λ q m.
        let (t, e) = k q (ground (arith, m)) in
        elim (Bool-cases (p == q)) [
          | inl c ↦ (g s, get-put heap p q (g s) ∙ ground (arith, c))
          | inr c ↦ (t, get-put heap p q (g s) ∙ ground (arith, c, e))
        ]) in
      (
        new,
        ground (arith, at_pointer_lem heap p s h there, done),
        sound,
        λ q. elim (Bool-cases (p == q)) [
          | inl c ↦ ground (arith, c, at q, get-put heap p q (g s), ==_iff p q, o.0, there)
          | inr c ↦ at q ∙ ground (arith, c, get-put heap p q (g s))
        ],
      )
