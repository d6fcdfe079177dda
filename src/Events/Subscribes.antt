-- ===== src/Events/Subscribes.antt =====
-- What subscribing and unsubscribing do to the bus, and that they never panic.
use mathlib.Core.Path.{subst}
use acorde.Base.{
  ◌≡◌, refl, sym, ◌∙◌, ap, false, not, ◌&&◌, ◌||◌, none, some, inl, inr, Bool-cases, Option-cases,
  List, [], ◌∷◌, ◌++◌, ◌==◌, ==_iff, if◌then◌else◌, arith,
}
use acorde.Base.Equality.{nat_eq}
use acorde.Base.Members.{mem}
use acorde.GoMap.{get, put}
use acorde.GoMap.Laws.{get-put}
use acorde.Events.Subscriptions.{
  SubscriptionOptions, IsSubscription, new_subscription, shut, close, close_lem,
  shut-IsSubscription, new_subscription-IsSubscription,
}
use acorde.Events.Loops.{Once, changed, at_pointer_lem, put-Sound}
use acorde.Events.{Pointer, EventBus, subscribe_with_options, without, unsubscribe}
use acorde.Events.Keeps.{IsEventBus, fresh_changed}

mem-without :
    (p q : Pointer) (ps : List Pointer)
    → Once ps
    → mem q (without p ps) ≡ (mem q ps && not (p == q))
unfolding without
mem-without p q [] o = ground arith
mem-without p q (x ∷ ps) o = elim (Bool-cases (x == p)) [
  | inl c ↦ ground (
    arith,
    c,
    o.0,
    ==_iff x p,
    ==_iff p q,
    ==_iff x q,
    ap (λ y. mem y ps) ((==_iff x p).0 c),
    λ (e : p ≡ q). ap (λ y. mem y ps) e,
  )
  | inr c ↦ ground (arith, c, mem-without p q ps o.1, ==_iff x p, ==_iff p q, ==_iff x q)
]

Once-without : (p : Pointer) (ps : List Pointer) → Once ps → Once (without p ps)
unfolding without
Once-without p [] o = tt
Once-without p (x ∷ ps) o = elim (Bool-cases (x == p)) [
  | inl c ↦ rw c o.1
  | inr c ↦ rw c (ground (arith, mem-without p x ps o.1, o.0), Once-without p ps o.1)
]

-- On a bus that keeps its invariant, unsubscribing never panics and keeps it: it closes the
-- subscription and takes it off the bus, if the bus holds it, and every other subscription is as
-- before.
pub unsubscribe_lem :
    (b : EventBus) (p : Pointer)
    → IsEventBus b
    → (b' : EventBus) × (unsubscribe b p ≡ some b')
      × IsEventBus b'
      × ((q : Pointer) → mem q b'.subs ≡ (mem q b.subs && not (p == q)))
      × ((q : Pointer) → get b'.heap q ≡ changed shut (mem p b.subs && (p == q)) (get b.heap q))
unfolding unsubscribe
unsubscribe_lem b p h = elim (Bool-cases (mem p b.subs)) [
  | inr c ↦ (
    b,
    ground (arith, c),
    h,
    λ q. ground (arith, c, ==_iff p q, λ (e : p ≡ q). ap (λ y. mem y b.subs) e),
    λ q. ground (arith, c),
  )
  | inl c ↦
      let (s, there) = h.held p c in
      let new = put b.heap p (shut s) in
      let at : (q : Pointer) → get new q ≡ changed shut (p == q) (get b.heap q) = (λ q.
        elim (Bool-cases (p == q)) [
          | inl d ↦ ground (
            arith,
            d,
            get-put b.heap p q (shut s),
            ==_iff p q,
            there,
            λ (e : p ≡ q). ap (get b.heap) e,
          )
          | inr d ↦ ground (arith, d, get-put b.heap p q (shut s))
        ]) in
      let members = λ (q : Pointer). mem-without p q b.subs h.once in
      (
        record b { subs = without p b.subs; heap = new },
        ground (
          arith,
          c,
          at_pointer_lem close shut close_lem shut-IsSubscription b.heap p s h.sound there,
        ),
        record {
          once = Once-without p b.subs h.once;
          held = λ q m.
              let (t, k) = h.held q (ground (arith, m, members q)) in
              elim (Bool-cases (p == q)) [
                | inl d ↦ (shut t, at q ∙ ground (arith, d, k))
                | inr d ↦ (t, at q ∙ ground (arith, d, k))
              ];
          sound = put-Sound close shut close_lem shut-IsSubscription b.heap p s h.sound there;
          fresh = λ q t e.
              let (u, k) = fresh_changed shut (p == q) (get b.heap q) t (sym (at q) ∙ e) in
              h.fresh q u k;
        },
        members,
        λ q. at q ∙ ground (arith, c),
      )
]

mem-++ : (q p : Pointer) (ps : List Pointer) → mem q (ps ++ (p ∷ [])) ≡ (mem q ps || (p == q))
mem-++ q p [] = ground arith
mem-++ q p (x ∷ ps) = ground (arith, mem-++ q p ps)

Once-++ : (p : Pointer) (ps : List Pointer) → Once ps → mem p ps ≡ false → Once (ps ++ (p ∷ []))
Once-++ p [] o n = (refl, tt)
Once-++ p (x ∷ ps) o n = (
  ground (arith, mem-++ x p ps, o.0, n, ==_iff x p, ==_iff p x),
  Once-++ p ps o.1 (ground (arith, n)),
)

-- Subscribing makes a subscription that is open and empty at a new address, and leaves the others.
pub subscribe_lem :
    (b : EventBus) (opts : SubscriptionOptions)
    → IsEventBus b
    → IsEventBus (subscribe_with_options b opts).0
      × (get b.heap (subscribe_with_options b opts).1 ≡ none)
      × ((q : Pointer)
          → mem q (subscribe_with_options b opts).0.subs
            ≡ (mem q b.subs || ((subscribe_with_options b opts).1 == q)))
      × ((q : Pointer)
          → get (subscribe_with_options b opts).0.heap q ≡ (
              if (subscribe_with_options b opts).1 == q
              then some (new_subscription 100 opts)
              else get b.heap q))
unfolding subscribe_with_options
subscribe_lem b opts h =
    let s = new_subscription 100 opts in
    let free : get b.heap b.next ≡ none = elim (Option-cases (get b.heap b.next)) [
      | inl n ↦ n
      | inr (t, k) ↦ absurd (omega (arith, h.fresh b.next t k))
    ] in
    let at = λ (q : Pointer). get-put b.heap b.next q s in
    let new : mem b.next b.subs ≡ false = elim (Bool-cases (mem b.next b.subs)) [
      | inl c ↦ let (t, k) = h.held b.next c in absurd (omega (arith, h.fresh b.next t k))
      | inr c ↦ c
    ] in
    (
      record {
        once = Once-++ b.next b.subs h.once new;
        held = λ q m. elim (Bool-cases (b.next == q)) [
          | inl c ↦ (s, at q ∙ ground (arith, c))
          | inr c ↦
              let (t, k) = h.held q (ground (arith, m, c, mem-++ q b.next b.subs)) in
              (t, at q ∙ ground (arith, c, k))
        ];
        sound = λ q t e. elim (Bool-cases (b.next == q)) [
          | inl c ↦
              subst IsSubscription {x = s} {y = t} (ground (arith, e, c, at q))
                (new_subscription-IsSubscription 100 opts)
          | inr c ↦ h.sound q t (ground (arith, e, c, at q))
        ];
        fresh = λ q t e. elim (Bool-cases (b.next == q)) [
          | inl c ↦ ground (arith, c)
          | inr c ↦ omega (arith, h.fresh q t (ground (arith, e, c, at q)))
        ];
      },
      free,
      λ q. mem-++ q b.next b.subs,
      at,
    )
