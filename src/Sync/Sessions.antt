-- ===== src/Sync/Sessions.antt =====
-- internal/sync/p2p.go: the sessions of a service and its counters, over every order in which its
-- goroutines run.
use acorde.Base.{
  ℕ, ◌+◌, ◌%◌, ◌^◌, ◌≡◌, refl, Bool, true, false, not, ◌&&◌, List, [], ◌∷◌, length, arith,
  if◌then◌else◌, inl, inr, Bool-cases,
}
use acorde.Base.Equality.{nat_eq, list_eq, list_beq, list_beq_iff}
use acorde.Base.Members.{mem}
use acorde.Base.Text.{Text}
use acorde.GoMap.{put, has, IsMap}
use acorde.GoMap.Laws.{get-put, get-delete, put-IsMap, delete-IsMap}
use acorde.Allowlist.Packages.{PeerId, PeerPackage}
use acorde.Sync.{P2pService, Exchanged, begin_sync, end_sync, handle_peer_found}

-- no name stands twice
abbrev pub distinct : List Text → Bool
distinct [] = true
distinct (a ∷ l) = not (mem a l) && distinct l

-- the names without the first that is the same
abbrev pub without : Text → List Text → List Text
without a [] = []
without a (b ∷ l) = if list_beq b a then l else b ∷ without a l

mem-without :
    (a b : Text) (l : List Text)
    → distinct l ≡ true
    → mem b (without a l) ≡ (mem b l && not (list_beq a b))
mem-without a b [] d = refl
mem-without a b (c ∷ l) d =
    ground (arith, d, mem-without a b l, list_beq_iff c a, list_beq_iff c b, list_beq_iff a b)

distinct-without : (a : Text) (l : List Text) → distinct l ≡ true → distinct (without a l) ≡ true
distinct-without a [] d = refl
distinct-without a (c ∷ l) d = ground (arith, d, distinct-without a l, mem-without a c l)

length-without : (a : Text) (l : List Text) → mem a l ≡ true → length l ≡ length (without a l) + 1
length-without a [] m = ground (arith, m)
length-without a (c ∷ l) m = ground (arith, m, length-without a l)

module _ {P : Type 0} ⦃ids : PeerPackage⦄ where
  -- One step of one goroutine, with the names of the peers with which sessions run before it and
  -- after it: a goroutine goes on into a session exactly where begin_sync lets it. A session ends
  -- only while it runs, in a service that need not be the one in which it began. The number counts
  -- the attempts that were not let on.
  pub data Step : P2pService P → List Text → ℕ → P2pService P → List Text → Type 0 where
    begins :
        {s : P2pService P} {running : List Text} (peer : PeerId)
        → (begin_sync s peer).1 ≡ true
        → Step s running 0 (begin_sync s peer).0 (ids.string peer ∷ running)
    skips :
        {s : P2pService P} {running : List Text} (peer : PeerId)
        → (begin_sync s peer).1 ≡ false
        → Step s running 1 (begin_sync s peer).0 running
    ends :
        {s : P2pService P} {running : List Text} (peer : PeerId) (done : Exchanged P)
        → mem (ids.string peer) running ≡ true
        → Step s running 0 (end_sync s peer done) (without (ids.string peer) running)
    finds :
        {s : P2pService P} {running : List Text} (peer : PeerId) (connected : Bool)
        → Step s running 0 (handle_peer_found s peer connected).0 running
    serves :
        {s : P2pService P} {running : List Text} (p : P)
        → Step s running 0 (record s { provider = p }) running

  pub data Run : P2pService P → List Text → ℕ → P2pService P → List Text → Type 0 where
    stays : {s : P2pService P} {running : List Text} → Run s running 0 s running
    then_steps :
        {s t u : P2pService P} {at_first between at_last : List Text} {n k : ℕ}
        → Run s at_first n t between
        → Step t between k u at_last
        → Run s at_first (n + k) u at_last

  -- the sessions that run, and the attempts that were skipped
  pub record IsService (s : P2pService P) (running : List Text) (skipped : ℕ) : Type 0 where
    pub once : distinct running ≡ true
    pub active : (name : Text) → has s.active_syncs name ≡ mem name running
    pub counted :
        s.sync_attempts ≡ (s.sync_successes + s.sync_failures + length running + skipped) % 2 ^ 64
    pub known : IsMap s.peers
    pub not_self : has s.peers s.host_id ≡ false

  begins-IsService :
      (s : P2pService P) (running : List Text) (peer : PeerId) (n : ℕ)
      → (begin_sync s peer).1 ≡ true
      → IsService s running n
      → IsService (begin_sync s peer).0 (ids.string peer ∷ running) n
  unfolding begin_sync
  begins-IsService s running peer n goes h =
      let name = ids.string peer in
      elim (Bool-cases (has s.active_syncs name)) [
        | inl busy ↦ absurd (ground (arith, goes, busy))
        | inr free ↦ rw free (record {
          once = ground (arith, h.once, h.active name, free);
          active = λ j. ground (arith, h.active j, get-put s.active_syncs name j tt);
          counted = ground (arith, h.counted);
          known = h.known;
          not_self = h.not_self;
        })
      ]

  skips-IsService :
      (s : P2pService P) (running : List Text) (peer : PeerId) (n : ℕ)
      → (begin_sync s peer).1 ≡ false
      → IsService s running n
      → IsService (begin_sync s peer).0 running (n + 1)
  unfolding begin_sync
  skips-IsService s running peer n stops h =
      elim (Bool-cases (has s.active_syncs (ids.string peer))) [
        | inl busy ↦ rw busy (record {
          once = h.once;
          active = h.active;
          counted = ground (arith, h.counted);
          known = h.known;
          not_self = h.not_self;
        })
        | inr free ↦ absurd (ground (arith, stops, free))
      ]

  end_sync-IsService :
      (s : P2pService P) (running : List Text) (peer : PeerId) (done : Exchanged P) (n : ℕ)
      → mem (ids.string peer) running ≡ true
      → IsService s running n
      → IsService (end_sync s peer done) (without (ids.string peer) running) n
  unfolding end_sync
  end_sync-IsService s running peer done n runs h =
      let name = ids.string peer in
      record {
        once = distinct-without name running h.once;
        active = λ j. ground (
          arith,
          h.active j,
          get-delete s.active_syncs name j,
          mem-without name j running h.once,
        );
        counted = ground (arith, h.counted, length-without name running runs);
        known = ground (arith, h.known);
        not_self = ground (arith, h.not_self);
      }

  handle_peer_found-IsService :
      (s : P2pService P) (running : List Text) (peer : PeerId) (connected : Bool) (n : ℕ)
      → IsService s running n
      → IsService (handle_peer_found s peer connected).0 running n
  unfolding handle_peer_found
  handle_peer_found-IsService s running peer connected n h =
      let added = put-IsMap s.peers peer tt h.known in
      record {
        once = h.once;
        active = λ j. ground (arith, h.active j);
        counted = ground (arith, h.counted);
        known = ground (arith, h.known, added, delete-IsMap (put s.peers peer tt) peer added);
        not_self = ground (
          arith,
          h.not_self,
          get-put s.peers peer s.host_id tt,
          get-delete (put s.peers peer tt) peer s.host_id,
        );
      }

  Step-IsService :
      {s t : P2pService P} {running after : List Text} {k : ℕ} (n : ℕ)
      → Step s running k t after
      → IsService s running n
      → IsService t after (n + k)
  Step-IsService n (Step.begins {s} {running} peer goes) h =
      ground (arith, begins-IsService s running peer n goes h)
  Step-IsService n (Step.skips {s} {running} peer stops) h =
      skips-IsService s running peer n stops h
  Step-IsService n (Step.ends {s} {running} peer done runs) h =
      ground (arith, end_sync-IsService s running peer done n runs h)
  Step-IsService n (Step.finds {s} {running} peer connected) h =
      ground (arith, handle_peer_found-IsService s running peer connected n h)
  Step-IsService n (Step.serves p) h = record {
    once = h.once;
    active = h.active;
    counted = ground (arith, h.counted);
    known = h.known;
    not_self = h.not_self;
  }

  -- In any run of a service's goroutines, in any order, no two sessions with peers of one name run at
  -- the same time, and the active syncs are the names of the sessions that run: an attempt goes on
  -- into a session only where none with that peer runs, and the end of a session gives way to the
  -- next. Modulo 2^64, the attempts are the successes, the failures, the sessions that run and the
  -- attempts that were skipped. The service does not become its own peer.
  pub Run-IsService :
      {s t : P2pService P} {running after : List Text} {k : ℕ} (n : ℕ)
      → IsService s running n
      → Run s running k t after
      → IsService t after (n + k)
  Run-IsService n h Run.stays = ground (arith, h)
  Run-IsService n h (Run.then_steps {n = m} {k = j} run step) =
      ground (arith, Step-IsService (n + m) step (Run-IsService n h run))
