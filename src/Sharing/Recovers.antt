-- ===== src/Sharing/Recovers.antt =====
-- internal/sharing/sharing.go: what the peers recover of what was shared with them.
use mathlib.Core.Path.{subst}
use acorde.Base.{
  Bool-cases, ℕ, ◌+◌, ◌≡◌, refl, ap, sym, ◌∙◌, Option, none, some, List, [], ◌∷◌, ◌++◌, ◌==◌,
  ==_iff, map, length, arith, inl, inr, Option-cases,
}
use acorde.Base.Equality.{nat_eq}
use acorde.Base.Text.{codes}
use acorde.Base.Slices.{take, take-++}
use acorde.Core.Uuid.{Uuid}
use acorde.Crypto.{Key, Aead, decrypt, decrypt-encrypt, nonce_size}
use acorde.GoMap.{get, put}
use acorde.GoMap.Laws.{get-put}
use acorde.Sharing.{
  PeerId, Curve, Hkdf, EntryKey, ShareableKey, SharingManager, bytes_of, copy_key, id_bytes,
  wrap_key, derive_entry_key, share_key_with, recover_shared_key, share_all,
  get_or_create_entry_key, share_entry,
}

copy_key_lem : (key : Key) → length key ≡ 32 → copy_key key ≡ key
copy_key_lem key h =
    ap (λ n. take n (key ++ bytes_of 32 0 [])) (sym h) ∙ take-++ key (bytes_of 32 0 [])

module _ ⦃curve : Curve⦄ ⦃hkdf : Hkdf⦄ ⦃aead : Aead⦄ where
  recover-share_key_with :
      (nonce : List ℕ) (k : EntryKey) (a b : List ℕ)
      → length nonce ≡ nonce_size
      → length k.key ≡ 32
      → (share : ShareableKey) × (share_key_with (some nonce) k a (curve.scalar_base_mult b)
          ≡ some share)
        × (share.for_peer_id ≡ curve.scalar_base_mult b)
        × (recover_shared_key share k.entry_id b (curve.scalar_base_mult a) ≡ some k.key)
  unfolding share_key_with recover_shared_key
  recover-share_key_with nonce k a b n h =
      let wrap = wrap_key a (curve.scalar_base_mult b) k.entry_id in
      let (cipher, sealed, opened) = decrypt-encrypt nonce wrap k.key (id_bytes k.entry_id) n in
      let same : wrap_key b (curve.scalar_base_mult a) k.entry_id ≡ wrap =
        ap (λ s. hkdf.read_key s (id_bytes k.entry_id) (codes "acorde-share-key"))
          (sym (curve.shared_secret a b)) in
      (
        record { encrypted_key = cipher; for_peer_id = curve.scalar_base_mult b },
        ground (arith, sealed),
        refl,
        ap
              (λ w. elim (decrypt w cipher (id_bytes k.entry_id)) [
                | none ↦ none
                | some bytes ↦ some (copy_key bytes)
              ])
              same
            ∙ ground (arith, opened, copy_key_lem k.key h),
      )

  -- what each peer, by its private key, recovers of its share
  abbrev pub recovered : Uuid → PeerId → List (List ℕ) → List ShareableKey → List (Option Key)
  recovered entry_id sender [] shares = []
  recovered entry_id sender (b ∷ privates) [] = none ∷ recovered entry_id sender privates []
  recovered entry_id sender (b ∷ privates) (share ∷ shares) =
      recover_shared_key share entry_id b sender ∷ recovered entry_id sender privates shares

  recovered-share_all :
      (draws : ℕ → List ℕ) (k : EntryKey) (a : List ℕ) (i : ℕ) (privates : List (List ℕ))
      → ((n : ℕ) → length (draws n) ≡ nonce_size)
      → length k.key ≡ 32
      → (shares : List ShareableKey) × (share_all
            (λ n. some (draws n))
            k
            a
            i
            (map curve.scalar_base_mult privates)
          ≡ some shares)
        × (map (λ s. s.for_peer_id) shares ≡ map curve.scalar_base_mult privates)
        × (recovered k.entry_id (curve.scalar_base_mult a) privates shares
            ≡ map (λ _. some k.key) privates)
  unfolding share_all
  recovered-share_all draws k a i [] n h = ([], refl, refl, refl)
  recovered-share_all draws k a i (b ∷ privates) n h =
      let (share, made, peer, opened) = recover-share_key_with (draws i) k a b (n i) h in
      let (shares, rest, peers, recovers) = recovered-share_all draws k a (i + 1) privates n h in
      (
        share ∷ shares,
        ground (arith, made, rest),
        ground (arith, peer, peers),
        ground (arith, opened, recovers),
      )

  -- every key is the one that its entry has of the master key
  abbrev pub IsSharing : SharingManager → Type 0
  IsSharing m =
      (id : Uuid) (k : EntryKey)
      → get m.entry_keys id ≡ some k
      → (k.entry_id ≡ id) × (k.key ≡ (derive_entry_key m.master_key id).key)

  put-IsSharing :
      (m : SharingManager) (id : Uuid) (k : EntryKey)
      → IsSharing m
      → k.entry_id ≡ id
      → k.key ≡ (derive_entry_key m.master_key id).key
      → IsSharing (record m { entry_keys = put m.entry_keys id k })
  put-IsSharing m id k h own key j found e = elim (Bool-cases (id == j)) [
    | inl same ↦
        let here : id ≡ j = (==_iff id j).0 same in
        let it : k ≡ found = ground (arith, e, same, get-put m.entry_keys id j k) in
        (
          ap (λ f. f.entry_id) (sym it) ∙ own ∙ here,
          ap (λ f. f.key) (sym it) ∙ key ∙ ap (λ i. (derive_entry_key m.master_key i).key) here,
        )
    | inr other ↦ h j found (ground (arith, e, other, get-put m.entry_keys id j k))
  ]

  created :
      (m : SharingManager) (id : Uuid)
      → IsSharing m
      → let (next, k) = get_or_create_entry_key m id in
        (k.entry_id ≡ id)
        × (k.key ≡ (derive_entry_key m.master_key id).key)
        × (next.key_pair ≡ m.key_pair)
        × (next.master_key ≡ m.master_key)
        × IsSharing next
  unfolding get_or_create_entry_key derive_entry_key
  created m id h = elim (Option-cases (get m.entry_keys id)) [
    | inr (k, e) ↦ ground (arith, e, h id k e, h)
    | inl n ↦
        let k = derive_entry_key m.master_key id in
        let after = put-IsSharing m id k h refl refl in ground (arith, n, after)
  ]

  length-derive_entry_key :
      (master : Key) (id : Uuid) → length (derive_entry_key master id).key ≡ 32
  unfolding derive_entry_key
  length-derive_entry_key master id =
      hkdf.length-read_key master (id_bytes id) (codes "acorde-entry-key")

  -- A manager whose keys are those of its master key, with nonces of 24 bytes, shares an entry with
  -- any peers, of whom it has the public keys. There is a share for each of them in turn, from which
  -- the peer recovers the entry's key, with its private key and the manager's public one. The keys of
  -- the manager are then those of its master key still.
  pub recovered-share_entry :
      (draws : ℕ → List ℕ) (m : SharingManager) (id : Uuid) (privates : List (List ℕ))
      → ((n : ℕ) → length (draws n) ≡ nonce_size)
      → m.key_pair.public ≡ curve.scalar_base_mult m.key_pair.private
      → IsSharing m
      → let peers = map curve.scalar_base_mult privates in
        let (next, result) = share_entry (λ n. some (draws n)) m id peers in
        IsSharing next
        × ((shares : List ShareableKey) × (result ≡ some shares)
            × (map (λ s. s.for_peer_id) shares ≡ peers)
            × (recovered id m.key_pair.public privates shares
                ≡ map (λ _. some (derive_entry_key m.master_key id).key) privates))
  unfolding share_entry
  recovered-share_entry draws m id privates n pair h =
      let (next, k) = get_or_create_entry_key m id in
      let (own, key, pairs, master, keeps) = created m id h in
      let peers = map curve.scalar_base_mult privates in
      let long : length k.key ≡ 32 = ap length key ∙ length-derive_entry_key m.master_key id in
      let (shares, made, whom, opened) =
        recovered-share_all draws k next.key_pair.private 0 privates n long in
      let marked : EntryKey = record k { shared_with = k.shared_with ++ peers } in
      let run : share_entry (λ n'. some (draws n')) m id peers
          ≡ (record next { entry_keys = put next.entry_keys id marked }, some shares) =
        ground (arith, made) in
      let sender : curve.scalar_base_mult next.key_pair.private ≡ m.key_pair.public =
        ap (λ q. curve.scalar_base_mult q.private) pairs ∙ sym pair in
      (
        subst (λ (r : SharingManager × Option (List ShareableKey)). IsSharing r.0) (sym run)
            (put-IsSharing next id marked keeps own
              (key ∙ ap (λ q. (derive_entry_key q id).key) (sym master))),
        (
          shares,
          ap (λ r. r.1) run,
          whom,
          ap (λ i. recovered i m.key_pair.public privates shares) (sym own)
              ∙ ap (λ s. recovered k.entry_id s privates shares) (sym sender)
              ∙ opened
              ∙ ap (λ q. map (λ _. some q) privates) key,
        ),
      )
