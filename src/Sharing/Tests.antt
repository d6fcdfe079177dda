-- ===== src/Sharing/Tests.antt =====
-- A manager of internal/sharing/sharing.go on a curve where a key is its own public one.
use acorde.Base.{ℕ, ◌≡◌, refl, some, List, [], ◌∷◌, map, arith}
use acorde.Base.Equality.{nat_eq}
use acorde.GoMap
use acorde.GoMap.{GoMap, get, assoc}
use acorde.Sharing.{
  Curve, Hkdf, SharingManager, ShareableKey, share_entry, derive_entry_key, bytes_of,
}
use acorde.Sharing.Recovers.{IsSharing, recovered, recovered-share_entry}
use acorde.Engine.Tests.{bare_aead}

instance abbrev no_curve : Curve
no_curve = record {
  scalar_base_mult = λ a. a;
  scalar_mult = λ a b. [];
  shared_secret = λ a b. refl;
}

instance abbrev zero_keys : Hkdf
zero_keys = record {
  read_key = λ secret salt info. bytes_of 32 0 [];
  length-read_key = λ secret salt info. refl;
}

abbrev manager : SharingManager
manager = record {
  key_pair = record { private = 1 ∷ []; public = 1 ∷ [] };
  master_key = 5 ∷ [];
  entry_keys = GoMap.empty;
}

manager-IsSharing : IsSharing manager
unfolding assoc
manager-IsSharing id k e = absurd (ground (arith, e))

abbrev privates : List (List ℕ)
privates = (2 ∷ []) ∷ (3 ∷ []) ∷ []

recovered-share_entry_example :
    let peers = map no_curve.scalar_base_mult privates in
    let (next, result) = share_entry (λ n. some (bytes_of 24 0 [])) manager 7 peers in
    IsSharing next
    × ((shares : List ShareableKey) × (result ≡ some shares)
        × (map (λ s. s.for_peer_id) shares ≡ peers)
        × (recovered 7 manager.key_pair.public privates shares
            ≡ map (λ _. some (derive_entry_key manager.master_key 7).key) privates))
recovered-share_entry_example =
    recovered-share_entry (λ n. bytes_of 24 0 []) manager 7 privates (λ n. refl) refl
      manager-IsSharing
