-- ===== src/Allowlist.antt =====
-- internal/sync/allowlist.go: the peers that a node trusts, kept in a file.
pub mod Packages
pub mod Restart
pub mod Tests
use acorde.Base.{ℕ, Bool, true, false, Option, none, some, List, [], ◌∷◌, if◌then◌else◌}
use acorde.Base.Equality.{nat_eq, list_eq}
use acorde.Base.Text.{Text}
use acorde.GoMap
use acorde.GoMap.{GoMap, put, delete, has, values}
use acorde.Allowlist.Packages.{
  PeerId, AllowedPeer, PeerPackage, PeersJson, Read, missing, unreadable, found, Files,
}

pub record AllowlistState : Type 0 where
  pub peers : GoMap PeerId AllowedPeer
  pub path : Text
  pub strict : Bool

module _ ⦃ids : PeerPackage⦄ where
  -- the loop of `load`, which skips ids that do not decode
  unfoldable pub load_peers : GoMap PeerId AllowedPeer → List AllowedPeer → GoMap PeerId AllowedPeer
  load_peers m [] = m
  load_peers m (p ∷ rest) =
      load_peers (elim (ids.decode p.peer_id) [ none ↦ m | some id ↦ put m id p ]) rest

-- internal/sync/allowlist.go's methods that ask
abbrev pub is_allowed : AllowlistState → PeerId → Bool
is_allowed al peer_id = if al.strict then has al.peers peer_id else true

abbrev pub list : AllowlistState → List AllowedPeer
list al = values al.peers

abbrev count : AllowlistState → ℕ
count al = GoMap.size al.peers

module _ {Disk : Type 0} ⦃ids : PeerPackage⦄ ⦃json : PeersJson⦄ ⦃files : Files Disk⦄ where
  -- NewAllowlist with the `load` in it; `path` is peers.json in the data directory. A file that is
  -- missing is no error.
  unfoldable pub new_allowlist : Disk → Text → Bool → Option AllowlistState
  unfolding load_peers
  new_allowlist disk path strict = elim (files.read_file disk path) [
    | missing ↦ some (record { peers = GoMap.empty; path = path; strict = strict })
    | unreadable ↦ none
    | found bytes ↦ elim (json.unmarshal bytes) [
      | none ↦ none
      | some file ↦
          some (record { peers = load_peers GoMap.empty file; path = path; strict = strict })
    ]
  ]

  unfoldable pub save : AllowlistState → Disk → Option Disk
  save al disk = elim (files.make_dirs disk al.path) [
    | none ↦ none
    | some made ↦ files.write_file made al.path (json.marshal (values al.peers))
  ]

  -- the state after the call, and the disk or no disk where the save failed
  unfoldable pub add :
      AllowlistState → Disk → PeerId → Text → List Text → AllowlistState × Option Disk
  unfolding save
  add al disk peer_id name addresses =
      let next : AllowlistState = record al {
        peers = put al.peers peer_id (record {
          peer_id = ids.string peer_id;
          name = name;
          added_at = 0;
          addresses = addresses;
        });
      } in
      (next, save next disk)

  unfoldable pub remove : AllowlistState → Disk → PeerId → AllowlistState × Option Disk
  unfolding save
  remove al disk peer_id =
      let next : AllowlistState = record al { peers = delete al.peers peer_id } in
      (next, save next disk)
