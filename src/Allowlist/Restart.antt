-- ===== src/Allowlist/Restart.antt =====
-- What a node of internal/sync/allowlist.go trusts after a change and a restart.
use acorde.Base.{
  ◌≡◌, ◌∙◌, refl, sym, ap, Bool, true, not, ◌&&◌, ◌||◌, none, some, inl, inr, Bool-cases, List, [],
  ◌∷◌, map, if◌then◌else◌, arith,
}
use mathlib.Core.Path.{subst}
use acorde.Base.Equality.{nat_eq, list_eq, list_beq, list_beq_iff}
use acorde.Base.Text.{Text}
use acorde.GoMap
use acorde.GoMap.{GoMap, get, put, delete, has, values, assoc, IsMap, Distinct}
use acorde.GoMap.Laws.{get-put, get-delete, put-IsMap, delete-IsMap}
use acorde.GoMap.Every.{Every, Every-head, Every-tail}
use acorde.Allowlist.Packages.{PeerId, AllowedPeer, PeerPackage, PeersJson, Files, Ascii}
use acorde.Allowlist.{AllowlistState, load_peers, is_allowed, new_allowlist, save, add, remove}

module _ ⦃ids : PeerPackage⦄ where
  -- a peer stands under its id, which is a peer's id, and carries its string
  abbrev pub Written : PeerId → AllowedPeer → Type 0
  Written id p = ids.IsPeer id × (p.peer_id ≡ ids.string id)

  pub record IsAllowlist (al : AllowlistState) : Type 0 where
    pub distinct : IsMap al.peers
    pub written : (id : PeerId) (p : AllowedPeer) → get al.peers id ≡ some p → Written id p

module _ ⦃ids : PeerPackage⦄ ⦃json : PeersJson⦄ where
  decode-kept :
      (id : PeerId) (p : AllowedPeer) → Written id p → ids.decode (json.kept p).peer_id ≡ some id
  decode-kept id p w =
      ap ids.decode (json.kept-Ascii p (subst Ascii (sym w.1) (ids.string-Ascii id)) ∙ w.1)
      ∙ ids.decode-string id w.0

  has-load_peers :
      (l : List (PeerId × AllowedPeer)) (m : GoMap PeerId AllowedPeer) (q : PeerId)
      → Distinct l
      → Every Written l
      → has (load_peers m (map json.kept (values (record { entries = l })))) q
        ≡ (has m q || has (record { entries = l }) q)
  unfolding load_peers assoc
  has-load_peers [] m q d w = ground arith
  has-load_peers ((k, p) ∷ l) m q d w =
      let back = decode-kept k p (Every-head Written k p l w) in
      ap
        (λ o.
          has
            (load_peers (elim o [ none ↦ m | some id ↦ put m id (json.kept p) ])
              (map json.kept (values (record { entries = l }))))
            q)
        back
      ∙ has-load_peers l (put m k (json.kept p)) q d.1 (Every-tail Written k p l d w)
      ∙ ground (arith, get-put m k q (json.kept p))

module _ {Disk : Type 0} ⦃ids : PeerPackage⦄ ⦃json : PeersJson⦄ ⦃files : Files Disk⦄ where
  -- what was saved is loaded again
  save-load :
      (al : AllowlistState) (disk : Disk)
      → IsAllowlist al
      → files.Ready disk
      → (disk' : Disk) × (save al disk ≡ some disk')
        × ((strict : Bool)
            → (loaded : AllowlistState) × (new_allowlist disk' al.path strict ≡ some loaded)
              × (loaded.strict ≡ strict)
              × ((q : PeerId) → has loaded.peers q ≡ has al.peers q))
  unfolding save new_allowlist assoc
  save-load al disk h ready =
      let (made, m, ok) = files.make-Ready disk al.path ready in
      let (disk', w, _, back) =
        files.write-Ready made al.path (json.marshal (values al.peers)) ok in
      (
        disk',
        ground (arith, m, w),
        λ strict. (
          record {
            peers = load_peers GoMap.empty (map json.kept (values al.peers));
            path = al.path;
            strict = strict;
          },
          ground (arith, back, json.unmarshal-marshal (values al.peers)),
          refl,
          λ q. has-load_peers al.peers.entries GoMap.empty q h.distinct h.written,
        ),
      )

  -- After a peer is added, where the disk can be written, and the node starts again, a strict node
  -- allows exactly that peer and those that it held before, and a node that is not strict allows all.
  pub new_allowlist-add :
      (al : AllowlistState) (disk : Disk) (id : PeerId) (name : Text) (addresses : List Text)
      → IsAllowlist al
      → files.Ready disk
      → ids.IsPeer id
      → IsAllowlist (add al disk id name addresses).0
        × ((disk' : Disk) × ((add al disk id name addresses).1 ≡ some disk')
            × ((strict : Bool)
                → (loaded : AllowlistState) × (new_allowlist disk' al.path strict ≡ some loaded)
                  × ((q : PeerId)
                      → is_allowed loaded q
                        ≡ (if strict then (list_beq id q || has al.peers q) else true))))
  unfolding add
  new_allowlist-add al disk id name addresses h ready peer =
      let p : AllowedPeer = record {
        peer_id = ids.string id;
        name = name;
        added_at = 0;
        addresses = addresses;
      } in
      let next : AllowlistState = record al { peers = put al.peers id p } in
      let keeps : IsAllowlist next = record {
        distinct = put-IsMap al.peers id p h.distinct;
        written = λ k x e. elim (Bool-cases (list_beq id k)) [
          | inl c ↦
              subst (λ k. Written k x) ((list_beq_iff id k).0 c)
                (subst (Written id) {x = p} {y = x} (ground (arith, e, c, get-put al.peers id k p))
                  (peer, refl))
          | inr c ↦ h.written k x (ground (arith, e, c, get-put al.peers id k p))
        ];
      } in
      let (disk', saved, load) = save-load next disk keeps ready in
      (
        keeps,
        (
          disk',
          saved,
          λ strict.
              let (loaded, l, s, same) = load strict in
              (loaded, l, λ q. ground (arith, s, same q, get-put al.peers id q p)),
        ),
      )

  -- After a peer is removed, where the disk can be written, and the node starts again, a strict node
  -- allows exactly the others that it held before, and a node that is not strict allows all.
  pub new_allowlist-remove :
      (al : AllowlistState) (disk : Disk) (id : PeerId)
      → IsAllowlist al
      → files.Ready disk
      → IsAllowlist (remove al disk id).0
        × ((disk' : Disk) × ((remove al disk id).1 ≡ some disk')
            × ((strict : Bool)
                → (loaded : AllowlistState) × (new_allowlist disk' al.path strict ≡ some loaded)
                  × ((q : PeerId)
                      → is_allowed loaded q
                        ≡ (if strict then (not (list_beq id q) && has al.peers q) else true))))
  unfolding remove
  new_allowlist-remove al disk id h ready =
      let next : AllowlistState = record al { peers = delete al.peers id } in
      let keeps : IsAllowlist next = record {
        distinct = delete-IsMap al.peers id h.distinct;
        written = λ k x e. h.written k x (ground (arith, e, get-delete al.peers id k));
      } in
      let (disk', saved, load) = save-load next disk keeps ready in
      (
        keeps,
        (
          disk',
          saved,
          λ strict.
              let (loaded, l, s, same) = load strict in
              (loaded, l, λ q. ground (arith, s, same q, get-delete al.peers id q)),
        ),
      )
