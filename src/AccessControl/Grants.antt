-- ===== src/AccessControl/Grants.antt =====
-- Grants of internal/acl/store.go: what each changes of the answers of `CheckRead` and `CheckWrite`.
use acorde.Base.{
  ◌≡◌, refl, true, ◌&&◌, inl, inr, Bool-cases, [], ◌∷◌, ◌++◌, if◌then◌else◌, arith, some, ◌==◌,
  ==_iff,
}
use acorde.Base.Equality.{nat_eq, list_eq, list_beq, list_beq_iff}
use acorde.Base.Text.{Text}
use acorde.Core.Uuid.{Uuid, UuidPackage}
use acorde.Core.Entry.{Acl}
use acorde.AccessControl.Packages.{JsonPackage, Database}
use acorde.AccessControl.Table.{known}
use acorde.AccessControl.Peers.{has_peer-++, map-++, can_read_lem, can_write_lem}
use acorde.AccessControl.{has_peer, check_read, check_write, grant_read, grant_write}
use acorde.AccessControl.Answers.{
  rewritten, readers_kept, writers_kept, check_read-Reads, check_write-Reads, check_read-get_acl,
  check_write-get_acl, check_write-readers,
}

module _ {Db : Type 0} ⦃uuids : UuidPackage⦄ ⦃json : JsonPackage⦄ ⦃database : Database Db⦄ where
  module _ (s : Db) (ready : database.Ready s) (id : Uuid) (peer : Text) where
    -- `GrantRead` on a database that answers succeeds: the peer may read the entry, and all other
    -- answers of the checks are as before. The name of the peer must be one that JSON keeps.
    pub grant_read-check_read :
        json.coerce peer ≡ peer
        → (s' : Db) × (grant_read s id peer ≡ some s')
          × database.Ready s'
          × ((j : Uuid) (q : Text)
              → check_read s' j q
                ≡ (if (id == j) && list_beq peer q then some true else check_read s j q))
          × ((j : Uuid) (q : Text) → check_write s' j q ≡ check_write s j q)
    unfolding grant_read
    grant_read-check_read kept =
        let (acl, there, key, settled) = known s ready id in
        elim (Bool-cases (has_peer acl.readers peer)) [
          | inl e ↦ (
            s,
            ground (arith, there, e),
            ready,
            λ j q. ground (
              arith,
              there,
              e,
              ==_iff id j,
              list_beq_iff peer q,
              check_read-get_acl s id acl peer there,
              can_read_lem acl peer,
            ),
            λ j q. refl,
          )
          | inr e ↦
              let new : Acl = record acl { readers = acl.readers ++ (peer ∷ []) } in
              let (s', done, still, reads) =
                rewritten s ready id acl key (acl.readers ++ (peer ∷ [])) acl.writers settled
                  (map-++ json.coerce acl.readers peer (readers_kept acl settled) kept)
                  (writers_kept acl settled) in
              (
                s',
                ground (arith, there, e, done),
                still,
                λ j q. ground (
                  arith,
                  there,
                  ==_iff id j,
                  check_read-Reads s s' id new reads j q,
                  check_read-get_acl s id acl q there,
                  can_read_lem acl q,
                  can_read_lem new q,
                  has_peer-++ acl.readers peer q,
                ),
                check_write-readers s s' id acl (acl.readers ++ (peer ∷ [])) there reads,
              )
        ]

    -- `GrantWrite` on a database that answers succeeds: the peer may write and read the entry, and
    -- all other answers of the checks are as before. The name of the peer must be one that JSON
    -- keeps.
    pub grant_write-check_write :
        json.coerce peer ≡ peer
        → (s' : Db) × (grant_write s id peer ≡ some s')
          × database.Ready s'
          × ((j : Uuid) (q : Text)
              → check_write s' j q
                ≡ (if (id == j) && list_beq peer q then some true else check_write s j q))
          × ((j : Uuid) (q : Text)
              → check_read s' j q
                ≡ (if (id == j) && list_beq peer q then some true else check_read s j q))
    unfolding grant_write
    grant_write-check_write kept =
        let (acl, there, key, settled) = known s ready id in
        elim (Bool-cases (has_peer acl.writers peer)) [
          | inl e ↦ (
            s,
            ground (arith, there, e),
            ready,
            λ j q. ground (
              arith,
              there,
              e,
              ==_iff id j,
              list_beq_iff peer q,
              check_write-get_acl s id acl peer there,
              can_write_lem acl peer,
            ),
            λ j q. ground (
              arith,
              there,
              e,
              ==_iff id j,
              list_beq_iff peer q,
              check_read-get_acl s id acl peer there,
              can_read_lem acl peer,
            ),
          )
          | inr e ↦
              let ws = acl.writers ++ (peer ∷ []) in
              let new : Acl = record acl { writers = ws } in
              let (s', done, still, reads) =
                rewritten s ready id acl key acl.readers ws settled (readers_kept acl settled)
                  (map-++ json.coerce acl.writers peer (writers_kept acl settled) kept) in
              (
                s',
                ground (arith, there, e, done),
                still,
                λ j q. ground (
                  arith,
                  there,
                  ==_iff id j,
                  check_write-Reads s s' id new reads j q,
                  check_write-get_acl s id acl q there,
                  can_write_lem acl q,
                  can_write_lem new q,
                  has_peer-++ acl.writers peer q,
                ),
                λ j q. ground (
                  arith,
                  there,
                  ==_iff id j,
                  check_read-Reads s s' id new reads j q,
                  check_read-get_acl s id acl q there,
                  can_read_lem acl q,
                  can_read_lem new q,
                  has_peer-++ acl.writers peer q,
                ),
              )
        ]
