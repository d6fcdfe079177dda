-- ===== src/AccessControl/Revokes.antt =====
-- Revocations of internal/acl/store.go: what each changes of the answers of `CheckRead` and
-- `CheckWrite`, and how the three checks imply one another.
use acorde.Base.{
  ◌∙◌, ◌⊎◌, ◌≢◌, none, ◌≡◌, inl, inr, Option-cases, true, ◌||◌, ◌&&◌, if◌then◌else◌, arith, some,
  ◌==◌, ==_iff,
}
use acorde.Base.Equality.{nat_eq, list_eq, list_beq, list_beq_iff}
use acorde.Base.Text.{Text}
use acorde.Core.Uuid.{Uuid, UuidPackage}
use acorde.Core.Entry.{Acl}
use acorde.AccessControl.Packages.{JsonPackage, Database}
use acorde.AccessControl.Table.{stored, known}
use acorde.AccessControl.Peers.{
  has_peer-without_peer, map-without_peer, can_read_lem, can_write_lem,
}
use acorde.AccessControl.Answers.{
  rewritten, readers_kept, writers_kept, check_read-Reads, check_write-Reads, check_read-get_acl,
  check_write-get_acl, check_write-readers,
}
use acorde.AccessControl.{
  without_peer, is_owner, can_write, get_acl, check_read, check_write, check_admin, revoke_read,
  revoke_write,
}

module _ {Db : Type 0} ⦃uuids : UuidPackage⦄ ⦃json : JsonPackage⦄ ⦃database : Database Db⦄ where
  no_acl :
      (s : Db) (id : Uuid) (peer : Text) → get_acl s id ≡ none → check_write s id peer ≢ some true
  unfolding check_write
  no_acl s id peer n h = ground (arith, n, h)

  pub check_admin-check_write :
      (s : Db) (id : Uuid) (peer : Text)
      → check_admin s id peer ≡ some true
      → check_write s id peer ≡ some true
  unfolding check_admin check_write
  check_admin-check_write s id peer h = elim (Option-cases (get_acl s id)) [
    | inl n ↦ absurd (ground (arith, n, h))
    | inr (acl, there) ↦ ground (arith, there, h, can_write_lem acl peer)
  ]

  -- Who may write an entry, or owns it, may read it.
  pub check_write-check_read :
      (s : Db) (id : Uuid) (peer : Text)
      → (check_write s id peer ≡ some true) ⊎ (check_admin s id peer ≡ some true)
      → check_read s id peer ≡ some true
  check_write-check_read s id peer may =
      let writes : check_write s id peer ≡ some true = elim may [
        | inl w ↦ w
        | inr owns ↦ check_admin-check_write s id peer owns
      ] in
      elim (Option-cases (get_acl s id)) [
        | inl n ↦ absurd (no_acl s id peer n writes)
        | inr (acl, there) ↦
            check_read-get_acl s id acl peer there
            ∙ ground (
              arith,
              writes,
              check_write-get_acl s id acl peer there,
              can_write_lem acl peer,
              can_read_lem acl peer,
            )
      ]

  module _ (s : Db) (ready : database.Ready s) (id : Uuid) (peer : Text) (acl : Acl)
      (there : get_acl s id ≡ some acl) where
    settled_acl : (acl.entry_id ≡ id) × (stored acl ≡ acl)
    settled_acl =
        let (a, here, key, settled) = known s ready id in
        let same : a ≡ acl = ground (arith, here, there) in (rw (← same) key, rw (← same) settled)

    -- `RevokeRead` on a database that answers succeeds: the peer may read the entry only if it is
    -- public or the peer may write it, and all other answers of the checks are as before.
    pub revoke_read-check_read :
        (s' : Db) × (revoke_read s id peer ≡ some s')
        × database.Ready s'
        × ((j : Uuid) (q : Text)
            → check_read s' j q ≡ (
                if (id == j) && list_beq peer q
                then some (acl.public || can_write acl peer)
                else check_read s j q))
        × ((j : Uuid) (q : Text) → check_write s' j q ≡ check_write s j q)
    unfolding revoke_read
    revoke_read-check_read =
        let (key, settled) = settled_acl in
        let rs = without_peer acl.readers peer in
        let new : Acl = record acl { readers = rs } in
        let (s', done, still, reads) =
          rewritten s ready id acl key rs acl.writers settled
            (map-without_peer json.coerce acl.readers peer (readers_kept acl settled))
            (writers_kept acl settled) in
        (
          s',
          ground (arith, there, done),
          still,
          λ j q. ground (
            arith,
            there,
            ==_iff id j,
            list_beq_iff peer q,
            check_read-Reads s s' id new reads j q,
            check_read-get_acl s id acl q there,
            can_read_lem acl q,
            can_read_lem new q,
            can_write_lem acl q,
            has_peer-without_peer acl.readers peer q,
          ),
          check_write-readers s s' id acl rs there reads,
        )

    -- `RevokeWrite` on a database that answers succeeds: the peer may write the entry only as its
    -- owner, and every other answer of `CheckWrite` is as before.
    pub revoke_write-check_write :
        (s' : Db) × (revoke_write s id peer ≡ some s')
        × database.Ready s'
        × ((j : Uuid) (q : Text)
            → check_write s' j q ≡ (
                if (id == j) && list_beq peer q
                then some (is_owner acl peer)
                else check_write s j q))
    unfolding revoke_write
    revoke_write-check_write =
        let (key, settled) = settled_acl in
        let ws = without_peer acl.writers peer in
        let new : Acl = record acl { writers = ws } in
        let (s', done, still, reads) =
          rewritten s ready id acl key acl.readers ws settled (readers_kept acl settled)
            (map-without_peer json.coerce acl.writers peer (writers_kept acl settled)) in
        (
          s',
          ground (arith, there, done),
          still,
          λ j q. ground (
            arith,
            there,
            ==_iff id j,
            list_beq_iff peer q,
            check_write-Reads s s' id new reads j q,
            check_write-get_acl s id acl q there,
            can_write_lem acl q,
            can_write_lem new q,
            has_peer-without_peer acl.writers peer q,
          ),
        )
