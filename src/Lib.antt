-- ===== src/Lib.antt =====
-- ACORDE: a local-first store of entries that replicas edit apart and bring together.
--
-- The program and the files:
--
--   Base            library names, Boolean equality, orders, byte strings
--   GoMap           Go's built-in map and its range loops
--   Core/Clock      internal/core/clock.go      Tick, Update, Now
--   Core/Entry      internal/core/entry.go      Entry, ACL, EntryType
--   Core/Uuid       github.com/google/uuid, which is a parameter
--   Crdt/Lww        internal/crdt/lww.go        Add, Remove, Lookup, Elements, Merge, Clone
--   Crdt/OrSet      internal/crdt/orset.go      Add, Remove, Contains, Elements, Merge, RemoveToken
--   Crdt/Replica    internal/crdt/replica.go    AddEntryWithID, UpdateEntry, DeleteEntry, GetEntry;
--                                               in Acls: SetACL, Merge, MaxTimestamp, Clone
--   Crdt/State      internal/crdt/replica.go    State, LoadState, DeltaState, ApplyDelta; in Sync:
--                                               the replica's part of the engine's ApplySyncState
--   AccessControl   internal/acl/store.go       the table of access control lists: SetACL, GetACL, the
--                                               checks, grants and revocations
--   Events          internal/engine/events.go   subscriptions: Subscribe, Publish, Unsubscribe, Close;
--                                               in Runs: all sequences of calls
--   Crypto          pkg/crypto/crypto.go        Encrypt, Decrypt
--   Schema          internal/schema/validator.go  the registry of schemas and its validation
--   Engine          internal/engine/engine_impl.go  AddEntry, GetEntry; in Changes: UpdateEntry,
--                                               DeleteEntry; in Remote: ApplySyncState
--   Storage         internal/storage/sqlite/sqlite.go  Put, Get, List, Delete, ApplyBatch,
--                                               GetMaxTimestamp; in Sql: the tables and statements;
--                                               in Refines: a map from ids to entries
--   Startup         internal/engine/engine_impl.go  New; in Listing: ListEntries; in Backend: the
--                                               model of SQLite as the store of an engine
--   Sync            internal/sync/p2p.go        SyncWith, handleStream, HandlePeerFound; in Messages and
--                                               Wire: sync.go and the frames; in Connects: ConnectPeer;
--                                               in Adapter: adapter.go, an engine behind a service
--   Invites         internal/sync/invite.go     CreateInvite, Encode, ParseInvite
--   Vaults          internal/vault/manager.go   Create, Get, Delete, Rename, SetActive, NewManager
--   Hooks           internal/hooks/manager.go   RegisterWebhook, Trigger, the retries of a webhook
--   Versions        internal/version/store.go   ComputeDiff; in History: SaveVersion, GetHistory,
--                                               GetVersion, GetVersionAt and the pruning
--   Blobs           internal/blob/store.go      Put, PutWithSubdir, Get, Delete, List,
--                                               GarbageCollect; in Files: package os
--   Sharing         internal/sharing/sharing.go  ShareEntry, RecoverSharedKey, the keys of entries
--   Keys            pkg/crypto/store.go         Initialize, InitializeWithKey, Unlock
--   Allowlist       internal/sync/allowlist.go  the trusted peers: NewAllowlist, Add, Remove, IsAllowed
--
-- A replica has a clock, a last-writer-wins set of entries, a map from ids to observed-remove sets of
-- tags, and a map from ids to access control lists. An edit ticks the clock and writes an element with
-- the new time; a merge joins the registers and the sets and moves the clock past what came in. The
-- engine loads a state that arrives into a temporary replica, merges it, and writes the result to its
-- storage and its table of lists. Its reads and updates check the caller against that table; its adds
-- and updates validate and encrypt the content; every edit changes the replica, then the storage, and
-- then tells the event bus and the webhooks. New makes the replica of an engine from what the storage
-- lists. A service exchanges the state behind it with the services of other peers, which its allow
-- list may keep out.
--
-- The invariant of a replica, IsReplica: no map holds a key twice, every element and every list stands
-- under its own id, an element repeats the time and the tombstone flag of its entry, the tag sets only
-- remove what was added, and the clock is not behind any time that the replica holds. IsEventBus is
-- the invariant of a bus: no pointer stands twice, all lead to subscriptions, and a subscription's
-- channel is closed exactly when its flag says so and holds no more than fits and only what it asked
-- for.
--
-- How the code is written down:
--
--   - A method is a function from the state before to the state after and the result. Its mutex makes
--     it one step.
--   - A map is an association list without double keys. A range loop runs over that list; since Go
--     leaves the order open, theorems compare maps key by key.
--   - A uint64 wraps around at 2 ^ 64; where a theorem needs that the clock does not wrap, it says so.
--   - A UUID is a number, a string or a byte slice is a list of bytes. Slices are values: that two
--     slices may share an array, or that State hands out the map of lists itself, is not modelled. Nil
--     slices and empty ones are one value, where a pointer that may be nil is an option.
--   - The tokens of uuid.New() are given by a function from their position in the call. String() and
--     NewSHA1 are fields of an instance argument.
--   - The table of access control lists behind database/sql, and encoding/json, are interfaces whose
--     laws are their documented behaviour; AccessControl/Tests has an instance of each. Files and the
--     peer ids of libp2p are interfaces in the same way, in Allowlist/Packages; Vaults/Packages has
--     files in directories, with laws of the calls that give no error. The tables of entries
--     and of versions, and the files of blobs, are written out as lists and maps.
--   - What two holders share, a subscription, lives in a heap under its address. A panic is
--     no result, and in Blobs a result of its own.
--   - A call of SQLite is given a list of faults, one for each statement in turn; a transaction that is
--     not committed leaves the tables as they were. SQL leaves the order of tags and of equal times
--     open, so that theorems compare tags by membership.
--   - What libp2p, HTTP and the system's clock give in a handler is an argument, and a run of a handler
--     is one step; Sync/Sessions takes a session apart at the release of its lock. A stream is the
--     bytes that arrive before it fails, and a writer has room for so many bytes.
--   - An int64 counter is read as its 64 bits, a time is in seconds. Log lines are left out, with the
--     ids that they shorten.
--   - Loops are structural recursions over lists, so no fuel is needed; only the digits of a number
--     are written on fuel, one more than the number.
--   - The cipher, the JSON schema library, the keys of libp2p, and the curve and the hashes of sharing,
--     key files and blobs are parameters, as are the storage and the version store in the theorems
--     about the engine; what the random source, uuid.New() and the system's clock give during a call
--     is an argument. TriggerAsync of the webhooks works in the background: the engine keeps the list
--     of what it was given.
--
-- Not modelled: goroutines that start, stop and wait, with the loop that syncs in turn; libp2p and its
-- DHT; New's opening of files and tables; nil contents, which SQLite keeps as NULL; SQLite's Search and
-- the search index; the query languages, which are regular expressions and text of SQL; the wrappers of
-- pkg/engine, imports and exports, and the HTTP and command line front ends, which call libraries and
-- what is modelled.
pub mod Base
pub mod GoMap
pub mod Core
pub mod Crdt
pub mod AccessControl
pub mod Events
pub mod Crypto
pub mod Schema
pub mod Engine
pub mod Storage
pub mod Startup
pub mod Sync
pub mod Invites
pub mod Vaults
pub mod Hooks
pub mod Versions
pub mod Blobs
pub mod Sharing
pub mod Keys
pub mod Allowlist
