-- ===== src/Lib.antt =====
-- blossom-rs, a Blossom server and client library: verification of its core.
--
-- The server stores blobs under the SHA-256 of their bytes. A request is admitted by the rate
-- limiter, its signed event is checked, the access control decides, and the handler then works on the
-- blob backend and the metadata database. The library models these parts:
--   RateLimit  src/ratelimit.rs: token buckets, one to a key, in a bounded table. `check` refills the
--     bucket and takes a token; `cleanup` drops idle buckets. The refill is floating-point work, whose
--     result is a parameter.
--   Merkle  src/integrity.rs: the Merkle tree over the source files, with inclusion proofs. SHA-256
--     and hex are parameters, the record `Sha256`. The loops run on fuel, the number of hashes, which is
--     enough since every round halves them.
--   Db  src/db/mod.rs, src/db/memory.rs: `MemoryDatabase` with uploads, owners, users with quotas, and
--     statistics. Every method is a function from the database to the database and a result.
--   Locks  src/locks/mod.rs: `MemoryLockDatabase`, the LFS locks of the repositories.
--   Access  src/access/mod.rs: open access, the whitelist, and roles kept in memory and in the database.
--     A lock that `try_read` does not get is an argument. bech32 and hex are the record `Codecs`.
--   ReplayCache  src/server/mod.rs: the cache of used authorization events, bounded in all and for
--     each principal. Its first eviction loop runs on fuel, one more than the ids of the principal,
--     which is enough since every round takes one of them away.
--   Auth  src/auth/mod.rs, src/auth/nip98.rs, and verify_auth_event of src/server/mod.rs: the checks of
--     an authorization event and its entry in the replay cache. The cryptography is the record `Crypto`.
--   Stats  src/stats.rs: the access counters, and their flush to the database.
--   Lfs  src/lfs/mod.rs: the LFS context of an event, the versions of a file, and the reconstruction of
--     a blob from its deltas, with the two calls of src/lfs/compress.rs on deltas. zstd and xdelta3 are
--     the record `Codec`.
--   Xdelta  src/xdelta3.rs: the buffers that the calls of the xdelta3 library get. The library's two
--     functions are the record `Xd3`.
--   Base64  src/protocol.rs: base64url without padding.
--   Relay  blossom-nip34/src/relay/policies.rs: which events the relay takes, and the limit on their rate.
--   GitServer  blossom-nip34/src/git_server/pktline.rs and, in GitServer/Validation, validation.rs:
--     the ref updates of a push, and their check against the published state. The parser runs on
--     fuel, the length of the body, which is enough since every line takes four bytes. The queries to
--     the relay are the record `Nostr`.
--   Server  src/storage/memory.rs and the handlers of src/server/mod.rs: the in-memory backend, and what
--     a deletion does, with its request in Server/Remove; Server/Upload handle_upload, whose storage
--     pipeline is Server/Encode and Server/Store; Server/Body read_body_limited; Server/Read the
--     reads; Server/Mirror fetch_mirror_blob, in four rounds as in the source, with the network as the
--     record `Network`. SHA-256, zstd and xdelta3 are the record `Crates`.
--   Server/Calendar and Server/LockApi  src/server/locks.rs: the LFS lock endpoints on the lock database,
--     and the dates in their answers. The loop over the years runs on fuel, one more than the number of
--     times 365 days fit, which is enough since every year has 365 days at least.
--   Server/Nip96  src/server/nip96.rs: upload, list and deletion of the NIP-96 interface.
--   Server/Admin, Server/AdminRequest  src/server/admin.rs: the endpoints of the administration, each a
--     function on the state `AdminState`; `handle_admin` is the router.
--   Server/Entry, Server/MirrorApi, Server/Media  handle_mirror and handle_media_upload of
--     src/server/mod.rs. How both begin is Entry; the work on the image is an argument.
--   Transport  src/transport/wire.rs and src/transport/iroh_transport.rs: the server's side of a stream
--     over QUIC. Wire has the lines, Binding the check of the event, Gate what is asked before the body
--     is read, Replay the cache of used events, Handlers and LockHandlers the nine operations, and Stream
--     `handle_stream`, from the bytes of a stream to the next state and the answer. JSON texts are the
--     records `Serde`, `Bindings` and `Json`, the texts of errors the record `Texts`. The loop that
--     evicts the events of a principal runs on fuel, one more than the events there are, which is enough
--     since every round takes one of them away.
-- Shared: Prelude (types, tests, lists, stable sorting, byte texts) and HashMap, where a map is the
-- list of its entries; iteration is in that order.
--
-- Numbers are natural numbers; where a u64 can overflow, the wrap or the check is written out. Time
-- and random ids are arguments. Requests are taken one at a time. Not modelled: the pages of status and
-- information, and the choice among servers; and, as input and output or the work of other crates, the
-- routers and the loops that accept connections, the clients, the SQL, file and S3 backends, signatures
-- and hashing, image work, and the command line.
mod Prelude
pub mod HashMap
pub mod RateLimit
pub mod Merkle
pub mod Db
pub mod Locks
pub mod Access
pub mod ReplayCache
pub mod Auth
pub mod Xdelta
pub mod Lfs
pub mod Base64
pub mod Relay
pub mod GitServer
pub mod Server
pub mod Stats
pub mod Transport
