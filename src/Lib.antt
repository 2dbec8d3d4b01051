-- ===== src/Lib.antt =====
-- Babylon Tower, a peer-to-peer messenger in Go: a model of its core and its correctness theorems.
--
-- Prelude: names passed on from the libraries, tests and lists over the native numbers, Go's error
--   results (Results for methods that change their receiver, Fallible for functions that do not),
--   Go maps as association lists (Assoc), enum values (Int).
-- Ratchet: pkg/ratchet. Crypto is the interface to the primitives of golang.org/x/crypto with the key
--   derivations of x3dh.go; State has DoubleRatchetState and its constructors; X3dh the key agreement;
--   Skipped the cache of skipped message keys; Cipher has Encrypt, Decrypt and the DH ratchet steps. A
--   method of *DoubleRatchetState is a function from the state to a new state and a result, and an error
--   keeps what was changed before it. Random bytes and the clock are arguments. Loops over message
--   numbers recur on the rounds left, so no fuel is needed.
-- Groups: pkg/groups/state.go, less the sender keys. State has the types, protobuf form, hashing and
--   signing; Members the member list; Update the validation of updates; SplitBrain the choice among
--   diverging states, ByteOrder the order of keys that it uses.
-- Calls: pkg/rtc/session.go. Session has CallSession and the transitions of UpdateState, Manager the
--   SessionManager with its creating methods and getters, Changes its other methods, Cleanup the cleanup
--   tick and Stop. Each method holds the manager's lock, so a method is one step; Runs has the runs. A
--   session that callers keep by pointer is a value here, and the callbacks are a log.
-- Mailbox: pkg/mailbox/storage.go. Database is the interface to BadgerDB and to the generated protobuf
--   code, with what they document; Keys has the database keys, Metadata the counts of a target and their
--   bytes, Storage the methods, RateLimit the counters of deposits. The database does not fail here, so
--   the branches on its errors other than a missing key are left out; CleanupExpired is left out.
-- SenderKeys: the sender keys of pkg/groups/state.go and the group messages of pkg/groups/service.go. Key
--   has SenderKey with its derivation over the interface SenderCrypto, Messages the methods of Service. The
--   loop that advances the chain has fuel, and `none` is a loop that runs on; Advance says when.
-- Devices: pkg/multidevice/revocation.go. Revocation has the certificates, the lists of devices and the
--   cleanup of sessions, which DeviceSession of pkg/multidevice/fanout.go holds.
-- Membership: the methods of pkg/groups/service.go that change a group. Methods has CreateGroup, AddMember,
--   RemoveMember and the rotation of sender keys, over the Service of SenderKeys; Rotation has lemmas on
--   the rotation, Updates on the states that are published, Departure on a removal. The storage under the
--   service does not fail.
-- Storage: pkg/storage/memory.go and the records of pkg/storage/storage.go. Memory has the methods that
--   write, Reading those that read; Spec is the abstract store, with one function for each kind of record,
--   Refinement relates the maps to it, Implements and Runs show it of each write and of runs, and Answers
--   and Pages of what the getters return; Posts has the keys of the posts. The abstract store has the
--   channels without the id of the latest post, which SaveChannelPost (pkg/storage/memory.go:545) sets to
--   that of the post before, where proto/message.proto has it as that of the latest post.
-- Channels: pkg/groups/channel.go. State has the types, their protobuf form and the signatures; Store the
--   part of the storage that channels are written through, as an interface that Storage's store in memory
--   meets; Service has the service with its creation and getters, Posting CreatePost, Subscriptions the
--   subscribers. Sync says when the cache, the store and the signatures agree; Steps, Posts
--   and Counts show it of each method, Runs of runs without errors.
-- Public: pkg/groups/public.go. Actions has the moderation actions and their signatures, Service the state
--   with its getters and the rate limit, Moderation the methods that moderate, ProofOfWork the proof of
--   work, whose loop has the 1000001 rounds of the source as fuel; Bans is about bans that fail.
-- Reputation: pkg/reputation/tracker.go. Double is the interface to `float64`, with what IEEE 754 says of
--   its comparisons; Records has the types, Scoring the scores and the effect of each event on a record,
--   Tracker the methods; Consistency, Runs, Soundness and Ranking have the theorems. The sort by swaps is
--   Prelude.Sorting, whose recursion has the number of the elements as its bound.
--
-- Not modelled: the network (libp2p, IPFS, WebRTC), the command line, configuration, the wrappers of
-- cryptographic primitives, the store on disk, and the other packages, which the proofs do not rely on.
pub mod Calls
pub mod Channels
pub mod Devices
pub mod Groups
pub mod Mailbox
pub mod Membership
pub mod Prelude
pub mod Public
pub mod Ratchet
pub mod Reputation
pub mod SenderKeys
pub mod Storage
