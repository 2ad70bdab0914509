-- ===== src/Lib.antt =====
-- The network core of SSH Mobile: native/network_core/crates.
--
-- The application talks to a peer through a session. A message is queued and numbered by the
-- delivery manager, sealed under the keys of the session, put in a frame, and sent over whatever
-- connection is up; the peer opens it, drops duplicates, and acknowledges its message id.
--
-- - Base: shared types and lemmas. Lists, results, machine words in big-endian bytes, `HashSet`
--   with an insertion queue, `HashMap` as an association list, UTF-8.
-- - Crypto: native/network_core/crates/network-core/src/crypto/. Types is mod.rs; Replay is
--   `ReplayWindow` and Context is `CryptoContext` of context.rs. `encrypt`, `decrypt`,
--   `decrypt_for_delivery`, `rotate_key` and the private methods keep their names. The crates hkdf
--   and aes-gcm are the record `Primitives`, and `IsAead` says what they document. Sessions is
--   `SessionCryptoManager` of session.rs, with a heap of contexts that aliases share; Aad is the
--   associated data of session.rs. Left out: the test-only nonce injection, poisoned locks, and
--   the offers sealed under X25519.
-- - Delivery: native/network_core/crates/network-core/src/delivery/. Types and Keys are mod.rs and
--   store.rs, Send is send.rs, Store and Recovery are recovery.rs, Ordered is ordered.rs,
--   Timeouts, Incoming and Completion are incoming.rs. Sender and Receiver hold the theorems on
--   the two sides. `DeliveryStore` is what the mutex guards; each method is a function of the
--   store under the lock, so a history of calls is a list. The iteration order of a hash map and
--   the draws of the random generator come from outside. Left out: the registry of retry workers,
--   which is task bookkeeping.
-- - Stream: native/network_core/crates/network-core/src/stream/. Codec is codec.rs, the encoders
--   and decoders of the three frames and of the QUIC preamble; Frames and Preamble have their
--   round trips. The relay token, which only formats, is left out. Entry is entry.rs, Registry is
--   manager_registry.rs and Buffer is manager_buffer.rs: `ReliableStreamManager`, a method being a
--   function of the state under its lock. A loop that waits is one round that says when it waits.
--   Pipe is the abstract stream, a queue of bytes with two closed marks; Calls has any calls.
-- - Commands: native/network_core/crates/network-core/src/commands/ledger.rs, the ledger of
--   command results. The dispatch of the commands is left out.
-- - Events: native/network_core/crates/network-core/src/runtime_event_lanes.rs. Lanes has the
--   admission by bytes and the scheduler of the three lanes. tokio's bounded channels are the
--   record `Mailbox`, and `IsFifo` says what they document. A task that waits in `send_result` for
--   room keeps its reservation in `waiting`, until it is tried again or dropped. Fairness has one
--   poll, History and Bytes any sends and polls. The blocking `recv` selects on the channels and
--   is left out.
-- - Connect: native/network_core/crates/network-core/src/connect/. Types has the types of
--   peer_supervisor.rs; Intents and Completion are intents.rs of peer_supervisor/, Lifecycle is
--   lifecycle.rs and Attempts is attempts.rs there. `PeerSupervisor` is `PeerInner` with the
--   attempt's task beside it; a capability mask is its three bits; a completion that is sent
--   through a oneshot channel is a reply with the command's id. The answer of the mailbox and
--   which waiter a map iterates first come from outside. Calls has any calls.
-- - Traversal: native/network_core/crates/network-nat/src/. Candidate, Exchange and Attempt are
--   candidate.rs, exchange.rs and attempt.rs: the checks of a signal, `CandidateExchangeState` and
--   `ConnectivityAttempt`. Error messages are the constructors of one type; what the clock reads
--   is an argument. Signals has any signals, Finds the candidates that a merge leaves, Calls any
--   calls of an attempt. Payload and Probes are `CandidatePayloadV2` and `DirectProbeQueue` of
--   candidate_v2.rs, whose cache and encoding are left out, as is the path manager, which scores
--   in floats.
-- - Media: native/network_core/crates/network-webrtc/src/media/queue.rs. Queue is `VideoQueue`
--   with its counters, AnnexB the test of H.264 access units. Qos is `MediaQos` of
--   native/network_core/crates/network-webrtc/src/qos.rs, whose arrays are three lanes.
--
-- Strings and payloads are lists of bytes, instants and durations are nanoseconds. Lengths and
-- byte counts are ℕ; where the source saturates or checks at 2^64 the model does so too.
--
-- Fuel: the loop that shrinks the processed history runs on the length of that history, and each
-- round removes an entry. The draws of a message id are a given list; the search returns nothing
-- only when every draw on it is taken. The test of an access unit runs on the size of the payload,
-- and each round goes on behind the start code that it found.
--
-- Not modelled: sockets, tasks and channels (tokio, quinn, WebRTC), generated protocol buffers,
-- the C interface, the Dart applications, the relay server, the web front end.
pub mod Base
pub mod Commands
pub mod Connect
pub mod Crypto
pub mod Delivery
pub mod Events
pub mod Media
pub mod Stream
pub mod Traversal
