-- ===== src/Lib.antt =====
-- Chrono-shift: the Rust core of the client (client/security/rust_core/src).
--
-- Friends broadcast messages anonymously in a DC-net, over authenticated connections, and relay for
-- each other. The parts, and the files that model them:
--
--   - Prelude: lists, maps, sets, words and text, with the lemmas that all parts share. Primitives:
--     SHA-256, HKDF, Ed25519, X25519 and AES-GCM as records of operations and the documented facts
--     that the program relies on, with toy instances that meet them.
--   - Crypto (crypto.rs), Identity (identity.rs), Uid (`validate_uid` of lib.rs), Pgp/Trust
--     (`TrustLevel` of pgp/mod.rs). Pgp/WebOfTrust (pgp/web_of_trust.rs): signatures of keys, and the
--     trust that they give, as a fixpoint that is computed in passes and cached; WebOfTrust/Paths is
--     the search of `trust_path`.
--   - Dcnet/Xor and Dcnet/Share (dcnet/mod.rs: `xor_bytes`, `derive_pair_share`); Dcnet/Frame,
--     Dcnet/Collector, Dcnet/Tracker and Dcnet/Messages (dcnet/round_network.rs: `pad_message`,
--     `unpad_message`, `RoundCollector`, `compute_xor_share_secure`, `RoundTracker`, the signatures).
--     Dcnet/Broadcast puts them together: each member XORs the bytes that it shares with every other
--     member, the sender adds its padded message, and the XOR of all shares is the message.
--   - Dcnet/Driver (dcnet/round_driver.rs): the state machine that runs the rounds of one channel on
--     collectors and a tracker. Driver holds the state, the initiator and the expiry, Driver/Handlers
--     the handling of a message; on_round_share is cut into the steps that the source writes in
--     one body (send_mine, emit, close_mine, retry_lost).
--   - Dcnet/Engine (round_engine.rs): rounds with a leader, from the same shares, collectors and tracker.
--   - Dcnet/Shuffle (dcnet/shuffle.rs): the slots of a shuffle and the verdicts on them.
--   - Dcnet/Group (dcnet/group.rs, dcnet/round.rs, `Participant` of dcnet/mod.rs) and Dcnet/Reputation
--     (dcnet/reputation.rs): who responds in the rounds of a group, with its score and its fate.
--   - Storage (storage.rs): the write-ahead log and its checkpoints. Dcnet/Bridge (dcnet/f2f.rs):
--     friends, edge keys and channels. Bridge/Logging has the calls that log a change before they make
--     it, Bridge/Saving the snapshots; Bridge/View specifies what an operation does, Bridge/Recovery
--     has the start of the application (app.rs) from snapshot and log. Bridge/Simulation is
--     `broadcast_message`, a round of all members in one process.
--   - Dcnet/Network (dcnet/network.rs): membership, admin and leader of a group.
--   - Ratchet (ratchet.rs): the chains of message keys; Ratchet/Exchange has one message,
--     Ratchet/Lockstep the conversations of two peers, Ratchet/Window the frames that a peer is given.
--     The ratchet stands apart from the sessions of net/.
--   - Net/Message and Net/Frames (net/tcp.rs), Net/Session (net/session.rs: the encrypted frames, and
--     in Session/Handshake the key agreement), Net/Relay (net/relay.rs; Relay/Node is
--     `send_relay` and `handle_relay_message` of app.rs), Net/Connections (net/connection_manager.rs: the
--     table of connections and the filter of a reader).
--
-- The driver signs and checks shares with Primitives; a reader's `forward` is what hands the peers'
-- messages to the driver and to the relay; the handshake gives the keys of the frames. A bridge keeps
-- its groups and the reputations in step, and writes to the log of Storage.
--
-- Numbers. Bytes and the integers of the source are ℕ; where the source's `+` wraps in a release
-- build (the u8 block counter of `derive_pair_share`, the u64 counters of rounds, frames and
-- connections) the `%` is written out. Scores are f64: Prelude/Floats has them as binary fractions,
-- with the rounding to 53 bits after each operation. Strings are lists of bytes, a HashMap is an
-- association list (Prelude/Dict); the theorems on the broadcast and on the web of trust hold for
-- every order of its entries.
--
-- Fuel. The loops of `derive_pair_share` and `expand_share` run on fuel `len`; a step adds 32
-- bytes, so that the fuel is enough (`length-derive_pair_share`, `length-expand_share`). The
-- passes of `compute_trust_map` have fuel for 4 N + 1 of them, N the number of keys: each pass but
-- the last raises the level of a key, of which there are five (`compute_trust_map_lem`). The
-- search of `trust_path` has one step for each own key and each signature, and one to see that the
-- queue is empty (`find_path-Found`). `decimal` has more fuel than its number has digits. All
-- other loops are structural.
--
-- Clock readings, random nonces, edge keys and ephemeral secrets are arguments, and so is what becomes
-- of a write to the disk: all of it is there, or the first bytes; a checkpoint ends, or stops before or
-- after its rename. Streams are lists of bytes. serde_json is a parameter, of which Storage uses that
-- an operation is one line of text and is read back (Storage/ToyJson meets it); the snapshot on the
-- disk is the value that is read back. `from_utf8_lossy` is an argument, which leaves UTF-8 as it is.
--
-- Not modelled: log messages, error texts, the sockets, threads, timeouts and file permissions around
-- the functions above; of dcnet/f2f.rs the status texts and the thread of the round driver;
-- the address book, the protocol filter, the web console, the C bindings and the binary.
pub mod Prelude
pub mod Primitives
pub mod Crypto
pub mod Identity
pub mod Uid
mod Tests
pub mod Pgp
pub mod Ratchet
pub mod Storage
pub mod Net
pub mod Dcnet
