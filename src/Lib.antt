-- ===== src/Lib.antt =====
-- ZSSP, the ZeroTier Secure Sessions Protocol: a verification library of its Rust implementations.
--
-- The program. A context (performance/src/zssp.rs, reference/src/context.rs) receives packets,
-- sends packets, and runs one state machine for each session (zeta.rs). Around the state machine
-- stand the parts that this library also models: a priority queue holds the sessions' timers
-- (indexed_heap.rs), raw fragments go through a defragmenter (fragged.rs for the packets of a
-- session), a packet of a new peer goes through the challenge protocol (challenge.rs), and an
-- authenticated packet goes through the anti-replay window of its session (antireplay.rs), as
-- does the counter of an answered challenge.
--
-- Which file models which part, with the functions under the names of the source:
--   Proto           performance/src/proto.rs: sizes and limits.
--   Crypto          performance/src/crypto/mod.rs (`secure_eq`) and performance/src/crypto/sha512.rs,
--                   the interface `Sha512`.
--   Window          performance/src/antireplay.rs: `Window::{new, check, update}`. A window is the list
--                   of its atomic slots. Run is a schedule of updates, Replay and Order are about it.
--   Challenge       performance/src/challenge.rs: `ChallengeContext` and the functions on both sides of
--                   an exchange. Pow, Accept and Respond are about them.
--   Fragged         performance/src/fragged.rs: `Fragged::{new, assemble, drop_in_place}` with the slots
--                   of uninitialised memory. Pending is the abstract view, Drop and Refine are the steps
--                   of the refinement, Assemble the operation as a whole.
--   IndexedHeap     performance/src/indexed_heap.rs: `IndexedBinaryHeap` with every method. Order, Up and
--                   Down are about the sifts, Valid has the invariant and what a handle stands for, Push,
--                   Pop, Change and Release are about the methods, Unordered about an order that is lost.
--   HandshakeCache  performance/src/handshake_cache.rs: `UnassociatedHandshakeCache` with every method.
--                   Search is about the two searches, Insert has the invariant, Service the expiry.
--   Noise           reference/src/symmetric_state.rs: `SymmetricState` with every operation. Kdf is about the
--                   inputs of the key derivation, Seal about both sides of an encryption.
--   Results         reference/src/result.rs: the errors, and the outcome of a function that can fail.
--   Ratchet         reference/src/ratchet_state.rs: ratchet states and updates of the storage.
--   Zeta            reference/src/zeta.rs: the session state machine. Data, Nonce, Tokens and Keys
--                   are the state and what the transitions share; Hello, X1, X2 and X3 are the
--                   handshake, Timers the timers, Auth and Confirm the control packets, K1 and K2
--                   the rekeying, Payload the payloads. Kids is about the search for a key id,
--                   Storage about the updates of the storage. Run is the calls of the context and
--                   the application on one session, one after the other. Agree follows a session
--                   from its opening and a handshake on both sides, Delivery a payload, and Once is
--                   about packets that come again, and Safe about the keys that a session needs in
--                   each state. Crypto/Layer is the interface of the primitives with their laws, and
--                   Crypto/Sample an instance for the tests.
--   Fragmentation   reference/src/fragmentation.rs: `send_with_fragmentation`. Slices is about the parts of
--                   a packet and the cipher in place, Reassemble about what a receiver makes of them.
--   Base            shared names, lists by native numbers, bit operations, big-endian bytes.
--
-- Conventions. A machine integer is a natural number, with its wrap-around written out. An atomic
-- operation is one step, and a schedule is a list of steps. A random number, the time, a hash and the
-- bytes of an address are arguments. Undefined behaviour is the
-- result `none`, and so is a panic. Times are natural numbers whose sums do not overflow.
--
-- In Zeta a transition takes the answers of the application and the random numbers as arguments, and
-- gives the session, the maps of the context, the packets that it sent and its result. A time is counted
-- from the least one. A slice out of range and an unwrap of nothing are the outcome `panic`, and a search
-- for a key id that has used all the random numbers it was given is the outcome `unfinished`. A hash map is
-- an association list, in which the first entry of a key counts.
--
-- A handler that expires its session is told whether its caller holds the sessions of the context borrowed,
-- since to borrow them again is a panic: the service of the context does, the receipt and the sending of a
-- packet do not. The call that sends the packet of a payload is taken to succeed. A sum of machine integers
-- wraps around, as in a build without overflow checks.
--
-- Bounds and fuel. The array that a whole packet of `Fragged` is put into has 48 places, which the
-- model does not count: the buffers of the program have 48 slots. `drop_loop` has fuel 65: `have`
-- has 64 bits. A sift has fuel one above the number of entries or the index: each step moves by
-- one level. `search_pow` has the fuel of its caller: the loop of the source ends only if some
-- value does.
--
-- Not modelled: the cipher, hash and key exchange implementations (they are other libraries' or the
-- platform's), locks, logging, the examples and the benchmark; the cache of unassociated fragments, the
-- dispatch of packets in the contexts, performance/src/zeta.rs, which is the state machine with locks and
-- shared packets, and the receiving side of reference/src/fragmentation.rs.
pub mod Base
pub mod Proto
pub mod Crypto
pub mod Window
pub mod Challenge
pub mod Fragged
pub mod IndexedHeap
pub mod HandshakeCache
pub mod Fragmentation
pub mod Noise
pub mod Results
pub mod Ratchet
pub mod Zeta
