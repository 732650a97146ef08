-- ===== src/Lib.antt =====
-- lean-rust: the consensus core of a lean-chain client, its state transition and its fork choice.
--
-- The parts and how they interact. `crates/types` has bit lists, `crates/ssz` has Merkle roots over
-- SHA-256. `crates/protocol` has the containers (blocks, votes, validators, the state), their roots,
-- and the transition of the state by a block: empty slots, then the header, then the votes, all on a
-- copy that replaces the state if every step succeeds. `crates/forkchoice` keeps the tracked blocks
-- with their post-states, two pools of votes, a clock, and the head that the votes choose.
-- `crates/runtime` puts an engine around that store: it imports blocks and votes through a gate that
-- checks signatures, produces blocks and votes, and hands out what is to be stored. `crates/storage`
-- is what it is stored in. `crates/crypto` has the one-time keys; the signer in `crates/runtime` signs
-- with them and stores a watermark before it lets a signature out. The chain service joins the three:
-- what the engine accepted or produced goes to the storage. Sync feeds it with the blocks of a peer.
--
-- Files.
--   Prelude, Prelude/*: shared names, Boolean tests on numbers, lists, results, powers of two.
--   Maps/BTree, Maps/Hash: the maps of the Rust library. A `BTreeMap` is a list sorted by key, a
--     `HashMap` a list with one entry for each key.
--   Types/Bytes, Types/Endian: bits of a byte, byte orders. A `Bytes32` is the number that its bytes
--     give in big-endian order, so the order of roots is the order of numbers.
--   Types/Bitlist (crates/types/src/bitfields.rs): `new`, `with_length`, `get`, `set` as `set_bit`,
--     `as_bytes`, `from_bytes`.
--   Ssz/Merkleize (crates/ssz/src/merkleize.rs): every function under its own name.
--   Protocol/Limits, Slot, Checkpoint, Vote, Validator, Block, State, Roots, Errors
--     (crates/protocol/src/*.rs of the same names, internal.rs and error.rs): the containers as
--     records, `hash_tree_root` of a container as a function that ends in `_root`. The field `data` of
--     a vote is `contents` here.
--   Protocol/Transition/Slots, Header, Justifications, Attestations, Driver
--     (crates/protocol/src/state.rs): `process_slots`, `process_block_header`, `Justifications` with
--     `from_state` and `write_back`, `process_attestations`, `state_transition`. A loop body or a
--     stretch of a long function has a name of its own.
--   ForkChoice/Time, Errors, Head, Store, Votes, Target (crates/forkchoice/src/time.rs, error.rs,
--     helpers.rs and store.rs): the clock; `get_fork_choice_head`; anchors, tracking and ticks, where
--     `accept_new_votes` and `update_safe_target` are `accept_votes` and `refresh_safe_target`; the
--     checks and the pools of votes; `get_vote_target`.
--   ForkChoice/Production (crates/forkchoice/src/production.rs): `produce_block` with the loop that
--     gathers votes, and `produce_attestation_vote`.
--   ForkChoice/Sound: the invariant of the store, `IsSound`, under each operation.
--   Types/Ots (crates/types/src/ots_key_state.rs, ots_watermark.rs, ots_record_codec.rs): the records
--     of one-time keys; the methods of the two records carry `key_state_` and `watermark_`.
--   Storage, Storage/Memory (crates/storage/src/store.rs, memory.rs): the traits `Store` and
--     `WatermarkStore` as the record `Backend`, and `MemoryStore`. Storage/Contract says what a backend
--     owes, in terms of what can be looked up in it.
--   Runtime/Engine, Runtime/Verify (crates/runtime/src/chain/engine, crates/runtime/src/signing_domain.rs):
--     `Engine` with `import_block`, `import_attestation`, the production calls and `tick_interval`,
--     which take the lock for their whole length, and the gate `verify_positional`.
--   Runtime/Keys, Runtime/Crypto (crates/crypto/src/key_state.rs, record.rs, sign.rs, error.rs):
--     `SigningKey`.
--   Runtime/Signer (crates/runtime/src/duties/signer.rs, ots_signer.rs): `LocalSigner` with its loaders;
--     `sign_attestation` of `OtsSigner` is `ots_sign_attestation`.
--   Runtime/Service (crates/runtime/src/chain/chain): `Service`; a call is one step from its first line to
--     its last, the answer of a re-import, which the code logs, is dropped.
--   Runtime/Sync (crates/runtime/src/sync): the walk back from the head of a peer, hop by hop, the import
--     of the blocks that it collected, and the configuration.
--   Runtime/Admission (crates/runtime/src/p2p/admission.rs): `PeerAdmission`; a guard is its peer.
--   Runtime/Lifecycle (crates/runtime/src/core): `Node` with `start`, `stop` and `status`, which write down
--     the calls that they make to services.
--   The modules below these hold proofs and are named for what they prove. `Examples` in each part has
--     concrete inputs.
--
-- Conventions. A method on `&mut self` is a function from the state to the state that it leaves, on
-- errors too, beside its result (`Outcome`). Numbers are natural numbers; `u64` and `usize` on a
-- 64-bit target are those below 2 ^ 64, and wrap-around, overflow checks and saturation are written
-- out. SHA-256 is the parameter `sha256`, from a byte string to a digest; nothing is assumed of it
-- but this. The theorems on sound stores assume that neither the anchor nor a later block hashes to
-- the parent root of the anchor. The theorems on reaching a slot and on the whole transition assume
-- that the state root put into the latest header is not zero, which is the mark of a root that is
-- still missing. The signature library is the record `Scheme` and the parameter `Verifier`; a
-- secret file is a function of the validator. Locks and asynchronous calls become single steps,
-- metrics and logs are left out.
--
-- Fuel. The square root has its first estimate plus one, which falls with every step; without fuel
-- it gives nothing. The loops of the Merkle functions halve or double a width below 2 ^ 64 and have
-- 64 rounds, and the progressive tree has a round for each chunk. The walks over the block tree
-- have a slot plus the number of blocks: a walk of more steps than there are blocks never ends, and
-- where slots rise from parent to child the slot is enough, which the theorems on the head and on
-- the vote target include. The loop that gathers votes has one round more than a block can hold
-- votes, and each round adds one. The error `out_of_fuel` of the model marks a walk that does not
-- end. Preparing a key has one round more than its window has epochs to move.
--
-- Not modelled: the SSZ codecs of the containers; the wire forms of signatures and keys and the redb
-- store, which are calls of libraries; in `crates/runtime` the tasks of sync, p2p and api, and the duties of
-- validators; `crates/networking`, `crates/node`, the command line and the fixtures.
pub mod Prelude
pub mod Maps
pub mod Types
pub mod Ssz
pub mod Protocol
pub mod ForkChoice
pub mod Storage
pub mod Runtime
