-- ===== src/Lib.antt =====
-- Models of the synchronisation core of ubiquisync, and the theorems that make it correct.
--
-- ubiquisync replicates a database through append-only logs, one per peer and container. An entry of
-- a log is an op with a timestamp of a hybrid logical clock; logs travel as bytes, and every replica
-- reduces the ops of all logs into its tables. The parts and their modules:
--
--   Prelude   numbers, tests, lists, results and bit operations that the other modules share.
--   Codec     crates/ubiquisync-core/src/codec: varints and zigzag numbers (Varint), the Writer and
--             the Reader over a byte buffer. All wire formats stand on it.
--   Hlc       crates/ubiquisync-core/src/hlc/mod.rs: Timestamp, its packing, its successors.
--   Replica   Clock is crates/ubiquisync-sql/src/replica/hlc.rs: the atomic clock of a replica, and
--             the skew check. A Step is one access of the atomic by a call of update_hlc, one call of
--             persist_hlc, or the run of one statement that persist_hlc put in a batch; Invariant has
--             what the steps keep, Issue the proofs. Open is load_hlc, on the row when a replica opens.
--   Crypto    crates/ubiquisync-core/src/crypto: the wire forms of Signature and CipherInfo; the
--             tagged hashers (Hash); the cipher of log entries (EntryCipher); VerifyingKey.
--   Log       crates/ubiquisync-core/src/log: entries and their wire form (Entry), the chain hash
--             (Hash), entries_to_opaque and entries_to_plaintext (Cipher), verification (Verify), the
--             header and the entries of segments, and opaque segments (Segment); plaintext segments,
--             compressed and encrypted as a whole (Plaintext); segments that were read (Decoded), and
--             their joins (Join).
--   Pack      crates/ubiquisync-core/src/pack: headers and their signatures (Sign), the names of files
--             (Names), which files are kept (Files), and the store over a remote (Store).
--   Init      crates/ubiquisync-core/src/init.rs: the entry that starts a peer, with its commitment.
--   Event     crates/ubiquisync-core/src/event.rs: the bus that hands events to subscribers.
--   Tables    crates/ubiquisync-tables/src: the ops (Op) and their wire form (Codec), the types in ids
--             (Id), the validation of ops before they reach the reducer (Validate), and the reducer
--             (Reducer). The statements that apply_upsert and apply_delete build are read as functions
--             on the stored row, as SQL defines ON CONFLICT DO UPDATE. Merged is the abstract specification: each row is
--             the join of the ops on it, in no order.
--   Examples  the models on concrete inputs.
--
-- The calls of update_hlc interleave at their single accesses of the atomic, and persist_hlc is a
-- step after the exchange, so batches may get timestamps out of their order. Batches of several calls
-- are committed in any order, or never: a statement that was put in a batch may run at any time, and
-- as the row only takes greater timestamps the model does not count how often. The state keeps the
-- histories of what was exchanged, put in a batch and run, which the source does not store.
--
-- A byte slice is a list of natural numbers, those of a real slice below 256 (IsByte). A u64 is a
-- number below 2 ^ 64, with the source's wrap-around and checks written out; an i64 is its two's
-- complement pattern; usize has 64 bits. Every `?` is the bind of Result, and its conversion of error
-- types is a map_err. A Reader is the bytes that are left, a Writer the bytes that were written.
--
-- Loops: encode_loop counts the nine rounds of its `for`; decode_loop recurs on the bytes that are
-- left, which is what its index runs through; the loops over slices recur on the list;
-- entries_loop takes the length of the buffer as its fuel, as each entry takes a byte. The loop of
-- update_hlc is not bounded in the source either: its rounds are steps, and the theorems are about
-- all sequences of steps.
--
-- Parameters: Compare is the order and the equality of values in the database, with the laws of an
-- order, as a linear order by the collation and affinity of a column has them. Primitives is SHA-256,
-- HMAC and ChaCha20; where a theorem needs it, a hash has 32 bytes, and ChaCha20 keeps lengths and
-- undoes itself (PrimitivesOk). Verifiers is the signature checks of the two libraries, and a
-- CipherKeyResolver any map from fingerprints and containers to keys. Nothing is assumed of the
-- security of these functions: the theorems on what a hash binds leave a collision as the other case.
--
-- SegmentLib is HKDF, the AEAD, zstd and the source of nonces; where a theorem needs it, they succeed
-- and undo each other (SegmentLibOk). A FileRemote is any remote whose calls touch the path that they
-- name, if they succeed, and nothing otherwise. The channels of the event bus are those of a library:
-- each has a queue, and room or none. The hexadecimal text of a peer id is made and parsed by a
-- library. A text is its UTF-8 bytes.
--
-- Not modelled: the database backends and the text of the SQL statements; the primitives of
-- encryption, signing and hashing, which are third-party code; the files of StdFsRemote and the pack
-- builder; the macros of the tables crate. A log that the reducer replays has only ops that validate_upsert and validate_delete accept. A column added by
-- DDL is one whose cells are empty so far.
pub mod Prelude
pub mod Codec
pub mod Hlc
pub mod Replica
pub mod Tables
pub mod Crypto
pub mod Log
pub mod Pack
pub mod Event
pub mod Init
pub mod Examples
