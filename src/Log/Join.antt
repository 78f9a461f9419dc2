-- ===== src/Log/Join.antt =====
-- crates/ubiquisync-core/src/log/segment/join.rs: consecutive segments of a log made into one.
pub mod Size
pub mod Range
use ubiquisync.Prelude.{ℕ, ◌==◌, ◌&&◌, not, List, [], ◌∷◌, ◌++◌, map, Bytes, Bool, same_bytes}
use ubiquisync.Prelude.{if◌then◌else◌, Result, ok, err, ◌>>=◌, map_err, Option, none, some}
use ubiquisync.Crypto.{Signature, CipherInfo}
use ubiquisync.Crypto.EntryCipher.{Primitives, CipherKeyResolver}
use ubiquisync.Log.Entry.{LogEntry, PlaintextLogEntry}
use ubiquisync.Log.Hash.{ChainHash, ChainHashError, LogHashContext}
use ubiquisync.Log.Cipher.{SegmentCipherError, entries_to_plaintext, compute_next_plaintext}
use ubiquisync.Log.Segment.{SegmentHeader, SegmentDecodeError, SegmentEncodeError, decode_header}
use ubiquisync.Log.Plaintext.{SegmentLib, DecodedEntries, read_encoded, encode_segment_plaintext}

pub data JoinSegmentsError : Type 0 where
  decode : SegmentDecodeError → JoinSegmentsError
  encode : SegmentEncodeError → JoinSegmentsError
  cipher_error : SegmentCipherError → JoinSegmentsError
  hash_error : ChainHashError → JoinSegmentsError
  empty out_of_order : JoinSegmentsError

pub record JoinedSegmentData : Type 0 where
  pub prev_chain : ChainHash
  pub chain_hash : ChainHash

-- The variables of the loop; the three that are set together are one option.
pub record Joined : Type 0 where
  pub prev_chain : ChainHash
  pub chain_hash : ChainHash
  pub start_cipher : Option CipherInfo
  pub active_cipher : Option CipherInfo
  pub sig : Signature
  pub all_entries : List PlaintextLogEntry

-- `==` on `ChainHash`.
abbrev pub same_chain : ChainHash → ChainHash → Bool
same_chain a b = same_bytes a.hash b.hash && a.size == b.size

abbrev pub last_hash : {A : Type 0} → ChainHash → List (A × ChainHash) → ChainHash
last_hash h [] = h
last_hash h ((a, h') ∷ es) = last_hash h' es

-- Signatures between the entries are discarded.
abbrev pub without_signatures : {T : Type 0} → List (LogEntry T) → List (LogEntry T)
without_signatures [] = []
without_signatures (LogEntry.indexed_entry body ∷ es) =
    LogEntry.indexed_entry body ∷ without_signatures es
without_signatures (LogEntry.signature s ∷ es) = without_signatures es

-- What the loop holds when it reaches a body: of the first one, what its header says.
unfoldable pub open_body : Option Joined → SegmentHeader → Result JoinSegmentsError Joined
open_body none header = ok (record {
  prev_chain = header.prev_chain;
  chain_hash = header.prev_chain;
  start_cipher = header.start_cipher;
  active_cipher = header.start_cipher;
  sig = header.signature;
  all_entries = [];
})
open_body (some j) header =
    if not (same_chain j.chain_hash header.prev_chain)
    then err JoinSegmentsError.out_of_order
    else ok j

module _ (p : Primitives) where
  -- The entries of a body, the chain hash after them and the active cipher.
  unfoldable pub join_entries :
      DecodedEntries
      → LogHashContext
      → Option CipherInfo
      → ChainHash
      → CipherKeyResolver
      → Result JoinSegmentsError (List PlaintextLogEntry × ChainHash × Option CipherInfo)
  join_entries (DecodedEntries.opaque items) hash_ctx active_cipher cur_hash resolver = do
    (entries, active_cipher') ←
        map_err JoinSegmentsError.cipher_error
          (entries_to_plaintext p hash_ctx active_cipher cur_hash resolver items)
    ok (map (λ e. e.0) entries, last_hash cur_hash entries, active_cipher')
  join_entries (DecodedEntries.plaintext items) hash_ctx active_cipher cur_hash resolver = do
    (chain_hash, active_cipher') ←
        map_err JoinSegmentsError.cipher_error
          (compute_next_plaintext p hash_ctx active_cipher cur_hash resolver items)
    ok (items, chain_hash, active_cipher')

  module _ (lib : SegmentLib) (resolver : CipherKeyResolver) (hash_ctx : LogHashContext) where
    unfoldable pub join_body : Bytes → Option Joined → Result JoinSegmentsError Joined
    unfolding join_entries open_body
    join_body body state = do
      (header, rest) ← map_err JoinSegmentsError.decode (decode_header body)
      j ← open_body state header
      decoded ←
          map_err JoinSegmentsError.decode
            (read_encoded lib resolver hash_ctx.log_id header header.encoding rest)
      (entries, chain_hash, active_cipher) ←
          join_entries decoded hash_ctx j.active_cipher j.chain_hash resolver
      ok (record j {
        chain_hash = chain_hash;
        active_cipher = active_cipher;
        sig = header.signature;
        all_entries = j.all_entries ++ without_signatures entries;
      })

    unfoldable pub join_bodies :
        List Bytes → Option Joined → Result JoinSegmentsError (Option Joined)
    unfolding join_body
    join_bodies [] state = ok state
    join_bodies (body ∷ bodies) state = join_body body state >>= λ j. join_bodies bodies (some j)

    abbrev pub encode_joined : Option Joined → Result JoinSegmentsError (Bytes × JoinedSegmentData)
    encode_joined none = err JoinSegmentsError.empty
    encode_joined (some j) = do
      bs ← map_err JoinSegmentsError.encode (
          encode_segment_plaintext lib j.sig j.prev_chain j.start_cipher hash_ctx.log_id resolver
            j.all_entries)
      ok (bs, record { prev_chain = j.prev_chain; chain_hash = j.chain_hash })

    -- The bytes that are written, and the chain hashes at both ends.
    unfoldable pub join_segments : List Bytes → Result JoinSegmentsError (Bytes × JoinedSegmentData)
    unfolding join_bodies
    join_segments bodies = join_bodies bodies none >>= encode_joined
