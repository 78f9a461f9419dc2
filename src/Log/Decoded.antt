-- ===== src/Log/Decoded.antt =====
-- crates/ubiquisync-core/src/log/segment.rs, what is done with a segment that was read: its
-- verification, and its entries in plaintext.
pub mod Agree
pub mod Plain
use ubiquisync.Prelude.{List, [], ◌∷◌, map, Bytes, Result, ok, err, ◌>>=◌, map_err, Option}
use ubiquisync.Crypto.{CipherInfo}
use ubiquisync.Crypto.EntryCipher.{Primitives, CipherKeyResolver}
use ubiquisync.Crypto.VerifyingKey.{VerifyingKey, Verifiers, SignatureVerifyError, verify_signature}
use ubiquisync.Log.Entry.{PlaintextLogEntry}
use ubiquisync.Log.Hash.{ChainHash, LogId, LogHashContext, new_context, sign_bytes}
use ubiquisync.Log.Cipher.{SegmentCipherError, entries_to_plaintext}
use ubiquisync.Log.Verify.{LogVerifyError, verify_opaque, verify_plaintext}
use ubiquisync.Log.Segment.{SegmentHeader, SegmentDecodeError}
use ubiquisync.Log.Plaintext.{DecodedEntries, end_cipher}

pub data SegmentVerifyError : Type 0 where
  decode : SegmentDecodeError → SegmentVerifyError
  cipher : SegmentCipherError → SegmentVerifyError
  signature : SignatureVerifyError → SegmentVerifyError
  verify : LogVerifyError → SegmentVerifyError

pub record DecodedSegment : Type 0 where
  pub header : SegmentHeader
  pub entries : DecodedEntries
  pub log_id : LogId

pub record VerifiedSegment : Type 0 where
  pub decoded : DecodedSegment
  pub head_chain : ChainHash
  pub head_cipher : Option CipherInfo
  pub chain_seed : LogHashContext

module _ (p : Primitives) where
  -- `DecodedEntries::to_plaintext`, with the head cipher that it leaves.
  unfoldable pub entries_in_plaintext :
      DecodedEntries
      → LogHashContext
      → Option CipherInfo
      → ChainHash
      → CipherKeyResolver
      → Result SegmentCipherError (List PlaintextLogEntry × Option CipherInfo)
  unfolding end_cipher
  entries_in_plaintext (DecodedEntries.opaque items) seed head_cipher head_chain resolver = do
    (e, head_cipher') ← entries_to_plaintext p seed head_cipher head_chain resolver items
    ok (map (λ x. x.0) e, head_cipher')
  entries_in_plaintext (DecodedEntries.plaintext items) seed head_cipher head_chain resolver =
      ok (items, end_cipher head_cipher items)

  -- `VerifiedSegment::to_plaintext`.
  unfoldable pub segment_in_plaintext :
      VerifiedSegment
      → CipherKeyResolver
      → Result SegmentCipherError (List PlaintextLogEntry × Option CipherInfo)
  unfolding entries_in_plaintext
  segment_in_plaintext s resolver =
      let header = s.decoded.header in
      entries_in_plaintext s.decoded.entries s.chain_seed header.start_cipher header.prev_chain
        resolver

  module _ (v : Verifiers) (verifying_key : VerifyingKey) where
    -- The chain hash and the cipher at the end; an opaque segment sets the cipher in a second loop.
    unfoldable pub verify_entries :
        DecodedEntries
        → LogHashContext
        → SegmentHeader
        → CipherKeyResolver
        → Result SegmentVerifyError (ChainHash × Option CipherInfo)
    verify_entries (DecodedEntries.opaque entries) seed header resolver = do
      (chain_hash, head_cipher) ←
          map_err SegmentVerifyError.verify
            (verify_opaque p v verifying_key seed entries (header.prev_chain, header.start_cipher))
      ok (chain_hash, end_cipher head_cipher entries)
    verify_entries (DecodedEntries.plaintext entries) seed header resolver =
        map_err SegmentVerifyError.verify (
          verify_plaintext p v verifying_key seed header.start_cipher header.prev_chain resolver
            entries)

    unfoldable pub verify_segment :
        DecodedSegment → CipherKeyResolver → Result SegmentVerifyError VerifiedSegment
    unfolding verify_entries
    verify_segment s resolver = do
      let seed = new_context s.log_id
      (chain_hash, head_cipher) ← verify_entries s.entries seed s.header resolver
      u ← map_err SegmentVerifyError.signature (
          verify_signature v verifying_key (sign_bytes p.sha256 seed chain_hash) s.header.signature)
      ok (record {
        decoded = s;
        head_chain = chain_hash;
        head_cipher = head_cipher;
        chain_seed = seed;
      })
