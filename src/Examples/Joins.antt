-- ===== src/Examples/Joins.antt =====
-- A plaintext segment of one op, joined on its own.
use ubiquisync.Prelude.{◌+◌, ◌≡◌, refl, List, [], ◌∷◌, ◌++◌, Bytes, length, ok, err, Option, some}
use ubiquisync.Crypto.{Signature, CipherInfo}
use ubiquisync.Crypto.Hash.{zeroes}
use ubiquisync.Crypto.EntryCipher.{Primitives, CipherKeyResolver}
use ubiquisync.Log.Entry.{PlaintextLogEntry}
use ubiquisync.Log.Hash.{LogHashContext, new_context}
use ubiquisync.Log.Plaintext.{SegmentLib, encode_segment_plaintext}
use ubiquisync.Log.Plaintext.Body.{take}
use ubiquisync.Log.Segment.{decode_header, decode_encoding, decode_plaintext_encoding}
use ubiquisync.Log.Segment.{decode_entries, init_opaque, encode_header, encode_entries}
use ubiquisync.Log.Segment.{encode_encoding, encode_plaintext_encoding}
use ubiquisync.Log.Hash.{decode_chain, next_chain}
use ubiquisync.Codec.Varint.{decode_var_u64, encode_var_u64}
use ubiquisync.Codec.Reader.{read_slice, read_byte, read_option, read_le, read_len_prefixed}
use ubiquisync.Crypto.{decode_signature, encode_signature}
use ubiquisync.Log.Plaintext.{read_encoded, decompress_decode_entries, encode_segment_plaintext}
use ubiquisync.Log.Entry.{decode_entry, decode_timestamp, validate_entry, encode_entry}
use ubiquisync.Log.Cipher.{compute_next_plaintext}
use ubiquisync.Hlc.{try_from_u64}
use ubiquisync.Codec.Writer.{to_le_bytes, write_option}
use ubiquisync.Log.Join.{JoinSegmentsError, JoinedSegmentData, join_segments}
use ubiquisync.Log.Join.Range.{join_segments-Fills}

abbrev plain : Primitives
plain = record { sha256 = λ m. zeroes 32; hmac = λ k m. zeroes 32; chacha20 = λ k buf. buf }

-- Nothing is encrypted or compressed.
abbrev lib : SegmentLib
lib = record {
  hkdf = λ key info. zeroes 32;
  encrypt_in_place = λ key nonce ad buf. some buf;
  decrypt_in_place = λ key nonce ad buf. some buf;
  encode_all = λ m. some m;
  decoder_take = λ n c. some (take n c);
  fill = λ n. some (zeroes n);
}

abbrev resolver : CipherKeyResolver
resolver fingerprint container =
    some (record { root_fingerprint = fingerprint; key = zeroes 32; container_id = container })

abbrev context : LogHashContext
context = new_context (record { peer_id = zeroes 32; container_id = zeroes 16 })

-- A header without a cipher, and then the op.
abbrev body : Bytes
body =
    0 ∷ zeroes 32
    ++ (1 ∷ zeroes 64)
    ++ (1 ∷ 0 ∷ 0 ∷ 0 ∷ [])
    ++ (0 ∷ 112 ∷ 17 ∷ 1 ∷ 0 ∷ 0 ∷ 0 ∷ 0 ∷ 0 ∷ 0 ∷ 1 ∷ 9 ∷ [])

abbrev ends : JoinedSegmentData
ends = record {
  prev_chain = record { hash = zeroes 32; size = 0 };
  chain_hash = record { hash = zeroes 32; size = 1 };
}

one_joined : join_segments plain lib resolver context (body ∷ []) ≡ ok (body, ends)
unfolding join_segments decode_header decode_chain decode_var_u64 read_slice decode_signature
    read_byte decode_encoding decode_plaintext_encoding read_option read_encoded
    decompress_decode_entries decode_entries decode_entry compute_next_plaintext decode_timestamp
    read_le try_from_u64 read_len_prefixed validate_entry next_chain encode_segment_plaintext
    init_opaque encode_header encode_entries encode_entry encode_var_u64 to_le_bytes
    encode_signature encode_encoding write_option encode_plaintext_encoding
one_joined = refl

joined_twice :
    join_segments plain lib resolver context (body ∷ body ∷ []) ≡ err JoinSegmentsError.out_of_order
unfolding join_segments decode_header decode_chain decode_var_u64 read_slice decode_signature
    read_byte decode_encoding decode_plaintext_encoding read_option read_encoded
    decompress_decode_entries decode_entries decode_entry compute_next_plaintext decode_timestamp
    read_le try_from_u64 read_len_prefixed validate_entry next_chain
joined_twice = refl

join_segments-Fills_example :
    (sig : Signature) × (start : Option CipherInfo) × (es : List PlaintextLogEntry)
    × (encode_segment_plaintext lib sig ends.prev_chain start context.log_id resolver es ≡ ok body)
    × (ends.chain_hash.size ≡ ends.prev_chain.size + length es)
join_segments-Fills_example =
    join_segments-Fills plain lib resolver context (body ∷ []) body ends one_joined
