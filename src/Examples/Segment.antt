-- ===== src/Examples/Segment.antt =====
-- A segment header with an encrypted payload, and an opaque segment of two entries.
use ubiquisync.Prelude.{◌≡◌, arith, List, [], ◌∷◌, ◌++◌, Bytes, ok, none, some}
use ubiquisync.Crypto.{Signature, CipherInfo}
use ubiquisync.Crypto.Hash.{zeroes}
use ubiquisync.Log.Entry.{LogEntry, EntryBody, OpaqueLogEntry, opaque_timestamp}
use ubiquisync.Log.Hash.{ChainHash}
use ubiquisync.Log.Segment.{
  Compression, SegmentEncoding, SegmentHeader, encode_header, decode_header,
}
use ubiquisync.Log.Segment.{decode_entries, collect_entries, init_opaque}
use ubiquisync.Log.Segment.{encode_segment_opaque}
use ubiquisync.Log.Segment.Header.{decode_header-encode_header}
use ubiquisync.Log.Segment.RoundTrip.{encode_segment_opaque_lem}

abbrev info : CipherInfo
info = record { cipher_suite = 0; fingerprint = zeroes 32 }

abbrev head : ChainHash
head = record { hash = zeroes 32; size = 300 }

abbrev seal : Signature
seal = Signature.p256 (zeroes 64)

abbrev header : SegmentHeader
header = record {
  signature = seal;
  prev_chain = head;
  start_cipher = none;
  encoding = SegmentEncoding.plaintext (record {
    outer_encryption = some (record { cipher = some info; nonce = zeroes 24 });
    inner_compression = Compression.zstd;
  });
}

decode_header-encode_header_example :
    (bs : Bytes) × (encode_header header (1 ∷ []) ≡ ok (1 ∷ [] ++ bs))
    × (decode_header (bs ++ (2 ∷ [])) ≡ ok (header, 2 ∷ []))
decode_header-encode_header_example =
    decode_header-encode_header header (1 ∷ []) (2 ∷ []) (omega arith)

abbrev entries : List OpaqueLogEntry
entries =
    LogEntry.indexed_entry (EntryBody.use_key info)
    ∷ LogEntry.indexed_entry (
        EntryBody.op (record { timestamp = 1 ∷ 2 ∷ []; server_attested_user_id = []; op = 9 ∷ [] }))
    ∷ []

encode_segment_opaque_lem_example :
    (bs : Bytes) × (rest : Bytes) × (encode_segment_opaque seal head (some info) entries ≡ ok bs)
    × (decode_header bs ≡ ok (init_opaque seal head (some info) entries, rest))
    × (collect_entries (decode_entries ⦃repr = opaque_timestamp⦄ rest) ≡ ok entries)
encode_segment_opaque_lem_example =
    encode_segment_opaque_lem seal head (some info) entries (omega arith) (omega arith)
      (omega arith) (omega arith)
