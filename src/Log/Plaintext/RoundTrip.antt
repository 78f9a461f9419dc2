-- ===== src/Log/Plaintext/RoundTrip.antt =====
-- A whole plaintext segment is read back as it was written.
use mathlib.Core.Path.{subst}
use ubiquisync.Prelude.{◌≤◌, ◌≡◌, refl, List, [], ◌∷◌, ◌++◌, All, arith, length, Bytes}
use ubiquisync.Prelude.{ok, Option, none, some}
use ubiquisync.Codec.Containers.{OnSome}
use ubiquisync.Crypto.{Signature, CipherInfo}
use ubiquisync.Crypto.RoundTrip.{IsSignature, IsCipherInfo}
use ubiquisync.Crypto.EntryCipher.{ContainerKey, CipherKeyResolver, chacha20_suite}
use ubiquisync.Log.Entry.{LogEntry, EntryBody, PlaintextLogEntry}
use ubiquisync.Log.Entry.RoundTrip.{plaintext_laws, IsEntry}
use ubiquisync.Log.Hash.{ChainHash, LogId}
use ubiquisync.Log.Segment.{SegmentHeader, EncryptionInfo, init_opaque}
use ubiquisync.Log.Segment.Header.{IsChainHash, IsHeader, IsEncryptionInfo, header_bytes}
use ubiquisync.Log.Segment.Header.{encode_header-bytes, decode_header-bytes}
use ubiquisync.Log.Segment.RoundTrip.{entries_bytes, init_opaque-IsHeader}
use ubiquisync.Log.Plaintext.{
  SegmentLib, SegmentCipher, DecodedEntries, zstd_decode_limit, segment_nonce_size, segment_ad,
}
use ubiquisync.Log.Plaintext.{encrypt_segment, decrypt_segment, encode_payload, read_payload}
use ubiquisync.Log.Plaintext.{init_encryption, new_segment_cipher, stored_cipher, end_cipher}
use ubiquisync.Log.Plaintext.{with_encoding, encode_segment_plaintext, read_segment}
use ubiquisync.Log.Plaintext.Body.{SegmentLibOk, decompress-compress, or-stored_cipher}
use ubiquisync.Log.Plaintext.Body.{stored_cipher-IsCipherInfo, end_cipher-IsCipherInfo}

-- The suite of a cipher is known, and the resolver has its key.
abbrev pub HasKey : CipherKeyResolver → LogId → Option CipherInfo → Type 0
HasKey resolver log_id none = Unit {0}
HasKey resolver log_id (some ci) =
    (key : ContainerKey) × (resolver ci.fingerprint log_id.container_id ≡ some key)
    × (ci.cipher_suite ≡ chacha20_suite)

-- What was encrypted for a chain is read under a header with that chain and the cipher at the start.
abbrev ReadsPayload :
    SegmentLib
    → CipherKeyResolver
    → LogId
    → Option CipherInfo
    → List PlaintextLogEntry
    → Option EncryptionInfo
    → Option (SegmentCipher × Bytes)
    → Type 0
ReadsPayload lib resolver log_id start es enc cipher =
    (h : SegmentHeader)
    → h.start_cipher ≡ start
    → (z : Bytes) × (encode_payload lib cipher h.prev_chain es ≡ ok z)
      × (read_payload lib resolver log_id h enc z ≡ ok es)

init_opaque-prev_chain :
    {T : Type 0} (s : Signature) (c : ChainHash) (cipher : Option CipherInfo)
    (es : List (LogEntry T))
    → (init_opaque s c cipher es).prev_chain ≡ c
unfolding init_opaque
init_opaque-prev_chain s c cipher [] = refl
init_opaque-prev_chain s c cipher (LogEntry.indexed_entry (EntryBody.op e) ∷ es) = refl
init_opaque-prev_chain s c cipher (LogEntry.indexed_entry (EntryBody.use_key ci) ∷ es) = refl
init_opaque-prev_chain s c cipher (LogEntry.indexed_entry (EntryBody.expunged x) ∷ es) = refl
init_opaque-prev_chain s c cipher (LogEntry.signature x ∷ es) = refl

module _ (lib : SegmentLib) (law : SegmentLibOk lib) (resolver : CipherKeyResolver)
    (log_id : LogId) where
  init_encryption-ReadsPayload :
      (end start : Option CipherInfo) (es : List PlaintextLogEntry)
      → HasKey resolver log_id end
      → OnSome IsCipherInfo end
      → All (IsEntry plaintext_laws) es
      → length (entries_bytes plaintext_laws es) ≤ zstd_decode_limit
      → (enc : Option EncryptionInfo) × (cipher : Option (SegmentCipher × Bytes)) × (init_encryption
            lib log_id resolver end start
          ≡ ok (enc, cipher))
        × OnSome IsEncryptionInfo enc
        × ReadsPayload lib resolver log_id start es enc cipher
  unfolding init_encryption encode_payload read_payload encrypt_segment decrypt_segment
  init_encryption-ReadsPayload none start es known sized he small =
      (none, none, refl, tt, λ h _. decompress-compress lib law es he small)
  init_encryption-ReadsPayload (some ci) start es (key, found, suite) sized he small =
      let (nonce, filled, len) = law.fill_length segment_nonce_size in
      let c = new_segment_cipher lib key log_id.peer_id in
      let (z, packed, unpacked) = decompress-compress lib law es he small in
      let stored = stored_cipher ci start in
      (
        some (record { cipher = stored; nonce = nonce }),
        some (c, nonce),
        rw (suite, filled, found) refl,
        (stored_cipher-IsCipherInfo ci start sized, omega (arith, len)),
        λ h at.
            let (z', sealed, opened) =
              law.decrypt_encrypt c.cipher nonce (segment_ad c h.prev_chain) z in
            (
              z',
              rw (packed, len, sealed) refl,
              rw (at, or-stored_cipher ci start, suite, found, len, opened) unpacked,
            ),
      )

  -- For a source of nonces, an AEAD and a compression that work, entries and a header whose arrays
  -- have their lengths and whose numbers and slices fit, at most 2 ^ 27 bytes of entries, and a known
  -- key of a known suite for the cipher that is active at their end, if any, a plaintext segment is
  -- encoded; and reading it gives its header, with the cipher at the start unless the first entry
  -- sets one, and exactly its entries.
  pub encode_segment_plaintext_lem :
      (s : Signature) (c : ChainHash) (start : Option CipherInfo) (es : List PlaintextLogEntry)
      → IsSignature s
      → IsChainHash c
      → OnSome IsCipherInfo start
      → All (IsEntry plaintext_laws) es
      → length (entries_bytes plaintext_laws es) ≤ zstd_decode_limit
      → HasKey resolver log_id (end_cipher start es)
      → (bs : Bytes) × (enc : Option EncryptionInfo) × (encode_segment_plaintext lib s c start
            log_id resolver es
          ≡ ok bs)
        × (read_segment lib resolver log_id bs
            ≡ ok (with_encoding lib (init_opaque s c start es) enc, DecodedEntries.plaintext es))
  unfolding encode_segment_plaintext read_segment
  encode_segment_plaintext_lem s c start es hs hc ho he small known =
      let opened = init_opaque s c start es in
      let (hs', hc', ho', _) = init_opaque-IsHeader s c start es hs hc ho in
      let (enc, cipher, made, sized, reads) =
        init_encryption-ReadsPayload (end_cipher start es) opened.start_cipher es known
          (end_cipher-IsCipherInfo start es ho he) he small in
      let header = with_encoding lib opened enc in
      let (z, packed, unpacked) = reads header refl in
      let good : IsHeader header = (hs', hc', ho', sized) in
      let packed' : encode_payload lib cipher c es ≡ ok z =
        subst (λ d. encode_payload lib cipher d es ≡ ok z) (init_opaque-prev_chain s c start es)
          packed in
      (
        header_bytes header ++ z,
        enc,
        rw (made, encode_header-bytes header [] good, packed') refl,
        rw (decode_header-bytes header z good, unpacked) refl,
      )
