-- ===== src/Log/Segment/Header.antt =====
-- The header of a segment is read back as it was written.
use ubiquisync.Prelude.{◌≡◌, refl, ap, ◌∙◌, [], ◌∷◌, ◌++◌, append_assoc, length, Bytes, IsU64}
use ubiquisync.Prelude.{ok, Option}
use ubiquisync.Codec.Varint.{encode_var_u64}
use ubiquisync.Codec.Varint.RoundTrip.{decode_var_u64-encode_var_u64}
use ubiquisync.Codec.Writer.{Writer, write_option}
use ubiquisync.Codec.Reader.{read_byte, read_option}
use ubiquisync.Codec.RoundTrip.{read_slice-append}
use ubiquisync.Codec.Containers.{Reads, OnSome, option_bytes, write_option-bytes, read_option-bytes}
use ubiquisync.Crypto.{CipherInfo, encode_cipher_info, decode_cipher_info}
use ubiquisync.Crypto.RoundTrip.{IsSignature, IsCipherInfo, signature_bytes, cipher_info_bytes}
use ubiquisync.Crypto.RoundTrip.{encode_signature-bytes, decode_signature-bytes}
use ubiquisync.Crypto.RoundTrip.{encode_cipher_info-bytes, decode_cipher_info-bytes}
use ubiquisync.Log.Entry.RoundTrip.{len_bytes, read_len_prefixed-len_bytes}
use ubiquisync.Log.Hash.{ChainHash, encode_chain, decode_chain}
use ubiquisync.Log.Segment.{Compression, EncryptionInfo, PlaintextSegmentEncoding, SegmentEncoding}
use ubiquisync.Log.Segment.{SegmentHeader, SegmentDecodeError, encode_encryption_info}
use ubiquisync.Log.Segment.{
  decode_encryption_info, encode_plaintext_encoding, decode_plaintext_encoding,
}
use ubiquisync.Log.Segment.{encode_encoding, decode_encoding, encode_header, decode_header}

-- What any value of the Rust types satisfies: arrays have their lengths, slices fit the memory.
abbrev pub IsChainHash : ChainHash → Type 0
IsChainHash c = (length c.hash ≡ 32) × IsU64 c.size

abbrev pub IsEncryptionInfo : EncryptionInfo → Type 0
IsEncryptionInfo e = OnSome IsCipherInfo e.cipher × IsU64 (length e.nonce)

abbrev pub IsEncoding : SegmentEncoding → Type 0
IsEncoding SegmentEncoding.opaque = Unit {0}
IsEncoding (SegmentEncoding.plaintext enc) = OnSome IsEncryptionInfo enc.outer_encryption

abbrev pub IsHeader : SegmentHeader → Type 0
IsHeader h =
    IsSignature h.signature
    × IsChainHash h.prev_chain
    × OnSome IsCipherInfo h.start_cipher
    × IsEncoding h.encoding

abbrev chain_bytes : ChainHash → Bytes
chain_bytes c = encode_var_u64 c.size ++ c.hash

decode_chain-bytes : Reads decode_chain IsChainHash chain_bytes
unfolding decode_chain
decode_chain-bytes c rest (lh, fits) = rw (
  append_assoc (encode_var_u64 c.size) c.hash rest,
  decode_var_u64-encode_var_u64 c.size (c.hash ++ rest) fits,
  read_slice-append 32 c.hash rest lh,
)

abbrev cipher_bytes : Option CipherInfo → Bytes
cipher_bytes o = option_bytes cipher_info_bytes o

write_cipher-bytes :
    (o : Option CipherInfo) (w : Writer)
    → OnSome IsCipherInfo o
    → write_option o encode_cipher_info w ≡ w ++ cipher_bytes o
write_cipher-bytes o w h =
    write_option-bytes IsCipherInfo cipher_info_bytes encode_cipher_info
      (λ a w' h'. encode_cipher_info-bytes a w') o w h

read_cipher-bytes :
    (o : Option CipherInfo) (rest : Bytes)
    → OnSome IsCipherInfo o
    → read_option (λ e. e) decode_cipher_info (cipher_bytes o ++ rest) ≡ ok (o, rest)
read_cipher-bytes o rest h =
    read_option-bytes IsCipherInfo cipher_info_bytes (λ e. e) decode_cipher_info
      decode_cipher_info-bytes o rest h

abbrev encryption_bytes : EncryptionInfo → Bytes
encryption_bytes e = cipher_bytes e.cipher ++ len_bytes e.nonce

encode_encryption_info-bytes :
    (e : EncryptionInfo) (w : Writer)
    → IsEncryptionInfo e
    → encode_encryption_info e w ≡ w ++ encryption_bytes e
unfolding encode_encryption_info len_bytes
encode_encryption_info-bytes e w (hc, hn) =
    rw (write_cipher-bytes e.cipher w hc) (simp append_assoc)

decode_encryption_info-bytes : Reads decode_encryption_info IsEncryptionInfo encryption_bytes
unfolding decode_encryption_info
decode_encryption_info-bytes e rest (hc, hn) = rw (
  append_assoc (cipher_bytes e.cipher) (len_bytes e.nonce) rest,
  read_cipher-bytes e.cipher (len_bytes e.nonce ++ rest) hc,
  read_len_prefixed-len_bytes e.nonce rest hn,
)

abbrev plaintext_bytes : PlaintextSegmentEncoding → Bytes
plaintext_bytes enc = option_bytes encryption_bytes enc.outer_encryption ++ (0 ∷ [])

unfoldable encoding_bytes : SegmentEncoding → Bytes
encoding_bytes SegmentEncoding.opaque = 0 ∷ []
encoding_bytes (SegmentEncoding.plaintext enc) = 1 ∷ plaintext_bytes enc

compression_zstd : (c : Compression) → Compression.zstd ≡ c
compression_zstd Compression.zstd = refl

encode_plaintext_encoding-bytes :
    (enc : PlaintextSegmentEncoding) (w : Writer)
    → OnSome IsEncryptionInfo enc.outer_encryption
    → encode_plaintext_encoding enc w ≡ w ++ plaintext_bytes enc
unfolding encode_plaintext_encoding
encode_plaintext_encoding-bytes enc w h =
    rw
      (
        ← compression_zstd enc.inner_compression,
        write_option-bytes IsEncryptionInfo encryption_bytes encode_encryption_info
            encode_encryption_info-bytes enc.outer_encryption w h,
      )
      (append_assoc w (option_bytes encryption_bytes enc.outer_encryption) (0 ∷ []))

decode_plaintext_encoding-bytes :
    (enc : PlaintextSegmentEncoding) (rest : Bytes)
    → OnSome IsEncryptionInfo enc.outer_encryption
    → decode_plaintext_encoding (plaintext_bytes enc ++ rest) ≡ ok (enc, rest)
unfolding decode_plaintext_encoding read_byte
decode_plaintext_encoding-bytes enc rest h =
    rw
      (
        append_assoc (option_bytes encryption_bytes enc.outer_encryption) (0 ∷ []) rest,
        read_option-bytes IsEncryptionInfo encryption_bytes SegmentDecodeError.read_error
            decode_encryption_info decode_encryption_info-bytes enc.outer_encryption (0 ∷ rest) h,
      )
      (λ i. ok (
        record {
          outer_encryption = enc.outer_encryption;
          inner_compression = compression_zstd enc.inner_compression i;
        },
        rest,
      ))

encode_encoding-bytes :
    (enc : SegmentEncoding) (w : Writer)
    → IsEncoding enc
    → encode_encoding enc w ≡ ok (w ++ encoding_bytes enc)
unfolding encode_encoding encoding_bytes
encode_encoding-bytes SegmentEncoding.opaque w h = refl
encode_encoding-bytes (SegmentEncoding.plaintext enc) w h = ap ok (
    encode_plaintext_encoding-bytes enc (w ++ (1 ∷ [])) h
    ∙ append_assoc w (1 ∷ []) (plaintext_bytes enc))

decode_encoding-bytes : Reads decode_encoding IsEncoding encoding_bytes
unfolding decode_encoding encoding_bytes read_byte
decode_encoding-bytes SegmentEncoding.opaque rest h = refl
decode_encoding-bytes (SegmentEncoding.plaintext enc) rest h =
    rw (decode_plaintext_encoding-bytes enc rest h)

unfoldable pub header_bytes : SegmentHeader → Bytes
unfolding encoding_bytes
header_bytes h =
    chain_bytes h.prev_chain
    ++ (signature_bytes h.signature ++ (encoding_bytes h.encoding ++ cipher_bytes h.start_cipher))

pub encode_header-bytes :
    (h : SegmentHeader) (w : Writer) → IsHeader h → encode_header h w ≡ ok (w ++ header_bytes h)
unfolding encode_header header_bytes
encode_header-bytes h w (hs, hc, ho, he) =
    rw
      (
        encode_signature-bytes h.signature (encode_chain h.prev_chain w),
        encode_encoding-bytes h.encoding
            (encode_chain h.prev_chain w ++ signature_bytes h.signature) he,
        write_cipher-bytes h.start_cipher
            ((encode_chain h.prev_chain w ++ signature_bytes h.signature)
              ++ encoding_bytes h.encoding)
            ho,
      )
      (simp append_assoc)

pub decode_header-bytes : Reads decode_header IsHeader header_bytes
unfolding decode_header header_bytes
decode_header-bytes h rest (hs, hc, ho, he) =
    let sig = signature_bytes h.signature in
    let enc = encoding_bytes h.encoding in
    let tail = cipher_bytes h.start_cipher in
    rw (
      append_assoc (chain_bytes h.prev_chain) (sig ++ (enc ++ tail)) rest,
      append_assoc sig (enc ++ tail) rest,
      append_assoc enc tail rest,
      decode_chain-bytes h.prev_chain (sig ++ (enc ++ (tail ++ rest))) hc,
      decode_signature-bytes h.signature (enc ++ (tail ++ rest)) hs,
      decode_encoding-bytes h.encoding (tail ++ rest) he,
      read_cipher-bytes h.start_cipher rest ho,
    )

-- Encoding a segment header whose arrays have their lengths and whose numbers and slices fit 64 bits
-- succeeds, and decoding what it appended gives the header back and leaves
-- whatever follows.
pub decode_header-encode_header :
    (h : SegmentHeader) (w rest : Bytes)
    → IsHeader h
    → (bs : Bytes) × (encode_header h w ≡ ok (w ++ bs))
      × (decode_header (bs ++ rest) ≡ ok (h, rest))
decode_header-encode_header h w rest k =
    (header_bytes h, encode_header-bytes h w k, decode_header-bytes h rest k)
