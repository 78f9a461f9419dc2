-- ===== src/Crypto/RoundTrip.antt =====
-- Signatures and cipher infos are read back as they were written.
use ubiquisync.Prelude.{◌≡◌, [], ◌∷◌, ◌++◌, append_assoc, length, Bytes}
use ubiquisync.Prelude.{ok}
use ubiquisync.Codec.Writer.{Writer}
use ubiquisync.Codec.Reader.{read_byte}
use ubiquisync.Codec.RoundTrip.{read_slice-append}
use ubiquisync.Crypto.{Signature, CipherInfo, encode_signature, decode_signature}
use ubiquisync.Crypto.{encode_cipher_info, decode_cipher_info}

abbrev pub IsSignature : Signature → Type 0
IsSignature (Signature.ed25519 s) = length s ≡ 64
IsSignature (Signature.p256 s) = length s ≡ 64

abbrev pub IsCipherInfo : CipherInfo → Type 0
IsCipherInfo ci = length ci.fingerprint ≡ 32

unfoldable pub signature_bytes : Signature → Bytes
signature_bytes (Signature.ed25519 s) = 0 ∷ s
signature_bytes (Signature.p256 s) = 1 ∷ s

pub encode_signature-bytes :
    (s : Signature) (w : Writer) → encode_signature s w ≡ w ++ signature_bytes s
unfolding encode_signature signature_bytes
encode_signature-bytes (Signature.ed25519 s) w = append_assoc w (0 ∷ []) s
encode_signature-bytes (Signature.p256 s) w = append_assoc w (1 ∷ []) s

pub decode_signature-bytes :
    (s : Signature) (rest : Bytes)
    → IsSignature s
    → decode_signature (signature_bytes s ++ rest) ≡ ok (s, rest)
unfolding decode_signature signature_bytes read_byte
decode_signature-bytes (Signature.ed25519 s) rest h = rw (read_slice-append 64 s rest h)
decode_signature-bytes (Signature.p256 s) rest h = rw (read_slice-append 64 s rest h)

unfoldable pub cipher_info_bytes : CipherInfo → Bytes
cipher_info_bytes ci = ci.cipher_suite ∷ ci.fingerprint

pub encode_cipher_info-bytes :
    (ci : CipherInfo) (w : Writer) → encode_cipher_info ci w ≡ w ++ cipher_info_bytes ci
unfolding encode_cipher_info cipher_info_bytes
encode_cipher_info-bytes ci w = append_assoc w (ci.cipher_suite ∷ []) ci.fingerprint

pub decode_cipher_info-bytes :
    (ci : CipherInfo) (rest : Bytes)
    → IsCipherInfo ci
    → decode_cipher_info (cipher_info_bytes ci ++ rest) ≡ ok (ci, rest)
unfolding decode_cipher_info cipher_info_bytes read_byte
decode_cipher_info-bytes ci rest h = rw (read_slice-append 32 ci.fingerprint rest h)
