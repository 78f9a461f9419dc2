-- ===== src/Crypto.antt =====
-- crates/ubiquisync-core/src/crypto/sig.rs, cipher.rs (`CipherInfo`) and error.rs: what the logs
-- carry of signatures and ciphers. The primitives themselves are third-party code.
pub mod RoundTrip
pub mod Hash
pub mod EntryCipher
pub mod VerifyingKey
pub mod Inverse
use ubiquisync.Prelude.{
  ℕ, List, [], ◌∷◌, Bytes, ◌==◌, if◌then◌else◌, Result, ok, err, ◌>>=◌, map_err,
}
use ubiquisync.Codec.Varint.{ReadError}
use ubiquisync.Codec.Writer.{Writer, write_byte, write_array}
use ubiquisync.Codec.Reader.{Read, read_byte, read_array}

pub data CryptoDecodeError : Type 0 where
  read_error : ReadError → CryptoDecodeError
  unknown_algorithm : ℕ → CryptoDecodeError

pub data Signature : Type 0 where
  ed25519 p256 : Bytes → Signature

abbrev pub sig_algo_ed25519 : ℕ
sig_algo_ed25519 = 0

abbrev pub sig_algo_p256 : ℕ
sig_algo_p256 = 1

unfoldable pub encode_signature : Signature → Writer → Writer
encode_signature (Signature.ed25519 s) writer = write_array s (write_byte sig_algo_ed25519 writer)
encode_signature (Signature.p256 s) writer = write_array s (write_byte sig_algo_p256 writer)

unfoldable pub decode_signature : Read CryptoDecodeError Signature
decode_signature reader = do
  (algo, r) ← map_err CryptoDecodeError.read_error (read_byte reader)
  if algo == sig_algo_ed25519
      then (do
        (s, r') ← map_err CryptoDecodeError.read_error (read_array 64 r)
        ok (Signature.ed25519 s, r'))
      else if algo == sig_algo_p256
      then (do
        (s, r') ← map_err CryptoDecodeError.read_error (read_array 64 r)
        ok (Signature.p256 s, r'))
      else err (CryptoDecodeError.unknown_algorithm algo)

pub record CipherInfo : Type 0 where
  pub cipher_suite : ℕ
  pub fingerprint : Bytes

unfoldable pub encode_cipher_info : CipherInfo → Writer → Writer
encode_cipher_info ci writer = write_array ci.fingerprint (write_byte ci.cipher_suite writer)

unfoldable pub decode_cipher_info : Read ReadError CipherInfo
decode_cipher_info reader = do
  (cipher_suite, r) ← read_byte reader
  (fingerprint, r') ← read_array 32 r
  ok (record { cipher_suite = cipher_suite; fingerprint = fingerprint }, r')
