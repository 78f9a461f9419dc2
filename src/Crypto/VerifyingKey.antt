-- ===== src/Crypto/VerifyingKey.antt =====
-- crates/ubiquisync-core/src/crypto/verifying_key.rs. The checks of a signature by a key are those of
-- third-party libraries.
use ubiquisync.Prelude.{[], ◌∷◌, ◌++◌, append_assoc, length, ◌≡◌, Bytes, ◌==◌, if◌then◌else◌}
use ubiquisync.Prelude.{Result, ok, err, ◌>>=◌, map_err}
use ubiquisync.Codec.Writer.{Writer, write_byte, write_array}
use ubiquisync.Codec.Reader.{Read, read_byte, read_array}
use ubiquisync.Codec.RoundTrip.{read_slice-append}
use ubiquisync.Crypto.{Signature, CryptoDecodeError, sig_algo_ed25519, sig_algo_p256}

pub data VerifyingKey : Type 0 where
  ed25519_key p256_key : Bytes → VerifyingKey

pub data SignatureVerifyError : Type 0 where
  invalid_key invalid_signature signature_verification_failed : SignatureVerifyError

-- What the library of each algorithm answers for a key, a message and a signature.
pub record Verifiers : Type 0 where
  pub ed25519_verify : Bytes → Bytes → Bytes → Result SignatureVerifyError (Unit {0})
  pub p256_verify : Bytes → Bytes → Bytes → Result SignatureVerifyError (Unit {0})

unfoldable pub verify_signature :
    Verifiers → VerifyingKey → Bytes → Signature → Result SignatureVerifyError (Unit {0})
verify_signature v (VerifyingKey.ed25519_key key) message (Signature.ed25519 s) =
    v.ed25519_verify key message s
verify_signature v (VerifyingKey.ed25519_key key) message (Signature.p256 s) =
    err SignatureVerifyError.invalid_signature
verify_signature v (VerifyingKey.p256_key key) message (Signature.p256 s) =
    v.p256_verify key message s
verify_signature v (VerifyingKey.p256_key key) message (Signature.ed25519 s) =
    err SignatureVerifyError.invalid_signature

unfoldable pub encode_key : VerifyingKey → Writer → Writer
encode_key (VerifyingKey.ed25519_key key) writer =
    write_array key (write_byte sig_algo_ed25519 writer)
encode_key (VerifyingKey.p256_key key) writer = write_array key (write_byte sig_algo_p256 writer)

unfoldable pub decode_key : Read CryptoDecodeError VerifyingKey
decode_key reader = do
  (algo, r) ← map_err CryptoDecodeError.read_error (read_byte reader)
  if algo == sig_algo_ed25519
      then (do
        (key, r') ← map_err CryptoDecodeError.read_error (read_array 32 r)
        ok (VerifyingKey.ed25519_key key, r'))
      else if algo == sig_algo_p256
      then (do
        (key, r') ← map_err CryptoDecodeError.read_error (read_array 33 r)
        ok (VerifyingKey.p256_key key, r'))
      else err (CryptoDecodeError.unknown_algorithm algo)

-- A key has the length of its algorithm.
abbrev pub IsVerifyingKey : VerifyingKey → Type 0
IsVerifyingKey (VerifyingKey.ed25519_key key) = length key ≡ 32
IsVerifyingKey (VerifyingKey.p256_key key) = length key ≡ 33

-- A verifying key of the length of its algorithm is read back from what its encoder appended, and what follows is left.
pub decode_key-encode_key :
    (k : VerifyingKey) (w rest : Bytes)
    → IsVerifyingKey k
    → (bs : Bytes) × (encode_key k w ≡ w ++ bs) × (decode_key (bs ++ rest) ≡ ok (k, rest))
unfolding encode_key decode_key read_byte
decode_key-encode_key (VerifyingKey.ed25519_key key) w rest h =
    (0 ∷ key, append_assoc w (0 ∷ []) key, rw (read_slice-append 32 key rest h))
decode_key-encode_key (VerifyingKey.p256_key key) w rest h =
    (1 ∷ key, append_assoc w (1 ∷ []) key, rw (read_slice-append 33 key rest h))
