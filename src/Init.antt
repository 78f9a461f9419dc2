-- ===== src/Init.antt =====
-- crates/ubiquisync-core/src/init.rs: the entry that starts a peer, its commitment and its signature,
-- with the codecs of `Hash256Suite` (crypto/hash.rs) and `EncapsulationKey` (crypto/kem).
pub mod RoundTrip
pub mod Verify
use ubiquisync.Prelude.{
  ℕ, ◌+◌, ◌*◌, ◌/◌, ◌%◌, List, [], ◌∷◌, Bytes, length, ◌==◌, ltb, not, ◌&&◌, ◌||◌,
}
use ubiquisync.Prelude.{
  Bool, true, false, if◌then◌else◌, same_bytes, Result, ok, err, ◌>>=◌, map_err,
}
use ubiquisync.Prelude.{Option, none, some}
use ubiquisync.Codec.Varint.{ReadError}
use ubiquisync.Codec.Writer.{Writer, write_byte, write_array, write_len_prefixed, finalize}
use ubiquisync.Codec.Reader.{Reader, Read, read_byte, read_array, read_len_prefixed}
use ubiquisync.Crypto.{CryptoDecodeError, Signature}
use ubiquisync.Crypto.Hash.{TaggedHashDomain, Hasher, new_tagged_hasher, update, finalize_hash}
use ubiquisync.Crypto.VerifyingKey.{VerifyingKey, Verifiers, SignatureVerifyError, verify_signature}
use ubiquisync.Crypto.VerifyingKey.{encode_key, decode_key}
use ubiquisync.Pack.Sign.{SigningKey, SigningError}

pub data Hash256Suite : Type 0 where
  sha256 : Hash256Suite

pub data EncapsulationKey : Type 0 where
  x25519 p256 : Bytes → EncapsulationKey

-- `Version` and `Flags` are bit fields of a byte, the first field in the lowest bits.
abbrev pub Version : Type 0
Version = ℕ

abbrev pub major : Version → ℕ
major v = v % 16

abbrev pub minor : Version → ℕ
minor v = v / 16

abbrev pub bit : Bool → ℕ
bit true = 1
bit false = 0

abbrev pub flags_of : Bool → Bool → ℕ
flags_of server workspace_join = bit server + 2 * bit workspace_join

abbrev pub flag_server : ℕ → Bool
flag_server flags = flags % 2 == 1

abbrev pub flag_workspace_join : ℕ → Bool
flag_workspace_join flags = (flags / 2) % 2 == 1

abbrev pub flag_reserved : ℕ → ℕ
flag_reserved flags = flags / 4

pub record InitCommitment : Type 0 where
  pub version : Version
  pub hash_suite : Hash256Suite
  pub sig_verify_key : VerifyingKey
  pub encrypt_wrap_key : EncapsulationKey
  pub server : Bool
  pub workspace_join : Option Bytes
  pub endorsement : Bytes

pub record InitEntry : Type 0 where
  pub commitment_bytes : Bytes
  pub peer_id : Bytes
  pub signature : Signature
  pub outer_endorsement : Option Bytes

pub data InitDecodeError : Type 0 where
  read_error : ReadError → InitDecodeError
  unsupported_version : Version → InitDecodeError
  unknown_hash_algorithm unknown_signature_key_type unknown_encapsulation_key_type
        unknown_init_flags :
      ℕ → InitDecodeError
  unknown_init_data : Version → ℕ → InitDecodeError

pub data InitVerifyError : Type 0 where
  decode_error : InitDecodeError → InitVerifyError
  hash_mismatch : InitVerifyError
  signature_error : SignatureVerifyError → InitVerifyError

pub data InitCreationError : Type 0 where
  signing_error : SigningError → InitCreationError
  unsupported_version : Version → InitCreationError
  init_verify_error : InitVerifyError → InitCreationError

abbrev pub hash_err : CryptoDecodeError → InitDecodeError
hash_err (CryptoDecodeError.read_error e) = InitDecodeError.read_error e
hash_err (CryptoDecodeError.unknown_algorithm b) = InitDecodeError.unknown_hash_algorithm b

abbrev pub key_err : CryptoDecodeError → InitDecodeError
key_err (CryptoDecodeError.read_error e) = InitDecodeError.read_error e
key_err (CryptoDecodeError.unknown_algorithm b) = InitDecodeError.unknown_signature_key_type b

abbrev pub encapsulation_err : CryptoDecodeError → InitDecodeError
encapsulation_err (CryptoDecodeError.read_error e) = InitDecodeError.read_error e
encapsulation_err (CryptoDecodeError.unknown_algorithm b) =
    InitDecodeError.unknown_encapsulation_key_type b

unfoldable pub encode_hash_suite : Hash256Suite → Writer → Writer
encode_hash_suite Hash256Suite.sha256 w = write_byte 0 w

unfoldable pub decode_hash_suite : Read CryptoDecodeError Hash256Suite
decode_hash_suite r = do
  (x, r') ← map_err CryptoDecodeError.read_error (read_byte r)
  if x == 0 then ok (Hash256Suite.sha256, r') else err (CryptoDecodeError.unknown_algorithm x)

unfoldable pub encode_encapsulation : EncapsulationKey → Writer → Writer
encode_encapsulation (EncapsulationKey.x25519 key) w = write_array key (write_byte 0 w)
encode_encapsulation (EncapsulationKey.p256 key) w = write_array key (write_byte 1 w)

unfoldable pub decode_encapsulation : Read CryptoDecodeError EncapsulationKey
decode_encapsulation r = do
  (n, r₁) ← map_err CryptoDecodeError.read_error (read_byte r)
  if n == 0
      then (do
        (key, r₂) ← map_err CryptoDecodeError.read_error (read_array 32 r₁)
        ok (EncapsulationKey.x25519 key, r₂))
      else if n == 1
      then (do
        (key, r₂) ← map_err CryptoDecodeError.read_error (read_array 33 r₁)
        ok (EncapsulationKey.p256 key, r₂))
      else err (CryptoDecodeError.unknown_algorithm n)

abbrev pub is_some : Option Bytes → Bool
is_some none = false
is_some (some b) = true

abbrev pub write_join : Option Bytes → Writer → Writer
write_join none w = w
write_join (some peer) w = write_array peer w

unfoldable pub encode_commitment : InitCommitment → Writer → Writer
encode_commitment c w =
    let w₁ = encode_hash_suite c.hash_suite (write_byte c.version w) in
    let w₂ = write_byte (flags_of c.server (is_some c.workspace_join)) w₁ in
    let w₃ = encode_encapsulation c.encrypt_wrap_key (encode_key c.sig_verify_key w₂) in
    write_len_prefixed c.endorsement (write_join c.workspace_join w₃)

unfoldable pub read_join : Bool → Read InitDecodeError (Option Bytes)
read_join false r = ok (none, r)
read_join true r = do
  (peer, r') ← map_err InitDecodeError.read_error (read_array 32 r)
  ok (some peer, r')

-- What is behind the version; the caller has checked its major part.
unfoldable pub decode_body : Version → Read InitDecodeError InitCommitment
unfolding read_join
decode_body version r₁ = do
  (hash_suite, r₂) ← map_err hash_err (decode_hash_suite r₁)
  (flags, r₃) ← map_err InitDecodeError.read_error (read_byte r₂)
  u ← (if flag_reserved flags == 0 then ok tt else err (InitDecodeError.unknown_init_flags flags))
  (sig_verify_key, r₄) ← map_err key_err (decode_key r₃)
  (encrypt_wrap_key, r₅) ← map_err encapsulation_err (decode_encapsulation r₄)
  (workspace_join, r₆) ← read_join (flag_workspace_join flags) r₅
  (endorsement, r₇) ← map_err InitDecodeError.read_error (read_len_prefixed r₆)
  ok (
    record {
      version = version;
      hash_suite = hash_suite;
      sig_verify_key = sig_verify_key;
      encrypt_wrap_key = encrypt_wrap_key;
      server = flag_server flags;
      workspace_join = workspace_join;
      endorsement = endorsement;
    },
    r₇,
  )

-- Bytes that are left are tolerated of a later minor version only.
abbrev pub check_remaining : InitCommitment × Reader → Result InitDecodeError InitCommitment
check_remaining (c, r) =
    if not (length r == 0) && minor c.version == 0
    then err (InitDecodeError.unknown_init_data c.version (length r))
    else ok c

unfoldable pub decode_commitment : Bytes → Result InitDecodeError InitCommitment
unfolding decode_body
decode_commitment commitment_bytes = do
  (version, r) ← map_err InitDecodeError.read_error (read_byte commitment_bytes)
  if ltb 0 (major version)
      then err (InitDecodeError.unsupported_version version)
      else decode_body version r >>= check_remaining

-- What the id of a peer is the hash of.
abbrev pub peer_message : Bytes → Bytes → Hasher
peer_message app_magic commitment_bytes =
    update (update (new_tagged_hasher TaggedHashDomain.peer_init) app_magic) commitment_bytes

-- The entry that `create` makes before it verifies it.
abbrev pub new_entry : Bytes → Bytes → Signature → InitEntry
new_entry commitment_bytes peer_hash signature = record {
  commitment_bytes = commitment_bytes;
  peer_id = peer_hash;
  signature = signature;
  outer_endorsement = none;
}

module _ (sha256 : Bytes → Bytes) (v : Verifiers) where
  unfoldable pub verify_entry : InitEntry → Bytes → Result InitVerifyError InitCommitment
  unfolding decode_commitment
  verify_entry e app_magic = do
    commitment ← map_err InitVerifyError.decode_error (decode_commitment e.commitment_bytes)
    let peer_hash = finalize_hash sha256 (peer_message app_magic e.commitment_bytes)
    u ← (if same_bytes peer_hash e.peer_id then ok tt else err InitVerifyError.hash_mismatch)
    u' ←
        map_err InitVerifyError.signature_error
          (verify_signature v commitment.sig_verify_key peer_hash e.signature)
    ok commitment

  unfoldable pub create_entry :
      InitCommitment → Bytes → SigningKey → Result InitCreationError InitEntry
  unfolding verify_entry encode_commitment
  create_entry commitment app_magic signing_key =
      if not (major commitment.version == 0) || not (minor commitment.version == 0)
      then err (InitCreationError.unsupported_version commitment.version)
      else (do
        let commitment_bytes = finalize (encode_commitment commitment [])
        let peer_hash = finalize_hash sha256 (peer_message app_magic commitment_bytes)
        signature ← map_err InitCreationError.signing_error (signing_key.sign peer_hash)
        let entry = new_entry commitment_bytes peer_hash signature
        u ← map_err InitCreationError.init_verify_error (verify_entry entry app_magic)
        ok entry)
