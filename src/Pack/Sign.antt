-- ===== src/Pack/Sign.antt =====
-- Signing and verifying a pack header, with the descriptor of its file: `PackFileDescriptor` of
-- crates/ubiquisync-core/src/pack/filename.rs, `sign` and `verify` of header.rs. A topic is the UTF-8
-- bytes of its parts.
pub mod Binding
use ubiquisync.Prelude.{List, [], ◌∷◌, Bytes, length, Result, ok, err, ◌>>=◌, map_err}
use ubiquisync.Codec.Writer.{WriteError, finalize}
use ubiquisync.Crypto.{Signature}
use ubiquisync.Crypto.Hash.{TaggedHashDomain, Hasher, new_tagged_hasher, update, update_varint}
use ubiquisync.Crypto.Hash.{update_len_prefixed, finalize_hash}
use ubiquisync.Crypto.VerifyingKey.{VerifyingKey, Verifiers, SignatureVerifyError, verify_signature}
use ubiquisync.Pack.{PackFileId, PackHeader, SignedPackHeader, encode_file_id, encode_pack_header}

pub record PackFileDescriptor : Type 0 where
  pub topic : List Bytes
  pub peer_id : Bytes
  pub id : PackFileId

pub data SigningError : Type 0 where
  sign_error : SigningError

pub data PackSignError : Type 0 where
  encode : WriteError → PackSignError
  sign : SigningError → PackSignError

pub data PackVerifyError : Type 0 where
  encode : WriteError → PackVerifyError
  signature : SignatureVerifyError → PackVerifyError

-- The trait `SigningKey`, whose implementations call third-party libraries.
pub record SigningKey : Type 0 where
  pub sign : Bytes → Result SigningError Signature
  pub verifying_key : VerifyingKey

-- The loop over the parts of the topic in `PackFileDescriptor::hash`.
abbrev pub update_parts : Hasher → List Bytes → Hasher
update_parts hasher [] = hasher
update_parts hasher (p ∷ ps) = update_parts (update_len_prefixed hasher p) ps

unfoldable pub hash_descriptor : PackFileDescriptor → Hasher → Result WriteError Hasher
hash_descriptor d hasher = do
  w ← encode_file_id d.id []
  ok (
      update_parts (update_varint (update (update hasher (finalize w)) d.peer_id) (length d.topic))
        d.topic)

-- What `sign_bytes` hashes.
unfoldable pub pack_message : PackHeader → PackFileDescriptor → Result WriteError Hasher
unfolding hash_descriptor
pack_message h file_desc = do
  hasher ← hash_descriptor file_desc (new_tagged_hasher TaggedHashDomain.pack_header)
  w ← encode_pack_header h []
  ok (update_len_prefixed hasher (finalize w))

module _ (sha256 : Bytes → Bytes) where
  unfoldable pub pack_sign_bytes : PackHeader → PackFileDescriptor → Result WriteError Bytes
  unfolding pack_message
  pack_sign_bytes h file_desc = do
    hasher ← pack_message h file_desc
    ok (finalize_hash sha256 hasher)

  unfoldable pub sign_pack :
      SigningKey → PackHeader → PackFileDescriptor → Result PackSignError SignedPackHeader
  unfolding pack_sign_bytes
  sign_pack signing_key h file_desc = do
    sig_bytes ← map_err PackSignError.encode (pack_sign_bytes h file_desc)
    sig ← map_err PackSignError.sign (signing_key.sign sig_bytes)
    ok (record { header = h; signature = sig })

  unfoldable pub verify_pack :
      Verifiers
      → VerifyingKey
      → SignedPackHeader
      → PackFileDescriptor
      → Result PackVerifyError (Unit {0})
  unfolding pack_sign_bytes
  verify_pack v key h file_desc = do
    sig_bytes ← map_err PackVerifyError.encode (pack_sign_bytes h.header file_desc)
    u ← map_err PackVerifyError.signature (verify_signature v key sig_bytes h.signature)
    ok tt
