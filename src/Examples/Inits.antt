-- ===== src/Examples/Inits.antt =====
-- The entry that starts a peer, on concrete inputs.
use ubiquisync.Prelude.{◌≡◌, refl, ◌⊎◌, [], ◌∷◌, ◌++◌, Bytes, arith, ok, err, some, true}
use ubiquisync.Crypto.{Signature}
use ubiquisync.Crypto.Hash.{zeroes}
use ubiquisync.Crypto.VerifyingKey.{VerifyingKey, Verifiers, verify_signature}
use ubiquisync.Log.Hash.Messages.{Collision}
use ubiquisync.Pack.Sign.{SigningKey}
use ubiquisync.Init.{InitCommitment, InitEntry, InitDecodeError, Hash256Suite, EncapsulationKey}
use ubiquisync.Init.{encode_commitment, decode_commitment, peer_message, verify_entry, create_entry}
use ubiquisync.Init.RoundTrip.{IsCommitment, decode_commitment-encode_commitment}
use ubiquisync.Init.Verify.{verify_entry_binds, verify_entry-create_entry}

abbrev sample : InitCommitment
sample = record {
  version = 0;
  hash_suite = Hash256Suite.sha256;
  sig_verify_key = VerifyingKey.ed25519_key (zeroes 32);
  encrypt_wrap_key = EncapsulationKey.p256 (zeroes 33);
  server = true;
  workspace_join = some (zeroes 32);
  endorsement = 5 ∷ [];
}

sample-IsCommitment : IsCommitment sample
sample-IsCommitment = (refl, refl, refl, omega arith)

decode_commitment-encode_commitment_example :
    decode_commitment (encode_commitment sample [] ++ (9 ∷ []))
    ≡ err (InitDecodeError.unknown_init_data 0 1)
decode_commitment-encode_commitment_example =
    decode_commitment-encode_commitment sample (9 ∷ []) sample-IsCommitment refl

abbrev app : Bytes
app = zeroes 16

-- A hash that is what it hashes, and a key whose every signature is accepted.
abbrev plain_hash : Bytes → Bytes
plain_hash m = m

abbrev key : SigningKey
key = record {
  sign = λ m. ok (Signature.ed25519 (zeroes 64));
  verifying_key = VerifyingKey.ed25519_key (zeroes 32);
}

abbrev verifiers : Verifiers
verifiers = record { ed25519_verify = λ k m s. ok tt; p256_verify = λ k m s. ok tt }

abbrev id : Bytes
id = peer_message app (encode_commitment sample [])

accepted :
    verify_signature verifiers sample.sig_verify_key id (Signature.ed25519 (zeroes 64)) ≡ ok tt
unfolding verify_signature
accepted = refl

created :
    (e : InitEntry) × (create_entry plain_hash verifiers sample app key ≡ ok e)
    × (e.peer_id ≡ id)
    × (verify_entry plain_hash verifiers e app ≡ ok sample)
created =
    verify_entry-create_entry plain_hash verifiers sample app key (Signature.ed25519 (zeroes 64))
      sample-IsCommitment refl refl refl accepted

verify_entry-create_entry_example :
    (e : InitEntry) × (create_entry plain_hash verifiers sample app key ≡ ok e)
    × (e.peer_id ≡ id)
    × (verify_entry plain_hash verifiers e app ≡ ok sample)
verify_entry-create_entry_example =
    verify_entry-create_entry plain_hash verifiers sample app key (Signature.ed25519 (zeroes 64))
      sample-IsCommitment refl refl refl accepted

verify_entry_binds_example :
    ((app ≡ app) × (created.0.commitment_bytes ≡ created.0.commitment_bytes) × (sample ≡ sample))
    ⊎ Collision plain_hash
verify_entry_binds_example =
    verify_entry_binds plain_hash verifiers created.0 created.0 app app sample sample refl refl refl
      created.3 created.3
