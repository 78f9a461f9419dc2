-- ===== src/Init/Verify.antt =====
-- An entry that was created is verified, and the id of a peer binds its application and commitment.
use ubiquisync.Prelude.{◌≡◌, refl, sym, ap, ◌∙◌, inl, inr, ◌⊎◌, [], ◌++◌, append-nil, append_assoc}
use ubiquisync.Prelude.{length, Bytes, same_bytes, same_bytes_iff, arith}
use ubiquisync.Prelude.{if◌then◌else◌, ok, err, map_err, >>=-elim, if-elim}
use ubiquisync.Codec.Inverse.{map_err_inv}
use ubiquisync.Crypto.{Signature}
use ubiquisync.Crypto.Hash.{TaggedHashDomain, new_tagged_hasher}
use ubiquisync.Crypto.Hash.Domains.{append_split}
use ubiquisync.Crypto.VerifyingKey.{Verifiers, verify_signature}
use ubiquisync.Log.Hash.Messages.{Collision, same_message}
use ubiquisync.Pack.Sign.{SigningKey}
use ubiquisync.Init.{InitCommitment, InitEntry, InitVerifyError, major, minor, encode_commitment}
use ubiquisync.Init.{decode_commitment, peer_message, verify_entry, new_entry, create_entry}
use ubiquisync.Init.RoundTrip.{IsCommitment, decode_commitment-encode_commitment}

decode_whole :
    (c : InitCommitment)
    → IsCommitment c
    → major c.version ≡ 0
    → decode_commitment (encode_commitment c []) ≡ ok c
decode_whole c h v =
    ap decode_commitment (sym (append-nil (encode_commitment c [])))
    ∙ decode_commitment-encode_commitment c [] h v

-- Equal peer messages are of one application and one commitment.
peer_message_injective :
    (a a' b b' : Bytes)
    → length a ≡ length a'
    → peer_message a b ≡ peer_message a' b'
    → (a ≡ a') × (b ≡ b')
peer_message_injective a a' b b' len e =
    let tag = new_tagged_hasher TaggedHashDomain.peer_init in
    let (_, rest) =
      append_split tag tag (a ++ b) (a' ++ b') refl
        (rw (← append_assoc tag a b, ← append_assoc tag a' b') e) in
    append_split a a' b b' len rest

module _ (sha256 : Bytes → Bytes) (v : Verifiers) where
  -- What a verified entry has.
  verified :
      (e : InitEntry) (app : Bytes) (c : InitCommitment)
      → verify_entry sha256 v e app ≡ ok c
      → (decode_commitment e.commitment_bytes ≡ ok c)
        × (sha256 (peer_message app e.commitment_bytes) ≡ e.peer_id)
  unfolding verify_entry
  verified e app c h =
      let hash = sha256 (peer_message app e.commitment_bytes) in
      >>=-elim (map_err InitVerifyError.decode_error (decode_commitment e.commitment_bytes)) h
        λ c' ec h₁.
          >>=-elim (if same_bytes hash e.peer_id then ok tt else err InitVerifyError.hash_mismatch)
            h₁
            λ u eu h₂.
              >>=-elim
                (map_err InitVerifyError.signature_error
                  (verify_signature v c'.sig_verify_key hash e.signature))
                h₂
                λ u' eu' h₃.
                  let same : c' ≡ c = ground arith in
                  (
                    rw (← same) (
                        map_err_inv InitVerifyError.decode_error
                          (decode_commitment e.commitment_bytes) ec),
                    if-elim (same_bytes hash e.peer_id) eu
                        (λ t _. (same_bytes_iff hash e.peer_id).0 t) (λ _ x. cc),
                  )

  -- If two entries with one peer id are verified, each for an app id of 16 bytes, then the app ids
  -- are equal, and so are the bytes of the commitments and the commitments, or the hash function
  -- has a collision.
  pub verify_entry_binds :
      (e e' : InitEntry) (app app' : Bytes) (c c' : InitCommitment)
      → length app ≡ 16
      → length app' ≡ 16
      → e.peer_id ≡ e'.peer_id
      → verify_entry sha256 v e app ≡ ok c
      → verify_entry sha256 v e' app' ≡ ok c'
      → ((app ≡ app') × (e.commitment_bytes ≡ e'.commitment_bytes) × (c ≡ c')) ⊎ Collision sha256
  verify_entry_binds e e' app app' c c' la la' same h h' =
      let (dec, hash) = verified e app c h in
      let (dec', hash') = verified e' app' c' h' in
      elim (same_message sha256 (peer_message app e.commitment_bytes)
        (peer_message app' e'.commitment_bytes) (hash ∙ same ∙ sym hash')) [
          | inr collision ↦ inr collision
          | inl eq ↦
              let (apps, bytes) =
                peer_message_injective app app' e.commitment_bytes e'.commitment_bytes
                  (la ∙ sym la') eq in
              let both = sym dec ∙ ap decode_commitment bytes ∙ dec' in
              inl (apps, bytes, ground arith)
        ]

  -- For a commitment of version 0.0, whose arrays have their lengths and whose endorsement fits the
  -- memory, and a key whose signature of the peer id is accepted by the key in the commitment, an
  -- entry is created, with the hash of the app id and the encoded commitment as its peer id; and
  -- verifying it gives the commitment back.
  pub verify_entry-create_entry :
      (c : InitCommitment) (app : Bytes) (key : SigningKey) (signature : Signature)
      → IsCommitment c
      → major c.version ≡ 0
      → minor c.version ≡ 0
      → key.sign (sha256 (peer_message app (encode_commitment c []))) ≡ ok signature
      → verify_signature v c.sig_verify_key
          (sha256 (peer_message app (encode_commitment c [])))
          signature
        ≡ ok tt
      → (e : InitEntry) × (create_entry sha256 v c app key ≡ ok e)
        × (e.peer_id ≡ sha256 (peer_message app (encode_commitment c [])))
        × (verify_entry sha256 v e app ≡ ok c)
  unfolding verify_entry create_entry
  verify_entry-create_entry c app key signature h v0 m0 signed accepted =
      let hash = sha256 (peer_message app (encode_commitment c [])) in
      let same = (same_bytes_iff hash hash).1 refl in
      let whole = decode_whole c h v0 in
      (
        new_entry (encode_commitment c []) hash signature,
        rw (v0, m0, signed, whole, same, accepted) refl,
        refl,
        rw (whole, same, accepted) refl,
      )
