-- ===== src/Pack/Sign/Binding.antt =====
-- What a signature of a pack header is about, and that a signed pack is verified.
use ubiquisync.Prelude.{◌≡◌, refl, sym, ◌∙◌, ◌⊎◌, inl, inr, List, [], ◌∷◌, ◌++◌, arith}
use ubiquisync.Prelude.{append_assoc, append-nil, length, Bytes, IsU64}
use ubiquisync.Prelude.{ok, >>=-elim, map_err}
use mathlib.Core.Path.{subst}
use ubiquisync.Codec.Varint.{encode_var_u64}
use ubiquisync.Codec.Reader.{read_len_prefixed, read_vec}
use ubiquisync.Codec.Containers.{Reads, each_bytes, vec_bytes, read_vec-bytes, Reads-injective}
use ubiquisync.Codec.Inverse.{map_err_inv}
use ubiquisync.Crypto.{Signature}
use ubiquisync.Crypto.RoundTrip.{IsSignature}
use ubiquisync.Crypto.Hash.{TaggedHashDomain, Hasher, new_tagged_hasher, update_len_prefixed}
use ubiquisync.Crypto.Hash.Domains.{append_split}
use ubiquisync.Crypto.VerifyingKey.{Verifiers, verify_signature}
use ubiquisync.Log.Entry.RoundTrip.{len_bytes, read_len_prefixed-len_bytes}
use ubiquisync.Log.Hash.Messages.{Collision, same_message}
use ubiquisync.Pack.{PackHeader, SignedPackHeader, decode_file_id, decode_pack_header}
use ubiquisync.Pack.{encode_signed, decode_signed}
use ubiquisync.Pack.Parts.{IsFileId, IsPackHeader, Vec, file_id_bytes, pack_header_bytes}
use ubiquisync.Pack.Parts.{encode_file_id-bytes, decode_file_id-bytes}
use ubiquisync.Pack.RoundTrip.{encode_pack_header-bytes, decode_pack_header-bytes}
use ubiquisync.Pack.RoundTrip.{decode_signed-encode_signed}
use ubiquisync.Pack.Sign.{PackFileDescriptor, PackSignError, SigningKey}
use ubiquisync.Pack.Sign.{update_parts, hash_descriptor, pack_message, pack_sign_bytes}
use ubiquisync.Pack.Sign.{sign_pack, verify_pack}

abbrev IsPart : Bytes → Type 0
IsPart p = IsU64 (length p)

-- What any descriptor of a pack file satisfies.
abbrev pub IsPackFile : PackFileDescriptor → Type 0
IsPackFile d = Vec IsPart d.topic × (length d.peer_id ≡ 32) × IsFileId d.id

-- A header whose encoding fits the memory.
abbrev pub IsSized : PackHeader → Type 0
IsSized h = IsPackHeader h × IsU64 (length (pack_header_bytes h))

abbrev tag : Bytes
tag = new_tagged_hasher TaggedHashDomain.pack_header

abbrev topic_bytes : List Bytes → Bytes
topic_bytes topic = vec_bytes len_bytes topic

unfoldable message_bytes : PackHeader → PackFileDescriptor → Bytes
message_bytes h d =
    tag
    ++ (file_id_bytes d.id
        ++ (d.peer_id ++ (topic_bytes d.topic ++ len_bytes (pack_header_bytes h))))

update_parts-bytes :
    (hasher : Hasher) (ps : List Bytes) → update_parts hasher ps ≡ hasher ++ each_bytes len_bytes ps
unfolding len_bytes
update_parts-bytes hasher [] = rw append-nil
update_parts-bytes hasher (p ∷ ps) =
    rw (update_parts-bytes (update_len_prefixed hasher p) ps) (simp append_assoc)

pack_message-bytes :
    (h : PackHeader) (d : PackFileDescriptor)
    → IsPackHeader h
    → IsFileId d.id
    → pack_message h d ≡ ok (message_bytes h d)
unfolding pack_message hash_descriptor message_bytes len_bytes
pack_message-bytes h d kh kd =
    rw
      (
        encode_file_id-bytes d.id [] kd,
        update_parts-bytes
            (((tag ++ file_id_bytes d.id) ++ d.peer_id) ++ encode_var_u64 (length d.topic)) d.topic,
        encode_pack_header-bytes h [] kh,
      )
      (simp append_assoc)

read_topic-bytes : Reads (read_vec (λ e. e) read_len_prefixed) (Vec IsPart) topic_bytes
read_topic-bytes topic rest (h, n) =
    read_vec-bytes IsPart len_bytes (λ e. e) read_len_prefixed read_len_prefixed-len_bytes topic
      rest h n

message_bytes_injective :
    (h k : PackHeader) (d e : PackFileDescriptor)
    → IsSized h
    → IsSized k
    → IsPackFile d
    → IsPackFile e
    → message_bytes h d ≡ message_bytes k e
    → (h ≡ k) × (d ≡ e)
unfolding message_bytes
message_bytes_injective h k d e (hh, sh) (hk, sk) (td, pd, fd) (te, pe, fe) eq =
    let (_, eq₁) = append_split tag tag _ _ refl eq in
    let (ids, eq₂) =
      Reads-injective IsFileId file_id_bytes decode_file_id decode_file_id-bytes d.id e.id _ _ fd fe
        eq₁ in
    let (peers, eq₃) = append_split d.peer_id e.peer_id _ _ (pd ∙ sym pe) eq₂ in
    let (topics, eq₄) =
      Reads-injective (Vec IsPart) topic_bytes (read_vec (λ x. x) read_len_prefixed)
        read_topic-bytes d.topic e.topic _ _ td te eq₃ in
    let (headers, _) =
      Reads-injective IsPart len_bytes read_len_prefixed read_len_prefixed-len_bytes
        (pack_header_bytes h) (pack_header_bytes k) [] [] sh sk
        (rw
          (
            append-nil (len_bytes (pack_header_bytes h)),
            append-nil (len_bytes (pack_header_bytes k)),
          )
          eq₄) in
    let (same, _) =
      Reads-injective IsPackHeader pack_header_bytes decode_pack_header decode_pack_header-bytes h k
        [] [] hh hk
        (rw (append-nil (pack_header_bytes h), append-nil (pack_header_bytes k)) headers) in
    (same, λ i. record { topic = topics i; peer_id = peers i; id = ids i })

module _ (sha256 : Bytes → Bytes) where
  pack_sign_bytes-message_bytes :
      (h : PackHeader) (d : PackFileDescriptor)
      → IsPackHeader h
      → IsFileId d.id
      → pack_sign_bytes sha256 h d ≡ ok (sha256 (message_bytes h d))
  unfolding pack_sign_bytes
  pack_sign_bytes-message_bytes h d kh kd = rw (pack_message-bytes h d kh kd) refl

  -- Two pack headers with their files have the same bytes to sign only if the headers and the
  -- descriptors of the files are equal, or the hash function has a collision. Arrays have their lengths,
  -- ranges are not empty, and everything fits the memory.
  pub pack_sign_bytes_binds :
      (h k : PackHeader) (d e : PackFileDescriptor)
      → IsSized h
      → IsSized k
      → IsPackFile d
      → IsPackFile e
      → pack_sign_bytes sha256 h d ≡ pack_sign_bytes sha256 k e
      → ((h ≡ k) × (d ≡ e)) ⊎ Collision sha256
  pack_sign_bytes_binds h k d e hh hk hd he eq =
      let hashes =
        sym (pack_sign_bytes-message_bytes h d hh.0 hd.2)
        ∙ eq
        ∙ pack_sign_bytes-message_bytes k e hk.0 he.2 in
      elim (same_message sha256 (message_bytes h d) (message_bytes k e) (ground (arith, hashes))) [
        | inl same ↦ inl (message_bytes_injective h k d e hh hk hd he same)
        | inr collision ↦ inr collision
      ]

  -- If every signature of a key is accepted by its verifying key, then a pack header that was signed
  -- is encoded, decoding what was encoded gives it back, and it is verified for the file it was signed for.
  pub verify_pack-sign_pack :
      (v : Verifiers) (key : SigningKey) (h : PackHeader) (d : PackFileDescriptor)
      (signed : SignedPackHeader)
      → ((m : Bytes) (s : Signature)
          → key.sign m ≡ ok s
          → (verify_signature v key.verifying_key m s ≡ ok tt) × IsSignature s)
      → IsPackHeader h
      → sign_pack sha256 key h d ≡ ok signed
      → (bs : Bytes) × (encode_signed signed [] ≡ ok bs)
        × (decode_signed bs ≡ ok signed)
        × (verify_pack sha256 v key.verifying_key signed d ≡ ok tt)
  unfolding sign_pack verify_pack
  verify_pack-sign_pack v key h d signed law is e =
      >>=-elim (map_err PackSignError.encode (pack_sign_bytes sha256 h d)) e λ m em d₁.
        >>=-elim (map_err PackSignError.sign (key.sign m)) d₁ λ s es d₂.
          let (accepted, sized) = law m s (map_err_inv PackSignError.sign (key.sign m) es) in
          let message = map_err_inv PackSignError.encode (pack_sign_bytes sha256 h d) em in
          let parts : (h ≡ signed.header) × (s ≡ signed.signature) = ground arith in
          let (bs, enc, dec) =
            decode_signed-encode_signed signed [] (subst IsPackHeader parts.0 is)
              (subst IsSignature parts.1 sized) in
          (bs, enc, dec, rw (← parts.0, ← parts.1, message, accepted) refl)
