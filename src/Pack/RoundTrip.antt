-- ===== src/Pack/RoundTrip.antt =====
-- The header of a pack is read back as it was written.
use ubiquisync.Prelude.{◌≡◌, refl, List, [], ◌∷◌, ◌++◌, append_assoc, append-nil}
use ubiquisync.Prelude.{All, Bytes, ok}
use ubiquisync.Codec.Varint.{encode_var_u64}
use ubiquisync.Codec.Varint.RoundTrip.{decode_var_u64-encode_var_u64}
use ubiquisync.Codec.Writer.{Writer, write_vec}
use ubiquisync.Codec.Reader.{read_byte}
use ubiquisync.Codec.RoundTrip.{read_slice-append}
use ubiquisync.Codec.Containers.{Writes, Reads, vec_bytes, write_vec-bytes, read_vec-bytes}
use ubiquisync.Crypto.RoundTrip.{IsSignature, signature_bytes, encode_signature-bytes}
use ubiquisync.Crypto.RoundTrip.{decode_signature-bytes}
use ubiquisync.Pack.{PackRef, SegmentDescriptor, PeerData, SignedPackHeader}
use ubiquisync.Pack.{encode_pack_ref, decode_pack_ref, encode_descriptor, decode_descriptor}
use ubiquisync.Pack.{encode_peer_data, decode_peer_data, encode_pack_header, decode_fields}
use ubiquisync.Pack.{decode_pack_header, encode_signed, decode_signed}
use ubiquisync.Pack.Parts.{
  IsPackRef, IsDescriptor, IsPeerData, IsPackHeader, pack_ref_bytes, descriptor_bytes,
}
use ubiquisync.Pack.Parts.{
  peer_data_bytes, fields_bytes, pack_header_bytes, encode_pack_ref-bytes, decode_pack_ref-bytes,
}
use ubiquisync.Pack.Parts.{
  encode_descriptor-bytes, decode_descriptor-bytes, encode_peer_data-bytes, decode_peer_data-bytes,
}

abbrev refs : List PackRef → Bytes
refs v = vec_bytes pack_ref_bytes v

abbrev segs : List SegmentDescriptor → Bytes
segs v = vec_bytes descriptor_bytes v

abbrev peers : List PeerData → Bytes
peers v = vec_bytes peer_data_bytes v

write_refs :
    (v : List PackRef) (w : Writer)
    → All IsPackRef v
    → write_vec v encode_pack_ref w ≡ ok (w ++ refs v)
write_refs = write_vec-bytes IsPackRef pack_ref_bytes encode_pack_ref encode_pack_ref-bytes

pub encode_pack_header-bytes : Writes encode_pack_header IsPackHeader pack_header_bytes
unfolding encode_pack_header fields_bytes
encode_pack_header-bytes h w (_, (p, _), (s, _), (d, _), (q, _), _) =
    let w₀ = (w ++ (0 ∷ [])) ++ encode_var_u64 h.timestamp.millis in
    let w₁ = w₀ ++ refs h.parents in
    let w₂ = w₁ ++ refs h.self_supersedes in
    let w₃ = w₂ ++ segs h.self_segments in
    rw
      (
        write_refs h.parents w₀ p,
        write_refs h.self_supersedes w₁ s,
        write_vec-bytes IsDescriptor descriptor_bytes encode_descriptor encode_descriptor-bytes
            h.self_segments w₂ d,
        write_vec-bytes IsPeerData peer_data_bytes encode_peer_data encode_peer_data-bytes
            h.peer_data w₃ q,
      )
      (simp append_assoc)

decode_fields-bytes : Reads decode_fields IsPackHeader fields_bytes
unfolding decode_fields fields_bytes
decode_fields-bytes h rest (t, (p, np), (s, ns), (d, nd), (q, nq), b) =
    let t₅ = peers h.peer_data ++ h.body_sha256 in
    let t₄ = segs h.self_segments ++ t₅ in
    let t₃ = refs h.self_supersedes ++ t₄ in
    let t₂ = refs h.parents ++ t₃ in
    let r₅ = h.body_sha256 ++ rest in
    let r₄ = peers h.peer_data ++ r₅ in
    let r₃ = segs h.self_segments ++ r₄ in
    let r₂ = refs h.self_supersedes ++ r₃ in
    let r₁ = refs h.parents ++ r₂ in
    rw (
      append_assoc (encode_var_u64 h.timestamp.millis) t₂ rest,
      append_assoc (refs h.parents) t₃ rest,
      append_assoc (refs h.self_supersedes) t₄ rest,
      append_assoc (segs h.self_segments) t₅ rest,
      append_assoc (peers h.peer_data) h.body_sha256 rest,
      decode_var_u64-encode_var_u64 h.timestamp.millis r₁ t,
      read_vec-bytes IsPackRef pack_ref_bytes (λ e. e) decode_pack_ref decode_pack_ref-bytes
          h.parents r₂ p np,
      read_vec-bytes IsPackRef pack_ref_bytes (λ e. e) decode_pack_ref decode_pack_ref-bytes
          h.self_supersedes r₃ s ns,
      read_vec-bytes IsDescriptor descriptor_bytes (λ e. e) decode_descriptor
          decode_descriptor-bytes h.self_segments r₄ d nd,
      read_vec-bytes IsPeerData peer_data_bytes (λ e. e) decode_peer_data decode_peer_data-bytes
          h.peer_data r₅ q nq,
      read_slice-append 32 h.body_sha256 rest b,
    )

pub decode_pack_header-bytes : Reads decode_pack_header IsPackHeader pack_header_bytes
unfolding decode_pack_header read_byte
decode_pack_header-bytes h rest k = rw (decode_fields-bytes h rest k)

-- A signed pack header whose arrays have their lengths, whose numbers and vectors fit their words and
-- whose ranges are not empty is encoded, and decoding exactly what was appended gives it back.
pub decode_signed-encode_signed :
    (h : SignedPackHeader) (w : Writer)
    → IsPackHeader h.header
    → IsSignature h.signature
    → (bs : Bytes) × (encode_signed h w ≡ ok (w ++ bs)) × (decode_signed bs ≡ ok h)
unfolding encode_signed decode_signed
decode_signed-encode_signed h w k s =
    let sig = signature_bytes h.signature in
    (
      pack_header_bytes h.header ++ sig,
      rw
          (
            encode_pack_header-bytes h.header w k,
            encode_signature-bytes h.signature (w ++ pack_header_bytes h.header),
          )
          (simp append_assoc),
      rw
          (
            decode_pack_header-bytes h.header sig k,
            ← append-nil sig,
            decode_signature-bytes h.signature [] s,
          )
          refl,
    )
