-- ===== src/Pack/Parts.antt =====
-- What the parts of a pack header are written as, and that they are read back.
use ubiquisync.Prelude.{◌^◌, ◌<◌, ◌≡◌, List, ◌∷◌, ◌++◌, append_assoc}
use ubiquisync.Prelude.{length, All, Bytes, IsU64}
use ubiquisync.Codec.Varint.{encode_var_u64}
use ubiquisync.Codec.Varint.RoundTrip.{decode_var_u64-encode_var_u64}
use ubiquisync.Codec.Writer.{to_le_bytes}
use ubiquisync.Codec.RoundTrip.{read_slice-append, read_le-to_le_bytes, IsRange, range_bytes}
use ubiquisync.Codec.RoundTrip.{write_range-bytes, read_range-bytes}
use ubiquisync.Codec.Containers.{Writes, Reads, vec_bytes, write_vec-bytes, read_vec-bytes}
use ubiquisync.Pack.{PackRef, PackFileId, SegmentDescriptor, PeerData, PackHeader}
use ubiquisync.Pack.{encode_pack_ref, decode_pack_ref, encode_file_id}
use ubiquisync.Pack.{decode_file_id, encode_descriptor, decode_descriptor, encode_peer_data}
use ubiquisync.Pack.{decode_peer_data}

-- What any value of the Rust types satisfies; a range must not be empty, or it is not written.
abbrev pub IsPackRef : PackRef → Type 0
IsPackRef x = (x.id < 256 ^ 8) × IsU64 x.end_seq

abbrev pub IsFileId : PackFileId → Type 0
IsFileId x = IsRange x.seqs × (x.id < 256 ^ 8) × IsU64 x.generation

abbrev pub IsDescriptor : SegmentDescriptor → Type 0
IsDescriptor x =
    (length x.container_id ≡ 16)
    × IsRange x.idx_range
    × (length x.prev_chain ≡ 32)
    × (length x.end_chain ≡ 32)
    × IsRange x.body_loc

-- A vector of such values, not longer than a word can count.
abbrev pub Vec : {A : Type 0} → (A → Type 0) → List A → Type 0
Vec P v = All P v × IsU64 (length v)

abbrev pub IsPeerData : PeerData → Type 0
IsPeerData x = (length x.peer_id ≡ 32) × Vec IsDescriptor x.segments × Vec IsFileId x.supersedes

abbrev pub IsPackHeader : PackHeader → Type 0
IsPackHeader h =
    IsU64 h.timestamp.millis
    × Vec IsPackRef h.parents
    × Vec IsPackRef h.self_supersedes
    × Vec IsDescriptor h.self_segments
    × Vec IsPeerData h.peer_data
    × (length h.body_sha256 ≡ 32)

unfoldable pub pack_ref_bytes : PackRef → Bytes
pack_ref_bytes x = to_le_bytes 8 x.id ++ encode_var_u64 x.end_seq

unfoldable pub file_id_bytes : PackFileId → Bytes
file_id_bytes x = range_bytes x.seqs ++ (to_le_bytes 8 x.id ++ encode_var_u64 x.generation)

unfoldable pub descriptor_bytes : SegmentDescriptor → Bytes
descriptor_bytes x =
    x.container_id
    ++ (range_bytes x.idx_range ++ (x.prev_chain ++ (x.end_chain ++ range_bytes x.body_loc)))

unfoldable pub peer_data_bytes : PeerData → Bytes
peer_data_bytes x =
    x.peer_id ++ (vec_bytes descriptor_bytes x.segments ++ vec_bytes file_id_bytes x.supersedes)

unfoldable pub fields_bytes : PackHeader → Bytes
fields_bytes h =
    encode_var_u64 h.timestamp.millis
    ++ (vec_bytes pack_ref_bytes h.parents
        ++ (vec_bytes pack_ref_bytes h.self_supersedes
            ++ (vec_bytes descriptor_bytes h.self_segments
                ++ (vec_bytes peer_data_bytes h.peer_data ++ h.body_sha256))))

abbrev pub pack_header_bytes : PackHeader → Bytes
pack_header_bytes h = 0 ∷ fields_bytes h

pub encode_pack_ref-bytes : Writes encode_pack_ref IsPackRef pack_ref_bytes
unfolding encode_pack_ref pack_ref_bytes
encode_pack_ref-bytes x w h = simp append_assoc

pub decode_pack_ref-bytes : Reads decode_pack_ref IsPackRef pack_ref_bytes
unfolding decode_pack_ref pack_ref_bytes
decode_pack_ref-bytes x rest (hid, hs) = rw (
  append_assoc (to_le_bytes 8 x.id) (encode_var_u64 x.end_seq) rest,
  read_le-to_le_bytes 8 x.id (encode_var_u64 x.end_seq ++ rest) hid,
  decode_var_u64-encode_var_u64 x.end_seq rest hs,
)

pub encode_file_id-bytes : Writes encode_file_id IsFileId file_id_bytes
unfolding encode_file_id file_id_bytes
encode_file_id-bytes x w (hr, _, _) = rw (write_range-bytes x.seqs w hr) (simp append_assoc)

pub decode_file_id-bytes : Reads decode_file_id IsFileId file_id_bytes
unfolding decode_file_id file_id_bytes
decode_file_id-bytes x rest (hr, hid, hg) =
    let id = to_le_bytes 8 x.id in
    let gen = encode_var_u64 x.generation in
    rw (
      append_assoc (range_bytes x.seqs) (id ++ gen) rest,
      append_assoc id gen rest,
      read_range-bytes x.seqs (id ++ (gen ++ rest)) hr,
      read_le-to_le_bytes 8 x.id (gen ++ rest) hid,
      decode_var_u64-encode_var_u64 x.generation rest hg,
    )

pub encode_descriptor-bytes : Writes encode_descriptor IsDescriptor descriptor_bytes
unfolding encode_descriptor descriptor_bytes
encode_descriptor-bytes x w (hc, hi, hp, he, hb) =
    rw
      (
        write_range-bytes x.idx_range (w ++ x.container_id) hi,
        write_range-bytes x.body_loc
            ((((w ++ x.container_id) ++ range_bytes x.idx_range) ++ x.prev_chain) ++ x.end_chain)
            hb,
      )
      (simp append_assoc)

pub decode_descriptor-bytes : Reads decode_descriptor IsDescriptor descriptor_bytes
unfolding decode_descriptor descriptor_bytes
decode_descriptor-bytes x rest (hc, hi, hp, he, hb) =
    let idx = range_bytes x.idx_range in
    let loc = range_bytes x.body_loc in
    rw (
      append_assoc x.container_id (idx ++ (x.prev_chain ++ (x.end_chain ++ loc))) rest,
      append_assoc idx (x.prev_chain ++ (x.end_chain ++ loc)) rest,
      append_assoc x.prev_chain (x.end_chain ++ loc) rest,
      append_assoc x.end_chain loc rest,
      read_slice-append 16 x.container_id (idx ++ (x.prev_chain ++ (x.end_chain ++ (loc ++ rest))))
          hc,
      read_range-bytes x.idx_range (x.prev_chain ++ (x.end_chain ++ (loc ++ rest))) hi,
      read_slice-append 32 x.prev_chain (x.end_chain ++ (loc ++ rest)) hp,
      read_slice-append 32 x.end_chain (loc ++ rest) he,
      read_range-bytes x.body_loc rest hb,
    )

pub encode_peer_data-bytes : Writes encode_peer_data IsPeerData peer_data_bytes
unfolding encode_peer_data peer_data_bytes
encode_peer_data-bytes x w (hp, (hs, _), (hf, _)) =
    rw
      (
        write_vec-bytes IsDescriptor descriptor_bytes encode_descriptor encode_descriptor-bytes
            x.segments (w ++ x.peer_id) hs,
        write_vec-bytes IsFileId file_id_bytes encode_file_id encode_file_id-bytes x.supersedes
            ((w ++ x.peer_id) ++ vec_bytes descriptor_bytes x.segments) hf,
      )
      (simp append_assoc)

pub decode_peer_data-bytes : Reads decode_peer_data IsPeerData peer_data_bytes
unfolding decode_peer_data peer_data_bytes
decode_peer_data-bytes x rest (hp, (hs, ns), (hf, nf)) =
    let segs = vec_bytes descriptor_bytes x.segments in
    let files = vec_bytes file_id_bytes x.supersedes in
    rw (
      append_assoc x.peer_id (segs ++ files) rest,
      append_assoc segs files rest,
      read_slice-append 32 x.peer_id (segs ++ (files ++ rest)) hp,
      read_vec-bytes IsDescriptor descriptor_bytes (λ e. e) decode_descriptor
          decode_descriptor-bytes x.segments (files ++ rest) hs ns,
      read_vec-bytes IsFileId file_id_bytes (λ e. e) decode_file_id decode_file_id-bytes
          x.supersedes rest hf nf,
    )
