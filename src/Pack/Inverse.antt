-- ===== src/Pack/Inverse.antt =====
-- What the decoders of the parts of a pack header accept.
use ubiquisync.Prelude.{append_assoc}
use ubiquisync.Prelude.{>>=-elim}
use ubiquisync.Codec.Reader.{read_array, read_var_u64, read_le_u64, read_range, read_vec}
use ubiquisync.Codec.Inverse.{Inverts, returned, read_slice-Inverts, read_le-Inverts}
use ubiquisync.Codec.Inverse.{read_var_u64-Inverts, read_range-Inverts, read_vec-Inverts}
use ubiquisync.Pack.{decode_pack_ref, decode_file_id, decode_descriptor, decode_peer_data}
use ubiquisync.Pack.{decode_fields}
use ubiquisync.Pack.Parts.{IsPackRef, IsFileId, IsDescriptor, IsPeerData, IsPackHeader}
use ubiquisync.Pack.Parts.{pack_ref_bytes, file_id_bytes, descriptor_bytes, peer_data_bytes}
use ubiquisync.Pack.Parts.{fields_bytes, Vec}
use ubiquisync.Codec.Containers.{vec_bytes}

decode_pack_ref-Inverts : Inverts decode_pack_ref IsPackRef pack_ref_bytes
unfolding decode_pack_ref pack_ref_bytes
decode_pack_ref-Inverts buf x rest h e = >>=-elim (read_le_u64 buf) e λ (id, r₁) e₁ d₁.
    >>=-elim (read_var_u64 r₁) d₁ λ (end_seq, r₂) e₂ d₂.
      let (s₁, p₁, l₁) = read_le-Inverts 8 buf id r₁ h e₁ in
      let (s₂, p₂, l₂) = read_var_u64-Inverts r₁ end_seq r₂ l₁ e₂ in
      let (ex, er) = returned d₂ in rw (← ex, ← er) (rw (s₁, s₂) (simp append_assoc), (p₁, p₂), l₂)

pub decode_file_id-Inverts : Inverts decode_file_id IsFileId file_id_bytes
unfolding decode_file_id file_id_bytes
decode_file_id-Inverts buf x rest h e = >>=-elim (read_range buf) e λ (seqs, r₁) e₁ d₁.
    >>=-elim (read_le_u64 r₁) d₁ λ (id, r₂) e₂ d₂.
      >>=-elim (read_var_u64 r₂) d₂ λ (generation, r₃) e₃ d₃.
        let (s₁, p₁, l₁) = read_range-Inverts buf seqs r₁ h e₁ in
        let (s₂, p₂, l₂) = read_le-Inverts 8 r₁ id r₂ l₁ e₂ in
        let (s₃, p₃, l₃) = read_var_u64-Inverts r₂ generation r₃ l₂ e₃ in
        let (ex, er) = returned d₃ in
        rw (← ex, ← er) (rw (s₁, s₂, s₃) (simp append_assoc), (p₁, p₂, p₃), l₃)

decode_descriptor-Inverts : Inverts decode_descriptor IsDescriptor descriptor_bytes
unfolding decode_descriptor descriptor_bytes
decode_descriptor-Inverts buf x rest h e =
    >>=-elim (read_array 16 buf) e λ (container_id, r₁) e₁ d₁.
      >>=-elim (read_range r₁) d₁ λ (idx_range, r₂) e₂ d₂.
        >>=-elim (read_array 32 r₂) d₂ λ (prev_chain, r₃) e₃ d₃.
          >>=-elim (read_array 32 r₃) d₃ λ (end_chain, r₄) e₄ d₄.
            >>=-elim (read_range r₄) d₄ λ (body_loc, r₅) e₅ d₅.
              let (s₁, p₁, l₁) = read_slice-Inverts 16 buf container_id r₁ h e₁ in
              let (s₂, p₂, l₂) = read_range-Inverts r₁ idx_range r₂ l₁ e₂ in
              let (s₃, p₃, l₃) = read_slice-Inverts 32 r₂ prev_chain r₃ l₂ e₃ in
              let (s₄, p₄, l₄) = read_slice-Inverts 32 r₃ end_chain r₄ l₃ e₄ in
              let (s₅, p₅, l₅) = read_range-Inverts r₄ body_loc r₅ l₄ e₅ in
              let (ex, er) = returned d₅ in
              rw (← ex, ← er)
                (rw (s₁, s₂, s₃, s₄, s₅) (simp append_assoc), (p₁, p₂, p₃, p₄, p₅), l₅)

read_descriptors-Inverts :
    Inverts (read_vec (λ e. e) decode_descriptor) (Vec IsDescriptor) (vec_bytes descriptor_bytes)
read_descriptors-Inverts =
    read_vec-Inverts IsDescriptor descriptor_bytes (λ e. e) decode_descriptor
      decode_descriptor-Inverts

read_file_ids-Inverts :
    Inverts (read_vec (λ e. e) decode_file_id) (Vec IsFileId) (vec_bytes file_id_bytes)
read_file_ids-Inverts =
    read_vec-Inverts IsFileId file_id_bytes (λ e. e) decode_file_id decode_file_id-Inverts

read_pack_refs-Inverts :
    Inverts (read_vec (λ e. e) decode_pack_ref) (Vec IsPackRef) (vec_bytes pack_ref_bytes)
read_pack_refs-Inverts =
    read_vec-Inverts IsPackRef pack_ref_bytes (λ e. e) decode_pack_ref decode_pack_ref-Inverts

decode_peer_data-Inverts : Inverts decode_peer_data IsPeerData peer_data_bytes
unfolding decode_peer_data peer_data_bytes
decode_peer_data-Inverts buf x rest h e = >>=-elim (read_array 32 buf) e λ (peer_id, r₁) e₁ d₁.
    >>=-elim (read_vec (λ e. e) decode_descriptor r₁) d₁ λ (segments, r₂) e₂ d₂.
      >>=-elim (read_vec (λ e. e) decode_file_id r₂) d₂ λ (supersedes, r₃) e₃ d₃.
        let (s₁, p₁, l₁) = read_slice-Inverts 32 buf peer_id r₁ h e₁ in
        let (s₂, p₂, l₂) = read_descriptors-Inverts r₁ segments r₂ l₁ e₂ in
        let (s₃, p₃, l₃) = read_file_ids-Inverts r₂ supersedes r₃ l₂ e₃ in
        let (ex, er) = returned d₃ in
        rw (← ex, ← er) (rw (s₁, s₂, s₃) (simp append_assoc), (p₁, p₂, p₃), l₃)

read_peers-Inverts :
    Inverts (read_vec (λ e. e) decode_peer_data) (Vec IsPeerData) (vec_bytes peer_data_bytes)
read_peers-Inverts =
    read_vec-Inverts IsPeerData peer_data_bytes (λ e. e) decode_peer_data decode_peer_data-Inverts

pub decode_fields-Inverts : Inverts decode_fields IsPackHeader fields_bytes
unfolding decode_fields fields_bytes
decode_fields-Inverts buf x rest h e = >>=-elim (read_var_u64 buf) e λ (millis, r₁) e₁ d₁.
    >>=-elim (read_vec (λ e. e) decode_pack_ref r₁) d₁ λ (parents, r₂) e₂ d₂.
      >>=-elim (read_vec (λ e. e) decode_pack_ref r₂) d₂ λ (supersedes, r₃) e₃ d₃.
        >>=-elim (read_vec (λ e. e) decode_descriptor r₃) d₃ λ (segments, r₄) e₄ d₄.
          >>=-elim (read_vec (λ e. e) decode_peer_data r₄) d₄ λ (peer_data, r₅) e₅ d₅.
            >>=-elim (read_array 32 r₅) d₅ λ (body, r₆) e₆ d₆.
              let (s₁, p₁, l₁) = read_var_u64-Inverts buf millis r₁ h e₁ in
              let (s₂, p₂, l₂) = read_pack_refs-Inverts r₁ parents r₂ l₁ e₂ in
              let (s₃, p₃, l₃) = read_pack_refs-Inverts r₂ supersedes r₃ l₂ e₃ in
              let (s₄, p₄, l₄) = read_descriptors-Inverts r₃ segments r₄ l₃ e₄ in
              let (s₅, p₅, l₅) = read_peers-Inverts r₄ peer_data r₅ l₄ e₅ in
              let (s₆, p₆, l₆) = read_slice-Inverts 32 r₅ body r₆ l₅ e₆ in
              let (ex, er) = returned d₆ in
              rw (← ex, ← er)
                (rw (s₁, s₂, s₃, s₄, s₅, s₆) (simp append_assoc), (p₁, p₂, p₃, p₄, p₅, p₆), l₆)
