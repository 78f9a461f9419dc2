-- ===== src/Pack.antt =====
-- crates/ubiquisync-core/src/pack/header.rs and filename.rs: the header of a pack and the ids of pack
-- files, with their wire forms. Hashes have 32 bytes, a container id 16 and a peer id 32.
pub mod Parts
pub mod RoundTrip
pub mod Canonical
pub mod Sign
pub mod Files
pub mod Names
pub mod Store
pub mod Inverse
use ubiquisync.Prelude.{ℕ, List, [], ◌∷◌, Bytes, length, ◌==◌, not, if◌then◌else◌}
use ubiquisync.Prelude.{Result, ok, err, ◌>>=◌, map_err}
use ubiquisync.Codec.Varint.{ReadError}
use ubiquisync.Codec.Writer.{Writer, WriteError, Range, write_byte, write_array, write_var_u64}
use ubiquisync.Codec.Writer.{write_le_u64, write_range, write_vec, finalize}
use ubiquisync.Codec.Reader.{Read, read_byte, read_array, read_var_u64, read_le_u64, read_range}
use ubiquisync.Codec.Reader.{read_vec, is_empty}
use ubiquisync.Crypto.{CryptoDecodeError, Signature, encode_signature, decode_signature}
use ubiquisync.Hlc.{WallTime}

pub record PackRef : Type 0 where
  pub id : ℕ
  pub end_seq : ℕ

pub record PackFileId : Type 0 where
  pub seqs : Range
  pub id : ℕ
  pub generation : ℕ

pub record SegmentDescriptor : Type 0 where
  pub container_id : Bytes
  pub idx_range : Range
  pub prev_chain : Bytes
  pub end_chain : Bytes
  pub body_loc : Range

pub record PeerData : Type 0 where
  pub peer_id : Bytes
  pub supersedes : List PackFileId
  pub segments : List SegmentDescriptor

pub record PackHeader : Type 0 where
  pub timestamp : WallTime
  pub parents : List PackRef
  pub self_supersedes : List PackRef
  pub self_segments : List SegmentDescriptor
  pub peer_data : List PeerData
  pub body_sha256 : Bytes

pub record SignedPackHeader : Type 0 where
  pub header : PackHeader
  pub signature : Signature

pub data PackHeaderDecodeError : Type 0 where
  read : ReadError → PackHeaderDecodeError
  unknown_version unknown_signature_type : ℕ → PackHeaderDecodeError
  trailing_bytes : PackHeaderDecodeError

abbrev pub pack_header_version : ℕ
pack_header_version = 0

unfoldable pub get_ref : PackFileId → PackRef
get_ref f = record { id = f.id; end_seq = f.seqs.end }

unfoldable pub encode_pack_ref : PackRef → Writer → Result WriteError Writer
encode_pack_ref x w = ok (write_var_u64 x.end_seq (write_le_u64 x.id w))

unfoldable pub decode_pack_ref : Read ReadError PackRef
decode_pack_ref r = do
  (id, r₁) ← read_le_u64 r
  (end_seq, r₂) ← read_var_u64 r₁
  ok (record { id = id; end_seq = end_seq }, r₂)

unfoldable pub encode_file_id : PackFileId → Writer → Result WriteError Writer
encode_file_id x w = do
  w' ← write_range x.seqs w
  ok (write_var_u64 x.generation (write_le_u64 x.id w'))

unfoldable pub decode_file_id : Read ReadError PackFileId
decode_file_id r = do
  (seqs, r₁) ← read_range r
  (id, r₂) ← read_le_u64 r₁
  (generation, r₃) ← read_var_u64 r₂
  ok (record { seqs = seqs; id = id; generation = generation }, r₃)

unfoldable pub encode_descriptor : SegmentDescriptor → Writer → Result WriteError Writer
encode_descriptor x w = do
  w₁ ← write_range x.idx_range (write_array x.container_id w)
  write_range x.body_loc (write_array x.end_chain (write_array x.prev_chain w₁))

unfoldable pub decode_descriptor : Read ReadError SegmentDescriptor
decode_descriptor r = do
  (container_id, r₁) ← read_array 16 r
  (idx_range, r₂) ← read_range r₁
  (prev_chain, r₃) ← read_array 32 r₂
  (end_chain, r₄) ← read_array 32 r₃
  (body_loc, r₅) ← read_range r₄
  ok (
    record {
      container_id = container_id;
      idx_range = idx_range;
      prev_chain = prev_chain;
      end_chain = end_chain;
      body_loc = body_loc;
    },
    r₅,
  )

unfoldable pub encode_peer_data : PeerData → Writer → Result WriteError Writer
encode_peer_data x w = do
  w₁ ← write_vec x.segments encode_descriptor (write_array x.peer_id w)
  write_vec x.supersedes encode_file_id w₁

unfoldable pub decode_peer_data : Read ReadError PeerData
decode_peer_data r = do
  (peer_id, r₁) ← read_array 32 r
  (segments, r₂) ← read_vec (λ e. e) decode_descriptor r₁
  (supersedes, r₃) ← read_vec (λ e. e) decode_file_id r₂
  ok (record { peer_id = peer_id; supersedes = supersedes; segments = segments }, r₃)

unfoldable pub encode_pack_header : PackHeader → Writer → Result WriteError Writer
encode_pack_header h w = do
  w₁ ←
      write_vec h.parents encode_pack_ref
        (write_var_u64 h.timestamp.millis (write_byte pack_header_version w))
  w₂ ← write_vec h.self_supersedes encode_pack_ref w₁
  w₃ ← write_vec h.self_segments encode_descriptor w₂
  w₄ ← write_vec h.peer_data encode_peer_data w₃
  ok (write_array h.body_sha256 w₄)

-- The fields behind the version.
unfoldable pub decode_fields : Read ReadError PackHeader
decode_fields r = do
  (millis, r₁) ← read_var_u64 r
  (parents, r₂) ← read_vec (λ e. e) decode_pack_ref r₁
  (self_supersedes, r₃) ← read_vec (λ e. e) decode_pack_ref r₂
  (self_segments, r₄) ← read_vec (λ e. e) decode_descriptor r₃
  (peer_data, r₅) ← read_vec (λ e. e) decode_peer_data r₄
  (body_sha256, r₆) ← read_array 32 r₅
  ok (
    record {
      timestamp = record { millis = millis };
      parents = parents;
      self_supersedes = self_supersedes;
      self_segments = self_segments;
      peer_data = peer_data;
      body_sha256 = body_sha256;
    },
    r₆,
  )

unfoldable pub decode_pack_header : Read PackHeaderDecodeError PackHeader
unfolding read_byte decode_fields
decode_pack_header r = do
  (version, r') ← map_err PackHeaderDecodeError.read (read_byte r)
  if not (version == pack_header_version)
      then err (PackHeaderDecodeError.unknown_version version)
      else map_err PackHeaderDecodeError.read (decode_fields r')

unfoldable pub encode_signed : SignedPackHeader → Writer → Result WriteError Writer
encode_signed h w = do w' ← encode_pack_header h.header w; ok (encode_signature h.signature w')

abbrev pub signature_error : CryptoDecodeError → PackHeaderDecodeError
signature_error (CryptoDecodeError.read_error e) = PackHeaderDecodeError.read e
signature_error (CryptoDecodeError.unknown_algorithm b) =
    PackHeaderDecodeError.unknown_signature_type b

unfoldable pub decode_signed : Bytes → Result PackHeaderDecodeError SignedPackHeader
decode_signed buf = do
  (header, r₁) ← decode_pack_header buf
  (signature, r₂) ← map_err signature_error (decode_signature r₁)
  if not (is_empty r₂)
      then err PackHeaderDecodeError.trailing_bytes
      else ok (record { header = header; signature = signature })
