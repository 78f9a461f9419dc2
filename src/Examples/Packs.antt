-- ===== src/Examples/Packs.antt =====
-- A pack header with one segment, its signature, its file, and a remote that is a map.
use ubiquisync.Prelude.{◌≡◌, ◌≢◌, ◌↔◌, ◌⊎◌, refl, arith, List, [], ◌∷◌, ◌++◌, All, Bytes}
use ubiquisync.Prelude.{same_bytes, same_bytes_iff, Bool-cases, inl, inr, if◌then◌else◌}
use ubiquisync.Prelude.{ok, Option, none, some}
use ubiquisync.Codec.Varint.{encode_var_u64, decode_var_u64}
use ubiquisync.Codec.Writer.{to_le_bytes, write_range, write_vec, write_each}
use ubiquisync.Codec.Reader.{read_slice, read_range, read_vec, read_le}
use ubiquisync.Codec.RoundTrip.{range_bytes}
use ubiquisync.Crypto.{Signature, encode_signature, decode_signature}
use ubiquisync.Crypto.Hash.{zeroes}
use ubiquisync.Crypto.RoundTrip.{IsSignature}
use ubiquisync.Crypto.VerifyingKey.{VerifyingKey, Verifiers, verify_signature}
use ubiquisync.Log.Hash.Messages.{Collision}
use ubiquisync.Pack.{PackFileId, PackHeader, SignedPackHeader, encode_signed, decode_signed}
use ubiquisync.Pack.{
  encode_pack_header, encode_pack_ref, encode_descriptor, encode_file_id, decode_pack_header,
  decode_pack_ref, decode_descriptor,
}
use ubiquisync.Pack.Parts.{IsPackHeader, fields_bytes, descriptor_bytes, pack_ref_bytes}
use ubiquisync.Pack.RoundTrip.{decode_signed-encode_signed}
use ubiquisync.Pack.Canonical.{encode_signed-decode_signed}
use ubiquisync.Pack.Sign.{PackFileDescriptor, SigningKey, sign_pack, verify_pack}
use ubiquisync.Pack.Sign.Binding.{IsSized, IsPackFile, pack_sign_bytes_binds}
use ubiquisync.Pack.Sign.Binding.{verify_pack-sign_pack}
use ubiquisync.Pack.Files.{dedupe_pack_files, same_ref}
use ubiquisync.Pack.Files.Latest.{Any, OneOf, DistinctRefs, Covers, dedupe_pack_files_lem}
use ubiquisync.Pack.Names.{display, dir, from_str}
use ubiquisync.Pack.Names.RoundTrip.{IsFileName, from_str_lem}
use ubiquisync.Pack.Store.{FileRemote, DirEntry, PackData, write_pack, list_packs}
use ubiquisync.Pack.Store.{read_header, read_body, FileType, write_files, stem}
use ubiquisync.Pack.Store.Complete.{Complete, StoreOp, run_ops, run_ops-Complete}
use ubiquisync.Pack.Store.Listing.{IsPackEntry, list_packs_lem}
use ubiquisync.Pack.Store.Written.{read_header-write_pack}

abbrev sample : PackHeader
sample = record {
  timestamp = record { millis = 5 };
  parents = record { id = 7; end_seq = 1 } ∷ [];
  self_supersedes = [];
  self_segments =
      record {
        container_id = zeroes 16;
        idx_range = record { start = 1; end = 3 };
        prev_chain = zeroes 32;
        end_chain = zeroes 32;
        body_loc = record { start = 0; end = 9 };
      }
      ∷ [];
  peer_data = [];
  body_sha256 = zeroes 32;
}

abbrev signed : SignedPackHeader
signed = record { header = sample; signature = Signature.p256 (zeroes 64) }

sample-IsPackHeader : IsPackHeader sample
sample-IsPackHeader = omega arith

abbrev wire : Bytes
wire =
    0 ∷ 5 ∷ 1 ∷ 7 ∷ 0 ∷ 0 ∷ 0 ∷ 0 ∷ 0 ∷ 0 ∷ 0 ∷ 1 ∷ 0 ∷ 1 ∷ zeroes 16
    ++ (1 ∷ 2 ∷ zeroes 64 ++ (0 ∷ 9 ∷ 0 ∷ zeroes 32 ++ (1 ∷ zeroes 64)))

decode_signed-encode_signed_example :
    (bs : Bytes) × (encode_signed signed (3 ∷ []) ≡ ok (3 ∷ [] ++ bs))
    × (decode_signed bs ≡ ok signed)
decode_signed-encode_signed_example =
    decode_signed-encode_signed signed (3 ∷ []) sample-IsPackHeader refl

wire_decoded : decode_signed wire ≡ ok signed
unfolding decode_signed decode_signature read_slice read_range read_vec read_le decode_var_u64
    decode_pack_header decode_pack_ref decode_descriptor
wire_decoded = refl

encode_signed-decode_signed_example :
    (encode_signed signed [] ≡ ok wire) × IsPackHeader sample × IsSignature signed.signature
encode_signed-decode_signed_example =
    encode_signed-decode_signed wire signed (omega arith) wire_decoded

abbrev file_id : PackFileId
file_id = record { seqs = record { start = 0; end = 1 }; id = 11259375; generation = 0 }

abbrev descriptor : PackFileDescriptor
descriptor = record { topic = (97 ∷ []) ∷ []; peer_id = zeroes 32; id = file_id }

sample-IsSized : IsSized sample
unfolding fields_bytes pack_ref_bytes descriptor_bytes range_bytes encode_var_u64 to_le_bytes
sample-IsSized = (sample-IsPackHeader, omega arith)

descriptor-IsPackFile : IsPackFile descriptor
descriptor-IsPackFile = omega arith

-- A hash function that keeps its message.
abbrev plain_hash : Bytes → Bytes
plain_hash m = m

pack_sign_bytes_binds_example :
    ((sample ≡ sample) × (descriptor ≡ descriptor)) ⊎ Collision plain_hash
pack_sign_bytes_binds_example =
    pack_sign_bytes_binds plain_hash sample sample descriptor descriptor sample-IsSized
      sample-IsSized descriptor-IsPackFile descriptor-IsPackFile refl

abbrev key : SigningKey
key = record {
  sign = λ m. ok (Signature.p256 (zeroes 64));
  verifying_key = VerifyingKey.p256_key (zeroes 33);
}

abbrev all_verified : Verifiers
all_verified = record { ed25519_verify = λ k m s. ok tt; p256_verify = λ k m s. ok tt }

signature_accepted :
    (m : Bytes) (s : Signature)
    → key.sign m ≡ ok s
    → (verify_signature all_verified key.verifying_key m s ≡ ok tt) × IsSignature s
unfolding verify_signature
signature_accepted m (Signature.ed25519 t) e = cc
signature_accepted m (Signature.p256 t) e =
    let q : zeroes 64 ≡ t = ground arith in (refl, rw (← q) refl)

sample-signed : sign_pack plain_hash key sample descriptor ≡ ok signed
unfolding sign_pack encode_file_id write_range encode_pack_header write_vec write_each
    encode_pack_ref encode_descriptor
sample-signed = refl

verify_pack-sign_pack_example :
    (bs : Bytes) × (encode_signed signed [] ≡ ok bs)
    × (decode_signed bs ≡ ok signed)
    × (verify_pack plain_hash all_verified key.verifying_key signed descriptor ≡ ok tt)
verify_pack-sign_pack_example =
    verify_pack-sign_pack plain_hash all_verified key sample descriptor signed signature_accepted
      sample-IsPackHeader sample-signed

abbrev later : PackFileId
later = record { seqs = record { start = 0; end = 1 }; id = 11259375; generation = 2 }

later_kept : dedupe_pack_files (later ∷ file_id ∷ []) ≡ later ∷ []
unfolding dedupe_pack_files same_ref
later_kept = refl

dedupe_pack_files_lem_example :
    All (OneOf (file_id ∷ later ∷ [])) (dedupe_pack_files (file_id ∷ later ∷ []))
    × DistinctRefs (dedupe_pack_files (file_id ∷ later ∷ []))
    × All (λ f. Any (Covers f) (dedupe_pack_files (file_id ∷ later ∷ []))) (file_id ∷ later ∷ [])
dedupe_pack_files_lem_example = dedupe_pack_files_lem (file_id ∷ later ∷ [])

-- `0000-0001-0000000000abcdef-00`.
abbrev name : Bytes
name =
    48 ∷ 48 ∷ 48 ∷ 48 ∷ 45 ∷ 48 ∷ 48 ∷ 48 ∷ 49 ∷ 45 ∷ 48 ∷ 48 ∷ 48 ∷ 48 ∷ 48 ∷ 48 ∷ 48 ∷ 48 ∷ 48
    ∷ 48 ∷ 97 ∷ 98 ∷ 99 ∷ 100 ∷ 101 ∷ 102 ∷ 45 ∷ 48 ∷ 48 ∷ []

file_id_named : display file_id ≡ name
unfolding display
file_id_named = refl

from_str_lem_example :
    (from_str name ≡ ok file_id) ↔ ((display file_id ≡ name) × IsFileName file_id)
from_str_lem_example = from_str_lem name file_id

-- A remote that is a map from paths.
abbrev Map : Type 0
Map = Bytes → Option Bytes

abbrev put : Map → Bytes → Option Bytes → Map
put s p o q = if same_bytes q p then o else s q

put_same : (s : Map) (p : Bytes) (o : Option Bytes) → put s p o p ≡ o
put_same s p o = rw ((same_bytes_iff p p).1 refl) refl

put_other : (s : Map) (p q : Bytes) (o : Option Bytes) → q ≢ p → put s p o q ≡ s q
put_other s p q o ne = elim (Bool-cases (same_bytes q p)) [
  | inl e ↦ absurd (ne ((same_bytes_iff q p).0 e))
  | inr e ↦ rw e refl
]

header_entry : DirEntry
header_entry = record {
  file_name = name ++ (46 ∷ 117 ∷ 113 ∷ 112 ∷ 46 ∷ 109 ∷ 101 ∷ 116 ∷ 97 ∷ []);
  file_type = FileType.file;
}

abbrev map_remote : FileRemote Map
map_remote = record {
  get = λ s p. s p;
  list = λ s d. ok (header_entry ∷ []);
  read = λ s p. ok (s p);
  write = λ s p d. (ok tt, put s p (some d));
  delete = λ s p. (ok tt, put s p none);
  read_get = λ s p o e. ground arith;
  write_same = λ s p d e. put_same s p (some d);
  write_other = λ s p d q ne. put_other s p q (some d) ne;
  write_failed = λ s p d q x e. cc;
  delete_same = λ s p e. put_same s p none;
  delete_other = λ s p q ne. put_other s p q none ne;
  delete_failed = λ s p q x e. cc;
}

abbrev nothing : Map
nothing p = none

abbrev pack : PackData
pack = record { descriptor = descriptor; header = signed; body = 1 ∷ 2 ∷ 3 ∷ [] }

abbrev hex_text : Bytes → Bytes
hex_text b = b

nothing-Complete : Complete map_remote nothing
nothing-Complete b h = absurd h

abbrev ops : List StoreOp
ops = StoreOp.writes pack ∷ StoreOp.deletes descriptor ∷ StoreOp.writes pack ∷ []

run_ops-Complete_example : Complete map_remote (run_ops map_remote hex_text (zeroes 32) ops nothing)
run_ops-Complete_example =
    run_ops-Complete map_remote hex_text (zeroes 32) ops nothing nothing-Complete

list_packs_lem_example :
    (fs : List PackFileId) × (list_packs map_remote hex_text nothing [] [] ≡ ok fs)
    × (Any (λ g. g ≡ file_id) fs ↔ Any (IsPackEntry file_id) (header_entry ∷ []))
list_packs_lem_example =
    list_packs_lem map_remote hex_text nothing [] [] (header_entry ∷ []) file_id refl

written : Map
written = (write_pack map_remote hex_text (zeroes 32) pack nothing).1

pack_written : (write_pack map_remote hex_text (zeroes 32) pack nothing).0 ≡ ok tt
unfolding write_pack encode_signed write_files encode_file_id write_range encode_pack_header
    write_vec write_each encode_pack_ref encode_descriptor
pack_written = refl

header_read : read_header map_remote hex_text written descriptor ≡ ok (some signed)
unfolding written write_pack write_files stem display dir read_header decode_signed decode_signature
    read_slice read_range read_vec read_le decode_var_u64 decode_pack_header decode_pack_ref
    decode_descriptor encode_signature to_le_bytes encode_var_u64 encode_signed encode_file_id
    write_range encode_pack_header write_vec write_each encode_pack_ref encode_descriptor
header_read = refl

body_read : read_body map_remote hex_text written descriptor ≡ ok (some pack.body)
unfolding written write_pack write_files stem display dir read_body encode_signed encode_file_id
    write_range encode_pack_header write_vec write_each encode_pack_ref encode_descriptor
body_read = refl

read_header-write_pack_example : (some signed ≡ some signed) × (some pack.body ≡ some pack.body)
unfolding written
read_header-write_pack_example =
    read_header-write_pack map_remote hex_text (zeroes 32) pack nothing (some signed)
      (some pack.body) sample-IsPackHeader refl pack_written header_read body_read
