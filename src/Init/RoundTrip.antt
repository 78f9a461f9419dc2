-- ===== src/Init/RoundTrip.antt =====
-- Commitments are read back as they were written, and what follows them is tolerated or refused.
use ubiquisync.Prelude.{◌≡◌, refl, sym, ap, [], ◌∷◌, ◌++◌, append_assoc, append-nil}
use ubiquisync.Prelude.{length, Bytes, IsU64, ◌==◌, not, ◌&&◌, Bool, true, false}
use ubiquisync.Prelude.{if◌then◌else◌, Option, none, some, ok, err}
use ubiquisync.Codec.Writer.{Writer}
use ubiquisync.Codec.Reader.{read_byte}
use ubiquisync.Codec.RoundTrip.{read_slice-append}
use ubiquisync.Log.Entry.RoundTrip.{len_bytes, read_len_prefixed-len_bytes}
use ubiquisync.Crypto.VerifyingKey.{VerifyingKey, IsVerifyingKey, encode_key, decode_key}
use ubiquisync.Init.{
  EncapsulationKey, Hash256Suite, InitCommitment, InitDecodeError, flags_of, flag_server,
}
use ubiquisync.Init.{flag_workspace_join, flag_reserved, is_some, major, minor, write_join}
use ubiquisync.Init.{encode_hash_suite, decode_hash_suite, encode_encapsulation}
use ubiquisync.Init.{decode_encapsulation, encode_commitment, read_join, decode_body}
use ubiquisync.Init.{decode_commitment}

abbrev pub IsEncapsulationKey : EncapsulationKey → Type 0
IsEncapsulationKey (EncapsulationKey.x25519 key) = length key ≡ 32
IsEncapsulationKey (EncapsulationKey.p256 key) = length key ≡ 33

abbrev pub IsJoin : Option Bytes → Type 0
IsJoin none = Unit {0}
IsJoin (some peer) = length peer ≡ 32

-- Arrays have their lengths, and the endorsement fits the memory.
abbrev pub IsCommitment : InitCommitment → Type 0
IsCommitment c =
    IsVerifyingKey c.sig_verify_key
    × IsEncapsulationKey c.encrypt_wrap_key
    × IsJoin c.workspace_join
    × IsU64 (length c.endorsement)

unfoldable key_bytes : VerifyingKey → Bytes
key_bytes (VerifyingKey.ed25519_key key) = 0 ∷ key
key_bytes (VerifyingKey.p256_key key) = 1 ∷ key

unfoldable encapsulation_bytes : EncapsulationKey → Bytes
encapsulation_bytes (EncapsulationKey.x25519 key) = 0 ∷ key
encapsulation_bytes (EncapsulationKey.p256 key) = 1 ∷ key

abbrev join_bytes : Option Bytes → Bytes
join_bytes none = []
join_bytes (some peer) = peer

unfoldable fields_bytes : InitCommitment → Bytes
unfolding key_bytes encapsulation_bytes
fields_bytes c =
    key_bytes c.sig_verify_key
    ++ (encapsulation_bytes c.encrypt_wrap_key
        ++ (join_bytes c.workspace_join ++ len_bytes c.endorsement))

-- The wire form.
unfoldable pub commitment_bytes : InitCommitment → Bytes
unfolding fields_bytes
commitment_bytes c = c.version ∷ 0 ∷ flags_of c.server (is_some c.workspace_join) ∷ fields_bytes c

encode_key-bytes : (k : VerifyingKey) (w : Writer) → encode_key k w ≡ w ++ key_bytes k
unfolding encode_key key_bytes
encode_key-bytes (VerifyingKey.ed25519_key key) w = append_assoc w (0 ∷ []) key
encode_key-bytes (VerifyingKey.p256_key key) w = append_assoc w (1 ∷ []) key

decode_key-bytes :
    (k : VerifyingKey) (rest : Bytes)
    → IsVerifyingKey k
    → decode_key (key_bytes k ++ rest) ≡ ok (k, rest)
unfolding decode_key key_bytes read_byte
decode_key-bytes (VerifyingKey.ed25519_key key) rest h = rw (read_slice-append 32 key rest h) refl
decode_key-bytes (VerifyingKey.p256_key key) rest h = rw (read_slice-append 33 key rest h) refl

encode_encapsulation-bytes :
    (k : EncapsulationKey) (w : Writer) → encode_encapsulation k w ≡ w ++ encapsulation_bytes k
unfolding encode_encapsulation encapsulation_bytes
encode_encapsulation-bytes (EncapsulationKey.x25519 key) w = append_assoc w (0 ∷ []) key
encode_encapsulation-bytes (EncapsulationKey.p256 key) w = append_assoc w (1 ∷ []) key

decode_encapsulation-bytes :
    (k : EncapsulationKey) (rest : Bytes)
    → IsEncapsulationKey k
    → decode_encapsulation (encapsulation_bytes k ++ rest) ≡ ok (k, rest)
unfolding decode_encapsulation encapsulation_bytes read_byte
decode_encapsulation-bytes (EncapsulationKey.x25519 key) rest h =
    rw (read_slice-append 32 key rest h) refl
decode_encapsulation-bytes (EncapsulationKey.p256 key) rest h =
    rw (read_slice-append 33 key rest h) refl

write_join-bytes : (o : Option Bytes) (w : Writer) → write_join o w ≡ w ++ join_bytes o
write_join-bytes none w = rw append-nil
write_join-bytes (some peer) w = refl

read_join-bytes :
    (o : Option Bytes) (rest : Bytes)
    → IsJoin o
    → read_join (is_some o) (join_bytes o ++ rest) ≡ ok (o, rest)
unfolding read_join
read_join-bytes none rest h = refl
read_join-bytes (some peer) rest h = rw (read_slice-append 32 peer rest h) refl

flags-read :
    (s j : Bool)
    → (flag_reserved (flags_of s j) ≡ 0)
      × (flag_server (flags_of s j) ≡ s)
      × (flag_workspace_join (flags_of s j) ≡ j)
flags-read true true = (refl, refl, refl)
flags-read true false = (refl, refl, refl)
flags-read false true = (refl, refl, refl)
flags-read false false = (refl, refl, refl)

only_suite : (h : Hash256Suite) → h ≡ Hash256Suite.sha256
only_suite Hash256Suite.sha256 = refl

encode_hash_suite-bytes : (h : Hash256Suite) (w : Writer) → encode_hash_suite h w ≡ w ++ (0 ∷ [])
unfolding encode_hash_suite
encode_hash_suite-bytes Hash256Suite.sha256 w = refl

encode_commitment-bytes :
    (c : InitCommitment) (w : Writer) → encode_commitment c w ≡ w ++ commitment_bytes c
unfolding encode_commitment commitment_bytes fields_bytes len_bytes
encode_commitment-bytes c w = simp (
  encode_hash_suite-bytes, write_join-bytes, encode_encapsulation-bytes, encode_key-bytes,
  append_assoc,
)

decode_body-bytes :
    (c : InitCommitment) (rest : Bytes)
    → IsCommitment c
    → decode_body c.version
        (0 ∷ flags_of c.server (is_some c.workspace_join) ∷ (fields_bytes c ++ rest))
      ≡ ok (c, rest)
unfolding decode_body decode_hash_suite read_byte fields_bytes
decode_body-bytes c rest (hk, he, hj, hn) =
    let (reserved, server, join) = flags-read c.server (is_some c.workspace_join) in
    let tail = join_bytes c.workspace_join ++ len_bytes c.endorsement in
    rw
      (
        append_assoc (key_bytes c.sig_verify_key) (encapsulation_bytes c.encrypt_wrap_key ++ tail)
            rest,
        append_assoc (encapsulation_bytes c.encrypt_wrap_key) tail rest,
        append_assoc (join_bytes c.workspace_join) (len_bytes c.endorsement) rest,
        reserved,
        decode_key-bytes c.sig_verify_key
            (encapsulation_bytes c.encrypt_wrap_key
              ++ (join_bytes c.workspace_join ++ (len_bytes c.endorsement ++ rest)))
            hk,
        decode_encapsulation-bytes c.encrypt_wrap_key
            (join_bytes c.workspace_join ++ (len_bytes c.endorsement ++ rest)) he,
        join,
        read_join-bytes c.workspace_join (len_bytes c.endorsement ++ rest) hj,
        read_len_prefixed-len_bytes c.endorsement rest hn,
        server,
      )
      (ap (λ s. ok (record c { hash_suite = s }, rest)) (sym (only_suite c.hash_suite)))

-- A commitment of major version 0, whose arrays have their lengths and whose endorsement fits the
-- memory, is decoded from its encoding; if more bytes follow, it is still decoded if its minor version
-- is not 0, and is refused with their number otherwise.
pub decode_commitment-encode_commitment :
    (c : InitCommitment) (extra : Bytes)
    → IsCommitment c
    → major c.version ≡ 0
    → decode_commitment (encode_commitment c [] ++ extra) ≡ (
        if not (length extra == 0) && minor c.version == 0
        then err (InitDecodeError.unknown_init_data c.version (length extra))
        else ok c)
unfolding decode_commitment commitment_bytes read_byte
decode_commitment-encode_commitment c extra h v =
    rw (encode_commitment-bytes c [], v, decode_body-bytes c extra h) refl
