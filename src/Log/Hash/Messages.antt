-- ===== src/Log/Hash/Messages.antt =====
-- The messages of the chain hash tell what went into them, so that equal hashes mean equal entries
-- or a collision of the hash function.
use ubiquisync.Prelude.{ℕ, ◌≡◌, ◌≢◌, ◌⊎◌, inl, inr, refl, sym, ap, ◌∙◌, [], ◌∷◌, ◌++◌, arith}
use ubiquisync.Prelude.{
  append_assoc, append-nil, length, length-append, Bytes, IsU64, same_bytes, same_bytes_iff,
  Bool-cases,
}
use ubiquisync.Prelude.{Option, none, some}
use ubiquisync.Codec.Varint.{encode_var_u64, decode_var_u64}
use ubiquisync.Codec.Varint.RoundTrip.{decode_var_u64-encode_var_u64}
use ubiquisync.Codec.Reader.{read_len_prefixed}
use ubiquisync.Codec.RoundTrip.{read_len_prefixed-bytes}
use ubiquisync.Crypto.{CipherInfo}
use ubiquisync.Crypto.Hash.{TaggedHashDomain, new_tagged_hasher}
use ubiquisync.Crypto.Hash.Domains.{append_split}
use ubiquisync.Log.Entry.{OpEntry}
use ubiquisync.Log.Hash.{
  LogId, log_id_hasher, new_context, update_cipher, chain_message, op_message,
}

-- Two messages with one hash.
abbrev pub Collision : (Bytes → Bytes) → Type 0
Collision sha256 = (x : Bytes) × (y : Bytes) × (x ≢ y) × (sha256 x ≡ sha256 y)

pub same_message :
    (sha256 : Bytes → Bytes) (x y : Bytes) → sha256 x ≡ sha256 y → (x ≡ y) ⊎ Collision sha256
same_message sha256 x y h = elim (Bool-cases (same_bytes x y)) [
  | inl e ↦ inl ((same_bytes_iff x y).0 e)
  | inr e ↦ inr (x, y, (λ p. let q = (same_bytes_iff x y).1 p in cc), h)
]

-- The suffix for a cipher, and that it tells the cipher.
abbrev suffix : Option CipherInfo → Bytes
suffix none = 0 ∷ []
suffix (some ci) = 1 ∷ ci.cipher_suite ∷ ci.fingerprint

update_cipher-suffix : (m : Bytes) (c : Option CipherInfo) → update_cipher m c ≡ m ++ suffix c
unfolding update_cipher
update_cipher-suffix m none = refl
update_cipher-suffix m (some ci) = simp append_assoc

suffix_injective : (c d : Option CipherInfo) → suffix c ≡ suffix d → c ≡ d
suffix_injective none none h = refl
suffix_injective none (some d) h = cc
suffix_injective (some c) none h = cc
suffix_injective (some c) (some d) h =
    let parts : (c.cipher_suite ≡ d.cipher_suite) × (c.fingerprint ≡ d.fingerprint) =
      ground arith in
    λ i. some (record { cipher_suite = parts.0 i; fingerprint = parts.1 i })

-- The message of a link of the chain tells the hash before it, the entry's hash and the cipher.
pub chain_message_injective :
    (h k e f : Bytes) (c d : Option CipherInfo)
    → length h ≡ 32
    → length k ≡ 32
    → length e ≡ 32
    → length f ≡ 32
    → chain_message h e c ≡ chain_message k f d
    → (h ≡ k) × (e ≡ f) × (c ≡ d)
unfolding chain_message
chain_message_injective h k e f c d lh lk le lf eq =
    let tag = new_tagged_hasher TaggedHashDomain.chain_hash in
    let whole =
      sym (update_cipher-suffix ((tag ++ h) ++ e) c)
      ∙ eq
      ∙ update_cipher-suffix ((tag ++ k) ++ f) d in
    let lens : length (tag ++ h) ≡ length (tag ++ k) =
      omega (arith, length-append tag h, length-append tag k) in
    let lens' : length ((tag ++ h) ++ e) ≡ length ((tag ++ k) ++ f) =
      omega (arith, length-append (tag ++ h) e, length-append (tag ++ k) f) in
    let (front, back) = append_split ((tag ++ h) ++ e) ((tag ++ k) ++ f) _ _ lens' whole in
    let (front', es) = append_split (tag ++ h) (tag ++ k) e f lens front in
    let (tags, hs) = append_split tag tag h k refl front' in (hs, es, suffix_injective c d back)

-- What follows the log's hasher in the message of an op.
abbrev op_suffix : OpEntry Bytes → ℕ → Bytes
op_suffix e i =
    encode_var_u64 i
    ++ (encode_var_u64 (length e.timestamp)
        ++ (e.timestamp
            ++ (encode_var_u64 (length e.server_attested_user_id)
                ++ (e.server_attested_user_id ++ (encode_var_u64 (length e.op) ++ (e.op ++ []))))))

op_message-suffix :
    (id : LogId) (e : OpEntry Bytes) (i : ℕ)
    → op_message (new_context id) e i ≡ log_id_hasher TaggedHashDomain.log_op id ++ op_suffix e i
unfolding op_message
op_message-suffix id e i = simp (append_assoc, append-nil)

-- The slices of an op fit the memory.
abbrev pub FitsOp : OpEntry Bytes → Type 0
FitsOp e =
    IsU64 (length e.timestamp) × IsU64 (length e.server_attested_user_id) × IsU64 (length e.op)

-- Reading both of two equal buffers by their length prefix.
same_slice :
    (a b x y : Bytes)
    → IsU64 (length a)
    → IsU64 (length b)
    → encode_var_u64 (length a) ++ (a ++ x) ≡ encode_var_u64 (length b) ++ (b ++ y)
    → (a ≡ b) × (x ≡ y)
same_slice a b x y ha hb e =
    let same =
      sym (read_len_prefixed-bytes a x ha)
      ∙ ap read_len_prefixed e
      ∙ read_len_prefixed-bytes b y hb in
    ground (arith, same)

same_varint :
    (i j : ℕ) (x y : Bytes)
    → IsU64 i
    → IsU64 j
    → encode_var_u64 i ++ x ≡ encode_var_u64 j ++ y
    → (i ≡ j) × (x ≡ y)
same_varint i j x y hi hj e =
    let same =
      sym (decode_var_u64-encode_var_u64 i x hi)
      ∙ ap decode_var_u64 e
      ∙ decode_var_u64-encode_var_u64 j y hj in
    ground (arith, same)

op_suffix_injective :
    (e f : OpEntry Bytes) (i j : ℕ)
    → IsU64 i
    → IsU64 j
    → FitsOp e
    → FitsOp f
    → op_suffix e i ≡ op_suffix f j
    → (e ≡ f) × (i ≡ j)
op_suffix_injective e f i j hi hj (et, eu, eo) (ft, fu, fo) h =
    let (same_i, h₁) = same_varint i j _ _ hi hj h in
    let (same_t, h₂) = same_slice e.timestamp f.timestamp _ _ et ft h₁ in
    let (same_u, h₃) =
      same_slice e.server_attested_user_id f.server_attested_user_id _ _ eu fu h₂ in
    let (same_o, h₄) = same_slice e.op f.op [] [] eo fo h₃ in
    (
      (λ k. record { timestamp = same_t k; server_attested_user_id = same_u k; op = same_o k }),
      same_i,
    )

-- A log id as the source has it.
abbrev pub IsLogId : LogId → Type 0
IsLogId id = (length id.peer_id ≡ 32) × (length id.container_id ≡ 16)

log_id_hasher_injective :
    (tag : TaggedHashDomain) (a b : LogId) (x y : Bytes)
    → IsLogId a
    → IsLogId b
    → log_id_hasher tag a ++ x ≡ log_id_hasher tag b ++ y
    → (a ≡ b) × (x ≡ y)
unfolding log_id_hasher
log_id_hasher_injective tag a b x y (ap', ac) (bp, bc) h =
    let t = new_tagged_hasher tag in
    let lens : length (t ++ a.peer_id) ≡ length (t ++ b.peer_id) =
      omega (arith, length-append t a.peer_id, length-append t b.peer_id) in
    let lens' : length ((t ++ a.peer_id) ++ a.container_id)
        ≡ length ((t ++ b.peer_id) ++ b.container_id) =
      omega (
        arith,
        length-append (t ++ a.peer_id) a.container_id,
        length-append (t ++ b.peer_id) b.container_id,
      ) in
    let (front, back) = append_split _ _ x y lens' h in
    let (front', cs) = append_split _ _ a.container_id b.container_id lens front in
    let (tags, ps) = append_split t t a.peer_id b.peer_id refl front' in
    ((λ k. record { peer_id = ps k; container_id = cs k }), back)

-- Two op entries that have one hash, each in its log at its index, are the same op at the same
-- index of the same log, unless they show a collision of the hash function. The ids have their
-- lengths, and the indices and the lengths of the slices fit 64 bits.
pub hash_op_binds :
    (sha256 : Bytes → Bytes) (a b : LogId) (e f : OpEntry Bytes) (i j : ℕ)
    → IsLogId a
    → IsLogId b
    → IsU64 i
    → IsU64 j
    → FitsOp e
    → FitsOp f
    → sha256 (op_message (new_context a) e i) ≡ sha256 (op_message (new_context b) f j)
    → ((a ≡ b) × (e ≡ f) × (i ≡ j)) ⊎ Collision sha256
hash_op_binds sha256 a b e f i j ha hb hi hj he hf h = elim (same_message sha256 _ _ h) [
  | inr c ↦ inr c
  | inl m ↦
      let whole = sym (op_message-suffix a e i) ∙ m ∙ op_message-suffix b f j in
      let (ids, tails) = log_id_hasher_injective TaggedHashDomain.log_op a b _ _ ha hb whole in
      let (es, is) = op_suffix_injective e f i j hi hj he hf tails in inl (ids, es, is)
]
