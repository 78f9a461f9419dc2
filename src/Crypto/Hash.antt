-- ===== src/Crypto/Hash.antt =====
-- crates/ubiquisync-core/src/crypto/hash.rs: tagged hashers. A `Hasher` is the message that it was
-- fed; SHA-256 is third-party code, and hashes a message fed in parts as it hashes the whole.
pub mod Domains
use ubiquisync.Prelude.{ℕ, zero, suc, ◌-◌, List, [], ◌∷◌, ◌++◌, length, Bytes}
use ubiquisync.Codec.Varint.{encode_var_u64}

pub data TaggedHashDomain : Type 0 where
  chain_seed chain_hash peer_init log_sign log_op log_use_key pack_body pack_header :
      TaggedHashDomain

-- `ubq1h/` and the name of the variant, in ASCII.
unfoldable pub domain_str : TaggedHashDomain → Bytes
domain_str TaggedHashDomain.chain_seed =
    117 ∷ 98 ∷ 113 ∷ 49 ∷ 104 ∷ 47 ∷ 67 ∷ 104 ∷ 97 ∷ 105 ∷ 110 ∷ 83 ∷ 101 ∷ 101 ∷ 100 ∷ []
domain_str TaggedHashDomain.chain_hash =
    117 ∷ 98 ∷ 113 ∷ 49 ∷ 104 ∷ 47 ∷ 67 ∷ 104 ∷ 97 ∷ 105 ∷ 110 ∷ 72 ∷ 97 ∷ 115 ∷ 104 ∷ []
domain_str TaggedHashDomain.peer_init =
    117 ∷ 98 ∷ 113 ∷ 49 ∷ 104 ∷ 47 ∷ 80 ∷ 101 ∷ 101 ∷ 114 ∷ 73 ∷ 110 ∷ 105 ∷ 116 ∷ []
domain_str TaggedHashDomain.log_sign =
    117 ∷ 98 ∷ 113 ∷ 49 ∷ 104 ∷ 47 ∷ 76 ∷ 111 ∷ 103 ∷ 83 ∷ 105 ∷ 103 ∷ 110 ∷ []
domain_str TaggedHashDomain.log_op = 117 ∷ 98 ∷ 113 ∷ 49 ∷ 104 ∷ 47 ∷ 76 ∷ 111 ∷ 103 ∷ 79 ∷ 112 ∷ []
domain_str TaggedHashDomain.log_use_key =
    117 ∷ 98 ∷ 113 ∷ 49 ∷ 104 ∷ 47 ∷ 76 ∷ 111 ∷ 103 ∷ 85 ∷ 115 ∷ 101 ∷ 75 ∷ 101 ∷ 121 ∷ []
domain_str TaggedHashDomain.pack_body =
    117 ∷ 98 ∷ 113 ∷ 49 ∷ 104 ∷ 47 ∷ 80 ∷ 97 ∷ 99 ∷ 107 ∷ 66 ∷ 111 ∷ 100 ∷ 121 ∷ []
domain_str TaggedHashDomain.pack_header =
    117 ∷ 98 ∷ 113 ∷ 49 ∷ 104 ∷ 47 ∷ 80 ∷ 97 ∷ 99 ∷ 107 ∷ 72 ∷ 101 ∷ 97 ∷ 100 ∷ 101 ∷ 114 ∷ []

abbrev pub Hasher : Type 0
Hasher = Bytes

abbrev pub zeroes : ℕ → Bytes
zeroes zero = []
zeroes (suc n) = 0 ∷ zeroes n

abbrev pub update : Hasher → Bytes → Hasher
update hasher data' = hasher ++ data'

abbrev pub update_varint : Hasher → ℕ → Hasher
update_varint hasher value = update hasher (encode_var_u64 value)

abbrev pub update_len_prefixed : Hasher → Bytes → Hasher
update_len_prefixed hasher data' = update (update_varint hasher (length data')) data'

-- The domain, filled up with zeroes to 16 bytes.
unfoldable pub new_tagged_hasher : TaggedHashDomain → Hasher
unfolding domain_str
new_tagged_hasher domain = domain_str domain ++ zeroes (16 - length (domain_str domain))

abbrev pub finalize_hash : (Bytes → Bytes) → Hasher → Bytes
finalize_hash sha256 hasher = sha256 hasher

abbrev pub tagged_hash : (Bytes → Bytes) → TaggedHashDomain → Bytes → Bytes
tagged_hash sha256 domain data' = finalize_hash sha256 (update (new_tagged_hasher domain) data')
