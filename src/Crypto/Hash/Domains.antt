-- ===== src/Crypto/Hash/Domains.antt =====
-- The domains of the tagged hashes are apart: what is hashed in one is never hashed in another.
use ubiquisync.Prelude.{ℕ, ◌+◌, ◌≡◌, refl, sym, ap, ◌∙◌, [], ◌∷◌, ◌++◌, length, Bytes}
use ubiquisync.Prelude.{◌==◌, if◌then◌else◌, arith}
use ubiquisync.Codec.Reader.{read_slice}
use ubiquisync.Codec.RoundTrip.{read_slice-append}
use ubiquisync.Crypto.Hash.{TaggedHashDomain, domain_str, new_tagged_hasher, update}

abbrev sum : Bytes → ℕ
sum [] = 0
sum (b ∷ bs) = b + sum bs

-- The bytes of each tag have a sum of their own.
abbrev domain_of_sum : ℕ → TaggedHashDomain
domain_of_sum s =
    if s == 1396
    then TaggedHashDomain.chain_seed
    else if s == 1399
    then TaggedHashDomain.chain_hash
    else if s == 1328
    then TaggedHashDomain.peer_init
    else if s == 1219
    then TaggedHashDomain.log_sign
    else if s == 1009
    then TaggedHashDomain.log_op
    else if s == 1416
    then TaggedHashDomain.log_use_key
    else if s == 1309
    then TaggedHashDomain.pack_body
    else TaggedHashDomain.pack_header

domain_of_sum-new_tagged_hasher :
    (d : TaggedHashDomain) → domain_of_sum (sum (new_tagged_hasher d)) ≡ d
unfolding new_tagged_hasher domain_str
domain_of_sum-new_tagged_hasher TaggedHashDomain.chain_seed = refl
domain_of_sum-new_tagged_hasher TaggedHashDomain.chain_hash = refl
domain_of_sum-new_tagged_hasher TaggedHashDomain.peer_init = refl
domain_of_sum-new_tagged_hasher TaggedHashDomain.log_sign = refl
domain_of_sum-new_tagged_hasher TaggedHashDomain.log_op = refl
domain_of_sum-new_tagged_hasher TaggedHashDomain.log_use_key = refl
domain_of_sum-new_tagged_hasher TaggedHashDomain.pack_body = refl
domain_of_sum-new_tagged_hasher TaggedHashDomain.pack_header = refl

pub length-new_tagged_hasher : (d : TaggedHashDomain) → length (new_tagged_hasher d) ≡ 16
unfolding new_tagged_hasher domain_str
length-new_tagged_hasher TaggedHashDomain.chain_seed = refl
length-new_tagged_hasher TaggedHashDomain.chain_hash = refl
length-new_tagged_hasher TaggedHashDomain.peer_init = refl
length-new_tagged_hasher TaggedHashDomain.log_sign = refl
length-new_tagged_hasher TaggedHashDomain.log_op = refl
length-new_tagged_hasher TaggedHashDomain.log_use_key = refl
length-new_tagged_hasher TaggedHashDomain.pack_body = refl
length-new_tagged_hasher TaggedHashDomain.pack_header = refl

-- Two byte slices of one length in front of others are told from them.
pub append_split : (a b x y : Bytes) → length a ≡ length b → a ++ x ≡ b ++ y → (a ≡ b) × (x ≡ y)
append_split a b x y h e =
    let left = read_slice-append (length b) a x h in
    let right = read_slice-append (length b) b y refl in
    let same = sym left ∙ ap (read_slice (length b)) e ∙ right in ground (arith, same)

-- Messages that start two tagged hashers with data are the same only for one domain and the same
-- data.
pub new_tagged_hasher_injective :
    (d e : TaggedHashDomain) (x y : Bytes)
    → update (new_tagged_hasher d) x ≡ update (new_tagged_hasher e) y
    → (d ≡ e) × (x ≡ y)
new_tagged_hasher_injective d e x y h =
    let (tags, rest) =
      append_split (new_tagged_hasher d) (new_tagged_hasher e) x y
        (length-new_tagged_hasher d ∙ sym (length-new_tagged_hasher e)) h in
    (
      sym (domain_of_sum-new_tagged_hasher d)
          ∙ ap (λ t. domain_of_sum (sum t)) tags
          ∙ domain_of_sum-new_tagged_hasher e,
      rest,
    )
