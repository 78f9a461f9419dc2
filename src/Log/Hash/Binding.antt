-- ===== src/Log/Hash/Binding.antt =====
-- The chain hash binds the log: two logs that reach one chain hash have the same links.
use ubiquisync.Prelude.{ℕ, ◌+◌, ◌≡◌, ◌⊎◌, inl, inr, refl, sym, ◌∙◌, List, [], ◌∷◌, arith}
use ubiquisync.Prelude.{length, All, Bytes, ok, >>=-eq-ok, Option}
use ubiquisync.Crypto.{CipherInfo}
use ubiquisync.Log.Entry.{LogEntry, EntryBody, OpaqueLogEntry}
use ubiquisync.Log.Hash.{ChainHash, LogHashContext, chain_message, add_one, hash_body, next_chain}
use ubiquisync.Log.Hash.{compute_next_opaque}
use ubiquisync.Log.Hash.Messages.{Collision, same_message, chain_message_injective}

-- What one entry adds to a chain: its hash and the cipher that is active with it.
abbrev pub Link : Type 0
Link = Bytes × Option CipherInfo

-- Arrays have their lengths: the hash that an expunged entry left has 32 bytes.
abbrev pub HashOk : OpaqueLogEntry → Type 0
HashOk (LogEntry.indexed_entry (EntryBody.op e)) = Unit {0}
HashOk (LogEntry.indexed_entry (EntryBody.use_key ci)) = Unit {0}
HashOk (LogEntry.indexed_entry (EntryBody.expunged hash)) = length hash ≡ 32
HashOk (LogEntry.signature s) = Unit {0}

module _ (sha256 : Bytes → Bytes) where
  -- The links of a log from an index on, under the cipher that is active there. Signatures have
  -- none.
  unfoldable pub links : LogHashContext → List OpaqueLogEntry → ℕ → Option CipherInfo → List Link
  links seed [] n cipher = []
  links seed (LogEntry.indexed_entry body ∷ es) n cipher =
      let link = hash_body sha256 seed body n cipher in link ∷ links seed es (n + 1) link.1
  links seed (LogEntry.signature s ∷ es) n cipher = links seed es n cipher

  -- The hash of a chain after some links.
  chain_of : Bytes → List Link → Bytes
  chain_of hash [] = hash
  chain_of hash ((entry_hash, cipher) ∷ ls) =
      chain_of (sha256 (chain_message hash entry_hash cipher)) ls

  -- The chain with one link more.
  abbrev linked : ChainHash → Link → ChainHash
  linked c (entry_hash, cipher) = record {
    hash = sha256 (chain_message c.hash entry_hash cipher);
    size = c.size + 1;
  }

  next_chain-linked :
      (seed : LogHashContext) (body : EntryBody Bytes) (c : ChainHash) (cipher : Option CipherInfo)
      (s : ChainHash × Option CipherInfo)
      → next_chain sha256 seed (LogEntry.indexed_entry body) (c, cipher) ≡ ok s
      → let link = hash_body sha256 seed body c.size cipher in s ≡ (linked c link, link.1)
  unfolding next_chain add_one
  next_chain-linked seed body c cipher s h = ground arith

  -- A successful run of `compute_next_opaque` is the fold of the links.
  compute_next_opaque-links :
      (seed : LogHashContext) (es : List OpaqueLogEntry) (c c' : ChainHash)
      (cipher cipher' : Option CipherInfo)
      → compute_next_opaque sha256 seed es (c, cipher) ≡ ok (c', cipher')
      → (c'.hash ≡ chain_of c.hash (links seed es c.size cipher))
        × (c'.size ≡ c.size + length (links seed es c.size cipher))
  unfolding compute_next_opaque links chain_of next_chain
  compute_next_opaque-links seed [] c c' cipher cipher' h = ground arith
  compute_next_opaque-links seed (LogEntry.signature s ∷ es) c c' cipher cipher' h =
      compute_next_opaque-links seed es c c' cipher cipher' h
  compute_next_opaque-links seed (LogEntry.indexed_entry body ∷ es) c c' cipher cipher' h =
      let link = hash_body sha256 seed body c.size cipher in
      let (s, rest, one) = >>=-eq-ok _ h in
      let e : s ≡ (linked c link, link.1) = next_chain-linked seed body c cipher s one in
      let (ih, ih') =
        compute_next_opaque-links seed es (linked c link) c' link.1 cipher' (rw e at rest) in
      (ih, omega (arith, ih'))

  chain_of_binds :
      (sha_length : (m : Bytes) → length (sha256 m) ≡ 32) (ls ms : List Link) (h k : Bytes)
      → length ls ≡ length ms
      → length h ≡ 32
      → length k ≡ 32
      → All (λ (l : Link). length l.0 ≡ 32) ls
      → All (λ (l : Link). length l.0 ≡ 32) ms
      → chain_of h ls ≡ chain_of k ms
      → ((h ≡ k) × (ls ≡ ms)) ⊎ Collision sha256
  unfolding chain_of
  chain_of_binds sha_length [] [] h k n lh lk hl hm e = inl (e, refl)
  chain_of_binds sha_length [] (m ∷ ms) h k n lh lk hl hm e = absurd (omega arith)
  chain_of_binds sha_length (l ∷ ls) [] h k n lh lk hl hm e = absurd (omega arith)
  chain_of_binds sha_length ((a, c) ∷ ls) ((b, d) ∷ ms) h k n lh lk (la, hl) (lb, hm) e =
      elim (chain_of_binds sha_length ls ms _ _ (omega arith) (sha_length _) (sha_length _) hl hm
        e) [
          | inr x ↦ inr x
          | inl (heads, tails) ↦ elim (same_message sha256 _ _ heads) [
            | inr x ↦ inr x
            | inl m ↦
                let (hs, as', cs) = chain_message_injective h k a b c d lh lk la lb m in
                inl (hs, λ i. (as' i, cs i) ∷ tails i)
          ]
        ]

  length-links :
      (sha_length : (m : Bytes) → length (sha256 m) ≡ 32) (seed : LogHashContext)
      (es : List OpaqueLogEntry) (n : ℕ) (cipher : Option CipherInfo)
      → All HashOk es
      → All (λ (l : Link). length l.0 ≡ 32) (links seed es n cipher)
  unfolding links hash_body
  length-links sha_length seed [] n cipher h = tt
  length-links sha_length seed (LogEntry.indexed_entry (EntryBody.op e) ∷ es) n cipher (h, hs) =
      (sha_length _, length-links sha_length seed es (n + 1) cipher hs)
  length-links sha_length seed (LogEntry.indexed_entry (EntryBody.use_key ci) ∷ es) n cipher
        (h, hs) =
      (sha_length _, length-links sha_length seed es (n + 1) _ hs)
  length-links sha_length seed (LogEntry.indexed_entry (EntryBody.expunged x) ∷ es) n cipher
        (h, hs) =
      (h, length-links sha_length seed es (n + 1) cipher hs)
  length-links sha_length seed (LogEntry.signature s ∷ es) n cipher (h, hs) =
      length-links sha_length seed es n cipher hs

  -- If two logs, continued from chains of one size, reach the same chain hash, then the chains that
  -- they continued had one hash, and the logs have the same entry hashes and active ciphers, entry
  -- by entry and whatever signatures stand between them; or they show a collision of the hash
  -- function, which is taken to return 32 bytes. The hashes of the
  -- two chains and of expunged entries have 32 bytes.
  pub chain_hash_binds :
      (sha_length : (m : Bytes) → length (sha256 m) ≡ 32) (seed seed' : LogHashContext)
      (es fs : List OpaqueLogEntry) (c d r : ChainHash)
      (cipher cipher' out out' : Option CipherInfo)
      → length c.hash ≡ 32
      → length d.hash ≡ 32
      → c.size ≡ d.size
      → All HashOk es
      → All HashOk fs
      → compute_next_opaque sha256 seed es (c, cipher) ≡ ok (r, out)
      → compute_next_opaque sha256 seed' fs (d, cipher') ≡ ok (r, out')
      → ((c.hash ≡ d.hash) × (links seed es c.size cipher ≡ links seed' fs d.size cipher'))
        ⊎ Collision sha256
  chain_hash_binds sha_length seed seed' es fs c d r cipher cipher' out out' lc ld sizes hes hfs run
        run' =
      let (hash, size) = compute_next_opaque-links seed es c r cipher out run in
      let (hash', size') = compute_next_opaque-links seed' fs d r cipher' out' run' in
      chain_of_binds sha_length (links seed es c.size cipher) (links seed' fs d.size cipher') c.hash
        d.hash (omega arith) lc ld (length-links sha_length seed es c.size cipher hes)
        (length-links sha_length seed' fs d.size cipher' hfs) (sym hash ∙ hash')
