-- ===== src/Log/Cipher/RoundTrip.antt =====
-- Decrypting undoes encrypting, entry by entry and under the same chain hashes.
use ubiquisync.Prelude.{ℕ, ◌≡◌, refl, sym, ap, ◌∙◌, List, [], ◌∷◌, map, arith, Bytes, length, All}
use ubiquisync.Prelude.{ok, >>=-eq-ok, Option, none, some}
use ubiquisync.Prelude.{if◌then◌else◌}
use ubiquisync.Codec.Writer.{to_le_bytes}
use ubiquisync.Codec.Reader.{is_empty}
use ubiquisync.Codec.RoundTrip.{length-to_le_bytes, from_le_bytes-to_le_bytes}
use ubiquisync.Hlc.{Timestamp, IsTimestamp, try_from_u64}
use ubiquisync.Crypto.{CipherInfo}
use ubiquisync.Crypto.EntryCipher.{Primitives, PrimitivesOk, CipherKeyResolver, EntryCipher}
use ubiquisync.Crypto.EntryCipher.{SlotCipher, slot_cipher, cipher_slot, add_context}
use ubiquisync.Log.Entry.{LogEntry, EntryBody, OpEntry, OpaqueLogEntry, PlaintextLogEntry}
use ubiquisync.Log.Entry.{validate_entry}
use ubiquisync.Log.Hash.{ChainHash, LogHashContext}
use ubiquisync.Log.Cipher.{Cursor, transform, parse_timestamp}
use ubiquisync.Log.Cipher.{encrypt_op, decrypt_op, to_opaque, to_plaintext, advance_cursor}
use ubiquisync.Log.Cipher.{
  opaque_loop, plaintext_loop, open_cursor, entries_to_opaque, entries_to_plaintext,
}
use ubiquisync.Log.Cipher.Rounds.{Encrypted, opaque_loop-Round}
use mathlib.Core.Path.{subst}

-- An entry of the source has a timestamp that fits an i64.
abbrev pub StampOk : PlaintextLogEntry → Type 0
StampOk (LogEntry.indexed_entry (EntryBody.op e)) = IsTimestamp e.timestamp
StampOk (LogEntry.indexed_entry (EntryBody.use_key ci)) = Unit {0}
StampOk (LogEntry.indexed_entry (EntryBody.expunged hash)) = Unit {0}
StampOk (LogEntry.signature s) = Unit {0}

parse_timestamp-to_le_bytes :
    (t : Timestamp) → IsTimestamp t → parse_timestamp (to_le_bytes 8 t.value) ≡ ok t
unfolding parse_timestamp try_from_u64
parse_timestamp-to_le_bytes t h =
    rw (length-to_le_bytes 8 t.value, from_le_bytes-to_le_bytes 8 t.value (omega arith))
      (ground arith)

module _ (p : Primitives) (laws : PrimitivesOk p) where
  cipher_slot_twice :
      (slot : SlotCipher) (bytes : Bytes) → cipher_slot p slot (cipher_slot p slot bytes) ≡ bytes
  unfolding cipher_slot
  cipher_slot_twice slot bytes = laws.chacha20_twice _ bytes

  -- The user id of an op: empty as it was, or encrypted to a slice that is not empty.
  abbrev slot_or_empty : SlotCipher → Bytes → Bytes
  slot_or_empty slot bytes = if is_empty bytes then [] else cipher_slot p slot bytes

  not_empty :
      (b : ℕ) (bytes buf : Bytes)
      → length buf ≡ length (b ∷ bytes)
      → (c : ℕ) × (rest : Bytes) × (buf ≡ c ∷ rest)
  not_empty b bytes [] h = absurd (omega arith)
  not_empty b bytes (c ∷ rest) h = (c, rest, refl)

  slot_or_empty_twice :
      (slot : SlotCipher) (bytes : Bytes) → slot_or_empty slot (slot_or_empty slot bytes) ≡ bytes
  slot_or_empty_twice slot [] = refl
  slot_or_empty_twice slot (b ∷ bytes) =
      let keeps : length (cipher_slot p slot (b ∷ bytes)) ≡ length (b ∷ bytes) =
        unfold cipher_slot in laws.chacha20_length _ (b ∷ bytes) in
      let (c, rest, e) = not_empty b bytes (cipher_slot p slot (b ∷ bytes)) keeps in
      rw e (sym (ap (cipher_slot p slot) e) ∙ cipher_slot_twice slot (b ∷ bytes))

  decrypt_op-encrypt_op :
      (cipher : Option EntryCipher) (chain : ChainHash) (e : OpEntry Timestamp) (e2 : OpEntry Bytes)
      → IsTimestamp e.timestamp
      → encrypt_op p cipher chain e ≡ ok e2
      → decrypt_op p cipher chain e2 ≡ ok e
  unfolding encrypt_op decrypt_op
  decrypt_op-encrypt_op none chain e e2 h eq =
      let out : e2 ≡ record {
        timestamp = to_le_bytes 8 e.timestamp.value;
        server_attested_user_id = e.server_attested_user_id;
        op = e.op;
      } =
        ground arith in
      rw (out, parse_timestamp-to_le_bytes e.timestamp h)
  decrypt_op-encrypt_op (some cipher) chain e e2 h eq =
      let slot = slot_cipher cipher chain in
      let stamp = to_le_bytes 8 e.timestamp.value in
      let slot' = add_context slot (cipher_slot p slot stamp) in
      let user = slot_or_empty slot' e.server_attested_user_id in
      let slot'' = add_context slot' user in
      let out : e2 ≡ record {
        timestamp = cipher_slot p slot stamp;
        server_attested_user_id = user;
        op = cipher_slot p slot'' e.op;
      } =
        ground arith in
      rw (
        out,
        cipher_slot_twice slot stamp,
        parse_timestamp-to_le_bytes e.timestamp h,
        slot_or_empty_twice slot' e.server_attested_user_id,
        cipher_slot_twice slot'' e.op,
      )

  to_plaintext-to_opaque :
      (cipher : Option EntryCipher) (chain : ChainHash) (e : PlaintextLogEntry)
      (e2 : OpaqueLogEntry)
      → StampOk e
      → to_opaque p e cipher chain ≡ ok e2
      → to_plaintext p e2 cipher chain ≡ ok e
  unfolding to_opaque to_plaintext transform validate_entry
  to_plaintext-to_opaque cipher chain (LogEntry.indexed_entry (EntryBody.op e)) e2 h eq =
      let (x, out, run) = >>=-eq-ok (encrypt_op p cipher chain e) eq in
      let same : e2 ≡ LogEntry.indexed_entry (EntryBody.op x) = ground arith in
      rw (same, decrypt_op-encrypt_op cipher chain e x h run)
  to_plaintext-to_opaque cipher chain (LogEntry.indexed_entry (EntryBody.use_key ci)) e2 h eq =
      ground arith
  to_plaintext-to_opaque cipher chain (LogEntry.indexed_entry (EntryBody.expunged x)) e2 h eq =
      ground arith
  to_plaintext-to_opaque cipher chain (LogEntry.signature s) e2 h eq = ground arith

  -- What `plaintext_loop` returns for what `opaque_loop` did.
  abbrev pub Restored :
      List PlaintextLogEntry
      → List (OpaqueLogEntry × ChainHash)
      → List (PlaintextLogEntry × ChainHash)
      → Type 0
  Restored es res out = (map (λ x. x.0) out ≡ es) × (map (λ x. x.1) out ≡ map (λ x. x.1) res)

  -- Decrypting what is in `r` gives `es` back.
  abbrev Decrypts :
      LogHashContext → CipherKeyResolver → List PlaintextLogEntry → Cursor → Encrypted → Type 0
  Decrypts seed resolver es at' r =
      (out : List (PlaintextLogEntry × ChainHash)) × (plaintext_loop p seed resolver
          (map (λ x. x.0) r.0) at'
        ≡ ok (out, r.1))
      × Restored es r.0 out

  plaintext_round :
      (seed : LogHashContext) (resolver : CipherKeyResolver) (e : PlaintextLogEntry)
      (e2 : OpaqueLogEntry) (es : List OpaqueLogEntry) (at' at'' : Cursor)
      (out : List (PlaintextLogEntry × ChainHash)) (cipher : Option CipherInfo)
      → to_plaintext p e2 at'.entry_cipher at'.head_chain ≡ ok e
      → advance_cursor p seed resolver e2 at' ≡ ok at''
      → plaintext_loop p seed resolver es at'' ≡ ok (out, cipher)
      → plaintext_loop p seed resolver (e2 ∷ es) at' ≡ ok ((e, at''.head_chain) ∷ out, cipher)
  unfolding plaintext_loop
  plaintext_round seed resolver e e2 es at' at'' out cipher dec step run = rw (dec, step, run)

  plaintext_loop-opaque_loop :
      (seed : LogHashContext) (resolver : CipherKeyResolver) (es : List PlaintextLogEntry)
      (at' : Cursor) (r : Encrypted)
      → All StampOk es
      → opaque_loop p seed resolver es at' ≡ ok r
      → Decrypts seed resolver es at' r
  plaintext_loop-opaque_loop seed resolver [] at' r h eq =
      let e : ([], at'.head_cipher) ≡ r = unfold opaque_loop in ground arith in
      subst (Decrypts seed resolver [] at') e ([], unfold plaintext_loop in refl, (refl, refl))
  plaintext_loop-opaque_loop seed resolver (e ∷ es) at' r (h, hs) eq =
      let (e2, at'', tail, enc, step, run, out_eq) =
        opaque_loop-Round p seed resolver e es at' r eq in
      let (out, dec, (same, chains)) =
        plaintext_loop-opaque_loop seed resolver es at'' tail hs run in
      let first = to_plaintext-to_opaque at'.entry_cipher at'.head_chain e e2 h enc in
      subst (Decrypts seed resolver (e ∷ es) at') out_eq (
        (e, at''.head_chain) ∷ out,
        plaintext_round seed resolver e e2 (map (λ x. x.0) tail.0) at' at'' out tail.1 first step
            dec,
        (ap (λ l. e ∷ l) same, ap (λ l. at''.head_chain ∷ l) chains),
      )

  -- Whenever a log whose timestamps fit an i64 was encrypted, decrypting what came out from the same chain and cipher with the
  -- same keys succeeds: it gives every entry back, with the chain hashes and the final cipher of the
  -- encryption. The stream cipher is taken to undo itself and to keep lengths.
  pub entries_to_plaintext-entries_to_opaque :
      (seed : LogHashContext) (head_cipher : Option CipherInfo) (head_chain : ChainHash)
      (resolver : CipherKeyResolver) (es : List PlaintextLogEntry)
      (res : List (OpaqueLogEntry × ChainHash)) (cipher : Option CipherInfo)
      → All StampOk es
      → entries_to_opaque p seed head_cipher head_chain resolver es ≡ ok (res, cipher)
      → (out : List (PlaintextLogEntry × ChainHash)) × (entries_to_plaintext p seed head_cipher
            head_chain resolver
            (map (λ x. x.0) res)
          ≡ ok (out, cipher))
        × Restored es res out
  unfolding entries_to_opaque entries_to_plaintext
  entries_to_plaintext-entries_to_opaque seed head_cipher head_chain resolver es res cipher hs eq =
      let (at', run, first) = >>=-eq-ok (open_cursor p seed resolver head_cipher head_chain) eq in
      let (out, dec, same) = plaintext_loop-opaque_loop seed resolver es at' (res, cipher) hs run in
      (out, rw first dec, same)
