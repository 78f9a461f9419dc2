-- ===== src/Log/Decoded/Plain.antt =====
-- The entries in plaintext of an opaque segment and of the plaintext segment of the same log.
use ubiquisync.Prelude.{◌≡◌, refl, sym, ap, ◌∙◌, List, [], ◌∷◌, map, All, arith, ok}
use ubiquisync.Prelude.{>>=-elim, Option}
use ubiquisync.Crypto.{CipherInfo}
use ubiquisync.Crypto.EntryCipher.{Primitives, PrimitivesOk, CipherKeyResolver, EntryCipher}
use ubiquisync.Log.Entry.{LogEntry, EntryBody, OpaqueLogEntry, PlaintextLogEntry}
use ubiquisync.Log.Hash.{ChainHash, LogHashContext, next_chain}
use ubiquisync.Log.Cipher.{Cursor, to_opaque, transform, encrypt_op, opaque_loop, entries_to_opaque}
use ubiquisync.Log.Cipher.Rounds.{
  Encrypted, entries_to_opaque-opaque_loop, opaque_loop-Round, advance_cursor-next_chain,
}
use ubiquisync.Log.Cipher.RoundTrip.{StampOk, entries_to_plaintext-entries_to_opaque}
use ubiquisync.Log.Plaintext.{DecodedEntries, end_cipher}
use ubiquisync.Log.Decoded.{entries_in_plaintext}
use ubiquisync.Log.Decoded.Agree.{next_chain-cipher, end_cipher-cons}

end_cipher-step :
    {T : Type 0} (c : Option CipherInfo) (e : LogEntry T) (es : List (LogEntry T))
    → end_cipher c (e ∷ es) ≡ end_cipher (end_cipher c (e ∷ [])) es
unfolding end_cipher
end_cipher-step c (LogEntry.indexed_entry (EntryBody.op e)) es = refl
end_cipher-step c (LogEntry.indexed_entry (EntryBody.use_key ci)) es = refl
end_cipher-step c (LogEntry.indexed_entry (EntryBody.expunged x)) es = refl
end_cipher-step c (LogEntry.signature s) es = refl

module _ (p : Primitives) where
  -- Encryption keeps the entries that set the cipher.
  to_opaque-end_cipher :
      (cipher : Option EntryCipher) (ch : ChainHash) (c : Option CipherInfo) (e : PlaintextLogEntry)
      (e2 : OpaqueLogEntry)
      → to_opaque p e cipher ch ≡ ok e2
      → end_cipher c (e ∷ []) ≡ end_cipher c (e2 ∷ [])
  unfolding to_opaque transform end_cipher
  to_opaque-end_cipher cipher ch c (LogEntry.indexed_entry (EntryBody.op e)) e2 h =
      >>=-elim (encrypt_op p cipher ch e) h λ o _ h₁.
        let same : LogEntry.indexed_entry (EntryBody.op o) ≡ e2 = ground arith in
        ap (λ x. end_cipher c (x ∷ [])) same
  to_opaque-end_cipher cipher ch c (LogEntry.indexed_entry (EntryBody.use_key ci)) e2 h =
      let same : LogEntry.indexed_entry (EntryBody.use_key ci) ≡ e2 = ground arith in
      ap (λ x. end_cipher c (x ∷ [])) same
  to_opaque-end_cipher cipher ch c (LogEntry.indexed_entry (EntryBody.expunged x)) e2 h =
      let same : LogEntry.indexed_entry (EntryBody.expunged x) ≡ e2 = ground arith in
      ap (λ x. end_cipher c (x ∷ [])) same
  to_opaque-end_cipher cipher ch c (LogEntry.signature s) e2 h =
      let same : LogEntry.signature s ≡ e2 = ground arith in ap (λ x. end_cipher c (x ∷ [])) same

  next_chain-end_cipher :
      (seed : LogHashContext) (e : OpaqueLogEntry) (ch : ChainHash) (c : Option CipherInfo)
      (s : ChainHash × Option CipherInfo)
      → next_chain p.sha256 seed e (ch, c) ≡ ok s
      → end_cipher c (e ∷ []) ≡ s.1
  unfolding end_cipher
  next_chain-end_cipher seed (LogEntry.indexed_entry body) ch c s h =
      end_cipher-cons p seed body ch.size c [] ∙ sym (next_chain-cipher p seed body ch c s h)
  next_chain-end_cipher seed (LogEntry.signature x) ch c s h =
      let e : (ch, c) ≡ s = unfold next_chain in ground arith in ap (λ t. t.1) e

  opaque_loop-end_cipher :
      (seed : LogHashContext) (resolver : CipherKeyResolver) (es : List PlaintextLogEntry)
      (at' : Cursor) (r : Encrypted)
      → opaque_loop p seed resolver es at' ≡ ok r
      → end_cipher at'.head_cipher es ≡ r.1
  opaque_loop-end_cipher seed resolver [] at' r eq =
      let e : ([], at'.head_cipher) ≡ r = unfold opaque_loop in ground arith in
      (unfold end_cipher in ap (λ t. t.1) e)
  opaque_loop-end_cipher seed resolver (e ∷ es) at' r eq =
      let (e2, at'', tail, enc, step, run, out_eq) =
        opaque_loop-Round p seed resolver e es at' r eq in
      let next = advance_cursor-next_chain p seed resolver e2 at' at'' step in
      let one : end_cipher at'.head_cipher (e ∷ []) ≡ at''.head_cipher =
        to_opaque-end_cipher at'.entry_cipher at'.head_chain at'.head_cipher e e2 enc
        ∙ next_chain-end_cipher seed e2 at'.head_chain at'.head_cipher _ next in
      end_cipher-step at'.head_cipher e es
      ∙ ap (λ c. end_cipher c es) one
      ∙ opaque_loop-end_cipher seed resolver es at'' tail run
      ∙ ap (λ t. t.1) out_eq

  -- Wherever a log whose timestamps fit an i64 was encrypted, the segment of the encrypted entries
  -- gives, with the same keys, the plaintext entries and the head cipher that the segment of the
  -- plaintext entries gives. The stream cipher is taken to undo itself and to keep lengths.
  pub entries_in_plaintext_agree :
      PrimitivesOk p
      → (seed : LogHashContext) (head_cipher : Option CipherInfo) (head_chain : ChainHash)
        (resolver : CipherKeyResolver) (es : List PlaintextLogEntry)
        (res : List (OpaqueLogEntry × ChainHash)) (cipher : Option CipherInfo)
      → All StampOk es
      → entries_to_opaque p seed head_cipher head_chain resolver es ≡ ok (res, cipher)
      → entries_in_plaintext p
          (DecodedEntries.opaque (map (λ x. x.0) res))
          seed
          head_cipher
          head_chain
          resolver
        ≡ entries_in_plaintext p (DecodedEntries.plaintext es) seed head_cipher head_chain resolver
  unfolding entries_in_plaintext
  entries_in_plaintext_agree law seed head_cipher head_chain resolver es res cipher stamps eq =
      let (at', chain, ciph, run) =
        entries_to_opaque-opaque_loop p seed head_cipher head_chain resolver es (res, cipher) eq in
      let (out, dec, same) =
        entries_to_plaintext-entries_to_opaque p law seed head_cipher head_chain resolver es res
          cipher stamps eq in
      let end : end_cipher head_cipher es ≡ cipher =
        ap (λ c. end_cipher c es) (sym ciph)
        ∙ opaque_loop-end_cipher seed resolver es at' (res, cipher) run in
      rw (dec, end, same.0) refl
