-- ===== src/Log/Decoded/Agree.antt =====
-- An opaque segment and the plaintext segment of the same log are one: they verify to the same head,
-- and have the same entries in plaintext.
use ubiquisync.Prelude.{ℕ, ◌≡◌, refl, sym, ap, ◌∙◌, List, [], ◌∷◌, map, arith, Result, ok, err}
use ubiquisync.Prelude.{Bytes, ◌>>=◌, >>=-elim, map_err, Option}
use ubiquisync.Codec.Inverse.{map_err_inv}
use ubiquisync.Crypto.{CipherInfo}
use ubiquisync.Crypto.EntryCipher.{Primitives, CipherKeyResolver}
use ubiquisync.Crypto.VerifyingKey.{VerifyingKey, Verifiers}
use ubiquisync.Log.Entry.{LogEntry, EntryBody, OpaqueLogEntry, PlaintextLogEntry}
use ubiquisync.Log.Hash.{ChainHash, LogHashContext, next_chain, add_one}
use ubiquisync.Log.Hash.{hash_body}
use ubiquisync.Log.Cipher.{entries_to_opaque}
use ubiquisync.Log.Verify.{LogVerifyError, check_signature, verify_opaque}
use ubiquisync.Log.Verify.Agree.{verify_plaintext-verify_opaque}
use ubiquisync.Log.Segment.{SegmentHeader}
use ubiquisync.Log.Plaintext.{DecodedEntries, end_cipher}
use ubiquisync.Log.Decoded.{SegmentVerifyError, verify_entries}

-- Setting the cipher twice is setting it once.
end_cipher-end_cipher :
    {T : Type 0} (c d : Option CipherInfo) (es : List (LogEntry T))
    → end_cipher d es ≡ c
    → end_cipher c es ≡ c
unfolding end_cipher
end_cipher-end_cipher c d [] h = refl
end_cipher-end_cipher c d (LogEntry.indexed_entry (EntryBody.op e) ∷ es) h =
    end_cipher-end_cipher c d es h
end_cipher-end_cipher c d (LogEntry.indexed_entry (EntryBody.use_key ci) ∷ es) h = h
end_cipher-end_cipher c d (LogEntry.indexed_entry (EntryBody.expunged x) ∷ es) h =
    end_cipher-end_cipher c d es h
end_cipher-end_cipher c d (LogEntry.signature s ∷ es) h = end_cipher-end_cipher c d es h

module _ (p : Primitives) where
  pub next_chain-cipher :
      (seed : LogHashContext) (body : EntryBody Bytes) (ch : ChainHash) (c : Option CipherInfo)
      (s : ChainHash × Option CipherInfo)
      → next_chain p.sha256 seed (LogEntry.indexed_entry body) (ch, c) ≡ ok s
      → s.1 ≡ (hash_body p.sha256 seed body ch.size c).1
  unfolding next_chain
  next_chain-cipher seed body ch c s h =
      let r = hash_body p.sha256 seed body ch.size c in
      >>=-elim (add_one p.sha256 ch r.0 r.1) h
        λ ch' _ h₁. let e : (ch', r.1) ≡ s = ground arith in ap (λ t. t.1) (sym e)

  pub end_cipher-cons :
      (seed : LogHashContext) (body : EntryBody Bytes) (n : ℕ) (c : Option CipherInfo)
      (es : List OpaqueLogEntry)
      → end_cipher c (LogEntry.indexed_entry body ∷ es)
        ≡ end_cipher (hash_body p.sha256 seed body n c).1 es
  unfolding end_cipher hash_body
  end_cipher-cons seed (EntryBody.op e) n c es = refl
  end_cipher-cons seed (EntryBody.use_key ci) n c es = refl
  end_cipher-cons seed (EntryBody.expunged x) n c es = refl

  module _ (v : Verifiers) (key : VerifyingKey) where
    -- The cipher that verification leaves is already that of the second loop.
    verify_opaque-end_cipher :
        (seed : LogHashContext) (es : List OpaqueLogEntry) (ch : ChainHash) (c : Option CipherInfo)
        (r : ChainHash × Option CipherInfo)
        → verify_opaque p v key seed es (ch, c) ≡ ok r
        → end_cipher c es ≡ r.1
    unfolding verify_opaque end_cipher
    verify_opaque-end_cipher seed [] ch c r h =
        let e : (ch, c) ≡ r = ground arith in ap (λ t. t.1) e
    verify_opaque-end_cipher seed (LogEntry.signature s ∷ es) ch c r h =
        >>=-elim (check_signature p v key seed ch (LogEntry.signature s)) h
          λ u _ h₁. verify_opaque-end_cipher seed es ch c r h₁
    verify_opaque-end_cipher seed (LogEntry.indexed_entry body ∷ es) ch c r h =
        let next = next_chain p.sha256 seed (LogEntry.indexed_entry body) (ch, c) in
        >>=-elim (map_err LogVerifyError.chain_hash next) h λ s es' h₁.
          end_cipher-cons seed body ch.size c es
          ∙ ap (λ d. end_cipher d es)
              (sym (
                next_chain-cipher seed body ch c s
                  (map_err_inv LogVerifyError.chain_hash next es')))
          ∙ verify_opaque-end_cipher seed es s.0 s.1 r h₁

    -- What the opaque case of `verify_entries` makes of the result of its verification.
    second_loop :
        (es : List OpaqueLogEntry) (start : Option CipherInfo)
        (m : Result LogVerifyError (ChainHash × Option CipherInfo))
        → ((r : ChainHash × Option CipherInfo) → m ≡ ok r → end_cipher start es ≡ r.1)
        → (map_err SegmentVerifyError.verify m >>= λ r. ok (r.0, end_cipher r.1 es))
          ≡ map_err SegmentVerifyError.verify m
    second_loop es start (err x) h = refl
    second_loop es start (ok r) h =
        ap (λ c. ok (r.0, c)) (end_cipher-end_cipher r.1 start es (h r refl))

    -- Wherever the entries of a plaintext log can be encrypted, the segment of the plaintext entries
    -- and that of the encrypted ones, under one header, verify to the same chain hash and the same
    -- cipher, or to the same error.
    pub verify_entries_agree :
        (seed : LogHashContext) (header : SegmentHeader) (resolver : CipherKeyResolver)
        (es : List PlaintextLogEntry) (res : List (OpaqueLogEntry × ChainHash))
        (cipher : Option CipherInfo)
        → entries_to_opaque p seed header.start_cipher header.prev_chain resolver es
          ≡ ok (res, cipher)
        → verify_entries p v key (DecodedEntries.plaintext es) seed header resolver
          ≡ verify_entries p v key (DecodedEntries.opaque (map (λ x. x.0) res)) seed header resolver
    unfolding verify_entries
    verify_entries_agree seed header resolver es res cipher h =
        let items = map (λ x. x.0) res in
        let start = header.start_cipher in
        ap (map_err SegmentVerifyError.verify) (
          verify_plaintext-verify_opaque p v key seed start header.prev_chain resolver es res cipher
            h)
        ∙ sym (
            second_loop items start (verify_opaque p v key seed items (header.prev_chain, start))
              (verify_opaque-end_cipher seed items header.prev_chain start))
