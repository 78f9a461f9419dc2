-- ===== src/Log/Join/Size.antt =====
-- A joined segment has as many entries as its chain hashes are apart.
use mathlib.Core.Path.{subst}
use ubiquisync.Prelude.{ℕ, ◌+◌, ◌^◌, ◌≡◌, refl, sym, ap, ◌∙◌, List, [], ◌∷◌, map, arith}
use ubiquisync.Prelude.{length, ltb, ok, >>=-elim, if-elim}
use ubiquisync.Prelude.{map_err, Option}
use ubiquisync.Codec.Inverse.{map_err_inv}
use ubiquisync.Crypto.{CipherInfo}
use ubiquisync.Crypto.EntryCipher.{Primitives, CipherKeyResolver, EntryCipher}
use ubiquisync.Log.Entry.{LogEntry, EntryBody, OpaqueLogEntry, PlaintextLogEntry, validate_entry}
use ubiquisync.Log.Hash.{ChainHash, LogHashContext, next_chain, add_one, hash_body}
use ubiquisync.Log.Cipher.{Cursor, to_opaque, to_plaintext, transform, encrypt_op, decrypt_op}
use ubiquisync.Log.Cipher.{opaque_loop, plaintext_loop, advance_cursor, SegmentCipherError}
use ubiquisync.Log.Cipher.Rounds.{Encrypted, opaque_loop-Round, advance_cursor-next_chain}
use ubiquisync.Log.Cipher.{
  entries_to_opaque, open_cursor, entries_to_plaintext, compute_next_plaintext, last_chain,
}
use ubiquisync.Log.Cipher.Rounds.{entries_to_opaque-opaque_loop, open_cursor-eq}
use ubiquisync.Log.Plaintext.{DecodedEntries}
use ubiquisync.Log.Join.{JoinSegmentsError, last_hash, without_signatures}
use ubiquisync.Log.Join.{join_entries}

abbrev pub entries_in : {T : Type 0} → List (LogEntry T) → ℕ
entries_in es = length (without_signatures es)

entries_in-cons :
    {T : Type 0} (e : LogEntry T) (es : List (LogEntry T))
    → entries_in (e ∷ es) ≡ entries_in (e ∷ []) + entries_in es
entries_in-cons (LogEntry.indexed_entry body) es = omega arith
entries_in-cons (LogEntry.signature s) es = omega arith

module _ (p : Primitives) where
  next_chain-size :
      (seed : LogHashContext) (e : OpaqueLogEntry) (ch : ChainHash) (c : Option CipherInfo)
      (s : ChainHash × Option CipherInfo)
      → next_chain p.sha256 seed e (ch, c) ≡ ok s
      → s.0.size ≡ ch.size + entries_in (e ∷ [])
  unfolding next_chain add_one
  next_chain-size seed (LogEntry.indexed_entry body) ch c s h =
      let r = hash_body p.sha256 seed body ch.size c in
      >>=-elim (add_one p.sha256 ch r.0 r.1) h λ ch' ec h₁.
        if-elim (ltb (ch.size + 1) (2 ^ 64)) ec
          (λ _ ec'.
            let grown : ch.size + 1 ≡ ch'.size = ground arith in
            let e : (ch', r.1) ≡ s = ground arith in ap (λ t. t.0.size) (sym e) ∙ sym grown)
          (λ _ ec'. cc)
  next_chain-size seed (LogEntry.signature x) ch c s h =
      let e : (ch, c) ≡ s = ground arith in ap (λ t. t.0.size) (sym e) ∙ omega arith

  to_opaque-entries_in :
      (cipher : Option EntryCipher) (ch : ChainHash) (e : PlaintextLogEntry) (e2 : OpaqueLogEntry)
      → to_opaque p e cipher ch ≡ ok e2
      → entries_in (e ∷ []) ≡ entries_in (e2 ∷ [])
  unfolding to_opaque transform
  to_opaque-entries_in cipher ch (LogEntry.indexed_entry (EntryBody.op e)) e2 h =
      >>=-elim (encrypt_op p cipher ch e) h λ o _ h₁.
        let same : LogEntry.indexed_entry (EntryBody.op o) ≡ e2 = ground arith in
        ap (λ x. entries_in (x ∷ [])) same
  to_opaque-entries_in cipher ch (LogEntry.indexed_entry (EntryBody.use_key ci)) e2 h =
      let same : LogEntry.indexed_entry (EntryBody.use_key ci) ≡ e2 = ground arith in
      ap (λ x. entries_in (x ∷ [])) same
  to_opaque-entries_in cipher ch (LogEntry.indexed_entry (EntryBody.expunged x)) e2 h =
      let same : LogEntry.indexed_entry (EntryBody.expunged x) ≡ e2 = ground arith in
      ap (λ x. entries_in (x ∷ [])) same
  to_opaque-entries_in cipher ch (LogEntry.signature s) e2 h =
      let same : LogEntry.signature s ≡ e2 = ground arith in ap (λ x. entries_in (x ∷ [])) same

  opaque_loop-size :
      (seed : LogHashContext) (resolver : CipherKeyResolver) (es : List PlaintextLogEntry)
      (at' : Cursor) (r : Encrypted)
      → opaque_loop p seed resolver es at' ≡ ok r
      → (last_hash at'.head_chain r.0).size ≡ at'.head_chain.size + entries_in es
  opaque_loop-size seed resolver [] at' r eq =
      let e : ([], at'.head_cipher) ≡ r = unfold opaque_loop in ground arith in
      ap (λ t. (last_hash at'.head_chain t.0).size) (sym e) ∙ omega arith
  opaque_loop-size seed resolver (e ∷ es) at' r eq =
      let (e2, at'', tail, enc, step, run, out_eq) =
        opaque_loop-Round p seed resolver e es at' r eq in
      let next = advance_cursor-next_chain p seed resolver e2 at' at'' step in
      let one = next_chain-size seed e2 at'.head_chain at'.head_cipher _ next in
      let kind = to_opaque-entries_in at'.entry_cipher at'.head_chain e e2 enc in
      let rest = opaque_loop-size seed resolver es at'' tail run in
      ap (λ t. (last_hash at'.head_chain t.0).size) (sym out_eq)
      ∙ omega (arith, one, kind, rest, entries_in-cons e es)

  to_plaintext-entries_in :
      (cipher : Option EntryCipher) (ch : ChainHash) (e : OpaqueLogEntry) (e2 : PlaintextLogEntry)
      → transform (decrypt_op p cipher ch) e ≡ ok e2
      → entries_in (e ∷ []) ≡ entries_in (e2 ∷ [])
  unfolding transform
  to_plaintext-entries_in cipher ch (LogEntry.indexed_entry (EntryBody.op e)) e2 h =
      >>=-elim (decrypt_op p cipher ch e) h λ o _ h₁.
        let same : LogEntry.indexed_entry (EntryBody.op o) ≡ e2 = ground arith in
        ap (λ x. entries_in (x ∷ [])) same
  to_plaintext-entries_in cipher ch (LogEntry.indexed_entry (EntryBody.use_key ci)) e2 h =
      let same : LogEntry.indexed_entry (EntryBody.use_key ci) ≡ e2 = ground arith in
      ap (λ x. entries_in (x ∷ [])) same
  to_plaintext-entries_in cipher ch (LogEntry.indexed_entry (EntryBody.expunged x)) e2 h =
      let same : LogEntry.indexed_entry (EntryBody.expunged x) ≡ e2 = ground arith in
      ap (λ x. entries_in (x ∷ [])) same
  to_plaintext-entries_in cipher ch (LogEntry.signature s) e2 h =
      let same : LogEntry.signature s ≡ e2 = ground arith in ap (λ x. entries_in (x ∷ [])) same

  plaintext_loop-size :
      (seed : LogHashContext) (resolver : CipherKeyResolver) (es : List OpaqueLogEntry)
      (at' : Cursor) (r : List (PlaintextLogEntry × ChainHash) × Option CipherInfo)
      → plaintext_loop p seed resolver es at' ≡ ok r
      → (last_hash at'.head_chain r.0).size ≡ at'.head_chain.size + entries_in (map (λ x. x.0) r.0)
  unfolding plaintext_loop to_plaintext
  plaintext_loop-size seed resolver [] at' r eq =
      let e : ([], at'.head_cipher) ≡ r = ground arith in
      subst
        (λ t.
          (last_hash at'.head_chain t.0).size
          ≡ at'.head_chain.size + entries_in (map (λ x. x.0) t.0))
        e (omega arith)
  plaintext_loop-size seed resolver (e ∷ es) at' r eq =
      >>=-elim (to_plaintext p e at'.entry_cipher at'.head_chain) eq λ e2 dec h₁.
        >>=-elim (advance_cursor p seed resolver e at') h₁ λ at'' step h₂.
          >>=-elim (plaintext_loop p seed resolver es at'') h₂ λ tail run h₃.
            >>=-elim (transform (decrypt_op p at'.entry_cipher at'.head_chain) e) dec
              λ e3 opened h₄.
                >>=-elim (map_err SegmentCipherError.validation (validate_entry e3)) h₄ λ u _ h₅.
                  let same : e3 ≡ e2 = ground arith in
                  let next = advance_cursor-next_chain p seed resolver e at' at'' step in
                  let one = next_chain-size seed e at'.head_chain at'.head_cipher _ next in
                  let kind =
                    to_plaintext-entries_in at'.entry_cipher at'.head_chain e e3 opened
                    ∙ ap (λ x. entries_in (x ∷ [])) same in
                  let rest = plaintext_loop-size seed resolver es at'' tail run in
                  let out : ((e2, at''.head_chain) ∷ tail.0, tail.1) ≡ r = ground arith in
                  subst
                    (λ t.
                      (last_hash at'.head_chain t.0).size
                      ≡ at'.head_chain.size + entries_in (map (λ x. x.0) t.0))
                    out (omega (arith, one, kind, rest, entries_in-cons e2 (map (λ x. x.0) tail.0)))

  last_hash-last_chain :
      (h : ChainHash) (es : List (OpaqueLogEntry × ChainHash)) → last_chain p h es ≡ last_hash h es
  last_hash-last_chain h [] = refl
  last_hash-last_chain h ((e, h') ∷ es) = last_hash-last_chain h' es

  -- A body adds as many entries as its chain hash grows by.
  pub join_entries-size :
      (d : DecodedEntries) (seed : LogHashContext) (cipher : Option CipherInfo) (ch : ChainHash)
      (resolver : CipherKeyResolver) (es : List PlaintextLogEntry) (ch' : ChainHash)
      (cipher' : Option CipherInfo)
      → join_entries p d seed cipher ch resolver ≡ ok (es, ch', cipher')
      → ch'.size ≡ ch.size + entries_in es
  unfolding join_entries entries_to_plaintext compute_next_plaintext
  join_entries-size (DecodedEntries.opaque items) seed cipher ch resolver es ch' cipher' h =
      let run = entries_to_plaintext p seed cipher ch resolver items in
      >>=-elim (map_err JoinSegmentsError.cipher_error run) h λ r er h₁.
        >>=-elim (open_cursor p seed resolver cipher ch)
          (map_err_inv JoinSegmentsError.cipher_error run er)
          λ at' first loop.
            let (chain, _) = open_cursor-eq p seed resolver cipher ch at' first in
            let size = plaintext_loop-size seed resolver items at' r loop in
            let out : (map (λ e. e.0) r.0 ≡ es) × (last_hash ch r.0 ≡ ch') = ground arith in
            rw (← out.0, ← out.1, ← chain) size
  join_entries-size (DecodedEntries.plaintext items) seed cipher ch resolver es ch' cipher' h =
      let run = compute_next_plaintext p seed cipher ch resolver items in
      >>=-elim (map_err JoinSegmentsError.cipher_error run) h λ r er h₁.
        >>=-elim (entries_to_opaque p seed cipher ch resolver items)
          (map_err_inv JoinSegmentsError.cipher_error run er)
          λ o eo h₂.
            let (at', chain, _, loop) =
              entries_to_opaque-opaque_loop p seed cipher ch resolver items o eo in
            let size = opaque_loop-size seed resolver items at' o loop in
            let out : (items ≡ es) × (r.0 ≡ ch') = ground arith in
            let ends : last_chain p ch o.0 ≡ r.0 = ground arith in
            rw (← out.0, ← out.1, ← ends, last_hash-last_chain ch o.0, ← chain) size
