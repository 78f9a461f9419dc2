-- ===== src/Log/Verify/Agree.antt =====
-- A plaintext log is treated as its encryption is, by the chain hash and by verification.
use ubiquisync.Prelude.{
  ◌≡◌, refl, sym, ap, ◌∙◌, List, [], ◌∷◌, map, arith, Result, ok, err, ◌>>=◌, Option,
}
use ubiquisync.Crypto.{CipherInfo}
use ubiquisync.Crypto.EntryCipher.{Primitives, CipherKeyResolver}
use ubiquisync.Crypto.VerifyingKey.{VerifyingKey, Verifiers}
use ubiquisync.Log.Entry.{LogEntry, OpaqueLogEntry, PlaintextLogEntry}
use ubiquisync.Log.Hash.{ChainHash, LogHashContext, next_chain, compute_next_opaque}
use ubiquisync.Log.Cipher.{Cursor, opaque_loop, entries_to_opaque}
use ubiquisync.Log.Cipher.{last_chain, compute_next_plaintext}
use ubiquisync.Log.Cipher.Rounds.{
  Encrypted, entries_to_opaque-opaque_loop, opaque_loop-Round, advance_cursor-next_chain,
}
use ubiquisync.Log.Verify.{check_signature, verify_opaque, verify_loop, verify_plaintext}
use mathlib.Core.Path.{subst}

module _ (p : Primitives) where
  abbrev Chained : LogHashContext → Cursor → Encrypted → Type 0
  Chained seed at' r =
      compute_next_opaque p.sha256 seed (map (λ x. x.0) r.0) (at'.head_chain, at'.head_cipher)
      ≡ ok (last_chain p at'.head_chain r.0, r.1)

  chained_entry :
      (seed : LogHashContext) (e2 : OpaqueLogEntry) (es : List OpaqueLogEntry)
      (s s' : ChainHash × Option CipherInfo)
      → next_chain p.sha256 seed e2 s ≡ ok s'
      → compute_next_opaque p.sha256 seed (e2 ∷ es) s ≡ compute_next_opaque p.sha256 seed es s'
  unfolding compute_next_opaque
  chained_entry seed e2 es s s' h = rw h

  opaque_loop-Chained :
      (seed : LogHashContext) (resolver : CipherKeyResolver) (es : List PlaintextLogEntry)
      (at' : Cursor) (r : Encrypted)
      → opaque_loop p seed resolver es at' ≡ ok r
      → Chained seed at' r
  opaque_loop-Chained seed resolver [] at' r eq =
      let e : ([], at'.head_cipher) ≡ r = unfold opaque_loop in ground arith in
      subst (Chained seed at') e (unfold compute_next_opaque in refl)
  opaque_loop-Chained seed resolver (e ∷ es) at' r eq =
      let (e2, at'', tail, enc, step, run, out_eq) =
        opaque_loop-Round p seed resolver e es at' r eq in
      let next = advance_cursor-next_chain p seed resolver e2 at' at'' step in
      subst (Chained seed at') out_eq (
        chained_entry seed e2 (map (λ x. x.0) tail.0) _ _ next
        ∙ opaque_loop-Chained seed resolver es at'' tail run)

  -- Wherever the entries of a plaintext log can be encrypted, its next chain hash is the one that
  -- `compute_next_opaque` gives for the encrypted entries, with the same active cipher.
  pub compute_next_plaintext-compute_next_opaque :
      (seed : LogHashContext) (head_cipher : Option CipherInfo) (head_chain : ChainHash)
      (resolver : CipherKeyResolver) (es : List PlaintextLogEntry)
      (res : List (OpaqueLogEntry × ChainHash)) (cipher : Option CipherInfo)
      → entries_to_opaque p seed head_cipher head_chain resolver es ≡ ok (res, cipher)
      → (c : ChainHash × Option CipherInfo) × (compute_next_plaintext p seed head_cipher head_chain
            resolver es
          ≡ ok c)
        × (compute_next_opaque p.sha256 seed (map (λ x. x.0) res) (head_chain, head_cipher) ≡ ok c)
  compute_next_plaintext-compute_next_opaque seed head_cipher head_chain resolver es res cipher eq =
      let (at', chain, ciph, run) =
        entries_to_opaque-opaque_loop p seed head_cipher head_chain resolver es (res, cipher) eq in
      let all = opaque_loop-Chained seed resolver es at' (res, cipher) run in
      (
        (last_chain p head_chain res, cipher),
        unfold compute_next_plaintext in rw eq,
        rw (chain, ciph) at all,
      )

module _ (p : Primitives) (v : Verifiers) (key : VerifyingKey) where
  abbrev Checked : LogHashContext → Cursor → Encrypted → Type 0
  Checked seed at' r =
      verify_opaque p v key seed (map (λ x. x.0) r.0) (at'.head_chain, at'.head_cipher)
      ≡ (verify_loop p v key seed r.0 at'.head_chain >>= λ ch. ok (ch, r.1))

  -- One entry, whose chain is what follows it.
  checked_entry :
      (seed : LogHashContext) (e2 : OpaqueLogEntry) (es : List OpaqueLogEntry) (ch ch' : ChainHash)
      (c c' : Option CipherInfo)
      → next_chain p.sha256 seed e2 (ch, c) ≡ ok (ch', c')
      → verify_opaque p v key seed (e2 ∷ es) (ch, c)
        ≡ (check_signature p v key seed ch' e2 >>= λ u. verify_opaque p v key seed es (ch', c'))
  unfolding verify_opaque
  checked_entry seed (LogEntry.indexed_entry body) es ch ch' c c' h = rw h
  checked_entry seed (LogEntry.signature s) es ch ch' c c' h =
      let (e, f) : (ch ≡ ch') × (c ≡ c') = unfold next_chain in ground arith in rw (e, f)

  >>=-assoc :
      {E A B C : Type 0} (m : Result E A) (f : A → Result E B) (g : B → Result E C)
      → (m >>= λ a. f a >>= g) ≡ ((m >>= f) >>= g)
  >>=-assoc (ok a) f g = refl
  >>=-assoc (err e) f g = refl

  opaque_loop-Checked :
      (seed : LogHashContext) (resolver : CipherKeyResolver) (es : List PlaintextLogEntry)
      (at' : Cursor) (r : Encrypted)
      → opaque_loop p seed resolver es at' ≡ ok r
      → Checked seed at' r
  opaque_loop-Checked seed resolver [] at' r eq =
      let e : ([], at'.head_cipher) ≡ r = unfold opaque_loop in ground arith in
      subst (Checked seed at') e (unfold verify_opaque verify_loop in refl)
  opaque_loop-Checked seed resolver (e ∷ es) at' r eq =
      let (e2, at'', tail, enc, step, run, out_eq) =
        opaque_loop-Round p seed resolver e es at' r eq in
      let next = advance_cursor-next_chain p seed resolver e2 at' at'' step in
      let check = check_signature p v key seed at''.head_chain e2 in
      subst (Checked seed at') out_eq (
        checked_entry seed e2 (map (λ x. x.0) tail.0) _ _ _ _ next
        ∙ ap (λ x. check >>= λ u. x) (opaque_loop-Checked seed resolver es at'' tail run)
        ∙ (unfold verify_loop in
            >>=-assoc check (λ u. verify_loop p v key seed tail.0 at''.head_chain)
              (λ ch. ok (ch, tail.1))))

  -- Wherever the entries of a plaintext log can be encrypted, verifying it gives what verifying the
  -- encrypted entries gives from the same chain and cipher: the same chain hash and active cipher,
  -- or the same error.
  pub verify_plaintext-verify_opaque :
      (seed : LogHashContext) (head_cipher : Option CipherInfo) (head_chain : ChainHash)
      (resolver : CipherKeyResolver) (es : List PlaintextLogEntry)
      (res : List (OpaqueLogEntry × ChainHash)) (cipher : Option CipherInfo)
      → entries_to_opaque p seed head_cipher head_chain resolver es ≡ ok (res, cipher)
      → verify_plaintext p v key seed head_cipher head_chain resolver es
        ≡ verify_opaque p v key seed (map (λ x. x.0) res) (head_chain, head_cipher)
  verify_plaintext-verify_opaque seed head_cipher head_chain resolver es res cipher eq =
      let (at', chain, ciph, run) =
        entries_to_opaque-opaque_loop p seed head_cipher head_chain resolver es (res, cipher) eq in
      let all = opaque_loop-Checked seed resolver es at' (res, cipher) run in
      sym ((rw (chain, ciph) at all) ∙ (unfold verify_plaintext in rw eq))
