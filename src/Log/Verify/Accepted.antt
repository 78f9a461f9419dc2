-- ===== src/Log/Verify/Accepted.antt =====
-- What verification accepts.
use ubiquisync.Prelude.{◌≡◌, ◌↔◌, refl, ap, List, [], ◌∷◌, All, arith, Bytes}
use ubiquisync.Prelude.{Result, ok, err, >>=-eq-ok, map_err, Option}
use ubiquisync.Crypto.{CipherInfo, Signature}
use ubiquisync.Crypto.EntryCipher.{Primitives}
use ubiquisync.Crypto.VerifyingKey.{VerifyingKey, Verifiers, verify_signature}
use ubiquisync.Log.Entry.{LogEntry, EntryBody, OpaqueLogEntry}
use ubiquisync.Log.Hash.{ChainHash, ChainHashError, LogHashContext, next_chain, sign_bytes}
use ubiquisync.Log.Hash.{compute_next_opaque}
use ubiquisync.Log.Verify.{LogVerifyError, verify_opaque}

abbrev on_ok : {E A B : Type 0} → Result E A → (A → List B) → List B
on_ok (ok a) f = f a
on_ok (err e) f = []

module _ (p : Primitives) (v : Verifiers) (key : VerifyingKey) where
  -- The messages that a log has signatures for, each with its signature: the chain at its place.
  unfoldable pub attested :
      LogHashContext
      → List OpaqueLogEntry
      → ChainHash × Option CipherInfo
      → List (Bytes × Signature)
  attested seed [] state = []
  attested seed (LogEntry.signature s ∷ es) (ch, cipher) =
      (sign_bytes p.sha256 seed ch, s) ∷ attested seed es (ch, cipher)
  attested seed (LogEntry.indexed_entry body ∷ es) state =
      on_ok (next_chain p.sha256 seed (LogEntry.indexed_entry body) state) (attested seed es)

  abbrev pub IsSigned : Bytes × Signature → Type 0
  IsSigned (message, s) = verify_signature v key message s ≡ ok tt

  -- The two parts of what is accepted.
  abbrev pub Accepts :
      LogHashContext
      → List OpaqueLogEntry
      → ChainHash × Option CipherInfo
      → ChainHash × Option CipherInfo
      → Type 0
  Accepts seed es state r =
      (compute_next_opaque p.sha256 seed es state ≡ ok r) × All IsSigned (attested seed es state)

  indexed_step :
      (seed : LogHashContext) (body : EntryBody Bytes) (es : List OpaqueLogEntry)
      (state r : ChainHash × Option CipherInfo)
      (step : Result ChainHashError (ChainHash × Option CipherInfo))
      → next_chain p.sha256 seed (LogEntry.indexed_entry body) state ≡ step
      → ((s : ChainHash × Option CipherInfo)
          → (verify_opaque p v key seed es s ≡ ok r) ↔ Accepts seed es s r)
      → (verify_opaque p v key seed (LogEntry.indexed_entry body ∷ es) state ≡ ok r)
        ↔ Accepts seed (LogEntry.indexed_entry body ∷ es) state r
  indexed_step seed body es state r (ok s) h ih =
      let e = LogEntry.indexed_entry body in
      let run : verify_opaque p v key seed (e ∷ es) state ≡ verify_opaque p v key seed es s =
        unfold verify_opaque in rw h in
      let fold : compute_next_opaque p.sha256 seed (e ∷ es) state
          ≡ compute_next_opaque p.sha256 seed es s =
        unfold compute_next_opaque in rw h in
      let signed : attested seed (e ∷ es) state ≡ attested seed es s =
        unfold attested in ap (λ x. on_ok x (attested seed es)) h in
      rw (run, fold, signed) (ih s)
  indexed_step seed body es state r (err x) h ih =
      let e = LogEntry.indexed_entry body in
      let run : verify_opaque p v key seed (e ∷ es) state ≡ err (LogVerifyError.chain_hash x) =
        unfold verify_opaque in rw h in
      let fold : compute_next_opaque p.sha256 seed (e ∷ es) state ≡ err x =
        unfold compute_next_opaque in rw h in
      rw (run, fold) ((λ y. cc), λ y. let (z, zs) = y in cc)

  -- A log is verified, and gives a chain hash and an active cipher, exactly if these are what
  -- `compute_next_opaque` gives and each signature of the log is valid for the chain at its place.
  pub verify_opaque_lem :
      (seed : LogHashContext) (es : List OpaqueLogEntry) (state r : ChainHash × Option CipherInfo)
      → (verify_opaque p v key seed es state ≡ ok r) ↔ (
          (compute_next_opaque p.sha256 seed es state ≡ ok r)
          × All IsSigned (attested seed es state))
  unfolding verify_opaque compute_next_opaque attested next_chain
  verify_opaque_lem seed [] state r = ((λ h. (ground arith, tt)), λ h. ground arith)
  verify_opaque_lem seed (LogEntry.signature s ∷ es) (ch, cipher) r =
      let ih = verify_opaque_lem seed es (ch, cipher) r in
      let check = verify_signature v key (sign_bytes p.sha256 seed ch) s in
      (
        (λ h.
            let (u, rest, valid) = >>=-eq-ok (map_err LogVerifyError.signature_error check) h in
            let valid' : check ≡ ok tt = ground arith in
            let (chain, all) = ih.0 rest in (chain, (valid', all))),
        λ h. let (chain, (valid, all)) = h in rw valid (ih.1 (chain, all)),
      )
  verify_opaque_lem seed (LogEntry.indexed_entry body ∷ es) state r =
      indexed_step seed body es state r _ refl (λ s. verify_opaque_lem seed es s r)
