-- ===== src/Log/Verify.antt =====
-- crates/ubiquisync-core/src/log/verify.rs: checking the signatures of a log against its chain.
pub mod Accepted
pub mod Agree
use ubiquisync.Prelude.{ℕ, List, [], ◌∷◌, Bytes, Result, ok, err, ◌>>=◌, map_err, Option}
use ubiquisync.Crypto.{CipherInfo}
use ubiquisync.Crypto.EntryCipher.{Primitives, CipherKeyResolver}
use ubiquisync.Crypto.VerifyingKey.{VerifyingKey, Verifiers, SignatureVerifyError, verify_signature}
use ubiquisync.Log.Entry.{LogEntry, OpaqueLogEntry, PlaintextLogEntry}
use ubiquisync.Log.Hash.{ChainHash, ChainHashError, LogHashContext, next_chain, sign_bytes}
use ubiquisync.Log.Cipher.{SegmentCipherError, entries_to_opaque}

pub data LogVerifyError : Type 0 where
  cipher : SegmentCipherError → LogVerifyError
  signature_error : SignatureVerifyError → LogVerifyError
  chain_hash : ChainHashError → LogVerifyError

module _ (p : Primitives) (v : Verifiers) (verifying_key : VerifyingKey) where
  -- The check of one signature over the chain before it.
  abbrev pub check_signature :
      LogHashContext → ChainHash → LogEntry Bytes → Result LogVerifyError (Unit {0})
  check_signature seed ch (LogEntry.signature s) =
      map_err LogVerifyError.signature_error
        (verify_signature v verifying_key (sign_bytes p.sha256 seed ch) s)
  check_signature seed ch (LogEntry.indexed_entry body) = ok tt

  -- The loop, from a chain and the cipher that is active there; both are returned.
  unfoldable pub verify_opaque :
      LogHashContext
      → List OpaqueLogEntry
      → ChainHash × Option CipherInfo
      → Result LogVerifyError (ChainHash × Option CipherInfo)
  verify_opaque seed [] state = ok state
  verify_opaque seed (LogEntry.signature s ∷ es) (ch, head_cipher) =
      check_signature seed ch (LogEntry.signature s) >>= λ u.
      verify_opaque seed es (ch, head_cipher)
  verify_opaque seed (LogEntry.indexed_entry body ∷ es) state =
      map_err LogVerifyError.chain_hash
        (next_chain p.sha256 seed (LogEntry.indexed_entry body) state)
      >>= λ state'. verify_opaque seed es state'

  -- The loop of `verify_plaintext` over the encrypted entries and their chains.
  unfoldable pub verify_loop :
      LogHashContext
      → List (OpaqueLogEntry × ChainHash)
      → ChainHash
      → Result LogVerifyError ChainHash
  verify_loop seed [] ch = ok ch
  verify_loop seed ((e, h) ∷ es) ch = check_signature seed h e >>= λ u. verify_loop seed es h

  unfoldable pub verify_plaintext :
      LogHashContext
      → Option CipherInfo
      → ChainHash
      → CipherKeyResolver
      → List PlaintextLogEntry
      → Result LogVerifyError (ChainHash × Option CipherInfo)
  unfolding verify_loop
  verify_plaintext seed head_cipher head_chain resolver es = do
    (res, head_cipher') ←
        map_err LogVerifyError.cipher (entries_to_opaque p seed head_cipher head_chain resolver es)
    ch ← verify_loop seed res head_chain
    ok (ch, head_cipher')
