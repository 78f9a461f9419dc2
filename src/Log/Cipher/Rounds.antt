-- ===== src/Log/Cipher/Rounds.antt =====
-- One round of the encrypting loop that succeeded, and the log it is part of.
use ubiquisync.Prelude.{
  ◌≡◌, ◌∙◌, arith, List, ◌∷◌, Result, ok, >>=-eq-ok, map_err, Option, none, some,
}
use ubiquisync.Crypto.{CipherInfo}
use ubiquisync.Crypto.EntryCipher.{Primitives, CipherKeyResolver}
use ubiquisync.Log.Entry.{OpaqueLogEntry, PlaintextLogEntry}
use ubiquisync.Log.Hash.{ChainHash, LogHashContext, next_chain}
use ubiquisync.Log.Cipher.{Cursor, SegmentCipherError, to_opaque, check_cipher_change}
use ubiquisync.Log.Cipher.{advance_cursor, opaque_loop, open_cursor, entries_to_opaque}

-- What the loop returns.
abbrev pub Encrypted : Type 0
Encrypted = List (OpaqueLogEntry × ChainHash) × Option CipherInfo

module _ (p : Primitives) where
  -- The parts of a round of `opaque_loop` that succeeded.
  abbrev pub Round :
      LogHashContext
      → CipherKeyResolver
      → PlaintextLogEntry
      → List PlaintextLogEntry
      → Cursor
      → Encrypted
      → Type 0
  Round seed resolver e es at' r =
      (e2 : OpaqueLogEntry) × (at'' : Cursor) × (tail : Encrypted) × (to_opaque p e at'.entry_cipher
          at'.head_chain
        ≡ ok e2)
      × (advance_cursor p seed resolver e2 at' ≡ ok at'')
      × (opaque_loop p seed resolver es at'' ≡ ok tail)
      × (((e2, at''.head_chain) ∷ tail.0, tail.1) ≡ r)

  pub opaque_loop-Round :
      (seed : LogHashContext) (resolver : CipherKeyResolver) (e : PlaintextLogEntry)
      (es : List PlaintextLogEntry) (at' : Cursor) (r : Encrypted)
      → opaque_loop p seed resolver (e ∷ es) at' ≡ ok r
      → Round seed resolver e es at' r
  unfolding opaque_loop
  opaque_loop-Round seed resolver e es at' r eq =
      let encrypted : Result SegmentCipherError OpaqueLogEntry =
        map_err SegmentCipherError.cipher_error (to_opaque p e at'.entry_cipher at'.head_chain) in
      let (e2, eq₂, enc) = >>=-eq-ok encrypted eq in
      let (at'', eq₃, step) = >>=-eq-ok (advance_cursor p seed resolver e2 at') eq₂ in
      let (tail, eq₄, run) = >>=-eq-ok (opaque_loop p seed resolver es at'') eq₃ in
      (e2, at'', tail, ground arith, step, run, ground arith)

  -- The chain and the cipher after a round are those after its entry.
  pub advance_cursor-next_chain :
      (seed : LogHashContext) (resolver : CipherKeyResolver) (e2 : OpaqueLogEntry)
      (at' at'' : Cursor)
      → advance_cursor p seed resolver e2 at' ≡ ok at''
      → next_chain p.sha256 seed e2 (at'.head_chain, at'.head_cipher)
        ≡ ok (at''.head_chain, at''.head_cipher)
  unfolding advance_cursor
  advance_cursor-next_chain seed resolver e2 at' at'' eq =
      let chained : Result SegmentCipherError (ChainHash × Option CipherInfo) =
        map_err SegmentCipherError.chain_hash_error
          (next_chain p.sha256 seed e2 (at'.head_chain, at'.head_cipher)) in
      let (s, eq₂, next) = >>=-eq-ok chained eq in
      let (c, out, check) =
        >>=-eq-ok (check_cipher_change p seed resolver s.1 at'.entry_cipher) eq₂ in
      let next' : next_chain p.sha256 seed e2 (at'.head_chain, at'.head_cipher) ≡ ok s =
        ground arith in
      next' ∙ ground arith

  pub open_cursor-eq :
      (seed : LogHashContext) (resolver : CipherKeyResolver) (cipher : Option CipherInfo)
      (chain : ChainHash) (at' : Cursor)
      → open_cursor p seed resolver cipher chain ≡ ok at'
      → (at'.head_chain ≡ chain) × (at'.head_cipher ≡ cipher)
  unfolding open_cursor
  open_cursor-eq seed resolver none chain at' h = ground arith
  open_cursor-eq seed resolver (some ci) chain at' h = ground arith

  -- Encryption is a run of the loop from the chain and the cipher that it was given.
  pub entries_to_opaque-opaque_loop :
      (seed : LogHashContext) (head_cipher : Option CipherInfo) (head_chain : ChainHash)
      (resolver : CipherKeyResolver) (es : List PlaintextLogEntry) (r : Encrypted)
      → entries_to_opaque p seed head_cipher head_chain resolver es ≡ ok r
      → (at' : Cursor) × (at'.head_chain ≡ head_chain)
        × (at'.head_cipher ≡ head_cipher)
        × (opaque_loop p seed resolver es at' ≡ ok r)
  unfolding entries_to_opaque
  entries_to_opaque-opaque_loop seed head_cipher head_chain resolver es r eq =
      let (at', run, first) = >>=-eq-ok (open_cursor p seed resolver head_cipher head_chain) eq in
      let (chain, cipher) = open_cursor-eq seed resolver head_cipher head_chain at' first in
      (at', chain, cipher, run)
