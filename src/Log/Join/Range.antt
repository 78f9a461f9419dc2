-- ===== src/Log/Join/Range.antt =====
-- What a join writes: a plaintext segment whose entries fill the range between its chain hashes.
use ubiquisync.Prelude.{◌+◌, ◌≡◌, List, [], ◌∷◌, ◌++◌, arith, length}
use ubiquisync.Prelude.{length-append, Bytes, not, ok, >>=-elim, if-elim, map_err}
use ubiquisync.Prelude.{Option, none, some}
use ubiquisync.Codec.Inverse.{map_err_inv}
use ubiquisync.Crypto.{Signature, CipherInfo}
use ubiquisync.Crypto.EntryCipher.{Primitives, CipherKeyResolver}
use ubiquisync.Log.Entry.{PlaintextLogEntry}
use ubiquisync.Log.Hash.{LogHashContext}
use ubiquisync.Log.Segment.{SegmentHeader, decode_header}
use ubiquisync.Log.Plaintext.{SegmentLib, read_encoded, encode_segment_plaintext}
use ubiquisync.Log.Join.{
  JoinSegmentsError, JoinedSegmentData, Joined, without_signatures, same_chain,
}
use ubiquisync.Log.Join.{join_entries, open_body, join_body, join_bodies, encode_joined}
use ubiquisync.Log.Join.{join_segments}
use ubiquisync.Log.Join.Size.{join_entries-size}

-- The loop holds as many entries as its chain hashes are apart.
abbrev Fills : Joined → Type 0
Fills j = j.chain_hash.size ≡ j.prev_chain.size + length j.all_entries

abbrev FillsState : Option Joined → Type 0
FillsState none = Unit {0}
FillsState (some j) = Fills j

open_body-Fills :
    (state : Option Joined) (header : SegmentHeader) (j : Joined)
    → FillsState state
    → open_body state header ≡ ok j
    → Fills j
unfolding open_body
open_body-Fills none header j h e =
    let chains : (header.prev_chain ≡ j.chain_hash)
        × (header.prev_chain ≡ j.prev_chain)
        × ([] ≡ j.all_entries) =
      ground arith in
    rw (← chains.0, ← chains.1, ← chains.2) (omega arith)
open_body-Fills (some k) header j h e =
    if-elim (not (same_chain k.chain_hash header.prev_chain)) e (λ _ x. cc)
      (λ _ x. let same : k ≡ j = ground arith in rw (← same) h)

module _ (p : Primitives) (lib : SegmentLib) (resolver : CipherKeyResolver)
    (hash_ctx : LogHashContext) where
  join_body-Fills :
      (body : Bytes) (state : Option Joined) (j : Joined)
      → FillsState state
      → join_body p lib resolver hash_ctx body state ≡ ok j
      → Fills j
  unfolding join_body
  join_body-Fills body state j h e =
      >>=-elim (map_err JoinSegmentsError.decode (decode_header body)) e λ (header, rest) _ h₁.
        >>=-elim (open_body state header) h₁ λ k opened h₂.
          >>=-elim
            (map_err JoinSegmentsError.decode
              (read_encoded lib resolver hash_ctx.log_id header header.encoding rest))
            h₂
            λ decoded _ h₃.
              >>=-elim (join_entries p decoded hash_ctx k.active_cipher k.chain_hash resolver) h₃
                λ (es, ch, cipher) joined h₄.
                  let before = open_body-Fills state header k h opened in
                  let grown =
                    join_entries-size p decoded hash_ctx k.active_cipher k.chain_hash resolver es ch
                      cipher joined in
                  let same : (ch ≡ j.chain_hash)
                      × (k.prev_chain ≡ j.prev_chain)
                      × (k.all_entries ++ without_signatures es ≡ j.all_entries) =
                    ground arith in
                  rw (← same.0, ← same.1, ← same.2)
                    (omega
                      (arith, before, grown, length-append k.all_entries (without_signatures es)))

  join_bodies-Fills :
      (bodies : List Bytes) (state out : Option Joined)
      → FillsState state
      → join_bodies p lib resolver hash_ctx bodies state ≡ ok out
      → FillsState out
  unfolding join_bodies
  join_bodies-Fills [] state out h e = let same : state ≡ out = ground arith in rw (← same) h
  join_bodies-Fills (body ∷ bodies) state out h e =
      >>=-elim (join_body p lib resolver hash_ctx body state) e
        λ j ej h₁. join_bodies-Fills bodies (some j) out (join_body-Fills body state j h ej) h₁

  written :
      (out : Option Joined) (bs : Bytes) (d : JoinedSegmentData)
      → FillsState out
      → encode_joined p lib resolver hash_ctx out ≡ ok (bs, d)
      → (sig : Signature) × (start : Option CipherInfo) × (es : List PlaintextLogEntry)
        × (encode_segment_plaintext lib sig d.prev_chain start hash_ctx.log_id resolver es ≡ ok bs)
        × (d.chain_hash.size ≡ d.prev_chain.size + length es)
  written none bs d h e = cc
  written (some j) bs d h e =
      let run =
        encode_segment_plaintext lib j.sig j.prev_chain j.start_cipher hash_ctx.log_id resolver
          j.all_entries in
      >>=-elim (map_err JoinSegmentsError.encode run) e λ w ew h₁.
        let same : (w ≡ bs) × (j.prev_chain ≡ d.prev_chain) × (j.chain_hash ≡ d.chain_hash) =
          ground arith in
        (
          j.sig,
          j.start_cipher,
          j.all_entries,
          rw (← same.0, ← same.1) (map_err_inv JoinSegmentsError.encode run ew),
          rw (← same.1, ← same.2) h,
        )

  -- If joining segments succeeds, then what it writes is the plaintext segment of some entries from
  -- the chain hash that it returns for the start, and the entries are exactly as many as the sizes
  -- of the two chain hashes that it returns are apart.
  pub join_segments-Fills :
      (bodies : List Bytes) (bs : Bytes) (d : JoinedSegmentData)
      → join_segments p lib resolver hash_ctx bodies ≡ ok (bs, d)
      → (sig : Signature) × (start : Option CipherInfo) × (es : List PlaintextLogEntry)
        × (encode_segment_plaintext lib sig d.prev_chain start hash_ctx.log_id resolver es ≡ ok bs)
        × (d.chain_hash.size ≡ d.prev_chain.size + length es)
  unfolding join_segments
  join_segments-Fills bodies bs d e =
      >>=-elim (join_bodies p lib resolver hash_ctx bodies none) e
        λ out eo h₁. written out bs d (join_bodies-Fills bodies none out tt eo) h₁
