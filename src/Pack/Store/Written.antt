-- ===== src/Pack/Store/Written.antt =====
-- A pack that was written is read.
use ubiquisync.Prelude.{◌≡◌, refl, sym, ◌∙◌, ap, inl, inr, [], ◌++◌, Bytes, arith}
use ubiquisync.Prelude.{same_bytes, Bool-cases}
use ubiquisync.Prelude.{Result, ok, err, >>=-elim, map_err, Option, some}
use ubiquisync.Codec.Inverse.{map_err_inv}
use ubiquisync.Crypto.RoundTrip.{IsSignature}
use ubiquisync.Pack.{SignedPackHeader, encode_signed, decode_signed}
use ubiquisync.Pack.Parts.{IsPackHeader}
use ubiquisync.Pack.RoundTrip.{decode_signed-encode_signed}
use ubiquisync.Pack.Sign.{PackFileDescriptor}
use ubiquisync.Pack.Store.{
  FileRemote, FileRemoteError, PackStoreError, PackData, header_ext, body_ext,
}
use ubiquisync.Pack.Store.{
  and_then, stem, write_files, write_pack, read_header, read_body, decode_found,
}
use ubiquisync.Pack.Store.Complete.{Result-cases, header_not_body}

decode_found-some :
    (buf : Bytes) (h : SignedPackHeader)
    → decode_signed buf ≡ ok h
    → decode_found (some buf) ≡ ok (some h)
unfolding decode_found
decode_found-some buf h e = rw e refl

same_option :
    {x y : Option SignedPackHeader}
    → ◌≡◌ {A = Result PackStoreError (Option SignedPackHeader)} (ok x) (ok y)
    → x ≡ y
same_option e = ground arith

module _ {S : Type 0} (r : FileRemote S) (hex_encode : Bytes → Bytes) where
  and_then_ok :
      (first : Result FileRemoteError (Unit {0}) × S)
      (next : S → Result FileRemoteError (Unit {0}) × S)
      → (and_then r hex_encode first next).0 ≡ ok tt
      → (first.0 ≡ ok tt)
        × ((next first.1).0 ≡ ok tt)
        × ((and_then r hex_encode first next).1 ≡ (next first.1).1)
  and_then_ok (err e, s) next h = cc
  and_then_ok (ok u, s) next h = (refl, map_err_inv PackStoreError.remote (next s).0 h, refl)

  -- What is stored after both writes.
  abbrev Stored : PackFileDescriptor → Bytes → Bytes → S → Type 0
  Stored d header body s =
      (r.get s (stem r hex_encode d ++ header_ext) ≡ some header)
      × (r.get s (stem r hex_encode d ++ body_ext) ≡ some body)

  write_files-Stored :
      (d : PackFileDescriptor) (header body : Bytes) (s : S)
      → (write_files r hex_encode d header body s).0 ≡ ok tt
      → Stored d header body (write_files r hex_encode d header body s).1
  unfolding write_files
  write_files-Stored d header body s h =
      let base = stem r hex_encode d in
      let (first, second, same) =
        and_then_ok (r.write s (base ++ body_ext) body)
          (λ s'. r.write s' (base ++ header_ext) header) h in
      let s₁ = (r.write s (base ++ body_ext) body).1 in
      rw same (
        r.write_same s₁ (base ++ header_ext) header second,
        r.write_other s₁ (base ++ header_ext) header (base ++ body_ext)
              (λ e. header_not_body base base (sym e))
            ∙ r.write_same s (base ++ body_ext) body first,
      )

  write_pack-Stored :
      (self_id : Bytes) (pack : PackData) (s : S)
      → (write_pack r hex_encode self_id pack s).0 ≡ ok tt
      → (header : Bytes) × (encode_signed pack.header [] ≡ ok header)
        × Stored pack.descriptor header pack.body (write_pack r hex_encode self_id pack s).1
  unfolding write_pack
  write_pack-Stored self_id pack s =
      elim (Bool-cases (same_bytes pack.descriptor.peer_id self_id)) [
        | inr other ↦ rw other (λ h. cc)
        | inl own ↦ elim (Result-cases (encode_signed pack.header [])) [
          | inr (e, failed) ↦ rw (own, failed) (λ h. cc)
          | inl (header, encoded) ↦
              rw (own, encoded)
                (λ h. (header, refl, write_files-Stored pack.descriptor header pack.body s h))
        ]
      ]

  -- If writing a pack succeeds, then whatever is read after it of its header and of its body is what
  -- was written, for a signed header whose arrays have their lengths, whose ranges are not empty, and
  -- whose numbers and vectors fit their words.
  pub read_header-write_pack :
      (self_id : Bytes) (pack : PackData) (s : S) (h : Option SignedPackHeader) (b : Option Bytes)
      → IsPackHeader pack.header.header
      → IsSignature pack.header.signature
      → (write_pack r hex_encode self_id pack s).0 ≡ ok tt
      → read_header r hex_encode (write_pack r hex_encode self_id pack s).1 pack.descriptor ≡ ok h
      → read_body r hex_encode (write_pack r hex_encode self_id pack s).1 pack.descriptor ≡ ok b
      → (h ≡ some pack.header) × (b ≡ some pack.body)
  unfolding read_header read_body
  read_header-write_pack self_id pack s h b is sig done eh eb =
      let base = stem r hex_encode pack.descriptor in
      let s' = (write_pack r hex_encode self_id pack s).1 in
      let (header, encoded, (there, body)) = write_pack-Stored self_id pack s done in
      let (bs, encoded', decoded) = decode_signed-encode_signed pack.header [] is sig in
      let bytes : header ≡ bs = ground (arith, sym encoded ∙ encoded') in
      (
        >>=-elim (map_err PackStoreError.remote (r.read s' (base ++ header_ext))) eh λ found ef d.
            let from_file =
              sym (
                r.read_get s' (base ++ header_ext) found
                  (map_err_inv PackStoreError.remote (r.read s' (base ++ header_ext)) ef))
              ∙ there
              ∙ ap some bytes in
            same_option
              (sym d ∙ ap decode_found from_file ∙ decode_found-some bs pack.header decoded),
        sym (r.read_get s' (base ++ body_ext) b (map_err_inv PackStoreError.remote _ eb)) ∙ body,
      )
