-- ===== src/Pack/Canonical.antt =====
-- The bytes of a signed pack header that decodes are those that it is encoded to.
use ubiquisync.Prelude.{◌≡◌, refl, [], ◌∷◌, append-nil, All, Bytes, IsByte}
use ubiquisync.Prelude.{not, ◌==◌, ok, map_err, >>=-elim, if-elim}
use ubiquisync.Prelude.{arith}
use mathlib.Core.Path.{subst}
use ubiquisync.Codec.Reader.{read_byte, is_empty}
use ubiquisync.Codec.Inverse.{Inverts, map_err-Inverts, no_rest, read_byte-Inverts}
use ubiquisync.Crypto.{decode_signature}
use ubiquisync.Crypto.RoundTrip.{IsSignature, signature_bytes, encode_signature-bytes}
use ubiquisync.Crypto.Inverse.{decode_signature-Inverts}
use ubiquisync.Pack.{SignedPackHeader, PackHeaderDecodeError, pack_header_version, signature_error}
use ubiquisync.Pack.{decode_fields, decode_pack_header, encode_signed, decode_signed}
use ubiquisync.Pack.Parts.{IsPackHeader, fields_bytes, pack_header_bytes}
use ubiquisync.Pack.RoundTrip.{encode_pack_header-bytes}
use ubiquisync.Pack.Inverse.{decode_fields-Inverts}

decode_pack_header-Inverts : Inverts decode_pack_header IsPackHeader pack_header_bytes
unfolding decode_pack_header
decode_pack_header-Inverts buf h rest k e =
    >>=-elim (map_err PackHeaderDecodeError.read (read_byte buf)) e λ (version, r) er d.
      let (front, _, left) =
        map_err-Inverts IsByte (λ b. b ∷ []) PackHeaderDecodeError.read read_byte read_byte-Inverts
          buf version r k er in
      if-elim (not (version == pack_header_version)) d (λ other d₁. cc)
        λ same d₁.
          let (split, is, left') =
            map_err-Inverts IsPackHeader fields_bytes PackHeaderDecodeError.read decode_fields
              decode_fields-Inverts r h rest left d₁ in
          let zero_version : version ≡ 0 = ground arith in
          (rw (front, zero_version, split) refl, is, left')

-- Whatever bytes decode to a signed pack header are exactly those that encode it; the header has
-- arrays of their lengths, no empty range, and numbers and vectors that fit their words.
pub encode_signed-decode_signed :
    (buf : Bytes) (h : SignedPackHeader)
    → All IsByte buf
    → decode_signed buf ≡ ok h
    → (encode_signed h [] ≡ ok buf) × IsPackHeader h.header × IsSignature h.signature
unfolding encode_signed decode_signed
encode_signed-decode_signed buf h k e = >>=-elim (decode_pack_header buf) e λ (header, r₁) e₁ d₁.
    >>=-elim (map_err signature_error (decode_signature r₁)) d₁ λ (signature, r₂) e₂ d₂.
      if-elim (not (is_empty r₂)) d₂ (λ more d₃. cc)
        λ empty d₃.
          let (s₁, p₁, l₁) = decode_pack_header-Inverts buf header r₁ k e₁ in
          let (s₂, p₂, _) =
            map_err-Inverts IsSignature signature_bytes signature_error decode_signature
              decode_signature-Inverts r₁ signature r₂ l₁ e₂ in
          let eh : (header ≡ h.header) × (signature ≡ h.signature) = ground arith in
          (
            rw (← eh.0, ← eh.1)
                (rw
                  (
                    encode_pack_header-bytes header [] p₁,
                    encode_signature-bytes signature (pack_header_bytes header),
                    s₁,
                    s₂,
                    no_rest r₂ (ground arith),
                    append-nil,
                  )
                  refl),
            subst IsPackHeader eh.0 p₁,
            subst IsSignature eh.1 p₂,
          )
