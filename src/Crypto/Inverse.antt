-- ===== src/Crypto/Inverse.antt =====
-- A signature that decodes was encoded so.
use ubiquisync.Prelude.{◌≡◌, refl, [], ◌∷◌, length, IsByte, ◌==◌, ==_iff}
use ubiquisync.Prelude.{map_err, >>=-elim, if-elim}
use ubiquisync.Codec.Reader.{read_byte, read_array}
use ubiquisync.Codec.Inverse.{Inverts, returned, map_err-Inverts, read_byte-Inverts}
use ubiquisync.Codec.Inverse.{read_slice-Inverts}
use ubiquisync.Crypto.{CryptoDecodeError, decode_signature, sig_algo_ed25519}
use ubiquisync.Crypto.{sig_algo_p256}
use ubiquisync.Crypto.RoundTrip.{IsSignature, signature_bytes}

pub decode_signature-Inverts : Inverts decode_signature IsSignature signature_bytes
unfolding decode_signature signature_bytes
decode_signature-Inverts buf s rest h e =
    >>=-elim (map_err CryptoDecodeError.read_error (read_byte buf)) e λ (algo, r) er d.
      let (front, _, left) =
        map_err-Inverts IsByte (λ b. b ∷ []) CryptoDecodeError.read_error read_byte
          read_byte-Inverts buf algo r h er in
      let array =
        map_err-Inverts (λ bs. length bs ≡ 64) (λ bs. bs) CryptoDecodeError.read_error
          (read_array 64) (read_slice-Inverts 64) in
      if-elim (algo == sig_algo_ed25519) d
        (λ is d₁.
          >>=-elim (map_err CryptoDecodeError.read_error (read_array 64 r)) d₁ λ (t, r') et d₂.
            let (split, len, left') = array r t r' left et in
            let (es, er') = returned d₂ in
            rw (← es, ← er') (rw (front, (==_iff algo 0).0 is, split) refl, len, left'))
        (λ not_ed d₁.
          if-elim (algo == sig_algo_p256) d₁
            (λ is d₂.
              >>=-elim (map_err CryptoDecodeError.read_error (read_array 64 r)) d₂ λ (t, r') et d₃.
                let (split, len, left') = array r t r' left et in
                let (es, er') = returned d₃ in
                rw (← es, ← er') (rw (front, (==_iff algo 1).0 is, split) refl, len, left'))
            (λ not_p256 d₂. cc))
