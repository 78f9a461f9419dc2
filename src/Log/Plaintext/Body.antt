-- ===== src/Log/Plaintext/Body.antt =====
-- The payload of a plaintext segment is read back as it was written.
use ubiquisync.Prelude.{ℕ, zero, suc, ◌+◌, ◌≤◌, ◌≡◌, inl, inr, refl, sym, ap, List, []}
use ubiquisync.Prelude.{◌∷◌, map, All, arith, length, Bytes, ltb, ltb→lt, ==_iff, Bool-cases}
use ubiquisync.Prelude.{same_bytes_iff, true, false, ok, Option, none}
use ubiquisync.Prelude.{some}
use ubiquisync.Codec.Containers.{OnSome}
use ubiquisync.Crypto.{CipherInfo}
use ubiquisync.Crypto.RoundTrip.{IsCipherInfo}
use ubiquisync.Crypto.EntryCipher.{same_cipher}
use ubiquisync.Log.Entry.{LogEntry, EntryBody, PlaintextLogEntry, validate_entry, validate_op}
use ubiquisync.Log.Entry.RoundTrip.{plaintext_laws, IsEntry}
use ubiquisync.Log.Segment.RoundTrip.{entries_bytes, encode_entries-bytes, decode_entries-bytes}
use ubiquisync.Log.Plaintext.{
  SegmentLib, collect_valid, encode_compress_entries, decompress_decode_entries,
}
use ubiquisync.Log.Plaintext.{zstd_decode_limit}
use ubiquisync.Log.Plaintext.{stored_cipher, or, end_cipher}

abbrev pub take : ℕ → Bytes → Bytes
take zero bs = []
take (suc n) [] = []
take (suc n) (b ∷ bs) = b ∷ take n bs

take-all : (n : ℕ) (bs : Bytes) → length bs ≤ n → take n bs ≡ bs
take-all zero [] h = refl
take-all zero (b ∷ bs) h = absurd (omega arith)
take-all (suc n) [] h = refl
take-all (suc n) (b ∷ bs) h = ap (λ t. b ∷ t) (take-all n bs (omega arith))

-- The libraries at work: a nonce has the length that was asked for, decryption undoes encryption, and
-- the decoder puts out what was compressed.
pub record SegmentLibOk (lib : SegmentLib) : Type 0 where
  pub fill_length : (n : ℕ) → (bs : Bytes) × (lib.fill n ≡ some bs) × (length bs ≡ n)
  pub decrypt_encrypt :
      (key nonce ad m : Bytes)
      → (c : Bytes) × (lib.encrypt_in_place key nonce ad m ≡ some c)
        × (lib.decrypt_in_place key nonce ad c ≡ some m)
  pub decode_encode :
      (m : Bytes)
      → (c : Bytes) × (lib.encode_all m ≡ some c)
        × ((n : ℕ) → lib.decoder_take n c ≡ some (take n m))

same_cipher-eq : (a b : CipherInfo) → same_cipher a b ≡ true → a ≡ b
same_cipher-eq a b h =
    let suites : a.cipher_suite ≡ b.cipher_suite =
      (==_iff a.cipher_suite b.cipher_suite).0 (ground arith) in
    let prints : a.fingerprint ≡ b.fingerprint =
      (same_bytes_iff a.fingerprint b.fingerprint).0 (ground arith) in
    (λ i. record { cipher_suite = suites i; fingerprint = prints i })

-- The reader finds the cipher that was stored, or not stored, in the header.
pub or-stored_cipher :
    (ci : CipherInfo) (start : Option CipherInfo) → or (stored_cipher ci start) start ≡ some ci
or-stored_cipher ci none = refl
or-stored_cipher ci (some start) = elim (Bool-cases (same_cipher ci start)) [
  | inl e ↦ rw e (ap some (sym (same_cipher-eq ci start e)))
  | inr e ↦ rw e refl
]

pub stored_cipher-IsCipherInfo :
    (ci : CipherInfo) (start : Option CipherInfo)
    → IsCipherInfo ci
    → OnSome IsCipherInfo (stored_cipher ci start)
stored_cipher-IsCipherInfo ci none h = h
stored_cipher-IsCipherInfo ci (some start) h = elim (Bool-cases (same_cipher ci start)) [
  | inl e ↦ rw e tt
  | inr e ↦ rw e h
]

pub end_cipher-IsCipherInfo :
    (start : Option CipherInfo) (es : List PlaintextLogEntry)
    → OnSome IsCipherInfo start
    → All (IsEntry plaintext_laws) es
    → OnSome IsCipherInfo (end_cipher start es)
unfolding end_cipher
end_cipher-IsCipherInfo start [] h hs = h
end_cipher-IsCipherInfo start (LogEntry.indexed_entry (EntryBody.op e) ∷ es) h hs =
    end_cipher-IsCipherInfo start es h hs.1
end_cipher-IsCipherInfo start (LogEntry.indexed_entry (EntryBody.use_key ci) ∷ es) h hs =
    end_cipher-IsCipherInfo (some ci) es hs.0 hs.1
end_cipher-IsCipherInfo start (LogEntry.indexed_entry (EntryBody.expunged x) ∷ es) h hs =
    end_cipher-IsCipherInfo start es h hs.1
end_cipher-IsCipherInfo start (LogEntry.signature s ∷ es) h hs =
    end_cipher-IsCipherInfo start es h hs.1

validate_entry-ok : (e : PlaintextLogEntry) → validate_entry e ≡ ok tt
unfolding validate_entry validate_op
validate_entry-ok (LogEntry.indexed_entry (EntryBody.op e)) = refl
validate_entry-ok (LogEntry.indexed_entry (EntryBody.use_key ci)) = refl
validate_entry-ok (LogEntry.indexed_entry (EntryBody.expunged x)) = refl
validate_entry-ok (LogEntry.signature s) = refl

collect_valid-ok : (es : List PlaintextLogEntry) → collect_valid (map ok es) ≡ ok es
unfolding collect_valid
collect_valid-ok [] = refl
collect_valid-ok (e ∷ es) = rw (validate_entry-ok e, collect_valid-ok es) refl

module _ (lib : SegmentLib) (law : SegmentLibOk lib) where
  pub decompress-compress :
      (es : List PlaintextLogEntry)
      → All (IsEntry plaintext_laws) es
      → length (entries_bytes plaintext_laws es) ≤ zstd_decode_limit
      → (z : Bytes) × (encode_compress_entries lib es ≡ ok z)
        × (decompress_decode_entries lib z ≡ ok es)
  unfolding encode_compress_entries decompress_decode_entries
  decompress-compress es h small =
      let bs = entries_bytes plaintext_laws es in
      let (z, enc, dec) = law.decode_encode bs in
      let whole = dec (zstd_decode_limit + 1) in
      let fits : ltb zstd_decode_limit (length bs) ≡ false =
        elim (Bool-cases (ltb zstd_decode_limit (length bs))) [
          | inl e ↦ absurd (omega (arith, ltb→lt zstd_decode_limit (length bs) e))
          | inr e ↦ e
        ] in
      (
        z,
        rw (encode_entries-bytes plaintext_laws es [], enc) refl,
        rw
            (
              whole,
              take-all (zstd_decode_limit + 1) bs (omega arith),
              fits,
              decode_entries-bytes plaintext_laws es h,
            )
            (collect_valid-ok es),
      )
