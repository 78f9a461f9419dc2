-- ===== src/Pack/Store/Complete.antt =====
-- Whoever sees the header of a pack can read its body, at whatever call a remote fails.
use mathlib.Core.Path.{subst}
use ubiquisync.Crypto.Hash.Domains.{append_split}
use ubiquisync.Prelude.{
  ℕ, length, length-append, arith, ◌≡◌, ◌≢◌, refl, sym, ◌∙◌, ap, ◌⊎◌, inl, inr, List, [], ◌∷◌, ◌++◌,
  Bytes,
}
use ubiquisync.Prelude.{same_bytes, same_bytes_iff, Bool-cases}
use ubiquisync.Prelude.{Result, ok, err, Option, none, some}
use ubiquisync.Pack.{encode_signed}
use ubiquisync.Pack.Sign.{PackFileDescriptor}
use ubiquisync.Pack.Store.{FileRemote, FileRemoteError, PackData, header_ext}
use ubiquisync.Pack.Store.{body_ext, and_then, stem, write_files, write_pack}
use ubiquisync.Pack.Store.{delete_pack}

abbrev IsThere : Option Bytes → Type 0
IsThere none = ⊥
IsThere (some b) = Unit {0}

-- Which of two paths it is.
same_path : (p q : Bytes) → (p ≡ q) ⊎ (p ≢ q)
same_path p q = elim (Bool-cases (same_bytes p q)) [
  | inl e ↦ inl ((same_bytes_iff p q).0 e)
  | inr e ↦ inr λ h. let t = (same_bytes_iff p q).1 h in cc
]

-- The extensions tell headers and bodies apart, and the stem from its paths.
abbrev last : ℕ → Bytes → ℕ
last d [] = d
last d (c ∷ s) = last c s

last-append : (d c : ℕ) (s t : Bytes) → last d (s ++ (c ∷ t)) ≡ last c t
last-append d c [] t = refl
last-append d c (x ∷ s) t = last-append x c s t

pub header_not_body : (b c : Bytes) → b ++ header_ext ≢ c ++ body_ext
header_not_body b c e =
    let differ : 97 ≡ 112 =
      sym (last-append 0 46 b (117 ∷ 113 ∷ 112 ∷ 46 ∷ 109 ∷ 101 ∷ 116 ∷ 97 ∷ []))
      ∙ ap (last 0) e
      ∙ last-append 0 46 c (117 ∷ 113 ∷ 112 ∷ []) in
    omega (arith, differ)

same_stem : (b c ext : Bytes) → b ++ ext ≡ c ++ ext → b ≡ c
same_stem b c ext e =
    let lens : length b ≡ length c =
      omega (arith, length-append b ext, length-append c ext, ap length e) in
    (append_split b c ext ext lens e).0

there : {o p : Option Bytes} → o ≡ p → IsThere o → IsThere p
there e h = subst IsThere e h

pub Result-cases :
    {E A : Type 0} (m : Result E A) → ((a : A) × (m ≡ ok a)) ⊎ ((e : E) × (m ≡ err e))
Result-cases (ok a) = inl (a, refl)
Result-cases (err e) = inr (e, refl)

module _ {S : Type 0} (r : FileRemote S) where
  -- Every header has its body.
  abbrev pub Complete : S → Type 0
  Complete s = (b : Bytes) → IsThere (r.get s (b ++ header_ext)) → IsThere (r.get s (b ++ body_ext))

  -- Both outcomes of a call keep what its success keeps, since its failure changes nothing.
  unchanged : (s s' : S) → ((q : Bytes) → r.get s' q ≡ r.get s q) → Complete s → Complete s'
  unchanged s s' same c b h =
      there (sym (same (b ++ body_ext))) (c b (there (same (b ++ header_ext)) h))

  write_kept :
      (s : S) (p data' q : Bytes) → IsThere (r.get s q) → IsThere (r.get (r.write s p data').1 q)
  write_kept s p data' q h = elim (same_path q p) [
    | inr ne ↦ there (sym (r.write_other s p data' q ne)) h
    | inl e ↦ elim (Result-cases (r.write s p data').0) [
      | inr (x, failed) ↦ there (sym (r.write_failed s p data' q x failed)) h
      | inl (u, done) ↦
          there (sym (ap (r.get (r.write s p data').1) e ∙ r.write_same s p data' done)) tt
    ]
  ]

  write_body-Complete :
      (s : S) (base body : Bytes) → Complete s → Complete (r.write s (base ++ body_ext) body).1
  write_body-Complete s base body c b h = write_kept s (base ++ body_ext) body (b ++ body_ext) (
      c b (
        there (r.write_other s (base ++ body_ext) body (b ++ header_ext) (header_not_body b base))
          h))

  write_header-Complete :
      (s : S) (base header : Bytes)
      → Complete s
      → IsThere (r.get s (base ++ body_ext))
      → Complete (r.write s (base ++ header_ext) header).1
  write_header-Complete s base header c body b h =
      write_kept s (base ++ header_ext) header (b ++ body_ext) (elim (same_path b base) [
        | inl e ↦ there (ap (λ t. r.get s (t ++ body_ext)) (sym e)) body
        | inr ne ↦ c b (
            there
              (r.write_other s (base ++ header_ext) header (b ++ header_ext)
                (λ e. ne (same_stem b base header_ext e)))
              h)
      ])

  -- What is there after a deletion was there before.
  delete_kept : (s : S) (p q : Bytes) → IsThere (r.get (r.delete s p).1 q) → IsThere (r.get s q)
  delete_kept s p q h = elim (same_path q p) [
    | inr ne ↦ there (r.delete_other s p q ne) h
    | inl e ↦ elim (Result-cases (r.delete s p).0) [
      | inr (x, failed) ↦ there (r.delete_failed s p q x failed) h
      | inl (u, done) ↦ absurd (there (ap (r.get (r.delete s p).1) e ∙ r.delete_same s p done) h)
    ]
  ]

  delete_header-Complete :
      (s : S) (base : Bytes) → Complete s → Complete (r.delete s (base ++ header_ext)).1
  delete_header-Complete s base c b h =
      there
        (sym (
          r.delete_other s (base ++ header_ext) (b ++ body_ext)
            (λ e. header_not_body base b (sym e))))
        (c b (delete_kept s (base ++ header_ext) (b ++ header_ext) h))

  delete_body-Complete :
      (s : S) (base : Bytes)
      → Complete s
      → r.get s (base ++ header_ext) ≡ none
      → Complete (r.delete s (base ++ body_ext)).1
  delete_body-Complete s base c gone b h =
      let was = delete_kept s (base ++ body_ext) (b ++ header_ext) h in
      elim (same_path b base) [
        | inl e ↦ absurd (there (ap (λ t. r.get s (t ++ header_ext)) e ∙ gone) was)
        | inr ne ↦
            there
              (sym (
                r.delete_other s (base ++ body_ext) (b ++ body_ext)
                  (λ e. ne (same_stem b base body_ext e))))
              (c b was)
      ]

  -- Two calls in a row, the second after a success.
  and_then-Complete :
      (first : Result FileRemoteError (Unit {0}) × S)
      (next : S → Result FileRemoteError (Unit {0}) × S)
      → Complete first.1
      → (first.0 ≡ ok tt → Complete (next first.1).1)
      → Complete (and_then r (λ t. t) first next).1
  and_then-Complete (err e, s) next c k = c
  and_then-Complete (ok u, s) next c k = k refl

  module _ (hex_encode : Bytes → Bytes) where
    write_files-Complete :
        (d : PackFileDescriptor) (header body : Bytes) (s : S)
        → Complete s
        → Complete (write_files r hex_encode d header body s).1
    unfolding write_files
    write_files-Complete d header body s c =
        let base = stem r hex_encode d in
        and_then-Complete (r.write s (base ++ body_ext) body)
          (λ s'. r.write s' (base ++ header_ext) header) (write_body-Complete s base body c)
          λ done.
            write_header-Complete (r.write s (base ++ body_ext) body).1 base header
              (write_body-Complete s base body c)
              (there (sym (r.write_same s (base ++ body_ext) body done)) tt)

    write_pack-Complete :
        (self_id : Bytes) (pack : PackData) (s : S)
        → Complete s
        → Complete (write_pack r hex_encode self_id pack s).1
    unfolding write_pack
    write_pack-Complete self_id pack s c =
        elim (Bool-cases (same_bytes pack.descriptor.peer_id self_id)) [
          | inr other ↦ rw other c
          | inl own ↦ elim (Result-cases (encode_signed pack.header [])) [
            | inr (e, failed) ↦ rw (own, failed) c
            | inl (header, encoded) ↦
                rw (own, encoded) (write_files-Complete pack.descriptor header pack.body s c)
          ]
        ]

    delete_pack-Complete :
        (d : PackFileDescriptor) (s : S) → Complete s → Complete (delete_pack r hex_encode d s).1
    unfolding delete_pack
    delete_pack-Complete d s c =
        let base = stem r hex_encode d in
        and_then-Complete (r.delete s (base ++ header_ext)) (λ s'. r.delete s' (base ++ body_ext))
          (delete_header-Complete s base c)
          λ done.
            delete_body-Complete (r.delete s (base ++ header_ext)).1 base
              (delete_header-Complete s base c) (r.delete_same s (base ++ header_ext) done)

-- What a process does with a store, call by call.
pub data StoreOp : Type 0 where
  writes : PackData → StoreOp
  deletes : PackFileDescriptor → StoreOp

module _ {S : Type 0} (r : FileRemote S) (hex_encode : Bytes → Bytes) where
  unfoldable pub run_ops : Bytes → List StoreOp → S → S
  run_ops self_id [] s = s
  run_ops self_id (StoreOp.writes pack ∷ ops) s =
      run_ops self_id ops (write_pack r hex_encode self_id pack s).1
  run_ops self_id (StoreOp.deletes d ∷ ops) s = run_ops self_id ops (delete_pack r hex_encode d s).1

  -- If every header in a remote has its body, then so it is after any sequence of writes and deletions
  -- of packs, whichever calls of the remote failed in them.
  pub run_ops-Complete :
      (self_id : Bytes) (ops : List StoreOp) (s : S)
      → Complete r s
      → Complete r (run_ops self_id ops s)
  unfolding run_ops
  run_ops-Complete self_id [] s c = c
  run_ops-Complete self_id (StoreOp.writes pack ∷ ops) s c =
      run_ops-Complete self_id ops (write_pack r hex_encode self_id pack s).1
        (write_pack-Complete r hex_encode self_id pack s c)
  run_ops-Complete self_id (StoreOp.deletes d ∷ ops) s c =
      run_ops-Complete self_id ops (delete_pack r hex_encode d s).1
        (delete_pack-Complete r hex_encode d s c)
