-- ===== src/Codec/Inverse.antt =====
-- What a successful read says of the bytes it read: they are those that the writer puts out.
use ubiquisync.Prelude.{
  ℕ, zero, suc, ◌+◌, ◌-◌, ◌*◌, ◌/◌, ◌%◌, ◌^◌, ◌<◌, ◌≡◌, refl, sym, ap, ◌∙◌, arith,
}
use ubiquisync.Prelude.{List, [], ◌∷◌, ◌++◌, append_assoc, length, All, Bytes, IsByte, IsU64}
use ubiquisync.Prelude.{true, Result, ok, err, >>=-eq-ok, Option, some, none, ok_or}
use mathlib.Core.Path.{subst}
use native.Mathlib.Nat.{pow-suc}
use ubiquisync.Codec.Varint.{ReadError, encode_var_u64, encode_zigzag_i64}
use ubiquisync.Codec.Varint.Canonical.{decode_var_u64_canonical}
use ubiquisync.Codec.Varint.Zigzag.{decode_zigzag_i64_canonical}
use ubiquisync.Codec.Writer.{to_le_bytes}
use ubiquisync.Codec.Writer.{Range}
use ubiquisync.Codec.Reader.{read_range, read_each, read_vec}
use ubiquisync.Codec.RoundTrip.{IsRange, range_bytes, read_range-IsRange}
use ubiquisync.Codec.Containers.{each_bytes, vec_bytes}
use ubiquisync.Prelude.{map_err}
use ubiquisync.Codec.Reader.{
  is_empty, Read, Reader, read_byte, split_at_checked, read_slice, read_var_u64,
}
use ubiquisync.Codec.Reader.{read_var_usize, read_len_prefixed, from_le_bytes, read_le}
use ubiquisync.Codec.Reader.{read_zigzag_i64}
use ubiquisync.Log.Entry.RoundTrip.{len_bytes}

-- `dec` returns only values that satisfy `P`, and only from the bytes of the value.
abbrev pub Inverts : {A E : Type 0} → Read E A → (A → Type 0) → (A → Bytes) → Type 0
Inverts {A} dec P bytes =
    (buf : Bytes) (a : A) (rest : Bytes)
    → All IsByte buf
    → dec buf ≡ ok (a, rest)
    → (buf ≡ bytes a ++ rest) × P a × All IsByte rest

All-append-right : (P : ℕ → Type 0) (xs ys : List ℕ) → All P (xs ++ ys) → All P ys
All-append-right P [] ys h = h
All-append-right P (x ∷ xs) ys h = All-append-right P xs ys h.1

All-append-left : (P : ℕ → Type 0) (xs ys : List ℕ) → All P (xs ++ ys) → All P xs
All-append-left P [] ys h = tt
All-append-left P (x ∷ xs) ys h = (h.0, All-append-left P xs ys h.1)

-- The bytes that are left are among those that were there.
pub rest_bytes : (buf front rest : Bytes) → All IsByte buf → buf ≡ front ++ rest → All IsByte rest
rest_bytes buf front rest h e = All-append-right IsByte front rest (rw (← e) h)

pub front_bytes : (buf front rest : Bytes) → All IsByte buf → buf ≡ front ++ rest → All IsByte front
front_bytes buf front rest h e = All-append-left IsByte front rest (rw (← e) h)

pub ok_or_inv : {E A : Type 0} (x : E) {a : A} (o : Option A) → ok_or x o ≡ ok a → o ≡ some a
ok_or_inv x none e = cc
ok_or_inv x (some b) e = ground arith

-- What a read that succeeds returned.
pub returned :
    {A E : Type 0} {a b : A} {r s : Bytes}
    → ◌≡◌ {A = Result E (A × Reader)} (ok (a, r)) (ok (b, s))
    → (a ≡ b) × (r ≡ s)
returned e = ground arith

pub no_rest : (r : Reader) → is_empty r ≡ true → r ≡ []
no_rest [] h = refl
no_rest (b ∷ r) h = cc

pub read_byte-Inverts : Inverts read_byte IsByte (λ b. b ∷ [])
unfolding read_byte
read_byte-Inverts [] a rest h e = cc
read_byte-Inverts (b ∷ buf) a rest h e =
    let (eb, er) = returned e in rw (← eb, ← er) (refl, h.0, h.1)

split_some :
    (b : ℕ) (o : Option (Bytes × Bytes)) {bs rest : Bytes}
    → ◌≡◌ {A = Option (Bytes × Bytes)}
        (elim o [ none ↦ none | some (bz, r) ↦ some (b ∷ bz, r) ])
        (some (bs, rest))
    → (bz : Bytes) × (b ∷ bz ≡ bs) × (o ≡ some (bz, rest))
split_some b none e = cc
split_some b (some (bz, r)) e = (bz, ground arith, ground arith)

split_at_checked-Inverts :
    (n : ℕ) (buf bs rest : Bytes)
    → split_at_checked n buf ≡ some (bs, rest)
    → (buf ≡ bs ++ rest) × (length bs ≡ n)
unfolding split_at_checked
split_at_checked-Inverts zero buf bs rest e =
    let p : ([] ≡ bs) × (buf ≡ rest) = ground arith in rw (← p.0, p.1) (refl, refl)
split_at_checked-Inverts (suc n) [] bs rest e = cc
split_at_checked-Inverts (suc n) (b ∷ buf) bs rest e =
    let (bz, eb, eo) = split_some b (split_at_checked n buf) e in
    let (ih, len) = split_at_checked-Inverts n buf bz rest eo in rw (← eb, ih) (refl, ap suc len)

pub read_slice-Inverts : (n : ℕ) → Inverts (read_slice n) (λ bs. length bs ≡ n) (λ bs. bs)
unfolding read_slice
read_slice-Inverts n buf bs rest h e =
    let (split, len) =
      split_at_checked-Inverts n buf bs rest (ok_or_inv _ (split_at_checked n buf) e) in
    (split, len, rest_bytes buf bs rest h split)

pub read_var_u64-Inverts : Inverts read_var_u64 IsU64 encode_var_u64
read_var_u64-Inverts buf v rest h e =
    let (split, fits) = decode_var_u64_canonical buf v rest h e in
    (split, fits, rest_bytes buf (encode_var_u64 v) rest h split)

pub read_zigzag_i64-Inverts : Inverts read_zigzag_i64 IsU64 encode_zigzag_i64
read_zigzag_i64-Inverts buf v rest h e =
    let (split, fits) = decode_zigzag_i64_canonical buf v rest h e in
    (split, fits, rest_bytes buf (encode_zigzag_i64 v) rest h split)

read_var_usize-Inverts : Inverts read_var_usize IsU64 encode_var_u64
unfolding read_var_usize
read_var_usize-Inverts buf v rest h e =
    let ((n, r), en, eu) = >>=-eq-ok (read_var_u64 buf) e in
    let (split, fits, left) = read_var_u64-Inverts buf n r h eu in
    let p : (n ≡ v) × (r ≡ rest) = ground arith in rw (← p.0, ← p.1) (split, fits, left)

pub read_len_prefixed-Inverts : Inverts read_len_prefixed (λ bs. IsU64 (length bs)) len_bytes
unfolding read_len_prefixed len_bytes
read_len_prefixed-Inverts buf bs rest h e =
    let ((n, r), en, eu) = >>=-eq-ok (read_var_usize buf) e in
    let (split, fits, left) = read_var_usize-Inverts buf n r h eu in
    let (split', len, left') = read_slice-Inverts n r bs rest left en in
    rw (split, split', len) (sym (append_assoc (encode_var_u64 n) bs rest), fits, left')

to_le_bytes-from_le_bytes :
    (bs : Bytes) → All IsByte bs → to_le_bytes (length bs) (from_le_bytes bs) ≡ bs
unfolding to_le_bytes from_le_bytes
to_le_bytes-from_le_bytes [] h = refl
to_le_bytes-from_le_bytes (b ∷ bs) (hb, hs) =
    let low : (b + 256 * from_le_bytes bs) % 256 ≡ b = omega arith in
    let high : (b + 256 * from_le_bytes bs) / 256 ≡ from_le_bytes bs = omega arith in
    rw (low, high, to_le_bytes-from_le_bytes bs hs)

from_le_bytes_bound : (bs : Bytes) → All IsByte bs → from_le_bytes bs < 256 ^ length bs
unfolding from_le_bytes
from_le_bytes_bound [] h = omega arith
from_le_bytes_bound (b ∷ bs) (hb, hs) =
    omega (arith, from_le_bytes_bound bs hs, pow-suc 256 (length bs))

pub read_le-Inverts : (k : ℕ) → Inverts (read_le k) (λ x. x < 256 ^ k) (to_le_bytes k)
unfolding read_le
read_le-Inverts k buf x rest h e =
    let ((bs, r), en, eu) = >>=-eq-ok (read_slice k buf) e in
    let (split, len, left) = read_slice-Inverts k buf bs r h eu in
    let (ex, er) = returned en in
    let front = front_bytes buf bs r h split in
    rw (← ex, ← er, ← len)
      (rw (to_le_bytes-from_le_bytes bs front) split, from_le_bytes_bound bs front, left)

pub map_err_inv :
    {E F A : Type 0} (f : E → F) {a : A} (m : Result E A) → map_err f m ≡ ok a → m ≡ ok a
map_err_inv f (ok b) e = ground arith
map_err_inv f (err x) e = cc

-- A conversion of errors changes nothing.
pub map_err-Inverts :
    {A E F : Type 0} (P : A → Type 0) (bytes : A → Bytes) (f : E → F) (dec : Read E A)
    → Inverts dec P bytes
    → Inverts (λ r. map_err f (dec r)) P bytes
map_err-Inverts P bytes f dec hd buf a rest h e = hd buf a rest h (map_err_inv f (dec buf) e)

join_range :
    (start span : ℕ) (buf r r' : Bytes) (range : Range)
    → buf ≡ encode_var_u64 start ++ r
    → r ≡ encode_var_u64 span ++ r'
    → start ≡ range.start
    → range.end - range.start ≡ span
    → buf ≡ range_bytes range ++ r'
unfolding range_bytes
join_range start span buf r r' range h k p q =
    rw (h, k, p, ← q)
      (sym
        (append_assoc (encode_var_u64 range.start) (encode_var_u64 (range.end - range.start)) r'))

pub read_range-Inverts : Inverts read_range IsRange range_bytes
unfolding range_bytes read_range
read_range-Inverts buf range rest h e =
    let ((start, r), en, es) = >>=-eq-ok (read_var_u64 buf) e in
    let ((span, r'), em, ep) = >>=-eq-ok (read_var_u64 r) en in
    let (split, _, left) = read_var_u64-Inverts buf start r h es in
    let (split', _, left') = read_var_u64-Inverts r span r' left ep in
    let (p, q, z) : (start ≡ range.start) × (range.end - range.start ≡ span) × (r' ≡ rest) =
      ground arith in
    (
      join_range start span buf r r' range split split' p q ∙ ap (λ t. range_bytes range ++ t) z,
      read_range-IsRange buf range rest e,
      subst (All IsByte) z left',
    )

module _ {A E : Type 0} (P : A → Type 0) (bytes : A → Bytes) (from : ReadError → E) (dec : Read E A)
    (hd : Inverts dec P bytes) where
  read_each-Inverts :
      (n : ℕ) (buf : Bytes) (v : List A) (rest : Bytes)
      → All IsByte buf
      → read_each from dec n buf ≡ ok (v, rest)
      → (buf ≡ each_bytes bytes v ++ rest) × All P v × All IsByte rest × (length v ≡ n)
  unfolding read_each
  read_each-Inverts zero buf v rest h e =
      let (ev, er) = returned e in rw (← ev, ← er) (refl, tt, h, refl)
  read_each-Inverts (suc n) buf v rest h e =
      let ((a, r), en, ea) = >>=-eq-ok (dec buf) e in
      let ((as', r'), em, eas) = >>=-eq-ok (read_each from dec n r) en in
      let (split, pa, left) = hd buf a r h ea in
      let (split', pas, left', len) = read_each-Inverts n r as' r' left eas in
      let (ev, er) = returned em in
      rw (← ev, ← er)
        (
          (rw (split, split') (sym (append_assoc (bytes a) (each_bytes bytes as') r'))),
          (pa, pas),
          left',
          ap suc len,
        )

  counted :
      (n : ℕ) (buf r : Bytes) (v : List A) (rest : Bytes)
      → buf ≡ encode_var_u64 n ++ r
      → r ≡ each_bytes bytes v ++ rest
      → length v ≡ n
      → buf ≡ vec_bytes bytes v ++ rest
  counted n buf r v rest h k len =
      rw (h, k, ← len) (sym (append_assoc (encode_var_u64 (length v)) (each_bytes bytes v) rest))

  pub read_vec-Inverts :
      Inverts (read_vec from dec) (λ v. All P v × IsU64 (length v)) (vec_bytes bytes)
  unfolding read_vec
  read_vec-Inverts buf v rest h e =
      let ((n, r), en, eu) = >>=-eq-ok (map_err from (read_var_usize buf)) e in
      let (split, fits, left) =
        map_err-Inverts IsU64 encode_var_u64 from read_var_usize read_var_usize-Inverts buf n r h
          eu in
      let (split', all, left', len) = read_each-Inverts n r v rest left en in
      (counted n buf r v rest split split' len, (all, rw len fits), left')
