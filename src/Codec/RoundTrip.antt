-- ===== src/Codec/RoundTrip.antt =====
-- Every `read_*` of the reader undoes the `write_*` of the writer, and leaves what follows.
use ubiquisync.Prelude.{ℕ, zero, suc, ◌-◌, ◌/◌, ◌^◌, ◌≤◌, ◌<◌, ◌≡◌, refl, ap, arith}
use ubiquisync.Prelude.{[], ◌∷◌, ◌++◌, append_assoc, length, Bytes, IsU64}
use ubiquisync.Prelude.{ok, err, some, inl, inr}
use ubiquisync.Prelude.{◌⊎◌}
use native.Mathlib.Nat.{pow-suc}
use native.Mathlib.Decide.{dec_lt}
use ubiquisync.Codec.Varint.{encode_var_u64}
use ubiquisync.Codec.Varint.RoundTrip.{decode_var_u64-encode_var_u64}
use ubiquisync.Codec.Writer.{
  Writer, Range, WriteError, write_len_prefixed, to_le_bytes, write_range,
}
use ubiquisync.Codec.Reader.{split_at_checked, read_slice, read_var_usize}
use ubiquisync.Codec.Reader.{read_len_prefixed, from_le_bytes, read_le, read_range}

split_at_checked-append :
    (bs rest : Bytes) → split_at_checked (length bs) (bs ++ rest) ≡ some (bs, rest)
unfolding split_at_checked
split_at_checked-append [] rest = refl
split_at_checked-append (b ∷ bs) rest = rw (split_at_checked-append bs rest)

pub read_slice-append :
    (n : ℕ) (bs rest : Bytes) → length bs ≡ n → read_slice n (bs ++ rest) ≡ ok (bs, rest)
unfolding read_slice
read_slice-append n bs rest h = rw (← h, split_at_checked-append bs rest)

pub read_var_usize-encode_var_u64 :
    (v : ℕ) (rest : Bytes) → IsU64 v → read_var_usize (encode_var_u64 v ++ rest) ≡ ok (v, rest)
unfolding read_var_usize
read_var_usize-encode_var_u64 v rest h = rw (decode_var_u64-encode_var_u64 v rest h) (ground arith)

pub read_len_prefixed-bytes :
    (bs rest : Bytes)
    → IsU64 (length bs)
    → read_len_prefixed (encode_var_u64 (length bs) ++ (bs ++ rest)) ≡ ok (bs, rest)
unfolding read_len_prefixed
read_len_prefixed-bytes bs rest h =
    rw (read_var_usize-encode_var_u64 (length bs) (bs ++ rest) h)
      (read_slice-append (length bs) bs rest refl)

-- A byte slice whose length fits the word is read back by its length prefix, whatever follows it.
pub read_len_prefixed-write_len_prefixed :
    (bs rest : Bytes)
    → IsU64 (length bs)
    → read_len_prefixed (write_len_prefixed bs [] ++ rest) ≡ ok (bs, rest)
read_len_prefixed-write_len_prefixed bs rest h =
    rw (append_assoc (encode_var_u64 (length bs)) bs rest) (read_len_prefixed-bytes bs rest h)

pub length-to_le_bytes : (k x : ℕ) → length (to_le_bytes k x) ≡ k
unfolding to_le_bytes
length-to_le_bytes zero x = refl
length-to_le_bytes (suc k) x = ap suc (length-to_le_bytes k (x / 256))

pub from_le_bytes-to_le_bytes : (k x : ℕ) → x < 256 ^ k → from_le_bytes (to_le_bytes k x) ≡ x
unfolding to_le_bytes from_le_bytes
from_le_bytes-to_le_bytes zero x h = omega arith
from_le_bytes-to_le_bytes (suc k) x h =
    omega (arith, from_le_bytes-to_le_bytes k (x / 256) (omega (arith, pow-suc 256 k)))

-- A fixed-width little-endian number of `k` bytes is read back, if it fits them.
pub read_le-to_le_bytes :
    (k x : ℕ) (rest : Bytes) → x < 256 ^ k → read_le k (to_le_bytes k x ++ rest) ≡ ok (x, rest)
unfolding read_le
read_le-to_le_bytes k x rest h =
    rw (read_slice-append k (to_le_bytes k x) rest (length-to_le_bytes k x))
      (ap (λ (t : ℕ). ok (t, rest)) (from_le_bytes-to_le_bytes k x h))

-- A range that the writer accepts, and whose end fits the word.
abbrev pub IsRange : Range → Type 0
IsRange r = (r.start < r.end) × IsU64 r.end

unfoldable pub range_bytes : Range → Bytes
range_bytes r = encode_var_u64 r.start ++ encode_var_u64 (r.end - r.start)

pub write_range-bytes :
    (r : Range) (w : Writer) → IsRange r → write_range r w ≡ ok (w ++ range_bytes r)
unfolding write_range range_bytes
write_range-bytes r w (lt, _) =
    ground (arith, append_assoc w (encode_var_u64 r.start) (encode_var_u64 (r.end - r.start)))

pub read_range-bytes :
    (r : Range) (rest : Bytes) → IsRange r → read_range (range_bytes r ++ rest) ≡ ok (r, rest)
unfolding read_range range_bytes
read_range-bytes r rest (lt, fits) =
    let span = r.end - r.start in
    rw
      (
        append_assoc (encode_var_u64 r.start) (encode_var_u64 span) rest,
        decode_var_u64-encode_var_u64 r.start (encode_var_u64 span ++ rest) (omega arith),
        decode_var_u64-encode_var_u64 span rest (omega arith),
      )
      (ground arith)

-- A range whose end fits the word is written, and read back, exactly as the writer's guard allows: one that is not empty
-- and ends inside the word comes back and leaves what follows, an empty one is refused.
pub read_range-write_range :
    (r : Range) (w rest : Bytes)
    → IsU64 r.end
    → (write_range r w ≡ err (WriteError.empty_range r)) × (r.end ≤ r.start)
      ⊎ ((bs : Bytes) × (write_range r w ≡ ok (w ++ bs)) × (read_range (bs ++ rest) ≡ ok (r, rest)))
read_range-write_range r w rest h = elim (dec_lt r.start r.end) [
  | yes p ↦ inr (range_bytes r, write_range-bytes r w (p, h), read_range-bytes r rest (p, h))
  | no p ↦ inl (unfold write_range in ground arith, omega arith)
]

-- Whatever range `read_range` returns is non-empty and ends inside the word, so that the writer
-- accepts it again: no span of zero and no wrapped end gets through.
pub read_range-IsRange :
    (buf : Bytes) (r : Range) (rest : Bytes) → read_range buf ≡ ok (r, rest) → IsRange r
unfolding read_range
read_range-IsRange buf r rest e = ground arith
