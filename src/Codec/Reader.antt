-- ===== src/Codec/Reader.antt =====
-- crates/ubiquisync-core/src/codec/reader.rs. A `Reader` is the bytes that are left; a method
-- returns its value with the reader after it. A 64-bit target is assumed for `usize`.
use ubiquisync.Prelude.{ℕ, zero, suc, ◌+◌, ◌-◌, ◌*◌, ◌^◌, List, [], ◌∷◌, Bytes, leb, ltb, ◌==◌}
use ubiquisync.Prelude.{Result, ok, err, ◌>>=◌, map_err, ok_or, Option, none, some}
use ubiquisync.Prelude.{if◌then◌else◌, Bool, true, false}
use ubiquisync.Codec.Varint.{ReadError, decode_var_u64, decode_zigzag_i64}
use ubiquisync.Codec.Writer.{Range}

abbrev pub Reader : Type 0
Reader = Bytes

abbrev pub Read : Type 0 → Type 0 → Type 0
Read E A = Reader → Result E (A × Reader)

unfoldable pub read_byte : Read ReadError ℕ
read_byte [] = err ReadError.unexpected_eof
read_byte (x ∷ rest) = ok (x, rest)

-- `<[u8]>::split_at_checked`.
unfoldable pub split_at_checked : ℕ → Bytes → Option (Bytes × Bytes)
split_at_checked zero buf = some ([], buf)
split_at_checked (suc n) [] = none
split_at_checked (suc n) (x ∷ buf) = elim (split_at_checked n buf) [
  | none ↦ none
  | some (bz, rest) ↦ some (x ∷ bz, rest)
]

unfoldable pub read_slice : ℕ → Read ReadError Bytes
unfolding split_at_checked
read_slice n r = ok_or ReadError.unexpected_eof (split_at_checked n r)

-- `read_array::<N>()`.
abbrev pub read_array : ℕ → Read ReadError Bytes
read_array n = read_slice n

abbrev pub read_var_u64 : Read ReadError ℕ
read_var_u64 r = decode_var_u64 r

abbrev pub usize_max : ℕ
usize_max = 2 ^ 64 - 1

unfoldable pub read_var_usize : Read ReadError ℕ
read_var_usize r = do
  (n, r') ← read_var_u64 r
  if ltb usize_max n then err (ReadError.u_size_overflow n) else ok (n, r')

unfoldable pub read_len_prefixed : Read ReadError Bytes
unfolding read_var_usize read_slice
read_len_prefixed r = do (n, r') ← read_var_usize r; read_slice n r'

unfoldable pub from_le_bytes : Bytes → ℕ
from_le_bytes [] = 0
from_le_bytes (b ∷ bs) = b + 256 * from_le_bytes bs

unfoldable pub read_le : ℕ → Read ReadError ℕ
unfolding read_slice from_le_bytes
read_le k r = do (bs, r') ← read_array k r; ok (from_le_bytes bs, r')

abbrev pub read_le_u64 : Read ReadError ℕ
read_le_u64 r = read_le 8 r

abbrev pub read_le_u16 : Read ReadError ℕ
read_le_u16 r = read_le 2 r

abbrev pub read_zigzag_i64 : Read ReadError ℕ
read_zigzag_i64 r = decode_zigzag_i64 r

unfoldable pub read_range : Read ReadError Range
read_range r = do
  (start, r₁) ← read_var_u64 r
  (span, r₂) ← read_var_u64 r₁
  if span == 0
      then err (ReadError.invalid_range start span)
      else if leb (2 ^ 64) (start + span)
      then err (ReadError.invalid_range start span)
      else ok (record { start = start; end = start + span }, r₂)

-- `from` is the conversion `From<ReadError>` of the caller's error type.
module _ {A E : Type 0} (from : ReadError → E) where
  unfoldable pub read_option : Read E A → Read E (Option A)
  unfolding read_byte
  read_option on_some r = do
    (tag, r') ← map_err from (read_byte r)
    if tag == 0
        then ok (none, r')
        else if tag == 1
        then (on_some r' >>= λ (a, r''). ok (some a, r''))
        else err (from ReadError.invalid_option)

  -- The loop of `read_vec`; the number counts the rounds of `0..n` that are left.
  unfoldable pub read_each : Read E A → ℕ → Read E (List A)
  read_each decode zero r = ok ([], r)
  read_each decode (suc n) r = do
    (a, r') ← decode r
    (as', r'') ← read_each decode n r'
    ok (a ∷ as', r'')

  unfoldable pub read_vec : Read E A → Read E (List A)
  unfolding read_var_usize read_each
  read_vec decode r = do (n, r') ← map_err from (read_var_usize r); read_each decode n r'

abbrev pub is_empty : Reader → Bool
is_empty [] = true
is_empty (x ∷ r) = false

unfoldable pub require_empty : Reader → Result ReadError (Unit {0})
require_empty r = if is_empty r then ok tt else err ReadError.trailing_bytes
