-- ===== src/Codec/Writer.antt =====
-- crates/ubiquisync-core/src/codec/writer.rs. A `Writer` is its buffer; a method takes the writer
-- last and returns it with the bytes appended.
use ubiquisync.Prelude.{ℕ, zero, suc, ◌-◌, ◌/◌, ◌%◌, List, [], ◌∷◌, ◌++◌, length, Bytes, leb}
use ubiquisync.Prelude.{Result, ok, err, ◌>>=◌, Option, none, some, if◌then◌else◌}
use ubiquisync.Codec.Varint.{encode_var_u64, encode_zigzag_i64}

abbrev pub Writer : Type 0
Writer = Bytes

-- `Range<u64>`.
pub record Range : Type 0 where
  pub start : ℕ
  pub end : ℕ

pub data WriteError : Type 0 where
  empty_range : Range → WriteError

abbrev pub write_slice : Bytes → Writer → Writer
write_slice bytes w = w ++ bytes

abbrev pub write_array : Bytes → Writer → Writer
write_array array w = w ++ array

abbrev pub write_byte : ℕ → Writer → Writer
write_byte x w = w ++ (x ∷ [])

abbrev pub write_var_u64 : ℕ → Writer → Writer
write_var_u64 x w = write_slice (encode_var_u64 x) w

abbrev pub write_var_usize : ℕ → Writer → Writer
write_var_usize x w = write_var_u64 x w

abbrev pub write_len_prefixed : Bytes → Writer → Writer
write_len_prefixed bytes w = write_slice bytes (write_var_u64 (length bytes) w)

-- `x.to_le_bytes()`, for a number of `k` bytes.
unfoldable pub to_le_bytes : ℕ → ℕ → Bytes
to_le_bytes zero x = []
to_le_bytes (suc k) x = x % 256 ∷ to_le_bytes k (x / 256)

abbrev pub write_le_u16 : ℕ → Writer → Writer
write_le_u16 x w = write_slice (to_le_bytes 2 x) w

abbrev pub write_le_u64 : ℕ → Writer → Writer
write_le_u64 x w = write_slice (to_le_bytes 8 x) w

abbrev pub write_zigzag_i64 : ℕ → Writer → Writer
write_zigzag_i64 x w = write_slice (encode_zigzag_i64 x) w

-- A range is empty unless its start lies below its end.
unfoldable pub write_range : Range → Writer → Result WriteError Writer
write_range range w =
    if leb range.end range.start
    then err (WriteError.empty_range range)
    else ok (write_var_u64 (range.end - range.start) (write_var_u64 range.start w))

unfoldable pub write_option : {A : Type 0} → Option A → (A → Writer → Writer) → Writer → Writer
write_option none f w = write_byte 0 w
write_option (some t) f w = f t (write_byte 1 w)

-- The loop of `write_vec`.
unfoldable pub write_each :
    {A E : Type 0} → (A → Writer → Result E Writer) → List A → Writer → Result E Writer
write_each f [] w = ok w
write_each f (x ∷ xs) w = f x w >>= λ w'. write_each f xs w'

unfoldable pub write_vec :
    {A E : Type 0} → List A → (A → Writer → Result E Writer) → Writer → Result E Writer
write_vec v f w = write_each f v (write_var_usize (length v) w)

abbrev pub finalize : Writer → Bytes
finalize w = w
