-- ===== src/Tables/Codec.antt =====
-- crates/ubiquisync-tables/src/codec.rs: the wire form of table ops, which the types in the ids
-- shape. A text is its UTF-8 bytes; the boxed error of `OpCodec` is the codec's own.

pub mod Values
pub mod Written
pub mod RoundTrip
pub mod Inverse
pub mod Canonical
pub mod Accepts
use ubiquisync.Prelude.{ℕ, zero, suc, ◌+◌, List, [], ◌∷◌, Bytes, Bool, false, ◌==◌, ◌||◌}
use ubiquisync.Prelude.{length, not, ltb, same_bytes, is_utf8, if◌then◌else◌}
use ubiquisync.Prelude.{Result, ok, err, ◌>>=◌, map_err}
use ubiquisync.Codec.Varint.{ReadError}
use ubiquisync.Codec.Writer.{Writer, write_byte, write_array, write_len_prefixed, write_le_u16}
use ubiquisync.Codec.Writer.{write_var_u64, write_zigzag_i64, finalize}
use ubiquisync.Codec.Reader.{Read, is_empty, read_byte, read_array, read_len_prefixed, read_le_u16}
use ubiquisync.Codec.Reader.{read_var_u64, read_zigzag_i64, usize_max}
use ubiquisync.Tables.Op.{Op, Upsert, Delete, ColumnSet}
use ubiquisync.Tables.Id.{ColType, Value, pk_count, pk_col_type, column_type}

abbrev pub tag_upsert : ℕ
tag_upsert = 0

abbrev pub tag_delete : ℕ
tag_delete = 1

pub data TextContainsNul : Type 0 where
  text_contains_nul : TextContainsNul

pub data EncodeOpError : Type 0 where
  pk_count_mismatch : ℕ → ℕ → EncodeOpError
  pk_value_mismatch text_contains_nul column_value_mismatch : EncodeOpError

pub data DecodeOpError : Type 0 where
  read : ReadError → DecodeOpError
  unknown_tag length_too_large : ℕ → DecodeOpError
  utf_conversion text_contains_nul trailing_bytes : DecodeOpError
  wrong_container : Bytes → Bytes → DecodeOpError

abbrev pub has_nul : Bytes → Bool
has_nul [] = false
has_nul (b ∷ s) = b == 0 || has_nul s

unfoldable pub check_text_for_nul : Bytes → Result TextContainsNul (Unit {0})
check_text_for_nul s = if has_nul s then err TextContainsNul.text_contains_nul else ok tt

unfoldable pub write_str : Bytes → Writer → Result EncodeOpError Writer
unfolding check_text_for_nul
write_str s w = do
  u ← map_err (λ e. EncodeOpError.text_contains_nul) (check_text_for_nul s)
  ok (write_len_prefixed s w)

-- One value of a primary key, by the type that the table id declares for it.
unfoldable pub write_pk_value : ColType → Value → Writer → Result EncodeOpError Writer
unfolding write_str
write_pk_value ColType.bytes (Value.bytes_value b) w = ok (write_len_prefixed b w)
write_pk_value ColType.uuid (Value.uuid_value u) w = ok (write_array u w)
write_pk_value ColType.text (Value.text_value s) w = write_str s w
write_pk_value ColType.i64 (Value.i64_value n) w = ok (write_zigzag_i64 n w)
write_pk_value col_type v w = err EncodeOpError.pk_value_mismatch

-- The loop of `write_pk`, from an index on.
unfoldable pub write_pk_from : ℕ → ℕ → List Value → Writer → Result EncodeOpError Writer
unfolding write_pk_value
write_pk_from table_id i [] w = ok w
write_pk_from table_id i (v ∷ pk) w = do
  w' ← write_pk_value (pk_col_type table_id i) v w
  write_pk_from table_id (i + 1) pk w'

unfoldable pub write_pk : ℕ → List Value → Writer → Result EncodeOpError Writer
unfolding write_pk_from
write_pk table_id pk w =
    if length pk == pk_count table_id
    then write_pk_from table_id 0 pk w
    else err (EncodeOpError.pk_count_mismatch (pk_count table_id) (length pk))

unfoldable pub write_typed_value : ColType → Value → Writer → Result EncodeOpError Writer
unfolding write_str
write_typed_value ColType.bytes (Value.bytes_value b) w = ok (write_len_prefixed b w)
write_typed_value ColType.text (Value.text_value s) w = write_str s w
write_typed_value ColType.i64 (Value.i64_value n) w = ok (write_zigzag_i64 n w)
write_typed_value ColType.uuid (Value.uuid_value u) w = ok (write_array u w)
write_typed_value col_type v w = err EncodeOpError.column_value_mismatch

unfoldable pub write_col_value : ℕ → Value → Writer → Result EncodeOpError Writer
unfolding write_typed_value
write_col_value column_id value w = write_typed_value (column_type column_id) value w

-- The two loops of `encode_one_value`.
unfoldable pub write_sets : List (ColumnSet Value) → Writer → Result EncodeOpError Writer
unfolding write_col_value
write_sets [] w = ok w
write_sets (s ∷ sets) w = do
  w' ← write_col_value s.column_id s.value (write_byte s.column_id w)
  write_sets sets w'

abbrev pub write_nulls : List ℕ → Writer → Writer
write_nulls [] w = w
write_nulls (c ∷ nulls) w = write_nulls nulls (write_byte c w)

unfoldable pub encode_one_key : ℕ → List Value → Writer → Result EncodeOpError Writer
unfolding write_pk
encode_one_key table_id pkey w = write_pk table_id pkey (write_le_u16 table_id w)

unfoldable pub encode_one_value : Upsert Value → Writer → Result EncodeOpError Writer
unfolding write_sets
encode_one_value e w = do
  w' ← write_sets e.sets (write_var_u64 (length e.sets) w)
  ok (write_nulls e.nulls (write_var_u64 (length e.nulls) w'))

unfoldable pub encode_one_op : Op Value → Writer → Result EncodeOpError Writer
unfolding encode_one_key encode_one_value
encode_one_op (Op.upsert e) w = do
  w' ← encode_one_key e.table_id e.primary_key (write_byte tag_upsert w)
  encode_one_value e w'
encode_one_op (Op.delete e) w = encode_one_key e.table_id e.primary_key (write_byte tag_delete w)

unfoldable pub read_str : Read DecodeOpError Bytes
unfolding check_text_for_nul
read_str r = do
  (s, r') ← map_err DecodeOpError.read (read_len_prefixed r)
  u ← (if is_utf8 s then ok tt else err DecodeOpError.utf_conversion)
  v ← map_err (λ e. DecodeOpError.text_contains_nul) (check_text_for_nul s)
  ok (s, r')

abbrev pub read_string : Read DecodeOpError Bytes
read_string r = read_str r

-- A value of the type that an id declares, in `read_pk` and `read_col_value`.
unfoldable pub read_value : ColType → Read DecodeOpError Value
unfolding read_str
read_value ColType.bytes r = do
  (b, r') ← map_err DecodeOpError.read (read_len_prefixed r)
  ok (Value.bytes_value b, r')
read_value ColType.uuid r = do
  (u, r') ← map_err DecodeOpError.read (read_array 16 r)
  ok (Value.uuid_value u, r')
read_value ColType.text r = do (s, r') ← read_string r; ok (Value.text_value s, r')
read_value ColType.i64 r = do
  (n, r') ← map_err DecodeOpError.read (read_zigzag_i64 r)
  ok (Value.i64_value n, r')

-- The loop of `read_pk`: the rounds that are left, and the index.
unfoldable pub read_pk_from : ℕ → ℕ → ℕ → Read DecodeOpError (List Value)
unfolding read_value
read_pk_from table_id zero i r = ok ([], r)
read_pk_from table_id (suc n) i r = do
  (v, r') ← read_value (pk_col_type table_id i) r
  (pk, r'') ← read_pk_from table_id n (i + 1) r'
  ok (v ∷ pk, r'')

unfoldable pub read_pk : ℕ → Read DecodeOpError (List Value)
unfolding read_pk_from
read_pk table_id r = read_pk_from table_id (pk_count table_id) 0 r

unfoldable pub read_col_value : ℕ → Read DecodeOpError Value
unfolding read_value
read_col_value column_id r = read_value (column_type column_id) r

unfoldable pub read_column_id : Read DecodeOpError ℕ
unfolding read_byte
read_column_id r = map_err DecodeOpError.read (read_byte r)

-- `read_var_u64` and the `try_into` behind it.
unfoldable pub read_count : Read DecodeOpError ℕ
read_count r = do
  (raw, r') ← map_err DecodeOpError.read (read_var_u64 r)
  if ltb usize_max raw then err (DecodeOpError.length_too_large raw) else ok (raw, r')

-- The two loops of `decode_one_value`.
unfoldable pub read_sets : ℕ → Read DecodeOpError (List (ColumnSet Value))
unfolding read_column_id read_col_value
read_sets zero r = ok ([], r)
read_sets (suc n) r = do
  (column_id, r₁) ← read_column_id r
  (value, r₂) ← read_col_value column_id r₁
  (sets, r₃) ← read_sets n r₂
  ok (record { column_id = column_id; value = value } ∷ sets, r₃)

unfoldable pub read_nulls : ℕ → Read DecodeOpError (List ℕ)
unfolding read_column_id
read_nulls zero r = ok ([], r)
read_nulls (suc n) r = do
  (column_id, r') ← read_column_id r
  (nulls, r'') ← read_nulls n r'
  ok (column_id ∷ nulls, r'')

unfoldable pub decode_one_key : Read DecodeOpError (ℕ × List Value)
unfolding read_pk
decode_one_key r = do
  (table_id, r') ← map_err DecodeOpError.read (read_le_u16 r)
  (primary_key, r'') ← read_pk table_id r'
  ok ((table_id, primary_key), r'')

unfoldable pub decode_one_value : Read DecodeOpError (List (ColumnSet Value) × List ℕ)
unfolding read_count read_sets read_nulls
decode_one_value r = do
  (set_count, r₁) ← read_count r
  (sets, r₂) ← read_sets set_count r₁
  (null_count, r₃) ← read_count r₂
  (nulls, r₄) ← read_nulls null_count r₃
  ok ((sets, nulls), r₄)

unfoldable pub decode_one_op : Read DecodeOpError (Op Value)
unfolding read_byte decode_one_key decode_one_value
decode_one_op r = do
  (tag, r₁) ← map_err DecodeOpError.read (read_byte r)
  if tag == tag_upsert
      then (do
        ((table_id, primary_key), r₂) ← decode_one_key r₁
        ((sets, nulls), r₃) ← decode_one_value r₂
        ok (
          Op.upsert (record {
            table_id = table_id;
            primary_key = primary_key;
            sets = sets;
            nulls = nulls;
          }),
          r₃,
        ))
      else if tag == tag_delete
      then (do
        ((table_id, primary_key), r₂) ← decode_one_key r₁
        ok (Op.delete (record { table_id = table_id; primary_key = primary_key }), r₂))
      else err (DecodeOpError.unknown_tag tag)

pub record Codec : Type 0 where
  pub container_id : Bytes

-- `OpEncodeError` and `OpDecodeError`, of ubiquisync-sql.
pub data OpEncodeError : Type 0 where
  invalid : EncodeOpError → OpEncodeError

pub data OpDecodeError : Type 0 where
  invalid : DecodeOpError → OpDecodeError

unfoldable pub encode : Codec → Op Value → Result OpEncodeError (Bytes × Bytes)
unfolding encode_one_op
encode codec op = do
  w ← map_err OpEncodeError.invalid (encode_one_op op [])
  ok (codec.container_id, finalize w)

unfoldable pub do_decode : Codec → Bytes → Bytes → Result DecodeOpError (Op Value)
unfolding decode_one_op
do_decode codec container_id buf =
    if not (same_bytes codec.container_id container_id)
    then err (DecodeOpError.wrong_container container_id codec.container_id)
    else (do
      (op, r) ← decode_one_op buf
      if is_empty r then ok op else err DecodeOpError.trailing_bytes)

unfoldable pub decode : Codec → Bytes → Bytes → Result OpDecodeError (Op Value)
unfolding do_decode
decode codec container_id op = map_err OpDecodeError.invalid (do_decode codec container_id op)
