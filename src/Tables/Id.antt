-- ===== src/Tables/Id.antt =====
-- crates/ubiquisync-tables/src/id.rs, col_type.rs and `Value` of op.rs: ids that carry their types.
-- A table id is its u16, a column id its u8.
use ubiquisync.Prelude.{ℕ, ◌+◌, ◌-◌, ◌*◌, ◌/◌, ◌^◌, bit_and, Bytes, Bool, ◌==◌, if◌then◌else◌}

pub data ColType : Type 0 where
  bytes text i64 uuid : ColType

-- `ColType::into_bits`.
abbrev pub into_bits : ColType → ℕ
into_bits ColType.bytes = 0
into_bits ColType.text = 1
into_bits ColType.i64 = 2
into_bits ColType.uuid = 3

unfoldable pub from_bits : ℕ → ColType
from_bits value =
    let low = bit_and value 3 in
    if low == 0
    then ColType.bytes
    else if low == 1
    then ColType.text
    else if low == 2
    then ColType.i64
    else ColType.uuid

-- `==` on `ColType`.
abbrev pub same_type : ColType → ColType → Bool
same_type a b = into_bits a == into_bits b

unfoldable pub pk_count : ℕ → ℕ
pk_count table_id = table_id / 2 ^ 14 + 1

-- The type of a primary key column; its index is below `pk_count`.
unfoldable pub pk_col_type : ℕ → ℕ → ColType
unfolding from_bits
pk_col_type table_id i = from_bits (bit_and (table_id / 2 ^ (12 - 2 * i)) 3)

-- `ColumnId::col_type`, the high two bits.
unfoldable pub column_type : ℕ → ColType
unfolding from_bits
column_type column_id = from_bits (column_id / 2 ^ 6)

-- An i64 is its two's complement pattern, a text its UTF-8 bytes.
pub data Value : Type 0 where
  bytes_value uuid_value text_value : Bytes → Value
  i64_value : ℕ → Value

unfoldable pub value_type : Value → ColType
value_type (Value.bytes_value b) = ColType.bytes
value_type (Value.uuid_value b) = ColType.uuid
value_type (Value.text_value b) = ColType.text
value_type (Value.i64_value i) = ColType.i64
