-- ===== src/Examples/Validate.antt =====
-- An upsert of an i64 column and a null text column, in a table with one key column of bytes.
use ubiquisync.Prelude.{◌≡◌, ◌↔◌, refl, [], ◌∷◌, All, length, ok, err}
use ubiquisync.Tables.Op.{Upsert}
use ubiquisync.Tables.Id.{Value, pk_count, pk_col_type, column_type, value_type}
use ubiquisync.Tables.Validate.{TablesError, validate_upsert}
use ubiquisync.Tables.Validate.Accepts.{PkTyped, ValueTyped, Distinct, columns, validate_upsert_lem}

abbrev sample : Upsert Value
sample = record {
  table_id = 7;
  primary_key = Value.bytes_value (1 ∷ []) ∷ [];
  sets = record { column_id = 130; value = Value.i64_value 40 } ∷ [];
  nulls = 65 ∷ [];
}

twice_refused : validate_upsert (record sample { nulls = 130 ∷ [] }) ≡ err TablesError.invalid_op
unfolding validate_upsert pk_count pk_col_type column_type value_type
twice_refused = refl

validate_upsert_lem_example : (validate_upsert sample ≡ ok tt) ↔ (
    (length sample.primary_key ≡ pk_count 7)
    × PkTyped 7 0 sample.primary_key
    × All ValueTyped sample.sets
    × Distinct (columns sample))
validate_upsert_lem_example = validate_upsert_lem sample
