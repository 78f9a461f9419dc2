-- ===== src/Tables/Validate.antt =====
-- crates/ubiquisync-tables/src/reducer/validate.rs: which ops the reducer takes. The text of an
-- error is left out, and the set of columns that were seen is a list.
pub mod Accepts
pub mod Updates
use ubiquisync.Prelude.{
  ℕ, ◌+◌, List, [], ◌∷◌, length, Bool, ◌==◌, if◌then◌else◌, Result, ok, err, ◌>>=◌,
}
use ubiquisync.Tables.Op.{Op, Upsert, Delete, ColumnSet}
use ubiquisync.Tables.Id.{Value, same_type, pk_count, pk_col_type, column_type, value_type}
use ubiquisync.Tables.Reducer.{has_column}

pub data TablesError : Type 0 where
  db_error schema_error invalid_op invalid_schema init : TablesError

unfoldable pub check_pk_types : ℕ → ℕ → List Value → Result TablesError (Unit {0})
check_pk_types table_id i [] = ok tt
check_pk_types table_id i (v ∷ vs) =
    let rest = check_pk_types table_id (i + 1) vs in
    if same_type (value_type v) (pk_col_type table_id i) then rest else err TablesError.invalid_op

unfoldable pub validate_pk : ℕ → List Value → Result TablesError (Unit {0})
unfolding check_pk_types
validate_pk table_id primary_key =
    if length primary_key == pk_count table_id
    then check_pk_types table_id 0 primary_key
    else err TablesError.invalid_op

unfoldable pub check_value_type : ℕ → Value → Result TablesError (Unit {0})
check_value_type column_id value =
    if same_type (value_type value) (column_type column_id)
    then ok tt
    else err TablesError.invalid_op

unfoldable pub insert_unique : List ℕ → ℕ → Result TablesError (List ℕ)
insert_unique seen column_id =
    if has_column column_id seen then err TablesError.invalid_op else ok (column_id ∷ seen)

-- The loops of `validate_upsert`, each with the columns that were seen before and after it.
unfoldable pub check_sets : List ℕ → List (ColumnSet Value) → Result TablesError (List ℕ)
unfolding check_value_type insert_unique
check_sets seen [] = ok seen
check_sets seen (s ∷ sets) = do
  u ← check_value_type s.column_id s.value
  seen' ← insert_unique seen s.column_id
  check_sets seen' sets

unfoldable pub check_nulls : List ℕ → List ℕ → Result TablesError (List ℕ)
unfolding insert_unique
check_nulls seen [] = ok seen
check_nulls seen (c ∷ nulls) = do seen' ← insert_unique seen c; check_nulls seen' nulls

unfoldable pub validate_upsert : Upsert Value → Result TablesError (Unit {0})
unfolding validate_pk check_sets check_nulls
validate_upsert u = do
  valid ← validate_pk u.table_id u.primary_key
  seen ← check_sets [] u.sets
  seen' ← check_nulls seen u.nulls
  ok tt

unfoldable pub validate_delete : Delete Value → Result TablesError (Unit {0})
unfolding validate_pk
validate_delete d = validate_pk d.table_id d.primary_key
