-- ===== src/Tables/Codec/Written.antt =====
-- What the codec of table ops writes: the bytes of the op, unless a text has a NUL.
use ubiquisync.Prelude.{ℕ, ◌+◌, ◌^◌, ◌<◌, ◌≡◌, refl, inl, inr, arith}
use ubiquisync.Prelude.{List, [], ◌∷◌, ◌++◌, append_assoc, append-nil, length, All, Bytes, IsU64}
use ubiquisync.Prelude.{Bool, true, false, ◌||◌, Bool-cases}
use ubiquisync.Prelude.{Result, ok, ◌>>=◌}
use ubiquisync.Codec.Varint.{encode_var_u64}
use ubiquisync.Codec.Writer.{Writer, to_le_bytes}
use ubiquisync.Codec.Containers.{each_bytes}
use ubiquisync.Log.Entry.RoundTrip.{len_bytes}
use ubiquisync.Tables.Op.{Op, Upsert, ColumnSet}
use ubiquisync.Tables.Id.{Value, pk_count}
use ubiquisync.Tables.Validate.Accepts.{PkTyped, ValueTyped}
use ubiquisync.Tables.Codec.{EncodeOpError}
use ubiquisync.Tables.Codec.{write_pk_from, write_pk, write_col_value, write_sets, write_nulls}
use ubiquisync.Tables.Codec.{encode_one_key, encode_one_value, encode_one_op}
use ubiquisync.Tables.Codec.Values.{IsValue, value_bytes, value_has_nul, unless_nul}
use ubiquisync.Tables.Codec.Values.{write_pk_value-bytes, write_typed_value-bytes}

abbrev pub any : {A : Type 0} → (A → Bool) → List A → Bool
any f [] = false
any f (x ∷ xs) = f x || any f xs

unless_nul-bind :
    (a b : Bool) (w : Writer) (x y : Bytes) (m : Result EncodeOpError Writer)
    (k : Writer → Result EncodeOpError Writer)
    → m ≡ unless_nul a w x
    → ((w' : Writer) → k w' ≡ unless_nul b w' y)
    → (m >>= k) ≡ unless_nul (a || b) w (x ++ y)
unless_nul-bind true b w x y m k h hk = rw h refl
unless_nul-bind false true w x y m k h hk = rw (h, hk (w ++ x)) refl
unless_nul-bind false false w x y m k h hk = rw (h, hk (w ++ x), append_assoc w x y) refl

abbrev pub set_bytes : ColumnSet Value → Bytes
set_bytes s = s.column_id ∷ value_bytes s.value

abbrev pub set_has_nul : ColumnSet Value → Bool
set_has_nul s = value_has_nul s.value

write_pk_from-bytes :
    (table_id i : ℕ) (pk : List Value) (w : Writer)
    → PkTyped table_id i pk
    → write_pk_from table_id i pk w
      ≡ unless_nul (any value_has_nul pk) w (each_bytes value_bytes pk)
unfolding write_pk_from
write_pk_from-bytes table_id i [] w h = rw append-nil
write_pk_from-bytes table_id i (v ∷ pk) w (t, h) =
    unless_nul-bind (value_has_nul v) (any value_has_nul pk) w (value_bytes v)
      (each_bytes value_bytes pk) _ _ (rw (← t) (write_pk_value-bytes v w))
      (λ w'. write_pk_from-bytes table_id (i + 1) pk w' h)

write_set-bytes :
    (s : ColumnSet Value) (w : Writer)
    → ValueTyped s
    → write_col_value s.column_id s.value (w ++ (s.column_id ∷ []))
      ≡ unless_nul (set_has_nul s) w (set_bytes s)
unfolding write_col_value
write_set-bytes s w t =
    unless_nul-bind false (set_has_nul s) w (s.column_id ∷ []) (value_bytes s.value)
      (ok (w ++ (s.column_id ∷ []))) (write_col_value s.column_id s.value) refl
      (λ w'. rw (← t) (write_typed_value-bytes s.value w'))

write_sets-bytes :
    (sets : List (ColumnSet Value)) (w : Writer)
    → All ValueTyped sets
    → write_sets sets w ≡ unless_nul (any set_has_nul sets) w (each_bytes set_bytes sets)
unfolding write_sets
write_sets-bytes [] w h = rw append-nil
write_sets-bytes (s ∷ sets) w (t, h) =
    unless_nul-bind (set_has_nul s) (any set_has_nul sets) w (set_bytes s)
      (each_bytes set_bytes sets) _ _ (write_set-bytes s w t) (λ w'. write_sets-bytes sets w' h)

write_nulls-bytes : (nulls : List ℕ) (w : Writer) → write_nulls nulls w ≡ w ++ nulls
write_nulls-bytes [] w = rw append-nil
write_nulls-bytes (c ∷ nulls) w =
    rw (write_nulls-bytes nulls (w ++ (c ∷ []))) (append_assoc w (c ∷ []) nulls)

-- The arity and the types that the ids of an op declare.
abbrev pub IsTypedKey : ℕ → List Value → Type 0
IsTypedKey table_id pk = (length pk ≡ pk_count table_id) × PkTyped table_id 0 pk

abbrev pub IsTypedOp : Op Value → Type 0
IsTypedOp (Op.upsert u) = IsTypedKey u.table_id u.primary_key × All ValueTyped u.sets
IsTypedOp (Op.delete d) = IsTypedKey d.table_id d.primary_key

abbrev pub op_has_nul : Op Value → Bool
op_has_nul (Op.upsert u) = any value_has_nul u.primary_key || any set_has_nul u.sets
op_has_nul (Op.delete d) = any value_has_nul d.primary_key

abbrev pub key_bytes : ℕ → List Value → Bytes
key_bytes table_id pk = to_le_bytes 2 table_id ++ each_bytes value_bytes pk

abbrev pub count_bytes : Upsert Value → Bytes
count_bytes u = (encode_var_u64 (length u.sets) ++ each_bytes set_bytes u.sets) ++ len_bytes u.nulls

unfoldable pub op_bytes : Op Value → Bytes
op_bytes (Op.upsert u) = 0 ∷ (key_bytes u.table_id u.primary_key ++ count_bytes u)
op_bytes (Op.delete d) = 1 ∷ key_bytes d.table_id d.primary_key

encode_one_key-bytes :
    (table_id : ℕ) (pk : List Value) (w : Writer)
    → IsTypedKey table_id pk
    → encode_one_key table_id pk w ≡ unless_nul (any value_has_nul pk) w (key_bytes table_id pk)
unfolding encode_one_key write_pk
encode_one_key-bytes table_id pk w (count, typed) =
    unless_nul-bind false (any value_has_nul pk) w (to_le_bytes 2 table_id)
      (each_bytes value_bytes pk) (ok (w ++ to_le_bytes 2 table_id)) (write_pk table_id pk) refl
      (λ w'. ground (arith, write_pk_from-bytes table_id 0 pk w' typed, count))

encode_one_value-bytes :
    (u : Upsert Value) (w : Writer)
    → All ValueTyped u.sets
    → encode_one_value u w ≡ unless_nul (any set_has_nul u.sets) w (count_bytes u)
unfolding encode_one_value len_bytes
encode_one_value-bytes u w h =
    let sets = write_sets-bytes u.sets (w ++ encode_var_u64 (length u.sets)) h in
    elim (Bool-cases (any set_has_nul u.sets)) [
      | inl e ↦ rw (sets, e) refl
      | inr e ↦
          rw
            (
              sets,
              e,
              write_nulls-bytes u.nulls (
                  ((w ++ encode_var_u64 (length u.sets)) ++ each_bytes set_bytes u.sets)
                  ++ encode_var_u64 (length u.nulls)),
            )
            (simp append_assoc)
    ]

pub encode_one_op-bytes :
    (op : Op Value) (w : Writer)
    → IsTypedOp op
    → encode_one_op op w ≡ unless_nul (op_has_nul op) w (op_bytes op)
unfolding encode_one_op op_bytes
encode_one_op-bytes (Op.upsert u) w (key, sets) =
    unless_nul-bind false (op_has_nul (Op.upsert u)) w (0 ∷ [])
      (key_bytes u.table_id u.primary_key ++ count_bytes u) (ok (w ++ (0 ∷ [])))
      (λ w'. encode_one_key u.table_id u.primary_key w' >>= encode_one_value u) refl
      λ w'.
        unless_nul-bind (any value_has_nul u.primary_key) (any set_has_nul u.sets) w'
          (key_bytes u.table_id u.primary_key) (count_bytes u) _ (encode_one_value u)
          (encode_one_key-bytes u.table_id u.primary_key w' key)
          λ w''. encode_one_value-bytes u w'' sets
encode_one_op-bytes (Op.delete d) w key =
    unless_nul-bind false (any value_has_nul d.primary_key) w (1 ∷ [])
      (key_bytes d.table_id d.primary_key) (ok (w ++ (1 ∷ [])))
      (encode_one_key d.table_id d.primary_key) refl
      λ w'. encode_one_key-bytes d.table_id d.primary_key w' key

-- What any value of the Rust types satisfies: a table id is a u16, a column id a u8.
abbrev pub IsKey : ℕ → List Value → Type 0
IsKey table_id pk = (table_id < 256 ^ 2) × All IsValue pk

abbrev pub IsColumnSet : ColumnSet Value → Type 0
IsColumnSet s = IsValue s.value

abbrev pub IsOp : Op Value → Type 0
IsOp (Op.upsert u) =
    IsKey u.table_id u.primary_key
    × All IsColumnSet u.sets
    × IsU64 (length u.sets)
    × IsU64 (length u.nulls)
IsOp (Op.delete d) = IsKey d.table_id d.primary_key
