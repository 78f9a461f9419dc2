-- ===== src/Tables/Codec/Accepts.antt =====
-- Which ops the codec encodes: those that the ids allow, and every op that validation accepts.
use ubiquisync.Prelude.{ℕ, ◌+◌, ◌≡◌, ◌↔◌, List, [], ◌∷◌, length, All, Bytes, Bool, true, false}
use ubiquisync.Prelude.{◌==◌, ==_iff, if-elim, inl, inr, refl}
use ubiquisync.Prelude.{ok, >>=-elim, map_err}
use ubiquisync.Codec.Writer.{Writer, write_byte, write_le_u16}
use ubiquisync.Codec.Inverse.{map_err_inv}
use ubiquisync.Tables.Op.{Op, Upsert, ColumnSet}
use ubiquisync.Tables.Id.{Value, pk_count, pk_col_type, column_type}
use ubiquisync.Tables.Validate.{validate_upsert}
use ubiquisync.Tables.Validate.Accepts.{PkTyped, ValueTyped, Succeeds, validate_upsert_lem}
use ubiquisync.Tables.Codec.{OpEncodeError, Codec, tag_upsert, tag_delete}
use ubiquisync.Tables.Codec.{write_pk_value, write_pk_from, write_pk, write_col_value, write_sets}
use ubiquisync.Tables.Codec.{encode_one_key, encode_one_value, encode_one_op, encode, decode}
use ubiquisync.Tables.Codec.Values.{unless_nul, write_pk_value-typed, write_typed_value-typed}
use ubiquisync.Tables.Codec.Written.{IsTypedKey, IsTypedOp, op_has_nul, op_bytes, IsOp}
use ubiquisync.Tables.Codec.Written.{encode_one_op-bytes}
use ubiquisync.Tables.Codec.RoundTrip.{decode-encode}

write_pk_from-PkTyped :
    (table_id i : ℕ) (pk : List Value) (w w' : Writer)
    → write_pk_from table_id i pk w ≡ ok w'
    → PkTyped table_id i pk
unfolding write_pk_from
write_pk_from-PkTyped table_id i [] w w' e = tt
write_pk_from-PkTyped table_id i (v ∷ pk) w w' e =
    >>=-elim (write_pk_value (pk_col_type table_id i) v w) e λ x ex d. (
      write_pk_value-typed (pk_col_type table_id i) v w x ex,
      write_pk_from-PkTyped table_id (i + 1) pk x w' d,
    )

encode_one_key-IsTypedKey :
    (table_id : ℕ) (pk : List Value) (w w' : Writer)
    → encode_one_key table_id pk w ≡ ok w'
    → IsTypedKey table_id pk
unfolding encode_one_key write_pk
encode_one_key-IsTypedKey table_id pk w w' e =
    if-elim (length pk == pk_count table_id) e
      (λ count d. (
        (==_iff (length pk) (pk_count table_id)).0 count,
        write_pk_from-PkTyped table_id 0 pk (write_le_u16 table_id w) w' d,
      ))
      (λ other d. cc)

write_sets-ValueTyped :
    (sets : List (ColumnSet Value)) (w w' : Writer)
    → write_sets sets w ≡ ok w'
    → All ValueTyped sets
unfolding write_sets write_col_value
write_sets-ValueTyped [] w w' e = tt
write_sets-ValueTyped (s ∷ sets) w w' e =
    >>=-elim (write_col_value s.column_id s.value (write_byte s.column_id w)) e λ x ex d. (
      write_typed_value-typed (column_type s.column_id) s.value (write_byte s.column_id w) x ex,
      write_sets-ValueTyped sets x w' d,
    )

encode_one_op-IsTypedOp :
    (op : Op Value) (w w' : Writer) → encode_one_op op w ≡ ok w' → IsTypedOp op
unfolding encode_one_op encode_one_value
encode_one_op-IsTypedOp (Op.upsert u) w w' e =
    >>=-elim (encode_one_key u.table_id u.primary_key (write_byte tag_upsert w)) e λ x ex d.
      >>=-elim (write_sets u.sets _) d λ y ey _. (
        encode_one_key-IsTypedKey u.table_id u.primary_key (write_byte tag_upsert w) x ex,
        write_sets-ValueTyped u.sets _ y ey,
      )
encode_one_op-IsTypedOp (Op.delete d) w w' e =
    encode_one_key-IsTypedKey d.table_id d.primary_key (write_byte tag_delete w) w' e

unless_nul-ok : (b : Bool) (w w' : Writer) (bs : Bytes) → unless_nul b w bs ≡ ok w' → b ≡ false
unless_nul-ok true w w' bs e = cc
unless_nul-ok false w w' bs e = refl

-- An op is encoded exactly if its key has the arity and the types that its table id declares, every
-- set has the type of its column id, and no text among them has a NUL.
pub encode_lem :
    (codec : Codec) (op : Op Value)
    → Succeeds (encode codec op) ↔ (IsTypedOp op × (op_has_nul op ≡ false))
unfolding encode
encode_lem codec op = (
  (λ (out, e). >>=-elim (map_err OpEncodeError.invalid (encode_one_op op [])) e λ w ew _.
      let written = map_err_inv OpEncodeError.invalid (encode_one_op op []) ew in
      let typed = encode_one_op-IsTypedOp op [] w written in
      (
        typed,
        unless_nul-ok (op_has_nul op) [] w (op_bytes op)
            (rw (← encode_one_op-bytes op [] typed) written),
      )),
  λ (typed, nul).
      ((codec.container_id, op_bytes op), rw (encode_one_op-bytes op [] typed, nul) refl),
)

-- An upsert that validation accepts, with values of the Rust types and no NUL in a text, is encoded,
-- and decoding gives it back.
pub encode-validate_upsert :
    (codec : Codec) (u : Upsert Value)
    → validate_upsert u ≡ ok tt
    → IsOp (Op.upsert u)
    → op_has_nul (Op.upsert u) ≡ false
    → (bs : Bytes) × (encode codec (Op.upsert u) ≡ ok (codec.container_id, bs))
      × (decode codec codec.container_id bs ≡ ok (Op.upsert u))
encode-validate_upsert codec u valid is nul =
    let (count, typed, sets, _) = (validate_upsert_lem u).0 valid in
    elim (decode-encode codec (Op.upsert u) is ((count, typed), sets)) [
      | inl (has, _) ↦ cc
      | inr (_, back) ↦ back
    ]
