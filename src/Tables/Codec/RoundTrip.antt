-- ===== src/Tables/Codec/RoundTrip.antt =====
-- Table ops are read back as they were written.
use ubiquisync.Prelude.{ℕ, ◌+◌, ◌≡◌, refl, ◌⊎◌, inl, inr, arith}
use ubiquisync.Prelude.{List, [], ◌∷◌, ◌++◌, append_assoc, append-nil, length, All, Bytes, IsU64}
use ubiquisync.Prelude.{Bool, true, false, ◌||◌, Bool-cases, same_bytes_iff}
use ubiquisync.Prelude.{ok, err}
use ubiquisync.Codec.Varint.{encode_var_u64}
use ubiquisync.Codec.Varint.RoundTrip.{decode_var_u64-encode_var_u64}
use ubiquisync.Codec.Writer.{to_le_bytes}
use ubiquisync.Codec.Reader.{read_byte}
use ubiquisync.Codec.RoundTrip.{read_le-to_le_bytes}
use ubiquisync.Codec.Containers.{each_bytes}
use ubiquisync.Log.Entry.RoundTrip.{len_bytes}
use ubiquisync.Tables.Op.{Op, Upsert, ColumnSet}
use ubiquisync.Tables.Id.{Value}
use ubiquisync.Tables.Validate.Accepts.{PkTyped, ValueTyped}
use ubiquisync.Tables.Codec.{EncodeOpError, OpEncodeError, Codec}
use ubiquisync.Tables.Codec.{encode}
use ubiquisync.Tables.Codec.{read_pk_from, read_pk, read_col_value, read_column_id, read_count}
use ubiquisync.Tables.Codec.{read_sets, read_nulls, decode_one_key, decode_one_value}
use ubiquisync.Tables.Codec.{decode_one_op, do_decode, decode}
use ubiquisync.Tables.Codec.Values.{IsValue, value_bytes, value_has_nul}
use ubiquisync.Tables.Codec.Values.{read_value-bytes}
use ubiquisync.Tables.Codec.Written.{
  any, set_bytes, set_has_nul, IsTypedKey, IsTypedOp, op_has_nul, key_bytes, count_bytes, op_bytes,
  IsKey, IsColumnSet, IsOp, encode_one_op-bytes,
}

or_false : (a b : Bool) → (a || b) ≡ false → (a ≡ false) × (b ≡ false)
or_false a b h = ground arith

read_pk_from-bytes :
    (table_id i : ℕ) (pk : List Value) (rest : Bytes)
    → PkTyped table_id i pk
    → All IsValue pk
    → any value_has_nul pk ≡ false
    → read_pk_from table_id (length pk) i (each_bytes value_bytes pk ++ rest) ≡ ok (pk, rest)
unfolding read_pk_from
read_pk_from-bytes table_id i [] rest t h n = refl
read_pk_from-bytes table_id i (v ∷ pk) rest (t, ts) (h, hs) n =
    let (n₁, n₂) = or_false (value_has_nul v) (any value_has_nul pk) n in
    rw (
      ← t,
      append_assoc (value_bytes v) (each_bytes value_bytes pk) rest,
      read_value-bytes v (each_bytes value_bytes pk ++ rest) h n₁,
      read_pk_from-bytes table_id (i + 1) pk rest ts hs n₂,
    )

read_sets-bytes :
    (sets : List (ColumnSet Value)) (rest : Bytes)
    → All ValueTyped sets
    → All IsColumnSet sets
    → any set_has_nul sets ≡ false
    → read_sets (length sets) (each_bytes set_bytes sets ++ rest) ≡ ok (sets, rest)
unfolding read_sets read_column_id read_byte read_col_value
read_sets-bytes [] rest t h n = refl
read_sets-bytes (s ∷ sets) rest (t, ts) (h, hs) n =
    let (n₁, n₂) = or_false (set_has_nul s) (any set_has_nul sets) n in
    rw (
      append_assoc (value_bytes s.value) (each_bytes set_bytes sets) rest,
      ← t,
      read_value-bytes s.value (each_bytes set_bytes sets ++ rest) h n₁,
      read_sets-bytes sets rest ts hs n₂,
    )

read_nulls-append :
    (nulls : List ℕ) (rest : Bytes) → read_nulls (length nulls) (nulls ++ rest) ≡ ok (nulls, rest)
unfolding read_nulls read_column_id read_byte
read_nulls-append [] rest = refl
read_nulls-append (c ∷ nulls) rest = rw (read_nulls-append nulls rest)

read_count-bytes :
    (n : ℕ) (rest : Bytes) → IsU64 n → read_count (encode_var_u64 n ++ rest) ≡ ok (n, rest)
unfolding read_count
read_count-bytes n rest h = rw (decode_var_u64-encode_var_u64 n rest h) (ground arith)

decode_one_key-bytes :
    (table_id : ℕ) (pk : List Value) (rest : Bytes)
    → IsTypedKey table_id pk
    → IsKey table_id pk
    → any value_has_nul pk ≡ false
    → decode_one_key (key_bytes table_id pk ++ rest) ≡ ok ((table_id, pk), rest)
unfolding decode_one_key read_pk
decode_one_key-bytes table_id pk rest (count, typed) (hid, hpk) n = rw (
  append_assoc (to_le_bytes 2 table_id) (each_bytes value_bytes pk) rest,
  read_le-to_le_bytes 2 table_id (each_bytes value_bytes pk ++ rest) hid,
  ← count,
  read_pk_from-bytes table_id 0 pk rest typed hpk n,
)

decode_one_value-bytes :
    (u : Upsert Value) (rest : Bytes)
    → All ValueTyped u.sets
    → IsOp (Op.upsert u)
    → any set_has_nul u.sets ≡ false
    → decode_one_value (count_bytes u ++ rest) ≡ ok ((u.sets, u.nulls), rest)
unfolding decode_one_value len_bytes
decode_one_value-bytes u rest typed (key, hs, hl, hn) n =
    let sets = each_bytes set_bytes u.sets in
    let count = encode_var_u64 (length u.nulls) in
    rw (
      append_assoc (encode_var_u64 (length u.sets) ++ sets) (count ++ u.nulls) rest,
      append_assoc (encode_var_u64 (length u.sets)) sets ((count ++ u.nulls) ++ rest),
      append_assoc count u.nulls rest,
      read_count-bytes (length u.sets) (sets ++ (count ++ (u.nulls ++ rest))) hl,
      read_sets-bytes u.sets (count ++ (u.nulls ++ rest)) typed hs n,
      read_count-bytes (length u.nulls) (u.nulls ++ rest) hn,
      read_nulls-append u.nulls rest,
    )

pub decode_one_op-bytes :
    (op : Op Value) (rest : Bytes)
    → IsTypedOp op
    → IsOp op
    → op_has_nul op ≡ false
    → decode_one_op (op_bytes op ++ rest) ≡ ok (op, rest)
unfolding decode_one_op op_bytes read_byte
decode_one_op-bytes (Op.upsert u) rest (key, sets) h n =
    let (n₁, n₂) = or_false (any value_has_nul u.primary_key) (any set_has_nul u.sets) n in
    rw (
      append_assoc (key_bytes u.table_id u.primary_key) (count_bytes u) rest,
      decode_one_key-bytes u.table_id u.primary_key (count_bytes u ++ rest) key h.0 n₁,
      decode_one_value-bytes u rest sets h n₂,
    )
decode_one_op-bytes (Op.delete d) rest key h n =
    rw (decode_one_key-bytes d.table_id d.primary_key rest key h n)

-- For an op that is a value of the Rust types and has the arity and the types that its ids declare,
-- one of two cases holds: a text of its key or its sets has a NUL, and encoding is refused with
-- TextContainsNul; or none has, and encoding gives the container of the codec and bytes that it
-- decodes to the same op.
pub decode-encode :
    (codec : Codec) (op : Op Value)
    → IsOp op
    → IsTypedOp op
    → (op_has_nul op ≡ true)
        × (encode codec op ≡ err (OpEncodeError.invalid EncodeOpError.text_contains_nul))
      ⊎ ((op_has_nul op ≡ false)
          × ((bs : Bytes) × (encode codec op ≡ ok (codec.container_id, bs))
              × (decode codec codec.container_id bs ≡ ok op)))
unfolding encode decode do_decode
decode-encode codec op h t = elim (Bool-cases (op_has_nul op)) [
  | inl e ↦ inl (e, rw (encode_one_op-bytes op [] t, e) refl)
  | inr e ↦ inr (
    e,
    (
      op_bytes op,
      rw (encode_one_op-bytes op [] t, e) refl,
      rw
          (
            (same_bytes_iff codec.container_id codec.container_id).1 refl,
            ← append-nil (op_bytes op),
            decode_one_op-bytes op [] t h e,
          )
          refl,
    ),
  )
]
