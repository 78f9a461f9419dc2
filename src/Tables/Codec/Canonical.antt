-- ===== src/Tables/Codec/Canonical.antt =====
-- A byte slice that decodes to an op is the encoding of that op.
use ubiquisync.Prelude.{ℕ, ◌^◌, ◌<◌, ◌≡◌, refl, sym, ap, arith, ◌∙◌}
use ubiquisync.Prelude.{List, [], ◌∷◌, ◌++◌, append_assoc, append-nil, length, All, Bytes, IsByte}
use ubiquisync.Prelude.{IsU64, true, false, same_bytes, same_bytes_iff, not}
use mathlib.Core.Path.{subst}
use ubiquisync.Prelude.{◌==◌, ==_iff, if-elim}
use ubiquisync.Prelude.{ok, >>=-elim, map_err}
use ubiquisync.Codec.Writer.{to_le_bytes}
use ubiquisync.Codec.Reader.{read_byte, read_le_u16, is_empty}
use ubiquisync.Codec.Containers.{each_bytes}
use ubiquisync.Codec.Inverse.{
  Inverts, returned, map_err_inv, no_rest, map_err-Inverts, read_byte-Inverts, read_le-Inverts,
}
use ubiquisync.Log.Entry.RoundTrip.{len_bytes}
use ubiquisync.Tables.Op.{Op, Upsert, ColumnSet}
use ubiquisync.Tables.Id.{Value, pk_count}
use ubiquisync.Tables.Validate.Accepts.{ValueTyped}
use ubiquisync.Tables.Codec.{DecodeOpError, OpDecodeError, Codec}
use ubiquisync.Tables.Codec.{read_pk, read_count, tag_upsert, tag_delete}
use ubiquisync.Tables.Codec.{read_sets, read_nulls, decode_one_key, decode_one_value}
use ubiquisync.Tables.Codec.{decode_one_op, encode, do_decode, decode}
use ubiquisync.Tables.Codec.Values.{value_bytes, value_has_nul}
use ubiquisync.Tables.Codec.Written.{any, set_has_nul, IsTypedKey, IsTypedOp, op_has_nul}
use ubiquisync.Tables.Codec.Written.{key_bytes, count_bytes, op_bytes, IsKey, IsColumnSet, IsOp}
use ubiquisync.Tables.Codec.Written.{encode_one_op-bytes}
use ubiquisync.Tables.Codec.Inverse.{read_pk_from-Inverts, read_sets-Inverts, read_nulls-Inverts}
use ubiquisync.Tables.Codec.Inverse.{read_count-Inverts}

abbrev IsReadKey : ℕ × List Value → Type 0
IsReadKey (table_id, pk) =
    IsTypedKey table_id pk × IsKey table_id pk × (any value_has_nul pk ≡ false)

decode_one_key-Inverts :
    Inverts decode_one_key IsReadKey (λ (k : ℕ × List Value). key_bytes k.0 k.1)
unfolding decode_one_key read_pk
decode_one_key-Inverts buf k rest h e =
    >>=-elim (map_err DecodeOpError.read (read_le_u16 buf)) e λ (table_id, r) ei en.
      >>=-elim (read_pk table_id r) en λ (pk, r') ep em.
        let (front, fits, left) =
          map_err-Inverts (λ x. x < 256 ^ 2) (to_le_bytes 2) DecodeOpError.read read_le_u16
            (read_le-Inverts 2) buf table_id r h ei in
        let (split, (len, typed), (iss, nul), left') =
          read_pk_from-Inverts table_id (pk_count table_id) 0 r pk r' left ep in
        let (ek, er) = returned em in
        rw (← ek, ← er)
          (
            (rw (front, split)
                (sym (append_assoc (to_le_bytes 2 table_id) (each_bytes value_bytes pk) r'))),
            ((len, typed), (fits, iss), nul),
            left',
          )

-- The sets and nulls of an upsert, which is all that its `count_bytes` depend on.
abbrev SetsNulls : Type 0
SetsNulls = List (ColumnSet Value) × List ℕ

abbrev with_columns : ℕ → List Value → SetsNulls → Upsert Value
with_columns table_id pk (sets, nulls) = record {
  table_id = table_id;
  primary_key = pk;
  sets = sets;
  nulls = nulls;
}

abbrev IsReadColumns : SetsNulls → Type 0
IsReadColumns (sets, nulls) =
    All ValueTyped sets
    × (All IsColumnSet sets × IsU64 (length sets) × IsU64 (length nulls))
    × (any set_has_nul sets ≡ false)

decode_one_value-Inverts :
    Inverts decode_one_value IsReadColumns (λ c. count_bytes (with_columns 0 [] c))
unfolding decode_one_value len_bytes
decode_one_value-Inverts buf c rest h e = >>=-elim (read_count buf) e λ (n, r₁) e₁ d₁.
    >>=-elim (read_sets n r₁) d₁ λ (sets, r₂) e₂ d₂. >>=-elim (read_count r₂) d₂ λ (m, r₃) e₃ d₃.
      >>=-elim (read_nulls m r₃) d₃ λ (nulls, r₄) e₄ d₄.
        let (s₁, f₁, l₁) = read_count-Inverts buf n r₁ h e₁ in
        let (s₂, (n₂, typed), (iss, nul), l₂) = read_sets-Inverts n r₁ sets r₂ l₁ e₂ in
        let (s₃, f₃, l₃) = read_count-Inverts r₂ m r₃ l₂ e₃ in
        let (s₄, n₄, l₄) = read_nulls-Inverts m r₃ nulls r₄ l₃ e₄ in
        let (ec, er) = returned d₄ in
        rw (← ec, ← er)
          (
            (rw (s₁, s₂, s₃, s₄, ← n₂, ← n₄) (simp append_assoc)),
            (typed, (iss, rw n₂ f₁, rw n₄ f₃), nul),
            l₄,
          )

-- A computed tag is the one it was compared with.
tagged :
    (tag : ℕ) (t : ℕ) (buf r₁ front rest : Bytes)
    → buf ≡ tag ∷ r₁
    → (tag == t) ≡ true
    → r₁ ≡ front ++ rest
    → buf ≡ (t ∷ front) ++ rest
tagged tag t buf r₁ front rest h e k = rw (h, (==_iff tag t).0 e, k) refl

abbrev IsReadOp : Op Value → Type 0
IsReadOp op = IsTypedOp op × IsOp op × (op_has_nul op ≡ false)

decode_one_op-Inverts : Inverts decode_one_op IsReadOp op_bytes
unfolding decode_one_op op_bytes
decode_one_op-Inverts buf op rest h e =
    >>=-elim (map_err DecodeOpError.read (read_byte buf)) e λ (tag, r₁) e₁ d₁.
      let (front, _, l₁) =
        map_err-Inverts IsByte (λ b. b ∷ []) DecodeOpError.read read_byte read_byte-Inverts buf tag
          r₁ h e₁ in
      if-elim (tag == tag_upsert) d₁
        (λ is_upsert d₂. >>=-elim (decode_one_key r₁) d₂ λ ((table_id, pk), r₂) e₂ d₃.
          >>=-elim (decode_one_value r₂) d₃ λ ((sets, nulls), r₃) e₃ d₄.
            let (split, (typed, is, nul), l₂) = decode_one_key-Inverts r₁ (table_id, pk) r₂ l₁ e₂ in
            let (split', (typeds, (iss, f, f'), nuls), l₃) =
              decode_one_value-Inverts r₂ (sets, nulls) r₃ l₂ e₃ in
            let (eo, er) = returned d₄ in
            rw (← eo, ← er)
              (
                (tagged tag 0 buf r₁
                    (key_bytes table_id pk ++ count_bytes (with_columns 0 [] (sets, nulls))) r₃
                    front is_upsert
                    (rw (split, split')
                      (sym (
                        append_assoc (key_bytes table_id pk)
                          (count_bytes (with_columns 0 [] (sets, nulls))) r₃)))),
                ((typed, typeds), (is, iss, f, f'), rw nul nuls),
                l₃,
              ))
        (λ not_upsert d₂.
          if-elim (tag == tag_delete) d₂
            (λ is_delete d₃. >>=-elim (decode_one_key r₁) d₃ λ ((table_id, pk), r₂) e₂ d₄.
              let (split, (typed, is, nul), l₂) =
                decode_one_key-Inverts r₁ (table_id, pk) r₂ l₁ e₂ in
              let (eo, er) = returned d₄ in
              rw (← eo, ← er)
                (
                  tagged tag 1 buf r₁ (key_bytes table_id pk) r₂ front is_delete split,
                  (typed, is, nul),
                  l₂,
                ))
            (λ not_delete d₃. cc))

do_decode-Inverts :
    (codec : Codec) (container_id buf : Bytes) (op : Op Value)
    → All IsByte buf
    → do_decode codec container_id buf ≡ ok op
    → (codec.container_id ≡ container_id) × (buf ≡ op_bytes op) × IsReadOp op
unfolding do_decode
do_decode-Inverts codec container_id buf op h e =
    if-elim (not (same_bytes codec.container_id container_id)) e (λ other d. cc)
      λ same d. >>=-elim (decode_one_op buf) d λ (x, r) ex d₂.
        if-elim (is_empty r) d₂
          (λ empty d₃.
            let (split, is, _) = decode_one_op-Inverts buf x r h ex in
            let eo : x ≡ op = ground arith in
            (
              (same_bytes_iff codec.container_id container_id).0 (ground arith),
              split ∙ rw (no_rest r empty, append-nil) (ap op_bytes eo),
              subst IsReadOp eo is,
            ))
          (λ more d₃. cc)

-- Bytes that the codec decodes are those of its container, and are exactly what it encodes for the
-- op that it returned; that op has the arity and the types that its ids declare and no NUL in a text.
pub encode-decode :
    (codec : Codec) (container_id buf : Bytes) (op : Op Value)
    → All IsByte buf
    → decode codec container_id buf ≡ ok op
    → (encode codec op ≡ ok (container_id, buf)) × IsTypedOp op × (op_has_nul op ≡ false)
unfolding decode encode
encode-decode codec container_id buf op h e =
    let (same, split, (typed, is, nul)) =
      do_decode-Inverts codec container_id buf op h
        (map_err_inv OpDecodeError.invalid (do_decode codec container_id buf) e) in
    (rw (encode_one_op-bytes op [] typed, nul, same, split) refl, typed, nul)
