-- ===== src/Tables/Codec/Inverse.antt =====
-- What the parts of the op decoder accept: the bytes of values that their ids allow.
use ubiquisync.Prelude.{ℕ, zero, suc, ◌+◌, ◌≡◌, refl, sym, ap, arith}
use ubiquisync.Prelude.{List, [], ◌∷◌, ◌++◌, append_assoc, length, All, Bytes, IsByte}
use ubiquisync.Prelude.{IsU64, is_utf8, true, false}
use ubiquisync.Prelude.{if◌then◌else◌, Result, ok, err, ◌>>=◌, >>=-eq-ok, >>=-elim, map_err}
use ubiquisync.Codec.Varint.{encode_var_u64, encode_zigzag_i64}
use ubiquisync.Codec.Reader.{
  read_array, read_len_prefixed, read_zigzag_i64, read_byte, read_var_u64,
}
use ubiquisync.Codec.Containers.{each_bytes}
use ubiquisync.Codec.Inverse.{Inverts, returned, map_err-Inverts, read_len_prefixed-Inverts}
use ubiquisync.Codec.Inverse.{read_slice-Inverts, read_zigzag_i64-Inverts, read_byte-Inverts}
use ubiquisync.Codec.Inverse.{read_var_u64-Inverts}
use ubiquisync.Log.Entry.RoundTrip.{len_bytes}
use ubiquisync.Tables.Op.{ColumnSet}
use ubiquisync.Tables.Id.{ColType, Value, pk_col_type, column_type, value_type}
use ubiquisync.Tables.Validate.Accepts.{PkTyped, ValueTyped}
use ubiquisync.Tables.Codec.{DecodeOpError, has_nul, check_text_for_nul}
use ubiquisync.Tables.Codec.{read_str, read_value, read_pk_from}
use ubiquisync.Tables.Codec.{read_col_value, read_column_id, read_count}
use ubiquisync.Tables.Codec.{read_sets, read_nulls}
use ubiquisync.Tables.Codec.Values.{IsValue, value_bytes, value_has_nul}
use ubiquisync.Tables.Codec.Written.{any, set_bytes, set_has_nul}
use ubiquisync.Tables.Codec.Written.{IsColumnSet}

-- A text that the decoder takes.
abbrev IsText : Bytes → Type 0
IsText s = IsU64 (length s) × (is_utf8 s ≡ true) × (has_nul s ≡ false)

taken :
    (t s : Bytes) (r rest : Bytes)
    → ◌≡◌ {A = Result DecodeOpError (Bytes × Bytes)}
        ((if is_utf8 t then ok tt else err DecodeOpError.utf_conversion) >>= λ (u : Unit {0}).
          map_err (λ x. DecodeOpError.text_contains_nul) (check_text_for_nul t)
          >>= λ (v : Unit {0}). ok (t, r))
        (ok (s, rest))
    → (is_utf8 t ≡ true) × (has_nul t ≡ false) × (t ≡ s) × (r ≡ rest)
unfolding check_text_for_nul
taken t s r rest e = ground arith

read_str-Inverts : Inverts read_str IsText len_bytes
unfolding read_str check_text_for_nul
read_str-Inverts buf s rest h e =
    let ((t, r), en, es) = >>=-eq-ok (map_err DecodeOpError.read (read_len_prefixed buf)) e in
    let (split, fits, left) =
      map_err-Inverts (λ bs. IsU64 (length bs)) len_bytes DecodeOpError.read read_len_prefixed
        read_len_prefixed-Inverts buf t r h es in
    let (utf8, nul, es', er) = taken t s r rest en in
    rw (← es', ← er) (split, (fits, utf8, nul), left)

-- A value that the decoder takes for a type.
abbrev IsRead : ColType → Value → Type 0
IsRead t v = (value_type v ≡ t) × IsValue v × (value_has_nul v ≡ false)

read_value-Inverts : (t : ColType) → Inverts (read_value t) (IsRead t) value_bytes
unfolding read_value value_bytes value_type value_has_nul
read_value-Inverts ColType.bytes buf v rest h e =
    let ((b, r), en, eb) = >>=-eq-ok (map_err DecodeOpError.read (read_len_prefixed buf)) e in
    let (split, fits, left) =
      map_err-Inverts (λ bs. IsU64 (length bs)) len_bytes DecodeOpError.read read_len_prefixed
        read_len_prefixed-Inverts buf b r h eb in
    let (ev, er) = returned en in rw (← ev, ← er) (split, (refl, fits, refl), left)
read_value-Inverts ColType.uuid buf v rest h e =
    let ((b, r), en, eb) = >>=-eq-ok (map_err DecodeOpError.read (read_array 16 buf)) e in
    let (split, len, left) =
      map_err-Inverts (λ bs. length bs ≡ 16) (λ bs. bs) DecodeOpError.read (read_array 16)
        (read_slice-Inverts 16) buf b r h eb in
    let (ev, er) = returned en in rw (← ev, ← er) (split, (refl, len, refl), left)
read_value-Inverts ColType.text buf v rest h e =
    let ((s, r), en, es) = >>=-eq-ok (read_str buf) e in
    let (split, (fits, utf8, nul), left) = read_str-Inverts buf s r h es in
    let (ev, er) = returned en in rw (← ev, ← er) (split, (refl, (fits, utf8), nul), left)
read_value-Inverts ColType.i64 buf v rest h e =
    let ((n, r), en, ei) = >>=-eq-ok (map_err DecodeOpError.read (read_zigzag_i64 buf)) e in
    let (split, fits, left) =
      map_err-Inverts IsU64 encode_zigzag_i64 DecodeOpError.read read_zigzag_i64
        read_zigzag_i64-Inverts buf n r h ei in
    let (ev, er) = returned en in rw (← ev, ← er) (split, (refl, fits, refl), left)

pub read_pk_from-Inverts :
    (table_id n i : ℕ) (buf : Bytes) (pk : List Value) (rest : Bytes)
    → All IsByte buf
    → read_pk_from table_id n i buf ≡ ok (pk, rest)
    → (buf ≡ each_bytes value_bytes pk ++ rest)
      × ((length pk ≡ n) × PkTyped table_id i pk)
      × (All IsValue pk × (any value_has_nul pk ≡ false))
      × All IsByte rest
unfolding read_pk_from
read_pk_from-Inverts table_id zero i buf pk rest h e =
    let (ep, er) = returned e in rw (← ep, ← er) (refl, (refl, tt), (tt, refl), h)
read_pk_from-Inverts table_id (suc n) i buf pk rest h e =
    let t = pk_col_type table_id i in
    let ((v, r), en, ev) = >>=-eq-ok (read_value t buf) e in
    let ((vs, r'), em, evs) = >>=-eq-ok (read_pk_from table_id n (i + 1) r) en in
    let (split, (typed, is, nul), left) = read_value-Inverts t buf v r h ev in
    let (split', (len, typeds), (iss, nuls), left') =
      read_pk_from-Inverts table_id n (i + 1) r vs r' left evs in
    let (ep, er) = returned em in
    rw (← ep, ← er)
      (
        (rw (split, split') (sym (append_assoc (value_bytes v) (each_bytes value_bytes vs) r'))),
        (ap suc len, (typed, typeds)),
        ((is, iss), rw nul nuls),
        left',
      )

pub read_sets-Inverts :
    (n : ℕ) (buf : Bytes) (sets : List (ColumnSet Value)) (rest : Bytes)
    → All IsByte buf
    → read_sets n buf ≡ ok (sets, rest)
    → (buf ≡ each_bytes set_bytes sets ++ rest)
      × ((length sets ≡ n) × All ValueTyped sets)
      × (All IsColumnSet sets × (any set_has_nul sets ≡ false))
      × All IsByte rest
unfolding read_sets read_column_id read_col_value
read_sets-Inverts zero buf sets rest h e =
    let (ep, er) = returned e in rw (← ep, ← er) (refl, (refl, tt), (tt, refl), h)
read_sets-Inverts (suc n) buf sets rest h e =
    >>=-elim (map_err DecodeOpError.read (read_byte buf)) e λ (c, r) ec en.
      >>=-elim (read_value (column_type c) r) en λ (v, r') ev em.
        >>=-elim (read_sets n r') em λ (ss, r'') ess el.
          let (front, _, left) =
            map_err-Inverts IsByte (λ b. b ∷ []) DecodeOpError.read read_byte read_byte-Inverts buf
              c r h ec in
          let (split, (typed, is, nul), left') =
            read_value-Inverts (column_type c) r v r' left ev in
          let (split', (len, typeds), (iss, nuls), left'') =
            read_sets-Inverts n r' ss r'' left' ess in
          let (ep, er) = returned el in
          rw (← ep, ← er)
            (
              (rw (front, split, split')
                  (ap (λ t. c ∷ t)
                    (sym (append_assoc (value_bytes v) (each_bytes set_bytes ss) r'')))),
              (ap suc len, (typed, typeds)),
              ((is, iss), rw nul nuls),
              left'',
            )

pub read_nulls-Inverts :
    (n : ℕ) (buf nulls rest : Bytes)
    → All IsByte buf
    → read_nulls n buf ≡ ok (nulls, rest)
    → (buf ≡ nulls ++ rest) × (length nulls ≡ n) × All IsByte rest
unfolding read_nulls read_column_id
read_nulls-Inverts zero buf nulls rest h e =
    let (ep, er) = returned e in rw (← ep, ← er) (refl, refl, h)
read_nulls-Inverts (suc n) buf nulls rest h e =
    let ((c, r), en, ec) = >>=-eq-ok (map_err DecodeOpError.read (read_byte buf)) e in
    let ((cs, r'), em, ecs) = >>=-eq-ok (read_nulls n r) en in
    let (front, _, left) =
      map_err-Inverts IsByte (λ b. b ∷ []) DecodeOpError.read read_byte read_byte-Inverts buf c r h
        ec in
    let (split, len, left') = read_nulls-Inverts n r cs r' left ecs in
    let (ep, er) = returned em in rw (← ep, ← er) (rw (front, split) refl, ap suc len, left')

pub read_count-Inverts : Inverts read_count IsU64 encode_var_u64
unfolding read_count
read_count-Inverts buf n rest h e =
    let ((m, r), en, em) = >>=-eq-ok (map_err DecodeOpError.read (read_var_u64 buf)) e in
    let (split, fits, left) =
      map_err-Inverts IsU64 encode_var_u64 DecodeOpError.read read_var_u64 read_var_u64-Inverts buf
        m r h em in
    let p : (m ≡ n) × (r ≡ rest) = ground arith in rw (← p.0, ← p.1) (split, fits, left)
