-- ===== src/Codec/Containers.antt =====
-- Options and vectors: `read_option` and `read_vec` undo `write_option` and `write_vec`, for a
-- callback that is undone element by element.
use ubiquisync.Prelude.{◌≡◌, refl, sym, ap, ◌∙◌, arith}
use ubiquisync.Prelude.{List, [], ◌∷◌, ◌++◌, append_assoc, append-nil, length, All, Bytes, IsU64}
use ubiquisync.Prelude.{Result, ok, Option, none, some}
use ubiquisync.Codec.Varint.{ReadError, encode_var_u64}
use ubiquisync.Codec.Writer.{Writer}
use ubiquisync.Codec.Writer.{write_option, write_each, write_vec}
use ubiquisync.Codec.Reader.{Read}
use ubiquisync.Codec.Reader.{read_option}
use ubiquisync.Codec.Reader.{read_each, read_vec}
use ubiquisync.Codec.RoundTrip.{read_var_usize-encode_var_u64}

-- What an encoder appends for each value that satisfies `P`, and that a decoder reads it back.
abbrev pub Writes :
    {A E : Type 0} → (A → Writer → Result E Writer) → (A → Type 0) → (A → Bytes) → Type 0
Writes {A} enc P bytes = (a : A) (w : Writer) → P a → enc a w ≡ ok (w ++ bytes a)

abbrev pub Reads : {A E : Type 0} → Read E A → (A → Type 0) → (A → Bytes) → Type 0
Reads {A} dec P bytes = (a : A) (rest : Bytes) → P a → dec (bytes a ++ rest) ≡ ok (a, rest)

abbrev pub option_bytes : {A : Type 0} → (A → Bytes) → Option A → Bytes
option_bytes bytes none = 0 ∷ []
option_bytes bytes (some a) = 1 ∷ bytes a

abbrev pub OnSome : {A : Type 0} → (A → Type 0) → Option A → Type 0
OnSome P none = Unit {0}
OnSome P (some a) = P a

abbrev pub each_bytes : {A : Type 0} → (A → Bytes) → List A → Bytes
each_bytes bytes [] = []
each_bytes bytes (a ∷ as') = bytes a ++ each_bytes bytes as'

abbrev pub vec_bytes : {A : Type 0} → (A → Bytes) → List A → Bytes
vec_bytes bytes as' = encode_var_u64 (length as') ++ each_bytes bytes as'

module _ {A : Type 0} (P : A → Type 0) (bytes : A → Bytes) where
  pub write_option-bytes :
      (f : A → Writer → Writer)
      → ((a : A) (w : Writer) → P a → f a w ≡ w ++ bytes a)
      → (o : Option A) (w : Writer) → OnSome P o
      → write_option o f w ≡ w ++ option_bytes bytes o
  unfolding write_option
  write_option-bytes f hf none w h = refl
  write_option-bytes f hf (some a) w h =
      rw (hf a (w ++ (1 ∷ [])) h, append_assoc w (1 ∷ []) (bytes a))

  pub read_option-bytes :
      {E : Type 0} (from : ReadError → E) (dec : Read E A)
      → Reads dec P bytes
      → Reads (read_option from dec) (OnSome P) (option_bytes bytes)
  unfolding read_option
  read_option-bytes from dec hd none rest h = refl
  read_option-bytes from dec hd (some a) rest h = rw (hd a rest h)

  write_each-bytes :
      {E : Type 0} (f : A → Writer → Result E Writer)
      → Writes f P bytes
      → Writes (λ (v : List A) w. write_each f v w) (All P) (each_bytes bytes)
  unfolding write_each
  write_each-bytes f hf [] w h = rw append-nil
  write_each-bytes f hf (a ∷ as') w (ha, has) = rw (
    hf a w ha,
    write_each-bytes f hf as' (w ++ bytes a) has,
    append_assoc w (bytes a) (each_bytes bytes as'),
  )

  -- What `write_vec` appends, given what its callback appends for one element.
  pub write_vec-bytes :
      {E : Type 0} (f : A → Writer → Result E Writer)
      → Writes f P bytes
      → Writes (λ (v : List A) w. write_vec v f w) (All P) (vec_bytes bytes)
  unfolding write_vec
  write_vec-bytes f hf v w h = rw (
    write_each-bytes f hf v (w ++ encode_var_u64 (length v)) h,
    append_assoc w (encode_var_u64 (length v)) (each_bytes bytes v),
  )

  read_each-bytes :
      {E : Type 0} (from : ReadError → E) (dec : Read E A)
      → Reads dec P bytes
      → (v : List A) (rest : Bytes) → All P v
      → read_each from dec (length v) (each_bytes bytes v ++ rest) ≡ ok (v, rest)
  unfolding read_each
  read_each-bytes from dec hd [] rest h = refl
  read_each-bytes from dec hd (a ∷ as') rest (ha, has) = rw (
    append_assoc (bytes a) (each_bytes bytes as') rest,
    hd a (each_bytes bytes as' ++ rest) ha,
    read_each-bytes from dec hd as' rest has,
  )

  -- `read_vec` reads back a vector whose elements its callback reads back.
  pub read_vec-bytes :
      {E : Type 0} (from : ReadError → E) (dec : Read E A)
      → Reads dec P bytes
      → (v : List A) (rest : Bytes) → All P v
      → IsU64 (length v)
      → read_vec from dec (vec_bytes bytes v ++ rest) ≡ ok (v, rest)
  unfolding read_vec
  read_vec-bytes from dec hd v rest h fits =
      rw
        (
          append_assoc (encode_var_u64 (length v)) (each_bytes bytes v) rest,
          read_var_usize-encode_var_u64 (length v) (each_bytes bytes v ++ rest) fits,
        )
        (read_each-bytes from dec hd v rest h)

  -- Writing a vector succeeds, and reading what was appended gives its elements back in order and
  -- leaves whatever follows, if the callbacks write and read back each element and the length of
  -- the vector fits the word.
  pub read_vec-write_vec :
      {E D : Type 0} (f : A → Writer → Result E Writer) (from : ReadError → D) (dec : Read D A)
      → Writes f P bytes
      → Reads dec P bytes
      → (v : List A) (w rest : Bytes) → All P v
      → IsU64 (length v)
      → (bs : Bytes) × (write_vec v f w ≡ ok (w ++ bs))
        × (read_vec from dec (bs ++ rest) ≡ ok (v, rest))
  read_vec-write_vec f from dec hf hd v w rest h fits =
      (vec_bytes bytes v, write_vec-bytes f hf v w h, read_vec-bytes from dec hd v rest h fits)

-- What is read back tells the value and what follows it.
pub Reads-injective :
    {A E : Type 0} (P : A → Type 0) (bytes : A → Bytes) (dec : Read E A)
    → Reads dec P bytes
    → (a b : A) (x y : Bytes) → P a
    → P b
    → bytes a ++ x ≡ bytes b ++ y
    → (a ≡ b) × (x ≡ y)
Reads-injective P bytes dec hd a b x y ha hb e =
    let same = sym (hd a x ha) ∙ ap dec e ∙ hd b y hb in ground (arith, same)
