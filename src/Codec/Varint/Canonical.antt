-- ===== src/Codec/Varint/Canonical.antt =====
-- The decoder accepts canonical encodings only.
use ubiquisync.Prelude.{ℕ, zero, suc, ◌+◌, ◌*◌, ◌/◌, ◌%◌, ◌^◌, ◌≤◌, ◌<◌, ◌≡◌, ◌∙◌, sym, ap, arith}
use ubiquisync.Prelude.{[], ◌∷◌, ◌++◌, All, Bytes, IsByte, IsU64, Result, ok}
use ubiquisync.Codec.Varint.{ReadError, encode_loop, decode_loop, encode_var_u64, decode_var_u64}
use ubiquisync.Codec.Varint.Rounds.{ninth_byte, last_byte, inner_byte}
use ubiquisync.Codec.Varint.Rounds.{mul_mono, encode_last, encode_more, next_group, shift_seven}
use ubiquisync.Codec.Varint.RoundTrip.{ninth_round, split_pow}
use native.Mathlib.Decide.{dec_lt}
use native.Mathlib.Nat.{one-le-pow, pow-suc}

-- What the decoder has read from the front of `buf`: the rounds left encode a `w`.
abbrev Read : ℕ → ℕ → ℕ → ℕ → Bytes → ℕ → Bytes → Type 0
Read k i acc s buf x rest =
    (w : ℕ) × (x ≡ acc + w * 2 ^ s)
    × (buf ≡ encode_loop (suc k) w ++ rest)
    × (w < 128 ^ suc k * 2)
    × (0 < i → 0 < w)

-- A final byte of zero after the first is refused, on either exit of the loop.
not_padded :
    (b i acc s : ℕ) (rest : Bytes) {p : ℕ × Bytes}
    → decode_loop (b ∷ rest) i acc s ≡ ok p
    → 0 < i
    → 0 < b
unfolding decode_loop
not_padded zero i acc s rest e h = ground arith
not_padded (suc b) i acc s rest e h = omega arith

le_of_mul-le : (a n m : ℕ) → a * n ≤ m → 1 ≤ n → a ≤ m
le_of_mul-le a n m h hn = grind arith

-- No byte is shifted out of the word.
byte_fits : (b k s : ℕ) → 2 ^ s * 128 ^ k ≤ 2 ^ 56 → b < 256 → b * 2 ^ s < 2 ^ 64
byte_fits b k s h hb = omega (
  arith,
  le_of_mul-le (2 ^ s) (128 ^ k) (2 ^ 56) h (one-le-pow k 128 (omega arith)),
  mul_mono b 255 (2 ^ s) (omega arith),
)

next_room : (k s : ℕ) → 2 ^ s * 128 ^ suc k ≤ 2 ^ 56 → 2 ^ (s + 7) * 128 ^ k ≤ 2 ^ 56
next_room k s h =
    omega (
      arith,
      ap (λ (t : ℕ). 2 ^ s * t) (pow-suc 128 k),
      ap (λ (t : ℕ). t * 128 ^ k) (shift_seven s),
    )

same_result :
    (r : Result ReadError (ℕ × Bytes)) {x y : ℕ} {p q : Bytes}
    → r ≡ ok (x, p)
    → r ≡ ok (y, q)
    → (y ≡ x) × (q ≡ p)
same_result r e f = ground arith

room_for_byte : (k : ℕ) → 128 ≤ 128 ^ suc (suc k)
room_for_byte k = omega (arith, split_pow k, one-le-pow (suc k) 128 (omega arith))

more_bytes :
    (k b w : ℕ) (rest tail : Bytes)
    → 0 < w
    → b ≡ b % 128 + 128
    → rest ≡ encode_loop (suc k) w ++ tail
    → b ∷ rest ≡ encode_loop (suc (suc k)) (b % 128 + 128 * w) ++ tail
more_bytes k b w rest tail hw split eb =
    let low : (b % 128 + 128 * w) % 128 ≡ b % 128 = omega arith in
    let high : (b % 128 + 128 * w) / 128 ≡ w = omega arith in
    rw (encode_more (suc k) (b % 128 + 128 * w) (omega arith), low, high) (cc (split, eb))

decode_loop-Read :
    (buf : Bytes) (k i acc s x : ℕ) (tail : Bytes)
    → All IsByte buf
    → i + suc k ≡ 9
    → acc < 2 ^ s
    → 2 ^ s * 128 ^ k ≤ 2 ^ 56
    → decode_loop buf i acc s ≡ ok (x, tail)
    → Read k i acc s buf x tail
decode_loop-Read [] k i acc s x tail hb hi ha room e = absurd (unfold decode_loop in cc)
decode_loop-Read (b ∷ rest) zero i acc s x tail (hb, _) hi ha room e =
    let pos = not_padded b i acc s rest e (omega arith) in
    let i8 : i ≡ 8 = omega arith in
    let (ex, et) =
      same_result _ (ninth_byte b acc s rest pos ha (byte_fits b 0 s room hb)) (rw i8 at e) in
    (b, ex, rw (ninth_round b (omega arith), et), omega arith, λ _. pos)
decode_loop-Read (b ∷ rest) (suc k) i acc s x tail (hb, hbs) hi ha room e = elim (dec_lt b 128) [
  | yes p ↦
      let pos = not_padded b i acc s rest e in
      let fits = byte_fits b (suc k) s room hb in
      let (ex, et) = same_result _ (last_byte b i acc s rest p (omega arith) pos ha fits) e in
      (b, ex, rw (encode_last (suc k) b p, et), omega (arith, room_for_byte k), pos)
  | no p ↦
      let split : b ≡ b % 128 + 128 = omega arith in
      let fits = byte_fits (b % 128) (suc k) s room (omega arith) in
      let inner = inner_byte (b % 128) i acc s rest (omega arith) (omega arith) ha fits in
      let (w, ex, eb, hw, pos) =
        decode_loop-Read rest k (i + 1) (acc + b % 128 * 2 ^ s) (s + 7) x tail hbs (omega arith)
          (next_group acc (b % 128) s ha (omega arith)) (next_room k s room)
          (sym inner ∙ (rw split at e)) in
      (
        b % 128 + 128 * w,
        omega (arith, ex, ap (λ (t : ℕ). w * t) (shift_seven s)),
        more_bytes k b w rest tail (pos (omega arith)) split eb,
        omega (arith, split_pow k),
        λ _. omega (arith, pos (omega arith)),
      )
]

-- Whatever bytes `decode_var_u64` accepts are the encoding of the u64 that it returns, and then the rest:
-- no number has two encodings.
pub decode_var_u64_canonical :
    (buf : Bytes) (x : ℕ) (rest : Bytes)
    → All IsByte buf
    → decode_var_u64 buf ≡ ok (x, rest)
    → (buf ≡ encode_var_u64 x ++ rest) × IsU64 x
unfolding decode_var_u64 encode_var_u64
decode_var_u64_canonical buf x rest hb e =
    let (w, ex, eb, hw, _) =
      decode_loop-Read buf 8 0 0 0 x rest hb (omega arith) (omega arith) (omega arith) e in
    let same : x ≡ w = omega arith in rw same (eb, omega arith)
