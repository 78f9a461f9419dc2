-- ===== src/Codec/Varint/RoundTrip.antt =====
-- `decode_var_u64` reads back what `encode_var_u64` wrote, and the size of what it wrote.
use ubiquisync.Prelude.{ℕ, zero, suc, ◌+◌, ◌*◌, ◌/◌, ◌%◌, ◌^◌, ◌≤◌, ◌<◌, ◌≡◌, ◌∙◌, ap, arith}
use ubiquisync.Prelude.{[], ◌∷◌, ◌++◌, length, All, Bytes, IsByte, IsU64, ok}
use ubiquisync.Codec.Varint.{encode_loop, decode_loop, encode_var_u64, decode_var_u64}
use ubiquisync.Codec.Varint.Rounds.{regroup, ninth_byte, last_byte, inner_byte}
use ubiquisync.Codec.Varint.Rounds.{encode_last, encode_more, next_group}
use native.Mathlib.Nat.{pow-suc}
use native.Mathlib.Decide.{dec_lt}

pub ninth_round : (w : ℕ) → w < 128 ^ 1 * 2 → encode_loop 1 w ≡ w ∷ []
unfolding encode_loop
ninth_round w h = elim (dec_lt w 128) [
  | yes p ↦ encode_last 0 w p
  | no p ↦ ground (arith, encode_more 0 w (omega arith))
]

pub split_pow : (k : ℕ) → 128 ^ suc (suc k) ≡ 128 * 128 ^ suc k
split_pow k = omega (arith, pow-suc 128 (suc k))

-- `w` is what is still to be read, and it counts from bit `s` on.
decode_loop-encode_loop :
    (k w i acc s : ℕ) (rest : Bytes)
    → i + suc k ≡ 9
    → w < 128 ^ suc k * 2
    → (0 < i → 0 < w)
    → acc < 2 ^ s
    → acc + w * 2 ^ s < 2 ^ 64
    → decode_loop (encode_loop (suc k) w ++ rest) i acc s ≡ ok (acc + w * 2 ^ s, rest)
decode_loop-encode_loop zero w i acc s rest hi hw hm ha fits =
    let e : i ≡ 8 = omega arith in
    rw (e, ninth_round w hw) (ninth_byte w acc s rest (hm (omega arith)) ha (omega arith))
decode_loop-encode_loop (suc k) w i acc s rest hi hw hm ha fits = elim (dec_lt w 128) [
  | yes p ↦
      rw (encode_last (suc k) w p) (last_byte w i acc s rest p (omega arith) hm ha (omega arith))
  | no p ↦ rw (encode_more (suc k) w (omega arith)) (
      inner_byte (w % 128) i acc s _ (omega arith) (omega arith) ha (omega (arith, regroup w s))
      ∙ decode_loop-encode_loop k (w / 128) (i + 1) (acc + w % 128 * 2 ^ s) (s + 7) rest
          (omega arith) (omega (arith, split_pow k)) (λ _. omega arith)
          (next_group acc (w % 128) s ha (omega arith)) (omega (arith, regroup w s))
      ∙ ap (λ (t : ℕ). ok (t, rest)) (omega (arith, regroup w s)))
]

-- Decoding an encoded u64 gives the number back and leaves whatever follows it.
pub decode_var_u64-encode_var_u64 :
    (v : ℕ) (rest : Bytes) → IsU64 v → decode_var_u64 (encode_var_u64 v ++ rest) ≡ ok (v, rest)
unfolding encode_var_u64 decode_var_u64
decode_var_u64-encode_var_u64 v rest h =
    decode_loop-encode_loop 8 v 0 0 0 rest (omega arith) h (λ p. absurd (omega arith)) (omega arith)
      (omega arith)
    ∙ ap (λ (t : ℕ). ok (t, rest)) (omega arith)

encode_loop_shape :
    (k v : ℕ)
    → v < 128 ^ suc k * 2
    → All IsByte (encode_loop (suc k) v)
      × (1 ≤ length (encode_loop (suc k) v))
      × (length (encode_loop (suc k) v) ≤ suc k)
encode_loop_shape zero v h = rw (ninth_round v h) (omega arith)
encode_loop_shape (suc k) v h = elim (dec_lt v 128) [
  | yes p ↦ rw (encode_last (suc k) v p) (omega arith)
  | no p ↦
      let (bytes, lo, hi) = encode_loop_shape k (v / 128) (omega (arith, split_pow k)) in
      rw (encode_more (suc k) v (omega arith)) ((omega arith, bytes), omega arith, omega arith)
]

-- An encoded u64 has one to nine elements, and each is a byte.
pub encode_var_u64_shape :
    (v : ℕ)
    → IsU64 v
    → All IsByte (encode_var_u64 v)
      × (1 ≤ length (encode_var_u64 v))
      × (length (encode_var_u64 v) ≤ 9)
unfolding encode_var_u64
encode_var_u64_shape v h = encode_loop_shape 8 v h
