-- ===== src/Pack/Names.antt =====
-- Topics, and the text of a `PackFileId` in file names: crates/ubiquisync-core/src/pack/filename.rs. A
-- string is its UTF-8 bytes; the hexadecimal numbers of `format!` and `from_str_radix` are those of the
-- standard library.
pub mod Hex
pub mod RoundTrip
use ubiquisync.Prelude.{ℕ, zero, suc, ◌+◌, ◌-◌, ◌*◌, ◌/◌, ◌%◌, ◌^◌, List, [], ◌∷◌, ◌++◌, length}
use ubiquisync.Prelude.{Bytes, ltb, leb, ◌==◌, ◌&&◌, ◌||◌, not, Bool, true, false, if◌then◌else◌}
use ubiquisync.Prelude.{same_bytes, Result, ok, err, ◌>>=◌, ok_or, Option, none, some}
use ubiquisync.Pack.{PackFileId}

-- A topic is its parts.
abbrev pub Topic : Type 0
Topic = List Bytes

pub data TopicError : Type 0 where
  topic_error : TopicError

abbrev is_digit_or_lowercase : ℕ → Bool
is_digit_or_lowercase c = (leb 48 c && leb c 57) || (leb 97 c && leb c 122)

abbrev pub all_chars : Bytes → Bool
all_chars [] = true
all_chars (c ∷ part) = is_digit_or_lowercase c && all_chars part

abbrev is_empty_part : Bytes → Bool
is_empty_part [] = true
is_empty_part (c ∷ part) = false

unfoldable pub validate_topic : Topic → Result TopicError (Unit {0})
validate_topic [] = ok tt
validate_topic (part ∷ topic) =
    let rest = validate_topic topic in
    if is_empty_part part || not (all_chars part) then err TopicError.topic_error else rest

-- `Topic::new`.
unfoldable pub new_topic : List Bytes → Result TopicError Topic
unfolding validate_topic
new_topic parts = do u ← validate_topic parts; ok parts

unfoldable pub sub_topic : Topic → Bytes → Result TopicError Topic
unfolding validate_topic
sub_topic topic part = do u ← validate_topic (topic ++ (part ∷ [])); ok (topic ++ (part ∷ []))

-- The parts with `_` before each, joined by `/`.
abbrev pub joined : Bytes → Topic → Bytes
joined part [] = 95 ∷ part
joined part (p ∷ topic) = (95 ∷ part) ++ (47 ∷ joined p topic)

unfoldable pub dir : Topic → Bytes
dir [] = 95 ∷ []
dir (part ∷ topic) = joined part topic

-- The digit of a number below 16.
abbrev pub digit : ℕ → ℕ
digit d = if ltb d 10 then 48 + d else 87 + d

-- `{:x}`, for a number of at most so many digits.
unfoldable pub hex : ℕ → ℕ → Bytes
hex zero n = []
hex (suc k) n =
    let front = hex k (n / 16) in if ltb n 16 then digit n ∷ [] else front ++ (digit (n % 16) ∷ [])

abbrev pub zero_digits : ℕ → Bytes
zero_digits zero = []
zero_digits (suc n) = 48 ∷ zero_digits n

-- `{:0w$x}` of a u64.
unfoldable pub hex_padded : ℕ → ℕ → Bytes
unfolding hex
hex_padded w n = let s = hex 16 n in zero_digits (w - length s) ++ s

unfoldable pub display : PackFileId → Bytes
unfolding hex_padded
display f =
    hex_padded 4 f.seqs.start
    ++ (45 ∷ hex_padded 4 f.seqs.end
        ++ (45 ∷ hex_padded 16 f.id ++ (45 ∷ hex_padded 2 f.generation)))

pub data ParseFileNameError : Type 0 where
  parse_file_name_error : ParseFileNameError

-- `s.split('-')`.
abbrev pub prepend : ℕ → List Bytes → List Bytes
prepend c [] = (c ∷ []) ∷ []
prepend c (p ∷ parts) = (c ∷ p) ∷ parts

abbrev pub split : ℕ → Bytes → List Bytes
split sep [] = [] ∷ []
split sep (c ∷ s) = if c == sep then [] ∷ split sep s else prepend c (split sep s)

-- `u64::from_str_radix(_, 16)`: an optional plus sign, then at least one digit of either case.
unfoldable pub digit_value : ℕ → Option ℕ
digit_value c =
    if leb 48 c && leb c 57
    then some (c - 48)
    else if leb 97 c && leb c 102
    then some (c - 87)
    else if leb 65 c && leb c 70
    then some (c - 55)
    else none

unfoldable pub next_digit : ℕ → ℕ → Option ℕ
unfolding digit_value
next_digit acc c = elim (digit_value c) [
  | none ↦ none
  | some d ↦ if ltb (acc * 16 + d) (2 ^ 64) then some (acc * 16 + d) else none
]

unfoldable pub parse_digits : ℕ → Bytes → Option ℕ
unfolding next_digit
parse_digits acc [] = some acc
parse_digits acc (c ∷ s) = elim (next_digit acc c) [ none ↦ none | some acc' ↦ parse_digits acc' s ]

abbrev pub strip_plus : Bytes → Bytes
strip_plus [] = []
strip_plus (c ∷ s) = if c == 43 then s else c ∷ s

unfoldable pub parse_stripped : Bytes → Option ℕ
unfolding parse_digits
parse_stripped [] = none
parse_stripped (c ∷ s) = parse_digits 0 (c ∷ s)

unfoldable pub from_hex : Bytes → Option ℕ
unfolding parse_stripped
from_hex s = parse_stripped (strip_plus s)

-- `parse_part`, with the parts that are left.
unfoldable pub parse_part : List Bytes → Result ParseFileNameError (ℕ × List Bytes)
unfolding from_hex
parse_part [] = err ParseFileNameError.parse_file_name_error
parse_part (p ∷ parts) = do
  n ← ok_or ParseFileNameError.parse_file_name_error (from_hex p)
  ok (n, parts)

abbrev pub is_some_part : List Bytes → Bool
is_some_part [] = false
is_some_part (p ∷ parts) = true

unfoldable pub from_str : Bytes → Result ParseFileNameError PackFileId
unfolding parse_part display
from_str s = do
  (start, p₁) ← parse_part (split 45 s)
  (end, p₂) ← parse_part p₁
  (id, p₃) ← parse_part p₂
  (generation, p₄) ← parse_part p₃
  let file : PackFileId = record {
    seqs = record { start = start; end = end };
    id = id;
    generation = generation;
  }
  if is_some_part p₄ || leb end start
      then err ParseFileNameError.parse_file_name_error
      else if not (same_bytes (display file) s)
      then err ParseFileNameError.parse_file_name_error
      else ok file
