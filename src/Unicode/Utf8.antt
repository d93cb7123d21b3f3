-- ===== src/Unicode/Utf8.antt =====
-- fromUTF8, toUTF8 and isUTF8 of src/lib/base/Unicode.cpp.
use zero_flow.Prelude.{
  ℕ, zero, suc, ◌+◌, ◌*◌, ◌/◌, ◌%◌, ◌^◌, Bool, true, false, ◌&&◌, ◌||◌, List, [], ◌∷◌, Option, none,
  some, ltb, leb, ◌==◌, if◌then◌else◌, length, get_or, take, drop,
}

abbrev pub s_invalid : ℕ
s_invalid = 0xffff

abbrev pub s_replacement : ℕ
s_replacement = 0xfffd

-- The encoding length that the first byte announces; `none` for a byte that starts no character.
unfoldable pub sequence_size : ℕ → Option ℕ
sequence_size b =
    if ltb b 0x80
    then some 1
    else if ltb b 0xc0
    then none
    else if ltb b 0xe0
    then some 2
    else if ltb b 0xf0
    then some 3
    else if ltb b 0xf8
    then some 4
    else if ltb b 0xfc
    then some 5
    else if ltb b 0xfe
    then some 6
    else none

-- The payload bits of a sequence; the masked fields share no bit, so `|` is a sum.
unfoldable pub extract : ℕ → List ℕ → ℕ
extract size bs =
    if size == 1
    then at 0
    else if size == 2
    then at 0 % 0x20 * 2 ^ 6 + at 1 % 0x40
    else if size == 3
    then at 0 % 0x10 * 2 ^ 12 + at 1 % 0x40 * 2 ^ 6 + at 2 % 0x40
    else if size == 4
    then at 0 % 8 * 2 ^ 18 + at 1 % 0x40 * 2 ^ 12 + at 2 % 0x40 * 2 ^ 6 + at 3 % 0x40
    else if size == 5
    then at 0 % 4 * 2 ^ 24
      + at 1 % 0x40 * 2 ^ 18
      + at 2 % 0x40 * 2 ^ 12
      + at 3 % 0x40 * 2 ^ 6
      + at 4 % 0x40
    else at 0 % 2 * 2 ^ 30
      + at 1 % 0x40 * 2 ^ 24
      + at 2 % 0x40 * 2 ^ 18
      + at 3 % 0x40 * 2 ^ 12
      + at 4 % 0x40 * 2 ^ 6
      + at 5 % 0x40
  where
    at : ℕ → ℕ
    at i = get_or bs i 0

-- The `switch` that falls through from the last byte to the second: a byte that is not 10xxxxxx
-- cuts the sequence before it. The result is the size and the `truncated` flag.
unfoldable pub cut : ℕ → List ℕ → ℕ → Bool → ℕ × Bool
cut zero bs size truncated = (size, truncated)
cut (suc zero) bs size truncated = (size, truncated)
cut (suc (suc k)) bs size truncated =
    if get_or bs (suc k) 0 / 0x40 == 2
    then cut (suc k) bs size truncated
    else cut (suc k) bs (suc k) true

abbrev pub min_char : List ℕ
min_char = 0 ∷ 0 ∷ 0x80 ∷ 0x800 ∷ 0x10000 ∷ 0x200000 ∷ 0x4000000 ∷ []

-- The checks on the extracted character.
unfoldable pub check_char : ℕ → ℕ → ℕ
check_char size c =
    if ltb c (get_or min_char size 0)
    then s_invalid
    else if leb 0xd800 c && leb c 0xdfff
    then s_invalid
    else if leb 0xfffe c && leb c 0xffff
    then s_invalid
    else c

unfoldable pub from_sequence : ℕ → List ℕ → ℕ × List ℕ
from_sequence size bs =
    let (size', truncated) = cut size bs size false in
    (if truncated then s_invalid else check_char size' (extract size bs), drop size' bs)

-- fromUTF8 behind its assertion, for the byte that is there and those behind it: the character and the
-- bytes that are left.
unfoldable pub first_char : ℕ → List ℕ → ℕ × List ℕ
first_char b bs = elim (sequence_size b) [
  | none ↦ (s_invalid, bs)
  | some size ↦ if ltb (length (b ∷ bs)) size then (s_invalid, []) else from_sequence size (b ∷ bs)
]

-- Unicode::fromUTF8; `none` is the failed assertion that there are bytes
unfoldable pub from_utf8 : List ℕ → Option (ℕ × List ℕ)
from_utf8 [] = none
from_utf8 (b ∷ bs) = some (first_char b bs)

-- Unicode::toUTF8: the bytes that are appended, and whether the error flag is set.
unfoldable pub encode_utf8 : ℕ → List ℕ
encode_utf8 c =
    if ltb c 0x80
    then c ∷ []
    else if ltb c 0x800
    then (c / 2 ^ 6 % 0x20 + 0xc0) ∷ (c % 0x40 + 0x80) ∷ []
    else if ltb c 0x10000
    then (c / 2 ^ 12 % 0x10 + 0xe0) ∷ (c / 2 ^ 6 % 0x40 + 0x80) ∷ (c % 0x40 + 0x80) ∷ []
    else if ltb c 0x200000
    then (c / 2 ^ 18 % 8 + 0xf0)
      ∷ (c / 2 ^ 12 % 0x40 + 0x80)
      ∷ (c / 2 ^ 6 % 0x40 + 0x80)
      ∷ (c % 0x40 + 0x80)
      ∷ []
    else if ltb c 0x4000000
    then (c / 2 ^ 24 % 4 + 0xf8)
      ∷ (c / 2 ^ 18 % 0x40 + 0x80)
      ∷ (c / 2 ^ 12 % 0x40 + 0x80)
      ∷ (c / 2 ^ 6 % 0x40 + 0x80)
      ∷ (c % 0x40 + 0x80)
      ∷ []
    else if ltb c 0x80000000
    then (c / 2 ^ 30 % 2 + 0xfc)
      ∷ (c / 2 ^ 24 % 0x40 + 0x80)
      ∷ (c / 2 ^ 18 % 0x40 + 0x80)
      ∷ (c / 2 ^ 12 % 0x40 + 0x80)
      ∷ (c / 2 ^ 6 % 0x40 + 0x80)
      ∷ (c % 0x40 + 0x80)
      ∷ []
    else []

unfoldable pub out_of_range : ℕ → Bool
out_of_range c = leb 0xd800 c && leb c 0xdfff || leb 0x80000000 c

unfoldable pub to_utf8 : ℕ → List ℕ × Bool
to_utf8 c = if out_of_range c then (encode_utf8 s_replacement, true) else (encode_utf8 c, false)

-- The loop head that isUTF8, UTF8ToUCS2 and UTF8ToUTF16 share: while bytes are left, take one
-- character by fromUTF8, whose assertion then holds. `fuel` bounds the rounds.
unfoldable pub take_characters : ℕ → List ℕ → List ℕ
take_characters zero bs = []
take_characters (suc fuel) [] = []
take_characters (suc fuel) (b ∷ bs) =
    let (c, rest) = first_char b bs in c ∷ take_characters fuel rest

-- Each round takes a byte at least, so as many rounds as bytes are enough.
unfoldable pub all_characters : List ℕ → List ℕ
all_characters bs = take_characters (length bs) bs

-- The bytes that the loops see: as many as `(uint32_t)src.size()` says.
unfoldable pub counted_bytes : List ℕ → List ℕ
counted_bytes src = take (length src % 2 ^ 32) src

-- The characters of a string, as the loops take them.
unfoldable pub characters : List ℕ → List ℕ
characters src = all_characters (counted_bytes src)

unfoldable pub all_valid : List ℕ → Bool
all_valid [] = true
all_valid (c ∷ cs) = if c == s_invalid then false else all_valid cs

-- Unicode::isUTF8
unfoldable pub is_utf8 : List ℕ → Bool
is_utf8 src = all_valid (characters src)
