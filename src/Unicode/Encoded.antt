-- ===== src/Unicode/Encoded.antt =====
-- What fromUTF8 makes of the bytes of a sequence, by the size that its first byte announces.
use zero_flow.Prelude.{
  ℕ, ◌+◌, ◌*◌, ◌/◌, ◌%◌, ◌^◌, ◌≤◌, ◌<◌, ◌≡◌, ◌⊎◌, some, get_or, List, ◌∷◌, ◌++◌, arith,
}
use zero_flow.Unicode.Utf8.{
  min_char, sequence_size, extract, cut, check_char, from_sequence, first_char, from_utf8,
  encode_utf8,
}

-- The characters that fromUTF8 can return: below 2 ^ 31, no surrogate, neither U+FFFE nor U+FFFF.
pub record IsChar (c : ℕ) : Type 0 where
  pub small : c < 2 ^ 31
  pub no_surrogate : (c < 0xd800) ⊎ (0xdfff < c)
  pub no_special : (c < 0xfffe) ⊎ (0xffff < c)

check_char_lem :
    (size c low : ℕ) → get_or min_char size 0 ≡ low → low ≤ c → IsChar c → check_char size c ≡ c
unfolding check_char
check_char_lem size c low e h v = ground arith

abbrev IsTail : ℕ → Type 0
IsTail b = b / 64 ≡ 2

sequence_two :
    (a b v : ℕ) (r : List ℕ)
    → 0xc0 ≤ a
    → a < 0xe0
    → IsTail b
    → v ≡ a % 32 * 64 + b % 64
    → IsChar v
    → 0x80 ≤ v
    → first_char a (b ∷ r) ≡ (v, r)
unfolding first_char sequence_size from_sequence cut extract check_char
sequence_two a b v r ha ha' hb e hv h = ground arith

sequence_three :
    (a b c v : ℕ) (r : List ℕ)
    → 0xe0 ≤ a
    → a < 0xf0
    → IsTail b
    → IsTail c
    → v ≡ a % 16 * 2 ^ 12 + b % 64 * 2 ^ 6 + c % 64
    → IsChar v
    → 0x800 ≤ v
    → first_char a (b ∷ c ∷ r) ≡ (v, r)
unfolding first_char sequence_size from_sequence cut extract check_char
sequence_three a b c v r ha ha' hb hc e hv h = ground arith

sequence_four :
    (a b c d v : ℕ) (r : List ℕ)
    → 0xf0 ≤ a
    → a < 0xf8
    → IsTail b
    → IsTail c
    → IsTail d
    → v ≡ a % 8 * 2 ^ 18 + b % 64 * 2 ^ 12 + c % 64 * 2 ^ 6 + d % 64
    → IsChar v
    → 0x10000 ≤ v
    → first_char a (b ∷ c ∷ d ∷ r) ≡ (v, r)
unfolding first_char sequence_size from_sequence cut extract check_char
sequence_four a b c d v r ha ha' hb hc hd e hv h = ground arith

sequence_five :
    (a b c d e v : ℕ) (r : List ℕ)
    → 0xf8 ≤ a
    → a < 0xfc
    → IsTail b
    → IsTail c
    → IsTail d
    → IsTail e
    → v ≡ a % 4 * 2 ^ 24 + b % 64 * 2 ^ 18 + c % 64 * 2 ^ 12 + d % 64 * 2 ^ 6 + e % 64
    → IsChar v
    → 0x200000 ≤ v
    → first_char a (b ∷ c ∷ d ∷ e ∷ r) ≡ (v, r)
unfolding first_char sequence_size from_sequence cut extract check_char
sequence_five a b c d e v r ha ha' hb hc hd he p hv h = ground arith

sequence_six :
    (a b c d e f v : ℕ) (r : List ℕ)
    → 0xfc ≤ a
    → a < 0xfe
    → IsTail b
    → IsTail c
    → IsTail d
    → IsTail e
    → IsTail f
    → v
      ≡ a % 2 * 2 ^ 30
        + b % 64 * 2 ^ 24
        + c % 64 * 2 ^ 18
        + d % 64 * 2 ^ 12
        + e % 64 * 2 ^ 6
        + f % 64
    → IsChar v
    → 0x4000000 ≤ v
    → first_char a (b ∷ c ∷ d ∷ e ∷ f ∷ r) ≡ (v, r)
unfolding first_char sequence_size from_sequence cut extract check_char
sequence_six a b c d e f v r ha ha' hb hc hd he hf p hv h = ground arith

sequence_one : (a : ℕ) (r : List ℕ) → a < 0x80 → first_char a r ≡ (a, r)
unfolding first_char sequence_size from_sequence cut extract check_char
sequence_one a r h = ground arith

-- A character that toUTF8 wrote is read back, and the bytes behind it are left. It is below 2 ^ 31,
-- not a surrogate, and neither U+FFFE nor U+FFFF.
pub from_utf8-encode :
    (c : ℕ) (r : List ℕ) → IsChar c → from_utf8 (encode_utf8 c ++ r) ≡ some (c, r)
unfolding from_utf8 encode_utf8
from_utf8-encode c r v = ground (
  arith,
  sequence_one c r,
  sequence_two (c / 2 ^ 6 % 0x20 + 0xc0) (c % 0x40 + 0x80) c r,
  sequence_three (c / 2 ^ 12 % 0x10 + 0xe0) (c / 2 ^ 6 % 0x40 + 0x80) (c % 0x40 + 0x80) c r,
  sequence_four (c / 2 ^ 18 % 8 + 0xf0) (c / 2 ^ 12 % 0x40 + 0x80) (c / 2 ^ 6 % 0x40 + 0x80)
      (c % 0x40 + 0x80) c r,
  sequence_five (c / 2 ^ 24 % 4 + 0xf8) (c / 2 ^ 18 % 0x40 + 0x80) (c / 2 ^ 12 % 0x40 + 0x80)
      (c / 2 ^ 6 % 0x40 + 0x80) (c % 0x40 + 0x80) c r,
  sequence_six (c / 2 ^ 30 % 2 + 0xfc) (c / 2 ^ 24 % 0x40 + 0x80) (c / 2 ^ 18 % 0x40 + 0x80)
      (c / 2 ^ 12 % 0x40 + 0x80) (c / 2 ^ 6 % 0x40 + 0x80) (c % 0x40 + 0x80) c r,
)
