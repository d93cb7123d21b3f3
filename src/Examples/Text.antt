-- ===== src/Examples/Text.antt =====
-- Runs of src/lib/base/Unicode.cpp.
use zero_flow.Prelude.{ℕ, ◌≡◌, refl, false, some, List, [], ◌∷◌, ◌++◌, inl, arith}
use zero_flow.Unicode.Utf8.{
  sequence_size, extract, cut, check_char, from_sequence, first_char, from_utf8, encode_utf8,
  take_characters, counted_bytes, all_characters, characters, all_valid, is_utf8,
}
use zero_flow.Unicode.Utf16.{
  ucs2_char, each_char, utf8_to_ucs2, utf8_to_utf16, utf16_to_utf8, word_bytes,
}
use zero_flow.Unicode.Encoded.{IsChar, from_utf8-encode}
use zero_flow.Unicode.Canonical.{IsRead, encode-from_utf8}
use zero_flow.Unicode.Transcode.{utf16_to_utf8-utf8_to_utf16}

-- A letter and U+20AC.
abbrev two_bytes_and_more : List ℕ
two_bytes_and_more = 0x41 ∷ 0xe2 ∷ 0x82 ∷ 0xac ∷ []

-- A letter and U+1F600, which UTF-16 writes as two words.
abbrev with_smiley : List ℕ
with_smiley = 0x41 ∷ 0xf0 ∷ 0x9f ∷ 0x98 ∷ 0x80 ∷ []

-- The first byte of a sequence whose second byte is missing.
abbrev broken : List ℕ
broken = 0x41 ∷ 0xe2 ∷ 0x41 ∷ []

euro_IsChar : IsChar 0x20ac
euro_IsChar = record {
  small = omega arith;
  no_surrogate = inl (omega arith);
  no_special = inl (omega arith);
}

broken-is_utf8 : is_utf8 broken ≡ false
unfolding is_utf8 counted_bytes characters all_characters take_characters first_char from_sequence
    sequence_size cut extract check_char all_valid
broken-is_utf8 = refl

euro-utf8_to_ucs2 : utf8_to_ucs2 two_bytes_and_more ≡ (0x41 ∷ 0 ∷ 0xac ∷ 0x20 ∷ [], false)
unfolding utf8_to_ucs2 each_char ucs2_char counted_bytes characters all_characters take_characters
    first_char from_sequence sequence_size cut extract check_char word_bytes
euro-utf8_to_ucs2 = refl

from_utf8-encode_example : from_utf8 (encode_utf8 0x20ac ++ (0x41 ∷ [])) ≡ some (0x20ac, 0x41 ∷ [])
from_utf8-encode_example = from_utf8-encode 0x20ac (0x41 ∷ []) euro_IsChar

encode-from_utf8_example : IsRead (0xe2 ∷ 0x82 ∷ 0xac ∷ 0x41 ∷ []) 0x20ac (0x41 ∷ [])
unfolding from_utf8 first_char from_sequence sequence_size cut extract check_char
encode-from_utf8_example =
    encode-from_utf8 0x20ac (0x41 ∷ []) (omega arith) 0xe2 (0x82 ∷ 0xac ∷ 0x41 ∷ []) refl

utf16_to_utf8-utf8_to_utf16_example :
    (utf16_to_utf8 (utf8_to_utf16 with_smiley).0 ≡ (with_smiley, false))
    × ((utf8_to_utf16 with_smiley).1 ≡ false)
unfolding is_utf8 counted_bytes characters all_characters take_characters first_char from_sequence
    sequence_size cut extract check_char all_valid
utf16_to_utf8-utf8_to_utf16_example =
    utf16_to_utf8-utf8_to_utf16 with_smiley (omega arith) refl (omega arith, (omega arith, tt))
      (omega arith)
