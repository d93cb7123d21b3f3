-- ===== src/Unicode/Progress.antt =====
-- How far fromUTF8 moves on, and the rounds of the loops over a string.
use zero_flow.Prelude.{
  ℕ, zero, suc, ◌%◌, ◌^◌, ◌≤◌, ◌<◌, ◌≡◌, refl, ap, inl, inr, true, false, Bool, List, [], ◌∷◌, some,
  Option-cases, arith, length, drop, length-drop, take_all,
}
use zero_flow.Unicode.Utf8.{
  sequence_size, cut, from_sequence, first_char, take_characters, all_characters, counted_bytes,
  characters,
}

-- The bytes consumed are at least one and at most those that the first byte announced.
pub cut_bounds : (k : ℕ) (bs : List ℕ) (size : ℕ) (t : Bool) → 1 ≤ size → (1 ≤ (cut k bs size t).0)
unfolding cut
cut_bounds zero bs size t h = h
cut_bounds (suc zero) bs size t h = h
cut_bounds (suc (suc k)) bs size t h =
    ground (arith, cut_bounds (suc k) bs size t h, cut_bounds (suc k) bs (suc k) true (omega arith))

sequence_size_pos : (b size : ℕ) → sequence_size b ≡ some size → 1 ≤ size
unfolding sequence_size
sequence_size_pos b size h = ground arith

drop_shorter : (n : ℕ) (b : ℕ) (bs : List ℕ) → 1 ≤ n → length (drop n (b ∷ bs)) ≤ length bs
drop_shorter n b bs h = omega (arith, length-drop n (b ∷ bs))

-- Whatever the bytes are, valid or not, at least one is consumed.
pub first_char_progress : (b : ℕ) (bs : List ℕ) → length (first_char b bs).1 ≤ length bs
unfolding first_char from_sequence
first_char_progress b bs = elim (Option-cases (sequence_size b)) [
  | inl e ↦ rw (e, first_char) (omega arith)
  | inr (size, e) ↦
      rw (e, first_char)
        (ground (
          arith,
          drop_shorter (cut size (b ∷ bs) size false).0 b bs
              (cut_bounds size (b ∷ bs) size false (sequence_size_pos b size e)),
        ))
]

-- Any number of rounds from the number of bytes on gives the same characters.
take_characters_fuel :
    (m n : ℕ) (bs : List ℕ)
    → length bs ≤ m
    → length bs ≤ n
    → take_characters m bs ≡ take_characters n bs
unfolding take_characters
take_characters_fuel zero zero [] h k = refl
take_characters_fuel zero (suc n) [] h k = refl
take_characters_fuel (suc m) zero [] h k = refl
take_characters_fuel (suc m) (suc n) [] h k = refl
take_characters_fuel zero n (b ∷ bs) h k = absurd (omega arith)
take_characters_fuel (suc m) zero (b ∷ bs) h k = absurd (omega arith)
take_characters_fuel (suc m) (suc n) (b ∷ bs) h k = ap (◌∷◌ (first_char b bs).0) (
    take_characters_fuel m n (first_char b bs).1 (omega (arith, first_char_progress b bs))
      (omega (arith, first_char_progress b bs)))

-- One round of the loop over a string.
pub all_characters-cons :
    (b : ℕ) (bs : List ℕ)
    → all_characters (b ∷ bs) ≡ (first_char b bs).0 ∷ all_characters (first_char b bs).1
unfolding all_characters take_characters
all_characters-cons b bs = ap (◌∷◌ (first_char b bs).0) (
    take_characters_fuel (length bs) (length (first_char b bs).1) (first_char b bs).1
      (first_char_progress b bs) (omega arith))

-- The count covers a string of fewer than 2 ^ 32 bytes.
pub counted_bytes_all : (src : List ℕ) → length src < 2 ^ 32 → counted_bytes src ≡ src
unfolding counted_bytes
counted_bytes_all src h = take_all (length src % 2 ^ 32) src (omega arith)

pub characters_all : (src : List ℕ) → length src < 2 ^ 32 → characters src ≡ all_characters src
unfolding characters
characters_all src h = ap all_characters (counted_bytes_all src h)
