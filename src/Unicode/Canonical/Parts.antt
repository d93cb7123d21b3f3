-- ===== src/Unicode/Canonical/Parts.antt =====
-- fromUTF8 and toUTF8, one sequence length at a time: what a result that is a character says of the
-- bytes, and which bytes a character in the range of that length gets.
use zero_flow.Prelude.{
  ℕ, ◌+◌, ◌*◌, ◌/◌, ◌%◌, ◌^◌, ◌≤◌, ◌<◌, ◌≡◌, ◌≢◌, ◌⊎◌, List, [], ◌∷◌, arith, get_or,
}
use zero_flow.Unicode.Utf8.{
  s_invalid, min_char, sequence_size, extract, cut, check_char, from_sequence, first_char,
  encode_utf8,
}

-- The three checks, read backwards.
pub record Passed (low c v : ℕ) : Type 0 where
  pub same : c ≡ v
  pub minimal : low ≤ v
  pub no_surrogate : (v < 0xd800) ⊎ (0xdfff < v)
  pub no_special : (v < 0xfffe) ⊎ (0xffff < v)

module _ (c : ℕ) (rest : List ℕ) (ok : c ≢ s_invalid) where
  pub check_char_inv : (size v : ℕ) → check_char size v ≡ c → Passed (get_or min_char size 0) c v
  unfolding check_char
  check_char_inv size v h = ground arith

  pub one_parts :
      (a : ℕ) (r : List ℕ)
      → a < 0x80
      → first_char a r ≡ (c, rest)
      → (check_char 1 a ≡ c) × (r ≡ rest)
  unfolding first_char sequence_size from_sequence cut extract
  one_parts a r h e = ground arith

  pub two_parts :
      (a b : ℕ) (r : List ℕ)
      → 0xc0 ≤ a
      → a < 0xe0
      → first_char a (b ∷ r) ≡ (c, rest)
      → (b / 64 ≡ 2) × (check_char 2 (extract 2 (a ∷ b ∷ r)) ≡ c) × (r ≡ rest)
  unfolding first_char sequence_size from_sequence cut
  two_parts a b r h h' e = ground arith

  pub three_parts :
      (a b d : ℕ) (r : List ℕ)
      → 0xe0 ≤ a
      → a < 0xf0
      → first_char a (b ∷ d ∷ r) ≡ (c, rest)
      → (b / 64 ≡ 2) × (d / 64 ≡ 2) × (check_char 3 (extract 3 (a ∷ b ∷ d ∷ r)) ≡ c) × (r ≡ rest)
  unfolding first_char sequence_size from_sequence cut
  three_parts a b d r h h' e = ground arith

  pub four_parts :
      (a b d f : ℕ) (r : List ℕ)
      → 0xf0 ≤ a
      → a < 0xf8
      → first_char a (b ∷ d ∷ f ∷ r) ≡ (c, rest)
      → (b / 64 ≡ 2)
        × (d / 64 ≡ 2)
        × (f / 64 ≡ 2)
        × (check_char 4 (extract 4 (a ∷ b ∷ d ∷ f ∷ r)) ≡ c)
        × (r ≡ rest)
  unfolding first_char sequence_size from_sequence cut
  four_parts a b d f r h h' e = ground arith

  pub five_parts :
      (a b d f g : ℕ) (r : List ℕ)
      → 0xf8 ≤ a
      → a < 0xfc
      → first_char a (b ∷ d ∷ f ∷ g ∷ r) ≡ (c, rest)
      → (b / 64 ≡ 2)
        × (d / 64 ≡ 2)
        × (f / 64 ≡ 2)
        × (g / 64 ≡ 2)
        × (check_char 5 (extract 5 (a ∷ b ∷ d ∷ f ∷ g ∷ r)) ≡ c)
        × (r ≡ rest)
  unfolding first_char sequence_size from_sequence cut
  five_parts a b d f g r h h' e = ground arith

  pub six_parts :
      (a b d f g k : ℕ) (r : List ℕ)
      → 0xfc ≤ a
      → a < 0xfe
      → first_char a (b ∷ d ∷ f ∷ g ∷ k ∷ r) ≡ (c, rest)
      → (b / 64 ≡ 2)
        × (d / 64 ≡ 2)
        × (f / 64 ≡ 2)
        × (g / 64 ≡ 2)
        × (k / 64 ≡ 2)
        × (check_char 6 (extract 6 (a ∷ b ∷ d ∷ f ∷ g ∷ k ∷ r)) ≡ c)
        × (r ≡ rest)
  unfolding first_char sequence_size from_sequence cut
  six_parts a b d f g k r h h' e = ground arith

pub encode_one : (v : ℕ) → v < 0x80 → encode_utf8 v ≡ v ∷ []
unfolding encode_utf8
encode_one v h = ground arith

pub encode_two :
    (a b v : ℕ)
    → 0xc0 ≤ a
    → a < 0xe0
    → b / 64 ≡ 2
    → v ≡ a % 32 * 2 ^ 6 + b % 64
    → 0x80 ≤ v
    → encode_utf8 v ≡ a ∷ b ∷ []
unfolding encode_utf8
encode_two a b v h h' hb e m = ground arith

pub encode_three :
    (a b d v : ℕ)
    → 0xe0 ≤ a
    → a < 0xf0
    → b / 64 ≡ 2
    → d / 64 ≡ 2
    → v ≡ a % 16 * 2 ^ 12 + b % 64 * 2 ^ 6 + d % 64
    → 0x800 ≤ v
    → encode_utf8 v ≡ a ∷ b ∷ d ∷ []
unfolding encode_utf8
encode_three a b d v h h' hb hd e m = ground arith

pub encode_four :
    (a b d f v : ℕ)
    → 0xf0 ≤ a
    → a < 0xf8
    → b / 64 ≡ 2
    → d / 64 ≡ 2
    → f / 64 ≡ 2
    → v ≡ a % 8 * 2 ^ 18 + b % 64 * 2 ^ 12 + d % 64 * 2 ^ 6 + f % 64
    → 0x10000 ≤ v
    → encode_utf8 v ≡ a ∷ b ∷ d ∷ f ∷ []
unfolding encode_utf8
encode_four a b d f v h h' hb hd hf e m = ground arith

pub encode_five :
    (a b d f g v : ℕ)
    → 0xf8 ≤ a
    → a < 0xfc
    → b / 64 ≡ 2
    → d / 64 ≡ 2
    → f / 64 ≡ 2
    → g / 64 ≡ 2
    → v ≡ a % 4 * 2 ^ 24 + b % 64 * 2 ^ 18 + d % 64 * 2 ^ 12 + f % 64 * 2 ^ 6 + g % 64
    → 0x200000 ≤ v
    → encode_utf8 v ≡ a ∷ b ∷ d ∷ f ∷ g ∷ []
unfolding encode_utf8
encode_five a b d f g v h h' hb hd hf hg e m = ground arith

pub encode_six :
    (a b d f g k v : ℕ)
    → 0xfc ≤ a
    → a < 0xfe
    → b / 64 ≡ 2
    → d / 64 ≡ 2
    → f / 64 ≡ 2
    → g / 64 ≡ 2
    → k / 64 ≡ 2
    → v
      ≡ a % 2 * 2 ^ 30
        + b % 64 * 2 ^ 24
        + d % 64 * 2 ^ 18
        + f % 64 * 2 ^ 12
        + g % 64 * 2 ^ 6
        + k % 64
    → 0x4000000 ≤ v
    → encode_utf8 v ≡ a ∷ b ∷ d ∷ f ∷ g ∷ k ∷ []
unfolding encode_utf8
encode_six a b d f g k v h h' hb hd hf hg hk e m = ground arith
