-- ===== src/Unicode/Canonical.antt =====
-- The bytes of a character that fromUTF8 accepts.
mod Parts
use native.Mathlib.Decide.{dec_lt}
use zero_flow.Prelude.{
  ℕ, suc, ◌+◌, ◌*◌, ◌/◌, ◌%◌, ◌^◌, ◌≤◌, ◌<◌, ◌≡◌, ◌≢◌, ◌⊎◌, refl, ap, ◌∙◌, some, List, [], ◌∷◌,
  ◌++◌, arith, get_or, AreBytes, IsByte,
}
use zero_flow.Unicode.Utf8.{
  s_invalid, min_char, sequence_size, extract, cut, check_char, from_sequence, first_char,
  from_utf8, encode_utf8,
}
use zero_flow.Unicode.Encoded.{IsChar}
use Parts.{
  Passed, check_char_inv, one_parts, two_parts, three_parts, four_parts, five_parts, six_parts,
  encode_one, encode_two, encode_three, encode_four, encode_five, encode_six,
}

-- The bytes `bs` were the encoding of `c`, then `rest`.
pub record IsRead (bs : List ℕ) (c : ℕ) (rest : List ℕ) : Type 0 where
  pub split : encode_utf8 c ++ rest ≡ bs
  pub char : IsChar c

-- `extract` gave `v`, and all of the checks passed.
IsRead-of :
    (low c v : ℕ) (w rest : List ℕ)
    → Passed low c v
    → v < 2 ^ 31
    → encode_utf8 v ≡ w
    → IsRead (w ++ rest) c rest
IsRead-of low c v w rest p small e = record {
  split = ap (λ x. x ++ rest) (ap encode_utf8 p.same ∙ e);
  char = record {
    small = omega arith;
    no_surrogate = ground (arith, p.same);
    no_special = ground (arith, p.same);
  };
}

module _ (c : ℕ) (rest : List ℕ) (ok : c ≢ s_invalid) where
  two-IsRead :
      (a : ℕ) (bs : List ℕ)
      → 0xc0 ≤ a
      → a < 0xe0
      → first_char a bs ≡ (c, rest)
      → IsRead (a ∷ bs) c rest
  unfolding first_char sequence_size extract
  two-IsRead a (b ∷ r) h h' e =
      let p = two_parts c rest ok a b r h h' e in
      let v = a % 32 * 2 ^ 6 + b % 64 in
      let q = check_char_inv c rest ok 2 v p.1 in
      rw p.2 (
        IsRead-of 0x80 c v (a ∷ b ∷ []) rest q (omega arith)
          (encode_two a b v h h' p.0 refl q.minimal))
  two-IsRead a bs h h' e = ground arith

  three-IsRead :
      (a : ℕ) (bs : List ℕ)
      → 0xe0 ≤ a
      → a < 0xf0
      → first_char a bs ≡ (c, rest)
      → IsRead (a ∷ bs) c rest
  unfolding first_char sequence_size extract
  three-IsRead a (b ∷ d ∷ r) h h' e =
      let p = three_parts c rest ok a b d r h h' e in
      let v = a % 16 * 2 ^ 12 + b % 64 * 2 ^ 6 + d % 64 in
      let q = check_char_inv c rest ok 3 v p.2 in
      rw p.3 (
        IsRead-of 0x800 c v (a ∷ b ∷ d ∷ []) rest q (omega arith)
          (encode_three a b d v h h' p.0 p.1 refl q.minimal))
  three-IsRead a bs h h' e = ground arith

  four-IsRead :
      (a : ℕ) (bs : List ℕ)
      → 0xf0 ≤ a
      → a < 0xf8
      → first_char a bs ≡ (c, rest)
      → IsRead (a ∷ bs) c rest
  unfolding first_char sequence_size extract
  four-IsRead a (b ∷ d ∷ f ∷ r) h h' e =
      let p = four_parts c rest ok a b d f r h h' e in
      let v = a % 8 * 2 ^ 18 + b % 64 * 2 ^ 12 + d % 64 * 2 ^ 6 + f % 64 in
      let q = check_char_inv c rest ok 4 v p.3 in
      rw p.4 (
        IsRead-of 0x10000 c v (a ∷ b ∷ d ∷ f ∷ []) rest q (omega arith)
          (encode_four a b d f v h h' p.0 p.1 p.2 refl q.minimal))
  four-IsRead a bs h h' e = ground arith

  five-IsRead :
      (a : ℕ) (bs : List ℕ)
      → 0xf8 ≤ a
      → a < 0xfc
      → first_char a bs ≡ (c, rest)
      → IsRead (a ∷ bs) c rest
  unfolding first_char sequence_size extract
  five-IsRead a (b ∷ d ∷ f ∷ g ∷ r) h h' e =
      let p = five_parts c rest ok a b d f g r h h' e in
      let v = a % 4 * 2 ^ 24 + b % 64 * 2 ^ 18 + d % 64 * 2 ^ 12 + f % 64 * 2 ^ 6 + g % 64 in
      let q = check_char_inv c rest ok 5 v p.4 in
      rw p.5 (
        IsRead-of 0x200000 c v (a ∷ b ∷ d ∷ f ∷ g ∷ []) rest q (omega arith)
          (encode_five a b d f g v h h' p.0 p.1 p.2 p.3 refl q.minimal))
  five-IsRead a bs h h' e = ground arith

  six-IsRead :
      (a : ℕ) (bs : List ℕ)
      → 0xfc ≤ a
      → a < 0xfe
      → first_char a bs ≡ (c, rest)
      → IsRead (a ∷ bs) c rest
  unfolding first_char sequence_size extract
  six-IsRead a (b ∷ d ∷ f ∷ g ∷ k ∷ r) h h' e =
      let p = six_parts c rest ok a b d f g k r h h' e in
      let v =
        a % 2 * 2 ^ 30
        + b % 64 * 2 ^ 24
        + d % 64 * 2 ^ 18
        + f % 64 * 2 ^ 12
        + g % 64 * 2 ^ 6
        + k % 64 in
      let q = check_char_inv c rest ok 6 v p.5 in
      rw p.6 (
        IsRead-of 0x4000000 c v (a ∷ b ∷ d ∷ f ∷ g ∷ k ∷ []) rest q (omega arith)
          (encode_six a b d f g k v h h' p.0 p.1 p.2 p.3 p.4 refl q.minimal))
  six-IsRead a bs h h' e = ground arith

  one-IsRead :
      (a : ℕ) (bs : List ℕ) → a < 0x80 → first_char a bs ≡ (c, rest) → IsRead (a ∷ bs) c rest
  one-IsRead a bs h e =
      let p = one_parts c rest ok a bs h e in
      let q = check_char_inv c rest ok 1 a p.0 in
      rw p.1 (IsRead-of 0 c a (a ∷ []) rest q (omega arith) (encode_one a h))

  no_read :
      (a : ℕ) (bs : List ℕ) → (0x80 ≤ a) × (a < 0xc0) ⊎ (0xfe ≤ a) → first_char a bs ≡ (c, rest) → ⊥
  unfolding first_char sequence_size
  no_read a bs h e = ground arith

  encode-first_char : (a : ℕ) (bs : List ℕ) → first_char a bs ≡ (c, rest) → IsRead (a ∷ bs) c rest
  encode-first_char a bs e = elim (dec_lt a 0x80) [
    | yes h ↦ one-IsRead a bs h e
    | no h0 ↦ elim (dec_lt a 0xc0) [
      | yes h ↦ absurd (no_read a bs (omega arith) e)
      | no h1 ↦ elim (dec_lt a 0xe0) [
        | yes h ↦ two-IsRead a bs (omega arith) h e
        | no h2 ↦ elim (dec_lt a 0xf0) [
          | yes h ↦ three-IsRead a bs (omega arith) h e
          | no h3 ↦ elim (dec_lt a 0xf8) [
            | yes h ↦ four-IsRead a bs (omega arith) h e
            | no h4 ↦ elim (dec_lt a 0xfc) [
              | yes h ↦ five-IsRead a bs (omega arith) h e
              | no h5 ↦ elim (dec_lt a 0xfe) [
                | yes h ↦ six-IsRead a bs (omega arith) h e
                | no h6 ↦ absurd (no_read a bs (omega arith) e)
              ]
            ]
          ]
        ]
      ]
    ]
  ]

  -- What fromUTF8 decodes, other than to s_invalid, is a character, and the bytes it took are those
  -- that toUTF8 writes for this character.
  pub encode-from_utf8 :
      (a : ℕ) (bs : List ℕ) → from_utf8 (a ∷ bs) ≡ some (c, rest) → IsRead (a ∷ bs) c rest
  unfolding from_utf8
  encode-from_utf8 a bs e = encode-first_char a bs (cc e)
