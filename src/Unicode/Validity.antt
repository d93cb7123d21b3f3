-- ===== src/Unicode/Validity.antt =====
-- isUTF8 against the encoding of a list of characters.
use zero_flow.Prelude.{
  ℕ, zero, suc, ◌^◌, ◌≤◌, ◌<◌, ◌≡◌, ◌≢◌, refl, ap, sym, ◌∙◌, true, false, some, List, [], ◌∷◌, ◌++◌,
  arith, All, length,
}
use zero_flow.Unicode.Utf8.{
  s_invalid, encode_utf8, to_utf8, out_of_range, first_char, from_utf8, take_characters,
  all_characters, characters, all_valid, is_utf8,
}
use zero_flow.Unicode.Progress.{all_characters-cons, characters_all, first_char_progress}
use zero_flow.Unicode.Encoded.{IsChar, from_utf8-encode}
use zero_flow.Unicode.Canonical.{encode-from_utf8}

-- The bytes that successive calls of toUTF8 append.
abbrev pub encode_text : List ℕ → List ℕ
encode_text [] = []
encode_text (c ∷ cs) = encode_utf8 c ++ encode_text cs

abbrev pub AreChars : List ℕ → Type 0
AreChars cs = All IsChar cs

pub to_utf8-IsChar : (c : ℕ) → IsChar c → to_utf8 c ≡ (encode_utf8 c, false)
unfolding to_utf8 out_of_range
to_utf8-IsChar c v = ground arith

IsChar-ne-invalid : (c : ℕ) → IsChar c → c ≢ s_invalid
IsChar-ne-invalid c v e = ground arith

-- One round of the loop, where it reads a character.
all_characters_step :
    (bs : List ℕ) (c : ℕ) (rest : List ℕ)
    → c ≢ s_invalid
    → from_utf8 bs ≡ some (c, rest)
    → all_characters bs ≡ c ∷ all_characters rest
unfolding from_utf8
all_characters_step [] c rest h e = absurd (cc e)
all_characters_step (b ∷ bs) c rest h e =
    let same : first_char b bs ≡ (c, rest) = cc e in
    all_characters-cons b bs ∙ ap (λ (p : ℕ × List ℕ). p.0 ∷ all_characters p.1) same

-- The loops read back the characters of an encoded text.
all_characters-encode_text : (cs : List ℕ) → AreChars cs → all_characters (encode_text cs) ≡ cs
all_characters-encode_text [] v = unfold all_characters take_characters in refl
all_characters-encode_text (c ∷ cs) v =
    all_characters_step (encode_text (c ∷ cs)) c (encode_text cs) (IsChar-ne-invalid c v.0)
      (from_utf8-encode c (encode_text cs) v.0)
    ∙ ap (◌∷◌ c) (all_characters-encode_text cs v.1)

all_valid-AreChars : (cs : List ℕ) → AreChars cs → all_valid cs ≡ true
unfolding all_valid
all_valid-AreChars [] v = refl
all_valid-AreChars (c ∷ cs) v = ground (arith, all_valid-AreChars cs v.1, IsChar-ne-invalid c v.0)

-- isUTF8 accepts every text of fewer than 2 ^ 32 bytes that toUTF8 writes from characters: numbers
-- below 2 ^ 31 other than surrogates, U+FFFE and U+FFFF.
pub is_utf8-encode_text :
    (cs : List ℕ) → AreChars cs → length (encode_text cs) < 2 ^ 32 → is_utf8 (encode_text cs) ≡ true
unfolding is_utf8
is_utf8-encode_text cs v h =
    rw (characters_all (encode_text cs) h, all_characters-encode_text cs v)
      (all_valid-AreChars cs v)

all_valid-cons :
    (c : ℕ) (cs : List ℕ) → all_valid (c ∷ cs) ≡ true → (c ≢ s_invalid) × (all_valid cs ≡ true)
unfolding all_valid
all_valid-cons c cs h = ground arith

valid_fuel :
    (m : ℕ) (bs : List ℕ)
    → length bs ≤ m
    → all_valid (take_characters m bs) ≡ true
    → (encode_text (take_characters m bs) ≡ bs) × AreChars (take_characters m bs)
unfolding take_characters
valid_fuel zero [] h k = (refl, tt)
valid_fuel zero (b ∷ bs) h k = absurd (omega arith)
valid_fuel (suc m) [] h k = (refl, tt)
valid_fuel (suc m) (b ∷ bs) h k =
    let c = (first_char b bs).0 in
    let rest = (first_char b bs).1 in
    let v = all_valid-cons c (take_characters m rest) k in
    let read = encode-from_utf8 c rest v.0 b bs (unfold from_utf8 in refl) in
    let ih = valid_fuel m rest (omega (arith, first_char_progress b bs)) v.1 in
    (ap (λ x. encode_utf8 c ++ x) ih.0 ∙ read.split, (read.char, ih.1))

-- What isUTF8 accepts is the encoding of the characters that the loops take from it, for a text of
-- fewer than 2 ^ 32 bytes.
pub encode_text-characters :
    (src : List ℕ)
    → length src < 2 ^ 32
    → is_utf8 src ≡ true
    → (encode_text (characters src) ≡ src) × AreChars (characters src)
unfolding is_utf8 all_characters
encode_text-characters src small h =
    let same = characters_all src small in
    rw same (valid_fuel (length src) src (omega arith) (sym (ap all_valid same) ∙ h))
