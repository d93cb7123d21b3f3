-- ===== src/Unicode/Utf16.antt =====
-- UTF8ToUCS2, UTF8ToUTF16, doUCS2ToUTF8 and doUTF16ToUTF8 of src/lib/base/Unicode.cpp.
use zero_flow.Prelude.{
  ℕ, ◌+◌, ◌-◌, ◌*◌, ◌/◌, ◌%◌, ◌^◌, Bool, true, false, ◌&&◌, ◌||◌, List, [], ◌∷◌, ◌++◌, ltb, leb,
  ◌==◌, if◌then◌else◌,
}
use zero_flow.Unicode.Utf8.{s_invalid, s_replacement, to_utf8, counted_bytes, characters}

-- Text that was appended, with the error flag.
abbrev pub Text : Type 0
Text = List ℕ × Bool

abbrev pub then_text : Text → Text → Text
then_text (bs, e) (cs, f) = (bs ++ cs, e || f)

-- The two bytes of a uint16_t in memory.
unfoldable pub word_bytes : ℕ → List ℕ
word_bytes w = w % 256 ∷ w / 256 % 256 ∷ []

-- The body of the loop of UTF8ToUCS2.
unfoldable pub ucs2_char : ℕ → Text
ucs2_char c =
    if c == s_invalid
    then (word_bytes s_replacement, false)
    else if leb 0x10000 c
    then (word_bytes s_replacement, true)
    else (word_bytes c, false)

-- The body of the loop of UTF8ToUTF16.
unfoldable pub utf16_char : ℕ → Text
utf16_char c =
    if c == s_invalid
    then (word_bytes s_replacement, false)
    else if leb 0x110000 c
    then (word_bytes s_replacement, true)
    else if ltb c 0x10000
    then (word_bytes c, false)
    else (
      word_bytes ((c - 0x10000) / 2 ^ 10 + 0xd800) ++ word_bytes ((c - 0x10000) % 0x400 + 0xdc00),
      false,
    )

unfoldable pub each_char : (ℕ → Text) → List ℕ → Text
each_char body [] = ([], false)
each_char body (c ∷ cs) = then_text (body c) (each_char body cs)

-- Unicode::UTF8ToUCS2
unfoldable pub utf8_to_ucs2 : List ℕ → Text
utf8_to_ucs2 src = each_char ucs2_char (characters src)

-- Unicode::UTF8ToUTF16
unfoldable pub utf8_to_utf16 : List ℕ → Text
utf8_to_utf16 src = each_char utf16_char (characters src)

unfoldable pub decode16 : ℕ → ℕ → Bool → ℕ
decode16 a b byte_swapped = if byte_swapped then a * 256 + b else b * 256 + a

-- The words that decode16 reads at successive places; `size >> 1` leaves out an odd last byte.
unfoldable pub words : Bool → List ℕ → List ℕ
words byte_swapped [] = []
words byte_swapped (a ∷ []) = []
words byte_swapped (a ∷ b ∷ bs) = decode16 a b byte_swapped ∷ words byte_swapped bs

-- The check of the first character for 0xfeff and 0xfffe.
unfoldable pub skip_mark : List ℕ → List ℕ × Bool
skip_mark [] = ([], false)
skip_mark (a ∷ []) = (a ∷ [], false)
skip_mark (a ∷ b ∷ bs) =
    if decode16 a b false == 0xfeff
    then (bs, false)
    else if decode16 a b false == 0xfffe
    then (bs, true)
    else (a ∷ b ∷ bs, false)

-- Unicode::UCS2ToUTF8 with doUCS2ToUTF8; `(uint32_t)src.size() >> 1` words
unfoldable pub ucs2_to_utf8 : List ℕ → Text
ucs2_to_utf8 src =
    let (bs, swapped) = skip_mark (counted_bytes src) in each_char to_utf8 (words swapped bs)

abbrev pub is_surrogate : ℕ → Bool
is_surrogate c = leb 0xd800 c && leb c 0xdfff

-- toUTF8(dst, s_replacement, nullptr) after setError
unfoldable pub replaced : Text
replaced = ((to_utf8 s_replacement).0, true)

-- The loop of doUTF16ToUTF8 over the words.
unfoldable pub utf16_words : List ℕ → Text
utf16_words [] = ([], false)
utf16_words (c ∷ []) = if is_surrogate c then replaced else to_utf8 c
utf16_words (c ∷ c2 ∷ ws) =
    let after_one = utf16_words (c2 ∷ ws) in
    let after_two = utf16_words ws in
    if is_surrogate c
    then if leb c 0xdbff
      then if ltb c2 0xdc00 || ltb 0xdfff c2
        then then_text replaced after_two
        else then_text (to_utf8 ((c - 0xd800) * 2 ^ 10 + (c2 - 0xdc00) + 0x10000)) after_two
      else then_text replaced after_one
    else then_text (to_utf8 c) after_one

-- Unicode::UTF16ToUTF8 with doUTF16ToUTF8; `(uint32_t)src.size() >> 1` words
unfoldable pub utf16_to_utf8 : List ℕ → Text
utf16_to_utf8 src =
    let (bs, swapped) = skip_mark (counted_bytes src) in utf16_words (words swapped bs)
