-- ===== src/Unicode/Ucs2.antt =====
-- UTF8ToUCS2 and back, and the error flags of the two conversions from UTF-8.
use zero_flow.Prelude.{
  ℕ, ◌*◌, ◌^◌, length, length-append, ◌≤◌, ◌<◌, ◌≡◌, ◌↔◌, refl, ap, true, false, List, [], ◌∷◌,
  arith, All, ◌⊎◌, inl, inr, Bool, ◌||◌,
}
use zero_flow.Unicode.Utf8.{encode_utf8, to_utf8, characters, is_utf8}
use zero_flow.Unicode.Progress.{counted_bytes_all}
use zero_flow.Unicode.Encoded.{IsChar}
use zero_flow.Unicode.Utf16.{
  Text, word_bytes, utf16_char, ucs2_char, each_char, utf8_to_ucs2, utf8_to_utf16, decode16,
  skip_mark, ucs2_to_utf8,
}
use zero_flow.Unicode.Validity.{encode_text, AreChars, to_utf8-IsChar, encode_text-characters}
use zero_flow.Unicode.Transcode.{memory, words-memory, HasNoMark}

abbrev pub AreUcs2Chars : List ℕ → Type 0
AreUcs2Chars cs = All (λ c. c < 2 ^ 16) cs

each_ucs2_char :
    (cs : List ℕ) → AreChars cs → AreUcs2Chars cs → each_char ucs2_char cs ≡ (memory cs, false)
unfolding each_char memory ucs2_char
each_ucs2_char [] v h = refl
each_ucs2_char (c ∷ cs) v h = ground (arith, each_ucs2_char cs v.1 h.1)

each_to_utf8 : (cs : List ℕ) → AreChars cs → each_char to_utf8 cs ≡ (encode_text cs, false)
unfolding each_char
each_to_utf8 [] v = refl
each_to_utf8 (c ∷ cs) v = rw (to_utf8-IsChar c v.0, each_to_utf8 cs v.1)

skip_mark_none :
    (cs : List ℕ)
    → AreChars cs
    → AreUcs2Chars cs
    → HasNoMark cs
    → skip_mark (memory cs) ≡ (memory cs, false)
unfolding skip_mark memory word_bytes decode16
skip_mark_none [] v h k = refl
skip_mark_none (c ∷ cs) v h k = ground arith

length-encode_utf8 : (c : ℕ) → IsChar c → 1 ≤ length (encode_utf8 c)
unfolding encode_utf8
length-encode_utf8 c v = ground arith

length-memory : (cs : List ℕ) → AreChars cs → length (memory cs) ≤ 2 * length (encode_text cs)
unfolding memory word_bytes
length-memory [] v = omega arith
length-memory (c ∷ cs) v = omega (
  arith,
  length-append (encode_utf8 c) (encode_text cs),
  length-encode_utf8 c v.0,
  length-memory cs v.1,
)

-- A valid text of fewer than 2 ^ 31 bytes, of characters below 2 ^ 16, that does not begin with
-- U+FEFF, comes back from UCS-2 unchanged, with no error on the way.
pub ucs2_to_utf8-utf8_to_ucs2 :
    (s : List ℕ)
    → length s < 2 ^ 31
    → is_utf8 s ≡ true
    → AreUcs2Chars (characters s)
    → HasNoMark (characters s)
    → (ucs2_to_utf8 (utf8_to_ucs2 s).0 ≡ (s, false)) × ((utf8_to_ucs2 s).1 ≡ false)
unfolding ucs2_to_utf8 utf8_to_ucs2
ucs2_to_utf8-utf8_to_ucs2 s small valid h k =
    let cs = characters s in
    let read = encode_text-characters s (omega arith) valid in
    let bound = length-memory cs read.1 in
    let fits : length (memory cs) < 2 ^ 32 = omega (arith, bound, ap length read.0) in
    rw (each_ucs2_char cs read.1 h) (
      (rw
          (
            counted_bytes_all (memory cs) fits,
            skip_mark_none cs read.1 h k,
            words-memory cs h,
            each_to_utf8 cs read.1,
          )
          (ap (λ (x : List ℕ). (x, false)) read.0)),
      refl,
    )

-- Some character is `limit` or more.
abbrev pub Exceeds : ℕ → List ℕ → Type 0
Exceeds limit [] = ⊥
Exceeds limit (c ∷ cs) = (limit ≤ c) ⊎ Exceeds limit cs

utf16_char_error : (c : ℕ) → ((utf16_char c).1 ≡ true) ↔ (0x110000 ≤ c)
unfolding utf16_char
utf16_char_error c = (ground arith, ground arith)

ucs2_char_error : (c : ℕ) → ((ucs2_char c).1 ≡ true) ↔ (0x10000 ≤ c)
unfolding ucs2_char
ucs2_char_error c = (ground arith, ground arith)

or_true : (a b : Bool) → (a || b ≡ true) ↔ ((a ≡ true) ⊎ (b ≡ true))
or_true a b = (ground arith, ground arith)

each_error :
    (body : ℕ → Text) (limit : ℕ)
    → ((c : ℕ) → ((body c).1 ≡ true) ↔ (limit ≤ c))
    → (cs : List ℕ) → ((each_char body cs).1 ≡ true) ↔ Exceeds limit cs
unfolding each_char
each_error body limit h [] = ((λ e. cc), (λ e. absurd e))
each_error body limit h (c ∷ cs) =
    let ih = each_error body limit h cs in
    let o = or_true (body c).1 (each_char body cs).1 in
    (
      (λ e. elim (o.0 e) [ inl a ↦ inl ((h c).0 a) | inr b ↦ inr (ih.0 b) ]),
      (λ e. o.1 (elim e [ inl a ↦ inl ((h c).1 a) | inr b ↦ inr (ih.1 b) ])),
    )

-- The conversions set the error flag exactly when a character does not fit the target: 0x110000 or
-- more for UTF-16, 0x10000 or more for UCS-2. Malformed input alone does not set it.
pub conversion_errors :
    (s : List ℕ)
    → (((utf8_to_utf16 s).1 ≡ true) ↔ Exceeds 0x110000 (characters s))
      × (((utf8_to_ucs2 s).1 ≡ true) ↔ Exceeds 0x10000 (characters s))
unfolding utf8_to_utf16 utf8_to_ucs2
conversion_errors s = (
  each_error utf16_char 0x110000 utf16_char_error (characters s),
  each_error ucs2_char 0x10000 ucs2_char_error (characters s),
)
