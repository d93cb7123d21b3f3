-- ===== src/Unicode/Transcode.antt =====
-- UTF-8 to UTF-16 and UCS-2, and back.
use zero_flow.Prelude.{
  ℕ, ◌+◌, ◌-◌, ◌*◌, ◌/◌, ◌%◌, ◌^◌, ◌<◌, ◌≤◌, length, length-append, ◌≡◌, ◌≢◌, refl, ap, ◌∙◌, true,
  false, List, [], ◌∷◌, ◌++◌, arith, All, All-append, append_assoc, append-nil, ltb, if◌then◌else◌,
}
use zero_flow.Unicode.Utf8.{to_utf8, encode_utf8, characters, is_utf8}
use zero_flow.Unicode.Utf16.{
  then_text, word_bytes, utf16_char, each_char, utf8_to_utf16, decode16, words, skip_mark,
  utf16_words, utf16_to_utf8,
}
use zero_flow.Unicode.Progress.{counted_bytes_all}
use zero_flow.Unicode.Encoded.{IsChar}
use zero_flow.Unicode.Validity.{encode_text, AreChars, to_utf8-IsChar, encode_text-characters}

-- The UTF-16 code units of a character.
units : ℕ → List ℕ
units c =
    if ltb c 0x10000
    then c ∷ []
    else ((c - 0x10000) / 2 ^ 10 + 0xd800) ∷ ((c - 0x10000) % 0x400 + 0xdc00) ∷ []

units_of : List ℕ → List ℕ
units_of [] = []
units_of (c ∷ cs) = units c ++ units_of cs

unfoldable pub memory : List ℕ → List ℕ
memory [] = []
memory (w ∷ ws) = word_bytes w ++ memory ws

pub memory-append : (us ws : List ℕ) → memory (us ++ ws) ≡ memory us ++ memory ws
unfolding memory
memory-append [] ws = refl
memory-append (u ∷ us) ws =
    rw (memory-append us ws, append_assoc (word_bytes u) (memory us) (memory ws))

pub words-memory : (ws : List ℕ) → All (λ w. w < 2 ^ 16) ws → words false (memory ws) ≡ ws
unfolding words memory word_bytes decode16
words-memory [] h = refl
words-memory (w ∷ ws) h = ground (arith, words-memory ws h.1)

utf16_char_lem : (c : ℕ) → IsChar c → c < 0x110000 → utf16_char c ≡ (memory (units c), false)
unfolding utf16_char memory units word_bytes
utf16_char_lem c v h = ground arith

units_small : (c : ℕ) → c < 0x110000 → All (λ w. w < 2 ^ 16) (units c)
unfolding units
units_small c h = ground arith

-- Characters that UTF-16 can hold.
abbrev pub AreUtf16Chars : List ℕ → Type 0
AreUtf16Chars cs = All (λ c. c < 0x110000) cs

each_utf16_char :
    (cs : List ℕ)
    → AreChars cs
    → AreUtf16Chars cs
    → each_char utf16_char cs ≡ (memory (units_of cs), false)
unfolding each_char units_of memory
each_utf16_char [] v h = refl
each_utf16_char (c ∷ cs) v h =
    rw (utf16_char_lem c v.0 h.0, each_utf16_char cs v.1 h.1, memory-append (units c) (units_of cs))

units_of_small : (cs : List ℕ) → AreUtf16Chars cs → All (λ w. w < 2 ^ 16) (units_of cs)
unfolding units_of
units_of_small [] h = tt
units_of_small (c ∷ cs) h =
    All-append (λ w. w < 2 ^ 16) (units c) (units_of cs) (units_small c h.0) (units_of_small cs h.1)

-- A surrogate pair, or a lone word, is put together again.
utf16_words-units :
    (c : ℕ) (ws : List ℕ)
    → IsChar c
    → c < 0x110000
    → utf16_words (units c ++ ws) ≡ then_text (to_utf8 c) (utf16_words ws)
unfolding utf16_words units
utf16_words-units c [] v h = ground (arith, to_utf8-IsChar c v, append-nil (encode_utf8 c))
utf16_words-units c (w ∷ ws) v h = ground (arith, to_utf8-IsChar c v)

utf16_words-units_of :
    (cs : List ℕ)
    → AreChars cs
    → AreUtf16Chars cs
    → utf16_words (units_of cs) ≡ (encode_text cs, false)
unfolding units_of
utf16_words-units_of [] v h = unfold utf16_words in refl
utf16_words-units_of (c ∷ cs) v h =
    utf16_words-units c (units_of cs) v.0 h.0
    ∙ ap (λ t. then_text t (utf16_words (units_of cs))) (to_utf8-IsChar c v.0)
    ∙ ap (then_text (encode_utf8 c, false)) (utf16_words-units_of cs v.1 h.1)

length-memory-units :
    (c : ℕ) → IsChar c → c < 0x110000 → length (memory (units c)) ≤ 2 * length (encode_utf8 c)
unfolding memory units word_bytes encode_utf8
length-memory-units c v h = ground arith

-- UTF-16 takes at most twice the bytes of UTF-8.
length-memory-units_of :
    (cs : List ℕ)
    → AreChars cs
    → AreUtf16Chars cs
    → length (memory (units_of cs)) ≤ 2 * length (encode_text cs)
unfolding units_of
length-memory-units_of [] v h = unfold memory in omega arith
length-memory-units_of (c ∷ cs) v h = rw (memory-append (units c) (units_of cs)) (
    omega (
      arith,
      length-append (memory (units c)) (memory (units_of cs)),
      length-append (encode_utf8 c) (encode_text cs),
      length-memory-units c v.0 h.0,
      length-memory-units_of cs v.1 h.1,
    ))

-- The text does not begin with U+FEFF, which is read as a byte order mark.
abbrev pub HasNoMark : List ℕ → Type 0
HasNoMark [] = Unit
HasNoMark (c ∷ cs) = c ≢ 0xfeff

skip_mark_none :
    (cs : List ℕ)
    → AreChars cs
    → AreUtf16Chars cs
    → HasNoMark cs
    → skip_mark (memory (units_of cs)) ≡ (memory (units_of cs), false)
unfolding skip_mark units_of units memory word_bytes decode16
skip_mark_none [] v h k = refl
skip_mark_none (c ∷ cs) v h k = ground arith

-- A valid text of fewer than 2 ^ 31 bytes whose characters fit UTF-16, and that does not begin with
-- U+FEFF, comes back from UTF-16 unchanged, with no error on the way.
pub utf16_to_utf8-utf8_to_utf16 :
    (s : List ℕ)
    → length s < 2 ^ 31
    → is_utf8 s ≡ true
    → AreUtf16Chars (characters s)
    → HasNoMark (characters s)
    → (utf16_to_utf8 (utf8_to_utf16 s).0 ≡ (s, false)) × ((utf8_to_utf16 s).1 ≡ false)
unfolding utf16_to_utf8 utf8_to_utf16
utf16_to_utf8-utf8_to_utf16 s small valid h k =
    let cs = characters s in
    let read = encode_text-characters s (omega arith) valid in
    let bound = length-memory-units_of cs read.1 h in
    let fits : length (memory (units_of cs)) < 2 ^ 32 = omega (arith, bound, ap length read.0) in
    rw (each_utf16_char cs read.1 h) (
      (rw
          (
            counted_bytes_all (memory (units_of cs)) fits,
            skip_mark_none cs read.1 h k,
            words-memory (units_of cs) (units_of_small cs h),
            utf16_words-units_of cs read.1 h,
          )
          (ap (λ (x : List ℕ). (x, false)) read.0)),
      refl,
    )
